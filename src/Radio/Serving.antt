-- ===== src/Radio/Serving.antt =====
-- What the loop of src/hardware/lostik.rs writes and hears since a point in time, as rules.
use lora_mesh_rs.Prelude.{ℕ, List}
use lora_mesh_rs.Prelude.Post.{Settles}
use lora_mesh_rs.Radio.{Line, Device, LoStik, ignore, onrx, rxstart, rxstop, tx}
use lora_mesh_rs.Radio.Keeps.{
  Closed, ignore-Keeps, rxstart-Keeps, rxstop-Keeps, onrx-Keeps, tx-Keeps,
}
use lora_mesh_rs.Radio.Serves.{
  Sent, sent, Serves, Serves-queue, Serves-Closed, Serves-read, Terms, IsFair, Cut,
}
use lora_mesh_rs.Radio.Rules.{Rules}

module _ ⦃dev : Device⦄ (t : Terms) (fair : IsFair t) (before : LoStik) (cut : Cut t before) where
  c : Closed t.Fails t.Fit (Sent t.Given) (Serves t before)
  c = Serves-Closed t before cut fair

  pub started :
      (l : LoStik) → Serves t before l → Settles t.Fails (Serves t before) (ignore (rxstart l))
  started l v =
      ignore-Keeps t.Fails _ (rxstart l) (rxstart-Keeps t.Fails t.Fit (Sent t.Given) _ c l v)

  pub stopped :
      (l : LoStik) → Serves t before l → Settles t.Fails (Serves t before) (ignore (rxstop l))
  stopped l v =
      ignore-Keeps t.Fails _ (rxstop l) (rxstop-Keeps t.Fails t.Fit (Sent t.Given) _ c l v)

  pub transmitted :
      (l : LoStik) (frame : List ℕ)
      → t.Given frame
      → Serves t before l
      → Settles t.Fails (Serves t before) (ignore (tx l frame))
  transmitted l frame p v =
      ignore-Keeps t.Fails _ (tx l frame)
        (tx-Keeps t.Fails t.Fit (Sent t.Given) _ c l frame (sent p) v)

  pub handled :
      (l : LoStik) (msg : Line)
      → t.Fit msg
      → Serves t before l
      → Settles t.Fails (Serves t before) (ignore (onrx l msg))
  handled l msg f v =
      ignore-Keeps t.Fails _ (onrx l msg) (onrx-Keeps t.Fails t.Fit (Sent t.Given) _ c l msg f v)

  -- It does not matter whether the radio receives.
  abbrev pub serving : Rules t
  serving = record {
    Q = λ on l. Serves t before l;
    queued = λ on l v. v.queued;
    requeues = λ on. Serves-queue t before;
    reads = λ on. Serves-read t before;
    starts = λ on. started;
    stops = λ on. stopped;
    transmits = λ on. transmitted;
    handles = λ on. handled;
  }
