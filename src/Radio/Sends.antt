-- ===== src/Radio/Sends.antt =====
-- The lines that `radioloop` of src/hardware/lostik.rs writes, and where the frames in them come
-- from.
use lora_mesh_rs.Prelude.{false, ℕ, ◌≡◌, List, ◌++◌, All, everything}
use lora_mesh_rs.Prelude.Outcome.{ok}
use lora_mesh_rs.Prelude.Post.{Settles-elim, anything}
use lora_mesh_rs.Radio.{Line, Device, LoStik, slice_from}
use lora_mesh_rs.Radio.Loop.{LoopState, RadioInput, radioloop}
use lora_mesh_rs.Radio.Serves.{Terms, IsFair, Sent, Arrives, Serves-refl}
use lora_mesh_rs.Radio.Serving.{serving}
use lora_mesh_rs.Radio.Rules.{Loops}
use lora_mesh_rs.Radio.Rounds.{loop-Loops}

module _ ⦃dev : Device⦄ where
  -- Let the frames in the queue and those that the node hands over have any property `P`. After
  -- rounds of the radio loop that end, on whatever the limiter says and the device answers, what
  -- was written since the start are commands for the lights and the receiver, and lines that
  -- transmit frames with `P`; the frames still in the queue have `P` as well.
  pub radioloop-Sent :
      (P : List ℕ → Type 0) (inputs : List RadioInput) (l : LoStik) (s : LoopState)
      → All P l.queue
      → All (Arrives P) inputs
      → radioloop inputs l ≡ ok s
      → (since : List Line) × (s.radio.written ≡ l.written ++ since)
        × All (Sent P) since
        × All P s.radio.queue
  radioloop-Sent P inputs l s q a e =
      let t : Terms = record { Fails = Unit; Fit = λ _. Unit; Given = P; Heard = λ _. Unit } in
      let fair : IsFair t = record {
        decodes = λ text bytes d. tt;
        slices = λ line f packet. anything (slice_from line 10);
      } in
      let (v, _) =
        Settles-elim Unit (Loops t (serving t fair l (λ _. tt))) (radioloop inputs l) s
          (loop-Loops t (serving t fair l (λ _. tt)) inputs false l a
            (Serves-refl t l q (everything l.heard) (everything l.lines)))
          e in
      (v.since, v.written_is, v.sends, v.queued)
