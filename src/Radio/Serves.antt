-- ===== src/Radio/Serves.antt =====
-- What src/hardware/lostik.rs has written, has to transmit and has heard since a point in time.
use lora_mesh_rs.Prelude.{
  everything, ℕ, ◌≡◌, refl, sym, false, ap, ◌∙◌, List, [], ◌∷◌, ◌++◌, Option, none, some, All,
  All-append, subst, true, append-nil, append_assoc,
}
use lora_mesh_rs.Prelude.Text.{codes}
use lora_mesh_rs.Prelude.Post.{Settles}
use lora_mesh_rs.Radio.{Line, Device, LoStik, tx_line, starts_with, slice_from}
use lora_mesh_rs.Radio.Keeps.{Command, Closed}
use lora_mesh_rs.Radio.Loop.{RadioInput, enqueue}

-- A line that the loop writes: a command, or one that transmits a frame with `P`.
pub data Sent ⦃dev : Device⦄ (P : List ℕ → Type 0) : Line → Type 0 where
  told : {line : Line} → Command line → Sent P line
  sent : {bytes : List ℕ} → P bytes → Sent P (tx_line bytes)

-- The frames that come in a round have `P`.
abbrev pub Arrives : (List ℕ → Type 0) → RadioInput → Type 0
Arrives P i = All P i.arrived × All (All P) i.burst

bursts : (burst : List (List (List ℕ))) → All (All (λ _. Unit {0})) burst
bursts [] = tt
bursts (frames ∷ burst) = (everything frames, bursts burst)

-- Frames of which nothing is said.
pub any_arrivals : (inputs : List RadioInput) → All (Arrives (λ _. Unit)) inputs
any_arrivals [] = tt
any_arrivals (i ∷ inputs) = ((everything i.arrived, bursts i.burst), any_arrivals inputs)

abbrev pub Held : (List ℕ → Type 0) → Option (List ℕ) → Type 0
Held P none = Unit
Held P (some frame) = P frame

-- What is to be known of a radio: of the frames that it is given, of the bytes that it hears, of
-- the lines that the device sends, and `Fails` of a call that panics.
pub record Terms : Type 1 where
  pub Fails : Type 0
  pub Fit : Line → Type 0
  pub Given : List ℕ → Type 0
  pub Heard : List ℕ → Type 0

-- What the terms rest on: what `hex` decodes, and whether a packet can be cut out of a line.
pub record IsFair ⦃dev : Device⦄ (t : Terms) : Type 0 where
  pub decodes : (text : Line) (bytes : List ℕ) → dev.decode text ≡ some bytes → t.Heard bytes
  pub slices :
      (line : Line)
      → t.Fit line
      → starts_with line (codes "radio_rx ") ≡ true
      → Settles t.Fails (λ _. Unit) (slice_from line 10)

-- Since it was as `before`, the radio has written only such lines; the frames in its queue, what it
-- has heard and the lines that will come are as the terms say.
pub record Serves ⦃dev : Device⦄ (t : Terms) (before l : LoStik) : Type 0 where
  pub since : List Line
  pub connected_is : l.connected ≡ before.connected
  pub written_is : l.written ≡ before.written ++ since
  pub sends : All (Sent t.Given) since
  pub queued : All t.Given l.queue
  pub heard_have : All t.Heard l.heard
  pub lines_fit : All t.Fit l.lines

module _ ⦃dev : Device⦄ (t : Terms) (before : LoStik) where
  pub Serves-refl :
      All t.Given before.queue
      → All t.Heard before.heard
      → All t.Fit before.lines
      → Serves t before before
  Serves-refl q r f = record {
    since = [];
    connected_is = refl;
    written_is = sym (append-nil before.written);
    sends = tt;
    queued = q;
    heard_have = r;
    lines_fit = f;
  }

  Serves-writes :
      (l : LoStik) (line : Line)
      → Sent t.Given line
      → Serves t before l
      → Serves t before (record l { written = l.written ++ line ∷ [] })
  Serves-writes l line w v = record {
    since = v.since ++ line ∷ [];
    connected_is = v.connected_is;
    written_is =
        ap (λ xs. xs ++ line ∷ []) v.written_is ∙ append_assoc before.written v.since (line ∷ []);
    sends = All-append (Sent t.Given) v.since (line ∷ []) v.sends (w, tt);
    queued = v.queued;
    heard_have = v.heard_have;
    lines_fit = v.lines_fit;
  }

  -- The same lines written, with other contents of the three channels.
  Serves-channels :
      (l : LoStik) (queue heard : List (List ℕ)) (lines : List Line)
      → All t.Given queue
      → All t.Heard heard
      → All t.Fit lines
      → Serves t before l
      → Serves t before (record l { queue = queue; heard = heard; lines = lines })
  Serves-channels l queue heard lines q r f v = record {
    since = v.since;
    connected_is = v.connected_is;
    written_is = v.written_is;
    sends = v.sends;
    queued = q;
    heard_have = r;
    lines_fit = f;
  }

  pub Serves-queue :
      (l : LoStik) (queue : List (List ℕ))
      → All t.Given queue
      → Serves t before l
      → Serves t before (record l { queue = queue })
  Serves-queue l queue q v = Serves-channels l queue l.heard l.lines q v.heard_have v.lines_fit v

  pub Serves-enqueue :
      (l : LoStik) (frames : List (List ℕ))
      → All t.Given frames
      → Serves t before l
      → Serves t before (enqueue l frames)
  Serves-enqueue l frames a v =
      Serves-queue l (l.queue ++ frames) (All-append t.Given l.queue frames v.queued a) v

  pub Serves-heard :
      (l : LoStik) (heard : List (List ℕ))
      → All t.Heard heard
      → Serves t before l
      → Serves t before (record l { heard = heard })
  Serves-heard l heard r v = Serves-channels l l.queue heard l.lines v.queued r v.lines_fit v

  pub Serves-read :
      (l : LoStik) (line : Line) (rest : List Line)
      → l.lines ≡ line ∷ rest
      → Serves t before l
      → Serves t before (record l { lines = rest }) × t.Fit line
  Serves-read l line rest e v =
      let fit = subst (All t.Fit) e v.lines_fit in
      (Serves-channels l l.queue l.heard rest v.queued v.heard_have fit.1 v, fit.0)

  -- Where `serialloop` has ended after the lines that come, `Fails`.
  abbrev pub Cut : Type 0
  Cut = before.connected ≡ false → t.Fails

  pub Serves-Closed : Cut → IsFair t → Closed t.Fails t.Fit (Sent t.Given) (Serves t before)
  Serves-Closed cut fair = record {
    ends = λ l o v. cut (sym v.connected_is ∙ o);
    commands = λ line w. told w;
    writes = Serves-writes;
    reads = Serves-read;
    hears = λ l text bytes e v.
        Serves-heard l (l.heard ++ bytes ∷ [])
          (All-append t.Heard l.heard (bytes ∷ []) v.heard_have (fair.decodes text bytes e, tt)) v;
    slices = fair.slices;
  }
