-- ===== src/Radio/Turns.antt =====
-- `radioloop` of src/hardware/lostik.rs, where first packets are heard, and then the node hands
-- frames over.
use lora_mesh_rs.Prelude.{
  ℕ, ◌≡◌, refl, sym, ap, ◌∙◌, Bool, List, [], ◌∷◌, ◌++◌, All, append_assoc, append-nil, none, true,
  false,
}
use lora_mesh_rs.Prelude.Outcome.{Outcome, ok, ◌>>=◌, bind_assoc}
use lora_mesh_rs.Prelude.Text.{codes}
use lora_mesh_rs.Util.{IsByte}
use lora_mesh_rs.Radio.{Line, Device, LoStik, ignore, rxstart}
use lora_mesh_rs.Radio.Mode.{AlwaysAccepts}
use lora_mesh_rs.Radio.Loop.{
  LoopState, RadioInput, with_next, check_lines, send_part, radio_round, radio_rounds, radioloop,
}
use lora_mesh_rs.Radio.Drain.{
  after, good, goods, turn, turns, answers, receiving, rxstart-after, transmit-receiving,
}
use lora_mesh_rs.Radio.Hears.{reports, restarts, attentive_each, hearing, rounds-hearing}

-- The node hands over one frame. The limiter grants the check before it, refuses another frame in
-- the inner loop, and grants the check behind it.
abbrev pub handed : List ℕ → RadioInput
handed frame = record {
  arrived = frame ∷ [];
  may_send = true;
  burst = [];
  may_still = true;
  line_ready = false;
}

abbrev pub handed_each : List (List ℕ) → List RadioInput
handed_each [] = []
handed_each (frame ∷ frames) = handed frame ∷ handed_each frames

-- What is written, where these packets are heard, and then these frames transmitted.
abbrev pub begun : List Line
begun = codes "radio rx 0" ∷ codes "sys set pindig GPIO11 1" ∷ []

abbrev pub spoken : ⦃dev : Device⦄ → List (List ℕ) → List (List ℕ) → List Line
spoken packets frames = (begun ++ restarts packets) ++ turns frames

module _ ⦃dev : Device⦄ where
  pub rounds-append :
      (xs ys : List RadioInput) (s : LoopState)
      → radio_rounds (xs ++ ys) s ≡ (radio_rounds xs s >>= radio_rounds ys)
  unfolding radio_rounds
  rounds-append [] ys s = refl
  rounds-append (i ∷ xs) ys s =
      ap (λ (k : LoopState → Outcome LoopState). radio_round i s >>= k)
        (λ j t. rounds-append xs ys t j)
      ∙ sym (bind_assoc (radio_round i s) (radio_rounds xs) (radio_rounds ys))

module _ ⦃dev : Device⦄ (up : AlwaysAccepts dev) where
  round-handed :
      (l : LoStik) (frame : List ℕ) (commands rest : List Line)
      → radio_round (handed frame) (receiving l [] commands (goods rest))
        ≡ ok (receiving l [] (commands ++ turn frame) rest)
  unfolding radio_round send_part with_next check_lines
  round-handed l frame commands rest = rw (transmit-receiving up l frame [] commands rest)

  pub rounds-handed :
      (l : LoStik) (frames : List (List ℕ)) (commands rest : List Line)
      → radio_rounds (handed_each frames) (receiving l [] commands (answers frames rest))
        ≡ ok (receiving l [] (commands ++ turns frames) rest)
  unfolding radio_rounds
  rounds-handed l [] commands rest =
      ap (λ cs. ok (receiving l [] cs rest)) (sym (append-nil commands))
  rounds-handed l (frame ∷ frames) commands rest =
      ap (λ m. m >>= radio_rounds (handed_each frames))
        (round-handed l frame commands (answers frames rest))
      ∙ rounds-handed l frames (commands ++ turn frame) rest
      ∙ ap (λ cs. ok (receiving l [] cs rest)) (append_assoc commands (turn frame) (turns frames))

  -- The port takes every line, the queue is empty, and the device reports packets and answers every
  -- command. Then the loop hands the packets to the node and transmits what the node hands over.
  pub radioloop_turn :
      (allowed : Bool) (l : LoStik) (packets frames : List (List ℕ)) (rest : List Line)
      → All (All IsByte) packets
      → l.queue ≡ []
      → l.lines ≡ good ∷ good ∷ reports packets (answers frames rest)
      → radioloop (attentive_each allowed packets ++ handed_each frames) l
        ≡ ok (receiving (hearing l packets) [] (spoken packets frames) rest)
  unfolding radioloop
  radioloop_turn allowed l packets frames rest b q a =
      let k = record l { queue = [] } in
      let inputs = attentive_each allowed packets ++ handed_each frames in
      let next : LoStik → Outcome LoopState =
        λ x. radio_rounds inputs (record { radio = x; isrx = true; extratx = none }) in
      let same : l ≡ after k [] (good ∷ good ∷ reports packets (answers frames rest)) =
        λ i. record l { written = sym (append-nil l.written) i; queue = q i; lines = a i } in
      ap (λ x. ignore (rxstart x) >>= next) same
      ∙ ap (λ m. m >>= next) (rxstart-after up k [] (reports packets (answers frames rest)))
      ∙ rounds-append (attentive_each allowed packets) (handed_each frames)
          (receiving l [] begun (reports packets (answers frames rest)))
      ∙ ap (λ m. m >>= radio_rounds (handed_each frames))
          (rounds-hearing up allowed l packets begun (answers frames rest) b)
      ∙ rounds-handed (hearing l packets) frames (begun ++ restarts packets) rest
