-- ===== src/Radio/Hears.antt =====
-- How `radioloop` of src/hardware/lostik.rs takes in the packets that the device reports.
use lora_mesh_rs.Prelude.{
  ℕ, ◌≡◌, refl, sym, ap, ◌∙◌, Bool, true, List, [], ◌∷◌, ◌++◌, none, All, append_assoc, append-nil,
}
use lora_mesh_rs.Prelude.Outcome.{Outcome, ok, ◌>>=◌}
use lora_mesh_rs.Prelude.Text.{codes}
use lora_mesh_rs.Util.{IsByte}
use lora_mesh_rs.Radio.{Line, Device, LoStik, ignore, onrx, rxstart}
use lora_mesh_rs.Radio.Mode.{AlwaysAccepts}
use lora_mesh_rs.Radio.Receiver.{onrx-encode}
use lora_mesh_rs.Radio.Drain.{after, good, receiving, rxstart-after}
use lora_mesh_rs.Radio.Loop.{
  LoopState, RadioInput, with_next, check_lines, send_part, radio_round, radio_rounds, radioloop,
}

-- The line that reports a packet.
abbrev pub packet_line : ⦃dev : Device⦄ → List ℕ → Line
packet_line ⦃dev⦄ bytes = codes "radio_rx  " ++ dev.encode bytes

-- A report, and two answers, for each packet.
abbrev pub reports : ⦃dev : Device⦄ → List (List ℕ) → List Line → List Line
reports [] rest = rest
reports (bytes ∷ packets) rest = packet_line bytes ∷ good ∷ good ∷ reports packets rest

-- What starts the receiver again after each packet.
abbrev pub restarts : List (List ℕ) → List Line
restarts [] = []
restarts (bytes ∷ packets) = codes "radio rx 0" ∷ codes "sys set pindig GPIO11 1" ∷ restarts packets

-- Nothing is to be transmitted, and a line has come; the limiter may say anything.
abbrev pub attentive : Bool → RadioInput
attentive allowed = record {
  arrived = [];
  may_send = allowed;
  burst = [];
  may_still = allowed;
  line_ready = true;
}

abbrev pub attentive_each : Bool → List (List ℕ) → List RadioInput
attentive_each allowed [] = []
attentive_each allowed (bytes ∷ packets) = attentive allowed ∷ attentive_each allowed packets

abbrev pub hearing : LoStik → List (List ℕ) → LoStik
hearing l packets = record l { heard = l.heard ++ packets }

two_appended : (cs : List Line) (a b : Line) → cs ++ a ∷ [] ++ b ∷ [] ≡ cs ++ (a ∷ b ∷ [])
two_appended [] a b = refl
two_appended (x ∷ cs) a b = ap (λ xs. x ∷ xs) (two_appended cs a b)

module _ ⦃dev : Device⦄ (up : AlwaysAccepts dev) where
  onrx-after :
      (l : LoStik) (bytes : List ℕ) (commands rest : List Line)
      → All IsByte bytes
      → ignore (onrx (after (record l { queue = [] }) commands rest) (packet_line bytes))
        ≡ ok (after (record (hearing l (bytes ∷ [])) { queue = [] }) commands rest)
  onrx-after l bytes commands rest b =
      ap ignore (onrx-encode (after (record l { queue = [] }) commands rest) bytes b)

  round-hearing :
      (allowed : Bool) (l : LoStik) (bytes : List ℕ) (commands rest : List Line)
      → All IsByte bytes
      → radio_round
          (attentive allowed)
          (receiving l [] commands (packet_line bytes ∷ good ∷ good ∷ rest))
        ≡ ok (
            receiving
              (hearing l (bytes ∷ []))
              []
              (commands ++ (codes "radio rx 0" ∷ codes "sys set pindig GPIO11 1" ∷ []))
              rest)
  unfolding radio_round send_part with_next check_lines
  round-hearing allowed l bytes commands rest b =
      let k = record (hearing l (bytes ∷ [])) { queue = [] } in
      rw (
        onrx-after l bytes commands (good ∷ good ∷ rest) b,
        rxstart-after up k commands rest,
        two_appended commands (codes "radio rx 0") (codes "sys set pindig GPIO11 1"),
      )

  pub rounds-hearing :
      (allowed : Bool) (l : LoStik) (packets : List (List ℕ)) (commands rest : List Line)
      → All (All IsByte) packets
      → radio_rounds
          (attentive_each allowed packets)
          (receiving l [] commands (reports packets rest))
        ≡ ok (receiving (hearing l packets) [] (commands ++ restarts packets) rest)
  unfolding radio_rounds
  rounds-hearing allowed l [] commands rest b = λ i. ok (
      receiving (record l { heard = sym (append-nil l.heard) i }) [] (sym (append-nil commands) i)
        rest)
  rounds-hearing allowed l (bytes ∷ packets) commands rest b =
      let again = codes "radio rx 0" ∷ codes "sys set pindig GPIO11 1" ∷ [] in
      ap (λ m. m >>= radio_rounds (attentive_each allowed packets))
        (round-hearing allowed l bytes commands (reports packets rest) b.0)
      ∙ rounds-hearing allowed (hearing l (bytes ∷ [])) packets (commands ++ again) rest b.1
      ∙ λ i. ok (
          receiving (record l { heard = append_assoc l.heard (bytes ∷ []) packets i }) []
            (append_assoc commands again (restarts packets) i) rest)

  -- The port takes every line, the queue is empty, and the device reports packets, each followed by
  -- the two answers to the start of the receiver. Then the radio loop, in as many rounds as
  -- packets, whatever the limiter says, returns: it has handed the bytes of all packets to the
  -- node, in order, and has started the receiver again after each.
  pub radioloop_hears :
      (allowed : Bool) (l : LoStik) (packets : List (List ℕ)) (rest : List Line)
      → All (All IsByte) packets
      → l.queue ≡ []
      → l.lines ≡ good ∷ good ∷ reports packets rest
      → radioloop (attentive_each allowed packets) l
        ≡ ok (
            receiving
              (hearing l packets)
              []
              (codes "radio rx 0" ∷ codes "sys set pindig GPIO11 1" ∷ restarts packets)
              rest)
  unfolding radioloop
  radioloop_hears allowed l packets rest b q a =
      let begun = codes "radio rx 0" ∷ codes "sys set pindig GPIO11 1" ∷ [] in
      let k = record l { queue = [] } in
      let next : LoStik → Outcome LoopState = λ x.
        radio_rounds (attentive_each allowed packets)
          (record { radio = x; isrx = true; extratx = none }) in
      let same : l ≡ after k [] (good ∷ good ∷ reports packets rest) =
        λ i. record l { written = sym (append-nil l.written) i; queue = q i; lines = a i } in
      ap (λ x. ignore (rxstart x) >>= next) same
      ∙ ap (λ m. m >>= next) (rxstart-after up k [] (reports packets rest))
      ∙ rounds-hearing allowed l packets begun rest b
