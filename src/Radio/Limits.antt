-- ===== src/Radio/Limits.antt =====
-- What `radioloop` of src/hardware/lostik.rs does with a frame where the rate limiter, asked twice,
-- gives two answers, and where no more lines can come.
use lora_mesh_rs.Prelude.{
  ℕ, zero, suc, ◌≡◌, refl, sym, ap, ◌∙◌, true, false, List, [], ◌∷◌, ◌++◌, none, some, append-nil,
}
use lora_mesh_rs.Prelude.Outcome.{Outcome, ok, panic, disconnected, ◌>>=◌}
use lora_mesh_rs.Prelude.Text.{codes}
use lora_mesh_rs.Radio.{Line, Device, LoStik, ignore, recv, rxstop, rxstart, tx_line}
use lora_mesh_rs.Radio.Mode.{AlwaysAccepts}
use lora_mesh_rs.Radio.Loop.{
  LoopState, RadioInput, transmit, with_next, with_extra, check_lines, send_part, radio_round,
  radio_rounds, radioloop,
}
use lora_mesh_rs.Radio.Drain.{
  after, good, goods, granted, turn, turns, answers, receiving, writeln-after, rxstart-after,
  rxstop-after, tx-after, transmit-receiving,
}
use lora_mesh_rs.Radio.Turns.{begun, handed, handed_each, rounds-append, rounds-handed}

-- The limiter refuses the first check, and grants the second.
abbrev pub missed : RadioInput
missed = record granted { may_send = false }

abbrev pub missed_each : List (List ℕ) → List RadioInput
missed_each [] = []
missed_each (frame ∷ frames) = missed ∷ missed_each frames

-- The limiter grants the check before a frame, and refuses the two behind it.
abbrev pub limited : RadioInput
limited = record granted { may_still = false }

-- The limiter refuses.
abbrev pub denied : RadioInput
denied = record granted { may_send = false; may_still = false }

abbrev pub denied_times : ℕ → List RadioInput
denied_times zero = []
denied_times (suc k) = denied ∷ denied_times k

-- What is written to transmit a frame that was kept for later.
abbrev pub late_turn : ⦃dev : Device⦄ → List ℕ → List Line
late_turn frame =
    codes "radio rxstop"
    ∷ codes "sys set pindig GPIO11 0"
    ∷ codes "sys set pindig GPIO10 1"
    ∷ tx_line frame
    ∷ codes "sys set pindig GPIO10 0"
    ∷ []

-- The radio receives, and has kept a frame for later.
abbrev keeping : LoStik → List ℕ → List (List ℕ) → List Line → List Line → LoopState
keeping l frame queue commands lines = record (receiving l queue commands lines) {
  extratx = some frame;
}

five_appended :
    (cs : List Line) (a b c d e : Line)
    → cs ++ a ∷ [] ++ b ∷ [] ++ c ∷ [] ++ d ∷ [] ++ e ∷ [] ≡ cs ++ (a ∷ b ∷ c ∷ d ∷ e ∷ [])
five_appended [] a b c d e = refl
five_appended (x ∷ cs) a b c d e = ap (λ xs. x ∷ xs) (five_appended cs a b c d e)

module _ ⦃dev : Device⦄ (up : AlwaysAccepts dev) where
  -- How the loop begins.
  begin :
      (l : LoStik) (queue : List (List ℕ)) (inputs : List RadioInput) (rest : List Line)
      → l.queue ≡ queue
      → l.lines ≡ good ∷ good ∷ rest
      → radioloop inputs l ≡ radio_rounds inputs (receiving l queue begun rest)
  unfolding radioloop
  begin l queue inputs rest q a =
      let k = record l { queue = queue } in
      let next : LoStik → Outcome LoopState =
        λ x. radio_rounds inputs (record { radio = x; isrx = true; extratx = none }) in
      let same : l ≡ after k [] (good ∷ good ∷ rest) =
        λ i. record l { written = sym (append-nil l.written) i; queue = q i; lines = a i } in
      ap (λ x. ignore (rxstart x) >>= next) same ∙ ap (λ m. m >>= next) (rxstart-after up k [] rest)

  round-missed :
      (l : LoStik) (frame : List ℕ) (frames : List (List ℕ)) (commands rest : List Line)
      → radio_round missed (receiving l (frame ∷ frames) commands rest)
        ≡ ok (receiving l frames commands rest)
  unfolding radio_round send_part with_next check_lines
  round-missed l frame frames commands rest = rw (append-nil frames)

  rounds-missed :
      (l : LoStik) (frames : List (List ℕ)) (commands rest : List Line)
      → radio_rounds (missed_each frames) (receiving l frames commands rest)
        ≡ ok (receiving l [] commands rest)
  unfolding radio_rounds
  rounds-missed l [] commands rest = refl
  rounds-missed l (frame ∷ frames) commands rest =
      ap (λ m. m >>= radio_rounds (missed_each frames)) (round-missed l frame frames commands rest)
      ∙ rounds-missed l frames commands rest

  -- The port takes every line, and the device answers the start of the receiver. Then the radio
  -- loop, in as many rounds as frames are in the queue, the limiter refusing the first check of
  -- each and granting the second, and nothing coming meanwhile, loses every frame: it returns, has
  -- written nothing but the start of the receiver, the queue is empty and no frame is kept for
  -- later.
  pub radioloop_drops :
      (l : LoStik) (frames : List (List ℕ)) (rest : List Line)
      → l.queue ≡ frames
      → l.lines ≡ good ∷ good ∷ rest
      → radioloop (missed_each frames) l ≡ ok (receiving l [] begun rest)
  radioloop_drops l frames rest q a =
      begin l frames (missed_each frames) rest q a ∙ rounds-missed l frames begun rest

  round-limited :
      (l : LoStik) (frame : List ℕ) (frames : List (List ℕ)) (commands rest : List Line)
      → radio_round limited (receiving l (frame ∷ frames) commands (goods rest))
        ≡ ok (keeping l frame frames (commands ++ turn frame) rest)
  unfolding radio_round send_part with_next check_lines
  round-limited l frame frames commands rest =
      rw (append-nil frames, transmit-receiving up l frame frames commands rest)

  round-denied :
      (l : LoStik) (frame : List ℕ) (frames : List (List ℕ)) (commands rest : List Line)
      → radio_round denied (keeping l frame frames commands rest)
        ≡ ok (keeping l frame frames commands rest)
  unfolding radio_round send_part with_extra check_lines
  round-denied l frame frames commands rest = rw (append-nil frames)

  round-late :
      (l : LoStik) (frame : List ℕ) (frames : List (List ℕ)) (commands rest : List Line)
      → radio_round granted
          (keeping l frame frames commands (good ∷ good ∷ good ∷ good ∷ good ∷ good ∷ rest))
        ≡ ok (record (receiving l frames (commands ++ late_turn frame) rest) { isrx = false })
  unfolding radio_round send_part with_extra check_lines
  round-late l frame frames commands rest =
      let k = record l { queue = frames } in
      let stopped = commands ++ codes "radio rxstop" ∷ [] ++ codes "sys set pindig GPIO11 0" ∷ [] in
      rw (
        append-nil frames,
        rxstop-after up k commands (good ∷ good ∷ good ∷ good ∷ rest),
        tx-after up k stopped rest frame,
        five_appended commands (codes "radio rxstop") (codes "sys set pindig GPIO11 0")
            (codes "sys set pindig GPIO10 1") (tx_line frame) (codes "sys set pindig GPIO10 0"),
      )

  rounds-late :
      (k : ℕ) (l : LoStik) (frame : List ℕ) (frames : List (List ℕ)) (commands rest : List Line)
      → radio_rounds
          (denied_times k ++ granted ∷ [])
          (keeping l frame frames commands (good ∷ good ∷ good ∷ good ∷ good ∷ good ∷ rest))
        ≡ ok (record (receiving l frames (commands ++ late_turn frame) rest) { isrx = false })
  unfolding radio_rounds
  rounds-late zero l frame frames commands rest =
      ap (λ m. m >>= radio_rounds []) (round-late l frame frames commands rest)
  rounds-late (suc k) l frame frames commands rest =
      ap (λ m. m >>= radio_rounds (denied_times k ++ granted ∷ []))
        (round-denied l frame frames commands (good ∷ good ∷ good ∷ good ∷ good ∷ good ∷ rest))
      ∙ rounds-late k l frame frames commands rest

  rounds-repeats :
      (k : ℕ) (l : LoStik) (frame : List ℕ) (frames : List (List ℕ)) (commands rest : List Line)
      → radio_rounds (limited ∷ (denied_times k ++ granted ∷ [])) (
          receiving l
            (frame ∷ frames)
            commands
            (goods (good ∷ good ∷ good ∷ good ∷ good ∷ good ∷ rest)))
        ≡ ok (record (receiving l frames ((commands ++ turn frame) ++ late_turn frame) rest) {
          isrx = false;
        })
  unfolding radio_rounds
  rounds-repeats k l frame frames commands rest =
      ap (λ m. m >>= radio_rounds (denied_times k ++ granted ∷ []))
        (round-limited l frame frames commands (good ∷ good ∷ good ∷ good ∷ good ∷ good ∷ rest))
      ∙ rounds-late k l frame frames (commands ++ turn frame) rest

  -- The port takes every line, the device answers every command, and a frame is the first in the
  -- queue. In the first round the limiter grants the check before the frame, and refuses the two
  -- behind it; after any number of rounds in which it refuses, it grants again. No frame and no
  -- line comes meanwhile. Then the radio loop returns and has transmitted the frame twice: the line
  -- that transmits it was written in the first round and again in the last.
  pub radioloop_repeats :
      (k : ℕ) (l : LoStik) (frame : List ℕ) (frames : List (List ℕ)) (rest : List Line)
      → l.queue ≡ frame ∷ frames
      → l.lines ≡ good ∷ good ∷ goods (good ∷ good ∷ good ∷ good ∷ good ∷ good ∷ rest)
      → radioloop (limited ∷ (denied_times k ++ granted ∷ [])) l
        ≡ ok (record (receiving l frames ((begun ++ turn frame) ++ late_turn frame) rest) {
          isrx = false;
        })
  radioloop_repeats k l frame frames rest q a =
      let late = good ∷ good ∷ good ∷ good ∷ good ∷ good ∷ rest in
      begin l (frame ∷ frames) _ (goods late) q a ∙ rounds-repeats k l frame frames begun rest

  round-cut :
      (l : LoStik) (frame : List ℕ) (commands : List Line)
      → l.connected ≡ false
      → radio_round (handed frame) (receiving l [] commands []) ≡ panic disconnected
  unfolding radio_round send_part with_next transmit rxstop recv
  round-cut l frame commands off =
      rw (writeln-after up (record l { queue = [] }) commands [] (codes "radio rxstop"), off)

  -- The port takes every line, the queue is empty, and `serialloop` has ended after the answers to
  -- the start of the receiver and to these frames. The node hands over one frame in each round, and
  -- the limiter grants the check before it, refuses another in the inner loop, and grants the check
  -- behind it. With the next frame the radio loop panics: the channel of the lines is closed.
  pub radioloop_cut :
      (l : LoStik) (frames : List (List ℕ)) (frame : List ℕ)
      → l.queue ≡ []
      → l.lines ≡ good ∷ good ∷ answers frames []
      → l.connected ≡ false
      → radioloop (handed_each frames ++ handed frame ∷ []) l ≡ panic disconnected
  radioloop_cut l frames frame q a off =
      begin l [] (handed_each frames ++ handed frame ∷ []) (answers frames []) q a
      ∙ rounds-append (handed_each frames) (handed frame ∷ [])
          (receiving l [] begun (answers frames []))
      ∙ ap (λ m. m >>= radio_rounds (handed frame ∷ [])) (rounds-handed up l frames begun [])
      ∙ (unfold radio_rounds in
          ap (λ m. m >>= radio_rounds []) (round-cut l frame (begun ++ turns frames) off))
