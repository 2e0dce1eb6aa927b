-- ===== src/Radio/Drain.antt =====
-- How `radioloop` of src/hardware/lostik.rs gets rid of the frames in its queue, at a device that
-- answers every command.
use lora_mesh_rs.Prelude.{
  ℕ, ◌≡◌, refl, sym, ap, ◌∙◌, true, false, List, [], ◌∷◌, ◌++◌, none, append_assoc, append-nil,
}
use lora_mesh_rs.Prelude.Outcome.{Outcome, ok, ◌>>=◌}
use lora_mesh_rs.Prelude.Text.{codes}
use lora_mesh_rs.Radio.{
  Line, Device, LoStik, done, ignore, recv, recv_any, assert_response, writeln, light, response,
  rxstart, rxstop_race, rxstop, tx_line, tx,
}
use lora_mesh_rs.Radio.Mode.{AlwaysAccepts}
use lora_mesh_rs.Radio.Loop.{
  LoopState, RadioInput, transmit, send_burst, with_next, check_lines, send_part, radio_round,
  radio_rounds, radioloop,
}

-- `l`, with these commands written, and these lines to come.
abbrev pub after : LoStik → List Line → List Line → LoStik
after l commands lines = record l { written = l.written ++ commands; lines = lines }

abbrev pub good : Line
good = codes "ok"

module _ ⦃dev : Device⦄ (up : AlwaysAccepts dev) where
  pub writeln-after :
      (l : LoStik) (commands lines : List Line) (c : Line)
      → writeln (after l commands lines) c ≡ ok (after l (commands ++ c ∷ []) lines, done)
  unfolding writeln
  writeln-after l commands lines c =
      rw (up (l.written ++ commands) c, append_assoc l.written commands (c ∷ []))

  light-after :
      (l : LoStik) (commands rest : List Line) (answer c : Line)
      → light (after l commands (answer ∷ rest)) c ≡ ok (after l (commands ++ c ∷ []) rest)
  unfolding light recv_any
  light-after l commands rest answer c = rw (writeln-after l commands (answer ∷ rest) c)

  pub rxstop-after :
      (l : LoStik) (commands rest : List Line)
      → ignore (rxstop (after l commands (good ∷ good ∷ rest)))
        ≡ ok (
            after l
              (commands ++ codes "radio rxstop" ∷ [] ++ codes "sys set pindig GPIO11 0" ∷ [])
              rest)
  unfolding rxstop recv rxstop_race
  rxstop-after l commands rest = rw (
    writeln-after l commands (good ∷ good ∷ rest) (codes "radio rxstop"),
    light-after l (commands ++ codes "radio rxstop" ∷ []) rest good
        (codes "sys set pindig GPIO11 0"),
  )

  pub rxstart-after :
      (l : LoStik) (commands rest : List Line)
      → ignore (rxstart (after l commands (good ∷ good ∷ rest)))
        ≡ ok (
            after l
              (commands ++ codes "radio rx 0" ∷ [] ++ codes "sys set pindig GPIO11 1" ∷ [])
              rest)
  unfolding rxstart recv response assert_response
  rxstart-after l commands rest = rw (
    writeln-after l commands (good ∷ good ∷ rest) (codes "radio rx 0"),
    light-after l (commands ++ codes "radio rx 0" ∷ []) rest good (codes "sys set pindig GPIO11 1"),
  )

  pub tx-after :
      (l : LoStik) (commands rest : List Line) (frame : List ℕ)
      → ignore (tx (after l commands (good ∷ good ∷ good ∷ good ∷ rest)) frame)
        ≡ ok (
            after l
              (commands
                ++ codes "sys set pindig GPIO10 1" ∷ []
                ++ tx_line frame ∷ []
                ++ codes "sys set pindig GPIO10 0" ∷ [])
              rest)
  unfolding tx recv response assert_response
  tx-after l commands rest frame =
      let on = commands ++ codes "sys set pindig GPIO10 1" ∷ [] in
      rw (
        light-after l commands (good ∷ good ∷ good ∷ rest) good (codes "sys set pindig GPIO10 1"),
        writeln-after l on (good ∷ good ∷ good ∷ rest) (tx_line frame),
        light-after l (on ++ tx_line frame ∷ []) rest good (codes "sys set pindig GPIO10 0"),
      )

-- What is written to transmit one frame.
abbrev pub turn : ⦃dev : Device⦄ → List ℕ → List Line
turn frame =
    codes "radio rxstop"
    ∷ codes "sys set pindig GPIO11 0"
    ∷ codes "sys set pindig GPIO10 1"
    ∷ tx_line frame
    ∷ codes "sys set pindig GPIO10 0"
    ∷ codes "radio rx 0"
    ∷ codes "sys set pindig GPIO11 1"
    ∷ []

abbrev pub turns : ⦃dev : Device⦄ → List (List ℕ) → List Line
turns [] = []
turns (frame ∷ frames) = turn frame ++ turns frames

abbrev pub goods : List Line → List Line
goods rest = good ∷ good ∷ good ∷ good ∷ good ∷ good ∷ good ∷ good ∷ rest

-- The answers to as many frames.
abbrev pub answers : List (List ℕ) → List Line → List Line
answers [] rest = rest
answers (frame ∷ frames) rest = goods (answers frames rest)

-- The limiter grants the check before a frame, refuses the next in the inner loop, and grants the
-- one behind it; nothing comes.
abbrev pub granted : RadioInput
granted = record { arrived = []; may_send = true; burst = []; may_still = true; line_ready = false }

abbrev pub one_each : List (List ℕ) → List RadioInput
one_each [] = []
one_each (frame ∷ frames) = granted ∷ one_each frames

-- The radio receives, and has these frames to transmit.
abbrev pub receiving : LoStik → List (List ℕ) → List Line → List Line → LoopState
receiving l queue commands lines = record {
  radio = after (record l { queue = queue }) commands lines;
  isrx = true;
  extratx = none;
}

appended :
    (cs : List Line) (a b c d e f g : Line)
    → cs ++ a ∷ [] ++ b ∷ [] ++ c ∷ [] ++ d ∷ [] ++ e ∷ [] ++ f ∷ [] ++ g ∷ []
      ≡ cs ++ (a ∷ b ∷ c ∷ d ∷ e ∷ f ∷ g ∷ [])
appended [] a b c d e f g = refl
appended (x ∷ cs) a b c d e f g = ap (λ xs. x ∷ xs) (appended cs a b c d e f g)

module _ ⦃dev : Device⦄ (up : AlwaysAccepts dev) where
  pub transmit-receiving :
      (l : LoStik) (frame : List ℕ) (frames : List (List ℕ)) (commands rest : List Line)
      → transmit [] (receiving l frames commands (goods rest)) frame
        ≡ ok (receiving l frames (commands ++ turn frame) rest)
  unfolding transmit send_burst
  transmit-receiving l frame frames commands rest =
      let k = record l { queue = frames } in
      let stopped = commands ++ codes "radio rxstop" ∷ [] ++ codes "sys set pindig GPIO11 0" ∷ [] in
      let sent =
        stopped
        ++ codes "sys set pindig GPIO10 1" ∷ []
        ++ tx_line frame ∷ []
        ++ codes "sys set pindig GPIO10 0" ∷ [] in
      rw (
        rxstop-after up k commands (good ∷ good ∷ good ∷ good ∷ good ∷ good ∷ rest),
        tx-after up k stopped (good ∷ good ∷ rest) frame,
        rxstart-after up k sent rest,
        appended commands (codes "radio rxstop") (codes "sys set pindig GPIO11 0")
            (codes "sys set pindig GPIO10 1") (tx_line frame) (codes "sys set pindig GPIO10 0")
            (codes "radio rx 0") (codes "sys set pindig GPIO11 1"),
      )

  round-receiving :
      (l : LoStik) (frame : List ℕ) (frames : List (List ℕ)) (commands rest : List Line)
      → radio_round granted (receiving l (frame ∷ frames) commands (goods rest))
        ≡ ok (receiving l frames (commands ++ turn frame) rest)
  unfolding radio_round send_part with_next check_lines
  round-receiving l frame frames commands rest =
      rw (append-nil frames, transmit-receiving l frame frames commands rest)

  rounds-receiving :
      (l : LoStik) (frames : List (List ℕ)) (commands rest : List Line)
      → radio_rounds (one_each frames) (receiving l frames commands (answers frames rest))
        ≡ ok (receiving l [] (commands ++ turns frames) rest)
  unfolding radio_rounds
  rounds-receiving l [] commands rest =
      ap (λ cs. ok (receiving l [] cs rest)) (sym (append-nil commands))
  rounds-receiving l (frame ∷ frames) commands rest =
      ap (λ m. m >>= radio_rounds (one_each frames))
        (round-receiving l frame frames commands (answers frames rest))
      ∙ rounds-receiving l frames (commands ++ turn frame) rest
      ∙ ap (λ cs. ok (receiving l [] cs rest)) (append_assoc commands (turn frame) (turns frames))

  -- The port takes every line, and the device answers every command with `ok`. Then the radio loop,
  -- in as many rounds as frames are in the queue, returns, where in each round the limiter grants
  -- the check before the frame, refuses another frame in the inner loop, and grants the check
  -- behind it, and no frame and no line comes meanwhile: after the start of the receiver it has
  -- stopped it, transmitted one frame and started it again for each frame, in the order of the
  -- queue; the queue is empty, no frame is kept for later, it receives, and no answer is left
  -- unread or read too much.
  pub radioloop_drains :
      (l : LoStik) (frames : List (List ℕ)) (rest : List Line)
      → l.queue ≡ frames
      → l.lines ≡ good ∷ good ∷ answers frames rest
      → radioloop (one_each frames) l
        ≡ ok (
            receiving l []
              (codes "radio rx 0" ∷ codes "sys set pindig GPIO11 1" ∷ turns frames)
              rest)
  unfolding radioloop
  radioloop_drains l frames rest q a =
      let begun = codes "radio rx 0" ∷ codes "sys set pindig GPIO11 1" ∷ [] in
      let k = record l { queue = frames } in
      let next : LoStik → Outcome LoopState =
        λ x. radio_rounds (one_each frames) (record { radio = x; isrx = true; extratx = none }) in
      let same : l ≡ after k [] (good ∷ good ∷ answers frames rest) =
        λ i. record l { written = sym (append-nil l.written) i; queue = q i; lines = a i } in
      ap (λ x. ignore (rxstart x) >>= next) same
      ∙ ap (λ m. m >>= next) (rxstart-after up k [] (answers frames rest))
      ∙ rounds-receiving l frames begun rest
