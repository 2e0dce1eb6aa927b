-- ===== src/Radio/Loop.antt =====
-- `radioloop` of src/hardware/lostik.rs, one round of its `loop` at a time. What comes from outside
-- in a round is an input: what each check of the rate limiter says, the frames that the node hands
-- over meanwhile, and whether a line has come when the loop looks for one.
use lora_mesh_rs.Prelude.{
  ℕ, Bool, true, false, List, [], ◌∷◌, ◌++◌, Option, none, some, if◌then◌else◌,
}
use lora_mesh_rs.Prelude.Outcome.{Outcome, ok, ◌>>=◌}
use lora_mesh_rs.Radio.{Device, LoStik, ignore, rxstart, rxstop, tx, onrx}

-- The loop's variables.
pub record LoopState : Type 0 where
  pub radio : LoStik
  pub isrx : Bool
  pub extratx : Option (List ℕ)

pub record RadioInput : Type 0 where
  -- frames that come before the round
  pub arrived : List (List ℕ)
  -- the limiter's answer where the loop may start to transmit
  pub may_send : Bool
  -- for each `ok` in the inner loop, the frames that come before it
  pub burst : List (List (List ℕ))
  -- the limiter's answer to the check after the transmission
  pub may_still : Bool
  pub line_ready : Bool

abbrev pub enqueue : LoStik → List (List ℕ) → LoStik
enqueue l frames = record l { queue = l.queue ++ frames }

-- `txreader.try_recv()`
abbrev pub try_recv : LoStik → LoStik × Option (List ℕ)
try_recv l = elim l.queue [
  | [] ↦ (l, none)
  | frame ∷ rest ↦ (record l { queue = rest }, some frame)
]

module _ ⦃dev : Device⦄ where
  abbrev pub receive_again : LoopState → Outcome LoopState
  receive_again s =
      if s.isrx
      then ok s
      else (do l ← ignore (rxstart s.radio); ok (record s { radio = l; isrx = true }))

  abbrev pub stop_receiving : LoopState → Outcome LoopState
  stop_receiving s =
      if s.isrx
      then (do l ← ignore (rxstop s.radio); ok (record s { radio = l; isrx = false }))
      else ok s

  abbrev pub send_next : LoStik × Option (List ℕ) → Outcome LoStik
  send_next (l, none) = ok l
  send_next (l, some frame) = ignore (tx l frame)

  -- `while limiter.check().is_ok()`
  unfoldable pub send_burst : List (List (List ℕ)) → LoStik → Outcome LoStik
  unfolding tx
  send_burst [] l = ok l
  send_burst (frames ∷ checks) l = do
    l' ← send_next (try_recv (enqueue l frames))
    send_burst checks l'

  -- A frame was taken and may be sent: it is sent, and others while the limiter allows.
  unfoldable pub transmit : List (List (List ℕ)) → LoopState → List ℕ → Outcome LoopState
  unfolding send_burst rxstop rxstart tx
  transmit burst s frame = do
    s1 ← stop_receiving s
    l2 ← ignore (tx s1.radio frame)
    l3 ← send_burst burst l2
    l4 ← ignore (rxstart l3)
    ok (record s1 { radio = l4; isrx = true })

  -- The branch without an extra frame, after `next` was taken.
  unfoldable pub with_next : RadioInput → LoopState → Option (List ℕ) → Outcome LoopState
  unfolding transmit rxstart
  with_next i s none = do s1 ← receive_again s; receive_again s1
  with_next i s (some frame) = do
    s1 ← if i.may_send then transmit i.burst s frame else ok s
    receive_again (if i.may_still then s1 else record s1 { extratx = some frame })

  -- The branch with an extra frame.
  unfoldable pub with_extra : RadioInput → LoopState → List ℕ → Outcome LoopState
  unfolding rxstop tx
  with_extra i s frame =
      if i.may_send
      then (do
        s1 ← stop_receiving s
        l ← ignore (tx s1.radio frame)
        ok (record s1 { radio = l; extratx = none }))
      else ok s

  -- A line from the device, where the loop receives.
  unfoldable pub check_lines : Bool → LoopState → Outcome LoopState
  unfolding onrx rxstart
  check_lines ready s =
      if s.isrx
      then (if ready
          then elim s.radio.lines [
            | [] ↦ ok s
            | msg ∷ rest ↦ (do
              l1 ← ignore (onrx (record s.radio { lines = rest }) msg)
              l2 ← ignore (rxstart l1)
              ok (record s { radio = l2 }))
          ]
          else ok s)
      else ok s

  unfoldable pub send_part : RadioInput → LoopState → Outcome LoopState
  unfolding with_next with_extra
  send_part i s = elim s.extratx [
    | some frame ↦ with_extra i s frame
    | none ↦ let (l, next) = try_recv s.radio in with_next i (record s { radio = l }) next
  ]

  -- One round of `radioloop`.
  unfoldable pub radio_round : RadioInput → LoopState → Outcome LoopState
  unfolding send_part check_lines
  radio_round i s = do
    s' ← send_part i (record s { radio = enqueue s.radio i.arrived })
    check_lines i.line_ready s'

  unfoldable pub radio_rounds : List RadioInput → LoopState → Outcome LoopState
  unfolding radio_round
  radio_rounds [] s = ok s
  radio_rounds (i ∷ inputs) s = do s' ← radio_round i s; radio_rounds inputs s'

  -- `radioloop`: it starts to receive, and goes round.
  unfoldable pub radioloop : List RadioInput → LoStik → Outcome LoopState
  unfolding rxstart radio_rounds
  radioloop inputs l = do
    l' ← ignore (rxstart l)
    radio_rounds inputs (record { radio = l'; isrx = true; extratx = none })
