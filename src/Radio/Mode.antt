-- ===== src/Radio/Mode.antt =====
-- What the methods of src/hardware/lostik.rs leave the device in: receiving or not, by the commands
-- that it was given.
use lora_mesh_rs.Prelude.{
  ℕ, ◌≡◌, refl, ◌∙◌, Bool, true, false, List, [], ◌∷◌, ◌++◌, Option, none, some, if◌then◌else◌,
  bytes_beq, subst,
}
use lora_mesh_rs.Prelude.Outcome.{Outcome, ok, err, panic, diverges, disconnected, ◌>>=◌}
use lora_mesh_rs.Prelude.Text.{codes}
use lora_mesh_rs.Prelude.Post.{Post, Post-seq}
use lora_mesh_rs.Radio.{
  Line, Device, LoStik, IoResult, done, failed, Call, and_then, ignore, recv, recv_any,
  assert_response, starts_with, slice_from, writeln, light, redledon, redledoff, blueledon,
  blueledoff, onrx, response, rxstart, rxstop_race, rxstop, tx_line, tx,
}

-- Whether the device receives after a command, if it did so before or not.
abbrev pub command_mode : Bool → Line → Bool
command_mode on line =
    if bytes_beq line (codes "radio rx 0")
    then true
    else if bytes_beq line (codes "radio rxstop")
    then false
    else on

abbrev pub mode : Bool → List Line → Bool
mode on [] = on
mode on (line ∷ lines) = mode (command_mode on line) lines

-- Whether the device receives after all that was written to it.
abbrev pub listening : LoStik → Bool
listening l = mode false l.written

mode-snoc :
    (on : Bool) (lines : List Line) (line : Line)
    → mode on (lines ++ line ∷ []) ≡ command_mode (mode on lines) line
mode-snoc on [] line = refl
mode-snoc on (x ∷ lines) line = mode-snoc (command_mode on x) lines line

-- However the call ends, if it does, the device receives or not as said.
abbrev pub Ends : Bool → Call → Type 0
Ends on m = Post (λ (p : LoStik × IoResult). listening p.0 ≡ on) m

abbrev pub EndsLine : Bool → Outcome (LoStik × Line) → Type 0
EndsLine on m = Post (λ (p : LoStik × Line). listening p.0 ≡ on) m

abbrev pub EndsOk : Bool → Outcome LoStik → Type 0
EndsOk on m = Post (λ l. listening l ≡ on) m

and_then-Ends :
    (on : Bool) (m : Call) (k : LoStik → Call)
    → Ends on m
    → ((l : LoStik) → listening l ≡ on → Ends on (k l))
    → Ends on (and_then m k)
and_then-Ends on (ok (l, done)) k h g = g l h
and_then-Ends on (ok (l, failed)) k h g = h
and_then-Ends on (err e) k h g = tt
and_then-Ends on (panic x) k h g = tt
and_then-Ends on diverges k h g = tt

pub ignore-Ends : (on : Bool) (m : Call) → Ends on m → EndsOk on (ignore m)
ignore-Ends on m h =
    Post-seq (λ (p : LoStik × IoResult). listening p.0 ≡ on) (λ l. listening l ≡ on) m _ h
      (λ p q. q)

recv_from :
    (l : LoStik) (lines : List Line) (c : Bool)
    → EndsLine (listening l) (elim lines as (λ _. Outcome (LoStik × Line)) [
      | [] ↦ if c then diverges else panic disconnected
      | line ∷ rest ↦ ok (record l { lines = rest }, line)
    ])
recv_from l [] true = tt
recv_from l [] false = tt
recv_from l (line ∷ rest) c = refl

recv-Ends : (on : Bool) (l : LoStik) → listening l ≡ on → EndsLine on (recv l)
unfolding recv
recv-Ends on l h = subst (λ b. EndsLine b (recv l)) h (recv_from l l.lines l.connected)

recv_any_from :
    (l : LoStik) (lines : List Line) (c : Bool)
    → EndsOk (listening l) (elim lines as (λ _. Outcome LoStik) [
      | [] ↦ if c then diverges else ok l
      | line ∷ rest ↦ ok (record l { lines = rest })
    ])
recv_any_from l [] true = tt
recv_any_from l [] false = refl
recv_any_from l (line ∷ rest) c = refl

recv_any-Ends : (on : Bool) (l : LoStik) → listening l ≡ on → EndsOk on (recv_any l)
unfolding recv_any
recv_any-Ends on l h = subst (λ b. EndsOk b (recv_any l)) h (recv_any_from l l.lines l.connected)

response_if-Ends :
    (on : Bool) (l : LoStik) (line : Line) (again : Bool)
    → listening l ≡ on
    → EndsLine on (if again then recv l else ok (l, line))
response_if-Ends on l line true h = recv-Ends on l h
response_if-Ends on l line false h = h

response-Ends :
    ⦃dev : Device⦄ (on : Bool) (l : LoStik) → listening l ≡ on → EndsLine on (response l)
unfolding response
response-Ends on l h =
    Post-seq (λ (p : LoStik × Line). listening p.0 ≡ on) _ (recv l) _ (recv-Ends on l h)
      (λ p q. response_if-Ends on p.0 p.1 (bytes_beq p.1 (codes "radio_err")) q)

anything : {A : Type 0} (m : Outcome A) → Post (λ _. Unit {0}) m
anything (ok a) = tt
anything (err e) = tt
anything (panic x) = tt
anything diverges = tt

abbrev pub AlwaysAccepts : Device → Type 0
AlwaysAccepts dev = (ran : List Line) (line : Line) → dev.accepts ran line ≡ true

module _ ⦃dev : Device⦄ (up : AlwaysAccepts dev) where
  writeln-Ends :
      (on : Bool) (l : LoStik) (line : Line)
      → command_mode (listening l) line ≡ on
      → Ends on (writeln l line)
  unfolding writeln
  writeln-Ends on l line h = rw (up l.written line) (mode-snoc false l.written line ∙ h)

  light-Ends :
      (on : Bool) (l : LoStik) (line : Line)
      → ((b : Bool) → command_mode b line ≡ b)
      → listening l ≡ on
      → EndsOk on (light l line)
  unfolding light
  light-Ends on l line calm h =
      Post-seq (λ k. listening k ≡ on) _ (ignore (writeln l line)) _
        (ignore-Ends on (writeln l line) (writeln-Ends on l line (calm (listening l) ∙ h)))
        (λ k q. recv_any-Ends on k q)

  -- An answer that is checked.
  checked-Ends :
      (on : Bool) (l : LoStik) (expected : Line)
      → listening l ≡ on
      → Ends on (response l >>= λ (k, line). ok (k, assert_response line expected))
  checked-Ends on l expected h =
      Post-seq (λ (p : LoStik × Line). listening p.0 ≡ on) _ (response l) _ (response-Ends on l h)
        (λ p q. q)

  lit-Ends : (on : Bool) (m : Outcome LoStik) → EndsOk on m → Ends on (m >>= λ l. ok (l, done))
  lit-Ends on m h = Post-seq (λ l. listening l ≡ on) _ m _ h (λ l q. q)

  pub rxstart-Ends : (l : LoStik) → Ends true (rxstart l)
  unfolding rxstart
  rxstart-Ends l =
      and_then-Ends true (writeln l (codes "radio rx 0")) _
        (writeln-Ends true l (codes "radio rx 0") refl)
        (λ l1 h1. and_then-Ends true _ _ (checked-Ends true l1 (codes "ok") h1) (λ l2 h2.
          lit-Ends true (blueledon l2)
            (light-Ends true l2 (codes "sys set pindig GPIO11 1") (λ b. refl) h2)))

  onrx_text-Ends :
      (on : Bool) (l : LoStik) (o : Option (List ℕ))
      → listening l ≡ on
      → Ends on (elim o as (λ _. Call) [
        | none ↦ ok (l, failed)
        | some decoded ↦ ok (record l { heard = l.heard ++ decoded ∷ [] }, done)
      ])
  onrx_text-Ends on l none h = h
  onrx_text-Ends on l (some decoded) h = h

  onrx_if-Ends :
      (on : Bool) (l : LoStik) (c : Bool) (m : Call)
      → listening l ≡ on
      → Ends on m
      → Ends on (if c then m else ok (l, done))
  onrx_if-Ends on l true m h g = g
  onrx_if-Ends on l false m h g = h

  pub onrx-Ends : (on : Bool) (l : LoStik) (msg : Line) → listening l ≡ on → Ends on (onrx l msg)
  unfolding onrx
  onrx-Ends on l msg h = onrx_if-Ends on l (starts_with msg (codes "radio_rx ")) _ h (
      Post-seq (λ _. Unit {0}) _ (slice_from msg 10) _ (anything (slice_from msg 10))
        (λ text _. onrx_text-Ends on l (dev.decode text) h))

  rxstop_race-Ends :
      (on : Bool) (l : LoStik) (line : Line) → listening l ≡ on → Ends on (rxstop_race l line)
  unfolding rxstop_race
  rxstop_race-Ends on l line h = onrx_if-Ends on l (starts_with line (codes "radio_rx ")) _ h (
      and_then-Ends on (onrx l line) _ (onrx-Ends on l line h) (λ l1 h1.
        Post-seq (λ (p : LoStik × Line). listening p.0 ≡ on) _ (recv l1) _ (recv-Ends on l1 h1)
          (λ p q. q)))

  pub rxstop-Ends : (l : LoStik) → Ends false (rxstop l)
  unfolding rxstop
  rxstop-Ends l =
      and_then-Ends false (writeln l (codes "radio rxstop")) _
        (writeln-Ends false l (codes "radio rxstop") refl)
        (λ l1 h1.
          and_then-Ends false _ _
            (Post-seq (λ (p : LoStik × Line). listening p.0 ≡ false) _ (recv l1) _
              (recv-Ends false l1 h1) (λ p q. rxstop_race-Ends false p.0 p.1 q))
            (λ l2 h2.
              lit-Ends false (blueledoff l2)
                (light-Ends false l2 (codes "sys set pindig GPIO11 0") (λ b. refl) h2)))

  -- The end of `tx`, after the answer.
  tx_end-Ends :
      (on : Bool) (l : LoStik)
      → listening l ≡ on
      → Ends on (recv l >>= λ (l4, ack). redledoff l4 >>= λ l5. ok (l5, done))
  tx_end-Ends on l h =
      Post-seq (λ (p : LoStik × Line). listening p.0 ≡ on) _ (recv l) _ (recv-Ends on l h)
        (λ p q.
          lit-Ends on (redledoff p.0)
            (light-Ends on p.0 (codes "sys set pindig GPIO10 0") (λ b. refl) q))

  pub tx-Ends : (on : Bool) (l : LoStik) (bytes : List ℕ) → listening l ≡ on → Ends on (tx l bytes)
  unfolding tx
  tx-Ends on l bytes h =
      Post-seq (λ k. listening k ≡ on) _ (redledon l) _
        (light-Ends on l (codes "sys set pindig GPIO10 1") (λ b. refl) h)
        (λ l1 h1.
          and_then-Ends on (writeln l1 (tx_line bytes)) _ (writeln-Ends on l1 (tx_line bytes) h1)
            (λ l2 h2.
              and_then-Ends on _ _ (checked-Ends on l2 (codes "ok") h2)
                (λ l3 h3. tx_end-Ends on l3 h3)))
