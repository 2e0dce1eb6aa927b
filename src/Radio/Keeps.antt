-- ===== src/Radio/Keeps.antt =====
-- What every method of src/hardware/lostik.rs keeps: a property of the radio that stays when a
-- line of the kind that the method writes is written, when lines are read, and when bytes are
-- handed to the node.
use lora_mesh_rs.Prelude.{
  ℕ, ◌≡◌, refl, Bool, true, false, List, [], ◌∷◌, ◌++◌, Option, none, some, if◌then◌else◌,
  bytes_beq,
}
use lora_mesh_rs.Prelude.Outcome.{Outcome, ok, err, panic, diverges, disconnected, ◌>>=◌}
use lora_mesh_rs.Prelude.Text.{codes}
use lora_mesh_rs.Prelude.Post.{Settles, Settles-seq, Settles-if, Settles-mono}
use lora_mesh_rs.Radio.{
  Line, Device, LoStik, IoResult, done, failed, Call, and_then, ignore, recv, recv_any,
  assert_response, starts_with, slice_from, writeln, light, redledon, redledoff, blueledon,
  blueledoff, onrx, response, rxstart, rxstop_race, rxstop, tx_line, tx,
}

-- The lines that the methods write, but for those that transmit.
pub data Command : Line → Type 0 where
  red_on : Command (codes "sys set pindig GPIO10 1")
  red_off : Command (codes "sys set pindig GPIO10 0")
  blue_on : Command (codes "sys set pindig GPIO11 1")
  blue_off : Command (codes "sys set pindig GPIO11 0")
  rx_start : Command (codes "radio rx 0")
  rx_stop : Command (codes "radio rxstop")

-- `Q` stays when the radio does one of these things. The device sends lines that are `Fit`: where
-- a packet cannot be cut out of one, or no more come because `serialloop` has ended, `Fails`.
pub record Closed ⦃dev : Device⦄ (Fails : Type 0) (Fit Allowed : Line → Type 0)
    (Q : LoStik → Type 0) : Type 0 where
  pub commands : (line : Line) → Command line → Allowed line
  pub writes :
      (l : LoStik) (line : Line)
      → Allowed line
      → Q l
      → Q (record l { written = l.written ++ line ∷ [] })
  pub reads :
      (l : LoStik) (line : Line) (rest : List Line)
      → l.lines ≡ line ∷ rest
      → Q l
      → Q (record l { lines = rest }) × Fit line
  pub ends : (l : LoStik) → l.connected ≡ false → Q l → Fails
  pub hears :
      (l : LoStik) (text : Line) (bytes : List ℕ)
      → dev.decode text ≡ some bytes
      → Q l
      → Q (record l { heard = l.heard ++ bytes ∷ [] })
  pub slices :
      (line : Line)
      → Fit line
      → starts_with line (codes "radio_rx ") ≡ true
      → Settles Fails (λ _. Unit) (slice_from line 10)

-- Whatever it returns with, the radio has `Q`.
abbrev pub Keeps {ℓ} : {A : Type ℓ} → Type 0 → (LoStik → Type 0) → Outcome (LoStik × A) → Type 0
Keeps Fails Q m = Settles Fails (λ p. Q p.0) m

module _ (Fails : Type 0) (Q : LoStik → Type 0) where
  pub and_then-Keeps :
      (m : Call) (k : LoStik → Call)
      → Keeps Fails Q m
      → ((l : LoStik) → Q l → Keeps Fails Q (k l))
      → Keeps Fails Q (and_then m k)
  and_then-Keeps (ok (l, done)) k h g = g l h
  and_then-Keeps (ok (l, failed)) k h g = h
  and_then-Keeps (err e) k h g = h
  and_then-Keeps (panic x) k h g = h
  and_then-Keeps diverges k h g = tt

  pub ignore-Keeps : (m : Call) → Keeps Fails Q m → Settles Fails Q (ignore m)
  ignore-Keeps m h =
      Settles-seq Fails (λ (p : LoStik × IoResult). Q p.0) Q m (λ p. ok p.0) h (λ p q. q)

module _ ⦃dev : Device⦄ (Fails : Type 0) (Fit Allowed : Line → Type 0) (Q : LoStik → Type 0)
    (c : Closed Fails Fit Allowed Q) where
  -- What is read.
  abbrev Fresh : LoStik × Line → Type 0
  Fresh p = Q p.0 × Fit p.1

  recv_from-Keeps :
      (l : LoStik) (lines : List Line) (on : Bool)
      → l.lines ≡ lines
      → l.connected ≡ on
      → Q l
      → Settles Fails Fresh (elim lines as (λ _. Outcome (LoStik × Line)) [
        | [] ↦ if on then diverges else panic disconnected
        | line ∷ rest ↦ ok (record l { lines = rest }, line)
      ])
  recv_from-Keeps l [] true e o q = tt
  recv_from-Keeps l [] false e o q = c.ends l o q
  recv_from-Keeps l (line ∷ rest) on e o q = c.reads l line rest e q

  recv_any_from-Keeps :
      (l : LoStik) (lines : List Line) (on : Bool)
      → l.lines ≡ lines
      → Q l
      → Settles Fails Q (elim lines as (λ _. Outcome LoStik) [
        | [] ↦ if on then diverges else ok l
        | line ∷ rest ↦ ok (record l { lines = rest })
      ])
  recv_any_from-Keeps l [] true e q = tt
  recv_any_from-Keeps l [] false e q = q
  recv_any_from-Keeps l (line ∷ rest) on e q = (c.reads l line rest e q).0

  recv_any-Keeps : (l : LoStik) → Q l → Settles Fails Q (recv_any l)
  unfolding recv_any
  recv_any-Keeps l q = recv_any_from-Keeps l l.lines l.connected refl q

  recv-Keeps : (l : LoStik) → Q l → Settles Fails Fresh (recv l)
  unfolding recv
  recv-Keeps l q = recv_from-Keeps l l.lines l.connected refl refl q

  -- A line is read, and the call goes on.
  pub recv_then-Keeps {ℓ} :
      {A : Type ℓ} (l : LoStik) (k : LoStik × Line → Outcome (LoStik × A))
      → Q l
      → ((p : LoStik × Line) → Fresh p → Keeps Fails Q (k p))
      → Keeps Fails Q (recv l >>= k)
  recv_then-Keeps l k q h = Settles-seq Fails Fresh _ (recv l) k (recv-Keeps l q) h

  response_if-Keeps :
      (l : LoStik) (line : Line) (again : Bool)
      → Q l
      → Keeps Fails Q (if again then recv l else ok (l, line))
  response_if-Keeps l line true q =
      Settles-mono Fails Fresh (λ (p : LoStik × Line). Q p.0) (recv l) (λ p r. r.0) (recv-Keeps l q)
  response_if-Keeps l line false q = q

  response-Keeps : (l : LoStik) → Q l → Keeps Fails Q (response l)
  unfolding response
  response-Keeps l q =
      recv_then-Keeps l _ q
        (λ p r. response_if-Keeps p.0 p.1 (bytes_beq p.1 (codes "radio_err")) r.0)

  writeln_if-Keeps :
      (l : LoStik) (line : Line) (accepted : Bool)
      → Allowed line
      → Q l
      → Keeps Fails Q (
          if accepted
          then ok (record l { written = l.written ++ line ∷ [] }, done)
          else ok (l, failed))
  writeln_if-Keeps l line true a q = c.writes l line a q
  writeln_if-Keeps l line false a q = q

  pub writeln-Keeps :
      (l : LoStik) (line : Line) → Allowed line → Q l → Keeps Fails Q (writeln l line)
  unfolding writeln
  writeln-Keeps l line a q = writeln_if-Keeps l line (dev.accepts l.written line) a q

  light-Keeps : (l : LoStik) (line : Line) → Command line → Q l → Settles Fails Q (light l line)
  unfolding light
  light-Keeps l line w q =
      Settles-seq Fails Q Q (ignore (writeln l line)) _
        (ignore-Keeps Fails Q (writeln l line) (writeln-Keeps l line (c.commands line w) q))
        (λ k r. recv_any-Keeps k r)

  lit-Keeps : (m : Outcome LoStik) → Settles Fails Q m → Keeps Fails Q (m >>= λ l. ok (l, done))
  lit-Keeps m h = Settles-seq Fails Q _ m _ h (λ l q. q)

  checked-Keeps :
      (l : LoStik) (expected : Line)
      → Q l
      → Keeps Fails Q (response l >>= λ (k, line). ok (k, assert_response line expected))
  checked-Keeps l expected q =
      Settles-seq Fails (λ (p : LoStik × Line). Q p.0) _ (response l) _ (response-Keeps l q)
        (λ p r. r)

  pub rxstart-Keeps : (l : LoStik) → Q l → Keeps Fails Q (rxstart l)
  unfolding rxstart
  rxstart-Keeps l q =
      and_then-Keeps Fails Q (writeln l (codes "radio rx 0")) _
        (writeln-Keeps l _ (c.commands _ rx_start) q)
        (λ l1 q1.
          and_then-Keeps Fails Q _ _ (checked-Keeps l1 (codes "ok") q1)
            (λ l2 q2. lit-Keeps (blueledon l2) (light-Keeps l2 _ blue_on q2)))

  decoded-Keeps :
      (l : LoStik) (text : Line) (o : Option (List ℕ))
      → dev.decode text ≡ o
      → Q l
      → Keeps Fails Q (elim o as (λ _. Call) [
        | none ↦ ok (l, failed)
        | some decoded ↦ ok (record l { heard = l.heard ++ decoded ∷ [] }, done)
      ])
  decoded-Keeps l text none e q = q
  decoded-Keeps l text (some decoded) e q = c.hears l text decoded e q

  pub onrx-Keeps : (l : LoStik) (msg : Line) → Fit msg → Q l → Keeps Fails Q (onrx l msg)
  unfolding onrx
  onrx-Keeps l msg f q =
      Settles-if Fails (λ (p : LoStik × IoResult). Q p.0) (starts_with msg (codes "radio_rx ")) _ _
        (λ packet.
          Settles-seq Fails (λ _. Unit) _ (slice_from msg 10) _ (c.slices msg f packet)
            (λ text _. decoded-Keeps l text (dev.decode text) refl q))
        q

  rxstop_race-Keeps :
      (l : LoStik) (line : Line) → Fit line → Q l → Keeps Fails Q (rxstop_race l line)
  unfolding rxstop_race
  rxstop_race-Keeps l line f q =
      Settles-if Fails (λ (p : LoStik × IoResult). Q p.0) (starts_with line (codes "radio_rx ")) _ _
        (λ packet.
          and_then-Keeps Fails Q (onrx l line) _ (onrx-Keeps l line f q)
            (λ l1 q1. recv_then-Keeps l1 _ q1 (λ p r. r.0)))
        q

  pub rxstop-Keeps : (l : LoStik) → Q l → Keeps Fails Q (rxstop l)
  unfolding rxstop
  rxstop-Keeps l q =
      and_then-Keeps Fails Q (writeln l (codes "radio rxstop")) _
        (writeln-Keeps l _ (c.commands _ rx_stop) q)
        (λ l1 q1.
          and_then-Keeps Fails Q _ _
            (recv_then-Keeps l1 _ q1 (λ p r. rxstop_race-Keeps p.0 p.1 r.1 r.0))
            (λ l2 q2. lit-Keeps (blueledoff l2) (light-Keeps l2 _ blue_off q2)))

  pub tx-Keeps :
      (l : LoStik) (bytes : List ℕ) → Allowed (tx_line bytes) → Q l → Keeps Fails Q (tx l bytes)
  unfolding tx
  tx-Keeps l bytes a q = Settles-seq Fails Q _ (redledon l) _ (light-Keeps l _ red_on q) (λ l1 q1.
      and_then-Keeps Fails Q (writeln l1 (tx_line bytes)) _ (writeln-Keeps l1 (tx_line bytes) a q1)
        (λ l2 q2. and_then-Keeps Fails Q _ _ (checked-Keeps l2 (codes "ok") q2) (λ l3 q3.
          recv_then-Keeps l3 _ q3
            (λ p r. lit-Keeps (redledoff p.0) (light-Keeps p.0 _ red_off r.0)))))
