-- ===== src/Serial/Fit.antt =====
-- The lines that `serialloop` of src/hardware/lostik.rs sends down its channel: trimmed, so that
-- one that begins like a packet is longer than its beginning.
use lora_mesh_rs.Prelude.{
  ℕ, suc, zero, ◌≤◌, ◌<◌, ◌≡◌, refl, sym, ap, ◌∙◌, inl, inr, Bool, true, false, List, [], ◌∷◌, ◌++◌,
  Option, none, some, arith, All, All-append, length, take, get_last?, le→leb, ltb, ltb→lt, ltb→le,
  Bool-cases, bytes_beq_iff, if◌then◌else◌, subst,
}
use lora_mesh_rs.Prelude.Outcome.{ok, bind_inv, ok_inj, assert, bad_utf8}
use lora_mesh_rs.Prelude.Post.{Settles}
use lora_mesh_rs.Prelude.Text.{codes}
use lora_mesh_rs.Message.Utf8.{is_utf8}
use lora_mesh_rs.Radio.{starts_with, slice_from}
use lora_mesh_rs.Serial.{
  SerialIo, skip_space, is_empty, trim_start, trim_end, trim, read_line, readln, serial_round,
  serial_rounds,
}

kept_if : (b : Bool) (x : ℕ) (rest : List ℕ) → (if b then [] else x ∷ rest) ≡ [] → b ≡ true
kept_if true x rest h = refl
kept_if false x rest h = cc

trim_end_blank : (xs : List ℕ) → trim_end xs ≡ [] → is_empty (skip_space 0 xs) ≡ true
unfolding trim_end
trim_end_blank [] h = refl
trim_end_blank (x ∷ xs) h = kept_if (is_empty (skip_space 0 (x ∷ xs))) x (trim_end xs) h

-- A blank is kept only in front of what is no white space.
last_kept :
    (b : Bool) (x : ℕ) (xs rest : List ℕ)
    → is_empty (skip_space 0 (x ∷ xs)) ≡ b
    → trim_end xs ≡ rest
    → (get_last? rest ≡ some 32 → ⊥)
    → get_last? (if b then [] else x ∷ rest) ≡ some 32
    → ⊥
last_kept true x xs rest e d f h = cc
last_kept false x xs (y ∷ ys) e d f h = f h
last_kept false x xs [] e d f h =
    let blank = trim_end_blank xs d in
    let here : x ≡ 32 = ground arith in
    let same : is_empty (skip_space 0 (32 ∷ xs)) ≡ false =
      subst (λ y. is_empty (skip_space 0 (y ∷ xs)) ≡ false) here e in
    ground (arith, blank, same)

trim_end_last : (xs : List ℕ) → get_last? (trim_end xs) ≡ some 32 → ⊥
unfolding trim_end
trim_end_last [] h = cc
trim_end_last (x ∷ xs) h =
    last_kept (is_empty (skip_space 0 (x ∷ xs))) x xs (trim_end xs) refl refl (trim_end_last xs) h

take_all : (n : ℕ) (xs : List ℕ) → length xs ≤ n → take n xs ≡ xs
take_all zero [] h = refl
take_all zero (x ∷ xs) h = absurd (omega (arith, h))
take_all (suc n) [] h = refl
take_all (suc n) (x ∷ xs) h = ap (λ ys. x ∷ ys) (take_all n xs (omega (arith, h)))

-- A packet can be cut out of the line.
abbrev pub IsFit : List ℕ → Type 0
IsFit line = starts_with line (codes "radio_rx ") ≡ true → 10 ≤ length line

short_packet :
    (line : List ℕ)
    → starts_with line (codes "radio_rx ") ≡ true
    → length line < 10
    → line ≡ codes "radio_rx "
short_packet line h b =
    sym (take_all 9 line (omega (arith, b))) ∙ (bytes_beq_iff (take 9 line) (codes "radio_rx ")).0 h

trim-IsFit : (text : List ℕ) → IsFit (trim text)
unfolding trim
trim-IsFit text h = elim (Bool-cases (ltb (length (trim text)) 10)) [
  | inl short ↦
      let e = short_packet (trim text) h (ltb→lt (length (trim text)) 10 short) in
      absurd (trim_end_last (trim_start text) (ap get_last? e))
  | inr long ↦ ltb→le (length (trim text)) 10 long
]

pub IsFit-slices :
    (line : List ℕ)
    → IsFit line
    → starts_with line (codes "radio_rx ") ≡ true
    → Settles ⊥ (λ _. Unit) (slice_from line 10)
unfolding slice_from
IsFit-slices line f h = rw (le→leb 10 (length line) (f h)) tt

-- What a read gives, if it gives a line.
abbrev Trimmed : Option (List ℕ) → Type 0
Trimmed none = Unit
Trimmed (some line) = IsFit line

Trimmed-if : (b : Bool) (text : List ℕ) → Trimmed (if b then none else some (trim text))
Trimmed-if true text = tt
Trimmed-if false text = trim-IsFit text

readln-Trimmed :
    (s s' : SerialIo) (line : Option (List ℕ)) → readln s ≡ ok (s', line) → Trimmed line
unfolding readln
readln-Trimmed s s' line h =
    let ((buf, rest), e1, d1) = bind_inv (read_line s.incoming) _ h in
    let (_, e2, d2) = bind_inv (assert (is_utf8 buf) bad_utf8) _ d1 in
    subst (λ (p : SerialIo × Option (List ℕ)). Trimmed p.1) (ok_inj d2)
      (Trimmed-if (is_empty buf) buf)

sent-Trimmed :
    (line : Option (List ℕ)) (sent : List (List ℕ))
    → Trimmed line
    → All IsFit sent
    → All IsFit (elim line as (λ _. List (List ℕ)) [ none ↦ sent | some l ↦ sent ++ l ∷ [] ])
sent-Trimmed none sent f a = a
sent-Trimmed (some l) sent f a = All-append IsFit sent (l ∷ []) a (f, tt)

serial_round-IsFit :
    (s s' : SerialIo) (sent sent' : List (List ℕ))
    → serial_round s sent ≡ ok (s', sent')
    → All IsFit sent
    → All IsFit sent'
unfolding serial_round
serial_round-IsFit s s' sent sent' h a =
    let ((s1, line), e, d) = bind_inv (readln s) _ h in
    subst (λ (p : SerialIo × List (List ℕ)). All IsFit p.1) (ok_inj d)
      (sent-Trimmed line sent (readln-Trimmed s s1 line e) a)

pub serial_rounds-IsFit :
    (n : ℕ) (s s' : SerialIo) (sent sent' : List (List ℕ))
    → serial_rounds n s sent ≡ ok (s', sent')
    → All IsFit sent
    → All IsFit sent'
unfolding serial_rounds
serial_rounds-IsFit zero s s' sent sent' h a =
    subst (λ (p : SerialIo × List (List ℕ)). All IsFit p.1) (ok_inj h) a
serial_rounds-IsFit (suc n) s s' sent sent' h a =
    let ((s1, sent1), e, d) = bind_inv (serial_round s sent) _ h in
    serial_rounds-IsFit n s1 s' sent1 sent' d (serial_round-IsFit s s1 sent sent1 e a)
