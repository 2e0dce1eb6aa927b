-- ===== src/Examples/Hex.antt =====
-- A stand-in for the crate `hex`, which src/hardware/lostik.rs calls: two digits a byte.
use lora_mesh_rs.Prelude.{
  ℕ, ◌+◌, ◌-◌, ◌*◌, ◌/◌, ◌%◌, ◌<◌, ◌≡◌, refl, true, List, [], ◌∷◌, ◌&&◌, Option, none, some, ltb,
  leb, if◌then◌else◌, arith, All, subst,
}
use lora_mesh_rs.Util.{IsByte}
use lora_mesh_rs.Radio.{Line, Device}

abbrev digit : ℕ → ℕ
digit n = if ltb n 10 then 48 + n else 87 + n

-- The value of a digit; capital letters are digits too.
abbrev value : ℕ → Option ℕ
value c =
    if leb 48 c && leb c 57
    then some (c - 48)
    else if leb 97 c && leb c 102
    then some (c - 87)
    else if leb 65 c && leb c 70
    then some (c - 55)
    else none

abbrev pub encode : List ℕ → Line
encode [] = []
encode (b ∷ bytes) = digit (b / 16) ∷ digit (b % 16) ∷ encode bytes

abbrev joined : Option ℕ → Option ℕ → Option (List ℕ) → Option (List ℕ)
joined (some a) (some b) (some bytes) = some ((16 * a + b) ∷ bytes)
joined _ _ _ = none

abbrev pub decode : Line → Option (List ℕ)
decode [] = some []
decode (a ∷ []) = none
decode (a ∷ b ∷ line) = joined (value a) (value b) (decode line)

value-digit : (n : ℕ) → n < 16 → value (digit n) ≡ some n
value-digit n h = ground arith

value_bound : (c n : ℕ) → value c ≡ some n → n < 16
value_bound c n h = ground arith

pub decode-encode : (bytes : List ℕ) → All IsByte bytes → decode (encode bytes) ≡ some bytes
decode-encode [] h = refl
decode-encode (b ∷ bytes) h =
    let e : 16 * (b / 16) + b % 16 ≡ b = omega arith in
    rw (
      value-digit (b / 16) (omega (arith, h.0)),
      value-digit (b % 16) (omega arith),
      decode-encode bytes h.1,
      e,
    )

some_inj : {A : Type 0} {a b : A} → some a ≡ some b → a ≡ b
some_inj h = cc

joined_bytes :
    (a b : Option ℕ) (m : Option (List ℕ)) (bytes : List ℕ)
    → ((n : ℕ) → a ≡ some n → n < 16)
    → ((n : ℕ) → b ≡ some n → n < 16)
    → ((rest : List ℕ) → m ≡ some rest → All IsByte rest)
    → joined a b m ≡ some bytes
    → All IsByte bytes
joined_bytes (some a) (some b) (some rest) bytes ha hb h e =
    subst (All IsByte) (some_inj e) (omega (arith, ha a refl, hb b refl), h rest refl)
joined_bytes none b m bytes ha hb h e = cc
joined_bytes (some a) none m bytes ha hb h e = cc
joined_bytes (some a) (some b) none bytes ha hb h e = cc

pub decode_bytes : (line : Line) (bytes : List ℕ) → decode line ≡ some bytes → All IsByte bytes
decode_bytes [] bytes e = subst (All IsByte) (some_inj e) tt
decode_bytes (a ∷ []) bytes e = cc
decode_bytes (a ∷ b ∷ line) bytes e =
    joined_bytes (value a) (value b) (decode line) bytes (value_bound a) (value_bound b)
      (decode_bytes line) e

-- A port that takes every line.
instance abbrev pub the_device : Device
the_device = record {
  accepts = λ ran line. true;
  encode = encode;
  decode = decode;
  decode-encode = decode-encode;
  decode_bytes = decode_bytes;
}
