-- ===== src/Message/Utf8.antt =====
-- `String::from_utf8`, which src/stack/message/ipassign.rs calls. A `String` is the list of its
-- bytes; the standard library accepts the well-formed sequences of the Unicode standard.
use lora_mesh_rs.Prelude.{
  ℕ, zero, suc, ◌≡◌, refl, sym, ◌∙◌, Bool, true, false, ◌&&◌, List, [], ◌∷◌, ◌++◌, Option, none,
  some, ltb, leb, ◌==◌, if◌then◌else◌,
}

-- Of a lead byte: how many continuation bytes follow, and the range of the first of them.
abbrev lead : ℕ → Option (ℕ × ℕ × ℕ)
lead b =
    if ltb b 0x80
    then some (0, 0, 0)
    else if leb 0xc2 b && leb b 0xdf
    then some (1, 0x80, 0xbf)
    else if b == 0xe0
    then some (2, 0xa0, 0xbf)
    else if b == 0xed
    then some (2, 0x80, 0x9f)
    else if leb 0xe1 b && leb b 0xef
    then some (2, 0x80, 0xbf)
    else if b == 0xf0
    then some (3, 0x90, 0xbf)
    else if leb 0xf1 b && leb b 0xf3
    then some (3, 0x80, 0xbf)
    else if b == 0xf4
    then some (3, 0x80, 0x8f)
    else none

-- `n` continuation bytes are awaited, the first between `lo` and `hi`.
utf8_from : ℕ → ℕ → ℕ → List ℕ → Bool
utf8_from zero lo hi [] = true
utf8_from (suc n) lo hi [] = false
utf8_from zero lo hi (b ∷ bs) = elim (lead b) [
  | none ↦ false
  | some (n, first, last) ↦ utf8_from n first last bs
]
utf8_from (suc n) lo hi (b ∷ bs) = (leb lo b && leb b hi) && utf8_from n 0x80 0xbf bs

unfoldable pub is_utf8 : List ℕ → Bool
unfolding utf8_from
is_utf8 bytes = utf8_from 0 0 0 bytes

-- What follows a lead byte, where it is one.
after_lead : Option (ℕ × ℕ × ℕ) → List ℕ → Bool
unfolding utf8_from
after_lead none bytes = false
after_lead (some (n, first, last)) bytes = utf8_from n first last bytes

after_lead-append :
    (o : Option (ℕ × ℕ × ℕ)) (xs ys : List ℕ)
    → ((n lo hi : ℕ) → utf8_from n lo hi xs ≡ true → utf8_from n lo hi (xs ++ ys) ≡ true)
    → after_lead o xs ≡ true
    → after_lead o (xs ++ ys) ≡ true
unfolding after_lead
after_lead-append none xs ys g h = cc
after_lead-append (some (n, first, last)) xs ys g h = g n first last h

utf8_from-lead : (lo hi b : ℕ) (bs : List ℕ) → utf8_from 0 lo hi (b ∷ bs) ≡ after_lead (lead b) bs
unfolding utf8_from after_lead
utf8_from-lead lo hi b bs = by_lead (lead b)
  where
    by_lead :
        (o : Option (ℕ × ℕ × ℕ))
        → (elim o as (λ _. Bool) [
          | none ↦ false
          | some (n, first, last) ↦ utf8_from n first last bs
        ])
          ≡ after_lead o bs
    by_lead none = refl
    by_lead (some (n, first, last)) = refl

and_mono : (a x y : Bool) → (x ≡ true → y ≡ true) → (a && x) ≡ true → (a && y) ≡ true
and_mono true x y f h = f h
and_mono false x y f h = h

utf8_from-append :
    (xs ys : List ℕ) (n lo hi : ℕ)
    → is_utf8 ys ≡ true
    → utf8_from n lo hi xs ≡ true
    → utf8_from n lo hi (xs ++ ys) ≡ true
unfolding utf8_from is_utf8
utf8_from-append [] [] zero lo hi g h = refl
utf8_from-append [] (y ∷ ys) zero lo hi g h = g
utf8_from-append [] ys (suc n) lo hi g h = cc
utf8_from-append (b ∷ bs) ys zero lo hi g h =
    utf8_from-lead lo hi b (bs ++ ys)
    ∙ after_lead-append (lead b) bs ys (λ n l k. utf8_from-append bs ys n l k g)
        (sym (utf8_from-lead lo hi b bs) ∙ h)
utf8_from-append (b ∷ bs) ys (suc n) lo hi g h =
    and_mono (leb lo b && leb b hi) (utf8_from n 0x80 0xbf bs) (utf8_from n 0x80 0xbf (bs ++ ys))
      (utf8_from-append bs ys n 0x80 0xbf g) h

-- Texts that are well-formed are so one behind the other.
pub is_utf8-append :
    (xs ys : List ℕ) → is_utf8 xs ≡ true → is_utf8 ys ≡ true → is_utf8 (xs ++ ys) ≡ true
unfolding is_utf8
is_utf8-append xs ys h g = utf8_from-append xs ys 0 0 0 g h
