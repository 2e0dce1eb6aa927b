-- ===== src/Util/Keys.antt =====
-- `composite_key` of src/stack/util.rs, as text that is read back.
use lora_mesh_rs.Prelude.{ℕ, ◌+◌, ◌*◌, ◌-◌, ◌≡◌, ◌≢◌, sym, ap, ◌∙◌, List, [], ◌∷◌, ◌++◌, arith, All}
use lora_mesh_rs.Util.{IsByte, decimal, composite_key}

-- The number that decimal digits stand for.
value : ℕ → List ℕ → ℕ
value n [] = n
value n (c ∷ cs) = value (n * 10 + (c - 48)) cs

value-decimal : (n : ℕ) → IsByte n → value 0 (decimal n) ≡ n
unfolding value decimal
value-decimal n h = ground arith

-- Digits are not dashes.
decimal-no_dash : (n : ℕ) → All (λ c. c ≢ b'-') (decimal n)
unfolding decimal
decimal-no_dash n = ground arith

-- Two texts with a dash each, and none before it, agree before and after it.
split_at_dash :
    (xs ys r s : List ℕ)
    → All (λ c. c ≢ b'-') xs
    → All (λ c. c ≢ b'-') ys
    → xs ++ b'-' ∷ r ≡ ys ++ b'-' ∷ s
    → (xs ≡ ys) × (r ≡ s)
split_at_dash [] [] r s hx hy e = ground arith
split_at_dash [] (y ∷ ys) r s hx hy e = ground arith
split_at_dash (x ∷ xs) [] r s hx hy e = ground arith
split_at_dash (x ∷ xs) (y ∷ ys) r s hx hy e = ground (arith, split_at_dash xs ys r s)

decimal_inj : (m n : ℕ) → IsByte m → IsByte n → decimal m ≡ decimal n → m ≡ n
decimal_inj m n hm hn e = sym (value-decimal m hm) ∙ ap (value 0) e ∙ value-decimal n hn

-- The keys of two pairs of bytes are equal only if the pairs are.
composite_key_inj :
    (i j k l : ℕ)
    → IsByte i
    → IsByte j
    → IsByte k
    → IsByte l
    → composite_key i j ≡ composite_key k l
    → (i ≡ k) × (j ≡ l)
unfolding composite_key
composite_key_inj i j k l hi hj hk hl e =
    let (p, q) =
      split_at_dash (decimal i) (decimal k) (decimal j) (decimal l) (decimal-no_dash i)
        (decimal-no_dash k) e in
    (decimal_inj i k hi hk p, decimal_inj j l hj hl q)
