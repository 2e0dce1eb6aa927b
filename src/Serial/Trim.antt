-- ===== src/Serial/Trim.antt =====
-- White space around the lines that src/hardware/serial.rs reads.
use lora_mesh_rs.Prelude.{ℕ, zero, suc, ◌≤◌, ◌≡◌, refl, ap, ◌∙◌, List, [], ◌∷◌, ◌++◌, arith, length}
use lora_mesh_rs.Serial.{space_size, skip_space, is_empty, trim_start, trim_end, trim}

abbrev pub line_end : List ℕ
line_end = 13 ∷ 10 ∷ []

-- The end of a line is no part of a longer white space.
space_size_one : (x : ℕ) → space_size (x ∷ line_end) ≡ space_size (x ∷ [])
space_size_one x = ground arith

space_size_two : (x y : ℕ) → space_size (x ∷ y ∷ line_end) ≡ space_size (x ∷ y ∷ [])
space_size_two x y = ground arith

space_size-append : (x : ℕ) (xs : List ℕ) → space_size ((x ∷ xs) ++ line_end) ≡ space_size (x ∷ xs)
space_size-append x [] = space_size_one x
space_size-append x (y ∷ []) = space_size_two x y
space_size-append x (y ∷ z ∷ rest) = refl

space_size_bound : (xs : List ℕ) → space_size xs ≤ length xs
space_size_bound [] = omega arith
space_size_bound (x ∷ []) = ground arith
space_size_bound (x ∷ y ∷ []) = ground arith
space_size_bound (x ∷ y ∷ z ∷ rest) = ground arith

-- The end of a line stays behind what is not white space, and goes with white space.
abbrev ended : List ℕ → List ℕ
ended [] = []
ended (x ∷ xs) = (x ∷ xs) ++ line_end

skip_by :
    (x : ℕ) (xs : List ℕ) (n : ℕ)
    → n ≤ length (x ∷ xs)
    → ((k : ℕ) → k ≤ length xs → skip_space k (xs ++ line_end) ≡ ended (skip_space k xs))
    → (elim n as (λ _. List ℕ) [
      | zero ↦ x ∷ xs ++ line_end
      | suc k ↦ skip_space k (xs ++ line_end)
    ])
      ≡ ended (elim n as (λ _. List ℕ) [ zero ↦ x ∷ xs | suc k ↦ skip_space k xs ])
skip_by x xs zero b h = refl
skip_by x xs (suc k) b h = h k (omega (arith, b))

skip_space-append :
    (k : ℕ) (xs : List ℕ) → k ≤ length xs → skip_space k (xs ++ line_end) ≡ ended (skip_space k xs)
skip_space-append zero [] b = refl
skip_space-append (suc k) [] b = absurd (omega (arith, b))
skip_space-append (suc k) (x ∷ xs) b = skip_space-append k xs (omega (arith, b))
skip_space-append zero (x ∷ xs) b =
    ap
      (λ n. elim n as (λ _. List ℕ) [
        | zero ↦ x ∷ xs ++ line_end
        | suc k ↦ skip_space k (xs ++ line_end)
      ])
      (space_size-append x xs)
    ∙ skip_by x xs (space_size (x ∷ xs)) (space_size_bound (x ∷ xs))
        (λ k c. skip_space-append k xs c)

is_empty-ended : (xs : List ℕ) → is_empty (ended xs) ≡ is_empty xs
is_empty-ended [] = refl
is_empty-ended (x ∷ xs) = refl

trim_end-append : (xs : List ℕ) → trim_end (xs ++ line_end) ≡ trim_end xs
unfolding trim_end
trim_end-append [] = refl
trim_end-append (x ∷ xs) = rw (
  skip_space-append 0 (x ∷ xs) (omega arith),
  is_empty-ended (skip_space 0 (x ∷ xs)),
  trim_end-append xs,
)

trim_end-ended : (xs : List ℕ) → trim_end (ended xs) ≡ trim_end xs
trim_end-ended [] = refl
trim_end-ended (x ∷ xs) = trim_end-append (x ∷ xs)

-- A line without its end is trimmed as with it.
pub trim-append : (xs : List ℕ) → trim (xs ++ line_end) ≡ trim xs
unfolding trim trim_start
trim-append xs =
    ap trim_end (skip_space-append 0 xs (omega arith)) ∙ trim_end-ended (skip_space 0 xs)
