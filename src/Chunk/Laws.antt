-- ===== src/Chunk/Laws.antt =====
-- What `chunk_data` of src/stack/chunk.rs returns, and when it does not return.
use lora_mesh_rs.Prelude.{
  ℕ, zero, suc, ◌≤◌, ◌<◌, ◌≡◌, refl, ap, ◌∙◌, List, [], ◌∷◌, ◌++◌, append_assoc, append-nil,
  flatten, arith, inl, inr, ltb, Bool-cases, lt→ltb, ltb→lt, ltb→le, length, take, drop,
  length-take, length-drop, take-append-drop,
}
use lora_mesh_rs.Prelude.Outcome.{ok, diverges}
use lora_mesh_rs.Chunk.{chunk_loop, chunk_data}

-- A division into chunks: every chunk but the last has `m` bytes and is followed by a chunk that
-- is not empty; the last has at most `m`.
abbrev pub IsChunking : ℕ → List (List ℕ) → Type 0
IsChunking m [] = ⊥
IsChunking m (c ∷ []) = length c ≤ m
IsChunking m (c ∷ d ∷ cs) = (length c ≡ m) × (0 < length d) × IsChunking m (d ∷ cs)

-- The first chunk is not empty where the payload has bytes.
abbrev pub HeadFull : ℕ → List (List ℕ) → Type 0
HeadFull n [] = Unit
HeadFull n (c ∷ cs) = 0 < n → 0 < length c

-- `cs` is a division of `rest`, whose first chunk is not empty where there are bytes.
pub record Divides (m : ℕ) (rest : List ℕ) (cs : List (List ℕ)) : Type 0 where
  pub joined : flatten cs ≡ rest
  pub chunking : IsChunking m cs
  pub head_full : HeadFull (length rest) cs

Divides-last : (m : ℕ) (rest : List ℕ) → length rest ≤ m → Divides m rest (rest ∷ [])
unfolding flatten
Divides-last m rest h = record { joined = append-nil rest; chunking = h; head_full = λ q. q }

Divides-cons :
    (m : ℕ) (rest : List ℕ) (cs : List (List ℕ))
    → 0 < m
    → m < length rest
    → Divides m (drop m rest) cs
    → Divides m rest (take m rest ∷ cs)
unfolding flatten
Divides-cons m rest [] p h d = absurd d.chunking
Divides-cons m rest (c ∷ cs) p h d = record {
  joined = ap (λ t. take m rest ++ t) d.joined ∙ take-append-drop m rest;
  chunking = (
    omega (arith, length-take m rest),
    d.head_full (omega (arith, length-drop m rest)),
    d.chunking,
  );
  head_full = λ q. omega (arith, length-take m rest);
}

-- With enough fuel the loop returns what it had and a division of what was left.
chunk_loop_lem :
    (fuel : ℕ) (rest : List ℕ) (m : ℕ) (ret : List (List ℕ))
    → 0 < m
    → length rest < fuel
    → (cs : List (List ℕ)) × (chunk_loop fuel rest m ret ≡ ok (ret ++ cs)) × Divides m rest cs
unfolding chunk_loop
chunk_loop_lem zero rest m ret p h = absurd (omega arith)
chunk_loop_lem (suc fuel) rest m ret p h = elim (Bool-cases (ltb m (length rest))) [
  | inl more ↦
      let l : m < length rest = ltb→lt m (length rest) more in
      let ih =
        chunk_loop_lem fuel (drop m rest) m (ret ++ take m rest ∷ []) p
          (omega (arith, length-drop m rest)) in
      (
        take m rest ∷ ih.0,
        rw more (ih.1 ∙ ap ok (append_assoc ret (take m rest ∷ []) ih.0)),
        Divides-cons m rest ih.0 p l ih.2,
      )
  | inr last ↦ (rest ∷ [], rw last, Divides-last m rest (ltb→le m (length rest) last))
]

-- For a positive chunk size `chunk_data` ends: the chunks join to the payload, all but the last
-- have exactly the chunk size, the last has at most that, and only a lone chunk may be empty.
pub chunk_data-Divides :
    (payload : List ℕ) (m : ℕ)
    → 0 < m
    → (cs : List (List ℕ)) × (chunk_data payload m ≡ ok cs) × Divides m payload cs
unfolding chunk_data
chunk_data-Divides payload m p = chunk_loop_lem (suc (length payload)) payload m [] p (omega arith)

-- With chunk size zero and a payload that is not empty the loop never ends, whatever the fuel.
pub chunk_loop-zero :
    (fuel : ℕ) (x : ℕ) (rest : List ℕ) (ret : List (List ℕ))
    → chunk_loop fuel (x ∷ rest) 0 ret ≡ diverges
unfolding chunk_loop
chunk_loop-zero zero x rest ret = refl
chunk_loop-zero (suc fuel) x rest ret =
    rw (lt→ltb 0 (length (x ∷ rest)) (omega arith)) (chunk_loop-zero fuel x rest (ret ++ [] ∷ []))
