-- ===== src/Frame/Sizes.antt =====
-- How long the chunks of `Frame::chunked` of src/stack/frame.rs are on the air.
use lora_mesh_rs.Prelude.{
  ℕ, ◌+◌, ◌<◌, ◌≤◌, ◌≡◌, refl, ap, subst, List, [], ◌∷◌, map, arith, All, length, length-append,
  flatten,
}
use lora_mesh_rs.Prelude.Outcome.{ok}
use lora_mesh_rs.Chunk.Laws.{IsChunking}
use lora_mesh_rs.Kinds.{Enumn}
use lora_mesh_rs.Frame.{Frame, FrameHeader, to_bytes, header, chunked}
use lora_mesh_rs.Frame.Codec.{IsRouted}
use lora_mesh_rs.Frame.Chunking.{piece, pieces, chunked_lem}

pub length-to_bytes : (f : Frame) → length (to_bytes f) ≡ 5 + length f.route + length f.payload
unfolding to_bytes
length-to_bytes f = omega (arith, length-append f.route f.payload)

pieces_bound :
    (f : Frame) (m : ℕ) (ps : List (List ℕ))
    → IsChunking m ps
    → All (λ c. length c ≤ 5 + length f.route + m) (map to_bytes (pieces f ps))
pieces_bound f m [] k = tt
pieces_bound f m (p ∷ []) k = (omega (arith, length-to_bytes (record f { payload = p })), tt)
pieces_bound f m (p ∷ q ∷ ps) k =
    (omega (arith, length-to_bytes (piece f p)), pieces_bound f m (q ∷ ps) k.2)

-- The first of two or more chunks is full.
pieces_full :
    (f : Frame) (m : ℕ) (ps : List (List ℕ))
    → IsChunking m ps
    → m < length (flatten ps)
    → (c : List ℕ) × (cs : List (List ℕ)) × (map to_bytes (pieces f ps) ≡ c ∷ cs)
      × (length c ≡ 5 + length f.route + m)
unfolding flatten
pieces_full f m [] k h = absurd k
pieces_full f m (p ∷ []) k h = absurd (omega (arith, length-append p []))
pieces_full f m (p ∷ q ∷ ps) k h = (
  to_bytes (piece f p),
  map to_bytes (pieces f (q ∷ ps)),
  refl,
  omega (arith, length-to_bytes (piece f p)),
)

module _ ⦃e : Enumn⦄ where
  -- The chunks of a frame with a header, a right length byte and a route shorter than 256, whose
  -- payload is longer than the positive chunk size, have at most five bytes and the route more than
  -- the chunk size, and the first has exactly that.
  pub chunked_sizes :
      (f : Frame) (h : FrameHeader) (m : ℕ)
      → 0 < m
      → m < length f.payload
      → header f ≡ ok h
      → IsRouted f
      → length f.route < 256
      → (c : List ℕ) × (cs : List (List ℕ)) × (chunked f m ≡ ok (c ∷ cs))
        × (length c ≡ 5 + length f.route + m)
        × All (λ d. length d ≤ 5 + length f.route + m) (c ∷ cs)
  chunked_sizes f h m p big eh r b =
      let (ps, d, e) = chunked_lem f h m p eh r b in
      let (c, cs, same, size) = pieces_full f m ps d.chunking (rw (d.joined) big) in
      (
        c,
        cs,
        rw e (ap ok same),
        size,
        subst (All (λ d. length d ≤ 5 + length f.route + m)) same (pieces_bound f m ps d.chunking),
      )
