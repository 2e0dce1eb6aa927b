-- ===== src/Node/Wire.antt =====
-- Bytes that a receiver can parse, and the frames of src/node.rs that print as such.
use lora_mesh_rs.Prelude.{
  ℕ, suc, ◌-◌, ◌%◌, ◌<◌, ◌≤◌, ◌≡◌, sym, ap, ◌∙◌, inl, inr, List, [], ◌∷◌, ◌++◌, Option, Bool, true,
  false, arith, All, length, length-append, ltb, if◌then◌else◌, set, subst,
}
use lora_mesh_rs.Prelude.Outcome.{ok, ok_inj}
use lora_mesh_rs.Prelude.Post.{Post, Post-bind, Post-elim}
use lora_mesh_rs.Chunk.{chunk_data}
use lora_mesh_rs.Kinds.{Enumn, tx_to_u8, msg_to_u8}
use lora_mesh_rs.Frame.{
  Frame, FrameHeader, Profile, dev, release, to_bytes, from_bytes, header, header_bytes,
  add_headers, chunked, route_shift, route_unshift, add_u8,
}
use lora_mesh_rs.Frame.Codec.{IsRouted, from_bytes_total, from_bytes_inv}
use lora_mesh_rs.Frame.Chunking.{IsHeaderOf, header_inv}
use lora_mesh_rs.Frame.Route.{route_shift_inv, route_shift_lem, shifted}
use lora_mesh_rs.Util.{IsByte}

-- The bytes parse as a frame.
abbrev pub IsWire : List ℕ → Type 0
IsWire bytes = (f : Frame) × (from_bytes bytes ≡ ok f)

-- The length byte does not point behind the route.
abbrev pub Fits : Frame → Type 0
Fits f = f.routeoffset ≤ length f.route

IsWire-of : (t i m s ro : ℕ) (rest : List ℕ) → ro ≤ length rest → IsWire (t ∷ i ∷ m ∷ s ∷ ro ∷ rest)
IsWire-of t i m s ro rest h = elim (from_bytes_total (t ∷ i ∷ m ∷ s ∷ ro ∷ rest)) [
  | inl (_, short) ↦ absurd (omega arith)
  | inr (f, e, _, _) ↦ (f, e)
]

pub to_bytes-IsWire : (f : Frame) → Fits f → IsWire (to_bytes f)
unfolding to_bytes
to_bytes-IsWire f h =
    IsWire-of f.txflag f.frameid f.msgtype f.sender f.routeoffset (f.route ++ f.payload)
      (omega (arith, length-append f.route f.payload))

module _ ⦃e : Enumn⦄ where
  header-IsWire :
      (f : Frame) (h : FrameHeader) (p : List ℕ) (b : ℕ)
      → IsHeaderOf h f
      → IsWire (header_bytes h ++ p) × IsWire (set (header_bytes h ++ p) 0 b)
  unfolding header_bytes
  header-IsWire f h p b k =
      let fits : h.routeoffset % 256 ≤ length (h.route ++ p) =
        omega (arith, length-append h.route p, k.offset_is, ap length k.route_is) in
      (
        IsWire-of (tx_to_u8 h.txflag) h.frameid (msg_to_u8 h.msgtype) h.sender (h.routeoffset % 256)
            (h.route ++ p) fits,
        IsWire-of b h.frameid (msg_to_u8 h.msgtype) h.sender (h.routeoffset % 256) (h.route ++ p)
            fits,
      )

  chunk-IsWire :
      (f : Frame) (h : FrameHeader) (p : List ℕ) (more : Bool)
      → IsHeaderOf h f
      → IsWire (if more then set (header_bytes h ++ p) 0 1 else header_bytes h ++ p)
  chunk-IsWire f h p true k = (header-IsWire f h p 1 k).1
  chunk-IsWire f h p false k = (header-IsWire f h p 1 k).0

  add_headers-IsWire :
      (f : Frame) (n i : ℕ) (ps : List (List ℕ)) → Post (All IsWire) (add_headers f n i ps)
  unfolding add_headers
  add_headers-IsWire f n i [] = tt
  add_headers-IsWire f n i (p ∷ ps) = Post-bind (All IsWire) (header f) _ λ h eh.
      Post-bind (All IsWire) (add_headers f n (suc i) ps) _ λ chunks ec. (
        chunk-IsWire f h p (ltb i (n - 1)) (header_inv f h eh),
        Post-elim (All IsWire) (add_headers f n (suc i) ps) chunks
            (add_headers-IsWire f n (suc i) ps) ec,
      )

  -- Whatever frame is cut, the chunks are frames.
  pub chunked-IsWire : (f : Frame) (m : ℕ) → Post (All IsWire) (chunked f m)
  unfolding chunked
  chunked-IsWire f m =
      Post-bind (All IsWire) (chunk_data f.payload m) _
        (λ ps _. add_headers-IsWire f (length ps) 0 ps)

-- What a frame that was parsed, or whose first hop was taken, has: a right length byte, in range.
pub record IsSound (f : Frame) : Type 0 where
  pub routed : IsRouted f
  pub short : length f.route < 256

offset_byte : (f : Frame) → IsRouted f → All IsByte (to_bytes f) → length f.route < 256
unfolding to_bytes
offset_byte f r b = omega (arith, b.1.1.1.1.0)

-- A parsed frame is sound, if its bytes are bytes.
pub from_bytes-IsSound :
    (bytes : List ℕ) (f : Frame) → All IsByte bytes → from_bytes bytes ≡ ok f → IsSound f
from_bytes-IsSound bytes f b h =
    let (prints, r) = from_bytes_inv bytes f h in
    let all : All IsByte (to_bytes f) = subst (All IsByte) (sym prints) b in
    record { routed = r; short = offset_byte f r all }

-- Shifting a sound frame leaves it sound.
pub route_shift-IsSound :
    (p : Profile) (f g : Frame) (o : Option ℕ) → IsSound f → route_shift p f ≡ ok (g, o) → IsSound g
route_shift-IsSound p f g o s h =
    let (n, _, e, _) = route_shift_inv p f g o h in
    let same : g ≡ shifted f g.route =
      ap (λ (q : Frame × Option ℕ). q.0)
        (ok_inj (sym h ∙ route_shift_lem p f n g.route s.routed e s.short)) in
    record {
      routed = ap (λ (q : Frame). q.routeoffset) same;
      short = omega (arith, ap length e, s.short);
    }

-- Unshifting a sound frame leaves its length byte within its route.
pub route_unshift-Fits :
    (p : Profile) (f g : Frame) (n : ℕ) → IsSound f → route_unshift p f n ≡ ok g → Fits g
unfolding route_unshift add_u8
route_unshift-Fits dev f g n s h = ground arith
route_unshift-Fits release f g n s h = ground arith
