-- ===== src/Frame/Codec.antt =====
-- `Frame::to_bytes` and `Frame::from_bytes` of src/stack/frame.rs, one after the other.
use lora_mesh_rs.Prelude.{
  ℕ, suc, ◌+◌, ◌-◌, ◌<◌, ◌≡◌, refl, sym, ap, ◌∙◌, ◌⊎◌, inl, inr, List, [], ◌∷◌, ◌++◌, arith, true,
  false, leb, Bool-cases, leb→le, le→leb, subst, if◌then◌else◌, length, take, drop, length-append,
  take-append-drop, take-length-append, drop-length-append, length-take,
}
use lora_mesh_rs.Prelude.Outcome.{Outcome, ok, err, invalid_data}
use lora_mesh_rs.Frame.{Frame, to_bytes, from_bytes}

-- The route's length byte is right. Every frame that `from_bytes` or `to_frame` makes has this.
abbrev pub IsRouted : Frame → Type 0
IsRouted f = f.routeoffset ≡ length f.route

abbrev parsed : ℕ → ℕ → ℕ → ℕ → ℕ → List ℕ → Outcome Frame
parsed t i m s ro rest =
    if leb ro (length rest)
    then ok (record {
      txflag = t;
      frameid = i;
      msgtype = m;
      sender = s;
      routeoffset = ro;
      route = take ro rest;
      payload = drop ro rest;
    })
    else err invalid_data

from_bytes-cons :
    (t i m s ro : ℕ) (rest : List ℕ)
    → from_bytes (t ∷ i ∷ m ∷ s ∷ ro ∷ rest) ≡ parsed t i m s ro rest
unfolding from_bytes
from_bytes-cons t i m s ro rest =
    let e : 5 + ro ≡ suc (suc (suc (suc (suc ro)))) = omega arith in
    let d : suc (suc (suc (suc (suc ro)))) - 5 ≡ ro = omega arith in rw (e, d) (ground arith)

route_length : (ro : ℕ) (rest : List ℕ) → leb ro (length rest) ≡ true → ro ≡ length (take ro rest)
route_length ro rest h = omega (arith, leb→le ro (length rest) h, length-take ro rest)

leb→lt : (a b : ℕ) → leb a b ≡ false → b < a
leb→lt a b h = ground arith

-- What is read back: `from_bytes` inverts `to_bytes` on every frame whose length byte is right.
pub from_bytes-to_bytes : (f : Frame) → IsRouted f → from_bytes (to_bytes f) ≡ ok f
unfolding to_bytes
from_bytes-to_bytes f h =
    from_bytes-cons f.txflag f.frameid f.msgtype f.sender f.routeoffset (f.route ++ f.payload)
    ∙ rw (
      h,
      le→leb (length f.route) (length (f.route ++ f.payload))
          (omega (arith, length-append f.route f.payload)),
      take-length-append f.route f.payload,
      drop-length-append f.route f.payload,
    )

-- The bytes are too short for the header, or for the route that they announce.
abbrev pub IsShort : List ℕ → Type 0
IsShort (t ∷ i ∷ m ∷ s ∷ ro ∷ rest) = length rest < ro
IsShort _ = Unit

-- `from_bytes` returns on any bytes: either the error, and the bytes are too short for the header
-- or for the route, or a frame whose length byte is right and which prints as these bytes.
pub from_bytes_total :
    (bytes : List ℕ)
    → ((from_bytes bytes ≡ err invalid_data) × IsShort bytes)
      ⊎ ((f : Frame) × (from_bytes bytes ≡ ok f) × (to_bytes f ≡ bytes) × IsRouted f)
from_bytes_total [] = inl (unfold from_bytes in refl, tt)
from_bytes_total (t ∷ []) = inl (unfold from_bytes in refl, tt)
from_bytes_total (t ∷ i ∷ []) = inl (unfold from_bytes in refl, tt)
from_bytes_total (t ∷ i ∷ m ∷ []) = inl (unfold from_bytes in refl, tt)
from_bytes_total (t ∷ i ∷ m ∷ s ∷ []) = inl (unfold from_bytes in refl, tt)
from_bytes_total (t ∷ i ∷ m ∷ s ∷ ro ∷ rest) = elim (Bool-cases (leb ro (length rest))) [
  | inl fits ↦ inr (
    record {
      txflag = t;
      frameid = i;
      msgtype = m;
      sender = s;
      routeoffset = ro;
      route = take ro rest;
      payload = drop ro rest;
    },
    from_bytes-cons t i m s ro rest ∙ rw fits,
    unfold to_bytes in ap (λ r. t ∷ i ∷ m ∷ s ∷ ro ∷ r) (take-append-drop ro rest),
    route_length ro rest fits,
  )
  | inr short ↦ inl (from_bytes-cons t i m s ro rest ∙ rw short, leb→lt ro (length rest) short)
]

-- A frame that was parsed prints as the bytes it came from, and its length byte is right.
pub from_bytes_inv :
    (bytes : List ℕ) (f : Frame) → from_bytes bytes ≡ ok f → (to_bytes f ≡ bytes) × IsRouted f
from_bytes_inv bytes f h = elim (from_bytes_total bytes) [
  | inl (e, _) ↦ absurd (cc)
  | inr (g, e, p, r) ↦ let same : g ≡ f = cc in (ap to_bytes (sym same) ∙ p, subst IsRouted same r)
]
