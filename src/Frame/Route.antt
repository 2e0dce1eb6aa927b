-- ===== src/Frame/Route.antt =====
-- `Frame::route_shift` and `Frame::route_unshift` of src/stack/frame.rs.
use lora_mesh_rs.Prelude.{
  ℕ, suc, ◌<◌, ◌≡◌, ap, List, [], ◌∷◌, Option, some, arith, ltb, if◌then◌else◌, length, get_last?,
}
use lora_mesh_rs.Prelude.Outcome.{
  Outcome, ok, err, panic, diverges, Panic, overflow, out_of_range, ◌>>=◌,
}
use lora_mesh_rs.Frame.{
  Frame, Profile, dev, release, add_u8, sub_u8, drain_first, route_shift, route_unshift,
}
use lora_mesh_rs.Frame.Codec.{IsRouted}

-- The frame behind its first hop.
abbrev pub shifted : Frame → List ℕ → Frame
shifted f rest = record f { routeoffset = length rest; route = rest }

sub_u8-one : (p : Profile) (n : ℕ) → suc n < 256 → sub_u8 p (suc n) 1 ≡ ok n
unfolding sub_u8
sub_u8-one dev n h = ground arith
sub_u8-one release n h = ground arith

-- On a frame with a right length byte and a route shorter than 256 that is not empty,
-- `route_shift` returns the first hop and leaves the rest, with a right length byte, in both
-- profiles.
pub route_shift_lem :
    (p : Profile) (f : Frame) (n : ℕ) (rest : List ℕ)
    → IsRouted f
    → f.route ≡ n ∷ rest
    → length f.route < 256
    → route_shift p f ≡ ok (shifted f rest, some n)
unfolding route_shift
route_shift_lem p f n rest r e h =
    rw (r, e, sub_u8-one p (length rest) (omega (arith, ap length e)))

-- On a frame with an empty route `route_shift` panics, in both profiles.
pub route_shift_empty :
    (p : Profile) (f : Frame) → f.route ≡ [] → (x : Panic) × (route_shift p f ≡ panic x)
unfolding route_shift sub_u8
route_shift_empty dev f e = (if ltb f.routeoffset 1 then overflow else out_of_range, ground arith)
route_shift_empty release f e = (out_of_range, rw e)

abbrev after_offset : Frame → Outcome ℕ → List ℕ → Outcome (Frame × Option ℕ)
after_offset f offset hops = do
  o ← offset
  (shift, rest) ← drain_first hops
  ok (record f { routeoffset = o; route = rest }, get_last? shift)

after_offset_inv :
    (f g : Frame) (o : Option ℕ) (offset : Outcome ℕ) (hops : List ℕ)
    → after_offset f offset hops ≡ ok (g, o)
    → (n : ℕ) × (o ≡ some n)
      × (hops ≡ n ∷ g.route)
      × (g ≡ record f { routeoffset = g.routeoffset; route = g.route })
unfolding drain_first
after_offset_inv f g o (ok off) [] h = cc
after_offset_inv f g o (ok off) (n ∷ hops) h = (n, ground arith, ground arith, ground arith)
after_offset_inv f g o (err x) hops h = cc
after_offset_inv f g o (panic x) hops h = cc
after_offset_inv f g o diverges hops h = cc

-- So `route_shift` never returns `None`: when it returns, it returns the first hop of the route
-- and the frame without it; the fields beside the route and its length byte are unchanged.
pub route_shift_inv :
    (p : Profile) (f g : Frame) (o : Option ℕ)
    → route_shift p f ≡ ok (g, o)
    → (n : ℕ) × (o ≡ some n)
      × (f.route ≡ n ∷ g.route)
      × (g ≡ record f { routeoffset = g.routeoffset; route = g.route })
unfolding route_shift
route_shift_inv p f g o h = after_offset_inv f g o (sub_u8 p f.routeoffset 1) f.route h

-- With room in the length byte, `route_unshift` puts the hop in front and keeps the byte right.
route_unshift_lem :
    (p : Profile) (f : Frame) (n : ℕ)
    → IsRouted f
    → length f.route < 255
    → route_unshift p f n
      ≡ ok (record f { routeoffset = length (n ∷ f.route); route = n ∷ f.route })
unfolding route_unshift add_u8
route_unshift_lem dev f n r h = ground arith
route_unshift_lem release f n r h = ground arith
