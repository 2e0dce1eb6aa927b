-- ===== src/Node/Hops.antt =====
-- `handle_ip_nexthop` of src/node.rs, by the hop that is next.
use lora_mesh_rs.Prelude.{
  ℕ, ◌<◌, ◌≡◌, ◌≢◌, refl, ap, true, false, List, [], ◌∷◌, some, arith, length, ltb, ◌==◌, ==_refl,
  byte_eq, bytes_eq,
}
use lora_mesh_rs.Prelude.Outcome.{ok, panic, local_destination}
use lora_mesh_rs.Kinds.{Enumn}
use lora_mesh_rs.Frame.{Frame, chunked}
use lora_mesh_rs.Frame.Codec.{IsRouted}
use lora_mesh_rs.Frame.Route.{shifted, route_shift_lem}
use lora_mesh_rs.Tunnel.{Platform}
use lora_mesh_rs.Node.State.{MeshNode, transmit_all}
use lora_mesh_rs.Node.Packets.{pass_on, handle_ip_nexthop}

other_id : (a b : ℕ) → a ≢ b → (a == b) ≡ false
other_id a b h = ground arith

some_left : (rest : List ℕ) → rest ≢ [] → ltb 0 (length rest) ≡ true
some_left [] h = absurd (h refl)
some_left (x ∷ rest) h = ground arith

module _ {G : Type 0} ⦃e : Enumn⦄ ⦃os : Platform⦄ where
  pass_on-own : (n : MeshNode G) (g : Frame) → pass_on n (g, some n.id) ≡ panic local_destination
  unfolding pass_on
  pass_on-own n g = rw (==_refl n.id)

  pass_on-last :
      (n : MeshNode G) (g : Frame) (hop : ℕ)
      → hop ≢ n.id
      → g.route ≡ []
      → pass_on n (g, some hop) ≡ ok n
  unfolding pass_on
  pass_on-last n g hop h r =
      let idle : ltb 0 (length g.route) ≡ false = ap (λ t. ltb 0 (length t)) r in
      rw (other_id hop n.id h, idle)

  pass_on-more :
      (n : MeshNode G) (g : Frame) (hop : ℕ) (chunks : List (List ℕ))
      → hop ≢ n.id
      → g.route ≢ []
      → chunked g n.opt.maxpacketsize ≡ ok chunks
      → pass_on n (g, some hop) ≡ ok (transmit_all n chunks)
  unfolding pass_on
  pass_on-more n g hop chunks h r c = rw (other_id hop n.id h, some_left g.route r, c)

  -- `handle_ip_nexthop`, on a frame with a right length byte and a route shorter than 256 whose
  -- next hop is this very node, panics, whatever hops follow.
  pub handle_ip_nexthop-own :
      (n : MeshNode G) (f : Frame) (rest : List ℕ)
      → IsRouted f
      → f.route ≡ n.id ∷ rest
      → length f.route < 256
      → handle_ip_nexthop n f ≡ panic local_destination
  unfolding handle_ip_nexthop
  handle_ip_nexthop-own n f rest r h len =
      rw (route_shift_lem os.profile f n.id rest r h len) (pass_on-own n (shifted f rest))

  -- `handle_ip_nexthop`, on a frame with a right length byte and a route shorter than 256 whose
  -- next hop is another node, and which has hops left after that, sends the chunks of the frame
  -- without that hop, where cutting it ends well.
  pub handle_ip_nexthop-other :
      (n : MeshNode G) (f : Frame) (hop : ℕ) (rest : List ℕ) (chunks : List (List ℕ))
      → IsRouted f
      → f.route ≡ hop ∷ rest
      → length f.route < 256
      → hop ≢ n.id
      → rest ≢ []
      → chunked (shifted f rest) n.opt.maxpacketsize ≡ ok chunks
      → handle_ip_nexthop n f ≡ ok (transmit_all n chunks)
  unfolding handle_ip_nexthop
  handle_ip_nexthop-other n f hop rest chunks r h len other left c =
      rw (route_shift_lem os.profile f hop rest r h len)
        (pass_on-more n (shifted f rest) hop chunks other left c)

  -- `handle_ip_nexthop`, where the next hop is another node and the last: nothing.
  pub handle_ip_nexthop-last :
      (n : MeshNode G) (f : Frame) (hop : ℕ)
      → IsRouted f
      → f.route ≡ hop ∷ []
      → hop ≢ n.id
      → handle_ip_nexthop n f ≡ ok n
  unfolding handle_ip_nexthop
  handle_ip_nexthop-last n f hop r h other =
      rw (route_shift_lem os.profile f hop [] r h (omega (arith, ap length h)))
        (pass_on-last n (shifted f []) hop other refl)
