-- ===== src/Node/Total/Answers.antt =====
-- Broadcasts: when their handler of src/node.rs returns.
use lora_mesh_rs.Prelude.{
  ℕ, ◌+◌, ◌<◌, ◌≡◌, refl, ap, ◌∙◌, Bool, true, not, ◌&&◌, Option, none, some, ◌==◌, length, arith,
}
use lora_mesh_rs.Prelude.Outcome.{ok, ◌>>=◌}
use lora_mesh_rs.Prelude.Returns.{Returns, Returns-bind, Returns-option, Returns-if}
use lora_mesh_rs.Kinds.{Enumn}
use lora_mesh_rs.Util.{Ipv4Addr, is_private}
use lora_mesh_rs.Frame.{Frame, FrameHeader, Profile, dev, release, to_bytes, route_unshift, add_u8}
use lora_mesh_rs.Frame.Codec.{IsRouted}
use lora_mesh_rs.Message.Broadcast
use lora_mesh_rs.Message.Broadcast.{BroadcastMessage}
use lora_mesh_rs.Message.IpAssign.{new_success, success_to_frame}
use lora_mesh_rs.Router.{Clock, node_observe_get, handle_broadcast}
use lora_mesh_rs.Router.Graph.{GraphCrate}
use lora_mesh_rs.Router.Offers.{IsOffer, handle_broadcast-IsOffer}
use lora_mesh_rs.Router.Total.{Announces, handle_broadcast_total}
use lora_mesh_rs.Tunnel.{Platform, NetworkTunnel, routeipaddr}
use lora_mesh_rs.Tunnel.Total.{AlwaysSucceeds, routeipaddr-Returns}
use lora_mesh_rs.Node.State.{MeshNode, transmit}
use lora_mesh_rs.Node.Receive.{
  contains, route_back, rebroadcast, route_new, route_observed, answer_success, learn_broadcast,
  on_broadcast,
}
use lora_mesh_rs.Node.Total.{IsHealthy, HasHop, IsPrivate}
use lora_mesh_rs.Node.Total.Packets.{IsHealthy-transmit, IsHealthy-tunnel}

add_u8-one : (p : Profile) (n : ℕ) → n < 255 → add_u8 p n 1 ≡ ok (n + 1)
unfolding add_u8
add_u8-one dev n h = ground arith
add_u8-one release n h = ground arith

module _ {G : Type 0} ⦃os : Platform⦄ where
  -- What is sent on still has a hop.
  abbrev Sends : MeshNode G × Frame → Type 0
  Sends (n, f) = IsHealthy n × HasHop f.route

  rebroadcast-Returns :
      (n : MeshNode G) (f : Frame)
      → IsRouted f
      → length f.route < 255
      → HasHop f.route
      → IsHealthy n
      → Returns Sends (rebroadcast n f)
  unfolding rebroadcast route_unshift
  rebroadcast-Returns n f r short hop v =
      Returns-if Sends (not n.opt.isgateway && not (contains f.route n.id)) _ _
        (λ _.
          rw (add_u8-one os.profile f.routeoffset (omega (arith, r, short)))
            (IsHealthy-transmit n _ v, (n.id, f.route, refl)))
        (λ _. (v, hop))

module _ {G : Type 0} ⦃os : Platform⦄ (up : AlwaysSucceeds os) where
  routed-Returns :
      (n : MeshNode G) (addr own : Ipv4Addr)
      → is_private addr ≡ true
      → IsHealthy n
      → Returns IsHealthy (routeipaddr n.tunnel addr own >>= λ t. ok (record n { tunnel = t }))
  routed-Returns n addr own p v =
      Returns-bind (λ (t : NetworkTunnel). t.tunip ≡ n.tunnel.tunip) IsHealthy
        (routeipaddr n.tunnel addr own) _ (routeipaddr-Returns up n.tunnel addr own p)
        (λ t kept. IsHealthy-tunnel n t kept v)

  route_new-Returns :
      (n : MeshNode G) (seen : Option ℕ) (addr own : Ipv4Addr)
      → is_private addr ≡ true
      → IsHealthy n
      → Returns IsHealthy (route_new n seen addr own)
  route_new-Returns n none addr own p v = routed-Returns n addr own p v
  route_new-Returns n (some t) addr own p v = v

  route_observed-Returns :
      (n : MeshNode G) (f : Frame) (b : BroadcastMessage) (own : Ipv4Addr)
      → IsPrivate b.ipaddr
      → IsHealthy n
      → Returns IsHealthy (route_observed n f b own)
  unfolding route_observed
  route_observed-Returns n f b own p v =
      Returns-if IsHealthy (not (f.sender == n.id) && not n.opt.isgateway) _ _
        (λ _.
          Returns-option IsHealthy b.ipaddr (ok n) _ (λ _. v)
            (λ addr e.
              route_new-Returns n (node_observe_get n.router f.sender) addr own (p addr e) v))
        (λ _. v)

  answer_success-Returns :
      (n : MeshNode G) (f : Frame) (i : ℕ) (own : Ipv4Addr) (given : Option (Ipv4Addr × Bool))
      → IsOffer given
      → IsHealthy n
      → Returns IsHealthy (answer_success n f i own given)
  unfolding answer_success
  answer_success-Returns n f i own none p v = v
  answer_success-Returns n f i own (some (addr, isnew)) p v =
      let told =
        transmit n (to_bytes (success_to_frame (new_success addr) i n.id (route_back f))) in
      Returns-if IsHealthy isnew _ _
        (λ new. routed-Returns told addr own (p new) (IsHealthy-transmit n _ v))
        (λ _. IsHealthy-transmit n _ v)

module _ {G : Type 0} ⦃e : Enumn⦄ ⦃gc : GraphCrate G⦄ ⦃os : Platform⦄ (up : AlwaysSucceeds os) where
  learn_broadcast-Returns :
      (clock : Clock) (i : ℕ) (n : MeshNode G) (f : Frame) (b : BroadcastMessage) (h : FrameHeader)
      (own : Ipv4Addr)
      → b.header ≡ some h
      → Announces b
      → IsPrivate b.ipaddr
      → HasHop f.route
      → IsHealthy n
      → Returns IsHealthy (learn_broadcast clock i n f b own)
  unfolding learn_broadcast
  learn_broadcast-Returns clock i n f b h own eh announces p (hop, rest, at) v =
      Returns-bind IsHealthy IsHealthy (route_observed n f b own) _
        (route_observed-Returns up n f b own p v)
        λ m w.
          let (r, given, handled) =
            handle_broadcast_total clock m.router b h hop rest eh announces in
          let done = ap (handle_broadcast clock m.router b) at ∙ handled in
          rw done (
            answer_success-Returns up (record m { router = r }) f i own given
              (handle_broadcast-IsOffer clock m.router b f.route r given done)
              (record { sized = w.sized; tunip = w.tunip; tunip_is = w.tunip_is }))

  pub on_broadcast-Returns :
      (clock : Clock) (i : ℕ) (n : MeshNode G) (f : Frame) (b : BroadcastMessage) (h : FrameHeader)
      → IsRouted f
      → Broadcast.from_frame f ≡ ok b
      → b.header ≡ some h
      → Announces b
      → IsPrivate b.ipaddr
      → HasHop f.route
      → length f.route < 255
      → IsHealthy n
      → Returns IsHealthy (on_broadcast clock i n f)
  unfolding on_broadcast
  on_broadcast-Returns clock i n f b h r read eh announces p hop short v = rw read (
      Returns-bind Sends IsHealthy (rebroadcast n f) _ (rebroadcast-Returns n f r short hop v)
        λ q s.
          Returns-option IsHealthy q.0.ipaddr (ok q.0) _ (λ _. s.0)
            (λ own _. learn_broadcast-Returns clock i q.0 q.1 b h own eh announces p s.1 s.0))
