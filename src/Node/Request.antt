-- ===== src/Node/Request.antt =====
-- src/node.rs at a gateway that hears a node ask for an address.
use lora_mesh_rs.Prelude.{
  ℕ, ◌<◌, ◌≡◌, refl, sym, ap, ◌∙◌, Bool, true, false, not, ◌&&◌, List, [], ◌∷◌, ◌++◌, Option, none,
  some, arith, length, ltb, ◌==◌, byte_eq, bytes_eq, lt→ltb,
}
use lora_mesh_rs.Prelude.Outcome.{ok}
use lora_mesh_rs.Prelude.HashMap
use lora_mesh_rs.Kinds.{Enumn, broadcast, final_chunk, tx_to_u8}
use lora_mesh_rs.Util.{Ipv4Addr, composite_key, is_private}
use lora_mesh_rs.Frame.{Frame, to_bytes, txflag, msgtype}
use lora_mesh_rs.Frame.Codec.{IsRouted}
use lora_mesh_rs.Message.Broadcast
use lora_mesh_rs.Message.Broadcast.{BroadcastMessage}
use lora_mesh_rs.Message.IpPacket.{PacketCrate}
use lora_mesh_rs.Message.RoundTrip.{sent_header, broadcast_fields}
use lora_mesh_rs.Router.{MeshRouter, Clock, handle_broadcast}
use lora_mesh_rs.Router.Graph.{GraphCrate}
use lora_mesh_rs.Router.Lease.{leased}
use lora_mesh_rs.Router.Gives.{heard_request, handle_broadcast-request}
use lora_mesh_rs.Tunnel.{Platform, route_add, routeipaddr, NetworkTunnel}
use lora_mesh_rs.Tunnel.Total.{AlwaysSucceeds}
use lora_mesh_rs.Node.State.{MeshNode, transmit}
use lora_mesh_rs.Node.Receive.{
  dispatch, on_radio, on_broadcast, rebroadcast, route_observed, learn_broadcast, answer_success,
}
use lora_mesh_rs.Node.Delivery.{cleared, on_radio-dispatch}
use lora_mesh_rs.Node.Relay.{answer}

-- The broadcast of a node without an address, as it arrives over a route.
abbrev pub request_frame : ℕ → ℕ → List ℕ → Frame
request_frame frameid sender route =
    Broadcast.to_frame (record { header = none; isgateway = false; ip_offset = 0; ipaddr = none })
      frameid sender route

and_off : (c : Bool) → (c && false) ≡ false
and_off true = refl
and_off false = refl

routed_lease :
    ⦃os : Platform⦄ (t : NetworkTunnel) (id : ℕ) (via : Ipv4Addr)
    → AlwaysSucceeds os
    → routeipaddr t (leased id) via
      ≡ ok (record t { commands = t.commands ++ route_add (leased id) via ∷ [] })
unfolding routeipaddr is_private
routed_lease t id via up = rw (up t.commands (route_add (leased id) via))

some_hops : (x : ℕ) (xs : List ℕ) → ltb 0 (length (x ∷ xs)) ≡ true
some_hops x xs = lt→ltb 0 (length (x ∷ xs)) (omega arith)

module _ {G : Type 0} ⦃e : Enumn⦄ ⦃gc : GraphCrate G⦄ ⦃os : Platform⦄ where
  -- The answer to a request whose address is new.
  answer_success-new :
      (n : MeshNode G) (f : Frame) (i first s : ℕ) (rest : List ℕ) (own : Ipv4Addr)
      → AlwaysSucceeds os
      → f.route ≡ first ∷ rest
      → (n' : MeshNode G) × (answer_success n f i own (some (leased s, true)) ≡ ok n')
        × (n'.sent ≡ n.sent ++ to_bytes (answer (leased s) i n.id (first ∷ rest)) ∷ [])
        × (n'.router ≡ n.router)
  unfolding answer_success
  answer_success-new n f i first s rest own up h = (
    record (transmit n (to_bytes (answer (leased s) i n.id (first ∷ rest)))) {
      tunnel = record n.tunnel { commands = n.tunnel.commands ++ route_add (leased s) own ∷ [] };
    },
    rw (h, some_hops first rest, routed_lease n.tunnel s own up),
    refl,
    refl,
  )

  -- A gateway that has an address hears a request.
  learns_request :
      (clock : Clock) (i : ℕ) (n n' : MeshNode G) (f : Frame) (b : BroadcastMessage)
      (own : Ipv4Addr) (r : MeshRouter G) (given : Option (Ipv4Addr × Bool))
      → n.opt.isgateway ≡ true
      → n.ipaddr ≡ some own
      → Broadcast.from_frame f ≡ ok b
      → handle_broadcast clock n.router b f.route ≡ ok (r, given)
      → answer_success (record n { router = r }) f i own given ≡ ok n'
      → on_broadcast clock i n f ≡ ok n'
  unfolding on_broadcast rebroadcast learn_broadcast route_observed
  learns_request clock i n n' f b own r given g a p h done =
      simp (p, g, a, and_off (not (f.sender == n.id)), h)
        (ap (λ o. answer_success (record n { ipaddr = o; router = r }) f i own given) (sym a)
          ∙ done)

module _ ⦃e : Enumn⦄ where
  request_parts :
      (frameid sender : ℕ) (route : List ℕ)
      → length route < 256
      → IsRouted (request_frame frameid sender route)
        × (txflag (request_frame frameid sender route) ≡ ok final_chunk)
        × (msgtype (request_frame frameid sender route) ≡ ok broadcast)
  unfolding Broadcast.to_frame txflag msgtype
  request_parts frameid sender route h =
      let zero_is : e.tx_n 0 ≡ some final_chunk = unfold tx_to_u8 in e.tx_n_of final_chunk in
      (omega arith, rw zero_is, rw (e.msg_n_of broadcast))

module _ (P : Type 0) {G : Type 0} ⦃e : Enumn⦄ ⦃gc : GraphCrate G⦄ ⦃pc : PacketCrate P⦄
    ⦃os : Platform⦄ where
  -- A node without an address asks for one, over a route that is not empty and shorter than 256, at
  -- a gateway that has an address, keeps no chunk under the key of the broadcast, has no address in
  -- its table for that node, and stands on a machine where every command succeeds. Then the gateway
  -- goes on with one more frame to send, the answer along the same route with the address made for
  -- the node, and has that address in its table for the node.
  pub on_radio-request :
      (clock : Clock) (i : ℕ) (n : MeshNode G) (own : Ipv4Addr) (frameid sender first : ℕ)
      (rest : List ℕ)
      → AlwaysSucceeds os
      → n.opt.isgateway ≡ true
      → n.router.isgateway ≡ true
      → n.ipaddr ≡ some own
      → length (first ∷ rest) < 256
      → HashMap.get (composite_key sender frameid) n.rxchunks ≡ none
      → HashMap.get sender n.router.id2ip ≡ none
      → (n' : MeshNode G) × (on_radio P clock i n
            (to_bytes (request_frame frameid sender (first ∷ rest)))
          ≡ ok n')
        × (n'.sent ≡ n.sent ++ to_bytes (answer (leased sender) i n.id (first ∷ rest)) ∷ [])
        × (HashMap.get sender n'.router.id2ip ≡ some (leased sender))
  unfolding dispatch Broadcast.to_frame
  on_radio-request clock i n own frameid sender first rest up g rg a len free new =
      let f = request_frame frameid sender (first ∷ rest) in
      let hd = sent_header broadcast frameid sender (first ∷ rest) in
      let (routed, flag, kind) = request_parts frameid sender (first ∷ rest) len in
      let (r, handled, known) = handle_broadcast-request clock n.router hd first rest rg new in
      let m = cleared n f in
      let (n', done, sends, router_is) =
        answer_success-new (record m { router = r }) f i first sender rest own up refl in
      (
        n',
        on_radio-dispatch P clock i n f broadcast routed flag kind free
            ∙ learns_request clock i m n' f (heard_request hd) own r (some (leased sender, true)) g
                a (broadcast_fields none false 0 none frameid sender (first ∷ rest)) handled done,
        sends,
        ap (λ (t : MeshRouter G). HashMap.get sender t.id2ip) router_is ∙ known,
      )
