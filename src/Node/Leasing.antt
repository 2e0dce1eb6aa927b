-- ===== src/Node/Leasing.antt =====
-- How a node gets its address, over all the nodes of src/node.rs that take part: the gateway that
-- it asks, the relays that the answer crosses, and the node.
use lora_mesh_rs.Prelude.{
  ℕ, ◌<◌, ◌≡◌, refl, sym, ap, ◌∙◌, true, List, [], ◌∷◌, ◌++◌, none, some, arith, length,
  length-append, get_last?, get_last?-snoc, byte_eq, bytes_eq,
}
use lora_mesh_rs.Prelude.Outcome.{ok}
use lora_mesh_rs.Prelude.HashMap
use lora_mesh_rs.Kinds.{Enumn}
use lora_mesh_rs.Util.{Ipv4Addr, composite_key, is_private}
use lora_mesh_rs.Frame.{to_bytes}
use lora_mesh_rs.Message.IpPacket.{PacketCrate}
use lora_mesh_rs.Router
use lora_mesh_rs.Router.{Clock}
use lora_mesh_rs.Router.Graph.{GraphCrate}
use lora_mesh_rs.Router.Lease.{leased}
use lora_mesh_rs.Tunnel.{Platform, addr_add, route_add, assignipaddr, routeipaddr}
use lora_mesh_rs.Node.State.{MeshNode, take_ip, handle_ip_assignment}
use lora_mesh_rs.Node.Receive.{on_radio}
use lora_mesh_rs.Node.Relay.{answer, forgets}
use lora_mesh_rs.Node.Journey.{ids, passed, travel, AreFree, travel_assigns}
use lora_mesh_rs.Tunnel.Total.{AlwaysSucceeds}
use lora_mesh_rs.Node.Request.{request_frame, on_radio-request}

module _ {G : Type 0} ⦃gc : GraphCrate G⦄ ⦃os : Platform⦄ where
  -- A node without an address takes one.
  handle_ip_assignment-first :
      (n : MeshNode G) (id : ℕ) (via : Ipv4Addr)
      → AlwaysSucceeds os
      → n.ipaddr ≡ none
      → n.tunnel.tunip ≡ some via
      → (n' : MeshNode G) × (handle_ip_assignment n (leased id) ≡ ok n')
        × (n'.ipaddr ≡ some (leased id))
  unfolding handle_ip_assignment take_ip assignipaddr routeipaddr is_private
  handle_ip_assignment-first n id via up free h =
      let ran = n.tunnel.commands ++ addr_add (leased id) ∷ [] in
      (
        record n {
          ipaddr = some (leased id);
          tunnel = record n.tunnel { commands = ran ++ route_add (leased id) via ∷ [] };
          router = Router.handle_ip_assignment n.router (leased id);
        },
        rw (
          free,
          up n.tunnel.commands (addr_add (leased id)),
          h,
          up ran (route_add (leased id) via),
        ),
        refl,
      )

module _ (P : Type 0) {G : Type 0} ⦃e : Enumn⦄ ⦃gc : GraphCrate G⦄ ⦃pc : PacketCrate P⦄
    ⦃os : Platform⦄ where
  -- A node without an address, whose tunnel has one, asks a gateway over a route that is not empty:
  -- the ids of relays, at most 254, and of the node. The gateway has an address, and none in its
  -- table for the node; no node on the way, nor the gateway or the node, keeps a chunk under the
  -- keys of the two frames; every command succeeds. Then the gateway queues an answer, the answer
  -- crosses the relays, which are otherwise unchanged but for what they kept under its key, and the
  -- node ends with the address that the gateway makes for its id.
  pub request-answered :
      (clock : Clock) (i j frameid : ℕ) (gateway : MeshNode G) (own via : Ipv4Addr) (first : ℕ)
      (relays : List (MeshNode G)) (last : MeshNode G) (rest : List ℕ)
      → AlwaysSucceeds os
      → gateway.opt.isgateway ≡ true
      → gateway.router.isgateway ≡ true
      → gateway.ipaddr ≡ some own
      → HashMap.get (composite_key last.id frameid) gateway.rxchunks ≡ none
      → HashMap.get last.id gateway.router.id2ip ≡ none
      → length (ids relays) < 255
      → ids relays ++ last.id ∷ [] ≡ first ∷ rest
      → AreFree i gateway.id relays
      → HashMap.get (composite_key gateway.id i) last.rxchunks ≡ none
      → last.ipaddr ≡ none
      → last.tunnel.tunip ≡ some via
      → (gateway' last' : MeshNode G) × (bytes : List ℕ) × (on_radio P clock i gateway
            (to_bytes (request_frame frameid last.id (first ∷ rest)))
          ≡ ok gateway')
        × (get_last? gateway'.sent ≡ some bytes)
        × (travel P clock j relays last bytes
            ≡ ok (passed (leased last.id) i gateway.id relays last.id, last'))
        × (last'.ipaddr ≡ some (leased last.id))
  request-answered clock i j frameid gateway own via first relays last rest up g rg a free new short
        way clear own_clear none_yet tun =
      let len : length (first ∷ rest) < 256 =
        omega (arith, ap length way, length-append (ids relays) (last.id ∷ [])) in
      let (gateway', heard, sends, _) =
        on_radio-request P clock i gateway own frameid last.id first rest up g rg a len free new in
      let (last', takes, has) =
        handle_ip_assignment-first (forgets last gateway.id i) last.id via up none_yet tun in
      let bytes = to_bytes (answer (leased last.id) i gateway.id (first ∷ rest)) in
      (
        gateway',
        last',
        bytes,
        heard,
        ap get_last? sends ∙ get_last?-snoc gateway.sent bytes,
        ap
              (λ route.
                travel P clock j relays last
                  (to_bytes (answer (leased last.id) i gateway.id route)))
              (sym way)
            ∙ travel_assigns P clock j relays last last' (leased last.id) i gateway.id short clear
                own_clear takes,
        has,
      )
