-- ===== src/Node/Packets.antt =====
-- `handle_tun_ip`, `handle_radio_ip` and `handle_ip_nexthop` of src/node.rs.
use lora_mesh_rs.Prelude.{ℕ, List, Option, none, some, ltb, ◌==◌, if◌then◌else◌, length}
use lora_mesh_rs.Prelude.Outcome.{Outcome, ok, panic, local_destination, ◌>>=◌}
use lora_mesh_rs.Kinds.{Enumn}
use lora_mesh_rs.Util.{ip_beq}
use lora_mesh_rs.Frame.{Frame, route_shift, chunked}
use lora_mesh_rs.Message.IpPacket
use lora_mesh_rs.Message.IpPacket.{PacketCrate, new_packet}
use lora_mesh_rs.Router.{packet_route}
use lora_mesh_rs.Router.Graph.{GraphCrate}
use lora_mesh_rs.Tunnel.{Platform, send}
use lora_mesh_rs.Node.State.{MeshNode, transmit_all}

module _ {G : Type 0} ⦃e : Enumn⦄ ⦃os : Platform⦄ where
  -- What `handle_ip_nexthop` does with the hop that `route_shift` returned.
  unfoldable pub pass_on : MeshNode G → Frame × Option ℕ → Outcome (MeshNode G)
  unfolding transmit_all
  pass_on n (frame, none) = ok n
  pass_on n (frame, some nexthop) =
      if nexthop == n.id
      then panic local_destination
      else if ltb 0 (length frame.route)
      then (do chunks ← chunked frame n.opt.maxpacketsize; ok (transmit_all n chunks))
      else ok n

  -- `handle_ip_nexthop`; the packet itself is only logged
  unfoldable pub handle_ip_nexthop : MeshNode G → Frame → Outcome (MeshNode G)
  unfolding pass_on
  handle_ip_nexthop n frame = do shifted ← route_shift os.profile frame; pass_on n shifted

module _ {G P : Type 0} ⦃e : Enumn⦄ ⦃gc : GraphCrate G⦄ ⦃pc : PacketCrate P⦄ ⦃os : Platform⦄ where
  -- The packet goes out over the radio, in chunks, along a route.
  unfoldable pub send_along : MeshNode G → ℕ → P → List ℕ → Outcome (MeshNode G)
  unfolding transmit_all
  send_along n frameid packet route = do
    chunks ← chunked (IpPacket.to_frame (new_packet packet) frameid n.id route) n.opt.maxpacketsize
    ok (transmit_all n chunks)

  -- `handle_tun_ip`; `frameid` is the number drawn by `gen_range(1, 244)`
  unfoldable pub handle_tun_ip : MeshNode G → ℕ → P → Outcome (MeshNode G)
  unfolding send_along send
  handle_tun_ip n frameid packet = elim n.ipaddr [
    | none ↦ ok n
    | some ipaddr ↦
        if ip_beq (pc.destination packet) ipaddr
        then (if n.opt.debug then ok n else ok (record n { tunnel = send n.tunnel packet }))
        else (do
          found ← packet_route os.profile n.router packet
          elim found [ none ↦ ok n | some route ↦ send_along n frameid packet route ])
  ]

  unfoldable pub handle_radio_ip : MeshNode G → P → Frame → Outcome (MeshNode G)
  unfolding handle_ip_nexthop send
  handle_radio_ip n packet frame = elim n.ipaddr [
    | none ↦ handle_ip_nexthop n frame
    | some ipaddr ↦
        if ip_beq (pc.destination packet) ipaddr
        then ok (record n { tunnel = send n.tunnel packet })
        else handle_ip_nexthop n frame
  ]
