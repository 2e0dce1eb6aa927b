-- ===== src/Node/Overheard.antt =====
-- A relay of src/node.rs that hears from a bystander the packet which it is itself to pass on.
use lora_mesh_rs.Prelude.{
  ℕ, ◌<◌, ◌≡◌, ◌≢◌, refl, ap, ◌∙◌, List, [], ◌∷◌, some, none, length, drop, arith,
  drop-length-append, bytes_eq, false,
}
use lora_mesh_rs.Prelude.Outcome.{ok, panic, local_destination}
use lora_mesh_rs.Prelude.HashMap
use lora_mesh_rs.Kinds.{Enumn, ip_packet}
use lora_mesh_rs.Util.{Ipv4Addr, ip_beq, composite_key}
use lora_mesh_rs.Frame.{Frame, chunked}
use lora_mesh_rs.Frame.Route.{shifted}
use lora_mesh_rs.Message.IpPacket
use lora_mesh_rs.Message.IpPacket.{PacketCrate, new_packet}
use lora_mesh_rs.Router.{Clock, packet_route}
use lora_mesh_rs.Router.Graph.{GraphCrate}
use lora_mesh_rs.Tunnel.{Platform}
use lora_mesh_rs.Node.State.{MeshNode}
use lora_mesh_rs.Node.Packets.{handle_tun_ip}
use lora_mesh_rs.Node.Receive.{key_of}
use lora_mesh_rs.Node.Hearing.{hear_all, hear_whole}
use lora_mesh_rs.Node.Hops.{handle_ip_nexthop-own}
use lora_mesh_rs.Node.Packet.{news, handle_tun_ip-news}
use lora_mesh_rs.Node.Carry.{
  Carries, Carries-IsFinal, Carries-shifted, to_frame-Carries, IsElsewhere, act-Carries,
  handle_radio_ip-elsewhere, hear-elsewhere,
}

two_left : (x : ℕ) (rest : List ℕ) → x ∷ rest ≢ []
two_left x rest e = cc

module _ (P : Type 0) {G : Type 0} ⦃e : Enumn⦄ ⦃gc : GraphCrate G⦄ ⦃pc : PacketCrate P⦄
    ⦃os : Platform⦄ where
  -- A node whose own id is the next hop, and that has another address, panics at the last chunk.
  hear-own :
      (clock : Clock) (j : ℕ) (n : MeshNode G) (p : P) (f : Frame) (m : ℕ) (rest : List ℕ)
      (cs : List (List ℕ))
      → Carries p f
      → 0 < m
      → chunked f m ≡ ok cs
      → HashMap.get (key_of f) n.rxchunks ≡ none
      → IsElsewhere p n
      → f.route ≡ n.id ∷ rest
      → hear_all P clock j n cs ≡ panic local_destination
  hear-own clock j n p f m rest cs v b cut free away r =
      let (h, final) = Carries-IsFinal p f v in
      let (rx, _, heard) = hear_whole P clock j n f h ip_packet m cs b final v.kind_is cut free in
      let k = record n { rxchunks = rx } in
      heard
      ∙ act-Carries P clock j k p f v
      ∙ handle_radio_ip-elsewhere P k p f away
      ∙ handle_ip_nexthop-own k f rest v.routed r v.short

  -- A packet from the tunnel of a node with another address than the packet's, whose router finds a
  -- route shorter than 256 over a relay. Another node, which is not the head of the route, hears
  -- what the node sends, and the relay hears what this bystander sends then. Neither has the
  -- packet's address or keeps chunks under its key; the chunk sizes of node and bystander are
  -- positive. Then the node sends frames, the bystander sends frames, and those end the relay in a
  -- panic.
  pub overheard_panics :
      (clock : Clock) (j i : ℕ) (p : P) (n bystander relay : MeshNode G) (own : Ipv4Addr)
      (first : ℕ) (rest : List ℕ)
      → n.ipaddr ≡ some own
      → ip_beq (pc.destination p) own ≡ false
      → packet_route os.profile n.router p ≡ ok (some (first ∷ relay.id ∷ rest))
      → length (first ∷ relay.id ∷ rest) < 256
      → 0 < n.opt.maxpacketsize
      → 0 < bystander.opt.maxpacketsize
      → first ≢ bystander.id
      → IsElsewhere p bystander
      → IsElsewhere p relay
      → HashMap.get (composite_key n.id i) bystander.rxchunks ≡ none
      → HashMap.get (composite_key n.id i) relay.rxchunks ≡ none
      → (n' b' : MeshNode G) × (handle_tun_ip n i p ≡ ok n')
        × (hear_all P clock j bystander (news n n') ≡ ok b')
        × (hear_all P clock j relay (news bystander b') ≡ panic local_destination)
  unfolding IpPacket.to_frame
  overheard_panics clock j i p n bystander relay own first rest a other r short size again apart
        away astray free unheard =
      let route = first ∷ relay.id ∷ rest in
      let f = IpPacket.to_frame (new_packet p) i n.id route in
      let v = to_frame-Carries p i n.id route short in
      let (n', sends, cut) = handle_tun_ip-news P n i p own route a other r short size in
      let (b', ds, heard, passed, sent, _) =
        hear-elsewhere P clock j bystander p f n.opt.maxpacketsize first (relay.id ∷ rest)
          (news n n') v size cut free away refl apart (two_left relay.id rest) again in
      let fresh : news bystander b' ≡ ds =
        ap (drop (length bystander.sent)) sent ∙ drop-length-append bystander.sent ds in
      (
        n',
        b',
        sends,
        heard,
        ap (hear_all P clock j relay) fresh
            ∙ hear-own clock j relay p (shifted f (relay.id ∷ rest)) bystander.opt.maxpacketsize
                rest ds (Carries-shifted p f (relay.id ∷ rest) (omega (arith, short)) v) again
                passed unheard astray refl,
      )
