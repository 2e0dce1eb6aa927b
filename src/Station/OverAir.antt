-- ===== src/Station/OverAir.antt =====
-- An IP packet from the tunnel of one station to the tunnel of another, over stations that pass it
-- on, each of which hears the one before it: through the code of src/node.rs and
-- src/hardware/lostik.rs on all of them.
use lora_mesh_rs.Prelude.{
  ℕ, ◌<◌, ◌≡◌, refl, Bool, false, List, [], ◌∷◌, ◌++◌, some, none, All, length, arith, bytes_eq,
}
use lora_mesh_rs.Prelude.Outcome.{ok}
use lora_mesh_rs.Prelude.HashMap
use lora_mesh_rs.Kinds.{Enumn, msg_to_u8}
use lora_mesh_rs.Util.{IsByte, Ipv4Addr, ip_beq, composite_key}
use lora_mesh_rs.Frame.Bytes.{IsPacket, IsTyped, chunked-IsPacket}
use lora_mesh_rs.Message.IpPacket
use lora_mesh_rs.Message.IpPacket.{PacketCrate, new_packet}
use lora_mesh_rs.Router.{Clock, packet_route}
use lora_mesh_rs.Router.Graph.{GraphCrate}
use lora_mesh_rs.Tunnel.{Platform}
use lora_mesh_rs.Node.State.{MeshNode}
use lora_mesh_rs.Node.Packets.{handle_tun_ip}
use lora_mesh_rs.Node.Packet.{news, AreRelays, handle_tun_ip-news}
use lora_mesh_rs.Node.Carry.{Carries-IsFinal, to_frame-Carries}
use lora_mesh_rs.Radio.{Device}
use lora_mesh_rs.Radio.Mode.{AlwaysAccepts}
use lora_mesh_rs.Radio.Loop.{LoopState, radioloop}
use lora_mesh_rs.Radio.Drain.{good, answers}
use lora_mesh_rs.Radio.Turns.{handed_each, spoken, radioloop_turn}
use lora_mesh_rs.Station.Air.{Ether}
use lora_mesh_rs.Station.Turns.{Stop, IsIdle, hearsay-spoken}
use lora_mesh_rs.Station.Chain.{hop_ids, nodes, IsReady, Reaches, chain_lem}

module _ {P : Type 0} ⦃pc : PacketCrate P⦄ where
  to_frame-IsTyped :
      (p : P) (i s : ℕ) (route : List ℕ)
      → IsByte i
      → IsByte s
      → length route < 256
      → All IsByte route
      → All IsByte (pc.as_ref p)
      → IsTyped (IpPacket.to_frame (new_packet p) i s route)
  unfolding IpPacket.to_frame msg_to_u8
  to_frame-IsTyped p i s route bi bs short br bp = record {
    flag_fits = omega arith;
    id_fits = bi;
    kind_fits = omega arith;
    sender_fits = bs;
    offset_fits = omega arith;
    route_fits = br;
    payload_fits = bp;
  }

module _ (P : Type 0) {G : Type 0} ⦃e : Enumn⦄ ⦃gc : GraphCrate G⦄ ⦃pc : PacketCrate P⦄
    ⦃os : Platform⦄ ⦃dev : Device⦄ where
  -- A station gets a packet from its tunnel; its node has another address than the packet's, and
  -- its router finds a route: from some node, over the ids of the stations on the way, to the last
  -- one. Ids, the id of the message and the packet are bytes. Each station hears the one before it,
  -- and no other, with a device that takes every line, reports what it gets and answers every
  -- command; all are idle. In each round in which a loop transmits, its node hands over one frame,
  -- and the limiter grants the check before the frame, refuses another in the inner loop, and
  -- grants the check behind it, and no line is taken; in each round in which it hears, a line has
  -- come, and nothing is to be transmitted. The first station and those on the way have a positive
  -- chunk size, which is below 256 together with five bytes and the route. The last node has the
  -- packet's address; no node on the way has it, or the id of the hop before it; no node that hears
  -- keeps chunks under the packet's key. Then the first node sends frames, and its radio's loop
  -- returns, in such a round for each, having transmitted just these. The loop of each station on
  -- the way returns: it has taken the frames that the one before it transmitted, its node has heard
  -- them, and it has transmitted what the node sends then. The loop of the last one returns, having
  -- taken the frames that the one before it transmitted; its node, hearing them, writes the packet
  -- to its tunnel, once. Those on the way write nothing to theirs.
  pub packet_over_air :
      (ether : Ether) (up : AlwaysAccepts dev) (allowed : Bool) (clock : Clock) (j i : ℕ) (p : P)
      (first last : Stop G) (stops : List (Stop G)) (own : Ipv4Addr) (hop : ℕ)
      → first.node.ipaddr ≡ some own
      → ip_beq (pc.destination p) own ≡ false
      → packet_route os.profile first.node.router p ≡ ok (some (hop ∷ hop_ids stops last))
      → IsByte i
      → IsByte first.node.id
      → All IsByte (hop ∷ hop_ids stops last)
      → All IsByte (pc.as_ref p)
      → 0 < first.node.opt.maxpacketsize
      → All (IsReady (length (hop ∷ hop_ids stops last))) (first ∷ stops)
      → IsIdle last
      → AreRelays p (composite_key first.node.id i) hop (nodes stops)
      → last.node.ipaddr ≡ some (pc.destination p)
      → HashMap.get (composite_key first.node.id i) last.node.rxchunks ≡ none
      → (n' : MeshNode G) × (s : LoopState) × (handle_tun_ip first.node i p ≡ ok n')
        × (radioloop
              (handed_each (news first.node n'))
              (record first.radio { lines = good ∷ good ∷ answers (news first.node n') [] })
            ≡ ok s)
        × (s.radio.written ≡ first.radio.written ++ spoken [] (news first.node n'))
        × Reaches P ether allowed clock j p
            (spoken [] (news first.node n'))
            (news first.node n')
            stops
            last
  packet_over_air ether up allowed clock j i p first last stops own hop at other found bi bs br bp
        size (ready, others) idle way arrives free =
      let route = hop ∷ hop_ids stops last in
      let f = IpPacket.to_frame (new_packet p) i first.node.id route in
      let m = first.node.opt.maxpacketsize in
      let short : length route < 256 = omega (arith, ready.1) in
      let v = to_frame-Carries p i first.node.id route short in
      let t = to_frame-IsTyped p i first.node.id route bi bs short br bp in
      let (h, final) = Carries-IsFinal p f v in
      let (n', sent, cut) =
        handle_tun_ip-news P first.node i p own route at other found short size in
      let new = news first.node n' in
      let fits : All IsPacket new =
        unfold IpPacket.to_frame in
        chunked-IsPacket f h m new size final.header_is v.routed t ready.1 cut in
      let l = record first.radio { lines = good ∷ good ∷ answers new [] } in
      (
        n',
        _,
        sent,
        radioloop_turn up allowed l [] new [] tt ready.0.nothing_queued refl,
        refl,
        unfold IpPacket.to_frame in
            chain_lem P ether up allowed clock j p f m (length route) hop (spoken [] new) new stops
              last v t size cut fits (hearsay-spoken ether [] new fits) refl (omega arith) way
              others idle arrives free,
      )
