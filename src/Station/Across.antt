-- ===== src/Station/Across.antt =====
-- An IP packet from the tunnel of one station to the tunnel of another in reach, through the code
-- of src/node.rs and src/hardware/lostik.rs on both.
use lora_mesh_rs.Prelude.{
  ℕ, ◌<◌, ◌≡◌, refl, sym, ap, ◌∙◌, Bool, false, List, [], ◌∷◌, ◌++◌, some, none, All, length,
  bytes_eq,
}
use lora_mesh_rs.Prelude.Outcome.{ok, ok_inj}
use lora_mesh_rs.Prelude.HashMap
use lora_mesh_rs.Kinds.{Enumn, ip_packet}
use lora_mesh_rs.Util.{Ipv4Addr, ip_beq, composite_key}
use lora_mesh_rs.Message.IpPacket
use lora_mesh_rs.Message.IpPacket.{PacketCrate, new_packet}
use lora_mesh_rs.Router.{Clock, packet_route}
use lora_mesh_rs.Router.Graph.{GraphCrate}
use lora_mesh_rs.Tunnel.{Platform, send}
use lora_mesh_rs.Node.State.{MeshNode}
use lora_mesh_rs.Node.Packets.{handle_tun_ip}
use lora_mesh_rs.Node.Hearing.{hear_all}
use lora_mesh_rs.Node.Packet.{news, handle_tun_ip-news}
use lora_mesh_rs.Node.Carry.{Carries-IsFinal, to_frame-Carries, act-Carries, handle_radio_ip-here}
use lora_mesh_rs.Radio.{Line, Device, LoStik}
use lora_mesh_rs.Radio.Mode.{AlwaysAccepts}
use lora_mesh_rs.Radio.Loop.{LoopState, radioloop}
use lora_mesh_rs.Radio.Drain.{good, answers, one_each}
use lora_mesh_rs.Radio.Hears.{attentive_each}
use lora_mesh_rs.Frame.Bytes.{IsPacket}
use lora_mesh_rs.Station.Air.{Ether, crosses}

module _ (P : Type 0) {G : Type 0} ⦃e : Enumn⦄ ⦃gc : GraphCrate G⦄ ⦃pc : PacketCrate P⦄
    ⦃os : Platform⦄ ⦃dev : Device⦄ where
  -- Two stations have devices in reach, that take every line. The node of the first has another
  -- address than the packet's, finds a route shorter than 256, and has a positive chunk size. Its
  -- radio has in its queue what the node has sent for the packet, packets of bytes, fewer than 256,
  -- and the device answers every command. The radio of the second has heard nothing and has nothing
  -- to transmit; its node has the packet's address, and keeps no chunk under the packet's key. Then
  -- both radio loops return, in a round for each chunk, whatever the limiter of the second says,
  -- and the second node, hearing what its radio heard, writes the packet to its tunnel, once.
  pub tunnel_to_tunnel :
      (ether : Ether) (up : AlwaysAccepts dev) (allowed : Bool) (a b : LoStik) (rest : List Line)
      (clock : Clock) (j i : ℕ) (p : P) (n n' last : MeshNode G) (own : Ipv4Addr) (route : List ℕ)
      → n.ipaddr ≡ some own
      → ip_beq (pc.destination p) own ≡ false
      → packet_route os.profile n.router p ≡ ok (some route)
      → length route < 256
      → 0 < n.opt.maxpacketsize
      → handle_tun_ip n i p ≡ ok n'
      → a.queue ≡ news n n'
      → All IsPacket a.queue
      → a.lines ≡ good ∷ good ∷ answers a.queue rest
      → b.queue ≡ []
      → b.heard ≡ []
      → last.ipaddr ≡ some (pc.destination p)
      → HashMap.get (composite_key n.id i) last.rxchunks ≡ none
      → (s t : LoopState) × (since : List Line) × (last' : MeshNode G) × (radioloop
            (one_each a.queue)
            a
          ≡ ok s)
        × (s.radio.written ≡ a.written ++ since)
        × (radioloop
              (attentive_each allowed a.queue)
              (record b { lines = good ∷ good ∷ ether.hearsay since })
            ≡ ok t)
        × (hear_all P clock j last t.radio.heard ≡ ok last')
        × (last'.tunnel ≡ send last.tunnel p)
  unfolding IpPacket.to_frame
  tunnel_to_tunnel ether up allowed a b rest clock j i p n n' last own route at other found short
        size sends queued fit answered idle deaf here free =
      let f = IpPacket.to_frame (new_packet p) i n.id route in
      let v = to_frame-Carries p i n.id route short in
      let (h, final) = Carries-IsFinal p f v in
      let (k, sent, cut) = handle_tun_ip-news P n i p own route at other found short size in
      let same : news n k ≡ a.queue =
        ap (λ (m : MeshNode G). news n m) (ok_inj (sym sent ∙ sends)) ∙ sym queued in
      let (s, t, since, rx, spoke, written, heard, whole, _) =
        crosses P ether up allowed a b rest clock j last f h ip_packet n.opt.maxpacketsize size
          final v.kind_is (cut ∙ ap ok same) fit answered idle deaf free in
      let m = record last { rxchunks = rx } in
      (
        s,
        t,
        since,
        record m { tunnel = send last.tunnel p },
        spoke,
        written,
        heard,
        whole ∙ act-Carries P clock j m p f v ∙ handle_radio_ip-here P m p f here,
        refl,
      )
