-- ===== src/Node/Packet.antt =====
-- An IP packet from the tunnel of one node of src/node.rs to the tunnel of another, over nodes each
-- of which hears what the one before it sent.
use lora_mesh_rs.Prelude.{
  ℕ, ◌<◌, ◌≡◌, ◌≢◌, refl, sym, ap, ◌∙◌, List, [], ◌∷◌, ◌++◌, map, some, length, drop, arith,
  drop-length-append, length-append, bytes_eq, false, none,
}
use lora_mesh_rs.Prelude.Outcome.{Outcome, ok, ◌>>=◌}
use lora_mesh_rs.Prelude.HashMap
use lora_mesh_rs.Kinds.{Enumn}
use lora_mesh_rs.Util.{Ipv4Addr, ip_beq, composite_key}
use lora_mesh_rs.Frame.{Frame, to_bytes, chunked}
use lora_mesh_rs.Frame.Route.{shifted}
use lora_mesh_rs.Frame.Chunking.{pieces, chunked_lem}
use lora_mesh_rs.Message.IpPacket
use lora_mesh_rs.Message.IpPacket.{PacketCrate, new_packet}
use lora_mesh_rs.Router.{Clock, packet_route}
use lora_mesh_rs.Router.Graph.{GraphCrate}
use lora_mesh_rs.Tunnel.{Platform, send}
use lora_mesh_rs.Node.State.{MeshNode, transmit_all}
use lora_mesh_rs.Node.Packets.{handle_tun_ip, send_along}
use lora_mesh_rs.Node.Receive.{key_of}
use lora_mesh_rs.Node.Hearing.{hear_all}
use lora_mesh_rs.Node.Journey.{ids}
use lora_mesh_rs.Node.Carry.{
  Carries, Carries-IsFinal, Carries-shifted, to_frame-Carries, IsElsewhere, hear-here,
  hear-elsewhere, transmit_all_lem,
}

-- What a node has sent since it was as before.
abbrev pub news : {G : Type 0} → MeshNode G → MeshNode G → List (List ℕ)
news before n = drop (length before.sent) n.sent

-- The nodes on the way: none has the address of the packet, the id of the one before it, or a chunk
-- under the packet's key, and each cuts its frames into chunks of a positive size.
pub data AreRelays {P G : Type 0} ⦃pc : PacketCrate P⦄ (p : P) (key : List ℕ)
    : ℕ → List (MeshNode G) → Type 0 where
  arrived : {before : ℕ} → AreRelays p key before []
  relay :
      {before : ℕ} {n : MeshNode G} {relays : List (MeshNode G)}
      → before ≢ n.id
      → IsElsewhere p n
      → 0 < n.opt.maxpacketsize
      → HashMap.get key n.rxchunks ≡ none
      → AreRelays p key n.id relays
      → AreRelays p key before (n ∷ relays)

pub onward : (hops : List ℕ) (last : ℕ) → hops ++ last ∷ [] ≢ []
onward [] last e = cc
onward (x ∷ hops) last e = cc

module _ (P : Type 0) {G : Type 0} ⦃e : Enumn⦄ ⦃gc : GraphCrate G⦄ ⦃pc : PacketCrate P⦄
    ⦃os : Platform⦄ where
  -- Each node hears all that the node before it sent; the first hears `cs`.
  unfoldable pub carry :
      Clock
      → ℕ
      → List (List ℕ)
      → List (MeshNode G)
      → MeshNode G
      → Outcome (List (MeshNode G) × MeshNode G)
  unfolding hear_all
  carry clock j cs [] last = do last' ← hear_all P clock j last cs; ok ([], last')
  carry clock j cs (n ∷ relays) last = do
    n' ← hear_all P clock j n cs
    (relays', last') ← carry clock j (news n n') relays last
    ok (n' ∷ relays', last')

  -- The packet is written to the last node's tunnel, and to no other's.
  abbrev pub Delivers :
      P → List (MeshNode G) → MeshNode G → Outcome (List (MeshNode G) × MeshNode G) → Type 0
  Delivers p relays last m =
      (relays' : List (MeshNode G)) × (last' : MeshNode G) × (m ≡ ok (relays', last'))
      × (last'.tunnel ≡ send last.tunnel p)
      × (map (λ n. n.tunnel) relays' ≡ map (λ n. n.tunnel) relays)

  carry-first :
      (clock : Clock) (j : ℕ) (cs : List (List ℕ)) (n n' last : MeshNode G)
      (relays : List (MeshNode G)) (p : P)
      → hear_all P clock j n cs ≡ ok n'
      → n'.tunnel ≡ n.tunnel
      → Delivers p relays last (carry clock j (news n n') relays last)
      → Delivers p (n ∷ relays) last (carry clock j cs (n ∷ relays) last)
  unfolding carry
  carry-first clock j cs n n' last relays p heard quiet (relays', last', later, told, others) =
      (n' ∷ relays', last', rw (heard, later), told, λ i. quiet i ∷ others i)

  carry_lem :
      (clock : Clock) (j : ℕ) (p : P) (f : Frame) (m before : ℕ) (cs : List (List ℕ))
      (relays : List (MeshNode G)) (last : MeshNode G)
      → Carries p f
      → 0 < m
      → chunked f m ≡ ok cs
      → f.route ≡ before ∷ (ids relays ++ last.id ∷ [])
      → AreRelays p (key_of f) before relays
      → last.ipaddr ≡ some (pc.destination p)
      → HashMap.get (key_of f) last.rxchunks ≡ none
      → Delivers p relays last (carry clock j cs relays last)
  carry_lem clock j p f m before cs [] last v b cut r way a free =
      let (last', heard, told) = hear-here P clock j last p f m cs v b cut free a in
      ([], last', unfold carry in rw heard, told, refl)
  carry_lem clock j p f m before cs (n ∷ relays) last v b cut r
        (relay other away size none_kept way) a free =
      let rest = ids (n ∷ relays) ++ last.id ∷ [] in
      let short : length rest < 256 = omega (arith, v.short, ap length r) in
      let (n', ds, heard, made, sent, quiet) =
        hear-elsewhere P clock j n p f m before rest cs v b cut none_kept away r other
          (onward (ids (n ∷ relays)) last.id) size in
      let fresh : news n n' ≡ ds = ap (drop (length n.sent)) sent ∙ drop-length-append n.sent ds in
      carry-first clock j cs n n' last relays p heard quiet (
        carry_lem clock j p (shifted f rest) n.opt.maxpacketsize n.id (news n n') relays last
          (Carries-shifted p f rest short v) size (made ∙ ap ok (sym fresh)) refl way a free)

  handle_tun_ip-away :
      (n : MeshNode G) (i : ℕ) (p : P) (own : Ipv4Addr) (route : List ℕ) (cs : List (List ℕ))
      → n.ipaddr ≡ some own
      → ip_beq (pc.destination p) own ≡ false
      → packet_route os.profile n.router p ≡ ok (some route)
      → chunked (IpPacket.to_frame (new_packet p) i n.id route) n.opt.maxpacketsize ≡ ok cs
      → handle_tun_ip n i p ≡ ok (transmit_all n cs)
  unfolding handle_tun_ip send_along
  handle_tun_ip-away n i p own route cs a other r cut = rw (a, other, r, cut)

  -- Such a packet is sent: the frames are the chunks of its frame.
  pub handle_tun_ip-news :
      (n : MeshNode G) (i : ℕ) (p : P) (own : Ipv4Addr) (route : List ℕ)
      → n.ipaddr ≡ some own
      → ip_beq (pc.destination p) own ≡ false
      → packet_route os.profile n.router p ≡ ok (some route)
      → length route < 256
      → 0 < n.opt.maxpacketsize
      → (n' : MeshNode G) × (handle_tun_ip n i p ≡ ok n')
        × (chunked (IpPacket.to_frame (new_packet p) i n.id route) n.opt.maxpacketsize
            ≡ ok (news n n'))
  handle_tun_ip-news n i p own route a other r short size =
      let f = IpPacket.to_frame (new_packet p) i n.id route in
      let v = to_frame-Carries p i n.id route short in
      let (h, final) = Carries-IsFinal p f v in
      let (ps, _, cut) =
        chunked_lem f h n.opt.maxpacketsize size final.header_is v.routed v.short in
      let cs = map to_bytes (pieces f ps) in
      let fresh : news n (transmit_all n cs) ≡ cs =
        ap (λ (k : MeshNode G). drop (length n.sent) k.sent) (transmit_all_lem n cs)
        ∙ drop-length-append n.sent cs in
      (
        transmit_all n cs,
        handle_tun_ip-away n i p own route cs a other r cut,
        cut ∙ ap ok (sym fresh),
      )

  -- A packet from the tunnel of a node with another address than the packet's, whose router finds a
  -- route: from some node, over the ids of relays, at most 253, to a last node. The last node has
  -- the packet's address. No relay has it, or the id of the hop before it; no node keeps chunks
  -- under the packet's key; chunk sizes are positive. Then the node sends frames, each relay,
  -- hearing all that the one before it sent, sends on frames, and the last node writes the packet
  -- to its tunnel, once; the relays write nothing to theirs.
  pub packet_delivered :
      (clock : Clock) (j i : ℕ) (p : P) (n last : MeshNode G) (relays : List (MeshNode G))
      (own : Ipv4Addr) (first : ℕ)
      → n.ipaddr ≡ some own
      → ip_beq (pc.destination p) own ≡ false
      → packet_route os.profile n.router p ≡ ok (some (first ∷ (ids relays ++ last.id ∷ [])))
      → length (ids relays) < 254
      → 0 < n.opt.maxpacketsize
      → AreRelays p (composite_key n.id i) first relays
      → last.ipaddr ≡ some (pc.destination p)
      → HashMap.get (composite_key n.id i) last.rxchunks ≡ none
      → (n' : MeshNode G) × (handle_tun_ip n i p ≡ ok n')
        × Delivers p relays last (carry clock j (news n n') relays last)
  packet_delivered clock j i p n last relays own first a other r short size way arrives free =
      let route = first ∷ (ids relays ++ last.id ∷ []) in
      let f = IpPacket.to_frame (new_packet p) i n.id route in
      let few : length route < 256 = omega (arith, length-append (ids relays) (last.id ∷ [])) in
      let (n', sent, cut) = handle_tun_ip-news n i p own route a other r few size in
      (
        n',
        sent,
        unfold IpPacket.to_frame in
            carry_lem clock j p f n.opt.maxpacketsize first (news n n') relays last
              (to_frame-Carries p i n.id route few) size cut refl way arrives free,
      )
