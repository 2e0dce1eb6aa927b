-- ===== src/Node/Carry.antt =====
-- An IP packet that src/node.rs sends over the radio, at the nodes that hear it: those on the way
-- pass it on, the last writes it to its tunnel.
use lora_mesh_rs.Prelude.{
  ℕ, ◌<◌, ◌≡◌, ◌≢◌, ◌⊎◌, inl, inr, refl, sym, ap, ◌∙◌, false, List, [], ◌∷◌, ◌++◌, none, some,
  length, arith, append_assoc, append-nil, bytes_eq, byte_eq,
}
use lora_mesh_rs.Prelude.Outcome.{ok}
use lora_mesh_rs.Prelude.HashMap
use lora_mesh_rs.Kinds.{Enumn, final_chunk, ip_packet, tx_to_u8}
use lora_mesh_rs.Util.{Ipv4Addr, ip_beq, ip_beq_iff}
use lora_mesh_rs.Frame.{Frame, FrameHeader, msgtype, chunked}
use lora_mesh_rs.Frame.Codec.{IsRouted}
use lora_mesh_rs.Frame.Chunking.{chunked_lem}
use lora_mesh_rs.Frame.Route.{shifted}
use lora_mesh_rs.Message.IpPacket
use lora_mesh_rs.Message.IpPacket.{PacketCrate, new_packet}
use lora_mesh_rs.Router.{Clock}
use lora_mesh_rs.Router.Graph.{GraphCrate}
use lora_mesh_rs.Tunnel.{Platform, send}
use lora_mesh_rs.Node.State.{MeshNode, transmit, transmit_all}
use lora_mesh_rs.Node.Packets.{handle_ip_nexthop, handle_radio_ip}
use lora_mesh_rs.Node.Receive.{key_of, act, dispatch, on_ip_packet}
use lora_mesh_rs.Node.Hops.{handle_ip_nexthop-other}
use lora_mesh_rs.Node.Reassembly.{IsFinal}
use lora_mesh_rs.Node.Hearing.{hear_all, hear_whole, header_by}

pub transmit_all_lem :
    {G : Type 0} (n : MeshNode G) (cs : List (List ℕ))
    → transmit_all n cs ≡ record n { sent = n.sent ++ cs }
unfolding transmit_all
transmit_all_lem n [] = λ i. record n { sent = sym (append-nil n.sent) i }
transmit_all_lem n (c ∷ cs) =
    transmit_all_lem (transmit n c) cs
    ∙ (λ i. record n { sent = append_assoc n.sent (c ∷ []) cs i })

module _ {P : Type 0} ⦃e : Enumn⦄ ⦃pc : PacketCrate P⦄ where
  -- The frame of a packet, in one piece.
  pub record Carries (p : P) (f : Frame) : Type 0 where
    pub flag_is : e.tx_n f.txflag ≡ some final_chunk
    pub kind_is : e.msg_n f.msgtype ≡ some ip_packet
    pub routed : IsRouted f
    pub short : length f.route < 256
    pub payload_is : f.payload ≡ pc.as_ref p

  pub Carries-IsFinal : (p : P) (f : Frame) → Carries p f → (h : FrameHeader) × IsFinal f h
  Carries-IsFinal p f v =
      let (h, eh) = header_by f final_chunk ip_packet v.flag_is v.kind_is in
      (h, record { header_is = eh; flag_is = v.flag_is; routed = v.routed; short = v.short })

  pub Carries-shifted :
      (p : P) (f : Frame) (rest : List ℕ)
      → length rest < 256
      → Carries p f
      → Carries p (shifted f rest)
  Carries-shifted p f rest b v = record {
    flag_is = v.flag_is;
    kind_is = v.kind_is;
    routed = refl;
    short = b;
    payload_is = v.payload_is;
  }

  pub to_frame-Carries :
      (p : P) (i s : ℕ) (route : List ℕ)
      → length route < 256
      → Carries p (IpPacket.to_frame (new_packet p) i s route)
  unfolding IpPacket.to_frame
  to_frame-Carries p i s route b = record {
    flag_is = unfold tx_to_u8 in e.tx_n_of final_chunk;
    kind_is = e.msg_n_of ip_packet;
    routed = omega arith;
    short = b;
    payload_is = refl;
  }

  from_frame-Carries :
      (p : P) (f : Frame)
      → Carries p f
      → (h : FrameHeader) × (IpPacket.from_frame f ≡ ok (record { header = some h; packet = p }))
  unfolding IpPacket.from_frame
  from_frame-Carries p f v =
      let (h, eh) = header_by f final_chunk ip_packet v.flag_is v.kind_is in
      (h, rw (eh, v.payload_is, pc.new-as_ref p))

module _ {P G : Type 0} ⦃pc : PacketCrate P⦄ where
  -- The packet is not for this node.
  abbrev pub IsElsewhere : P → MeshNode G → Type 0
  IsElsewhere p n =
      (n.ipaddr ≡ none)
      ⊎ ((own : Ipv4Addr) × (n.ipaddr ≡ some own) × (ip_beq (pc.destination p) own ≡ false))

module _ (P : Type 0) {G : Type 0} ⦃e : Enumn⦄ ⦃gc : GraphCrate G⦄ ⦃pc : PacketCrate P⦄
    ⦃os : Platform⦄ where
  pub act-Carries :
      (clock : Clock) (j : ℕ) (n : MeshNode G) (p : P) (f : Frame)
      → Carries p f
      → act P clock j n (some f) ≡ handle_radio_ip n p f
  unfolding act dispatch on_ip_packet msgtype
  act-Carries clock j n p f v = let (h, eh) = from_frame-Carries p f v in rw (v.kind_is, eh)

  pub handle_radio_ip-here :
      (n : MeshNode G) (p : P) (f : Frame)
      → n.ipaddr ≡ some (pc.destination p)
      → handle_radio_ip n p f ≡ ok (record n { tunnel = send n.tunnel p })
  unfolding handle_radio_ip
  handle_radio_ip-here n p f a = rw (a, (ip_beq_iff (pc.destination p) (pc.destination p)).1 refl)

  pub handle_radio_ip-elsewhere :
      (n : MeshNode G) (p : P) (f : Frame)
      → IsElsewhere p n
      → handle_radio_ip n p f ≡ handle_ip_nexthop n f
  unfolding handle_radio_ip
  handle_radio_ip-elsewhere n p f (inl none_is) = rw none_is
  handle_radio_ip-elsewhere n p f (inr (own, own_is, other)) = rw (own_is, other)

  -- The last node hears all chunks.
  pub hear-here :
      (clock : Clock) (j : ℕ) (n : MeshNode G) (p : P) (f : Frame) (m : ℕ) (cs : List (List ℕ))
      → Carries p f
      → 0 < m
      → chunked f m ≡ ok cs
      → HashMap.get (key_of f) n.rxchunks ≡ none
      → n.ipaddr ≡ some (pc.destination p)
      → (n' : MeshNode G) × (hear_all P clock j n cs ≡ ok n') × (n'.tunnel ≡ send n.tunnel p)
  hear-here clock j n p f m cs v b cut free a =
      let (h, final) = Carries-IsFinal p f v in
      let (rx, _, heard) = hear_whole P clock j n f h ip_packet m cs b final v.kind_is cut free in
      let k = record n { rxchunks = rx } in
      (
        record k { tunnel = send n.tunnel p },
        heard ∙ act-Carries clock j k p f v ∙ handle_radio_ip-here k p f a,
        refl,
      )

  -- A node on the way hears all chunks: it passes the frame on without the first hop.
  pub hear-elsewhere :
      (clock : Clock) (j : ℕ) (n : MeshNode G) (p : P) (f : Frame) (m hop : ℕ) (rest : List ℕ)
      (cs : List (List ℕ))
      → Carries p f
      → 0 < m
      → chunked f m ≡ ok cs
      → HashMap.get (key_of f) n.rxchunks ≡ none
      → IsElsewhere p n
      → f.route ≡ hop ∷ rest
      → hop ≢ n.id
      → rest ≢ []
      → 0 < n.opt.maxpacketsize
      → (n' : MeshNode G) × (ds : List (List ℕ)) × (hear_all P clock j n cs ≡ ok n')
        × (chunked (shifted f rest) n.opt.maxpacketsize ≡ ok ds)
        × (n'.sent ≡ n.sent ++ ds)
        × (n'.tunnel ≡ n.tunnel)
  hear-elsewhere clock j n p f m hop rest cs v b cut free away r other left size =
      let (h, final) = Carries-IsFinal p f v in
      let (rx, _, heard) = hear_whole P clock j n f h ip_packet m cs b final v.kind_is cut free in
      let k = record n { rxchunks = rx } in
      let short : length rest < 256 = omega (arith, v.short, ap length r) in
      let w = Carries-shifted p f rest short v in
      let (g, wf) = Carries-IsFinal p (shifted f rest) w in
      let (_, _, made) =
        chunked_lem (shifted f rest) g n.opt.maxpacketsize size wf.header_is refl short in
      (
        record k { sent = n.sent ++ _ },
        _,
        heard
            ∙ act-Carries clock j k p f v
            ∙ handle_radio_ip-elsewhere k p f away
            ∙ handle_ip_nexthop-other k f hop rest _ v.routed r v.short other left made
            ∙ ap ok (transmit_all_lem k _),
        made,
        refl,
        refl,
      )
