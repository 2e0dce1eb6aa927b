-- ===== src/Node/Total/Packets.antt =====
-- IP packets from the radio: when their handler of src/node.rs returns.
use lora_mesh_rs.Prelude.{
  ℕ, ◌<◌, ◌≡◌, ◌≢◌, refl, sym, ap, ◌∙◌, subst, List, [], ◌∷◌, Option, none, some, length, arith,
}
use lora_mesh_rs.Prelude.Outcome.{ok, ◌>>=◌, ok_or, invalid_data}
use lora_mesh_rs.Prelude.Returns.{
  Returns, Answers, Returns-ok, Returns-attempt, Returns-option, Returns-if,
}
use lora_mesh_rs.Kinds.{Enumn, TransmissionState, MessageType}
use lora_mesh_rs.Util.{ip_beq}
use lora_mesh_rs.Frame.{Frame, FrameHeader, header}
use lora_mesh_rs.Frame.Codec.{IsRouted}
use lora_mesh_rs.Frame.Route.{shifted}
use lora_mesh_rs.Frame.Chunking.{chunked_lem}
use lora_mesh_rs.Message.IpPacket
use lora_mesh_rs.Message.IpPacket.{PacketCrate}
use lora_mesh_rs.Router.Graph.{GraphCrate}
use lora_mesh_rs.Tunnel.{Platform, NetworkTunnel, send}
use lora_mesh_rs.Node.State.{MeshNode, transmit, transmit_all}
use lora_mesh_rs.Node.Packets.{handle_ip_nexthop, handle_radio_ip}
use lora_mesh_rs.Node.Receive.{on_ip_packet}
use lora_mesh_rs.Node.Hops.{handle_ip_nexthop-other, handle_ip_nexthop-last}
use lora_mesh_rs.Node.Hearing.{header_by}
use lora_mesh_rs.Node.Carry.{transmit_all_lem}
use lora_mesh_rs.Node.Total.{IsHealthy}

module _ {G : Type 0} where
  pub IsHealthy-transmit :
      (n : MeshNode G) (bytes : List ℕ) → IsHealthy n → IsHealthy (transmit n bytes)
  IsHealthy-transmit n bytes v = record { sized = v.sized; tunip = v.tunip; tunip_is = v.tunip_is }

  pub IsHealthy-transmit_all :
      (n : MeshNode G) (cs : List (List ℕ)) → IsHealthy n → IsHealthy (transmit_all n cs)
  IsHealthy-transmit_all n cs v =
      subst IsHealthy (sym (transmit_all_lem n cs))
        (record { sized = v.sized; tunip = v.tunip; tunip_is = v.tunip_is })

  pub IsHealthy-tunnel :
      (n : MeshNode G) (t : NetworkTunnel)
      → t.tunip ≡ n.tunnel.tunip
      → IsHealthy n
      → IsHealthy (record n { tunnel = t })
  IsHealthy-tunnel n t h v = record { sized = v.sized; tunip = v.tunip; tunip_is = h ∙ v.tunip_is }

cons_left : (x : ℕ) (xs : List ℕ) → x ∷ xs ≢ []
cons_left x xs h = cc

module _ {G : Type 0} ⦃e : Enumn⦄ ⦃os : Platform⦄ where
  handle_ip_nexthop-Returns :
      (n : MeshNode G) (f : Frame) (state : TransmissionState) (kind : MessageType) (hop : ℕ)
      (rest : List ℕ)
      → e.tx_n f.txflag ≡ some state
      → e.msg_n f.msgtype ≡ some kind
      → IsRouted f
      → length f.route < 256
      → f.route ≡ hop ∷ rest
      → hop ≢ n.id
      → IsHealthy n
      → Returns IsHealthy (handle_ip_nexthop n f)
  handle_ip_nexthop-Returns n f state kind hop [] t k r short at other v =
      Returns-ok IsHealthy (handle_ip_nexthop n f) n (handle_ip_nexthop-last n f hop r at other) v
  handle_ip_nexthop-Returns n f state kind hop (x ∷ rest) t k r short at other v =
      let (h, headed) = header_by (shifted f (x ∷ rest)) state kind t k in
      let less : length (x ∷ rest) < 256 = omega (arith, short, ap length at) in
      let (_, _, cut) =
        chunked_lem (shifted f (x ∷ rest)) h n.opt.maxpacketsize v.sized headed refl less in
      Returns-ok IsHealthy (handle_ip_nexthop n f) _
        (handle_ip_nexthop-other n f hop (x ∷ rest) _ r at short other (cons_left x rest) cut)
        (IsHealthy-transmit_all n _ v)

Answers-ok_or :
    {A B : Type 0} (o : Option A) (k : A → B) → Answers (ok_or o invalid_data >>= λ p. ok (k p))
Answers-ok_or none k = tt
Answers-ok_or (some a) k = tt

module _ (P : Type 0) ⦃e : Enumn⦄ ⦃pc : PacketCrate P⦄ where
  from_frame-Answers :
      (f : Frame) (h : FrameHeader) → header f ≡ ok h → Answers (IpPacket.from_frame {P = P} f)
  unfolding IpPacket.from_frame
  from_frame-Answers f h eh = rw eh (Answers-ok_or (pc.new f.payload) _)

module _ {P G : Type 0} ⦃e : Enumn⦄ ⦃gc : GraphCrate G⦄ ⦃pc : PacketCrate P⦄ ⦃os : Platform⦄ where
  handle_radio_ip-Returns :
      (n : MeshNode G) (p : P) (f : Frame)
      → Returns IsHealthy (handle_ip_nexthop n f)
      → IsHealthy n
      → Returns IsHealthy (handle_radio_ip n p f)
  unfolding handle_radio_ip send
  handle_radio_ip-Returns n p f onward v =
      Returns-option IsHealthy n.ipaddr (handle_ip_nexthop n f) _ (λ _. onward)
        (λ own _.
          Returns-if IsHealthy (ip_beq (pc.destination p) own) _ _
            (λ _. IsHealthy-tunnel n (send n.tunnel p) refl v) (λ _. onward))

module _ (P : Type 0) {G : Type 0} ⦃e : Enumn⦄ ⦃gc : GraphCrate G⦄ ⦃pc : PacketCrate P⦄
    ⦃os : Platform⦄ where
  pub on_ip_packet-Returns :
      (n : MeshNode G) (f : Frame) (state : TransmissionState) (kind : MessageType) (hop : ℕ)
      (rest : List ℕ)
      → e.tx_n f.txflag ≡ some state
      → e.msg_n f.msgtype ≡ some kind
      → IsRouted f
      → length f.route < 256
      → f.route ≡ hop ∷ rest
      → hop ≢ n.id
      → IsHealthy n
      → Returns IsHealthy (on_ip_packet P n f)
  unfolding on_ip_packet
  on_ip_packet-Returns n f state kind hop rest t k r short at other v =
      let (h, headed) = header_by f state kind t k in
      let onward = handle_ip_nexthop-Returns n f state kind hop rest t k r short at other v in
      Returns-attempt IsHealthy (IpPacket.from_frame {P = P} f) _ _
        (from_frame-Answers P f h headed) (λ _. v)
        (λ m _. handle_radio_ip-Returns n m.packet f onward v)
