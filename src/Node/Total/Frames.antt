-- ===== src/Node/Total/Frames.antt =====
-- A frame from the radio: when src/node.rs returns from handling it.
use lora_mesh_rs.Prelude.{ℕ, ◌≡◌, inl, inr, refl, sym, ap, ◌∙◌, List, Option, none, some}
use lora_mesh_rs.Prelude.Outcome.{ok, bind_inv, ok_inj}
use lora_mesh_rs.Prelude.Returns.{Returns, Answers}
use lora_mesh_rs.Kinds.{Enumn, MessageType}
use lora_mesh_rs.Util.{index, parse_bool}
use lora_mesh_rs.Frame.{Frame, FrameHeader, header, from_bytes, msgtype}
use lora_mesh_rs.Frame.Codec.{from_bytes_total}
use lora_mesh_rs.Message.Broadcast
use lora_mesh_rs.Message.Broadcast.{BroadcastMessage}
use lora_mesh_rs.Message.IpPacket.{PacketCrate}
use lora_mesh_rs.Router.{Clock}
use lora_mesh_rs.Router.Graph.{GraphCrate}
use lora_mesh_rs.Tunnel.{Platform}
use lora_mesh_rs.Tunnel.Total.{AlwaysSucceeds}
use lora_mesh_rs.Node.State.{MeshNode}
use lora_mesh_rs.Node.Receive.{RxChunks, reassemble, act, dispatch, on_frame}
use lora_mesh_rs.Node.Reassembly.{HasHeader, reassemble_total}
use lora_mesh_rs.Node.Total.{IsHealthy, IsWelcome, IsAcceptable}
use lora_mesh_rs.Node.Total.Packets.{on_ip_packet-Returns}
use lora_mesh_rs.Node.Total.Assign.{on_assign_success-Returns, on_assign_failure-Returns}
use lora_mesh_rs.Node.Total.Answers.{on_broadcast-Returns}

module _ ⦃e : Enumn⦄ where
  from_frame-header :
      (f : Frame) (b : BroadcastMessage)
      → Broadcast.from_frame f ≡ ok b
      → (h : FrameHeader) × (b.header ≡ some h)
  unfolding Broadcast.from_frame
  from_frame-header f b h =
      let (k, _, d1) = bind_inv (header f) _ h in
      let (flag, _, d2) = bind_inv (index f.payload 0) _ d1 in
      let (_, _, d3) = bind_inv (parse_bool flag) _ d2 in
      let (offset, _, d4) = bind_inv (index f.payload 1) _ d3 in
      let (_, _, d5) = bind_inv (Broadcast.read_ip f.payload offset) _ d4 in
      (k, ap (λ (m : BroadcastMessage). m.header) (sym (ok_inj d5)))

  -- A frame with a header, that completes at most an acceptable frame with the chunks kept.
  abbrev pub IsHeard : ℕ → RxChunks → Frame → Type 0
  IsHeard id rx f =
      HasHeader f
      × ((rx' : RxChunks) (g : Frame) → reassemble rx f ≡ ok (rx', some g) → IsAcceptable id g)

module _ (P : Type 0) {G : Type 0} ⦃e : Enumn⦄ ⦃gc : GraphCrate G⦄ ⦃pc : PacketCrate P⦄
    ⦃os : Platform⦄ (up : AlwaysSucceeds os) where
  dispatch-Returns :
      (clock : Clock) (i : ℕ) (n : MeshNode G) (f : Frame) (a : IsAcceptable n.id f)
      (kind : MessageType)
      → e.msg_n f.msgtype ≡ some kind
      → IsWelcome n.id f kind
      → IsHealthy n
      → Returns IsHealthy (dispatch P clock i n f kind)
  unfolding dispatch
  dispatch-Returns clock i n f a MessageType.ip_packet k (hop, rest, at, other) v =
      on_ip_packet-Returns P n f a.state MessageType.ip_packet hop rest a.state_is k a.routed
        a.short at other v
  dispatch-Returns clock i n f a MessageType.broadcast k (b, read, announces, private, hop, short)
        v =
      let (h, eh) = from_frame-header f b read in
      on_broadcast-Returns up clock i n f b h a.routed read eh announces private hop short v
  dispatch-Returns clock i n f a MessageType.ip_assign_success k (hop, (addr, at, private)) v =
      on_assign_success-Returns up n f a.state MessageType.ip_assign_success addr a.state_is k
        a.routed a.short hop at private v
  dispatch-Returns clock i n f a MessageType.ip_assign_failure k (hop, u) v =
      on_assign_failure-Returns n f a.state MessageType.ip_assign_failure a.state_is k a.routed
        a.short hop u v
  dispatch-Returns clock i n f a _ k w v = v

  act-Returns :
      (clock : Clock) (i : ℕ) (n : MeshNode G) (o : Option Frame)
      → ((f : Frame) → o ≡ some f → IsAcceptable n.id f)
      → IsHealthy n
      → Returns IsHealthy (act P clock i n o)
  unfolding act msgtype
  act-Returns clock i n none a v = v
  act-Returns clock i n (some f) a v =
      let w = a f refl in rw w.kind_is (dispatch-Returns clock i n f w w.kind w.kind_is w.welcome v)

  pub on_frame-Returns :
      (clock : Clock) (i : ℕ) (n : MeshNode G) (f : Frame)
      → IsHeard n.id n.rxchunks f
      → IsHealthy n
      → Returns IsHealthy (on_frame P clock i n f)
  unfolding on_frame
  on_frame-Returns clock i n f (headed, a) v =
      let (rx, o, taken) = reassemble_total n.rxchunks f headed in
      rw taken (
        act-Returns clock i (record n { rxchunks = rx }) o
          (λ g eg. a rx g (taken ∙ ap (λ (q : Option Frame). ok (rx, q)) eg))
          (record { sized = v.sized; tunip = v.tunip; tunip_is = v.tunip_is }))

pub from_bytes-Answers : (bytes : List ℕ) → Answers (from_bytes bytes)
from_bytes-Answers bytes = elim (from_bytes_total bytes) [
  | inl (short, _) ↦ rw short tt
  | inr (f, e, _, _) ↦ rw e tt
]
