-- ===== src/Message/IpPacket.antt =====
-- src/stack/message/ippacket.rs: IPv4 packets. The packet type is that of the crate `packet`,
-- which is not part of the repository: an interface.
use lora_mesh_rs.Prelude.{ℕ, ◌%◌, ◌≡◌, List, Option, none, some, length}
use lora_mesh_rs.Prelude.Outcome.{Outcome, ok, invalid_data, ◌>>=◌, ok_or}
use lora_mesh_rs.Kinds.{Enumn, ip_packet, msg_to_u8}
use lora_mesh_rs.Util.{Ipv4Addr}
use lora_mesh_rs.Frame.{Frame, FrameHeader, header}

-- `packet::ip::v4::Packet<Vec<u8>>`: `new` checks a buffer and keeps it; `as_ref` shows it. Every
-- packet of the program was made by `new`, so its buffer passes the check.
pub record PacketCrate (P : Type 0) : Type 0 where
  pub new : List ℕ → Option P
  pub as_ref : P → List ℕ
  pub source : P → Ipv4Addr
  pub destination : P → Ipv4Addr
  pub new-as_ref : (p : P) → new (as_ref p) ≡ some p
  pub as_ref-new : (bytes : List ℕ) (p : P) → new bytes ≡ some p → as_ref p ≡ bytes

pub record IpPacketMessage (P : Type 0) : Type 0 where
  pub header : Option FrameHeader
  pub packet : P

-- `IPPacketMessage::new`
abbrev pub new_packet : {P : Type 0} → P → IpPacketMessage P
new_packet p = record { header = none; packet = p }

module _ {P : Type 0} ⦃e : Enumn⦄ ⦃pc : PacketCrate P⦄ where
  -- `IPPacketMessage::from_frame`
  unfoldable pub from_frame : Frame → Outcome (IpPacketMessage P)
  from_frame f = do
    h ← header f
    p ← ok_or (pc.new f.payload) invalid_data
    ok (record { header = some h; packet = p })

module _ {P : Type 0} ⦃pc : PacketCrate P⦄ where
  -- `IPPacketMessage::to_frame`
  unfoldable pub to_frame : IpPacketMessage P → ℕ → ℕ → List ℕ → Frame
  unfolding msg_to_u8
  to_frame m frameid sender route = record {
    txflag = 0;
    frameid = frameid;
    msgtype = msg_to_u8 ip_packet;
    sender = sender;
    routeoffset = length route % 256;
    route = route;
    payload = pc.as_ref m.packet;
  }
