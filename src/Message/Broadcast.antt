-- ===== src/Message/Broadcast.antt =====
-- src/stack/message/broadcast.rs: a node announces itself to the nodes nearby.
use lora_mesh_rs.Prelude.{
  ℕ, ◌%◌, Bool, List, [], ◌∷◌, Option, none, some, ltb, if◌then◌else◌, length,
}
use lora_mesh_rs.Prelude.Outcome.{Outcome, ok, out_of_range, ◌>>=◌, expect}
use lora_mesh_rs.Kinds.{Enumn, broadcast, msg_to_u8}
use lora_mesh_rs.Util.{Ipv4Addr, octets, index, get_range, parse_bool, parse_byte, parse_ipv4}
use lora_mesh_rs.Frame.{Frame, FrameHeader, header}

pub record BroadcastMessage : Type 0 where
  pub header : Option FrameHeader
  pub isgateway : Bool
  pub ip_offset : ℕ
  pub ipaddr : Option Ipv4Addr

-- The address is read where the offset byte is positive; its place is fixed.
unfoldable pub read_ip : List ℕ → ℕ → Outcome (Option Ipv4Addr)
unfolding get_range parse_ipv4
read_ip bytes offset =
    if ltb 0 offset
    then (do
      octs ← expect (get_range bytes 2 6) out_of_range
      addr ← parse_ipv4 octs
      ok (some addr))
    else ok none

module _ ⦃e : Enumn⦄ where
  -- `BroadcastMessage::from_frame`
  unfoldable pub from_frame : Frame → Outcome BroadcastMessage
  unfolding read_ip parse_bool
  from_frame f = do
    h ← header f
    flag ← index f.payload 0
    isgateway ← parse_bool flag
    offset ← index f.payload 1
    addr ← read_ip f.payload offset
    ok (record { header = some h; isgateway = isgateway; ip_offset = offset; ipaddr = addr })

-- The offset byte and the octets.
abbrev pub ip_bytes : Option Ipv4Addr → List ℕ
ip_bytes (some addr) = 4 ∷ octets addr
ip_bytes none = 0 ∷ []

-- `BroadcastMessage::to_frame`
unfoldable pub to_frame : BroadcastMessage → ℕ → ℕ → List ℕ → Frame
unfolding parse_byte msg_to_u8
to_frame m frameid sender route = record {
  txflag = 0;
  frameid = frameid;
  msgtype = msg_to_u8 broadcast;
  sender = sender;
  routeoffset = length route % 256;
  route = route;
  payload = parse_byte m.isgateway ∷ ip_bytes m.ipaddr;
}
