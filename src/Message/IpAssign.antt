-- ===== src/Message/IpAssign.antt =====
-- src/stack/message/ipassign.rs: the gateway's answers to a node that asked for an address.
use lora_mesh_rs.Prelude.{ℕ, ◌%◌, List, Option, none, some, if◌then◌else◌, length}
use lora_mesh_rs.Prelude.Outcome.{Outcome, ok, panic, bad_utf8, out_of_range, ◌>>=◌, expect}
use lora_mesh_rs.Kinds.{Enumn, ip_assign_success, ip_assign_failure, msg_to_u8}
use lora_mesh_rs.Util.{Ipv4Addr, octets, get_range, parse_ipv4}
use lora_mesh_rs.Frame.{Frame, FrameHeader, header}
use lora_mesh_rs.Message.Utf8.{is_utf8}

pub record IpAssignSuccessMessage : Type 0 where
  pub header : Option FrameHeader
  pub ipaddr : Ipv4Addr

pub record IpAssignFailureMessage : Type 0 where
  pub header : Option FrameHeader
  pub reason : List ℕ

-- `IPAssignSuccessMessage::new`
abbrev pub new_success : Ipv4Addr → IpAssignSuccessMessage
new_success ipaddr = record { header = none; ipaddr = ipaddr }

-- `IPAssignFailureMessage::new`
abbrev pub new_failure : List ℕ → IpAssignFailureMessage
new_failure reason = record { header = none; reason = reason }

module _ ⦃e : Enumn⦄ where
  -- `IPAssignSuccessMessage::from_frame`
  unfoldable pub success_from_frame : Frame → Outcome IpAssignSuccessMessage
  unfolding get_range parse_ipv4
  success_from_frame f = do
    h ← header f
    octs ← expect (get_range f.payload 0 (length f.payload)) out_of_range
    addr ← parse_ipv4 octs
    ok (record { header = some h; ipaddr = addr })

  -- `IPAssignFailureMessage::from_frame`
  unfoldable pub failure_from_frame : Frame → Outcome IpAssignFailureMessage
  unfolding is_utf8
  failure_from_frame f = do
    h ← header f
    reason ← if is_utf8 f.payload then ok f.payload else panic bad_utf8
    ok (record { header = some h; reason = reason })

-- `IPAssignSuccessMessage::to_frame`
unfoldable pub success_to_frame : IpAssignSuccessMessage → ℕ → ℕ → List ℕ → Frame
unfolding msg_to_u8
success_to_frame m frameid sender route = record {
  txflag = 0;
  frameid = frameid;
  msgtype = msg_to_u8 ip_assign_success;
  sender = sender;
  routeoffset = length route % 256;
  route = route;
  payload = octets m.ipaddr;
}

-- `IPAssignFailureMessage::to_frame`
unfoldable pub failure_to_frame : IpAssignFailureMessage → ℕ → ℕ → List ℕ → Frame
unfolding msg_to_u8
failure_to_frame m frameid sender route = record {
  txflag = 0;
  frameid = frameid;
  msgtype = msg_to_u8 ip_assign_failure;
  sender = sender;
  routeoffset = length route % 256;
  route = route;
  payload = m.reason;
}
