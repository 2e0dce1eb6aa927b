-- ===== src/Message/RoundTrip.antt =====
-- The messages of src/stack/message/ on the way over the radio: `to_frame`, `to_bytes`,
-- `from_bytes` and `from_frame` in turn.
use lora_mesh_rs.Prelude.{
  ℕ, ◌%◌, ◌<◌, ◌≡◌, Bool, true, false, List, ◌∷◌, Option, none, some, arith, length,
}
use lora_mesh_rs.Prelude.Outcome.{ok, ◌>>=◌}
use lora_mesh_rs.Kinds.{
  Enumn, MessageType, final_chunk, broadcast, ip_assign_success, ip_assign_failure, tx_to_u8,
  msg_to_u8,
}
use lora_mesh_rs.Util.{Ipv4Addr, octets}
use lora_mesh_rs.Frame.{Frame, FrameHeader, header, txflag, msgtype, to_bytes, from_bytes}
use lora_mesh_rs.Frame.Codec.{IsRouted, from_bytes-to_bytes}
use lora_mesh_rs.Message.Broadcast
use lora_mesh_rs.Message.Broadcast.{BroadcastMessage, ip_bytes, read_ip}
use lora_mesh_rs.Message.IpAssign.{
  IpAssignSuccessMessage, IpAssignFailureMessage, success_from_frame, success_to_frame,
  failure_from_frame, failure_to_frame,
}
use lora_mesh_rs.Message.Utf8.{is_utf8}

-- The header of a frame that was sent as one chunk.
abbrev pub sent_header : MessageType → ℕ → ℕ → List ℕ → FrameHeader
sent_header kind frameid sender route = record {
  txflag = final_chunk;
  frameid = frameid;
  msgtype = kind;
  sender = sender;
  routeoffset = length route;
  route = route;
}

-- The frame of a message of some kind, as each `to_frame` builds it.
abbrev pub sent : MessageType → ℕ → ℕ → List ℕ → List ℕ → Frame
sent kind frameid sender route payload = record {
  txflag = 0;
  frameid = frameid;
  msgtype = msg_to_u8 kind;
  sender = sender;
  routeoffset = length route % 256;
  route = route;
  payload = payload;
}

sent-IsRouted :
    (kind : MessageType) (i s : ℕ) (route payload : List ℕ)
    → length route < 256
    → IsRouted (sent kind i s route payload)
sent-IsRouted kind i s route payload h = omega arith

module _ ⦃e : Enumn⦄ where
  header-sent :
      (kind : MessageType) (i s : ℕ) (route payload : List ℕ)
      → header (sent kind i s route payload) ≡ ok (sent_header kind i s route)
  unfolding header txflag msgtype
  header-sent kind i s route payload =
      let t : e.tx_n 0 ≡ some final_chunk = unfold tx_to_u8 in e.tx_n_of final_chunk in
      rw (t, e.msg_n_of kind)

  -- A broadcast, received: the flags and the address are those sent, and the offset is that of
  -- an address that was sent.
  abbrev pub received : BroadcastMessage → ℕ → ℕ → List ℕ → BroadcastMessage
  received m i s route = record {
    header = some (sent_header broadcast i s route);
    isgateway = m.isgateway;
    ip_offset = elim m.ipaddr [ none ↦ 0 | some _ ↦ 4 ];
    ipaddr = m.ipaddr;
  }

  pub broadcast_fields :
      (hd : Option FrameHeader) (gateway : Bool) (off : ℕ) (addr : Option Ipv4Addr)
      → (i s : ℕ) (route : List ℕ)
      → let m : BroadcastMessage = record {
        header = hd;
        isgateway = gateway;
        ip_offset = off;
        ipaddr = addr;
      } in
        Broadcast.from_frame (Broadcast.to_frame m i s route) ≡ ok (received m i s route)
  unfolding Broadcast.from_frame Broadcast.to_frame
  broadcast_fields hd true off none i s route =
      rw (header-sent broadcast i s route (1 ∷ ip_bytes none))
  broadcast_fields hd false off none i s route =
      rw (header-sent broadcast i s route (0 ∷ ip_bytes none))
  broadcast_fields hd true off (some a) i s route =
      rw (header-sent broadcast i s route (1 ∷ ip_bytes (some a)))
  broadcast_fields hd false off (some a) i s route =
      rw (header-sent broadcast i s route (0 ∷ ip_bytes (some a)))

  -- For a route shorter than 256, reading the bytes of the frame of a broadcast gives its gateway
  -- flag and its address, the header of the frame, and the offset 4 where an address was sent and
  -- 0 where none was.
  pub broadcast_roundtrip :
      (m : BroadcastMessage) (i s : ℕ) (route : List ℕ)
      → length route < 256
      → (from_bytes (to_bytes (Broadcast.to_frame m i s route)) >>= Broadcast.from_frame)
        ≡ ok (received m i s route)
  broadcast_roundtrip m i s route h =
      rw
        (from_bytes-to_bytes (Broadcast.to_frame m i s route)
          (unfold Broadcast.to_frame in omega arith))
        (broadcast_fields m.header m.isgateway m.ip_offset m.ipaddr i s route)

  pub success_fields :
      (m : IpAssignSuccessMessage) (i s : ℕ) (route : List ℕ)
      → success_from_frame (success_to_frame m i s route)
        ≡ ok (record m { header = some (sent_header ip_assign_success i s route) })
  unfolding success_from_frame success_to_frame
  success_fields m i s route = rw (header-sent ip_assign_success i s route (octets m.ipaddr))

  failure_fields :
      (m : IpAssignFailureMessage) (i s : ℕ) (route : List ℕ)
      → is_utf8 m.reason ≡ true
      → failure_from_frame (failure_to_frame m i s route)
        ≡ ok (record m { header = some (sent_header ip_assign_failure i s route) })
  failure_fields m i s route u =
      unfold failure_from_frame failure_to_frame in
      rw (header-sent ip_assign_failure i s route m.reason, u)

  -- For a route shorter than 256 and a reason that is UTF-8, reading the bytes of the frame of a
  -- failed assignment gives the reason, with the header of the frame.
  failure_roundtrip :
      (m : IpAssignFailureMessage) (i s : ℕ) (route : List ℕ)
      → length route < 256
      → is_utf8 m.reason ≡ true
      → (from_bytes (to_bytes (failure_to_frame m i s route)) >>= failure_from_frame)
        ≡ ok (record m { header = some (sent_header ip_assign_failure i s route) })
  failure_roundtrip m i s route h u =
      rw
        (from_bytes-to_bytes (failure_to_frame m i s route)
          (unfold failure_to_frame in omega arith))
        (failure_fields m i s route u)
