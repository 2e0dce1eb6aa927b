-- ===== src/Message.antt =====
-- src/stack/message/: the messages that frames carry. Each has a conversion from and to a frame,
-- the trait `ToFromFrame` of src/stack/frame.rs. `&mut Frame` arguments are not changed.
pub mod Utf8
pub mod Broadcast
pub mod IpAssign
pub mod IpPacket
pub mod Unsent
pub mod RoundTrip
