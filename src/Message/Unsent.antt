-- ===== src/Message/Unsent.antt =====
-- The messages of src/stack/message/message.rs that the program declares and never makes.
use lora_mesh_rs.Prelude.{ℕ, Option}
use lora_mesh_rs.Frame.{FrameHeader}

pub record RouteFailureMessage : Type 0 where
  pub header : Option FrameHeader
  pub failednodeid : ℕ

pub record TransmitRequestMessage : Type 0 where
  pub header : Option FrameHeader
  pub dest : ℕ

pub record TransmitConfirmMessage : Type 0 where
  pub header : Option FrameHeader
  pub requester : ℕ
