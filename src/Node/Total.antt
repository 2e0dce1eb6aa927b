-- ===== src/Node/Total.antt =====
-- What src/node.rs needs of a node and of a message to return from the handling of the message.
pub mod Packets
pub mod Assign
pub mod Answers
pub mod Frames
pub mod Rounds
use lora_mesh_rs.Prelude.{ℕ, ◌<◌, ◌≡◌, ◌≢◌, true, List, ◌∷◌, Option, some, length}
use lora_mesh_rs.Prelude.Outcome.{ok}
use lora_mesh_rs.Kinds.{Enumn, TransmissionState, MessageType}
use lora_mesh_rs.Util.{Ipv4Addr, octets, is_private}
use lora_mesh_rs.Frame.{Frame}
use lora_mesh_rs.Frame.Codec.{IsRouted}
use lora_mesh_rs.Message.Broadcast
use lora_mesh_rs.Message.Broadcast.{BroadcastMessage}
use lora_mesh_rs.Message.Utf8.{is_utf8}
use lora_mesh_rs.Router.Total.{Announces}
use lora_mesh_rs.Node.State.{MeshNode}

-- Chunks have a positive size, and the tunnel has an address.
pub record IsHealthy {G : Type 0} (n : MeshNode G) : Type 0 where
  pub sized : 0 < n.opt.maxpacketsize
  pub tunip : Ipv4Addr
  pub tunip_is : n.tunnel.tunip ≡ some tunip

-- There is a next hop.
abbrev pub HasHop : List ℕ → Type 0
HasHop route = (hop : ℕ) × (rest : List ℕ) × (route ≡ hop ∷ rest)

abbrev pub IsPrivate : Option Ipv4Addr → Type 0
IsPrivate o = (addr : Ipv4Addr) → o ≡ some addr → is_private addr ≡ true

module _ ⦃e : Enumn⦄ where
  -- What a message must have, by its type, at a node with this id.
  abbrev pub IsWelcome : ℕ → Frame → MessageType → Type 0
  IsWelcome id f MessageType.ip_packet =
      (hop : ℕ) × (rest : List ℕ) × (f.route ≡ hop ∷ rest) × (hop ≢ id)
  IsWelcome id f MessageType.broadcast =
      (b : BroadcastMessage) × (Broadcast.from_frame f ≡ ok b)
      × Announces b
      × IsPrivate b.ipaddr
      × HasHop f.route
      × (length f.route < 255)
  IsWelcome id f MessageType.ip_assign_success =
      HasHop f.route × ((addr : Ipv4Addr) × (f.payload ≡ octets addr) × (is_private addr ≡ true))
  IsWelcome id f MessageType.ip_assign_failure = HasHop f.route × (is_utf8 f.payload ≡ true)
  IsWelcome id f _ = Unit

  -- A complete frame that can be acted on.
  pub record IsAcceptable (id : ℕ) (f : Frame) : Type 0 where
    pub state : TransmissionState
    pub kind : MessageType
    pub state_is : e.tx_n f.txflag ≡ some state
    pub kind_is : e.msg_n f.msgtype ≡ some kind
    pub routed : IsRouted f
    pub short : length f.route < 256
    pub welcome : IsWelcome id f kind
