-- ===== src/Node/Delivery.antt =====
-- src/node.rs on a frame that comes in one piece.
use lora_mesh_rs.Prelude.{ℕ, ◌≡◌, none, some, byte_eq, bytes_eq}
use lora_mesh_rs.Prelude.Outcome.{ok}
use lora_mesh_rs.Prelude.HashMap
use lora_mesh_rs.Kinds.{Enumn, MessageType, final_chunk, has_more_chunks}
use lora_mesh_rs.Frame.{Frame, to_bytes, txflag, msgtype}
use lora_mesh_rs.Frame.Codec.{IsRouted, from_bytes-to_bytes}
use lora_mesh_rs.Message.IpPacket.{PacketCrate}
use lora_mesh_rs.Router.{Clock}
use lora_mesh_rs.Router.Graph.{GraphCrate}
use lora_mesh_rs.Tunnel.{Platform}
use lora_mesh_rs.Node.State.{MeshNode}
use lora_mesh_rs.Node.Receive.{
  RxChunks, key_of, finish_chunks, settle, reassemble, dispatch, act, on_frame, on_radio,
}

module _ ⦃e : Enumn⦄ where
  -- A last chunk whose key holds no other is a message of its own.
  pub reassemble-alone :
      (rx : RxChunks) (f : Frame)
      → txflag f ≡ ok final_chunk
      → HashMap.get (key_of f) rx ≡ none
      → reassemble rx f ≡ ok (HashMap.remove (key_of f) rx, some f)
  unfolding reassemble settle finish_chunks has_more_chunks
  reassemble-alone rx f t free = rw (t, free)

module _ {G : Type 0} where
  -- The node without what it kept under a frame's key.
  abbrev pub cleared : MeshNode G → Frame → MeshNode G
  cleared n f = record n { rxchunks = HashMap.remove (key_of f) n.rxchunks }

module _ (P : Type 0) {G : Type 0} ⦃e : Enumn⦄ ⦃gc : GraphCrate G⦄ ⦃pc : PacketCrate P⦄
    ⦃os : Platform⦄ where
  -- The bytes of a frame with a right length byte, which says that it is the last of its message
  -- and has a known message type, at a node that keeps no chunk under its key, go as the frame
  -- itself to the handler of that message type.
  pub on_radio-dispatch :
      (clock : Clock) (i : ℕ) (n : MeshNode G) (f : Frame) (kind : MessageType)
      → IsRouted f
      → txflag f ≡ ok final_chunk
      → msgtype f ≡ ok kind
      → HashMap.get (key_of f) n.rxchunks ≡ none
      → on_radio P clock i n (to_bytes f) ≡ dispatch P clock i (cleared n f) f kind
  unfolding on_radio on_frame act
  on_radio-dispatch clock i n f kind r t m free =
      rw (from_bytes-to_bytes f r, reassemble-alone n.rxchunks f t free, m)
