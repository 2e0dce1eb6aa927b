-- ===== src/Node/Evolves/Main.antt =====
-- The rounds of the main loop of src/node.rs and what they keep.
use lora_mesh_rs.Prelude.{
  ℕ, refl, Bool, true, false, List, [], ◌∷◌, none, arith, All, if◌then◌else◌, All-drop,
}
use lora_mesh_rs.Prelude.Post.{Post, Post-bind, Post-elim}
use lora_mesh_rs.Kinds.{Enumn}
use lora_mesh_rs.Util.{IsByte}
use lora_mesh_rs.Frame.{to_bytes}
use lora_mesh_rs.Message.Broadcast
use lora_mesh_rs.Message.IpPacket.{PacketCrate}
use lora_mesh_rs.Router
use lora_mesh_rs.Router.Graph.{GraphCrate}
use lora_mesh_rs.Tunnel.{Platform}
use lora_mesh_rs.Node.State.{MeshNode, transmit, broadcast, broadcast_offset}
use lora_mesh_rs.Node.Main.{
  TryRecv, empty, closed, received, Input, radio_takes, from_tunnel, from_radio, tasks, round,
}
use lora_mesh_rs.Node.Wire.{IsWire, to_bytes-IsWire}
use lora_mesh_rs.Node.Evolves.Base.{
  Evolves, Evolves-refl, Evolves-trans, Evolves-transmit, Evolves-router,
}
use lora_mesh_rs.Node.Evolves.Packets.{handle_tun_ip-Evolves}
use lora_mesh_rs.Node.Evolves.Receive.{on_radio-Evolves}

-- What the radio gives, if anything, are bytes.
abbrev pub GivesBytes : TryRecv (List ℕ) → Type 0
GivesBytes empty = Unit
GivesBytes closed = Unit
GivesBytes (received bytes) = All IsByte bytes

module _ {G : Type 0} where
  radio_takes-Evolves : (k : ℕ) (n : MeshNode G) → Evolves n (radio_takes k n)
  radio_takes-Evolves k n = record {
    id_is = refl;
    opt_is = refl;
    nodeid_is = refl;
    ip_stays = λ x h. h;
    private = λ h. h;
    wire = All-drop IsWire k n.sent;
    table = λ h. h;
  }

  announced-Evolves :
      (n : MeshNode G) (queue : List (List ℕ)) (bytes : List ℕ)
      → IsWire bytes
      → Evolves n (elim queue as (λ _. MeshNode G) [ [] ↦ transmit n bytes | _ ∷ _ ↦ n ])
  announced-Evolves n [] bytes w = Evolves-transmit n bytes w
  announced-Evolves n (x ∷ queue) bytes w = Evolves-refl n

  broadcast-Evolves : (n : MeshNode G) → Evolves n (broadcast n)
  unfolding broadcast
  broadcast-Evolves n =
      let f =
        Broadcast.to_frame
          (record {
            header = none;
            isgateway = n.opt.isgateway;
            ip_offset = broadcast_offset n.ipaddr;
            ipaddr = n.ipaddr;
          })
          1 n.id (n.id ∷ []) in
      announced-Evolves n n.sent (to_bytes f) (to_bytes-IsWire f (omega arith))

  broadcast_if-Evolves : (n : MeshNode G) (due : Bool) → Evolves n (if due then broadcast n else n)
  broadcast_if-Evolves n true = broadcast-Evolves n
  broadcast_if-Evolves n false = Evolves-refl n

module _ {G : Type 0} ⦃gc : GraphCrate G⦄ where
  spanning_if-Evolves :
      (n : MeshNode G) (due : Bool)
      → Evolves n (if due then record n { router = Router.min_spanning_tree n.router } else n)
  unfolding Router.min_spanning_tree
  spanning_if-Evolves n true = Evolves-router n (Router.min_spanning_tree n.router) refl
  spanning_if-Evolves n false = Evolves-refl n

module _ {G P : Type 0} ⦃e : Enumn⦄ ⦃gc : GraphCrate G⦄ ⦃pc : PacketCrate P⦄ ⦃os : Platform⦄ where
  from_tunnel-Evolves :
      (i : Input P) (n : MeshNode G) (r : TryRecv P) → Post (Evolves n) (from_tunnel i n r)
  unfolding from_tunnel
  from_tunnel-Evolves i n empty = Evolves-refl n
  from_tunnel-Evolves i n closed = tt
  from_tunnel-Evolves i n (received p) = handle_tun_ip-Evolves n i.packet_frameid p

  from_radio-Evolves :
      (i : Input P) (n : MeshNode G) (r : TryRecv (List ℕ))
      → GivesBytes r
      → Post (Evolves n) (from_radio i n r)
  unfolding from_radio
  from_radio-Evolves i n empty b = Evolves-refl n
  from_radio-Evolves i n closed b = tt
  from_radio-Evolves i n (received bytes) b = on_radio-Evolves P i.clock i.answer_frameid n bytes b

  tasks-Evolves : (i : Input P) (n : MeshNode G) → Evolves n (tasks i n)
  unfolding tasks
  tasks-Evolves i n =
      let n1 = if i.broadcast_due then broadcast n else n in
      Evolves-trans n n1 (tasks i n) (broadcast_if-Evolves n i.broadcast_due)
        (spanning_if-Evolves n1 i.spanning_due)

  pub round-Evolves :
      (i : Input P) (n : MeshNode G) → GivesBytes i.from_radio → Post (Evolves n) (round i n)
  unfolding round
  round-Evolves i n b = Post-bind (Evolves n) (from_tunnel i n i.from_tunnel) _ λ n1 h1.
      Post-bind (Evolves n) (from_radio i n1 i.from_radio) _ λ n2 h2.
        let first =
          Post-elim (Evolves n) (from_tunnel i n i.from_tunnel) n1
            (from_tunnel-Evolves i n i.from_tunnel) h1 in
        let second =
          Post-elim (Evolves n1) (from_radio i n1 i.from_radio) n2
            (from_radio-Evolves i n1 i.from_radio b) h2 in
        let n3 = radio_takes i.taken n2 in
        let third =
          Evolves-trans n2 n3 (tasks i n3) (radio_takes-Evolves i.taken n2) (tasks-Evolves i n3) in
        Evolves-trans n n1 (tasks i n3) first (Evolves-trans n1 n2 (tasks i n3) second third)
