-- ===== src/Node/Main.antt =====
-- The main loop of src/node.rs: `run`, one round of its `loop` at a time. What comes from outside
-- in a round is an input: what the two channels give, how many frames the radio's thread takes from
-- its channel, whether the rate limiters let the two periodic tasks run, the numbers drawn, and the
-- clock.
use lora_mesh_rs.Prelude.{ℕ, Bool, List, [], ◌∷◌, if◌then◌else◌, drop}
use lora_mesh_rs.Prelude.Outcome.{Outcome, ok, panic, disconnected, unwrap_none, ◌>>=◌, expect}
use lora_mesh_rs.Kinds.{Enumn}
use lora_mesh_rs.Message.IpPacket.{PacketCrate}
use lora_mesh_rs.Router
use lora_mesh_rs.Router.{Clock}
use lora_mesh_rs.Router.Graph.{GraphCrate}
use lora_mesh_rs.Tunnel.{Platform}
use lora_mesh_rs.Node.State.{MeshNode, broadcast}
use lora_mesh_rs.Node.Packets.{handle_tun_ip}
use lora_mesh_rs.Node.Receive.{on_radio}

-- `try_recv` of a channel
pub data TryRecv (A : Type 0) : Type 0 where
  empty : TryRecv A
  closed : TryRecv A
  received : A → TryRecv A

pub record Input (P : Type 0) : Type 0 where
  pub from_tunnel : TryRecv P
  pub from_radio : TryRecv (List ℕ)
  pub taken : ℕ
  pub broadcast_due : Bool
  pub spanning_due : Bool
  pub packet_frameid : ℕ
  pub answer_frameid : ℕ
  pub clock : Clock

-- The radio's thread takes the oldest frames. Only `broadcast` sees whether any are left.
abbrev pub radio_takes : {G : Type 0} → ℕ → MeshNode G → MeshNode G
radio_takes k n = record n { sent = drop k n.sent }

module _ {P G : Type 0} ⦃e : Enumn⦄ ⦃gc : GraphCrate G⦄ ⦃pc : PacketCrate P⦄ ⦃os : Platform⦄ where
  unfoldable pub from_tunnel : Input P → MeshNode G → TryRecv P → Outcome (MeshNode G)
  unfolding handle_tun_ip
  from_tunnel i n empty = ok n
  from_tunnel i n closed = panic disconnected
  from_tunnel i n (received packet) = handle_tun_ip n i.packet_frameid packet

  unfoldable pub from_radio : Input P → MeshNode G → TryRecv (List ℕ) → Outcome (MeshNode G)
  unfolding on_radio
  from_radio i n empty = ok n
  from_radio i n closed = panic disconnected
  from_radio i n (received bytes) = on_radio P i.clock i.answer_frameid n bytes

  -- The periodic tasks at the end of a round.
  unfoldable pub tasks : Input P → MeshNode G → MeshNode G
  unfolding broadcast Router.min_spanning_tree
  tasks i n =
      let n1 = if i.broadcast_due then broadcast n else n in
      if i.spanning_due then record n1 { router = Router.min_spanning_tree n1.router } else n1

  -- One round of the `loop` of `run`.
  unfoldable pub round : Input P → MeshNode G → Outcome (MeshNode G)
  unfolding from_tunnel from_radio tasks
  round i n = do
    n1 ← from_tunnel i n i.from_tunnel
    n2 ← from_radio i n1 i.from_radio
    ok (tasks i (radio_takes i.taken n2))

module _ {G : Type 0} ⦃gc : GraphCrate G⦄ where
  -- What `run` does before its loop: a gateway's router learns the gateway's address.
  unfoldable pub start : MeshNode G → Outcome (MeshNode G)
  unfolding Router.handle_ip_assignment Router.handle_gateway_assignment
  start n =
      if n.opt.isgateway
      then (do
        own ← expect n.ipaddr unwrap_none
        let r = Router.handle_ip_assignment n.router own
        ok (record n { router = Router.handle_gateway_assignment r own }))
      else ok n

module _ {P G : Type 0} ⦃e : Enumn⦄ ⦃gc : GraphCrate G⦄ ⦃pc : PacketCrate P⦄ ⦃os : Platform⦄ where
  unfoldable pub rounds : List (Input P) → MeshNode G → Outcome (MeshNode G)
  unfolding round
  rounds [] n = ok n
  rounds (i ∷ inputs) n = do n' ← round i n; rounds inputs n'

  -- `run`, for as many rounds of its `loop` as there are inputs.
  unfoldable pub run : List (Input P) → MeshNode G → Outcome (MeshNode G)
  unfolding start rounds
  run inputs n = do n' ← start n; rounds inputs n'
