-- ===== src/Station.antt =====
-- src/main.rs: a station, which is the threads of the node, of the radio and of the tunnel on one
-- machine. They share the channel of frames to transmit, the node's `sent`, that of bytes received,
-- the radio's `heard`, and that of packets from the tunnel. They are interleaved in any order, a
-- whole round of one loop at a time.
pub mod Steps
pub mod Sound
pub mod Boot
pub mod Runs
pub mod Air
pub mod Across
pub mod Turns
pub mod Chain
pub mod OverAir
pub mod Launch
use lora_mesh_rs.Prelude.{
  ℕ, ◌≡◌, Bool, true, false, List, [], ◌∷◌, ◌++◌, Option, none, some, map, drop,
}
use lora_mesh_rs.Prelude.Outcome.{Outcome, ok, ◌>>=◌, expect, no_settings, no_interface}
use lora_mesh_rs.Kinds.{Enumn}
use lora_mesh_rs.Message.IpPacket.{PacketCrate}
use lora_mesh_rs.Router.Graph.{GraphCrate}
use lora_mesh_rs.Settings
use lora_mesh_rs.Settings.{Settings, ConfigCrate}
use lora_mesh_rs.Tunnel
use lora_mesh_rs.Tunnel.{Platform}
use lora_mesh_rs.Node.State
use lora_mesh_rs.Node.State.{MeshNode}
use lora_mesh_rs.Node.Main.{TryRecv, empty, received, Input, round, start}
use lora_mesh_rs.Radio
use lora_mesh_rs.Radio.{Line, Device, ignore, rxstart}
use lora_mesh_rs.Radio.Loop.{LoopState, RadioInput, radio_round}

-- `begun` says whether the radio's thread has started to receive. Between the rounds the queue of
-- the radio is empty: what is left of it stands in the node's `sent`, the same channel.
pub record Station (P G : Type 0) : Type 0 where
  pub packets : List P
  pub node : MeshNode G
  pub radio : LoopState
  pub begun : Bool

-- What `main` finds: what `Settings::new` returned, what the crates for interface and port give,
-- how many lines have come when the device had its second, and what reading the files gives.
pub record Machine : Type 0 where
  pub settings : Option Settings
  pub interface : Option (List ℕ)
  pub port : Option (List Line × Bool)
  pub ready : ℕ
  pub files : List ℕ → Option (List (Option Line))

abbrev pub initfile : Machine → Settings → Option (Option (List (Option Line)))
initfile m opt = elim opt.radiocfg [ none ↦ none | some path ↦ some (m.files path) ]

-- `tunreader.try_recv()` and `rxreader.try_recv()`; what was received is the first.
abbrev pub try_first : {A : Type 0} → List A → TryRecv A
try_first [] = empty
try_first (first ∷ others) = received first

-- A round of the node that finds these in the channels.
abbrev pub hearing : {P : Type 0} → Input P → List P → List (List ℕ) → Input P
hearing i packets heard = record i {
  from_tunnel = try_first packets;
  from_radio = try_first heard;
  taken = 0;
}

-- A round of the radio that finds the frames in the channel.
abbrev pub finding : List (List ℕ) → RadioInput → RadioInput
finding frames i = record i { arrived = frames; burst = map (λ _. []) i.burst }

module _ {P G : Type 0} ⦃e : Enumn⦄ ⦃gc : GraphCrate G⦄ ⦃pc : PacketCrate P⦄ ⦃os : Platform⦄ where
  -- A round of the node's loop, which takes the oldest packet and the oldest bytes.
  unfoldable pub node_round : Input P → Station P G → Outcome (Station P G)
  unfolding round
  node_round i st = do
    n ← round (hearing i st.packets st.radio.radio.heard) st.node
    ok (record st {
      packets = drop 1 st.packets;
      node = n;
      radio = record st.radio {
        radio = record st.radio.radio { heard = drop 1 st.radio.radio.heard };
      };
    })

module _ {P G : Type 0} ⦃pc : PacketCrate P⦄ where
  -- A round of `tunloop`: a packet goes down the channel, what is none is dropped.
  unfoldable pub tunnel_round : List ℕ → ℕ → Station P G → Outcome (Station P G)
  unfolding Tunnel.tun_read
  tunnel_round buffer size st = do
    packet ← Tunnel.tun_read buffer size
    ok (record st { packets = st.packets ++ (elim packet [ none ↦ [] | some p ↦ p ∷ [] ]) })

module _ {P G : Type 0} ⦃dev : Device⦄ where
  -- The start of the radio's loop.
  unfoldable pub begin_radio : Station P G → Outcome (Station P G)
  unfolding rxstart
  begin_radio st = do
    l ← ignore (rxstart st.radio.radio)
    ok (record st { radio = record { radio = l; isrx = true; extratx = none }; begun = true })

  -- A round of the radio's loop, with the frames that the node has sent.
  unfoldable pub radio_turn : RadioInput → Station P G → Outcome (Station P G)
  unfolding radio_round
  radio_turn i st = do
    s ← radio_round (finding st.node.sent i) st.radio
    ok (record st {
      node = record st.node { sent = s.radio.queue };
      radio = record s { radio = record s.radio { queue = [] } };
    })

module _ {P G : Type 0} ⦃gc : GraphCrate G⦄ ⦃os : Platform⦄ ⦃dev : Device⦄ where
  -- `main`, as far as the two loops. That the radio could not be configured is ignored.
  unfoldable pub boot : Machine → Outcome (Station P G)
  unfolding Tunnel.new Radio.new Radio.init State.new start
  boot m = do
    opt ← expect m.settings no_settings
    tunname ← expect m.interface no_interface
    tun ← Tunnel.new tunname
    ls ← Radio.new opt m.port
    ls' ← ignore (Radio.init ls m.ready (initfile m opt))
    node ← State.new opt.nodeid tun opt
    node' ← start node
    ok (record {
      packets = [];
      node = node';
      radio = record { radio = ls'; isrx = false; extratx = none };
      begun = false;
    })

  -- `main`, which loads the settings first.
  unfoldable pub launch : ⦃crate : ConfigCrate⦄ → Machine → Outcome (Station P G)
  unfolding Settings.new boot
  launch m = do loaded ← Settings.new; boot (record m { settings = loaded })
