-- ===== src/Station/Steps.antt =====
-- The interleavings of the threads that src/main.rs starts, as a relation on stations.
use lora_mesh_rs.Prelude.{ℕ, List, ◌≡◌, true, false}
use lora_mesh_rs.Prelude.Outcome.{ok}
use lora_mesh_rs.Kinds.{Enumn}
use lora_mesh_rs.Message.IpPacket.{PacketCrate}
use lora_mesh_rs.Router.Graph.{GraphCrate}
use lora_mesh_rs.Tunnel.{Platform}
use lora_mesh_rs.Node.Main.{Input}
use lora_mesh_rs.Radio.{Device}
use lora_mesh_rs.Radio.Loop.{RadioInput}
use lora_mesh_rs.Station.{Station, node_round, tunnel_round, begin_radio, radio_turn}

module _ {P G : Type 0} ⦃e : Enumn⦄ ⦃gc : GraphCrate G⦄ ⦃pc : PacketCrate P⦄ ⦃os : Platform⦄
    ⦃dev : Device⦄ where
  pub data Step (st st' : Station P G) : Type 0 where
    node_runs : (i : Input P) → node_round i st ≡ ok st' → Step st st'
    tunnel_runs : (buffer : List ℕ) (size : ℕ) → tunnel_round buffer size st ≡ ok st' → Step st st'
    radio_begins : st.begun ≡ false → begin_radio st ≡ ok st' → Step st st'
    radio_runs : (i : RadioInput) → st.begun ≡ true → radio_turn i st ≡ ok st' → Step st st'

  pub data Reach (st : Station P G) : Station P G → Type 0 where
    here : Reach st st
    later : {st1 st2 : Station P G} → Reach st st1 → Step st1 st2 → Reach st st2
