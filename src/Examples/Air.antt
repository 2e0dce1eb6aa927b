-- ===== src/Examples/Air.antt =====
-- Stations in reach, each of the next: a packet from node 3, that node 7 passes on to node 9.
use lora_mesh_rs.Prelude.{
  ℕ, ◌≡◌, refl, true, false, List, [], ◌∷◌, ◌++◌, All, drop, arith, bytes_eq, byte_eq,
  if◌then◌else◌,
}
use lora_mesh_rs.Prelude.Outcome.{ok}
use lora_mesh_rs.Prelude.Text.{codes}
use lora_mesh_rs.Util.{ip, composite_key}
use lora_mesh_rs.Settings.{defaults}
use lora_mesh_rs.Node.State.{MeshNode}
use lora_mesh_rs.Node.Packets.{handle_tun_ip}
use lora_mesh_rs.Radio.{Line, LoStik, starts_with}
use lora_mesh_rs.Radio.Keeps.{Command, red_on, red_off, blue_on, blue_off, rx_start, rx_stop}
use lora_mesh_rs.Radio.Mode.{AlwaysAccepts}
use lora_mesh_rs.Radio.Loop.{LoopState, radioloop}
use lora_mesh_rs.Radio.Drain.{good, answers}
use lora_mesh_rs.Station.Air.{Ether}
use lora_mesh_rs.Station.Turns.{Stop, IsIdle}
use lora_mesh_rs.Station.Chain.{IsReady, Reaches}
use lora_mesh_rs.Station.OverAir.{packet_over_air}
use lora_mesh_rs.Radio.Turns.{handed_each, spoken}
use lora_mesh_rs.Node.Packet.{news}
use lora_mesh_rs.Examples.Hex.{the_device}
use lora_mesh_rs.Examples.Crates.{Edges, the_enums, the_machine, graphs, packets}
use lora_mesh_rs.Examples.Routing.{ticks}
use lora_mesh_rs.Examples.Packets.{parcel, sender, middle, end, on_the_way, route_found, no_chunks}

-- The other device reports what stands behind `radio tx `.
abbrev near : List Line → List Line
near [] = []
near (line ∷ rest) =
    let more = near rest in
    if starts_with line (codes "radio tx ")
    then (codes "radio_rx  " ++ drop 9 line) ∷ good ∷ good ∷ more
    else more

near-Command : (line : Line) (rest : List Line) → Command line → near (line ∷ rest) ≡ near rest
near-Command _ rest red_on = refl
near-Command _ rest red_off = refl
near-Command _ rest blue_on = refl
near-Command _ rest blue_off = refl
near-Command _ rest rx_start = refl
near-Command _ rest rx_stop = refl

abbrev in_reach : Ether
in_reach = record {
  hearsay = near;
  silence = refl;
  unheard = near-Command;
  carried = λ bytes rest h. refl;
}

takes_all : AlwaysAccepts the_device
takes_all ran line = refl

-- The sender of a packet, which goes in one piece.
abbrev posting : MeshNode Edges
posting = record sender { opt = record sender.opt { maxpacketsize = 200 } }

abbrev idle_radio : LoStik
idle_radio = record {
  opt = defaults;
  written = [];
  lines = [];
  queue = [];
  connected = true;
  heard = [];
}

abbrev at_3 : Stop Edges
at_3 = record { radio = idle_radio; node = posting }

abbrev at_7 : Stop Edges
at_7 = record { radio = idle_radio; node = middle }

abbrev at_9 : Stop Edges
at_9 = record { radio = idle_radio; node = end }

at-IsIdle : (s : Stop Edges) → s.radio ≡ idle_radio → IsIdle s
at-IsIdle s h = record { nothing_queued = λ i. (h i).queue; nothing_heard = λ i. (h i).heard }

stops-IsReady : All (IsReady 3) (at_3 ∷ at_7 ∷ [])
stops-IsReady = ((at-IsIdle at_3 refl, omega arith), ((at-IsIdle at_7 refl, omega arith), tt))

packet_over_air_example :
    (n' : MeshNode Edges) × (s : LoopState) × (handle_tun_ip posting 17 parcel ≡ ok n')
    × (radioloop
          (handed_each (news posting n'))
          (record idle_radio { lines = good ∷ good ∷ answers (news posting n') [] })
        ≡ ok s)
    × (s.radio.written ≡ spoken [] (news posting n'))
    × Reaches
        (List ℕ)
        in_reach
        false
        ticks
        5
        parcel
        (spoken [] (news posting n'))
        (news posting n')
        (at_7 ∷ [])
        at_9
packet_over_air_example =
    packet_over_air (List ℕ) in_reach takes_all false ticks 5 17 parcel at_3 at_9 (at_7 ∷ [])
      (ip 172 16 0 3) 3 refl refl route_found (omega arith) (omega arith) (ground arith)
      (ground arith) (omega arith) stops-IsReady (at-IsIdle at_9 refl) on_the_way refl
      (no_chunks (composite_key 3 17))
