-- ===== src/Examples/Station.antt =====
-- The theorems on a station, on a gateway that broadcasts itself.
use lora_mesh_rs.Prelude.{
  ℕ, ◌≡◌, refl, true, false, List, [], ◌∷◌, ◌++◌, none, some, All, drop, byte_eq, bytes_eq,
}
use lora_mesh_rs.Prelude.Outcome.{ok}
use lora_mesh_rs.Prelude.Text.{codes}
use lora_mesh_rs.Util.{Ipv4Addr, ip, ip_eq, is_private}
use lora_mesh_rs.Message.Broadcast
use lora_mesh_rs.Router
use lora_mesh_rs.Tunnel
use lora_mesh_rs.Tunnel.{addr_add, link_up, route_add}
use lora_mesh_rs.Settings.{Settings, defaults, deserialize, set_defaults}
use lora_mesh_rs.Settings.Typed.{IsTyped}
use lora_mesh_rs.Examples.Config.{for_gateway}
use lora_mesh_rs.Station.Launch.{Loaded, launch_settings}
use lora_mesh_rs.Prelude.HashMap
use lora_mesh_rs.Tunnel.Laws.{RoutesPrivate}
use lora_mesh_rs.Node.State
use lora_mesh_rs.Node.Main.{Input, empty, round}
use lora_mesh_rs.Node.Wire.{IsWire}
use lora_mesh_rs.Radio
use lora_mesh_rs.Radio.{
  Line, LoStik, done, init, response, recv, recv_any, read_lines, writeln, light, assert_response,
}
use lora_mesh_rs.Radio.Loop.{RadioInput}
use lora_mesh_rs.Radio.Setup.{init_written}
use lora_mesh_rs.Radio.Serves.{Sent}
use lora_mesh_rs.Station.{Station, Machine, boot, launch, node_round, begin_radio, radio_turn}
use lora_mesh_rs.Station.Steps.{node_runs, radio_begins, radio_runs, Reach, here, later}
use lora_mesh_rs.Node.Table.{IsTable}
use lora_mesh_rs.Station.Runs.{
  run-IsTable, run_transmits_frames, run-RoutesPrivate, run_keeps_address,
}
use lora_mesh_rs.Examples.Hex.{the_device}
use lora_mesh_rs.Examples.Crates.{Edges, the_enums, the_machine, graphs, packets}
use lora_mesh_rs.Examples.Routing.{ticks}

abbrev options : Settings
options = record defaults { nodeid = 1; isgateway = true; radiocfg = some (codes "init.txt") }

abbrev oks : List Line
oks = codes "ok" ∷ codes "ok" ∷ codes "ok" ∷ codes "ok" ∷ codes "ok" ∷ codes "ok" ∷ []

abbrev machine : Machine
machine = record {
  settings = some options;
  interface = some (codes "loratun0");
  port = some (codes "invalid_param" ∷ oks ++ oks ++ oks, true);
  ready = 1;
  files = λ path. some (some (codes "mac pause") ∷ some [] ∷ []);
}

abbrev a_round : Input (List ℕ)
a_round = record {
  from_tunnel = empty;
  from_radio = empty;
  taken = 0;
  broadcast_due = true;
  spanning_due = false;
  packet_frameid = 5;
  answer_frameid = 6;
  clock = ticks;
}

abbrev a_turn : RadioInput
a_turn = record {
  arrived = [];
  may_send = true;
  burst = [] ∷ [];
  may_still = true;
  line_ready = false;
}

abbrev address : Ipv4Addr
address = ip 172 16 0 1

abbrev booted : Station (List ℕ) Edges
booted = record {
  packets = [];
  node = record {
    id = 1;
    ipaddr = some address;
    sent = [];
    tunnel = record {
      tunname = codes "loratun0";
      tunip = some (ip 10 107 1 3);
      written = [];
      commands =
          addr_add (ip 10 107 1 3)
          ∷ link_up
          ∷ addr_add address
          ∷ route_add address (ip 10 107 1 3)
          ∷ [];
    };
    router =
        Router.handle_gateway_assignment
          (Router.handle_ip_assignment (Router.new 1 none 2 10000 true) address) address;
    opt = options;
    rxchunks = [];
  };
  radio = record {
    radio = record {
      opt = options;
      written = codes "INVALIDCOMMAND" ∷ codes "mac pause" ∷ [];
      lines = drop 1 (oks ++ oks ++ oks);
      queue = [];
      connected = true;
      heard = [];
    };
    isrx = false;
    extratx = none;
  };
  begun = false;
}

boots : boot machine ≡ ok booted
unfolding boot Tunnel.new Tunnel.ipassign Tunnel.ipcmd Radio.new init recv recv_any read_lines
    writeln State.new defaults is_private
boots = refl

-- The node has queued its broadcast, and the radio has begun.
abbrev announced : Station (List ℕ) Edges
announced = record booted {
  node = record booted.node { sent = (0 ∷ 1 ∷ 1 ∷ 1 ∷ 1 ∷ 1 ∷ 1 ∷ 4 ∷ 172 ∷ 16 ∷ 0 ∷ 1 ∷ []) ∷ [] };
}

announces : node_round a_round booted ≡ ok announced
unfolding node_round round Broadcast.to_frame
announces = refl

abbrev listening : Station (List ℕ) Edges
listening = record announced {
  radio = record {
    radio = record announced.radio.radio {
      written =
          announced.radio.radio.written
          ++ codes "radio rx 0" ∷ codes "sys set pindig GPIO11 1" ∷ [];
      lines = drop 3 (oks ++ oks ++ oks);
    };
    isrx = true;
    extratx = none;
  };
  begun = true;
}

listens : begin_radio announced ≡ ok listening
unfolding begin_radio recv recv_any read_lines writeln light response assert_response
listens = refl

abbrev sent : Station (List ℕ) Edges
sent = record listening {
  node = record listening.node { sent = [] };
  radio = record listening.radio {
    radio = record listening.radio.radio {
      written =
          listening.radio.radio.written
          ++ codes "radio rxstop"
            ∷ codes "sys set pindig GPIO11 0"
            ∷ codes "sys set pindig GPIO10 1"
            ∷ codes "radio tx 0001010101010104ac100001"
            ∷ codes "sys set pindig GPIO10 0"
            ∷ codes "radio rx 0"
            ∷ codes "sys set pindig GPIO11 1"
            ∷ [];
      lines = drop 11 (oks ++ oks ++ oks);
    };
  };
}

sends : radio_turn a_turn listening ≡ ok sent
unfolding radio_turn recv recv_any read_lines writeln light response assert_response
sends = refl

runs : Reach booted sent
runs =
    later (later (later here (node_runs a_round announces)) (radio_begins refl listens))
      (radio_runs a_turn refl sends)

run_transmits_frames_example :
    (since : List Line) × (sent.radio.radio.written ≡ booted.radio.radio.written ++ since)
    × All (Sent IsWire) since
    × All IsWire sent.node.sent
run_transmits_frames_example = run_transmits_frames machine booted sent boots runs

run-IsTable_example : IsTable sent.node.rxchunks
run-IsTable_example = run-IsTable machine booted sent boots runs

run-RoutesPrivate_example : RoutesPrivate sent.node.tunnel
run-RoutesPrivate_example = run-RoutesPrivate machine booted sent boots runs

run_keeps_address_example : (sent.node.id ≡ 1) × (sent.node.ipaddr ≡ some address)
run_keeps_address_example =
    run_keeps_address machine booted booted sent options address boots refl here runs refl

abbrev plugged : LoStik
plugged = record booted.radio.radio {
  written = [];
  lines = codes "invalid_param" ∷ oks ++ oks ++ oks;
}

configures : init plugged 1 (some (machine.files [])) ≡ ok (booted.radio.radio, done)
unfolding init recv recv_any read_lines writeln
configures = refl

init_written_example : booted.radio.radio.written ≡ codes "INVALIDCOMMAND" ∷ codes "mac pause" ∷ []
init_written_example =
    init_written plugged booted.radio.radio 1 (some (machine.files [])) configures

launches : launch ⦃crate = for_gateway⦄ machine ≡ ok booted
unfolding launch set_defaults deserialize HashMap.get boot Tunnel.new Tunnel.ipassign Tunnel.ipcmd
    Radio.new init recv recv_any read_lines writeln State.new defaults is_private
launches = refl

launch_settings_example :
    Loaded ⦃crate = for_gateway⦄ options × IsTyped options × (sent.node.id ≡ options.nodeid)
launch_settings_example = launch_settings ⦃crate = for_gateway⦄ machine booted sent launches runs
