-- ===== src/Examples/Nodes.antt =====
-- The theorems on nodes, on a small mesh: gateway 1, relay 7, node 9.
use lora_mesh_rs.Prelude.{
  get_last?, ◌++◌, ℕ, ◌≡◌, refl, Bool, true, false, List, [], ◌∷◌, none, some, arith, All, byte_eq,
  bytes_eq,
}
use lora_mesh_rs.Prelude.Outcome.{ok, ◌>>=◌}
use lora_mesh_rs.Prelude.HashMap
use lora_mesh_rs.Kinds.{has_more_chunks, more_chunks, final_chunk, ip_packet}
use lora_mesh_rs.Util.{Ipv4Addr, ip, is_private, composite_key}
use lora_mesh_rs.Settings.{Settings}
use lora_mesh_rs.Chunk.{chunk_data, chunk_loop}
use lora_mesh_rs.Frame.{Frame, FrameHeader, to_bytes, from_bytes, header, txflag, msgtype, chunked}
use lora_mesh_rs.Tunnel.{NetworkTunnel, IpCommand, addr_add, route_add}
use lora_mesh_rs.Node.State.{MeshNode, new, handle_ip_assignment}
use lora_mesh_rs.Node.Receive.{RxChunks, key_of, reassemble, on_radio}
use lora_mesh_rs.Node.Main.{Input, empty, received, round, start}
use lora_mesh_rs.Node.Slots.{mine}
use lora_mesh_rs.Node.Feed.{feed, feed_slot, feed_slots}
use lora_mesh_rs.Node.Reassembly.{parse_all, IsFinal, HasHeader, reassembly}
use lora_mesh_rs.Node.Relay.{answer, forgets}
use lora_mesh_rs.Router.Lease.{leased}
use lora_mesh_rs.Tunnel.Total.{AlwaysSucceeds}
use lora_mesh_rs.Node.Request.{request_frame, on_radio-request}
use lora_mesh_rs.Node.Leasing.{request-answered}
use lora_mesh_rs.Node.Journey.{travel, passed, travel_assigns}
use lora_mesh_rs.Node.Gateway.{KnowsItself, start-new}
use lora_mesh_rs.Examples.Crates.{Edges, the_enums, the_machine, graphs, packets}
use lora_mesh_rs.Examples.Wire.{packet_frame, packet_header, packet-header}
use lora_mesh_rs.Examples.Routing.{ticks, fresh, heard}

abbrev pub options : ℕ → Bool → Settings
options id gateway = record {
  nodeid = id;
  debug = false;
  isgateway = gateway;
  radioport = [];
  radiocfg = none;
  maxpacketsize = 2;
  txslot = 1000;
  chunktimeout = 10000;
  maxhops = 2;
}

abbrev pub idle_tunnel : NetworkTunnel
idle_tunnel = record { tunname = []; tunip = some (ip 10 107 1 3); written = []; commands = [] }

-- A node that has no address yet.
abbrev pub lone : ℕ → MeshNode Edges
lone id = record {
  id = id;
  ipaddr = none;
  sent = [];
  tunnel = idle_tunnel;
  router = record fresh { nodeid = id; isgateway = false };
  opt = options id false;
  rxchunks = [];
}

abbrev pub gateway : MeshNode Edges
gateway = record {
  id = 1;
  ipaddr = some (ip 172 16 0 1);
  sent = [];
  tunnel = idle_tunnel;
  router = fresh;
  opt = options 1 true;
  rxchunks = [];
}

-- The broadcast of node 9, as node 7 sends it on.
abbrev pub asking_frame : Frame
asking_frame = record {
  txflag = 0;
  frameid = 1;
  msgtype = 1;
  sender = 9;
  routeoffset = 2;
  route = 7 ∷ 9 ∷ [];
  payload = 0 ∷ 0 ∷ [];
}

abbrev pub one_round : Input (List ℕ)
one_round = record {
  from_tunnel = empty;
  from_radio = received (0 ∷ 1 ∷ 1 ∷ 9 ∷ 2 ∷ 7 ∷ 9 ∷ 0 ∷ 0 ∷ []);
  taken = 0;
  broadcast_due = false;
  spanning_due = true;
  packet_frameid = 50;
  answer_frameid = 60;
  clock = ticks;
}

-- The gateway after the broadcast: it has answered node 9 and routed the address.
abbrev told_gateway : MeshNode Edges
told_gateway = record gateway {
  sent = (0 ∷ 60 ∷ 2 ∷ 1 ∷ 2 ∷ 7 ∷ 9 ∷ 172 ∷ 16 ∷ 0 ∷ 9 ∷ []) ∷ [];
  tunnel = record idle_tunnel { commands = route_add (ip 172 16 0 9) (ip 172 16 0 1) ∷ [] };
  router = heard;
}

one_round_ends : round one_round gateway ≡ ok told_gateway
unfolding round HashMap.get HashMap.insert is_private txflag has_more_chunks header
one_round_ends = refl

-- The answer travels over node 7 to node 9.
abbrev given_ip : Ipv4Addr
given_ip = ip 172 16 0 9

abbrev assigned : MeshNode Edges
assigned = record (lone 9) {
  ipaddr = some (ip 172 16 0 9);
  tunnel = record idle_tunnel {
    commands = addr_add (ip 172 16 0 9) ∷ route_add (ip 172 16 0 9) (ip 10 107 1 3) ∷ [];
  };
  router = record (lone 9).router {
    id2ip = (9, ip 172 16 0 9) ∷ [];
    ip2id = (ip 172 16 0 9, 9) ∷ [];
  };
}

abbrev pub no_table : RxChunks
no_table = []

pub no_chunks : (k : List ℕ) → HashMap.get k no_table ≡ none
unfolding HashMap.get
no_chunks k = refl

assigns : handle_ip_assignment (forgets (lone 9) 1 60) given_ip ≡ ok assigned
unfolding handle_ip_assignment HashMap.insert HashMap.remove is_private
assigns = refl

travel_assigns_example :
    travel (List ℕ) ticks 30 (lone 7 ∷ []) (lone 9) (to_bytes (answer given_ip 60 1 (7 ∷ 9 ∷ [])))
    ≡ ok (passed given_ip 60 1 (lone 7 ∷ []) 9, assigned)
travel_assigns_example =
    travel_assigns (List ℕ) ticks 30 (lone 7 ∷ []) (lone 9) assigned given_ip 60 1 (omega arith)
      (no_chunks (composite_key 1 60), tt) (no_chunks (composite_key 1 60)) assigns

packet_flag : txflag packet_frame ≡ ok final_chunk
unfolding txflag
packet_flag = refl

packet_kind : msgtype packet_frame ≡ ok ip_packet
unfolding msgtype
packet_kind = refl

-- The chunks of `packet_frame` of two bytes each, and a frame of node 4 in between.
abbrev first_piece : Frame
first_piece = record packet_frame { txflag = 1; payload = 10 ∷ 11 ∷ [] }

abbrev second_piece : Frame
second_piece = record packet_frame { txflag = 1; payload = 12 ∷ 13 ∷ [] }

abbrev last_piece : Frame
last_piece = record packet_frame { payload = 14 ∷ [] }

abbrev other_frame : Frame
other_frame = record packet_frame { txflag = 1; sender = 4 }

abbrev on_air : List Frame
on_air = first_piece ∷ other_frame ∷ second_piece ∷ last_piece ∷ []

abbrev pub packet_chunks : List (List ℕ)
packet_chunks = to_bytes first_piece ∷ to_bytes second_piece ∷ to_bytes last_piece ∷ []

pub packet_chunked : chunked packet_frame 2 ≡ ok packet_chunks
unfolding chunked to_bytes chunk_data chunk_loop
packet_chunked = refl

packet_parsed : parse_all packet_chunks ≡ ok (first_piece ∷ second_piece ∷ last_piece ∷ [])
unfolding parse_all from_bytes to_bytes
packet_parsed = refl

on_air-mine : mine (key_of packet_frame) on_air ≡ first_piece ∷ second_piece ∷ last_piece ∷ []
unfolding composite_key
on_air-mine = refl

pub packet-IsFinal : IsFinal packet_frame packet_header
packet-IsFinal = record {
  header_is = packet-header;
  flag_is = refl;
  routed = refl;
  short = omega arith;
}

abbrev more_header : ℕ → FrameHeader
more_header sender = record packet_header { txflag = more_chunks; sender = sender }

on_air-headers : All HasHeader on_air
unfolding header
on_air-headers = (
  (more_header 3, refl),
  ((more_header 4, refl), ((more_header 3, refl), ((packet_header, refl), tt))),
)

reassembly_example :
    (rx' : RxChunks) × (outs : List Frame) × (feed no_table on_air ≡ ok (rx', outs))
    × (mine (key_of packet_frame) outs ≡ packet_frame ∷ [])
    × (HashMap.get (key_of packet_frame) rx' ≡ none)
reassembly_example =
    reassembly packet_frame packet_header 2 packet_chunks
      (first_piece ∷ second_piece ∷ last_piece ∷ []) on_air no_table (omega arith) packet-IsFinal
      packet_chunked packet_parsed on_air-mine on_air-headers (no_chunks (key_of packet_frame))

abbrev other_table : RxChunks
other_table = (key_of other_frame, other_frame ∷ []) ∷ []

on_air_fed : feed no_table on_air ≡ ok (other_table, packet_frame ∷ [])
unfolding feed reassemble composite_key HashMap.get HashMap.insert txflag has_more_chunks header
on_air_fed = refl

feed_slots_example :
    feed_slot (HashMap.get (key_of other_frame) no_table) (mine (key_of other_frame) on_air)
    ≡ ok (
      HashMap.get (key_of other_frame) other_table,
      mine (key_of other_frame) (packet_frame ∷ []),
    )
feed_slots_example =
    feed_slots no_table other_table (key_of other_frame) on_air (packet_frame ∷ []) on_air_fed

obeys : (ran : List IpCommand) (command : IpCommand) → the_machine.succeeds ran command ≡ true
obeys ran command = refl

start-new_example :
    (n : MeshNode Edges) × ((new 1 idle_tunnel (options 1 true) >>= start) ≡ ok n) × KnowsItself 1 n
start-new_example = start-new 1 idle_tunnel (options 1 true) (ip 10 107 1 3) obeys refl refl

succeeds : AlwaysSucceeds the_machine
succeeds ran command = refl

no_leases_yet : HashMap.get 9 fresh.id2ip ≡ none
unfolding HashMap.get
no_leases_yet = refl

on_radio-request_example :
    (n' : MeshNode Edges) × (on_radio
        (List ℕ)
        ticks
        60
        gateway
        (to_bytes (request_frame 1 9 (7 ∷ 9 ∷ [])))
      ≡ ok n')
    × (n'.sent ≡ [] ++ to_bytes (answer (leased 9) 60 1 (7 ∷ 9 ∷ [])) ∷ [])
    × (HashMap.get 9 n'.router.id2ip ≡ some (leased 9))
on_radio-request_example =
    on_radio-request (List ℕ) ticks 60 gateway (ip 172 16 0 1) 1 9 7 (9 ∷ []) succeeds refl refl
      refl (omega arith) (no_chunks (composite_key 9 1)) no_leases_yet

request-answered_example :
    (gateway' last' : MeshNode Edges) × (bytes : List ℕ) × (on_radio
        (List ℕ)
        ticks
        60
        gateway
        (to_bytes (request_frame 1 9 (7 ∷ 9 ∷ [])))
      ≡ ok gateway')
    × (get_last? gateway'.sent ≡ some bytes)
    × (travel (List ℕ) ticks 30 (lone 7 ∷ []) (lone 9) bytes
        ≡ ok (passed (leased 9) 60 1 (lone 7 ∷ []) 9, last'))
    × (last'.ipaddr ≡ some (leased 9))
request-answered_example =
    request-answered (List ℕ) ticks 60 30 1 gateway (ip 172 16 0 1) (ip 10 107 1 3) 7 (lone 7 ∷ [])
      (lone 9) (9 ∷ []) succeeds refl refl refl (no_chunks (composite_key 9 1)) no_leases_yet
      (omega arith) refl (no_chunks (composite_key 1 60), tt) (no_chunks (composite_key 1 60)) refl
      refl
