-- ===== src/Examples/Routing.antt =====
-- The theorems on the router and the tunnel, on a small mesh: gateway 1, relay 7, node 9.
use lora_mesh_rs.Prelude.{
  ℕ, ◌≡◌, refl, inl, true, false, ◌||◌, List, [], ◌∷◌, none, some, get_last?, byte_eq,
}
use lora_mesh_rs.Prelude.Outcome.{ok, panic, overflow}
use lora_mesh_rs.Prelude.HashMap
use lora_mesh_rs.Kinds.{final_chunk, broadcast}
use lora_mesh_rs.Util.{ip, ip_eq}
use lora_mesh_rs.Frame.{FrameHeader, dev, release, add_u8}
use lora_mesh_rs.Message.Broadcast.{BroadcastMessage}
use lora_mesh_rs.Router.{MeshRouter, Clock, ip_assign, handle_broadcast, packet_route, find_path}
use lora_mesh_rs.Router.Graph.{same_edge}
use lora_mesh_rs.Router.Lease.{IsLeasing, ip_assign_unique, handle_broadcast-IsLeasing}
use lora_mesh_rs.Router.Edges.{linked, on_route, handle_broadcast_edges}
use lora_mesh_rs.Router.Routes.{IsLinked, packet_route_lem}
use lora_mesh_rs.Examples.Crates.{Edges, has_edge, graphs, packets}

abbrev pub ticks : Clock
ticks = λ i. 100

-- The router of the gateway, before any broadcast.
abbrev pub fresh : MeshRouter Edges
fresh = record {
  nodeid = 1;
  gatewayipaddr = none;
  maxhops = 2;
  last_sequence_number = 0;
  timeout = 10000;
  retries = 1;
  observations = [];
  graph = [];
  id2ip = [];
  ip2id = [];
  isgateway = true;
}

fresh-IsLeasing : IsLeasing fresh
unfolding HashMap.get
fresh-IsLeasing = record { by_id = λ n x h. cc; by_ip = λ n x h. cc; both = λ n x h. cc }

abbrev pub asking_header : FrameHeader
asking_header = record {
  txflag = final_chunk;
  frameid = 1;
  msgtype = broadcast;
  sender = 9;
  routeoffset = 2;
  route = 7 ∷ 9 ∷ [];
}

-- Node 9 has no address; its broadcast came over node 7.
abbrev pub asking : BroadcastMessage
asking = record { header = some asking_header; isgateway = false; ip_offset = 0; ipaddr = none }

abbrev pub heard : MeshRouter Edges
heard = record fresh {
  observations = (9, 100) ∷ (7, 100) ∷ [];
  graph = (1, 9) ∷ (7, 9) ∷ [];
  id2ip = (9, ip 172 16 0 9) ∷ [];
  ip2id = (ip 172 16 0 9, 9) ∷ [];
}

hears : handle_broadcast ticks fresh asking (7 ∷ 9 ∷ []) ≡ ok (heard, some (ip 172 16 0 9, true))
unfolding handle_broadcast HashMap.get HashMap.insert
hears = refl

abbrev asker : ℕ
asker = 9

same_lease : (ip_assign fresh 9).1.0 ≡ (ip_assign (ip_assign fresh 9).0 9).1.0
unfolding ip_assign HashMap.get HashMap.insert
same_lease = refl

ip_assign_unique_example : asker ≡ 9
ip_assign_unique_example = ip_assign_unique fresh asker 9 fresh-IsLeasing same_lease

handle_broadcast-IsLeasing_example : IsLeasing heard
handle_broadcast-IsLeasing_example =
    handle_broadcast-IsLeasing ticks fresh heard asking asking_header (7 ∷ 9 ∷ [])
      (some (ip 172 16 0 9, true)) refl (inl refl) fresh-IsLeasing hears

handle_broadcast_edges_example :
    (last : ℕ) × (get_last? (7 ∷ 9 ∷ []) ≡ some last)
    × ((c d : ℕ)
        → linked heard c d
          ≡ (same_edge 1 last c d || (on_route (7 ∷ 9 ∷ []) c d || linked fresh c d)))
handle_broadcast_edges_example =
    handle_broadcast_edges ticks fresh heard asking (7 ∷ 9 ∷ []) (some (ip 172 16 0 9, true)) hears

-- The gateway's router knows its own address too.
abbrev pub knowing : MeshRouter Edges
knowing = record heard {
  id2ip = (1, ip 172 16 0 1) ∷ (9, ip 172 16 0 9) ∷ [];
  ip2id = (ip 172 16 0 1, 1) ∷ (ip 172 16 0 9, 9) ∷ [];
}

-- From 172.16.0.1 to 172.16.0.9.
abbrev pub letter : List ℕ
letter =
    69 ∷ 0 ∷ 0 ∷ 20 ∷ 0 ∷ 0 ∷ 0 ∷ 0 ∷ 64 ∷ 17 ∷ 0 ∷ 0 ∷ 172 ∷ 16 ∷ 0 ∷ 1 ∷ 172 ∷ 16 ∷ 0 ∷ 9 ∷ []

-- The cost of a route is the sum of the ids on it, in a `u8`.
abbrev high_ids : Edges
high_ids = (1, 200) ∷ (200, 100) ∷ []

cost_overflows : find_path dev high_ids (some 1) (some 100) ≡ panic overflow
unfolding find_path add_u8
cost_overflows = refl

cost_wraps : find_path release high_ids (some 1) (some 100) ≡ ok (some (1 ∷ 200 ∷ 100 ∷ []))
unfolding find_path add_u8
cost_wraps = refl

letter_route : packet_route dev knowing letter ≡ ok (some (1 ∷ 9 ∷ []))
unfolding packet_route find_path add_u8 HashMap.get
letter_route = refl

packet_route_lem_example :
    (src dest : ℕ) × (HashMap.get (ip 172 16 0 1) knowing.ip2id ≡ some src)
    × (HashMap.get (ip 172 16 0 9) knowing.ip2id ≡ some dest)
    × ((rest : List ℕ) × (1 ∷ 9 ∷ [] ≡ src ∷ rest))
    × (get_last? (1 ∷ 9 ∷ []) ≡ some dest)
    × IsLinked (has_edge knowing.graph) (1 ∷ 9 ∷ [])
packet_route_lem_example = packet_route_lem dev knowing letter (1 ∷ 9 ∷ []) letter_route
