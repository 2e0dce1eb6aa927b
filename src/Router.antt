-- ===== src/Router.antt =====
-- src/stack/router.rs, `MeshRouter`: what a node knows of the mesh, the addresses that a gateway
-- hands out, and the route of a packet. A method returns the new router. `Instant::now()` is a
-- clock: `clock i` is its reading number `i` of the call. A `Duration` is its milliseconds.
pub mod Graph
pub mod Learn
pub mod Lease
pub mod Edges
pub mod Routes
pub mod Total
pub mod Offers
pub mod Gives
use lora_mesh_rs.Prelude.{
  ℕ, zero, suc, ◌+◌, ◌≡◌, Bool, true, false, not, ◌&&◌, List, [], ◌∷◌, Option, none, some, ◌==◌,
  if◌then◌else◌, get_last?, byte_eq,
}
use lora_mesh_rs.Prelude.Outcome.{
  Outcome, ok, panic, missing_header, missing_ip, empty_route, ◌>>=◌, expect,
}
use lora_mesh_rs.Prelude.HashMap
use lora_mesh_rs.Prelude.HashMap.{HashMap}
use lora_mesh_rs.Util.{Ipv4Addr, ip, ip_eq}
use lora_mesh_rs.Message.Broadcast.{BroadcastMessage}
use lora_mesh_rs.Message.IpPacket.{PacketCrate}
use lora_mesh_rs.Frame.{Profile, add_u8}
use Graph.{GraphCrate}

pub record MeshRouter (G : Type 0) : Type 0 where
  pub nodeid : ℕ
  pub gatewayipaddr : Option Ipv4Addr
  pub maxhops : ℕ
  pub last_sequence_number : ℕ
  pub timeout : ℕ
  pub retries : ℕ
  pub observations : HashMap ℕ ℕ
  pub graph : G
  pub id2ip : HashMap ℕ Ipv4Addr
  pub ip2id : HashMap Ipv4Addr ℕ
  pub isgateway : Bool

abbrev pub Clock : Type 0
Clock = ℕ → ℕ

-- The cost of an edge, `|e| e.1`: of (source, target, weight) the target, which is a `u8`. The
-- search adds costs up with the addition that `find_path` gives it.
abbrev pub edge_cost : ℕ × ℕ × ℕ → ℕ
edge_cost edge = edge.1

module _ {G : Type 0} where
  -- `node_observe_put`, at the time `now`
  unfoldable pub node_observe_put : MeshRouter G → ℕ → ℕ → MeshRouter G
  node_observe_put r nodeid now = record r {
    observations = HashMap.insert nodeid now r.observations;
  }

  unfoldable pub node_observe_get : MeshRouter G → ℕ → Option ℕ
  node_observe_get r nodeid = HashMap.get nodeid r.observations

  unfoldable pub handle_gateway_assignment : MeshRouter G → Ipv4Addr → MeshRouter G
  handle_gateway_assignment r gatewayip = record r { gatewayipaddr = some gatewayip }

  -- The two tables are written together.
  unfoldable pub record_ip : MeshRouter G → ℕ → Ipv4Addr → MeshRouter G
  record_ip r nodeid ipaddr = record r {
    id2ip = HashMap.insert nodeid ipaddr r.id2ip;
    ip2id = HashMap.insert ipaddr nodeid r.ip2id;
  }

  -- `ip_assign`: the address, and whether it is new
  unfoldable pub ip_assign : MeshRouter G → ℕ → MeshRouter G × (Ipv4Addr × Bool)
  unfolding record_ip
  ip_assign r nodeid = elim (HashMap.get nodeid r.id2ip) [
    | none ↦ (record_ip r nodeid (ip 172 16 0 nodeid), (ip 172 16 0 nodeid, true))
    | some known ↦ (r, (known, false))
  ]

  -- A gateway is remembered, unless it is this node.
  unfoldable pub note_gateway : MeshRouter G → BroadcastMessage → ℕ → Outcome (MeshRouter G)
  unfolding handle_gateway_assignment
  note_gateway r b srcid =
      if b.isgateway && not (srcid == r.nodeid)
      then (do addr ← expect b.ipaddr missing_ip; ok (handle_gateway_assignment r addr))
      else ok r

  unfoldable pub note_ip : MeshRouter G → Option Ipv4Addr → ℕ → MeshRouter G
  unfolding record_ip
  note_ip r none srcid = r
  note_ip r (some addr) srcid = record_ip r srcid addr

  -- The router's answer: a gateway gives an address to a node that has none.
  unfoldable pub answer :
      MeshRouter G → BroadcastMessage → ℕ → MeshRouter G × Option (Ipv4Addr × Bool)
  unfolding ip_assign
  answer r b srcid =
      if b.ip_offset == 0 && r.isgateway
      then (let (r', given) = ip_assign r srcid in (r', some given))
      else (r, none)

module _ {G : Type 0} ⦃gc : GraphCrate G⦄ where
  unfoldable pub new : ℕ → Option Ipv4Addr → ℕ → ℕ → Bool → MeshRouter G
  new nodeid gatewayipaddr maxhops timeout isgateway = record {
    nodeid = nodeid;
    gatewayipaddr = gatewayipaddr;
    maxhops = maxhops;
    last_sequence_number = 0;
    timeout = timeout;
    retries = 1;
    observations = [];
    graph = gc.new;
    id2ip = [];
    ip2id = [];
    isgateway = isgateway;
  }

  unfoldable pub min_spanning_tree : MeshRouter G → MeshRouter G
  min_spanning_tree r = record r { graph = gc.spanning_tree r.graph }

  unfoldable pub edge_add : MeshRouter G → ℕ → ℕ → MeshRouter G
  edge_add r src dest = record r { graph = gc.add_edge r.graph src dest 1 }

  unfoldable pub node_add : MeshRouter G → ℕ → MeshRouter G
  node_add r nodeid = record r { graph = gc.add_node r.graph nodeid }

  unfoldable pub node_remove : MeshRouter G → ℕ → MeshRouter G
  node_remove r nodeid = record r { graph = gc.remove_node r.graph nodeid }

  -- The loop of `route_add`, from reading `i` of the clock.
  unfoldable pub route_add_from : Clock → ℕ → MeshRouter G → List (ℕ × ℕ) → MeshRouter G
  unfolding node_observe_put node_add edge_add
  route_add_from clock i r [] = r
  route_add_from clock i r ((src, dest) ∷ route) =
      let r1 = node_observe_put r src (clock i) in
      let r2 = node_observe_put r1 dest (clock (i + 1)) in
      let r3 = node_add r2 src in
      let r4 = node_add r3 dest in route_add_from clock (i + 2) (edge_add r4 src dest) route

  unfoldable pub route_add : Clock → MeshRouter G → List (ℕ × ℕ) → MeshRouter G
  unfolding route_add_from
  route_add clock r route = route_add_from clock 0 r route

  unfoldable pub handle_ip_assignment : MeshRouter G → Ipv4Addr → MeshRouter G
  unfolding node_add record_ip
  handle_ip_assignment r ipaddr = record_ip (node_add r r.nodeid) r.nodeid ipaddr

  -- The first loop of `handle_broadcast`: each node of the route is seen, and in the graph.
  unfoldable pub observe_route : Clock → ℕ → MeshRouter G → List ℕ → MeshRouter G
  unfolding node_observe_put node_add
  observe_route clock i r [] = r
  observe_route clock i r (nodeid ∷ route) =
      observe_route clock (suc i) (node_add (node_observe_put r nodeid (clock i)) nodeid) route

  -- `route.windows(2)`: an edge for each two neighbours on the route.
  unfoldable pub add_windows : MeshRouter G → List ℕ → MeshRouter G
  unfolding edge_add
  add_windows r [] = r
  add_windows r (a ∷ []) = r
  add_windows r (a ∷ b ∷ route) = add_windows (edge_add r a b) (b ∷ route)

  -- What `handle_broadcast` does to the router before it answers.
  unfoldable pub learn :
      Clock → MeshRouter G → BroadcastMessage → ℕ → List ℕ → Outcome (MeshRouter G)
  unfolding note_gateway observe_route note_ip add_windows edge_add
  learn clock r b srcid route = do
    r1 ← note_gateway r b srcid
    let r2 = observe_route clock 0 r1 route
    let r3 = note_ip r2 b.ipaddr srcid
    let r4 = add_windows r3 route
    last ← expect (get_last? route) empty_route
    ok (edge_add r4 r4.nodeid last)

  unfoldable pub handle_broadcast :
      Clock
      → MeshRouter G
      → BroadcastMessage
      → List ℕ
      → Outcome (MeshRouter G × Option (Ipv4Addr × Bool))
  unfolding learn answer
  handle_broadcast clock r b route = do
    h ← expect b.header missing_header
    r' ← learn clock r b h.sender route
    ok (answer r' b h.sender)

  -- The costs are of type `u8`, and are added as the profile says.
  unfoldable pub find_path : Profile → G → Option ℕ → Option ℕ → Outcome (Option (List ℕ))
  unfolding add_u8
  find_path profile g (some src) (some dest) = do
    found ← gc.astar (add_u8 profile) g src (λ finish. finish == dest) edge_cost (λ _. 0)
    ok (elim found [ none ↦ none | some (cost, path) ↦ some path ])
  find_path profile g _ _ = ok none

  -- `packet_route`
  unfoldable pub packet_route :
      {P : Type 0} ⦃pc : PacketCrate P⦄ → Profile → MeshRouter G → P → Outcome (Option (List ℕ))
  unfolding find_path
  packet_route ⦃pc⦄ profile r packet =
      find_path profile r.graph (HashMap.get (pc.source packet) r.ip2id)
        (HashMap.get (pc.destination packet) r.ip2id)
