-- ===== src/Node/Gateway.antt =====
-- How a gateway starts: `MeshNode::new` and the beginning of `run` in src/node.rs.
use lora_mesh_rs.Prelude.{ℕ, ◌≡◌, refl, true, List, [], ◌∷◌, ◌++◌, none, some, byte_eq}
use lora_mesh_rs.Prelude.Outcome.{ok, ◌>>=◌}
use lora_mesh_rs.Prelude.HashMap
use lora_mesh_rs.Prelude.HashMap.{get-insert_self}
use lora_mesh_rs.Util.{Ipv4Addr, ip_eq, is_private}
use lora_mesh_rs.Settings.{Settings}
use lora_mesh_rs.Router
use lora_mesh_rs.Router.{MeshRouter, record_ip}
use lora_mesh_rs.Router.Graph.{GraphCrate}
use lora_mesh_rs.Router.Lease.{leased, IsLeasing, AreLeases, record_ip-IsLeasing}
use lora_mesh_rs.Tunnel.{
  NetworkTunnel, Platform, IpCommand, addr_add, route_add, assignipaddr, routeipaddr,
}
use lora_mesh_rs.Node.State.{MeshNode, new, new_gateway}
use lora_mesh_rs.Node.Main.{start}

-- What is known at a gateway that has started.
pub record KnowsItself {G : Type 0} (id : ℕ) (n : MeshNode G) : Type 0 where
  pub has_address : n.ipaddr ≡ some (leased id)
  pub in_id2ip : HashMap.get id n.router.id2ip ≡ some (leased id)
  pub in_ip2id : HashMap.get (leased id) n.router.ip2id ≡ some id
  pub is_gateway : n.router.gatewayipaddr ≡ some (leased id)
  pub leasing : IsLeasing n.router

no_leases : AreLeases [] []
unfolding HashMap.get
no_leases = record { by_id = λ n x h. cc; by_ip = λ n x h. cc; both = λ n x h. cc }

module _ ⦃os : Platform⦄ where
  new_gateway_lem :
      (id : ℕ) (t : NetworkTunnel) (via : Ipv4Addr)
      → ((ran : List IpCommand) (command : IpCommand) → os.succeeds ran command ≡ true)
      → t.tunip ≡ some via
      → (t' : NetworkTunnel) × (new_gateway id t ≡ ok t')
  unfolding new_gateway assignipaddr routeipaddr is_private
  new_gateway_lem id t via up h =
      let ran = t.commands ++ addr_add (leased id) ∷ [] in
      (
        record t { commands = ran ++ route_add (leased id) via ∷ [] },
        rw (up t.commands (addr_add (leased id)), h, up ran (route_add (leased id) via)),
      )

module _ {G : Type 0} ⦃gc : GraphCrate G⦄ where
  abbrev fresh_router : ℕ → Settings → MeshRouter G
  fresh_router id opt = Router.new id none opt.maxhops opt.chunktimeout opt.isgateway

  abbrev started : ℕ → NetworkTunnel → Settings → MeshNode G
  started id t opt = record {
    id = id;
    ipaddr = some (leased id);
    sent = [];
    tunnel = t;
    router =
        Router.handle_gateway_assignment
          (Router.handle_ip_assignment (fresh_router id opt) (leased id)) (leased id);
    opt = opt;
    rxchunks = [];
  }

  started-KnowsItself :
      (id : ℕ) (t : NetworkTunnel) (opt : Settings) → KnowsItself id (started id t opt)
  unfolding Router.handle_ip_assignment Router.handle_gateway_assignment Router.new record_ip
  started-KnowsItself id t opt = record {
    has_address = refl;
    in_id2ip = get-insert_self id (leased id) [];
    in_ip2id = get-insert_self (leased id) id [];
    is_gateway = refl;
    leasing = record_ip-IsLeasing (fresh_router id opt) id no_leases;
  }

module _ {G : Type 0} ⦃gc : GraphCrate G⦄ ⦃os : Platform⦄ where
  -- On a machine where every command succeeds, and a tunnel with an address, a node that is set up
  -- as a gateway starts: it has the address that it would give to a node of its id, its router maps
  -- its id to that address and back and has it as the gateway's, and the tables hold only leases.
  pub start-new :
      (id : ℕ) (t : NetworkTunnel) (opt : Settings) (via : Ipv4Addr)
      → ((ran : List IpCommand) (command : IpCommand) → os.succeeds ran command ≡ true)
      → t.tunip ≡ some via
      → opt.isgateway ≡ true
      → (n : MeshNode G) × ((new id t opt >>= start) ≡ ok n) × KnowsItself id n
  unfolding new start
  start-new id t opt via up h g =
      let (t', e) = new_gateway_lem id t via up h in
      (started id t' opt, rw (g, e), started-KnowsItself id t' opt)
