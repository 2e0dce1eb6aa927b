-- ===== src/Node/State.antt =====
-- The state of a `MeshNode` of src/node.rs, its constructor and its smaller methods. `sent` is the
-- channel of frames for the radio, oldest first: the node appends, the radio's thread takes away.
use lora_mesh_rs.Prelude.{ℕ, List, [], ◌∷◌, ◌++◌, Option, none, some, if◌then◌else◌}
use lora_mesh_rs.Prelude.Outcome.{Outcome, ok, unwrap_none, ◌>>=◌, expect}
use lora_mesh_rs.Prelude.HashMap.{HashMap}
use lora_mesh_rs.Util.{Ipv4Addr, ip}
use lora_mesh_rs.Frame.{Frame, to_bytes}
use lora_mesh_rs.Message.Broadcast
use lora_mesh_rs.Router
use lora_mesh_rs.Router.{MeshRouter}
use lora_mesh_rs.Router.Graph.{GraphCrate}
use lora_mesh_rs.Settings.{Settings}
use lora_mesh_rs.Tunnel.{NetworkTunnel, Platform, assignipaddr, routeipaddr}

-- `rxchunks`, the local table of `run`, is a field here.
pub record MeshNode (G : Type 0) : Type 0 where
  pub id : ℕ
  pub ipaddr : Option Ipv4Addr
  pub sent : List (List ℕ)
  pub tunnel : NetworkTunnel
  pub router : MeshRouter G
  pub opt : Settings
  pub rxchunks : HashMap (List ℕ) (List Frame)

abbrev pub broadcast_offset : Option Ipv4Addr → ℕ
broadcast_offset none = 0
broadcast_offset (some _) = 4

module _ {G : Type 0} where
  -- `txsender.send(bytes)`
  abbrev pub transmit : MeshNode G → List ℕ → MeshNode G
  transmit n bytes = record n { sent = n.sent ++ bytes ∷ [] }

  -- `for chunk in chunks { txsender.send(chunk); }`
  unfoldable pub transmit_all : MeshNode G → List (List ℕ) → MeshNode G
  transmit_all n [] = n
  transmit_all n (chunk ∷ chunks) = transmit_all (transmit n chunk) chunks

  -- `broadcast`: only where the radio has nothing to send
  unfoldable pub broadcast : MeshNode G → MeshNode G
  unfolding Broadcast.to_frame to_bytes
  broadcast n = elim n.sent [
    | [] ↦ transmit n (
        to_bytes (
          Broadcast.to_frame
            (record {
              header = none;
              isgateway = n.opt.isgateway;
              ip_offset = broadcast_offset n.ipaddr;
              ipaddr = n.ipaddr;
            })
            1 n.id (n.id ∷ [])))
    | _ ∷ _ ↦ n
  ]

-- A gateway gives itself an address.
unfoldable pub new_gateway : ⦃os : Platform⦄ → ℕ → NetworkTunnel → Outcome NetworkTunnel
unfolding assignipaddr routeipaddr
new_gateway id tunnel = do
  t ← assignipaddr tunnel (ip 172 16 0 id)
  tunip ← expect t.tunip unwrap_none
  routeipaddr t (ip 172 16 0 id) tunip

module _ {G : Type 0} ⦃gc : GraphCrate G⦄ ⦃os : Platform⦄ where
  -- `MeshNode::new`
  unfoldable pub new : ℕ → NetworkTunnel → Settings → Outcome (MeshNode G)
  unfolding new_gateway Router.new
  new id tunnel opt = do
    t ← if opt.isgateway then new_gateway id tunnel else ok tunnel
    ok (record {
      id = id;
      ipaddr = if opt.isgateway then some (ip 172 16 0 id) else none;
      sent = [];
      tunnel = t;
      router = Router.new id none opt.maxhops opt.chunktimeout opt.isgateway;
      opt = opt;
      rxchunks = [];
    })

  -- What is done with a first address.
  unfoldable pub take_ip : MeshNode G → Ipv4Addr → Outcome (MeshNode G)
  unfolding assignipaddr routeipaddr Router.handle_ip_assignment
  take_ip n ipaddr = do
    t ← assignipaddr n.tunnel ipaddr
    tunip ← expect t.tunip unwrap_none
    t' ← routeipaddr t ipaddr tunip
    ok (record n {
      ipaddr = some ipaddr;
      tunnel = t';
      router = Router.handle_ip_assignment n.router ipaddr;
    })

  -- `handle_ip_assignment`: an address that the node has stays.
  unfoldable pub handle_ip_assignment : MeshNode G → Ipv4Addr → Outcome (MeshNode G)
  unfolding take_ip
  handle_ip_assignment n ipaddr = elim n.ipaddr [ none ↦ take_ip n ipaddr | some _ ↦ ok n ]
