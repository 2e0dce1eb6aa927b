-- ===== src/Examples/Packets.antt =====
-- A packet from node 3 over node 7 to node 9.
use lora_mesh_rs.Prelude.{ℕ, ◌≡◌, refl, List, [], ◌∷◌, none, some, arith, inr, bytes_eq, byte_eq}
use lora_mesh_rs.Prelude.Outcome.{ok, panic, local_destination}
use lora_mesh_rs.Prelude.HashMap
use lora_mesh_rs.Util.{ip, ip_eq, composite_key}
use lora_mesh_rs.Frame.{Frame, dev, add_u8}
use lora_mesh_rs.Router.{packet_route, find_path}
use lora_mesh_rs.Node.State.{MeshNode}
use lora_mesh_rs.Node.Packets.{handle_tun_ip}
use lora_mesh_rs.Node.Hearing.{hear_all}
use lora_mesh_rs.Node.Overheard.{overheard_panics}
use lora_mesh_rs.Node.Packet.{Delivers, AreRelays, arrived, relay, carry, news, packet_delivered}
use lora_mesh_rs.Examples.Crates.{Edges, the_enums, the_machine, graphs, packets}
use lora_mesh_rs.Examples.Routing.{ticks}
use lora_mesh_rs.Examples.Nodes.{lone}

abbrev pub parcel : List ℕ
parcel =
    69 ∷ 0 ∷ 0 ∷ 20 ∷ 0 ∷ 0 ∷ 0 ∷ 0 ∷ 64 ∷ 17 ∷ 0 ∷ 0 ∷ 172 ∷ 16 ∷ 0 ∷ 3 ∷ 172 ∷ 16 ∷ 0 ∷ 9 ∷ []

abbrev pub sender : MeshNode Edges
sender = record (lone 3) {
  ipaddr = some (ip 172 16 0 3);
  router = record (lone 3).router {
    graph = (3, 7) ∷ (7, 9) ∷ [];
    ip2id = (ip 172 16 0 3, 3) ∷ (ip 172 16 0 9, 9) ∷ [];
  };
}

abbrev pub middle : MeshNode Edges
middle = record (lone 7) { ipaddr = some (ip 172 16 0 7) }

abbrev pub end : MeshNode Edges
end = record (lone 9) { ipaddr = some (ip 172 16 0 9) }

abbrev pub lone_chunks : HashMap.HashMap (List ℕ) (List Frame)
lone_chunks = []

pub route_found : packet_route dev sender.router parcel ≡ ok (some (3 ∷ 7 ∷ 9 ∷ []))
unfolding packet_route find_path add_u8 HashMap.get
route_found = refl

pub no_chunks : (key : List ℕ) → HashMap.get key lone_chunks ≡ none
unfolding HashMap.get
no_chunks key = refl

pub on_the_way : AreRelays parcel (composite_key 3 17) 3 (middle ∷ [])
on_the_way =
    relay (omega arith) (inr (ip 172 16 0 7, refl, refl)) (omega arith)
      (no_chunks (composite_key 3 17)) arrived

packet_delivered_example :
    (n' : MeshNode Edges) × (handle_tun_ip sender 17 parcel ≡ ok n')
    × Delivers
        (List ℕ)
        parcel
        (middle ∷ [])
        end
        (carry (List ℕ) ticks 5 (news sender n') (middle ∷ []) end)
packet_delivered_example =
    packet_delivered (List ℕ) ticks 5 17 parcel sender end (middle ∷ []) (ip 172 16 0 3) 3 refl refl
      route_found (omega arith) (omega arith) on_the_way refl (no_chunks (composite_key 3 17))

-- A node that hears node 3 too.
abbrev beside : MeshNode Edges
beside = record (lone 5) { ipaddr = some (ip 172 16 0 5) }

overheard_panics_example :
    (n' b' : MeshNode Edges) × (handle_tun_ip sender 17 parcel ≡ ok n')
    × (hear_all (List ℕ) ticks 5 beside (news sender n') ≡ ok b')
    × (hear_all (List ℕ) ticks 5 middle (news beside b') ≡ panic local_destination)
overheard_panics_example =
    overheard_panics (List ℕ) ticks 5 17 parcel sender beside middle (ip 172 16 0 3) 3 (9 ∷ []) refl
      refl route_found (omega arith) (omega arith) (omega arith) (λ e. omega (arith, e))
      (inr (ip 172 16 0 5, refl, refl)) (inr (ip 172 16 0 7, refl, refl))
      (no_chunks (composite_key 3 17)) (no_chunks (composite_key 3 17))
