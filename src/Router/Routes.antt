-- ===== src/Router/Routes.antt =====
-- The route that `packet_route` of src/stack/router.rs finds for a packet.
use lora_mesh_rs.Prelude.{
  ℕ, ◌≡◌, refl, ap, Bool, true, List, [], ◌∷◌, Option, none, some, ◌==◌, ==_iff, arith, byte_eq,
  get_last?,
}
use lora_mesh_rs.Prelude.Outcome.{Outcome, ok, err, panic, diverges, ◌>>=◌, ok_inj, some_inj}
use lora_mesh_rs.Prelude.HashMap
use lora_mesh_rs.Frame.{Profile, add_u8}
use lora_mesh_rs.Util.{ip_eq}
use lora_mesh_rs.Message.IpPacket.{PacketCrate}
use lora_mesh_rs.Router.{MeshRouter, edge_cost, find_path, packet_route}
use lora_mesh_rs.Router.Graph.{GraphCrate, IsWalk}

-- Every two neighbours on the route are linked.
abbrev pub IsLinked : (ℕ → ℕ → Bool) → List ℕ → Type 0
IsLinked edge [] = Unit
IsLinked edge (a ∷ []) = Unit
IsLinked edge (a ∷ b ∷ route) = (edge a b ≡ true) × IsLinked edge (b ∷ route)

walk-ends :
    (edge : ℕ → ℕ → Bool) (dest a : ℕ) (path : List ℕ)
    → IsWalk edge (λ f. f == dest) a path
    → ((rest : List ℕ) × (path ≡ a ∷ rest)) × (get_last? path ≡ some dest) × IsLinked edge path
walk-ends edge dest a [] w = absurd w
walk-ends edge dest a (b ∷ []) w = (([], ground arith), ground (arith, ==_iff b dest), tt)
walk-ends edge dest a (b ∷ c ∷ path) w =
    let (_, last, links) = walk-ends edge dest c (c ∷ path) w.2 in
    ((c ∷ path, ground arith), last, (w.1, links))

path_of_inv :
    (m : Outcome (Option (ℕ × List ℕ))) (path : List ℕ)
    → (m >>= λ o.
        ok (elim o as (λ _. Option (List ℕ)) [ none ↦ none | some (cost, found) ↦ some found ]))
      ≡ ok (some path)
    → (cost : ℕ) × (m ≡ ok (some (cost, path)))
path_of_inv (ok none) path h = cc
path_of_inv (ok (some (cost, found))) path h =
    (cost, ap (λ x. ok (some (cost, x))) (some_inj (ok_inj h)))
path_of_inv (err e) path h = cc
path_of_inv (panic x) path h = cc
path_of_inv diverges path h = cc

module _ {G : Type 0} ⦃gc : GraphCrate G⦄ where
  find_path-IsWalk :
      (profile : Profile) (g : G) (src dest : ℕ) (path : List ℕ)
      → find_path profile g (some src) (some dest) ≡ ok (some path)
      → IsWalk (gc.contains_edge g) (λ f. f == dest) src path
  unfolding find_path
  find_path-IsWalk profile g src dest path h =
      let (cost, e) =
        path_of_inv (gc.astar (add_u8 profile) g src (λ f. f == dest) edge_cost (λ _. 0)) path h in
      gc.astar_walk (add_u8 profile) g src (λ f. f == dest) edge_cost (λ _. 0) cost path e

  find_path_inv :
      (profile : Profile) (g : G) (from to : Option ℕ) (path : List ℕ)
      → find_path profile g from to ≡ ok (some path)
      → (src dest : ℕ) × (from ≡ some src)
        × (to ≡ some dest)
        × ((rest : List ℕ) × (path ≡ src ∷ rest))
        × (get_last? path ≡ some dest)
        × IsLinked (gc.contains_edge g) path
  find_path_inv profile g none to path h = unfold find_path in cc
  find_path_inv profile g (some src) none path h = unfold find_path in cc
  find_path_inv profile g (some src) (some dest) path h =
      let (starts, ends, links) =
        walk-ends (gc.contains_edge g) dest src path (find_path-IsWalk profile g src dest path h) in
      (src, dest, refl, refl, starts, ends, links)

module _ {G P : Type 0} ⦃gc : GraphCrate G⦄ ⦃pc : PacketCrate P⦄ where
  -- Where `packet_route` finds a route for a packet, both addresses of the packet belong to nodes,
  -- the route starts at the node of the source and ends at that of the destination, and every two
  -- neighbours on it are linked in the graph.
  pub packet_route_lem :
      (profile : Profile) (r : MeshRouter G) (p : P) (path : List ℕ)
      → packet_route profile r p ≡ ok (some path)
      → (src dest : ℕ) × (HashMap.get (pc.source p) r.ip2id ≡ some src)
        × (HashMap.get (pc.destination p) r.ip2id ≡ some dest)
        × ((rest : List ℕ) × (path ≡ src ∷ rest))
        × (get_last? path ≡ some dest)
        × IsLinked (gc.contains_edge r.graph) path
  unfolding packet_route
  packet_route_lem profile r p path h =
      find_path_inv profile r.graph (HashMap.get (pc.source p) r.ip2id)
        (HashMap.get (pc.destination p) r.ip2id) path h
