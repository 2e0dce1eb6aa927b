-- ===== src/Router/Edges.antt =====
-- The edges that `handle_broadcast` and `route_add` of src/stack/router.rs put into the graph.
use lora_mesh_rs.Prelude.{
  ℕ, suc, ◌≡◌, refl, sym, ap, ◌∙◌, Bool, false, ◌||◌, List, [], ◌∷◌, Option, none, some, arith,
  get_last?,
}
use lora_mesh_rs.Prelude.Outcome.{ok}
use lora_mesh_rs.Util.{Ipv4Addr}
use lora_mesh_rs.Message.Broadcast.{BroadcastMessage}
use lora_mesh_rs.Router.{
  MeshRouter, Clock, answer, note_ip, observe_route, add_windows, edge_add, node_add,
  node_observe_put, handle_broadcast,
}
use lora_mesh_rs.Router.Graph.{GraphCrate, same_edge}
use lora_mesh_rs.Router.Learn.{
  mapped, learn_inv, note_gateway_inv, handle_broadcast_inv, mapped_nodeid,
}

-- c - d joins two neighbours on the route.
abbrev pub on_route : List ℕ → ℕ → ℕ → Bool
on_route [] c d = false
on_route (a ∷ []) c d = false
on_route (a ∷ b ∷ route) c d = same_edge a b c d || on_route (b ∷ route) c d

-- c - d is one of the edges.
abbrev pub among : List (ℕ × ℕ) → ℕ → ℕ → Bool
among [] c d = false
among ((a, b) ∷ edges) c d = same_edge a b c d || among edges c d

module _ {G : Type 0} ⦃gc : GraphCrate G⦄ where
  abbrev pub linked : MeshRouter G → ℕ → ℕ → Bool
  linked r c d = gc.contains_edge r.graph c d

  linked-observe_route :
      (clock : Clock) (i : ℕ) (r : MeshRouter G) (route : List ℕ) (c d : ℕ)
      → linked (observe_route clock i r route) c d ≡ linked r c d
  unfolding observe_route
  linked-observe_route clock i r [] c d = refl
  linked-observe_route clock i r (n ∷ route) c d =
      linked-observe_route clock (suc i) (node_add (node_observe_put r n (clock i)) n) route c d
      ∙ gc.contains_edge-add_node r.graph n c d

  linked-add_windows :
      (r : MeshRouter G) (route : List ℕ) (c d : ℕ)
      → linked (add_windows r route) c d ≡ (on_route route c d || linked r c d)
  unfolding add_windows
  linked-add_windows r [] c d = refl
  linked-add_windows r (a ∷ []) c d = refl
  linked-add_windows r (a ∷ b ∷ route) c d = ground (
    arith,
    linked-add_windows (edge_add r a b) (b ∷ route) c d,
    gc.contains_edge-add_edge r.graph a b 1 c d,
  )

  linked-note_ip :
      (r : MeshRouter G) (addr : Option Ipv4Addr) (n c d : ℕ)
      → linked (note_ip r addr n) c d ≡ linked r c d
  unfolding note_ip
  linked-note_ip r none n c d = refl
  linked-note_ip r (some x) n c d = refl

  linked-answer :
      (r : MeshRouter G) (b : BroadcastMessage) (n c d : ℕ)
      → linked (answer r b n).0 c d ≡ linked r c d
  unfolding answer
  linked-answer r b n c d = ground arith

  linked-mapped :
      (clock : Clock) (r : MeshRouter G) (b : BroadcastMessage) (n : ℕ) (route : List ℕ)
      (last c d : ℕ)
      → linked (mapped clock r b n route last) c d
        ≡ (same_edge r.nodeid last c d || (on_route route c d || linked r c d))
  unfolding edge_add
  linked-mapped clock r b n route last c d =
      let r2 = observe_route clock 0 r route in
      let r3 = note_ip r2 b.ipaddr n in
      let r4 = add_windows r3 route in
      rw (
        gc.contains_edge-add_edge r4.graph r4.nodeid last 1 c d,
        mapped_nodeid clock r b n route,
        linked-add_windows r3 route c d,
        linked-note_ip r2 b.ipaddr n c d,
        linked-observe_route clock 0 r route c d,
      )

  same_start :
      (r r1 : MeshRouter G) (x : Bool) (last c d : ℕ)
      → r1.nodeid ≡ r.nodeid
      → r1.graph ≡ r.graph
      → (same_edge r1.nodeid last c d || (x || linked r1 c d))
        ≡ (same_edge r.nodeid last c d || (x || linked r c d))
  same_start r r1 x last c d n g =
      λ i. same_edge (n i) last c d || (x || gc.contains_edge (g i) c d)

  -- Where `handle_broadcast` ends well, the route has a last node, and the graph has exactly the
  -- edges that it had, those between neighbours on the route, and one from this node to that last
  -- node.
  pub handle_broadcast_edges :
      (clock : Clock) (r r' : MeshRouter G) (b : BroadcastMessage) (route : List ℕ)
      (given : Option (Ipv4Addr × Bool))
      → handle_broadcast clock r b route ≡ ok (r', given)
      → (last : ℕ) × (get_last? route ≡ some last)
        × ((c d : ℕ)
            → linked r' c d ≡ (same_edge r.nodeid last c d || (on_route route c d || linked r c d)))
  handle_broadcast_edges clock r r' b route given done =
      let (h, s, _, learned, answered) = handle_broadcast_inv clock r r' b route given done in
      let (r1, last, noted, ends, is) = learn_inv clock r s b h.sender route learned in
      let (kept, graph_is, _) = note_gateway_inv r r1 b h.sender noted in
      (
        last,
        ends,
        λ c d.
            ap (λ (p : MeshRouter G × Option (Ipv4Addr × Bool)). linked p.0 c d) (sym answered)
            ∙ linked-answer s b h.sender c d
            ∙ ap (λ (t : MeshRouter G). linked t c d) is
            ∙ linked-mapped clock r1 b h.sender route last c d
            ∙ same_start r r1 (on_route route c d) last c d kept.nodeid_is graph_is,
      )
