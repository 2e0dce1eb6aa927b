-- ===== src/Router/Graph.antt =====
-- `UnGraphMap` and the algorithms of the crate `petgraph`, which is not part of the repository: an
-- interface with the documented behaviour that the theorems use.
use lora_mesh_rs.Prelude.{
  ℕ, ◌≡◌, Bool, true, false, ◌&&◌, ◌||◌, List, [], ◌∷◌, Option, some, ◌==◌, if◌then◌else◌,
}
use lora_mesh_rs.Prelude.Outcome.{Outcome, ok}

-- The undirected edge a - b is the edge c - d.
abbrev pub same_edge : ℕ → ℕ → ℕ → ℕ → Bool
same_edge a b c d = a == c && b == d || (a == d && b == c)

-- A walk over neighbours that starts at `a`, and ends where `goal` holds.
abbrev pub IsWalk : (ℕ → ℕ → Bool) → (ℕ → Bool) → ℕ → List ℕ → Type 0
IsWalk edge goal a [] = ⊥
IsWalk edge goal a (b ∷ []) = (a ≡ b) × (goal b ≡ true)
IsWalk edge goal a (b ∷ c ∷ path) = (a ≡ b) × (edge b c ≡ true) × IsWalk edge goal c (c ∷ path)

pub record GraphCrate (G : Type 0) : Type 0 where
  pub new : G
  pub add_node : G → ℕ → G
  pub add_edge : G → ℕ → ℕ → ℕ → G
  pub remove_node : G → ℕ → G
  -- `UnGraphMap::from_elements(min_spanning_tree(&graph))`
  pub spanning_tree : G → G
  -- the addition of the type of the costs, start, goal test, edge cost of (source, target, weight),
  -- estimate: the cost and the path
  pub astar :
      (ℕ → ℕ → Outcome ℕ)
      → G
      → ℕ
      → (ℕ → Bool)
      → (ℕ × ℕ × ℕ → ℕ)
      → (ℕ → ℕ)
      → Outcome (Option (ℕ × List ℕ))
  pub contains_edge : G → ℕ → ℕ → Bool
  pub contains_edge-new : (a b : ℕ) → contains_edge new a b ≡ false
  pub contains_edge-add_node :
      (g : G) (n a b : ℕ) → contains_edge (add_node g n) a b ≡ contains_edge g a b
  pub contains_edge-add_edge :
      (g : G) (a b w c d : ℕ)
      → contains_edge (add_edge g a b w) c d ≡ (same_edge a b c d || contains_edge g c d)
  pub contains_edge-remove_node :
      (g : G) (n a b : ℕ)
      → contains_edge (remove_node g n) a b
        ≡ (if a == n || b == n then false else contains_edge g a b)
  pub spanning_tree_sub :
      (g : G) (a b : ℕ) → contains_edge (spanning_tree g) a b ≡ true → contains_edge g a b ≡ true
  pub astar_walk :
      (add : ℕ → ℕ → Outcome ℕ) (g : G) (start : ℕ) (goal : ℕ → Bool) (cost : ℕ × ℕ × ℕ → ℕ)
      (estimate : ℕ → ℕ) (c : ℕ) (path : List ℕ)
      → astar add g start goal cost estimate ≡ ok (some (c, path))
      → IsWalk (contains_edge g) goal start path
