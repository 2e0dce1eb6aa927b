-- ===== src/Examples/Crates.antt =====
-- Stand-ins for the crates `enumn`, `petgraph` and `packet` and for the machine, which meet the
-- interfaces: a graph is its list of edges, with a search two hops far; a packet is its bytes.
use lora_mesh_rs.Prelude.{
  ℕ, ap, ◌≡◌, refl, sym, Bool, true, false, ◌&&◌, ◌||◌, List, [], ◌∷◌, Option, none, some, ◌==◌,
  arith, if◌then◌else◌, drop, subst, ◌⊎◌, inl, inr, Bool-cases,
}
use lora_mesh_rs.Prelude.Outcome.{Outcome, ok, ◌>>=◌, bind_inv, ok_inj, some_inj}
use lora_mesh_rs.Kinds.{Enumn, sample_enumn}
use lora_mesh_rs.Util.{Ipv4Addr, ip}
use lora_mesh_rs.Frame.{dev}
use lora_mesh_rs.Message.IpPacket.{PacketCrate}
use lora_mesh_rs.Router.Graph.{GraphCrate, same_edge, IsWalk}
use lora_mesh_rs.Tunnel.{Platform}

abbrev pub Edges : Type 0
Edges = List (ℕ × ℕ)

abbrev pub has_edge : Edges → ℕ → ℕ → Bool
has_edge [] c d = false
has_edge ((a, b) ∷ g) c d = same_edge a b c d || has_edge g c d

abbrev pub without : Edges → ℕ → Edges
without [] n = []
without ((a, b) ∷ g) n = if a == n || b == n then without g n else (a, b) ∷ without g n

abbrev pub hop : Edges → ℕ → (ℕ → Bool) → Option ℕ
hop [] start goal = none
hop ((a, b) ∷ g) start goal =
    if a == start && goal b
    then some b
    else if b == start && goal a
    then some a
    else hop g start goal

abbrev behind : ℕ → Option ℕ → Option (ℕ × ℕ)
behind n none = none
behind n (some m) = some (n, m)

-- Over one edge of the list, and then one of the graph.
abbrev over : Edges → ℕ → ℕ → ℕ → (ℕ → Bool) → Option (ℕ × ℕ)
over g a b start goal =
    if a == start
    then behind b (hop g b goal)
    else if b == start
    then behind a (hop g a goal)
    else none

abbrev or_else {ℓ} : {A : Type ℓ} → Option A → Option A → Option A
or_else none y = y
or_else (some a) y = some a

abbrev pub two_hops : Edges → Edges → ℕ → (ℕ → Bool) → Option (ℕ × ℕ)
two_hops g [] start goal = none
two_hops g ((a, b) ∷ edges) start goal =
    or_else (over g a b start goal) (two_hops g edges start goal)

abbrev pub far : ℕ → Option (ℕ × ℕ) → Option (List ℕ)
far start none = none
far start (some (n, m)) = some (start ∷ n ∷ m ∷ [])

abbrev pub near : ℕ → Option ℕ → Option (List ℕ) → Option (List ℕ)
near start none other = other
near start (some n) other = some (start ∷ n ∷ [])

abbrev pub search : Edges → ℕ → (ℕ → Bool) → Option (List ℕ)
search g start goal =
    if goal start
    then some (start ∷ [])
    else near start (hop g start goal) (far start (two_hops g g start goal))

-- The cost of a path, added up from its start.
abbrev pub path_cost : (ℕ → ℕ → Outcome ℕ) → (ℕ × ℕ × ℕ → ℕ) → ℕ → ℕ → List ℕ → Outcome ℕ
path_cost add cost total a [] = ok total
path_cost add cost total a (b ∷ path) = do
  more ← add total (cost (a, b, 1))
  path_cost add cost more b path

abbrev pub cost_of : (ℕ → ℕ → Outcome ℕ) → (ℕ × ℕ × ℕ → ℕ) → List ℕ → Outcome ℕ
cost_of add cost [] = ok 0
cost_of add cost (a ∷ path) = path_cost add cost 0 a path

abbrev pub priced :
    (ℕ → ℕ → Outcome ℕ) → (ℕ × ℕ × ℕ → ℕ) → Option (List ℕ) → Outcome (Option (ℕ × List ℕ))
priced add cost none = ok none
priced add cost (some path) = do total ← cost_of add cost path; ok (some (total, path))

pub priced_inv :
    (add : ℕ → ℕ → Outcome ℕ) (cost : ℕ × ℕ × ℕ → ℕ) (o : Option (List ℕ)) (c : ℕ) (path : List ℕ)
    → priced add cost o ≡ ok (some (c, path))
    → o ≡ some path
priced_inv add cost none c path h = cc
priced_inv add cost (some found) c path h =
    let (total, _, e) = bind_inv (cost_of add cost found) _ h in
    ap (λ (q : ℕ × List ℕ). some q.1) (some_inj (ok_inj e))

pub has_edge-without :
    (g : Edges) (n a b : ℕ)
    → has_edge (without g n) a b ≡ (if a == n || b == n then false else has_edge g a b)
has_edge-without [] n a b = ground arith
has_edge-without ((x, y) ∷ g) n a b = ground (arith, has_edge-without g n a b)

hop_lem :
    (g : Edges) (start n : ℕ) (goal : ℕ → Bool)
    → hop g start goal ≡ some n
    → (has_edge g start n ≡ true) × (goal n ≡ true)
hop_lem [] start n goal h = ground arith
hop_lem ((a, b) ∷ g) start n goal h = ground (arith, hop_lem g start n goal)

behind_inv : (x : ℕ) (o : Option ℕ) (n m : ℕ) → behind x o ≡ some (n, m) → (x ≡ n) × (o ≡ some m)
behind_inv x none n m h = cc
behind_inv x (some k) n m h = (ground arith, ground arith)

over_inv :
    (c d : Bool) (x y : ℕ) (ox oy : Option ℕ) (n m : ℕ)
    → (if c then behind x ox else if d then behind y oy else none) ≡ some (n, m)
    → ((c ≡ true) × (x ≡ n) × (ox ≡ some m)) ⊎ ((d ≡ true) × (y ≡ n) × (oy ≡ some m))
over_inv true d x y ox oy n m h = let (e, f) = behind_inv x ox n m h in inl (refl, e, f)
over_inv false true x y ox oy n m h = let (e, f) = behind_inv y oy n m h in inr (refl, e, f)
over_inv false false x y ox oy n m h = cc

over_lem :
    (g : Edges) (a b start n m : ℕ) (goal : ℕ → Bool)
    → over g a b start goal ≡ some (n, m)
    → (same_edge a b start n ≡ true) × (has_edge g n m ≡ true) × (goal m ≡ true)
over_lem g a b start n m goal h =
    elim (over_inv (a == start) (b == start) b a (hop g b goal) (hop g a goal) n m h) [
      | inl (first, e, found) ↦
          let (edge, done) = hop_lem g b m goal found in
          (ground arith, subst (λ x. has_edge g x m ≡ true) e edge, done)
      | inr (second, e, found) ↦
          let (edge, done) = hop_lem g a m goal found in
          (ground arith, subst (λ x. has_edge g x m ≡ true) e edge, done)
    ]

or_true : (x y : Bool) → y ≡ true → (x || y) ≡ true
or_true true y h = refl
or_true false y h = h

or_else_inv {ℓ} :
    {A : Type ℓ} (x y : Option A) (a : A) → or_else x y ≡ some a → (x ≡ some a) ⊎ (y ≡ some a)
or_else_inv none y a h = inr h
or_else_inv (some b) y a h = inl h

two_hops_lem :
    (g edges : Edges) (start n m : ℕ) (goal : ℕ → Bool)
    → ((c d : ℕ) → has_edge edges c d ≡ true → has_edge g c d ≡ true)
    → two_hops g edges start goal ≡ some (n, m)
    → (has_edge g start n ≡ true) × (has_edge g n m ≡ true) × (goal m ≡ true)
two_hops_lem g [] start n m goal sub h = cc
two_hops_lem g ((a, b) ∷ edges) start n m goal sub h =
    elim (or_else_inv (over g a b start goal) (two_hops g edges start goal) (n, m) h) [
      | inl first ↦
          let (edge, links, done) = over_lem g a b start n m goal first in
          (sub start n (rw edge), links, done)
      | inr later ↦
          two_hops_lem g edges start n m goal (λ c d x. sub c d (or_true (same_edge a b c d) _ x))
            later
    ]

far-IsWalk :
    (g : Edges) (start : ℕ) (goal : ℕ → Bool) (o : Option (ℕ × ℕ)) (path : List ℕ)
    → two_hops g g start goal ≡ o
    → far start o ≡ some path
    → IsWalk (has_edge g) goal start path
far-IsWalk g start goal none path e h = cc
far-IsWalk g start goal (some (n, m)) path e h =
    let (first, second, done) = two_hops_lem g g start n m goal (λ a b x. x) e in
    let same : start ∷ n ∷ m ∷ [] ≡ path = ground arith in
    subst (IsWalk (has_edge g) goal start) same (refl, first, (refl, second, (refl, done)))

near-IsWalk :
    (g : Edges) (start : ℕ) (goal : ℕ → Bool) (o : Option ℕ) (path : List ℕ)
    → hop g start goal ≡ o
    → near start o (far start (two_hops g g start goal)) ≡ some path
    → IsWalk (has_edge g) goal start path
near-IsWalk g start goal none path e h =
    far-IsWalk g start goal (two_hops g g start goal) path refl h
near-IsWalk g start goal (some n) path e h =
    let (edge, done) = hop_lem g start n goal e in
    let same : start ∷ n ∷ [] ≡ path = ground arith in
    subst (IsWalk (has_edge g) goal start) same (refl, edge, (refl, done))

pub search-IsWalk :
    (g : Edges) (start : ℕ) (goal : ℕ → Bool) (path : List ℕ)
    → search g start goal ≡ some path
    → IsWalk (has_edge g) goal start path
search-IsWalk g start goal path h = elim (Bool-cases (goal start)) [
  | inl here ↦
      let same : start ∷ [] ≡ path = ground arith in
      subst (IsWalk (has_edge g) goal start) same (refl, here)
  | inr away ↦ near-IsWalk g start goal (hop g start goal) path refl (ground arith)
]

instance abbrev pub graphs : GraphCrate Edges
graphs = record {
  new = [];
  add_node = λ g n. g;
  add_edge = λ g a b weight. (a, b) ∷ g;
  remove_node = without;
  spanning_tree = λ g. g;
  astar = λ add g start goal cost estimate. priced add cost (search g start goal);
  contains_edge = has_edge;
  contains_edge-new = λ a b. refl;
  contains_edge-add_node = λ g n a b. refl;
  contains_edge-add_edge = λ g a b w c d. refl;
  contains_edge-remove_node = has_edge-without;
  spanning_tree_sub = λ g a b h. h;
  astar_walk = λ add g start goal cost estimate c path h.
      search-IsWalk g start goal path (priced_inv add cost (search g start goal) c path h);
}

instance abbrev pub the_enums : Enumn
the_enums = sample_enumn

instance abbrev pub the_machine : Platform
the_machine = record { profile = dev; succeeds = λ ran command. true }

abbrev pub address_at : List ℕ → Ipv4Addr
address_at (a ∷ b ∷ c ∷ d ∷ rest) = ip a b c d
address_at _ = ip 0 0 0 0

instance abbrev pub packets : PacketCrate (List ℕ)
packets = record {
  new = λ bytes. some bytes;
  as_ref = λ p. p;
  source = λ p. address_at (drop 12 p);
  destination = λ p. address_at (drop 16 p);
  new-as_ref = λ p. refl;
  as_ref-new = λ bytes p h. some_inj (sym h);
}
