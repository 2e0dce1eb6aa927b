-- ===== src/Router/Total.antt =====
-- When `handle_broadcast` of src/stack/router.rs returns.
use lora_mesh_rs.Prelude.{
  ℕ, ◌≡◌, refl, ◌⊎◌, inl, inr, Bool, true, false, not, ◌&&◌, List, [], ◌∷◌, Option, none, some,
  ◌==◌, if◌then◌else◌, get_last?,
}
use lora_mesh_rs.Prelude.Outcome.{ok, missing_header, expect, ◌>>=◌}
use lora_mesh_rs.Util.{Ipv4Addr}
use lora_mesh_rs.Frame.{FrameHeader}
use lora_mesh_rs.Message.Broadcast.{BroadcastMessage}
use lora_mesh_rs.Router.{
  MeshRouter, Clock, answer, learn, note_gateway, note_ip, observe_route, add_windows, edge_add,
  handle_gateway_assignment, handle_broadcast,
}
use lora_mesh_rs.Router.Graph.{GraphCrate}

-- A gateway announces an address.
abbrev pub Announces : BroadcastMessage → Type 0
Announces b = (b.isgateway ≡ false) ⊎ ((addr : Ipv4Addr) × (b.ipaddr ≡ some addr))

last_of : (x : ℕ) (xs : List ℕ) → (last : ℕ) × (get_last? (x ∷ xs) ≡ some last)
last_of x [] = (x, refl)
last_of x (y ∷ ys) = last_of y ys

-- A test before `ok` is a test under it.
either : {A : Type 0} (c : Bool) (x y : A) → (if c then ok y else ok x) ≡ ok (if c then y else x)
either true x y = refl
either false x y = refl

module _ {G : Type 0} where
  note_gateway_total :
      (r : MeshRouter G) (b : BroadcastMessage) (srcid : ℕ)
      → Announces b
      → (r' : MeshRouter G) × (note_gateway r b srcid ≡ ok r')
  unfolding note_gateway
  note_gateway_total r b srcid (inl plain) = (r, rw plain)
  note_gateway_total r b srcid (inr (addr, e)) = (
    if b.isgateway && not (srcid == r.nodeid) then handle_gateway_assignment r addr else r,
    rw e (either (b.isgateway && not (srcid == r.nodeid)) r (handle_gateway_assignment r addr)),
  )

module _ {G : Type 0} ⦃gc : GraphCrate G⦄ where
  pub learn_total :
      (clock : Clock) (r : MeshRouter G) (b : BroadcastMessage) (srcid first : ℕ) (rest : List ℕ)
      → Announces b
      → (s : MeshRouter G) × (learn clock r b srcid (first ∷ rest) ≡ ok s)
  unfolding learn
  learn_total clock r b srcid first rest a =
      let (r1, noted) = note_gateway_total r b srcid a in
      let (last, ends) = last_of first rest in
      let r2 = observe_route clock 0 r1 (first ∷ rest) in
      let r4 = add_windows (note_ip r2 b.ipaddr srcid) (first ∷ rest) in
      (edge_add r4 r4.nodeid last, rw (noted, ends))

  with_header :
      (clock : Clock) (r : MeshRouter G) (b : BroadcastMessage) (o : Option FrameHeader)
      (h : FrameHeader) (first : ℕ) (rest : List ℕ)
      → o ≡ some h
      → Announces b
      → (r' : MeshRouter G) × (given : Option (Ipv4Addr × Bool)) × ((expect o missing_header
            >>= λ k. learn clock r b k.sender (first ∷ rest) >>= λ s. ok (answer s b k.sender))
          ≡ ok (r', given))
  with_header clock r b none h first rest e a = absurd (cc)
  with_header clock r b (some k) h first rest e a =
      let (s, learned) = learn_total clock r b k.sender first rest a in
      ((answer s b k.sender).0, (answer s b k.sender).1, rw learned)

  -- A broadcast that has a header, a route that is not empty, and an address if it is that of a
  -- gateway, is handled: `handle_broadcast` returns, without a panic and without an `Err`.
  pub handle_broadcast_total :
      (clock : Clock) (r : MeshRouter G) (b : BroadcastMessage) (h : FrameHeader) (first : ℕ)
      (rest : List ℕ)
      → b.header ≡ some h
      → Announces b
      → (r' : MeshRouter G) × (given : Option (Ipv4Addr × Bool)) × (handle_broadcast clock r b
            (first ∷ rest)
          ≡ ok (r', given))
  unfolding handle_broadcast
  handle_broadcast_total clock r b h first rest e a =
      with_header clock r b b.header h first rest e a
