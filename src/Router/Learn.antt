-- ===== src/Router/Learn.antt =====
-- What `handle_broadcast` of src/stack/router.rs changes of the router, and what it leaves.
use lora_mesh_rs.Prelude.{
  ℕ, suc, ◌≡◌, refl, sym, ap, ◌∙◌, Bool, List, [], ◌∷◌, Option, none, some, arith, subst, byte_eq,
  get_last?,
}
use lora_mesh_rs.Prelude.Outcome.{
  Outcome, ok, err, panic, diverges, missing_header, empty_route, ◌>>=◌, expect, expect_inv, ok_inj,
  bind_inv,
}
use lora_mesh_rs.Prelude.HashMap
use lora_mesh_rs.Util.{Ipv4Addr, ip_eq}
use lora_mesh_rs.Frame.{FrameHeader}
use lora_mesh_rs.Message.Broadcast.{BroadcastMessage}
use lora_mesh_rs.Router.{
  MeshRouter, Clock, answer, learn, note_gateway, note_ip, observe_route, add_windows, edge_add,
  node_add, node_observe_put, handle_broadcast,
}
use lora_mesh_rs.Router.Graph.{GraphCrate}

module _ {G : Type 0} where
  -- What the graph and the observations do not touch.
  pub record Kept (r s : MeshRouter G) : Type 0 where
    pub id2ip_is : s.id2ip ≡ r.id2ip
    pub ip2id_is : s.ip2id ≡ r.ip2id
    pub nodeid_is : s.nodeid ≡ r.nodeid
    pub isgateway_is : s.isgateway ≡ r.isgateway

  Kept-trans : (r s t : MeshRouter G) → Kept r s → Kept s t → Kept r t
  Kept-trans r s t h k = record {
    id2ip_is = k.id2ip_is ∙ h.id2ip_is;
    ip2id_is = k.ip2id_is ∙ h.ip2id_is;
    nodeid_is = k.nodeid_is ∙ h.nodeid_is;
    isgateway_is = k.isgateway_is ∙ h.isgateway_is;
  }

  nodeid-note_ip :
      (r : MeshRouter G) (addr : Option Ipv4Addr) (n : ℕ) → (note_ip r addr n).nodeid ≡ r.nodeid
  unfolding note_ip
  nodeid-note_ip r none n = refl
  nodeid-note_ip r (some x) n = refl

  nodeid-answer :
      (r : MeshRouter G) (b : BroadcastMessage) (n : ℕ) → (answer r b n).0.nodeid ≡ r.nodeid
  unfolding answer
  nodeid-answer r b n = ground arith

module _ {G : Type 0} ⦃gc : GraphCrate G⦄ where
  observe_route-Kept :
      (clock : Clock) (i : ℕ) (r : MeshRouter G) (route : List ℕ)
      → Kept r (observe_route clock i r route)
  unfolding observe_route
  observe_route-Kept clock i r [] = ground arith
  observe_route-Kept clock i r (n ∷ route) =
      let k =
        observe_route-Kept clock (suc i) (node_add (node_observe_put r n (clock i)) n) route in
      record {
        id2ip_is = k.id2ip_is;
        ip2id_is = k.ip2id_is;
        nodeid_is = k.nodeid_is;
        isgateway_is = k.isgateway_is;
      }

  add_windows-Kept : (r : MeshRouter G) (route : List ℕ) → Kept r (add_windows r route)
  unfolding add_windows
  add_windows-Kept r [] = ground arith
  add_windows-Kept r (a ∷ []) = ground arith
  add_windows-Kept r (a ∷ b ∷ route) =
      let k = add_windows-Kept (edge_add r a b) (b ∷ route) in
      record {
        id2ip_is = k.id2ip_is;
        ip2id_is = k.ip2id_is;
        nodeid_is = k.nodeid_is;
        isgateway_is = k.isgateway_is;
      }

  -- The router that has learned of a route whose last node is `last`.
  abbrev pub mapped : Clock → MeshRouter G → BroadcastMessage → ℕ → List ℕ → ℕ → MeshRouter G
  mapped clock r b srcid route last =
      let r4 = add_windows (note_ip (observe_route clock 0 r route) b.ipaddr srcid) route in
      edge_add r4 r4.nodeid last

  pub note_gateway_inv :
      (r r1 : MeshRouter G) (b : BroadcastMessage) (srcid : ℕ)
      → note_gateway r b srcid ≡ ok r1
      → Kept r r1 × (r1.graph ≡ r.graph) × (r1.observations ≡ r.observations)
  unfolding note_gateway
  note_gateway_inv r r1 b srcid h = ground arith

  learn_from_inv :
      (clock : Clock) (b : BroadcastMessage) (srcid : ℕ) (route : List ℕ) (r' : MeshRouter G)
      (noted : Outcome (MeshRouter G)) (l : Option ℕ)
      → (do r1 ← noted; last ← expect l empty_route; ok (mapped clock r1 b srcid route last))
        ≡ ok r'
      → (r1 : MeshRouter G) × (last : ℕ) × (noted ≡ ok r1)
        × (l ≡ some last)
        × (r' ≡ mapped clock r1 b srcid route last)
  learn_from_inv clock b srcid route r' (ok r1) none h = cc
  learn_from_inv clock b srcid route r' (ok r1) (some last) h =
      (r1, last, refl, refl, sym (ok_inj h))
  learn_from_inv clock b srcid route r' (err x) l h = cc
  learn_from_inv clock b srcid route r' (panic x) l h = cc
  learn_from_inv clock b srcid route r' diverges l h = cc

  pub learn_inv :
      (clock : Clock) (r r' : MeshRouter G) (b : BroadcastMessage) (srcid : ℕ) (route : List ℕ)
      → learn clock r b srcid route ≡ ok r'
      → (r1 : MeshRouter G) × (last : ℕ) × (note_gateway r b srcid ≡ ok r1)
        × (get_last? route ≡ some last)
        × (r' ≡ mapped clock r1 b srcid route last)
  unfolding learn
  learn_inv clock r r' b srcid route h =
      learn_from_inv clock b srcid route r' (note_gateway r b srcid) (get_last? route) h

  note_ip-Kept :
      (r s : MeshRouter G) (addr : Option Ipv4Addr) (n : ℕ)
      → Kept r s
      → Kept (note_ip r addr n) (note_ip s addr n)
  unfolding note_ip
  note_ip-Kept r s none n k = k
  note_ip-Kept r s (some x) n k = record {
    id2ip_is = ap (HashMap.insert n x) k.id2ip_is;
    ip2id_is = ap (HashMap.insert x n) k.ip2id_is;
    nodeid_is = k.nodeid_is;
    isgateway_is = k.isgateway_is;
  }

  mapped-Kept :
      (clock : Clock) (r r1 : MeshRouter G) (b : BroadcastMessage) (srcid : ℕ) (route : List ℕ)
      (last : ℕ)
      → Kept r r1
      → Kept (note_ip r b.ipaddr srcid) (mapped clock r1 b srcid route last)
  unfolding edge_add
  mapped-Kept clock r r1 b srcid route last k =
      let r2 = observe_route clock 0 r1 route in
      let r3 = note_ip r2 b.ipaddr srcid in
      let noted =
        note_ip-Kept r r2 b.ipaddr srcid
          (Kept-trans r r1 r2 k (observe_route-Kept clock 0 r1 route)) in
      let all =
        Kept-trans (note_ip r b.ipaddr srcid) r3 (add_windows r3 route) noted
          (add_windows-Kept r3 route) in
      record {
        id2ip_is = all.id2ip_is;
        ip2id_is = all.ip2id_is;
        nodeid_is = all.nodeid_is;
        isgateway_is = all.isgateway_is;
      }

  -- The node whose edge to the end of the route is added is the router's own.
  pub mapped_nodeid :
      (clock : Clock) (r : MeshRouter G) (b : BroadcastMessage) (srcid : ℕ) (route : List ℕ)
      → (add_windows (note_ip (observe_route clock 0 r route) b.ipaddr srcid) route).nodeid
        ≡ r.nodeid
  mapped_nodeid clock r b srcid route =
      let r2 = observe_route clock 0 r route in
      (add_windows-Kept (note_ip r2 b.ipaddr srcid) route).nodeid_is
      ∙ nodeid-note_ip r2 b.ipaddr srcid
      ∙ (observe_route-Kept clock 0 r route).nodeid_is

  -- The tables after `learn` are those before it, with the announced address written.
  pub learn_tables :
      (clock : Clock) (r r' : MeshRouter G) (b : BroadcastMessage) (srcid : ℕ) (route : List ℕ)
      → learn clock r b srcid route ≡ ok r'
      → Kept (note_ip r b.ipaddr srcid) r'
  learn_tables clock r r' b srcid route h =
      let (r1, last, noted, _, is) = learn_inv clock r r' b srcid route h in
      let k = (note_gateway_inv r r1 b srcid noted).0 in
      subst (λ s. Kept (note_ip r b.ipaddr srcid) s) (sym is)
        (mapped-Kept clock r r1 b srcid route last k)

-- A broadcast that is handled has a header, and its router is the learned one with the answer.
pub handle_broadcast_inv :
    {G : Type 0} ⦃gc : GraphCrate G⦄ (clock : Clock) (r r' : MeshRouter G) (b : BroadcastMessage)
    (route : List ℕ) (given : Option (Ipv4Addr × Bool))
    → handle_broadcast clock r b route ≡ ok (r', given)
    → (h : FrameHeader) × (s : MeshRouter G) × (b.header ≡ some h)
      × (learn clock r b h.sender route ≡ ok s)
      × (answer s b h.sender ≡ (r', given))
unfolding handle_broadcast
handle_broadcast_inv clock r r' b route given h =
    let (hd, eh, rest) = bind_inv (expect b.header missing_header) _ h in
    let (s, es, done) = bind_inv (learn clock r b hd.sender route) _ rest in
    (hd, s, expect_inv b.header missing_header hd eh, es, ok_inj done)

-- The router stays that of its node.
pub nodeid-handle_broadcast :
    {G : Type 0} ⦃gc : GraphCrate G⦄ (clock : Clock) (r r' : MeshRouter G) (b : BroadcastMessage)
    (route : List ℕ) (given : Option (Ipv4Addr × Bool))
    → handle_broadcast clock r b route ≡ ok (r', given)
    → r'.nodeid ≡ r.nodeid
nodeid-handle_broadcast {G} clock r r' b route given done =
    let (h, s, _, learned, answered) = handle_broadcast_inv clock r r' b route given done in
    ap (λ (q : MeshRouter G × Option (Ipv4Addr × Bool)). q.0.nodeid) (sym answered)
    ∙ nodeid-answer s b h.sender
    ∙ (learn_tables clock r s b h.sender route learned).nodeid_is
    ∙ nodeid-note_ip r b.ipaddr h.sender
