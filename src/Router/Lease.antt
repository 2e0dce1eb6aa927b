-- ===== src/Router/Lease.antt =====
-- The addresses that `ip_assign` of src/stack/router.rs hands out, and the tables of addresses.
use lora_mesh_rs.Prelude.{
  ℕ, ◌≡◌, sym, ap, ◌∙◌, Bool, true, false, ◌⊎◌, inl, inr, List, Option, none, some, arith, subst,
  byte_eq, Option-cases,
}
use lora_mesh_rs.Prelude.Outcome.{ok}
use lora_mesh_rs.Prelude.HashMap
use lora_mesh_rs.Prelude.HashMap.{HashMap, get-insert, get-insert_self}
use lora_mesh_rs.Util.{Ipv4Addr, ip, ip_eq, ip_beq_iff}
use lora_mesh_rs.Frame.{FrameHeader}
use lora_mesh_rs.Message.Broadcast.{BroadcastMessage}
use lora_mesh_rs.Router.{MeshRouter, Clock, ip_assign, record_ip, answer, note_ip, handle_broadcast}
use lora_mesh_rs.Router.Graph.{GraphCrate}
use lora_mesh_rs.Router.Learn.{learn_tables, handle_broadcast_inv}

-- The address that the gateway makes for a node.
abbrev pub leased : ℕ → Ipv4Addr
leased nodeid = ip 172 16 0 nodeid

-- Both tables hold only the made addresses, each for its node, and agree with one another.
pub record AreLeases (id2ip : HashMap ℕ Ipv4Addr) (ip2id : HashMap Ipv4Addr ℕ) : Type 0 where
  pub by_id : (n : ℕ) (x : Ipv4Addr) → HashMap.get n id2ip ≡ some x → x ≡ leased n
  pub by_ip : (n : ℕ) (x : Ipv4Addr) → HashMap.get x ip2id ≡ some n → x ≡ leased n
  pub both : (n : ℕ) (x : Ipv4Addr) → HashMap.get n id2ip ≡ some x → HashMap.get x ip2id ≡ some n

abbrev pub IsLeasing : {G : Type 0} → MeshRouter G → Type 0
IsLeasing r = AreLeases r.id2ip r.ip2id

module _ {G : Type 0} where
  pub record_ip-IsLeasing :
      (r : MeshRouter G) (n : ℕ) → IsLeasing r → IsLeasing (record_ip r n (leased n))
  unfolding record_ip
  record_ip-IsLeasing r n v = record {
    by_id = λ m x h. ground (arith, get-insert n m (leased n) r.id2ip, v.by_id m x);
    by_ip = λ m x h.
        ground (arith, get-insert (leased n) x n r.ip2id, v.by_ip m x, ip_beq_iff (leased n) x);
    both = λ m x h. ground (
      arith,
      get-insert n m (leased n) r.id2ip,
      get-insert (leased n) x n r.ip2id,
      v.both m x,
      v.by_id m x,
    );
  }

  ip_assign-known :
      (r : MeshRouter G) (n : ℕ) (x : Ipv4Addr)
      → HashMap.get n r.id2ip ≡ some x
      → ip_assign r n ≡ (r, (x, false))
  unfolding ip_assign
  ip_assign-known r n x h = rw (h, ip_assign)

  pub ip_assign-unknown :
      (r : MeshRouter G) (n : ℕ)
      → HashMap.get n r.id2ip ≡ none
      → ip_assign r n ≡ (record_ip r n (leased n), (leased n, true))
  unfolding ip_assign
  ip_assign-unknown r n h = rw (h, ip_assign)

  pub get-record_ip :
      (r : MeshRouter G) (n : ℕ) (x : Ipv4Addr) → HashMap.get n (record_ip r n x).id2ip ≡ some x
  unfolding record_ip
  get-record_ip r n x = get-insert_self n x r.id2ip

  ip_assign-IsLeasing : (r : MeshRouter G) (n : ℕ) → IsLeasing r → IsLeasing (ip_assign r n).0
  ip_assign-IsLeasing r n v = elim (Option-cases (HashMap.get n r.id2ip)) [
    | inl e ↦ rw (ip_assign-unknown r n e) (record_ip-IsLeasing r n v)
    | inr (x, e) ↦ rw (ip_assign-known r n x e) v
  ]

  ip_assign-leased : (r : MeshRouter G) (n : ℕ) → IsLeasing r → (ip_assign r n).1.0 ≡ leased n
  ip_assign-leased r n v = elim (Option-cases (HashMap.get n r.id2ip)) [
    | inl e ↦ rw (ip_assign-unknown r n e)
    | inr (x, e) ↦ rw (ip_assign-known r n x e) (v.by_id n x e)
  ]

  -- In tables that hold only leases, each of its node: if the addresses given to two nodes in turn
  -- are equal, the nodes are the same.
  pub ip_assign_unique :
      (r : MeshRouter G) (m n : ℕ)
      → IsLeasing r
      → (ip_assign r m).1.0 ≡ (ip_assign (ip_assign r m).0 n).1.0
      → m ≡ n
  ip_assign_unique r m n v same =
      ap (λ (x : Ipv4Addr). x.d)
        (sym (ip_assign-leased r m v)
          ∙ same
          ∙ ip_assign-leased (ip_assign r m).0 n (ip_assign-IsLeasing r m v))

  answer-IsLeasing :
      (r : MeshRouter G) (b : BroadcastMessage) (n : ℕ) → IsLeasing r → IsLeasing (answer r b n).0
  unfolding answer
  answer-IsLeasing r b n v = ground (arith, ip_assign-IsLeasing r n v)

  note_ip-IsLeasing :
      (r : MeshRouter G) (addr : Option Ipv4Addr) (n : ℕ)
      → (addr ≡ none) ⊎ (addr ≡ some (leased n))
      → IsLeasing r
      → IsLeasing (note_ip r addr n)
  unfolding note_ip
  note_ip-IsLeasing r none n a v = v
  note_ip-IsLeasing r (some x) n a v =
      let e : leased n ≡ x = ground arith in
      subst (λ y. IsLeasing (record_ip r n y)) e (record_ip-IsLeasing r n v)

-- A broadcast that has a header, and announces no address or the one that a gateway makes for its
-- sender, leaves tables that hold only leases, each of its node, as such tables, whatever its
-- route and the answer, where `handle_broadcast` ends well.
pub handle_broadcast-IsLeasing :
    {G : Type 0} ⦃gc : GraphCrate G⦄ (clock : Clock) (r r' : MeshRouter G) (b : BroadcastMessage)
    (h : FrameHeader) (route : List ℕ) (given : Option (Ipv4Addr × Bool))
    → b.header ≡ some h
    → (b.ipaddr ≡ none) ⊎ (b.ipaddr ≡ some (leased h.sender))
    → IsLeasing r
    → handle_broadcast clock r b route ≡ ok (r', given)
    → IsLeasing r'
handle_broadcast-IsLeasing clock r r' b h route given eh a v done =
    let (h', s, eh', learned, answered) = handle_broadcast_inv clock r r' b route given done in
    let same : h' ≡ h = cc in
    let k = learn_tables clock r s b h'.sender route learned in
    let told : IsLeasing (note_ip r b.ipaddr h'.sender) =
      note_ip-IsLeasing r b.ipaddr h'.sender (rw same a) v in
    let kept : IsLeasing s = rw (k.id2ip_is, k.ip2id_is) told in
    subst (λ p. IsLeasing p.0) answered (answer-IsLeasing s b h'.sender kept)
