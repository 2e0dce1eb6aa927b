-- ===== src/Router/Offers.antt =====
-- The addresses that `handle_broadcast` of src/stack/router.rs gives.
use lora_mesh_rs.Prelude.{
  ℕ, ◌≡◌, refl, subst, Bool, true, false, List, Option, none, some, ◌&&◌, ◌==◌, if◌then◌else◌,
  bytes_eq, byte_eq,
}
use lora_mesh_rs.Prelude.Outcome.{ok, bind_inv, ok_inj, expect, missing_header}
use lora_mesh_rs.Prelude.HashMap
use lora_mesh_rs.Util.{Ipv4Addr, ip, is_private}
use lora_mesh_rs.Message.Broadcast.{BroadcastMessage}
use lora_mesh_rs.Router.{MeshRouter, Clock, record_ip, ip_assign, answer, learn, handle_broadcast}
use lora_mesh_rs.Router.Graph.{GraphCrate}

-- A new address that is given is private.
abbrev pub IsOffer : Option (Ipv4Addr × Bool) → Type 0
IsOffer none = Unit
IsOffer (some (addr, isnew)) = isnew ≡ true → is_private addr ≡ true

module _ {G : Type 0} where
  assigned-IsOffer :
      (r : MeshRouter G) (nodeid : ℕ) (known : Option Ipv4Addr)
      → IsOffer (
          some
            (elim known as (λ _. MeshRouter G × (Ipv4Addr × Bool)) [
              | none ↦ (record_ip r nodeid (ip 172 16 0 nodeid), (ip 172 16 0 nodeid, true))
              | some addr ↦ (r, (addr, false))
            ]).1)
  unfolding is_private
  assigned-IsOffer r nodeid none h = refl
  assigned-IsOffer r nodeid (some addr) h = cc

  answer_if-IsOffer :
      (c : Bool) (r : MeshRouter G) (nodeid : ℕ)
      → IsOffer
          (if◌then◌else◌ {A = MeshRouter G × Option (Ipv4Addr × Bool)} c
            (let (r', given) = ip_assign r nodeid in (r', some given))
            (r, none)).1
  unfolding ip_assign
  answer_if-IsOffer true r nodeid = assigned-IsOffer r nodeid (HashMap.get nodeid r.id2ip)
  answer_if-IsOffer false r nodeid = tt

module _ {G : Type 0} ⦃gc : GraphCrate G⦄ where
  pub handle_broadcast-IsOffer :
      (clock : Clock) (r : MeshRouter G) (b : BroadcastMessage) (route : List ℕ) (s : MeshRouter G)
      (given : Option (Ipv4Addr × Bool))
      → handle_broadcast clock r b route ≡ ok (s, given)
      → IsOffer given
  unfolding handle_broadcast answer
  handle_broadcast-IsOffer clock r b route s given h =
      let (header, _, d1) = bind_inv (expect b.header missing_header) _ h in
      let (r', _, d2) = bind_inv (learn clock r b header.sender route) _ d1 in
      subst (λ (q : MeshRouter G × Option (Ipv4Addr × Bool)). IsOffer q.1) (ok_inj d2)
        (answer_if-IsOffer (b.ip_offset == 0 && r'.isgateway) r' header.sender)
