-- ===== src/Router/Gives.antt =====
-- What `handle_broadcast` of src/stack/router.rs does at a gateway with a node that asks for an
-- address.
use lora_mesh_rs.Prelude.{ℕ, ◌≡◌, refl, ap, ◌∙◌, inl, true, false, List, ◌∷◌, none, some, byte_eq}
use lora_mesh_rs.Prelude.Outcome.{ok}
use lora_mesh_rs.Prelude.HashMap
use lora_mesh_rs.Util.{ip_eq}
use lora_mesh_rs.Frame.{FrameHeader}
use lora_mesh_rs.Message.Broadcast.{BroadcastMessage}
use lora_mesh_rs.Router.{MeshRouter, Clock, answer, learn, note_ip, record_ip, handle_broadcast}
use lora_mesh_rs.Router.Graph.{GraphCrate}
use lora_mesh_rs.Router.Learn.{Kept, learn_tables}
use lora_mesh_rs.Router.Lease.{leased, ip_assign-unknown, get-record_ip}
use lora_mesh_rs.Router.Total.{learn_total}

-- The broadcast of a node without an address that is no gateway.
abbrev pub heard_request : FrameHeader → BroadcastMessage
heard_request h = record { header = some h; isgateway = false; ip_offset = 0; ipaddr = none }

module _ {G : Type 0} where
  answer-request :
      (s : MeshRouter G) (h : FrameHeader)
      → s.isgateway ≡ true
      → HashMap.get h.sender s.id2ip ≡ none
      → answer s (heard_request h) h.sender
        ≡ (record_ip s h.sender (leased h.sender), some (leased h.sender, true))
  unfolding answer
  answer-request s h g free = rw (ip_assign-unknown s h.sender free, g)

module _ {G : Type 0} ⦃gc : GraphCrate G⦄ where
  learned_request :
      (clock : Clock) (r s : MeshRouter G) (h : FrameHeader) (route : List ℕ)
      → learn clock r (heard_request h) h.sender route ≡ ok s
      → Kept r s
  unfolding note_ip
  learned_request clock r s h route e = learn_tables clock r s (heard_request h) h.sender route e

  pub handle_broadcast-request :
      (clock : Clock) (r : MeshRouter G) (h : FrameHeader) (first : ℕ) (rest : List ℕ)
      → r.isgateway ≡ true
      → HashMap.get h.sender r.id2ip ≡ none
      → (r' : MeshRouter G) × (handle_broadcast clock r (heard_request h) (first ∷ rest)
          ≡ ok (r', some (leased h.sender, true)))
        × (HashMap.get h.sender r'.id2ip ≡ some (leased h.sender))
  unfolding handle_broadcast
  handle_broadcast-request clock r h first rest g free =
      let (s, learned) = learn_total clock r (heard_request h) h.sender first rest (inl refl) in
      let k = learned_request clock r s h (first ∷ rest) learned in
      (
        record_ip s h.sender (leased h.sender),
        rw learned (
            ap ok (
              answer-request s h (k.isgateway_is ∙ g)
                (ap (HashMap.get h.sender) k.id2ip_is ∙ free))),
        get-record_ip s h.sender (leased h.sender),
      )
