-- ===== src/Node/Journey.antt =====
-- Several nodes of src/node.rs, each of which hears what the one before it sent.
use lora_mesh_rs.Prelude.{
  ℕ, ◌<◌, ◌≡◌, List, [], ◌∷◌, ◌++◌, none, arith, All, length, get_last?, get_last?-snoc,
  length-append, byte_eq, bytes_eq,
}
use lora_mesh_rs.Prelude.Outcome.{Outcome, ok, empty_route, expect, ◌>>=◌}
use lora_mesh_rs.Prelude.HashMap
use lora_mesh_rs.Kinds.{Enumn}
use lora_mesh_rs.Util.{Ipv4Addr, composite_key}
use lora_mesh_rs.Frame.{to_bytes}
use lora_mesh_rs.Message.IpPacket.{PacketCrate}
use lora_mesh_rs.Router.{Clock}
use lora_mesh_rs.Router.Graph.{GraphCrate}
use lora_mesh_rs.Tunnel.{Platform}
use lora_mesh_rs.Node.State.{MeshNode, transmit, handle_ip_assignment}
use lora_mesh_rs.Node.Receive.{on_radio}
use lora_mesh_rs.Node.Relay.{answer, forgets, on_radio-relay, on_radio-end}

abbrev pub ids : {G : Type 0} → List (MeshNode G) → List ℕ
ids [] = []
ids (n ∷ ns) = n.id ∷ ids ns

-- The relays of an answer, after it has passed.
abbrev pub passed : {G : Type 0} → Ipv4Addr → ℕ → ℕ → List (MeshNode G) → ℕ → List (MeshNode G)
passed addr i gateway [] last = []
passed addr i gateway (n ∷ relays) last =
    transmit (forgets n gateway i) (to_bytes (answer addr i gateway (ids relays ++ last ∷ [])))
    ∷ passed addr i gateway relays last

-- No node on the way keeps a chunk under the answer's key.
abbrev pub AreFree : {G : Type 0} → ℕ → ℕ → List (MeshNode G) → Type 0
AreFree i gateway ns = All (λ n. HashMap.get (composite_key gateway i) n.rxchunks ≡ none) ns

module _ (P : Type 0) {G : Type 0} ⦃e : Enumn⦄ ⦃gc : GraphCrate G⦄ ⦃pc : PacketCrate P⦄
    ⦃os : Platform⦄ where
  -- Each node hears the bytes that the node before it sent last; the first hears `bytes`.
  pub travel :
      Clock → ℕ → List (MeshNode G) → MeshNode G → List ℕ → Outcome (List (MeshNode G) × MeshNode G)
  travel clock j [] last bytes = do last' ← on_radio P clock j last bytes; ok ([], last')
  travel clock j (n ∷ relays) last bytes = do
    n' ← on_radio P clock j n bytes
    heard ← expect (get_last? n'.sent) empty_route
    (relays', last') ← travel clock j relays last heard
    ok (n' ∷ relays', last')

  -- One relay, with the rest of the route ahead of it.
  relay_step :
      (clock : Clock) (j : ℕ) (n : MeshNode G) (relays : List (MeshNode G)) (last : ℕ)
      (addr : Ipv4Addr) (i gateway : ℕ)
      → length (ids (n ∷ relays)) < 255
      → HashMap.get (composite_key gateway i) n.rxchunks ≡ none
      → on_radio P clock j n (to_bytes (answer addr i gateway (ids (n ∷ relays) ++ last ∷ [])))
        ≡ ok (
            transmit
              (forgets n gateway i)
              (to_bytes (answer addr i gateway (ids relays ++ last ∷ []))))
  relay_step clock j n [] last addr i gateway h free =
      on_radio-relay P clock j n addr i gateway last [] (omega arith) free
  relay_step clock j n (m ∷ ms) last addr i gateway h free =
      on_radio-relay P clock j n addr i gateway m.id (ids ms ++ last ∷ [])
        (omega (arith, length-append (ids ms) (last ∷ []))) free

  -- An answer is sent along the ids of relays, at most 254, and of a last node. Each node hears
  -- what the one before it sent last, none keeps a chunk under the key of the answer, and the last
  -- node, given the address by its handler of assignments, ends well. Then each relay sends the
  -- answer on with the rest of the route and is otherwise unchanged, but for what it kept under
  -- that key, and the last node is as its handler leaves it.
  pub travel_assigns :
      (clock : Clock) (j : ℕ) (relays : List (MeshNode G)) (last last' : MeshNode G)
      (addr : Ipv4Addr) (i gateway : ℕ)
      → length (ids relays) < 255
      → AreFree i gateway relays
      → HashMap.get (composite_key gateway i) last.rxchunks ≡ none
      → handle_ip_assignment (forgets last gateway i) addr ≡ ok last'
      → travel clock j relays last (to_bytes (answer addr i gateway (ids relays ++ last.id ∷ [])))
        ≡ ok (passed addr i gateway relays last.id, last')
  unfolding travel
  travel_assigns clock j [] last last' addr i gateway h free own done =
      rw (on_radio-end P clock j last addr i gateway own, done)
  travel_assigns clock j (n ∷ relays) last last' addr i gateway h (f, free) own done = rw (
    relay_step clock j n relays last.id addr i gateway h f,
    get_last?-snoc n.sent (to_bytes (answer addr i gateway (ids relays ++ last.id ∷ []))),
    travel_assigns clock j relays last last' addr i gateway (omega arith) free own done,
  )
