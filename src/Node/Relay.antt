-- ===== src/Node/Relay.antt =====
-- src/node.rs on the answer that gives a node its address, at a relay and at that node.
use lora_mesh_rs.Prelude.{
  ℕ, suc, ◌%◌, ◌<◌, ◌≡◌, refl, ap, ◌∙◌, true, false, ltb, ◌==◌, List, [], ◌∷◌, Option, none, some,
  arith, ==_refl, length, byte_eq, bytes_eq,
}
use lora_mesh_rs.Prelude.Outcome.{Outcome, ok, attempt, bind-ok}
use lora_mesh_rs.Prelude.HashMap
use lora_mesh_rs.Kinds.{Enumn, final_chunk, ip_assign_success, tx_to_u8, msg_to_u8}
use lora_mesh_rs.Util.{Ipv4Addr, composite_key}
use lora_mesh_rs.Frame.{Frame, to_bytes, txflag, msgtype, route_shift}
use lora_mesh_rs.Frame.Codec.{IsRouted}
use lora_mesh_rs.Frame.Route.{route_shift_lem, shifted}
use lora_mesh_rs.Message.IpAssign.{new_success, success_from_frame, success_to_frame}
use lora_mesh_rs.Message.IpPacket.{PacketCrate}
use lora_mesh_rs.Message.RoundTrip.{success_fields}
use lora_mesh_rs.Router.{Clock}
use lora_mesh_rs.Router.Graph.{GraphCrate}
use lora_mesh_rs.Tunnel.{Platform}
use lora_mesh_rs.Node.State.{MeshNode, transmit, handle_ip_assignment}
use lora_mesh_rs.Node.Receive.{dispatch, at_hop, on_assign_success, on_radio}
use lora_mesh_rs.Node.Delivery.{cleared, on_radio-dispatch}

-- The frame of an answer, on its way along `route`.
abbrev pub answer : Ipv4Addr → ℕ → ℕ → List ℕ → Frame
answer addr i gateway route = success_to_frame (new_success addr) i gateway route

-- The route that is left is the route of the frame once shifted.
shifted-answer :
    (addr : Ipv4Addr) (i gateway n : ℕ) (rest : List ℕ)
    → length rest < 256
    → shifted (answer addr i gateway (n ∷ rest)) rest ≡ answer addr i gateway rest
unfolding success_to_frame
shifted-answer addr i gateway n rest h =
    let e : length rest ≡ length rest % 256 = omega arith in
    λ j. record (answer addr i gateway rest) { routeoffset = e j }

route-answer :
    (addr : Ipv4Addr) (i gateway : ℕ) (route : List ℕ) → (answer addr i gateway route).route ≡ route
unfolding success_to_frame
route-answer addr i gateway route = refl

answer-IsRouted :
    (addr : Ipv4Addr) (i gateway : ℕ) (route : List ℕ)
    → length route < 256
    → IsRouted (answer addr i gateway route)
unfolding success_to_frame
answer-IsRouted addr i gateway route h = omega arith

suc-ne-zero : (k : ℕ) → (suc k == 0) ≡ false
suc-ne-zero k = ground arith

zero-lt-suc : (k : ℕ) → ltb 0 (suc k) ≡ true
zero-lt-suc k = ground arith

-- The node without what it kept under the key of the answer.
abbrev pub forgets : {G : Type 0} → MeshNode G → ℕ → ℕ → MeshNode G
forgets n gateway i = record n { rxchunks = HashMap.remove (composite_key gateway i) n.rxchunks }

module _ ⦃e : Enumn⦄ where
  txflag-answer :
      (addr : Ipv4Addr) (i gateway : ℕ) (route : List ℕ)
      → txflag (answer addr i gateway route) ≡ ok final_chunk
  unfolding success_to_frame txflag
  txflag-answer addr i gateway route =
      let zero_is : e.tx_n 0 ≡ some final_chunk = unfold tx_to_u8 in e.tx_n_of final_chunk in
      rw zero_is

  msgtype-answer :
      (addr : Ipv4Addr) (i gateway : ℕ) (route : List ℕ)
      → msgtype (answer addr i gateway route) ≡ ok ip_assign_success
  unfolding success_to_frame msgtype
  msgtype-answer addr i gateway route =
      let two_is : e.msg_n 2 ≡ some ip_assign_success =
        unfold msg_to_u8 in e.msg_n_of ip_assign_success in
      rw two_is

shift-answer :
    ⦃os : Platform⦄ (addr : Ipv4Addr) (i gateway n : ℕ) (rest : List ℕ)
    → length (n ∷ rest) < 256
    → route_shift os.profile (answer addr i gateway (n ∷ rest))
      ≡ ok (answer addr i gateway rest, some n)
shift-answer ⦃os⦄ addr i gateway n rest h =
    route_shift_lem os.profile (answer addr i gateway (n ∷ rest)) n rest
      (unfold success_to_frame in omega arith) (unfold success_to_frame in refl)
      (unfold success_to_frame in h)
    ∙ ap (λ g. ok (g, some n)) (shifted-answer addr i gateway n rest (omega arith))

module _ {G : Type 0} ⦃e : Enumn⦄ ⦃gc : GraphCrate G⦄ ⦃os : Platform⦄ where
  at_hop-more :
      (n : MeshNode G) (g : Frame) (x : ℕ) (rest : List ℕ) (arrive : Frame → Outcome (MeshNode G))
      → g.route ≡ x ∷ rest
      → at_hop n (g, some n.id) arrive ≡ ok (transmit n (to_bytes g))
  at_hop-more n g x rest arrive h =
      let busy : (length g.route == 0) ≡ false = rw h (suc-ne-zero (length rest)) in
      let more : ltb 0 (length g.route) ≡ true = rw h (zero-lt-suc (length rest)) in
      rw (==_refl n.id, busy, more)

  at_hop-last :
      (n : MeshNode G) (g : Frame) (arrive : Frame → Outcome (MeshNode G))
      → g.route ≡ []
      → at_hop n (g, some n.id) arrive ≡ arrive g
  at_hop-last n g arrive h =
      let idle : (length g.route == 0) ≡ true = ap (λ r. length r == 0) h in
      let done : ltb 0 (length g.route) ≡ false = ap (λ r. ltb 0 (length r)) h in
      rw (==_refl n.id, idle, done) (bind-ok (arrive g))

  -- What is done with an answer that has arrived.
  abbrev accept : MeshNode G → Frame → Outcome (MeshNode G)
  accept n g = attempt (success_from_frame g) (λ _. ok n) (λ m. handle_ip_assignment n m.ipaddr)

  on_assign_success-shifted :
      (n : MeshNode G) (f g : Frame) (o : Option ℕ)
      → route_shift os.profile f ≡ ok (g, o)
      → on_assign_success n f ≡ at_hop n (g, o) (accept n)
  unfolding on_assign_success
  on_assign_success-shifted n f g o h = rw h

  on_assign_success-relay :
      (n : MeshNode G) (addr : Ipv4Addr) (i gateway x : ℕ) (rest : List ℕ)
      → length (n.id ∷ x ∷ rest) < 256
      → on_assign_success n (answer addr i gateway (n.id ∷ x ∷ rest))
        ≡ ok (transmit n (to_bytes (answer addr i gateway (x ∷ rest))))
  on_assign_success-relay n addr i gateway x rest h =
      on_assign_success-shifted n (answer addr i gateway (n.id ∷ x ∷ rest))
        (answer addr i gateway (x ∷ rest)) (some n.id)
        (shift-answer addr i gateway n.id (x ∷ rest) h)
      ∙ at_hop-more n (answer addr i gateway (x ∷ rest)) x rest (accept n)
          (route-answer addr i gateway (x ∷ rest))

  on_assign_success-end :
      (n : MeshNode G) (addr : Ipv4Addr) (i gateway : ℕ)
      → on_assign_success n (answer addr i gateway (n.id ∷ [])) ≡ handle_ip_assignment n addr
  on_assign_success-end n addr i gateway =
      on_assign_success-shifted n (answer addr i gateway (n.id ∷ [])) (answer addr i gateway [])
        (some n.id) (shift-answer addr i gateway n.id [] (omega arith))
      ∙ at_hop-last n (answer addr i gateway []) (accept n) (route-answer addr i gateway [])
      ∙ rw (success_fields (new_success addr) i gateway [])

  cleared-answer :
      (n : MeshNode G) (addr : Ipv4Addr) (i gateway : ℕ) (route : List ℕ)
      → cleared n (answer addr i gateway route) ≡ forgets n gateway i
  unfolding success_to_frame
  cleared-answer n addr i gateway route = refl

  module _ (P : Type 0) ⦃pc : PacketCrate P⦄ where
    -- An answer that arrives goes to the handler of answers.
    on_radio-answer :
        (clock : Clock) (j : ℕ) (n : MeshNode G) (addr : Ipv4Addr) (i gateway : ℕ) (route : List ℕ)
        → length route < 256
        → HashMap.get (composite_key gateway i) n.rxchunks ≡ none
        → on_radio P clock j n (to_bytes (answer addr i gateway route))
          ≡ on_assign_success (forgets n gateway i) (answer addr i gateway route)
    unfolding dispatch
    on_radio-answer clock j n addr i gateway route h free =
        on_radio-dispatch P clock j n (answer addr i gateway route) ip_assign_success
          (answer-IsRouted addr i gateway route h) (txflag-answer addr i gateway route)
          (msgtype-answer addr i gateway route) (unfold success_to_frame in free)
        ∙ ap (λ m. on_assign_success m (answer addr i gateway route))
            (cleared-answer n addr i gateway route)

    -- A node whose id is the first hop of an answer, with another hop behind it, a route shorter
    -- than 256 and no chunk kept under the key of the answer, sends the answer on along the rest
    -- of the route, and does nothing else.
    pub on_radio-relay :
        (clock : Clock) (j : ℕ) (n : MeshNode G) (addr : Ipv4Addr) (i gateway x : ℕ) (rest : List ℕ)
        → length (n.id ∷ x ∷ rest) < 256
        → HashMap.get (composite_key gateway i) n.rxchunks ≡ none
        → on_radio P clock j n (to_bytes (answer addr i gateway (n.id ∷ x ∷ rest)))
          ≡ ok (transmit (forgets n gateway i) (to_bytes (answer addr i gateway (x ∷ rest))))
    on_radio-relay clock j n addr i gateway x rest h free =
        on_radio-answer clock j n addr i gateway (n.id ∷ x ∷ rest) h free
        ∙ on_assign_success-relay (forgets n gateway i) addr i gateway x rest h

    -- The node at the end of the route takes the address.
    pub on_radio-end :
        (clock : Clock) (j : ℕ) (n : MeshNode G) (addr : Ipv4Addr) (i gateway : ℕ)
        → HashMap.get (composite_key gateway i) n.rxchunks ≡ none
        → on_radio P clock j n (to_bytes (answer addr i gateway (n.id ∷ [])))
          ≡ handle_ip_assignment (forgets n gateway i) addr
    on_radio-end clock j n addr i gateway free =
        on_radio-answer clock j n addr i gateway (n.id ∷ []) (omega arith) free
        ∙ on_assign_success-end (forgets n gateway i) addr i gateway
