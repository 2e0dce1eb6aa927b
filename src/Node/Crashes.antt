-- ===== src/Node/Crashes.antt =====
-- Where src/node.rs unwraps what a frame from the radio holds.
use lora_mesh_rs.Prelude.{
  ℕ, ◌≤◌, ◌≡◌, ◌⊎◌, inl, inr, Bool, ◌&&◌, if◌then◌else◌, refl, ap, ◌∙◌, true, false, not, [],
  Option, none, some, arith, ◌==◌, byte_eq, bytes_eq,
}
use lora_mesh_rs.Prelude.Outcome.{
  Outcome, ok, panic, Panic, unwrap_none, missing_ip, missing_header, empty_route, expect, ◌>>=◌,
}
use lora_mesh_rs.Prelude.HashMap
use lora_mesh_rs.Kinds.{
  Enumn, MessageType, broadcast, ip_assign_success, ip_assign_failure, final_chunk, tx_n-none,
  msg_n-none,
}
use lora_mesh_rs.Util.{Ipv4Addr}
use lora_mesh_rs.Frame.{Frame, FrameHeader, to_bytes, txflag, msgtype}
use lora_mesh_rs.Frame.Codec.{IsRouted, from_bytes-to_bytes}
use lora_mesh_rs.Frame.Route.{route_shift_empty}
use lora_mesh_rs.Message.Broadcast
use lora_mesh_rs.Message.Broadcast.{BroadcastMessage}
use lora_mesh_rs.Message.IpPacket.{PacketCrate}
use lora_mesh_rs.Router.{
  MeshRouter, Clock, answer, learn, note_gateway, handle_gateway_assignment, handle_broadcast,
}
use lora_mesh_rs.Router.Graph.{GraphCrate}
use lora_mesh_rs.Tunnel.{Platform}
use lora_mesh_rs.Node.State.{MeshNode}
use lora_mesh_rs.Node.Receive.{
  key_of, reassemble, dispatch, act, on_frame, on_radio, on_broadcast, rebroadcast, route_observed,
  learn_broadcast, on_assign_success, on_assign_failure,
}
use lora_mesh_rs.Node.Delivery.{cleared, reassemble-alone, on_radio-dispatch}

and_false : (c : Bool) → (c && false) ≡ false
and_false c = ground arith

-- A step that may unwrap `None`, before one that panics.
panics_after :
    {A R S : Type 0} (c : Bool) (o : Option A) (f : A → R) (r : R) (k : R → Outcome S) (y : Panic)
    → ((q : R) → k q ≡ panic y)
    → (x : Panic) × (((if c then (expect o missing_ip >>= λ a. ok (f a)) else ok r) >>= k)
        ≡ panic x)
panics_after true none f r k y h = (missing_ip, refl)
panics_after true (some a) f r k y h = (y, h (f a))
panics_after false o f r k y h = (y, h r)

module _ {G : Type 0} ⦃gc : GraphCrate G⦄ where
  learn-empty :
      (clock : Clock) (r : MeshRouter G) (b : BroadcastMessage) (srcid : ℕ)
      → (x : Panic) × (learn clock r b srcid [] ≡ panic x)
  unfolding learn note_gateway
  learn-empty clock r b srcid =
      panics_after (b.isgateway && not (srcid == r.nodeid)) b.ipaddr
        (λ addr. handle_gateway_assignment r addr) r _ empty_route (λ q. refl)

  empty_with :
      (clock : Clock) (r : MeshRouter G) (b : BroadcastMessage) (o : Option FrameHeader)
      → (x : Panic) × ((expect o missing_header >>= λ h.
            learn clock r b h.sender [] >>= λ r'. ok (answer r' b h.sender))
          ≡ panic x)
  empty_with clock r b none = (missing_header, refl)
  empty_with clock r b (some h) = let (x, q) = learn-empty clock r b h.sender in (x, rw q)

  handle_broadcast-empty :
      (clock : Clock) (r : MeshRouter G) (b : BroadcastMessage)
      → (x : Panic) × (handle_broadcast clock r b [] ≡ panic x)
  unfolding handle_broadcast
  handle_broadcast-empty clock r b = empty_with clock r b b.header

module _ {G : Type 0} ⦃e : Enumn⦄ ⦃gc : GraphCrate G⦄ ⦃os : Platform⦄ where
  -- The assignment answers unwrap the hop of an empty route.
  on_assign-empty :
      (n : MeshNode G) (f : Frame)
      → f.route ≡ []
      → (x : Panic) × (on_assign_success n f ≡ panic x) × (on_assign_failure n f ≡ panic x)
  unfolding on_assign_success on_assign_failure
  on_assign-empty n f h = let (x, p) = route_shift_empty os.profile f h in (x, rw p, rw p)

  -- A gateway neither sends a broadcast on nor routes the address in it.
  on_broadcast-gateway :
      (clock : Clock) (i : ℕ) (n : MeshNode G) (f : Frame) (b : BroadcastMessage) (own : Ipv4Addr)
      (x : Panic)
      → n.opt.isgateway ≡ true
      → n.ipaddr ≡ some own
      → Broadcast.from_frame f ≡ ok b
      → handle_broadcast clock n.router b f.route ≡ panic x
      → on_broadcast clock i n f ≡ panic x
  unfolding on_broadcast rebroadcast learn_broadcast route_observed
  on_broadcast-gateway clock i n f b own x g a p h =
      rw (p, g, a, and_false (not (f.sender == n.id)), h)

module _ (P : Type 0) {G : Type 0} ⦃e : Enumn⦄ ⦃gc : GraphCrate G⦄ ⦃pc : PacketCrate P⦄
    ⦃os : Platform⦄ where
  -- The bytes of a frame with a right length byte and a transmission flag above 2 end the node in
  -- a panic.
  pub on_radio_bad_flag :
      (clock : Clock) (i : ℕ) (n : MeshNode G) (f : Frame)
      → IsRouted f
      → 3 ≤ f.txflag
      → on_radio P clock i n (to_bytes f) ≡ panic unwrap_none
  unfolding on_radio on_frame reassemble txflag
  on_radio_bad_flag clock i n f r h = rw (from_bytes-to_bytes f r, tx_n-none f.txflag h)

  -- The bytes of a frame with a right length byte, which says that it is the last of its message,
  -- with a message type that is no discriminant of the enum, at a node that keeps no chunk under
  -- its key, end the node in a panic.
  pub on_radio_bad_kind :
      (clock : Clock) (i : ℕ) (n : MeshNode G) (f : Frame)
      → IsRouted f
      → txflag f ≡ ok final_chunk
      → (1 ≤ f.msgtype → 10 ≤ f.msgtype)
      → HashMap.get (key_of f) n.rxchunks ≡ none
      → on_radio P clock i n (to_bytes f) ≡ panic unwrap_none
  unfolding on_radio on_frame act msgtype
  on_radio_bad_kind clock i n f r t h free =
      rw (from_bytes-to_bytes f r, reassemble-alone n.rxchunks f t free, msg_n-none f.msgtype h)

  -- The bytes of an answer to a node that asked for an address, of success or of failure, with an
  -- empty route and a right length byte, which says that it is the last of its message, at a node
  -- that keeps no chunk under its key, end the node in a panic.
  pub on_radio_empty_answer :
      (clock : Clock) (i : ℕ) (n : MeshNode G) (f : Frame) (kind : MessageType)
      → IsRouted f
      → f.route ≡ []
      → txflag f ≡ ok final_chunk
      → msgtype f ≡ ok kind
      → (kind ≡ ip_assign_success) ⊎ (kind ≡ ip_assign_failure)
      → HashMap.get (key_of f) n.rxchunks ≡ none
      → (x : Panic) × (on_radio P clock i n (to_bytes f) ≡ panic x)
  unfolding dispatch
  on_radio_empty_answer clock i n f kind r h t m k free =
      let (x, p, q) = on_assign-empty (cleared n f) f h in
      let go = on_radio-dispatch P clock i n f kind r t m free in
      elim k [
        | inl s ↦ (x, go ∙ ap (λ c. dispatch P clock i (cleared n f) f c) s ∙ p)
        | inr s ↦ (x, go ∙ ap (λ c. dispatch P clock i (cleared n f) f c) s ∙ q)
      ]

  -- The bytes of a broadcast that can be read, with an empty route and a right length byte, which
  -- says that it is the last of its message, at a gateway that has an address and keeps no chunk
  -- under its key, end the gateway in a panic.
  pub on_radio_empty_broadcast :
      (clock : Clock) (i : ℕ) (n : MeshNode G) (f : Frame) (b : BroadcastMessage) (own : Ipv4Addr)
      → n.opt.isgateway ≡ true
      → n.ipaddr ≡ some own
      → IsRouted f
      → f.route ≡ []
      → txflag f ≡ ok final_chunk
      → msgtype f ≡ ok broadcast
      → Broadcast.from_frame f ≡ ok b
      → HashMap.get (key_of f) n.rxchunks ≡ none
      → (x : Panic) × (on_radio P clock i n (to_bytes f) ≡ panic x)
  unfolding dispatch
  on_radio_empty_broadcast clock i n f b own g a r h t m p free =
      let (x, q) = handle_broadcast-empty clock n.router b in
      (
        x,
        on_radio-dispatch P clock i n f broadcast r t m free
            ∙ on_broadcast-gateway clock i (cleared n f) f b own x g a p
                (ap (λ route. handle_broadcast clock n.router b route) h ∙ q),
      )
