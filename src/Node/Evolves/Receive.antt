-- ===== src/Node/Evolves/Receive.antt =====
-- What src/node.rs does with a frame from the radio, arm by arm of its `match`.
use lora_mesh_rs.Prelude.{
  ℕ, refl, List, Option, none, some, ltb, ◌==◌, arith, All, length, if◌then◌else◌, byte_eq,
  bytes_eq,
}
use lora_mesh_rs.Prelude.Outcome.{Outcome, ok}
use lora_mesh_rs.Prelude.Post.{
  Post, Post-bind, Post-elim, Post-if, Post-option, Post-attempt, Post-mono,
}
use lora_mesh_rs.Kinds.{Enumn, MessageType}
use lora_mesh_rs.Util.{Ipv4Addr, IsByte}
use lora_mesh_rs.Frame.{Frame, to_bytes, from_bytes, msgtype, route_shift}
use lora_mesh_rs.Message.Broadcast
use lora_mesh_rs.Message.Broadcast.{BroadcastMessage}
use lora_mesh_rs.Message.IpAssign.{success_from_frame, failure_from_frame}
use lora_mesh_rs.Message.IpPacket
use lora_mesh_rs.Message.IpPacket.{PacketCrate}
use lora_mesh_rs.Router.{Clock, handle_broadcast}
use lora_mesh_rs.Router.Graph.{GraphCrate}
use lora_mesh_rs.Router.Learn.{nodeid-handle_broadcast}
use lora_mesh_rs.Tunnel.{Platform}
use lora_mesh_rs.Node.State.{MeshNode, transmit}
use lora_mesh_rs.Node.Receive.{
  RxChunks, reassemble, rebroadcast, route_observed, learn_broadcast, on_broadcast, at_hop,
  on_assign_success, on_assign_failure, dispatch, act, on_frame, on_radio,
}
use lora_mesh_rs.Node.Wire.{IsSound, to_bytes-IsWire, from_bytes-IsSound, route_shift-IsSound}
use lora_mesh_rs.Node.Table.{IsTable, reassemble-IsTable}
use lora_mesh_rs.Node.Evolves.Base.{
  Evolves, Evolves-refl, Evolves-trans, Evolves-transmit, Evolves-router,
}
use lora_mesh_rs.Node.Evolves.Sound.{CompletesSound, reassemble-IsSound}
use lora_mesh_rs.Node.Evolves.Answer.{
  rebroadcast-Evolves, route_observed-Evolves, answer_failure-Evolves, answer_success-Evolves,
}
use lora_mesh_rs.Node.Evolves.Packets.{handle_radio_ip-Evolves, handle_ip_assignment-Evolves}

module _ {G : Type 0} ⦃e : Enumn⦄ ⦃gc : GraphCrate G⦄ ⦃os : Platform⦄ where
  learn_broadcast-Evolves :
      (clock : Clock) (i : ℕ) (n : MeshNode G) (f : Frame) (b : BroadcastMessage) (own : Ipv4Addr)
      → Post (Evolves n) (learn_broadcast clock i n f b own)
  unfolding learn_broadcast
  learn_broadcast-Evolves clock i n f b own =
      Post-bind (Evolves n) (route_observed n f b own) _ λ m observed.
        let first =
          Post-elim (Evolves n) (route_observed n f b own) m (route_observed-Evolves n f b own)
            observed in
        Post-attempt (Evolves n) (handle_broadcast clock m.router b f.route) _ _
          (λ x.
            Post-mono (Evolves n) (Evolves m) _ (λ k h. Evolves-trans n m k first h)
              (answer_failure-Evolves m f i x))
          λ q handled.
            let known = record m { router = q.0 } in
            let second = Evolves-trans n m known first (
              Evolves-router m q.0
                (nodeid-handle_broadcast clock m.router q.0 b f.route q.1 handled)) in
            Post-mono (Evolves n) (Evolves known) _ (λ k h. Evolves-trans n known k second h)
              (answer_success-Evolves known f i own q.1)

  on_broadcast-Evolves :
      (clock : Clock) (i : ℕ) (n : MeshNode G) (f : Frame)
      → IsSound f
      → Post (Evolves n) (on_broadcast clock i n f)
  unfolding on_broadcast
  on_broadcast-Evolves clock i n f s =
      Post-attempt (Evolves n) (Broadcast.from_frame f) _ _ (λ _. Evolves-refl n)
        λ b _. Post-bind (Evolves n) (rebroadcast n f) _ λ q sent.
          let first =
            Post-elim (λ (p : MeshNode G × Frame). Evolves n p.0) (rebroadcast n f) q
              (rebroadcast-Evolves n f s) sent in
          Post-option (Evolves n) q.0.ipaddr (ok q.0) _ (λ _. first)
            λ own _.
              Post-mono (Evolves n) (Evolves q.0) _ (λ k h. Evolves-trans n q.0 k first h)
                (learn_broadcast-Evolves clock i q.0 q.1 b own)

  at_hop-Evolves :
      (n : MeshNode G) (f : Frame) (hop : Option ℕ) (arrive : Frame → Outcome (MeshNode G))
      → IsSound f
      → ((g : Frame) → Post (Evolves n) (arrive g))
      → Post (Evolves n) (at_hop n (f, hop) arrive)
  at_hop-Evolves n f none arrive s h = Evolves-refl n
  at_hop-Evolves n f (some nexthop) arrive s h =
      Post-if (Evolves n) (nexthop == n.id) _ _
        (λ _. Post-bind (Evolves n) (if length f.route == 0 then arrive f else ok n) _ λ m arrived.
          let first =
            Post-elim (Evolves n) (if length f.route == 0 then arrive f else ok n) m
              (Post-if (Evolves n) (length f.route == 0) _ _ (λ _. h f) (λ _. Evolves-refl n))
              arrived in
          Post-if (Evolves n) (ltb 0 (length f.route)) _ _
            (λ _.
              Evolves-trans n m (transmit m (to_bytes f)) first
                (Evolves-transmit m (to_bytes f) (to_bytes-IsWire f (omega (arith, s.routed)))))
            (λ _. first))
        (λ _. Evolves-refl n)

  on_assign_success-Evolves :
      (n : MeshNode G) (f : Frame) → IsSound f → Post (Evolves n) (on_assign_success n f)
  unfolding on_assign_success
  on_assign_success-Evolves n f s = Post-bind (Evolves n) (route_shift os.profile f) _ λ q shifted.
      at_hop-Evolves n q.0 q.1 _ (route_shift-IsSound os.profile f q.0 q.1 s shifted) λ g.
        Post-attempt (Evolves n) (success_from_frame g) _ _ (λ _. Evolves-refl n)
          (λ m _. handle_ip_assignment-Evolves n m.ipaddr)

  on_assign_failure-Evolves :
      (n : MeshNode G) (f : Frame) → IsSound f → Post (Evolves n) (on_assign_failure n f)
  unfolding on_assign_failure
  on_assign_failure-Evolves n f s = Post-bind (Evolves n) (route_shift os.profile f) _ λ q shifted.
      at_hop-Evolves n q.0 q.1 _ (route_shift-IsSound os.profile f q.0 q.1 s shifted) λ g.
        Post-attempt (Evolves n) (failure_from_frame g) _ _ (λ _. Evolves-refl n)
          (λ m _. Evolves-refl n)

  Evolves-chunks :
      (n : MeshNode G) (rx : RxChunks)
      → (IsTable n.rxchunks → IsTable rx)
      → Evolves n (record n { rxchunks = rx })
  Evolves-chunks n rx t = record {
    id_is = refl;
    opt_is = refl;
    nodeid_is = refl;
    ip_stays = λ x h. h;
    private = λ h. h;
    wire = λ h. h;
    table = t;
  }

module _ (P : Type 0) {G : Type 0} ⦃e : Enumn⦄ ⦃gc : GraphCrate G⦄ ⦃pc : PacketCrate P⦄
    ⦃os : Platform⦄ where
  dispatch-Evolves :
      (clock : Clock) (i : ℕ) (n : MeshNode G) (f : Frame) (kind : MessageType)
      → IsSound f
      → Post (Evolves n) (dispatch P clock i n f kind)
  unfolding dispatch
  dispatch-Evolves clock i n f MessageType.ip_packet s =
      Post-attempt (Evolves n) (IpPacket.from_frame {P = P} f) _ _ (λ _. Evolves-refl n)
        (λ m _. handle_radio_ip-Evolves n m.packet f)
  dispatch-Evolves clock i n f MessageType.broadcast s = on_broadcast-Evolves clock i n f s
  dispatch-Evolves clock i n f MessageType.ip_assign_success s = on_assign_success-Evolves n f s
  dispatch-Evolves clock i n f MessageType.ip_assign_failure s = on_assign_failure-Evolves n f s
  dispatch-Evolves clock i n f _ s = Evolves-refl n

  act-Evolves :
      (clock : Clock) (i : ℕ) (n : MeshNode G) (rx : RxChunks) (complete : Option Frame)
      → CompletesSound (rx, complete)
      → Post (Evolves n) (act P clock i n complete)
  unfolding act
  act-Evolves clock i n rx none s = Evolves-refl n
  act-Evolves clock i n rx (some f) s =
      Post-bind (Evolves n) (msgtype f) _ (λ kind _. dispatch-Evolves clock i n f kind s)

  on_frame-Evolves :
      (clock : Clock) (i : ℕ) (n : MeshNode G) (f : Frame)
      → IsSound f
      → Post (Evolves n) (on_frame P clock i n f)
  unfolding on_frame
  on_frame-Evolves clock i n f s = Post-bind (Evolves n) (reassemble n.rxchunks f) _ λ q done.
      let n' = record n { rxchunks = q.0 } in
      let kept = Evolves-chunks n q.0 (reassemble-IsTable n.rxchunks q.0 f q.1 done) in
      Post-mono (Evolves n) (Evolves n') _ (λ k h. Evolves-trans n n' k kept h)
        (act-Evolves clock i n' q.0 q.1 (
          Post-elim CompletesSound (reassemble n.rxchunks f) q (reassemble-IsSound n.rxchunks f s)
            done))

  -- Whatever bytes come from the radio, a node that goes on keeps what every step keeps.
  pub on_radio-Evolves :
      (clock : Clock) (i : ℕ) (n : MeshNode G) (bytes : List ℕ)
      → All IsByte bytes
      → Post (Evolves n) (on_radio P clock i n bytes)
  unfolding on_radio
  on_radio-Evolves clock i n bytes b =
      Post-attempt (Evolves n) (from_bytes bytes) _ _ (λ _. Evolves-refl n)
        (λ f h. on_frame-Evolves clock i n f (from_bytes-IsSound bytes f b h))
