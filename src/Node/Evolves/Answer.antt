-- ===== src/Node/Evolves/Answer.antt =====
-- What src/node.rs sends in answer to a broadcast, and the routes that it adds for one.
use lora_mesh_rs.Prelude.{ℕ, Bool, not, ◌&&◌, Option, none, some, ◌==◌, arith, byte_eq, bytes_eq}
use lora_mesh_rs.Prelude.Outcome.{ok, Error, invalid_data, ip_assign_failure, ◌>>=◌}
use lora_mesh_rs.Prelude.Post.{Post, Post-bind, Post-if, Post-option, Post-mono}
use lora_mesh_rs.Util.{Ipv4Addr}
use lora_mesh_rs.Frame.{Frame, to_bytes, route_unshift}
use lora_mesh_rs.Message.Broadcast.{BroadcastMessage}
use lora_mesh_rs.Message.IpAssign.{new_success, new_failure, success_to_frame, failure_to_frame}
use lora_mesh_rs.Router.{node_observe_get}
use lora_mesh_rs.Tunnel.{Platform, routeipaddr}
use lora_mesh_rs.Tunnel.Laws.{routeipaddr-RoutesPrivate}
use lora_mesh_rs.Node.State.{MeshNode, transmit}
use lora_mesh_rs.Node.Receive.{
  contains, route_back, rebroadcast, route_new, route_observed, answer_failure, answer_success,
}
use lora_mesh_rs.Node.Wire.{IsSound, to_bytes-IsWire, route_unshift-Fits}
use lora_mesh_rs.Node.Evolves.Base.{
  Evolves, Evolves-refl, Evolves-trans, Evolves-transmit, Evolves-tunnel,
}

module _ {G : Type 0} ⦃os : Platform⦄ where
  routed-Evolves :
      (n : MeshNode G) (x own : Ipv4Addr)
      → Post (Evolves n) (routeipaddr n.tunnel x own >>= λ t. ok (record n { tunnel = t }))
  routed-Evolves n x own =
      Post-bind (Evolves n) (routeipaddr n.tunnel x own) _
        (λ t h. Evolves-tunnel n t (routeipaddr-RoutesPrivate n.tunnel t x own h))

  pub rebroadcast-Evolves :
      (n : MeshNode G) (f : Frame)
      → IsSound f
      → Post (λ (q : MeshNode G × Frame). Evolves n q.0) (rebroadcast n f)
  unfolding rebroadcast
  rebroadcast-Evolves n f s =
      let P = λ (q : MeshNode G × Frame). Evolves n q.0 in
      Post-if P (not n.opt.isgateway && not (contains f.route n.id)) _ _
        (λ _. Post-bind P (route_unshift os.profile f n.id) _ (λ g h.
          Evolves-transmit n (to_bytes g)
            (to_bytes-IsWire g (route_unshift-Fits os.profile f g n.id s h))))
        (λ _. Evolves-refl n)

  route_new-Evolves :
      (n : MeshNode G) (seen : Option ℕ) (x own : Ipv4Addr)
      → Post (Evolves n) (route_new n seen x own)
  route_new-Evolves n none x own = routed-Evolves n x own
  route_new-Evolves n (some t) x own = Evolves-refl n

  pub route_observed-Evolves :
      (n : MeshNode G) (f : Frame) (b : BroadcastMessage) (own : Ipv4Addr)
      → Post (Evolves n) (route_observed n f b own)
  unfolding route_observed
  route_observed-Evolves n f b own =
      Post-if (Evolves n) (not (f.sender == n.id) && not n.opt.isgateway) _ _
        (λ _.
          Post-option (Evolves n) b.ipaddr (ok n) _ (λ _. Evolves-refl n)
            (λ x _. route_new-Evolves n (node_observe_get n.router f.sender) x own))
        (λ _. Evolves-refl n)

  pub answer_failure-Evolves :
      (n : MeshNode G) (f : Frame) (i : ℕ) (x : Error) → Post (Evolves n) (answer_failure n f i x)
  unfolding answer_failure
  answer_failure-Evolves n f i invalid_data = Evolves-refl n
  answer_failure-Evolves n f i (ip_assign_failure reason) =
      let g = failure_to_frame (new_failure reason) i n.id (route_back f) in
      Evolves-transmit n (to_bytes g) (to_bytes-IsWire g (unfold failure_to_frame in omega arith))

  pub answer_success-Evolves :
      (n : MeshNode G) (f : Frame) (i : ℕ) (own : Ipv4Addr) (given : Option (Ipv4Addr × Bool))
      → Post (Evolves n) (answer_success n f i own given)
  unfolding answer_success
  answer_success-Evolves n f i own none = Evolves-refl n
  answer_success-Evolves n f i own (some (x, isnew)) =
      let g = success_to_frame (new_success x) i n.id (route_back f) in
      let told = transmit n (to_bytes g) in
      let sent =
        Evolves-transmit n (to_bytes g)
          (to_bytes-IsWire g (unfold success_to_frame in omega arith)) in
      Post-if (Evolves n) isnew _ _
        (λ _.
          Post-mono (Evolves n) (Evolves told) _ (λ m h. Evolves-trans n told m sent h)
            (routed-Evolves told x own))
        (λ _. sent)
