-- ===== src/Node/Total/Assign.antt =====
-- Assignment answers from the radio: when their handlers of src/node.rs return.
use lora_mesh_rs.Prelude.{
  ℕ, ◌<◌, ◌≡◌, ◌∙◌, true, Option, none, some, length, ltb, ◌==◌, if◌then◌else◌,
}
use lora_mesh_rs.Prelude.Outcome.{Outcome, ok, attempt, expect, unwrap_none}
use lora_mesh_rs.Prelude.Returns.{
  Returns, Answers, Returns-bind, Returns-attempt, Returns-option, Returns-if,
}
use lora_mesh_rs.Kinds.{Enumn, TransmissionState, MessageType}
use lora_mesh_rs.Util.{Ipv4Addr, octets, is_private}
use lora_mesh_rs.Frame.{Frame, FrameHeader, header, to_bytes}
use lora_mesh_rs.Frame.Codec.{IsRouted}
use lora_mesh_rs.Frame.Route.{shifted, route_shift_lem}
use lora_mesh_rs.Message.IpAssign.{success_from_frame, failure_from_frame}
use lora_mesh_rs.Message.Utf8.{is_utf8}
use lora_mesh_rs.Router.Graph.{GraphCrate}
use lora_mesh_rs.Tunnel.{Platform, NetworkTunnel, assignipaddr, routeipaddr}
use lora_mesh_rs.Tunnel.Total.{AlwaysSucceeds, assignipaddr-Returns, routeipaddr-Returns}
use lora_mesh_rs.Node.State.{MeshNode, take_ip, handle_ip_assignment}
use lora_mesh_rs.Node.Receive.{at_hop, on_assign_success, on_assign_failure}
use lora_mesh_rs.Node.Hearing.{header_by}
use lora_mesh_rs.Node.Total.{IsHealthy, HasHop}
use lora_mesh_rs.Node.Total.Packets.{IsHealthy-transmit}

module _ {G : Type 0} ⦃gc : GraphCrate G⦄ ⦃os : Platform⦄ (up : AlwaysSucceeds os) where
  take_ip-Returns :
      (n : MeshNode G) (addr : Ipv4Addr)
      → is_private addr ≡ true
      → IsHealthy n
      → Returns IsHealthy (take_ip n addr)
  unfolding take_ip
  take_ip-Returns n addr p v =
      Returns-bind (λ (t : NetworkTunnel). t.tunip ≡ n.tunnel.tunip) IsHealthy
        (assignipaddr n.tunnel addr) _ (assignipaddr-Returns up n.tunnel addr)
        λ t kept.
          Returns-bind (λ (x : Ipv4Addr). Unit) IsHealthy (expect t.tunip unwrap_none) _
            (rw (kept, v.tunip_is) tt)
            λ via _.
              Returns-bind (λ (t' : NetworkTunnel). t'.tunip ≡ t.tunip) IsHealthy
                (routeipaddr t addr via) _ (routeipaddr-Returns up t addr via p)
                λ t' same. record {
                  sized = v.sized;
                  tunip = v.tunip;
                  tunip_is = same ∙ kept ∙ v.tunip_is;
                }

  handle_ip_assignment-Returns :
      (n : MeshNode G) (addr : Ipv4Addr)
      → is_private addr ≡ true
      → IsHealthy n
      → Returns IsHealthy (handle_ip_assignment n addr)
  unfolding handle_ip_assignment
  handle_ip_assignment-Returns n addr p v =
      Returns-option IsHealthy n.ipaddr (take_ip n addr) _ (λ _. take_ip-Returns n addr p v)
        (λ _ _. v)

module _ {G : Type 0} ⦃e : Enumn⦄ ⦃gc : GraphCrate G⦄ ⦃os : Platform⦄ where
  -- Where the frame arrives, what is done with it returns.
  at_hop-Returns :
      (n : MeshNode G) (f : Frame) (o : Option ℕ) (arrive : Frame → Outcome (MeshNode G))
      → Returns IsHealthy (arrive f)
      → IsHealthy n
      → Returns IsHealthy (at_hop n (f, o) arrive)
  at_hop-Returns n f none arrive h v = v
  at_hop-Returns n f (some hop) arrive h v =
      Returns-if IsHealthy (hop == n.id) _ _
        (λ _.
          Returns-bind IsHealthy IsHealthy (if length f.route == 0 then arrive f else ok n) _
            (Returns-if IsHealthy (length f.route == 0) (arrive f) (ok n) (λ _. h) (λ _. v))
            (λ n' v'.
              Returns-if IsHealthy (ltb 0 (length f.route)) _ _
                (λ _. IsHealthy-transmit n' (to_bytes f) v') (λ _. v')))
        (λ _. v)

module _ ⦃e : Enumn⦄ where
  success_from_frame-octets :
      (f : Frame) (h : FrameHeader) (addr : Ipv4Addr)
      → header f ≡ ok h
      → f.payload ≡ octets addr
      → success_from_frame f ≡ ok (record { header = some h; ipaddr = addr })
  unfolding success_from_frame
  success_from_frame-octets f h addr eh p = rw (eh, p)

  failure_from_frame-utf8 :
      (f : Frame) (h : FrameHeader)
      → header f ≡ ok h
      → is_utf8 f.payload ≡ true
      → Answers (failure_from_frame f)
  unfolding failure_from_frame
  failure_from_frame-utf8 f h eh u = rw (eh, u) tt

module _ {G : Type 0} ⦃e : Enumn⦄ ⦃gc : GraphCrate G⦄ ⦃os : Platform⦄ where
  pub on_assign_success-Returns :
      (up : AlwaysSucceeds os) (n : MeshNode G) (f : Frame) (state : TransmissionState)
      (kind : MessageType) (addr : Ipv4Addr)
      → e.tx_n f.txflag ≡ some state
      → e.msg_n f.msgtype ≡ some kind
      → IsRouted f
      → length f.route < 256
      → HasHop f.route
      → f.payload ≡ octets addr
      → is_private addr ≡ true
      → IsHealthy n
      → Returns IsHealthy (on_assign_success n f)
  unfolding on_assign_success
  on_assign_success-Returns up n f state kind addr t k r short (hop, rest, at) p private v =
      let (h, headed) = header_by (shifted f rest) state kind t k in
      rw (route_shift_lem os.profile f hop rest r at short) (
        at_hop-Returns n (shifted f rest) (some hop)
          (λ g. attempt (success_from_frame g) (λ _. ok n) (λ m. handle_ip_assignment n m.ipaddr))
          (rw (success_from_frame-octets (shifted f rest) h addr headed p)
            (handle_ip_assignment-Returns up n addr private v))
          v)

  pub on_assign_failure-Returns :
      (n : MeshNode G) (f : Frame) (state : TransmissionState) (kind : MessageType)
      → e.tx_n f.txflag ≡ some state
      → e.msg_n f.msgtype ≡ some kind
      → IsRouted f
      → length f.route < 256
      → HasHop f.route
      → is_utf8 f.payload ≡ true
      → IsHealthy n
      → Returns IsHealthy (on_assign_failure n f)
  unfolding on_assign_failure
  on_assign_failure-Returns n f state kind t k r short (hop, rest, at) u v =
      let (h, headed) = header_by (shifted f rest) state kind t k in
      rw (route_shift_lem os.profile f hop rest r at short) (
        at_hop-Returns n (shifted f rest) (some hop)
          (λ g. attempt (failure_from_frame g) (λ _. ok n) (λ _. ok n))
          (Returns-attempt IsHealthy (failure_from_frame (shifted f rest)) (λ _. ok n) (λ _. ok n)
            (failure_from_frame-utf8 (shifted f rest) h headed u) (λ _. v) (λ _ _. v))
          v)
