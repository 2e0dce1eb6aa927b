-- ===== src/Node/Evolves/Packets.antt =====
-- The handlers of IP packets of src/node.rs, and the assignment of an address.
use lora_mesh_rs.Prelude.{ℕ, ◌≡◌, refl, Option, none, some, ltb, ◌==◌, All, length}
use lora_mesh_rs.Prelude.Outcome.{ok, unwrap_none, ◌>>=◌, expect}
use lora_mesh_rs.Prelude.Post.{Post, Post-bind, Post-elim, Post-if, Post-option}
use lora_mesh_rs.Kinds.{Enumn}
use lora_mesh_rs.Util.{Ipv4Addr, ip_beq}
use lora_mesh_rs.Frame.{Frame, chunked, route_shift}
use lora_mesh_rs.Message.IpPacket
use lora_mesh_rs.Message.IpPacket.{PacketCrate, new_packet}
use lora_mesh_rs.Router.{packet_route, handle_ip_assignment as router_assign}
use lora_mesh_rs.Router.Graph.{GraphCrate}
use lora_mesh_rs.Tunnel.{Platform, send, assignipaddr, routeipaddr}
use lora_mesh_rs.Tunnel.Laws.{assignipaddr-RoutesPrivate, routeipaddr-RoutesPrivate}
use lora_mesh_rs.Node.State.{MeshNode, transmit_all, take_ip, handle_ip_assignment}
use lora_mesh_rs.Node.Packets.{handle_tun_ip, pass_on, handle_ip_nexthop, handle_radio_ip}
use lora_mesh_rs.Node.Wire.{IsWire, chunked-IsWire}
use lora_mesh_rs.Node.Evolves.Base.{Evolves, Evolves-refl, Evolves-transmit_all, Evolves-tunnel}

module _ {G : Type 0} ⦃e : Enumn⦄ ⦃os : Platform⦄ where
  transmit_chunks-Evolves :
      (n : MeshNode G) (f : Frame)
      → Post (Evolves n) (chunked f n.opt.maxpacketsize >>= λ chunks. ok (transmit_all n chunks))
  transmit_chunks-Evolves n f = Post-bind (Evolves n) (chunked f n.opt.maxpacketsize) _ λ chunks h.
      Evolves-transmit_all n chunks (
        Post-elim (All IsWire) (chunked f n.opt.maxpacketsize) chunks
          (chunked-IsWire f n.opt.maxpacketsize) h)

  pass_on-Evolves :
      (n : MeshNode G) (shifted : Frame × Option ℕ) → Post (Evolves n) (pass_on n shifted)
  unfolding pass_on
  pass_on-Evolves n (f, none) = Evolves-refl n
  pass_on-Evolves n (f, some nexthop) =
      Post-if (Evolves n) (nexthop == n.id) _ _ (λ _. tt)
        λ _.
          Post-if (Evolves n) (ltb 0 (length f.route)) _ _ (λ _. transmit_chunks-Evolves n f)
            (λ _. Evolves-refl n)

  handle_ip_nexthop-Evolves :
      (n : MeshNode G) (f : Frame) → Post (Evolves n) (handle_ip_nexthop n f)
  unfolding handle_ip_nexthop
  handle_ip_nexthop-Evolves n f =
      Post-bind (Evolves n) (route_shift os.profile f) _ (λ shifted _. pass_on-Evolves n shifted)

module _ {G P : Type 0} ⦃e : Enumn⦄ ⦃gc : GraphCrate G⦄ ⦃pc : PacketCrate P⦄ ⦃os : Platform⦄ where
  send-Evolves : (n : MeshNode G) (p : P) → Evolves n (record n { tunnel = send n.tunnel p })
  unfolding send
  send-Evolves n p = Evolves-tunnel n (send n.tunnel p) (λ h. h)

  pub handle_tun_ip-Evolves :
      (n : MeshNode G) (i : ℕ) (p : P) → Post (Evolves n) (handle_tun_ip n i p)
  unfolding handle_tun_ip
  handle_tun_ip-Evolves n i p =
      Post-option (Evolves n) n.ipaddr (ok n) _ (λ _. Evolves-refl n)
        λ own _.
          Post-if (Evolves n) (ip_beq (pc.destination p) own) _ _
            (λ _. Post-if (Evolves n) n.opt.debug _ _ (λ _. Evolves-refl n) (λ _. send-Evolves n p))
            λ _. Post-bind (Evolves n) (packet_route os.profile n.router p) _ λ found _.
              Post-option (Evolves n) found (ok n) _ (λ _. Evolves-refl n)
                λ route _. transmit_chunks-Evolves n (IpPacket.to_frame (new_packet p) i n.id route)

  pub handle_radio_ip-Evolves :
      (n : MeshNode G) (p : P) (f : Frame) → Post (Evolves n) (handle_radio_ip n p f)
  unfolding handle_radio_ip
  handle_radio_ip-Evolves n p f =
      Post-option (Evolves n) n.ipaddr (handle_ip_nexthop n f) _
        (λ _. handle_ip_nexthop-Evolves n f)
        λ own _.
          Post-if (Evolves n) (ip_beq (pc.destination p) own) _ _ (λ _. send-Evolves n p)
            (λ _. handle_ip_nexthop-Evolves n f)

module _ {G : Type 0} ⦃gc : GraphCrate G⦄ ⦃os : Platform⦄ where
  take_ip-Evolves :
      (n : MeshNode G) (x : Ipv4Addr) → n.ipaddr ≡ none → Post (Evolves n) (take_ip n x)
  unfolding take_ip
  take_ip-Evolves n x free = Post-bind (Evolves n) (assignipaddr n.tunnel x) _ λ t assigned.
      Post-bind (Evolves n) (expect t.tunip unwrap_none) _ λ tunip _.
        Post-bind (Evolves n) (routeipaddr t x tunip) _ λ t' routed. record {
          id_is = refl;
          opt_is = refl;
          nodeid_is = unfold router_assign in refl;
          ip_stays = λ y h. cc (free, h);
          private = λ h.
              routeipaddr-RoutesPrivate t t' x tunip routed
                (assignipaddr-RoutesPrivate n.tunnel t x assigned h);
          wire = λ h. h;
          table = λ h. h;
        }

  pub handle_ip_assignment-Evolves :
      (n : MeshNode G) (x : Ipv4Addr) → Post (Evolves n) (handle_ip_assignment n x)
  unfolding handle_ip_assignment
  handle_ip_assignment-Evolves n x =
      Post-option (Evolves n) n.ipaddr (take_ip n x) _ (λ free. take_ip-Evolves n x free)
        (λ _ _. Evolves-refl n)
