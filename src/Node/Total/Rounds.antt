-- ===== src/Node/Total/Rounds.antt =====
-- The main loop of src/node.rs: when it goes on.
use lora_mesh_rs.Prelude.{
  ℕ, ◌<◌, ◌≡◌, refl, sym, ap, ◌∙◌, subst, Bool, true, false, List, [], ◌∷◌, map, Option, none, some,
  length, if◌then◌else◌,
}
use lora_mesh_rs.Prelude.Outcome.{Outcome, ok, ◌>>=◌}
use lora_mesh_rs.Prelude.Returns.{
  Returns, Returns-elim, Returns-bind, Returns-attempt, Returns-option, Returns-if,
}
use lora_mesh_rs.Kinds.{Enumn}
use lora_mesh_rs.Util.{Ipv4Addr, ip_beq}
use lora_mesh_rs.Frame.{Frame, from_bytes, to_bytes}
use lora_mesh_rs.Message.IpPacket.{PacketCrate, new_packet}
use lora_mesh_rs.Router
use lora_mesh_rs.Router.{Clock, packet_route}
use lora_mesh_rs.Router.Graph.{GraphCrate}
use lora_mesh_rs.Tunnel.{Platform, send}
use lora_mesh_rs.Tunnel.Total.{AlwaysSucceeds}
use lora_mesh_rs.Node.State.{MeshNode, broadcast, transmit}
use lora_mesh_rs.Node.Packets.{handle_tun_ip, send_along}
use lora_mesh_rs.Node.Receive.{RxChunks, on_radio}
use lora_mesh_rs.Node.Main.{
  TryRecv, empty, closed, received, Input, radio_takes, from_tunnel, from_radio, tasks, round,
  start, rounds, run,
}
use lora_mesh_rs.Node.Carry.{to_frame-Carries, Carries-IsFinal, transmit_all_lem}
use lora_mesh_rs.Frame.Chunking.{pieces, chunked_lem}
use lora_mesh_rs.Message.IpPacket
use lora_mesh_rs.Node.Total.{IsHealthy}
use lora_mesh_rs.Node.Total.Packets.{IsHealthy-transmit, IsHealthy-tunnel}
use lora_mesh_rs.Node.Total.Frames.{IsHeard, on_frame-Returns, from_bytes-Answers}

-- A node goes on with its id and the chunks it keeps.
abbrev Goes : {G : Type 0} → MeshNode G → MeshNode G → Type 0
Goes n n' = IsHealthy n' × (n'.id ≡ n.id) × (n'.rxchunks ≡ n.rxchunks)

-- The search for the route of a packet returns, so that no overflow of the cost ends it, and a
-- route that it finds has fewer than 256 hops.
abbrev pub IsRoutable :
    {P G : Type 0} ⦃gc : GraphCrate G⦄ ⦃pc : PacketCrate P⦄ ⦃os : Platform⦄
    → MeshNode G
    → P
    → Type 0
IsRoutable ⦃os = os⦄ n p =
    (found : Option (List ℕ)) × (packet_route os.profile n.router p ≡ ok found)
    × ((route : List ℕ) → found ≡ some route → length route < 256)

-- What the channel of the tunnel may give.
abbrev pub FromTunnel :
    {P G : Type 0} ⦃gc : GraphCrate G⦄ ⦃pc : PacketCrate P⦄ ⦃os : Platform⦄
    → MeshNode G
    → TryRecv P
    → Type 0
FromTunnel n empty = Unit
FromTunnel n closed = ⊥
FromTunnel n (received p) = IsRoutable n p

-- What the channel of the radio may give.
abbrev pub FromRadio : ⦃e : Enumn⦄ → ℕ → RxChunks → TryRecv (List ℕ) → Type 0
FromRadio id rx empty = Unit
FromRadio id rx closed = ⊥
FromRadio id rx (received bytes) = (f : Frame) → from_bytes bytes ≡ ok f → IsHeard id rx f

module _ {P G : Type 0} ⦃e : Enumn⦄ ⦃gc : GraphCrate G⦄ ⦃pc : PacketCrate P⦄ ⦃os : Platform⦄ where
  sent_along :
      (n : MeshNode G) (i : ℕ) (p : P) (own : Ipv4Addr) (o : Option (List ℕ))
      → ((route : List ℕ) → o ≡ some route → length route < 256)
      → n.ipaddr ≡ some own
      → ip_beq (pc.destination p) own ≡ false
      → IsHealthy n
      → Returns (Goes n) (elim o as (λ _. Outcome (MeshNode G)) [
        | none ↦ ok n
        | some route ↦ send_along n i p route
      ])
  unfolding send_along
  sent_along n i p own none short a other v = (v, refl, refl)
  sent_along n i p own (some route) short a other v =
      let f = IpPacket.to_frame (new_packet p) i n.id route in
      let c = to_frame-Carries p i n.id route (short route refl) in
      let (h, final) = Carries-IsFinal p f c in
      let (ps, _, cut) =
        chunked_lem f h n.opt.maxpacketsize v.sized final.header_is c.routed c.short in
      let cs = map to_bytes (pieces f ps) in
      rw cut (
        subst (Goes n) (sym (transmit_all_lem n cs))
          (record { sized = v.sized; tunip = v.tunip; tunip_is = v.tunip_is }, refl, refl))

  handle_tun_ip-Returns :
      (n : MeshNode G) (i : ℕ) (p : P)
      → IsRoutable n p
      → IsHealthy n
      → Returns (Goes n) (handle_tun_ip n i p)
  unfolding handle_tun_ip send
  handle_tun_ip-Returns n i p (found, searched, short) v =
      Returns-option (Goes n) n.ipaddr (ok n) _ (λ _. (v, refl, refl))
        (λ own a.
          Returns-if (Goes n) (ip_beq (pc.destination p) own) _ _
            (λ _.
              Returns-if (Goes n) n.opt.debug (ok n) _ (λ _. (v, refl, refl))
                (λ _. (IsHealthy-tunnel n (send n.tunnel p) refl v, refl, refl)))
            (λ other. rw searched (sent_along n i p own found short a other v)))

  from_tunnel-Returns :
      (i : Input P) (n : MeshNode G) (t : TryRecv P)
      → FromTunnel n t
      → IsHealthy n
      → Returns (Goes n) (from_tunnel i n t)
  unfolding from_tunnel
  from_tunnel-Returns i n empty g v = (v, refl, refl)
  from_tunnel-Returns i n closed g v = absurd g
  from_tunnel-Returns i n (received p) g v = handle_tun_ip-Returns n i.packet_frameid p g v

  from_radio-Returns :
      (up : AlwaysSucceeds os) (i : Input P) (n : MeshNode G) (t : TryRecv (List ℕ))
      → FromRadio n.id n.rxchunks t
      → IsHealthy n
      → Returns IsHealthy (from_radio i n t)
  unfolding from_radio on_radio
  from_radio-Returns up i n empty g v = v
  from_radio-Returns up i n closed g v = absurd g
  from_radio-Returns up i n (received bytes) g v =
      Returns-attempt IsHealthy (from_bytes bytes) _ _ (from_bytes-Answers bytes) (λ _. v)
        (λ f parsed. on_frame-Returns P up i.clock i.answer_frameid n f (g f parsed) v)

module _ {G : Type 0} where
  announced-IsHealthy :
      (n : MeshNode G) (queue : List (List ℕ)) (bytes : List ℕ)
      → IsHealthy n
      → IsHealthy (elim queue as (λ _. MeshNode G) [ [] ↦ transmit n bytes | _ ∷ _ ↦ n ])
  announced-IsHealthy n [] bytes v = IsHealthy-transmit n bytes v
  announced-IsHealthy n (x ∷ queue) bytes v = v

  broadcast_if-IsHealthy :
      (n : MeshNode G) (due : Bool) → IsHealthy n → IsHealthy (if due then broadcast n else n)
  unfolding broadcast
  broadcast_if-IsHealthy n true v = announced-IsHealthy n n.sent _ v
  broadcast_if-IsHealthy n false v = v

module _ {G : Type 0} ⦃gc : GraphCrate G⦄ where
  spanning_if-IsHealthy :
      (n : MeshNode G) (due : Bool)
      → IsHealthy n
      → IsHealthy (if due then record n { router = Router.min_spanning_tree n.router } else n)
  spanning_if-IsHealthy n true v = record {
    sized = v.sized;
    tunip = v.tunip;
    tunip_is = v.tunip_is;
  }
  spanning_if-IsHealthy n false v = v

module _ {P G : Type 0} ⦃e : Enumn⦄ ⦃gc : GraphCrate G⦄ ⦃pc : PacketCrate P⦄ ⦃os : Platform⦄ where
  tasks-IsHealthy : (i : Input P) (n : MeshNode G) → IsHealthy n → IsHealthy (tasks i n)
  unfolding tasks
  tasks-IsHealthy i n v =
      let n1 = if i.broadcast_due then broadcast n else n in
      spanning_if-IsHealthy n1 i.spanning_due (broadcast_if-IsHealthy n i.broadcast_due v)

  -- What comes in the rounds can be taken, as the node is then.
  abbrev pub Fits : List (Input P) → MeshNode G → Type 0
  Fits [] n = Unit
  Fits (i ∷ inputs) n =
      FromTunnel n i.from_tunnel
      × FromRadio n.id n.rxchunks i.from_radio
      × ((n' : MeshNode G) → round i n ≡ ok n' → Fits inputs n')

  round-Returns :
      (up : AlwaysSucceeds os) (i : Input P) (n : MeshNode G)
      → FromTunnel n i.from_tunnel
      → FromRadio n.id n.rxchunks i.from_radio
      → IsHealthy n
      → Returns IsHealthy (round i n)
  unfolding round
  round-Returns up i n t r v =
      Returns-bind (Goes n) IsHealthy (from_tunnel i n i.from_tunnel) _
        (from_tunnel-Returns i n i.from_tunnel t v)
        λ n1 (w, id_is, rx_is).
          Returns-bind IsHealthy IsHealthy (from_radio i n1 i.from_radio) _
            (from_radio-Returns up i n1 i.from_radio
              (subst (λ x. FromRadio x n1.rxchunks i.from_radio) (sym id_is)
                (subst (λ rx. FromRadio n.id rx i.from_radio) (sym rx_is) r))
              w)
            λ n2 u.
              tasks-IsHealthy i (radio_takes i.taken n2)
                (record { sized = u.sized; tunip = u.tunip; tunip_is = u.tunip_is })

  rounds_total :
      (up : AlwaysSucceeds os) (inputs : List (Input P)) (n : MeshNode G)
      → Fits inputs n
      → IsHealthy n
      → (n' : MeshNode G) × (rounds inputs n ≡ ok n') × IsHealthy n'
  unfolding rounds
  rounds_total up [] n f v = (n, refl, v)
  rounds_total up (i ∷ inputs) n (t, r, later) v =
      let (m, ran, w) = Returns-elim IsHealthy (round i n) (round-Returns up i n t r v) in
      let (n', go, u) = rounds_total up inputs m (later m ran) w in
      (n', ap (λ x. x >>= rounds inputs) ran ∙ go, u)

  -- On a machine where every command succeeds, a node with a positive chunk size, whose tunnel has
  -- an address, and that begins well, goes through any rounds of its main loop, whatever the
  -- limiters say, without a panic, an `Err` or an endless loop, and then is such a node again, if
  -- in each round: no channel is closed; the search for the route of the packet from the tunnel
  -- returns, which it does not where the sum of node ids that it takes for the cost overflows a
  -- `u8` in the dev profile, and a route that it finds is shorter than 256; and the bytes from the
  -- radio are no frame, or a frame with a known flag and message type, where the message that it
  -- completes, if any, has these as well, a right length byte, a route shorter than 256, and what
  -- its type asks for. That is, for an IP packet, a next hop, not this node; for a broadcast, a
  -- next hop, a route shorter than 255, a payload that can be read, an address if it is that of a
  -- gateway, and no address but a private one; for an assignment that succeeded, a next hop and a
  -- private address; for one that failed, a next hop and a text in UTF-8; for other types, nothing.
  pub run_total :
      (up : AlwaysSucceeds os) (inputs : List (Input P)) (n n0 : MeshNode G)
      → start n ≡ ok n0
      → Fits inputs n0
      → IsHealthy n0
      → (n' : MeshNode G) × (run inputs n ≡ ok n') × IsHealthy n'
  unfolding run
  run_total up inputs n n0 begun f v =
      let (n', go, u) = rounds_total up inputs n0 f v in
      (n', ap (λ m. m >>= rounds inputs) begun ∙ go, u)
