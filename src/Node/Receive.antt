-- ===== src/Node/Receive.antt =====
-- What `run` of src/node.rs does with bytes from the radio: it parses a frame, keeps it where more
-- chunks follow, recombines it with the chunks kept, and acts on its message type.
use lora_mesh_rs.Prelude.{
  ℕ, Bool, true, false, not, ◌&&◌, List, [], ◌∷◌, ◌++◌, Option, none, some, ltb, ◌==◌,
  if◌then◌else◌, length, byte_eq, bytes_eq,
}
use lora_mesh_rs.Prelude.Outcome.{
  Outcome, ok, Error, invalid_data, ip_assign_failure, ◌>>=◌, attempt,
}
use lora_mesh_rs.Prelude.HashMap
use lora_mesh_rs.Prelude.HashMap.{HashMap}
use lora_mesh_rs.Kinds.{Enumn, MessageType, has_more_chunks}
use lora_mesh_rs.Util.{Ipv4Addr, composite_key}
use lora_mesh_rs.Frame.{
  Frame, to_bytes, from_bytes, route_shift, route_unshift, txflag, msgtype, header,
  recombine_chunks,
}
use lora_mesh_rs.Message.Broadcast
use lora_mesh_rs.Message.Broadcast.{BroadcastMessage}
use lora_mesh_rs.Message.IpAssign.{
  new_success, new_failure, success_from_frame, success_to_frame, failure_from_frame,
  failure_to_frame,
}
use lora_mesh_rs.Message.IpPacket
use lora_mesh_rs.Message.IpPacket.{PacketCrate}
use lora_mesh_rs.Router.{Clock, handle_broadcast, node_observe_get}
use lora_mesh_rs.Router.Graph.{GraphCrate}
use lora_mesh_rs.Tunnel.{Platform, routeipaddr}
use lora_mesh_rs.Node.State.{MeshNode, transmit, handle_ip_assignment}
use lora_mesh_rs.Node.Packets.{handle_radio_ip}

abbrev pub RxChunks : Type 0
RxChunks = HashMap (List ℕ) (List Frame)

-- `route.contains(&id)`
abbrev pub contains : List ℕ → ℕ → Bool
contains [] id = false
contains (x ∷ xs) id = if x == id then true else contains xs id

abbrev pub key_of : Frame → List ℕ
key_of f = composite_key f.sender f.frameid

-- A chunk joins those kept under its key.
unfoldable pub keep_chunk : RxChunks → Frame → RxChunks
keep_chunk rx frame = elim (HashMap.get (key_of frame) rx) [
  | none ↦ HashMap.insert (key_of frame) (frame ∷ []) rx
  | some chunks ↦ HashMap.insert (key_of frame) (chunks ++ frame ∷ []) rx
]

module _ ⦃e : Enumn⦄ where
  -- A last chunk is recombined with those kept under its key.
  unfoldable pub finish_chunks : Option (List Frame) → Frame → Outcome Frame
  unfolding recombine_chunks
  finish_chunks none frame = ok frame
  finish_chunks (some chunks) frame = do
    h ← header frame
    ok (recombine_chunks (chunks ++ frame ∷ []) h)

  -- The two branches of the test on the frame's flag.
  unfoldable pub settle : RxChunks → Frame → Bool → Outcome (RxChunks × Option Frame)
  unfolding keep_chunk finish_chunks
  settle rx frame true = ok (keep_chunk rx frame, none)
  settle rx frame false = do
    whole ← finish_chunks (HashMap.get (key_of frame) rx) frame
    ok (HashMap.remove (key_of frame) rx, some whole)

  -- The chunk table after a frame, and the frame to act on, if it is complete.
  unfoldable pub reassemble : RxChunks → Frame → Outcome (RxChunks × Option Frame)
  unfolding settle
  reassemble rx frame = do state ← txflag frame; settle rx frame (has_more_chunks state)

-- The route of an answer: back along the broadcast's route, or to the sender.
abbrev pub route_back : Frame → List ℕ
route_back frame = if ltb 0 (length frame.route) then frame.route else frame.sender ∷ []

module _ {G : Type 0} ⦃os : Platform⦄ where
  -- A node that is no gateway sends a broadcast on, once: with itself in front of the route.
  unfoldable pub rebroadcast : MeshNode G → Frame → Outcome (MeshNode G × Frame)
  unfolding route_unshift to_bytes
  rebroadcast n frame =
      if not n.opt.isgateway && not (contains frame.route n.id)
      then (do f ← route_unshift os.profile frame n.id; ok (transmit n (to_bytes f), f))
      else ok (n, frame)

  -- Where no broadcast of its sender was seen before, its address is routed through the tunnel.
  abbrev pub route_new : MeshNode G → Option ℕ → Ipv4Addr → Ipv4Addr → Outcome (MeshNode G)
  route_new n (some seen) addr own = ok n
  route_new n none addr own = do t ← routeipaddr n.tunnel addr own; ok (record n { tunnel = t })

  unfoldable pub route_observed :
      MeshNode G → Frame → BroadcastMessage → Ipv4Addr → Outcome (MeshNode G)
  unfolding node_observe_get routeipaddr
  route_observed n frame b own =
      if not (frame.sender == n.id) && not n.opt.isgateway
      then elim b.ipaddr [
        | none ↦ ok n
        | some addr ↦ route_new n (node_observe_get n.router frame.sender) addr own
      ]
      else ok n

  -- `Err(e)` of `handle_broadcast`: the sender is told.
  unfoldable pub answer_failure : MeshNode G → Frame → ℕ → Error → Outcome (MeshNode G)
  unfolding failure_to_frame to_bytes
  answer_failure n frame frameid invalid_data = ok n
  answer_failure n frame frameid (ip_assign_failure reason) = ok (
      transmit n (to_bytes (failure_to_frame (new_failure reason) frameid n.id (route_back frame))))

  -- `Ok(ip)` of `handle_broadcast`: the sender gets its address; a new one is routed here too.
  unfoldable pub answer_success :
      MeshNode G → Frame → ℕ → Ipv4Addr → Option (Ipv4Addr × Bool) → Outcome (MeshNode G)
  unfolding success_to_frame to_bytes routeipaddr
  answer_success n frame frameid own none = ok n
  answer_success n frame frameid own (some (addr, isnew)) =
      let told =
        transmit n
          (to_bytes (success_to_frame (new_success addr) frameid n.id (route_back frame))) in
      if isnew
      then (do t ← routeipaddr told.tunnel addr own; ok (record told { tunnel = t }))
      else ok told

module _ {G : Type 0} ⦃e : Enumn⦄ ⦃gc : GraphCrate G⦄ ⦃os : Platform⦄ where
  -- The router learns from a broadcast, and the sender is answered.
  unfoldable pub learn_broadcast :
      Clock → ℕ → MeshNode G → Frame → BroadcastMessage → Ipv4Addr → Outcome (MeshNode G)
  unfolding route_observed answer_failure answer_success handle_broadcast
  learn_broadcast clock frameid n frame b own = do
    n' ← route_observed n frame b own
    attempt (handle_broadcast clock n'.router b frame.route) (answer_failure n' frame frameid)
        (λ (r, given). answer_success (record n' { router = r }) frame frameid own given)

  -- `MessageType::Broadcast`
  unfoldable pub on_broadcast : Clock → ℕ → MeshNode G → Frame → Outcome (MeshNode G)
  unfolding rebroadcast learn_broadcast Broadcast.from_frame
  on_broadcast clock frameid n frame =
      attempt (Broadcast.from_frame frame) (λ _. ok n)
        (λ b. do
          (n', f) ← rebroadcast n frame
          elim n'.ipaddr [ none ↦ ok n' | some own ↦ learn_broadcast clock frameid n' f b own ])

  -- A frame whose hop is this node: here if it was the last, and to the next hop otherwise.
  abbrev pub at_hop :
      MeshNode G → Frame × Option ℕ → (Frame → Outcome (MeshNode G)) → Outcome (MeshNode G)
  at_hop n (frame, none) arrive = ok n
  at_hop n (frame, some nexthop) arrive =
      if nexthop == n.id
      then (do
        n' ← if length frame.route == 0 then arrive frame else ok n
        if ltb 0 (length frame.route) then ok (transmit n' (to_bytes frame)) else ok n')
      else ok n

  -- `MessageType::IPAssignSuccess`
  unfoldable pub on_assign_success : MeshNode G → Frame → Outcome (MeshNode G)
  unfolding route_shift to_bytes success_from_frame handle_ip_assignment
  on_assign_success n frame = do
    shifted ← route_shift os.profile frame
    at_hop n shifted
        (λ f. attempt (success_from_frame f) (λ _. ok n) (λ m. handle_ip_assignment n m.ipaddr))

  -- `MessageType::IPAssignFailure`; the reason is only logged
  unfoldable pub on_assign_failure : MeshNode G → Frame → Outcome (MeshNode G)
  unfolding route_shift to_bytes failure_from_frame
  on_assign_failure n frame = do
    shifted ← route_shift os.profile frame
    at_hop n shifted (λ f. attempt (failure_from_frame f) (λ _. ok n) (λ _. ok n))

module _ (P : Type 0) {G : Type 0} ⦃e : Enumn⦄ ⦃gc : GraphCrate G⦄ ⦃pc : PacketCrate P⦄
    ⦃os : Platform⦄ where
  -- `MessageType::IPPacket`
  unfoldable pub on_ip_packet : MeshNode G → Frame → Outcome (MeshNode G)
  unfolding IpPacket.from_frame handle_radio_ip
  on_ip_packet n frame =
      attempt (IpPacket.from_frame {P = P} frame) (λ _. ok n)
        (λ m. handle_radio_ip n m.packet frame)

  unfoldable pub dispatch : Clock → ℕ → MeshNode G → Frame → MessageType → Outcome (MeshNode G)
  unfolding on_ip_packet on_broadcast on_assign_success on_assign_failure
  dispatch clock frameid n frame MessageType.ip_packet = on_ip_packet n frame
  dispatch clock frameid n frame MessageType.broadcast = on_broadcast clock frameid n frame
  dispatch clock frameid n frame MessageType.ip_assign_success = on_assign_success n frame
  dispatch clock frameid n frame MessageType.ip_assign_failure = on_assign_failure n frame
  dispatch clock frameid n frame MessageType.route_discovery = ok n
  dispatch clock frameid n frame MessageType.route_success = ok n
  dispatch clock frameid n frame MessageType.route_failure = ok n
  dispatch clock frameid n frame MessageType.transmit_request = ok n
  dispatch clock frameid n frame MessageType.transmit_confirm = ok n

  -- A complete frame is acted on.
  unfoldable pub act : Clock → ℕ → MeshNode G → Option Frame → Outcome (MeshNode G)
  unfolding dispatch msgtype
  act clock frameid n none = ok n
  act clock frameid n (some frame) = do kind ← msgtype frame; dispatch clock frameid n frame kind

  -- A parsed frame.
  unfoldable pub on_frame : Clock → ℕ → MeshNode G → Frame → Outcome (MeshNode G)
  unfolding reassemble act
  on_frame clock frameid n frame = do
    (rx, complete) ← reassemble n.rxchunks frame
    act clock frameid (record n { rxchunks = rx }) complete

  -- Bytes from the radio; those that are no frame are dropped.
  unfoldable pub on_radio : Clock → ℕ → MeshNode G → List ℕ → Outcome (MeshNode G)
  unfolding from_bytes on_frame
  on_radio clock frameid n bytes =
      attempt (from_bytes bytes) (λ _. ok n) (λ frame. on_frame clock frameid n frame)
