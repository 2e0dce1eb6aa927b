-- ===== src/Examples/Going.antt =====
-- A gateway that goes through a round, on the broadcast of node 9 that node 7 has sent on.
use lora_mesh_rs.Prelude.{
  ℕ, List, ◌≡◌, refl, sym, ap, ◌∙◌, inl, subst, false, [], ◌∷◌, none, some, arith, byte_eq,
  bytes_eq,
}
use lora_mesh_rs.Prelude.Outcome.{ok, ok_inj}
use lora_mesh_rs.Prelude.HashMap
use lora_mesh_rs.Kinds.{final_chunk, broadcast, has_more_chunks}
use lora_mesh_rs.Util.{ip}
use lora_mesh_rs.Frame.{Frame, FrameHeader, dev, from_bytes, header, txflag}
use lora_mesh_rs.Message.Broadcast
use lora_mesh_rs.Message.Broadcast.{BroadcastMessage}
use lora_mesh_rs.Router
use lora_mesh_rs.Router.{packet_route, find_path}
use lora_mesh_rs.Examples.Routing.{letter}
use lora_mesh_rs.Tunnel.Total.{AlwaysSucceeds}
use lora_mesh_rs.Node.State.{MeshNode}
use lora_mesh_rs.Node.Receive.{RxChunks, reassemble}
use lora_mesh_rs.Node.Main.{Input, received, start, run}
use lora_mesh_rs.Node.Total.{IsHealthy, IsAcceptable}
use lora_mesh_rs.Node.Total.Frames.{IsHeard}
use lora_mesh_rs.Node.Total.Rounds.{Fits, run_total}
use lora_mesh_rs.Examples.Crates.{Edges, the_enums, the_machine, graphs, packets}
use lora_mesh_rs.Examples.Nodes.{gateway, one_round, asking_frame}

-- The gateway at the start of its loop.
abbrev started : MeshNode Edges
started = record gateway {
  router =
      Router.handle_gateway_assignment (Router.handle_ip_assignment gateway.router (ip 172 16 0 1))
        (ip 172 16 0 1);
}

starts : start gateway ≡ ok started
unfolding start
starts = refl

always : AlwaysSucceeds the_machine
always ran command = refl

abbrev asking_header : FrameHeader
asking_header = record {
  txflag = final_chunk;
  frameid = 1;
  msgtype = broadcast;
  sender = 9;
  routeoffset = 2;
  route = 7 ∷ 9 ∷ [];
}

abbrev asking : BroadcastMessage
asking = record { header = some asking_header; isgateway = false; ip_offset = 0; ipaddr = none }

asks : Broadcast.from_frame asking_frame ≡ ok asking
unfolding Broadcast.from_frame header
asks = refl

abbrev no_chunks_kept : RxChunks
no_chunks_kept = []

asking_frame-IsAcceptable : IsAcceptable 1 asking_frame
asking_frame-IsAcceptable = record {
  state = final_chunk;
  kind = broadcast;
  state_is = refl;
  kind_is = refl;
  routed = refl;
  short = omega arith;
  welcome = (asking, asks, inl refl, (λ addr e. cc), (7, 9 ∷ [], refl), omega arith);
}

complete : reassemble no_chunks_kept asking_frame ≡ ok ([], some asking_frame)
unfolding reassemble txflag has_more_chunks HashMap.get HashMap.remove
complete = refl

asking_frame-header : header asking_frame ≡ ok asking_header
unfolding header txflag
asking_frame-header = refl

some_inj : {a b : Frame} → some a ≡ some b → a ≡ b
some_inj h = cc

asking_frame-IsHeard : IsHeard 1 no_chunks_kept asking_frame
asking_frame-IsHeard = (
  (asking_header, asking_frame-header),
  λ rx g taken.
      subst (IsAcceptable 1) (some_inj (ap (λ q. q.1) (ok_inj (sym complete ∙ taken))))
        asking_frame-IsAcceptable,
)

parses : from_bytes (0 ∷ 1 ∷ 1 ∷ 9 ∷ 2 ∷ 7 ∷ 9 ∷ 0 ∷ 0 ∷ []) ≡ ok asking_frame
unfolding from_bytes
parses = refl

-- A packet for node 9, to which no route is known yet, comes from the tunnel as well.
abbrev busy_round : Input (List ℕ)
busy_round = record one_round { from_tunnel = received letter }

letter_unrouted : packet_route dev started.router letter ≡ ok none
unfolding packet_route find_path HashMap.get Router.handle_gateway_assignment
    Router.handle_ip_assignment HashMap.insert
letter_unrouted = refl

busy_round-Fits : Fits (busy_round ∷ []) started
busy_round-Fits = (
  (none, letter_unrouted, λ route e. cc),
  (λ f parsed.
      subst (IsHeard 1 no_chunks_kept) (ok_inj (sym parses ∙ parsed)) asking_frame-IsHeard),
  λ n' ran. tt,
)

run_total_example : (n' : MeshNode Edges) × (run (busy_round ∷ []) gateway ≡ ok n') × IsHealthy n'
run_total_example =
    run_total always (busy_round ∷ []) gateway started starts busy_round-Fits
      (record { sized = omega arith; tunip = ip 10 107 1 3; tunip_is = refl })
