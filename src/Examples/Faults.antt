-- ===== src/Examples/Faults.antt =====
-- The theorems on what makes a node panic, on the nodes of a small mesh.
use lora_mesh_rs.Prelude.{ℕ, ◌≡◌, refl, inl, List, [], some, arith, byte_eq, bytes_eq}
use lora_mesh_rs.Prelude.Outcome.{ok, panic, Panic, unwrap_none}
use lora_mesh_rs.Kinds.{final_chunk, broadcast, ip_assign_success}
use lora_mesh_rs.Util.{ip}
use lora_mesh_rs.Frame.{Frame, to_bytes, header, txflag, msgtype}
use lora_mesh_rs.Message.Broadcast
use lora_mesh_rs.Message.Broadcast.{BroadcastMessage}
use lora_mesh_rs.Node.Receive.{key_of, on_radio}
use lora_mesh_rs.Node.Crashes.{
  on_radio_bad_flag, on_radio_bad_kind, on_radio_empty_answer, on_radio_empty_broadcast,
}
use lora_mesh_rs.Examples.Crates.{the_enums, the_machine, graphs, packets}
use lora_mesh_rs.Examples.Wire.{packet_frame, odd_frame}
use lora_mesh_rs.Examples.Routing.{ticks, asking, asking_header}
use lora_mesh_rs.Examples.Nodes.{lone, gateway, asking_frame, no_chunks}

abbrev bad_flag : Frame
bad_flag = record packet_frame { txflag = 3 }

on_radio_bad_flag_example :
    on_radio (List ℕ) ticks 30 (lone 7) (to_bytes bad_flag) ≡ panic unwrap_none
on_radio_bad_flag_example = on_radio_bad_flag (List ℕ) ticks 30 (lone 7) bad_flag refl (omega arith)

odd_flag : txflag odd_frame ≡ ok final_chunk
unfolding txflag
odd_flag = refl

on_radio_bad_kind_example :
    on_radio (List ℕ) ticks 30 (lone 7) (to_bytes odd_frame) ≡ panic unwrap_none
on_radio_bad_kind_example =
    on_radio_bad_kind (List ℕ) ticks 30 (lone 7) odd_frame refl odd_flag (λ h. omega arith)
      (no_chunks (key_of odd_frame))

-- An answer and a broadcast with no route.
abbrev lost_answer : Frame
lost_answer = record packet_frame { msgtype = 2; routeoffset = 0; route = [] }

lost_answer_flag : txflag lost_answer ≡ ok final_chunk
unfolding txflag
lost_answer_flag = refl

lost_answer_kind : msgtype lost_answer ≡ ok ip_assign_success
unfolding msgtype
lost_answer_kind = refl

on_radio_empty_answer_example :
    (x : Panic) × (on_radio (List ℕ) ticks 30 (lone 7) (to_bytes lost_answer) ≡ panic x)
on_radio_empty_answer_example =
    on_radio_empty_answer (List ℕ) ticks 30 (lone 7) lost_answer ip_assign_success refl refl
      lost_answer_flag lost_answer_kind (inl refl) (no_chunks (key_of lost_answer))

abbrev lost_broadcast : Frame
lost_broadcast = record asking_frame { routeoffset = 0; route = [] }

lost_broadcast_flag : txflag lost_broadcast ≡ ok final_chunk
unfolding txflag
lost_broadcast_flag = refl

lost_broadcast_kind : msgtype lost_broadcast ≡ ok broadcast
unfolding msgtype
lost_broadcast_kind = refl

abbrev lost_asking : BroadcastMessage
lost_asking = record asking { header = some (record asking_header { routeoffset = 0; route = [] }) }

lost_broadcast_read : Broadcast.from_frame lost_broadcast ≡ ok lost_asking
unfolding Broadcast.from_frame header
lost_broadcast_read = refl

on_radio_empty_broadcast_example :
    (x : Panic) × (on_radio (List ℕ) ticks 30 gateway (to_bytes lost_broadcast) ≡ panic x)
on_radio_empty_broadcast_example =
    on_radio_empty_broadcast (List ℕ) ticks 30 gateway lost_broadcast lost_asking (ip 172 16 0 1)
      refl refl refl refl lost_broadcast_flag lost_broadcast_kind lost_broadcast_read
      (no_chunks (key_of lost_broadcast))
