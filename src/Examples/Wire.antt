-- ===== src/Examples/Wire.antt =====
-- The theorems on frames, chunks, messages and keys, on concrete frames.
use lora_mesh_rs.Prelude.{
  All, ◌≤◌, ℕ, ◌≡◌, refl, ◌⊎◌, List, [], ◌∷◌, none, some, arith, length, map, true,
}
use lora_mesh_rs.Prelude.Outcome.{ok, err, diverges, invalid_data, ◌>>=◌}
use lora_mesh_rs.Kinds.{final_chunk, ip_packet}
use lora_mesh_rs.Util.{ip}
use lora_mesh_rs.Chunk.{chunk_data, chunk_loop}
use lora_mesh_rs.Chunk.Laws.{Divides, chunk_data-Divides}
use lora_mesh_rs.Frame.{
  Frame, FrameHeader, dev, to_bytes, from_bytes, route_unshift, header, chunked,
}
use lora_mesh_rs.Frame.Codec.{IsRouted, IsShort, from_bytes-to_bytes, from_bytes_total}
use lora_mesh_rs.Frame.Sizes.{chunked_sizes}
use lora_mesh_rs.Frame.Chunking.{pieces, chunked_lem, chunked-zero}
use lora_mesh_rs.Message.Broadcast
use lora_mesh_rs.Message.Broadcast.{BroadcastMessage}
use lora_mesh_rs.Message.RoundTrip.{received, broadcast_roundtrip}
use lora_mesh_rs.Message.Utf8.{is_utf8}
use lora_mesh_rs.Examples.Crates.{the_enums, packets}

-- A packet of five bytes, from node 3 over nodes 7 and 9.
abbrev pub packet_frame : Frame
packet_frame = record {
  txflag = 0;
  frameid = 17;
  msgtype = 9;
  sender = 3;
  routeoffset = 2;
  route = 7 ∷ 9 ∷ [];
  payload = 10 ∷ 11 ∷ 12 ∷ 13 ∷ 14 ∷ [];
}

abbrev pub packet_header : FrameHeader
packet_header = record {
  txflag = final_chunk;
  frameid = 17;
  msgtype = ip_packet;
  sender = 3;
  routeoffset = 2;
  route = 7 ∷ 9 ∷ [];
}

pub packet-header : header packet_frame ≡ ok packet_header
unfolding header
packet-header = refl

abbrev spent_frame : Frame
spent_frame = record packet_frame { routeoffset = 0; route = [] }

abbrev pub odd_frame : Frame
odd_frame = record packet_frame { msgtype = 77 }

abbrev gateway_news : BroadcastMessage
gateway_news = record {
  header = none;
  isgateway = true;
  ip_offset = 4;
  ipaddr = some (ip 172 16 0 1);
}

chunk_data-Divides_example :
    (cs : List (List ℕ)) × (chunk_data packet_frame.payload 2 ≡ ok cs)
    × Divides 2 packet_frame.payload cs
chunk_data-Divides_example = chunk_data-Divides packet_frame.payload 2 (omega arith)

chunked_lem_example :
    (ps : List (List ℕ)) × Divides 2 packet_frame.payload ps
    × (chunked packet_frame 2 ≡ ok (map to_bytes (pieces packet_frame ps)))
chunked_lem_example =
    chunked_lem packet_frame packet_header 2 (omega arith) packet-header refl (omega arith)

chunked-zero_example :
    (chunk_loop 1000 packet_frame.payload 0 [] ≡ diverges) × (chunked packet_frame 0 ≡ diverges)
chunked-zero_example = chunked-zero packet_frame 10 (11 ∷ 12 ∷ 13 ∷ 14 ∷ []) 1000 [] refl

from_bytes-to_bytes_example : from_bytes (to_bytes packet_frame) ≡ ok packet_frame
from_bytes-to_bytes_example = from_bytes-to_bytes packet_frame refl

from_bytes_total_example :
    ((from_bytes (0 ∷ 1 ∷ 9 ∷ 3 ∷ 2 ∷ 7 ∷ []) ≡ err invalid_data)
      × IsShort (0 ∷ 1 ∷ 9 ∷ 3 ∷ 2 ∷ 7 ∷ []))
    ⊎ ((f : Frame) × (from_bytes (0 ∷ 1 ∷ 9 ∷ 3 ∷ 2 ∷ 7 ∷ []) ≡ ok f)
        × (to_bytes f ≡ 0 ∷ 1 ∷ 9 ∷ 3 ∷ 2 ∷ 7 ∷ [])
        × IsRouted f)
from_bytes_total_example = from_bytes_total (0 ∷ 1 ∷ 9 ∷ 3 ∷ 2 ∷ 7 ∷ [])

unshifted :
    route_unshift dev spent_frame 5 ≡ ok (record packet_frame { routeoffset = 1; route = 5 ∷ [] })
unfolding route_unshift
unshifted = refl

broadcast_roundtrip_example :
    (from_bytes (to_bytes (Broadcast.to_frame gateway_news 1 1 (1 ∷ []))) >>= Broadcast.from_frame)
    ≡ ok (received gateway_news 1 1 (1 ∷ []))
broadcast_roundtrip_example = broadcast_roundtrip gateway_news 1 1 (1 ∷ []) (omega arith)

euro_is_utf8 : is_utf8 (0xe2 ∷ 0x82 ∷ 0xac ∷ []) ≡ true
unfolding is_utf8
euro_is_utf8 = refl

abbrev small_packet : List ℕ
small_packet = 69 ∷ 0 ∷ 0 ∷ []

chunked_sizes_example :
    (c : List ℕ) × (cs : List (List ℕ)) × (chunked packet_frame 2 ≡ ok (c ∷ cs))
    × (length c ≡ 9)
    × All (λ d. length d ≤ 9) (c ∷ cs)
chunked_sizes_example =
    chunked_sizes packet_frame packet_header 2 (omega arith) (omega arith) packet-header refl
      (omega arith)
