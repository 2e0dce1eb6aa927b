-- ===== src/Examples/UnitTests.antt =====
-- The unit tests of the repository pass, with the stand-ins for the crates.
use lora_mesh_rs.Prelude.{ℕ, List, ◌≡◌, refl}
use lora_mesh_rs.Prelude.Outcome.{ok}
use lora_mesh_rs.Chunk.{chunk_data, chunk_loop}
use lora_mesh_rs.Frame.{chunked, header}
use lora_mesh_rs.UnitTests.{frame_chunking, ippacket_tofrom_frame, broadcast_tofrom_frame}
use lora_mesh_rs.Examples.Hex.{the_device}
use lora_mesh_rs.Examples.Crates.{the_enums, packets}

frame_chunking_passes : frame_chunking (List ℕ) ≡ ok tt
unfolding frame_chunking chunked chunk_data chunk_loop header
frame_chunking_passes = refl

ippacket_tofrom_frame_passes : ippacket_tofrom_frame (List ℕ) ≡ ok tt
unfolding ippacket_tofrom_frame header
ippacket_tofrom_frame_passes = refl

broadcast_tofrom_frame_passes : broadcast_tofrom_frame ≡ ok tt
unfolding broadcast_tofrom_frame header
broadcast_tofrom_frame_passes = refl
