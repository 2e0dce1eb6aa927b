-- ===== src/UnitTests.antt =====
-- The unit tests of src/settings.rs, src/stack/frame.rs, src/stack/message/broadcast.rs and
-- src/stack/message/ippacket.rs, as calls that end well where the test passes.
use lora_mesh_rs.Prelude.{
  ℕ, Bool, true, false, not, List, [], ◌∷◌, ◌++◌, Option, none, some, ◌==◌, length, get_elem?,
  bytes_beq,
}
use lora_mesh_rs.Prelude.Outcome.{
  Outcome, ok, panic, out_of_range, unwrap_none, no_settings, test_failed, ◌>>=◌, ◌>>◌, expect,
  attempt, assert,
}
use lora_mesh_rs.Prelude.Text.{codes}
use lora_mesh_rs.Kinds.{Enumn}
use lora_mesh_rs.Util.{ip, ip_beq, index}
use lora_mesh_rs.Frame.{Frame, to_bytes, from_bytes, header, chunked, recombine_chunks}
use lora_mesh_rs.Message.Broadcast
use lora_mesh_rs.Message.Broadcast.{BroadcastMessage}
use lora_mesh_rs.Message.IpPacket
use lora_mesh_rs.Message.IpPacket.{PacketCrate, IpPacketMessage, new_packet}
use lora_mesh_rs.Settings
use lora_mesh_rs.Settings.{ConfigCrate}
use lora_mesh_rs.Radio.{Device}

-- `r.unwrap()`
abbrev unwrap : {A : Type 0} → Outcome A → Outcome A
unwrap r = attempt r (λ e. panic unwrap_none) (λ a. ok a)

-- `assert_eq!(a, b)` on numbers, and on all bytes
abbrev assert_eq : ℕ → ℕ → Outcome (Unit {0})
assert_eq a b = assert (a == b) test_failed

abbrev assert_bytes : List ℕ → List ℕ → Outcome (Unit {0})
assert_bytes a b = assert (bytes_beq a b) test_failed

-- The packet of `frame_chunking`.
abbrev raw : List ℕ
raw =
    0x45 ∷ 0x00 ∷ 0x00 ∷ 0x42 ∷ 0x47 ∷ 0x07 ∷ 0x40 ∷ 0x00 ∷ 0x40 ∷ 0x11 ∷ 0x6e ∷ 0xcc ∷ 0xc0 ∷ 0xa8
    ∷ 0x01 ∷ 0x89 ∷ 0xc0 ∷ 0xa8 ∷ 0x01 ∷ 0xfe ∷ 0xba ∷ 0x2f ∷ 0x00 ∷ 0x35 ∷ 0x00 ∷ 0x2e ∷ 0x1d
    ∷ 0xf8 ∷ 0xbc ∷ 0x81 ∷ 0x01 ∷ 0x00 ∷ 0x00 ∷ 0x01 ∷ 0x00 ∷ 0x00 ∷ 0x00 ∷ 0x00 ∷ 0x00 ∷ 0x00
    ∷ 0x03 ∷ 0x61 ∷ 0x70 ∷ 0x69 ∷ 0x0c ∷ 0x73 ∷ 0x74 ∷ 0x65 ∷ 0x61 ∷ 0x6d ∷ 0x70 ∷ 0x6f ∷ 0x77
    ∷ 0x65 ∷ 0x72 ∷ 0x65 ∷ 0x64 ∷ 0x03 ∷ 0x63 ∷ 0x6f ∷ 0x6d ∷ 0x00 ∷ 0x00 ∷ 0x1c ∷ 0x00 ∷ 0x01 ∷ []

module _ (P : Type 0) ⦃e : Enumn⦄ ⦃pc : PacketCrate P⦄ where
  -- The second half of `frame_chunking`: the chunks are parsed and recombined.
  unfoldable pub recombination : P → Frame → List ℕ → List ℕ → Outcome (Unit {0})
  unfolding from_bytes header recombine_chunks IpPacket.from_frame
  recombination packet frame first second = do
    a ← unwrap (from_bytes first)
    b ← unwrap (from_bytes second)
    let rawchunks = a.payload ++ b.payload
    assert_bytes raw rawchunks
    packet2 ← expect (pc.new rawchunks) unwrap_none
    h ← header frame
    msg3 ← unwrap (IpPacket.from_frame {P = P} (recombine_chunks (a ∷ b ∷ []) h))
    x ← index (pc.as_ref packet2) 0
    y ← index raw 0
    assert_eq x y
    x' ← index (pc.as_ref packet2) 50
    y' ← index raw 50
    assert_eq x' y'

  -- `frame_chunking`
  unfoldable pub frame_chunking : Outcome (Unit {0})
  unfolding IpPacket.to_frame chunked recombination
  frame_chunking = do
    packet ← expect (pc.new raw) unwrap_none
    let frame = IpPacket.to_frame (new_packet packet) 1 3 []
    chunks ← chunked frame 45
    assert_eq (length raw) 66
    first ← expect (get_elem? chunks 0) out_of_range
    assert_eq (length first) 50
    second ← expect (get_elem? chunks 1) out_of_range
    assert_eq (length second) 26
    recombination packet frame first second

  -- `ippacket_tofrom_frame`
  unfoldable pub ippacket_tofrom_frame : ⦃dev : Device⦄ → Outcome (Unit {0})
  unfolding from_bytes IpPacket.from_frame
  ippacket_tofrom_frame ⦃dev⦄ = do
    bytes ←
        expect
          (dev.decode (
            codes
              "0000090002000445000023180440004011caa1ac100000ac100004e6ba0bb8000ff4914142433132330a"))
          unwrap_none
    frame2 ← unwrap (from_bytes bytes)
    msg2 ← unwrap (IpPacket.from_frame {P = P} frame2)
    assert_eq frame2.sender 0
    assert (ip_beq (pc.destination msg2.packet) (ip 172 16 0 4)) test_failed

-- `payload.get(i).unwrap()` is a byte.
abbrev assert_at : List ℕ → ℕ → ℕ → Outcome (Unit {0})
assert_at bytes i b = do x ← expect (get_elem? bytes i) unwrap_none; assert_eq x b

abbrev tested : BroadcastMessage
tested = record { header = none; isgateway = false; ip_offset = 4; ipaddr = some (ip 172 16 0 5) }

module _ ⦃e : Enumn⦄ where
  -- `broadcast_tofrom_frame`
  unfoldable pub broadcast_tofrom_frame : Outcome (Unit {0})
  unfolding Broadcast.to_frame Broadcast.from_frame to_bytes from_bytes
  broadcast_tofrom_frame = do
    let frame = Broadcast.to_frame tested 1 5 (5 ∷ [])
    assert_eq frame.sender 5
    assert_at frame.payload 0 0
    assert_at frame.payload 1 4
    assert_at frame.payload 2 172
    assert_at frame.payload 3 16
    assert_at frame.payload 4 0
    assert_at frame.payload 5 5
    let bytes = to_bytes frame
    assert_at bytes 6 0
    assert_at bytes 7 4
    assert_at bytes 8 172
    assert_at bytes 9 16
    assert_at bytes 10 0
    assert_at bytes 11 5
    frame2 ← unwrap (from_bytes bytes)
    msg2 ← unwrap (Broadcast.from_frame frame2)
    assert_eq frame2.sender 5
    h ← expect msg2.header unwrap_none
    assert_eq h.sender 5
    assert (not msg2.isgateway) test_failed
    addr ← expect msg2.ipaddr unwrap_none
    assert (ip_beq addr (ip 172 16 0 5)) test_failed

-- `assert_eq!(a, &None)`
abbrev is_none : {A : Type 0} → Option A → Bool
is_none none = true
is_none (some a) = false

-- `settings_load`
unfoldable pub settings_load : ⦃crate : ConfigCrate⦄ → Outcome (Unit {0})
unfolding Settings.new
settings_load = do
  loaded ← Settings.new
  opt ← expect loaded no_settings
  assert_eq opt.nodeid 0
  assert (not opt.isgateway) test_failed
  assert_bytes opt.radioport (codes "/dev/ttyUSB0")
  assert_eq opt.maxpacketsize 200
  assert_eq opt.maxhops 2
  assert (is_none opt.radiocfg) test_failed
