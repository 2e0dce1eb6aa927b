-- ===== src/Frame.antt =====
-- src/stack/frame.rs: frames and their headers, as bytes, along a route, and in chunks.
-- `&mut self` methods return the new frame. A `u8` field is a number below 256; `Vec<u8>` is a
-- list of such numbers.
pub mod Codec
pub mod Route
pub mod Chunking
pub mod Sizes
pub mod Bytes
use lora_mesh_rs.Prelude.{
  ℕ, zero, suc, ◌+◌, ◌-◌, ◌%◌, ◌≡◌, Bool, List, [], ◌∷◌, ◌++◌, Option, none, some, ltb, ◌==◌,
  if◌then◌else◌, length, get_elem?, take, drop, set, get_last?,
}
use lora_mesh_rs.Prelude.Outcome.{
  Outcome, ok, err, panic, invalid_data, unwrap_none, out_of_range, overflow, ◌>>=◌, ok_or, expect,
}
use lora_mesh_rs.Chunk.{chunk_data}
use lora_mesh_rs.Kinds.{TransmissionState, MessageType, Enumn, tx_to_u8, msg_to_u8}
use lora_mesh_rs.Util.{get_range}

pub record FrameHeader : Type 0 where
  pub txflag : TransmissionState
  pub frameid : ℕ
  pub msgtype : MessageType
  pub sender : ℕ
  pub routeoffset : ℕ  -- usize
  pub route : List ℕ

pub record Frame : Type 0 where
  pub txflag : ℕ
  pub frameid : ℕ
  pub msgtype : ℕ
  pub sender : ℕ
  pub routeoffset : ℕ
  pub route : List ℕ
  pub payload : List ℕ

-- `FrameHeader::bytes`
unfoldable pub header_bytes : FrameHeader → List ℕ
unfolding tx_to_u8 msg_to_u8
header_bytes h =
    tx_to_u8 h.txflag ∷ h.frameid ∷ msg_to_u8 h.msgtype ∷ h.sender ∷ (h.routeoffset % 256) ∷ h.route

-- `Frame::from_header`
unfoldable pub from_header : FrameHeader → List ℕ → Frame
unfolding tx_to_u8 msg_to_u8
from_header h payload = record {
  txflag = tx_to_u8 h.txflag;
  frameid = h.frameid;
  msgtype = msg_to_u8 h.msgtype;
  sender = h.sender;
  routeoffset = h.routeoffset % 256;
  route = h.route;
  payload = payload;
}

-- `Frame::to_bytes`
unfoldable pub to_bytes : Frame → List ℕ
to_bytes f = f.txflag ∷ f.frameid ∷ f.msgtype ∷ f.sender ∷ f.routeoffset ∷ (f.route ++ f.payload)

-- `bytes.split_at(mid)`, which panics out of range.
unfoldable pub split_at : List ℕ → ℕ → Outcome (List ℕ × List ℕ)
split_at bytes mid =
    if ltb (length bytes) mid then panic out_of_range else ok (take mid bytes, drop mid bytes)

-- `Frame::from_bytes`
unfoldable pub from_bytes : List ℕ → Outcome Frame
unfolding get_range split_at
from_bytes bytes = do
  txflag ← ok_or (get_elem? bytes 0) invalid_data
  frameid ← ok_or (get_elem? bytes 1) invalid_data
  msgtype ← ok_or (get_elem? bytes 2) invalid_data
  sender ← ok_or (get_elem? bytes 3) invalid_data
  routeoffset ← ok_or (get_elem? bytes 4) invalid_data
  routes ← ok_or (get_range bytes 5 (5 + routeoffset)) invalid_data
  (left, right) ← split_at bytes (5 + routeoffset)
  ok (record {
    txflag = txflag;
    frameid = frameid;
    msgtype = msgtype;
    sender = sender;
    routeoffset = routeoffset;
    route = routes;
    payload = right;
  })

-- The two cargo profiles: `dev` panics when a `u8` overflows, `release` wraps.
pub data Profile : Type 0 where
  dev release : Profile

unfoldable pub add_u8 : Profile → ℕ → ℕ → Outcome ℕ
add_u8 dev a b = if ltb (a + b) 256 then ok (a + b) else panic overflow
add_u8 release a b = ok ((a + b) % 256)

unfoldable pub sub_u8 : Profile → ℕ → ℕ → Outcome ℕ
sub_u8 dev a b = if ltb a b then panic overflow else ok (a - b)
sub_u8 release a b = ok ((a + 256 - b) % 256)

-- `vec.drain(0..1)`: the drained part and what stays.
unfoldable pub drain_first : List ℕ → Outcome (List ℕ × List ℕ)
drain_first [] = panic out_of_range
drain_first (x ∷ xs) = ok (x ∷ [], xs)

-- `Frame::route_shift`
unfoldable pub route_shift : Profile → Frame → Outcome (Frame × Option ℕ)
unfolding sub_u8 drain_first
route_shift p f = do
  offset ← sub_u8 p f.routeoffset 1
  (shift, rest) ← drain_first f.route
  ok (record f { routeoffset = offset; route = rest }, get_last? shift)

-- `Frame::route_unshift`
unfoldable pub route_unshift : Profile → Frame → ℕ → Outcome Frame
unfolding add_u8
route_unshift p f nodeid = do
  offset ← add_u8 p f.routeoffset 1
  ok (record f { routeoffset = offset; route = nodeid ∷ f.route })

module _ ⦃e : Enumn⦄ where
  -- `Frame::txflag`
  unfoldable pub txflag : Frame → Outcome TransmissionState
  txflag f = expect (e.tx_n f.txflag) unwrap_none

  -- `Frame::msgtype`
  unfoldable pub msgtype : Frame → Outcome MessageType
  msgtype f = expect (e.msg_n f.msgtype) unwrap_none

  -- `Frame::header`
  unfoldable pub header : Frame → Outcome FrameHeader
  unfolding txflag msgtype
  header f = do
    state ← txflag f
    kind ← msgtype f
    ok (record {
      txflag = state;
      frameid = f.frameid;
      msgtype = kind;
      sender = f.sender;
      routeoffset = length f.route;
      route = f.route;
    })

  -- The `for` loop of `Frame::chunked`, from index `i`; `n` is `payloadchunks.len()`.
  unfoldable pub add_headers : Frame → ℕ → ℕ → List (List ℕ) → Outcome (List (List ℕ))
  unfolding header header_bytes
  add_headers f n i [] = ok []
  add_headers f n i (datachunk ∷ rest) = do
    h ← header f
    let chunk = header_bytes h ++ datachunk
    let flagged = if ltb i (n - 1) then set chunk 0 1 else chunk
    chunks ← add_headers f n (suc i) rest
    ok (flagged ∷ chunks)

  -- `Frame::chunked`
  unfoldable pub chunked : Frame → ℕ → Outcome (List (List ℕ))
  unfolding add_headers
  chunked f chunksize = do
    payloadchunks ← chunk_data f.payload chunksize
    add_headers f (length payloadchunks) 0 payloadchunks

-- The loop of `recombine_chunks`.
unfoldable pub combine_payloads : List ℕ → List Frame → List ℕ
combine_payloads combined [] = combined
combine_payloads combined (chunk ∷ chunks) = combine_payloads (combined ++ chunk.payload) chunks

-- `recombine_chunks`
unfoldable pub recombine_chunks : List Frame → FrameHeader → Frame
unfolding combine_payloads from_header
recombine_chunks chunks h = from_header h (combine_payloads [] chunks)
