-- ===== src/Node/Reassembly.antt =====
-- A frame that is cut by `Frame::chunked`, sent chunk by chunk, and received by the code of
-- src/node.rs.
use lora_mesh_rs.Prelude.{
  ℕ, ◌<◌, ◌≡◌, refl, sym, ap, ◌∙◌, Bool, true, false, List, [], ◌∷◌, ◌++◌, map, append_assoc,
  append-nil, flatten, All, Option, none, some, length, bytes_eq,
}
use lora_mesh_rs.Prelude.Outcome.{Outcome, ok, ◌>>=◌, bind_inv, ok_inj}
use lora_mesh_rs.Prelude.HashMap
use lora_mesh_rs.Chunk.Laws.{Divides, IsChunking}
use lora_mesh_rs.Kinds.{
  Enumn, TransmissionState, final_chunk, more_chunks, has_more_chunks, tx_to_u8,
}
use lora_mesh_rs.Frame.{
  Frame, FrameHeader, to_bytes, from_bytes, txflag, header, chunked, recombine_chunks,
}
use lora_mesh_rs.Frame.Codec.{IsRouted, from_bytes-to_bytes}
use lora_mesh_rs.Frame.Chunking.{header_inv, piece, pieces, chunked_lem, recombine_chunks-pieces}
use lora_mesh_rs.Node.Receive.{RxChunks, key_of, finish_chunks, keep_chunk, settle, reassemble}
use lora_mesh_rs.Node.Slots.{Slot, extend, emit, mine, slot_step}
use lora_mesh_rs.Node.Feed.{feed, feed_slot, feed_slots}

-- Every chunk that the radio delivers is parsed.
unfoldable pub parse_all : List (List ℕ) → Outcome (List Frame)
parse_all [] = ok []
parse_all (bytes ∷ rest) = do f ← from_bytes bytes; fs ← parse_all rest; ok (f ∷ fs)

pieces-parse :
    (f : Frame) (ps : List (List ℕ))
    → IsRouted f
    → parse_all (map to_bytes (pieces f ps)) ≡ ok (pieces f ps)
unfolding parse_all
pieces-parse f [] r = refl
pieces-parse f (p ∷ []) r = rw (from_bytes-to_bytes (record f { payload = p }) r)
pieces-parse f (p ∷ q ∷ ps) r = rw (from_bytes-to_bytes (piece f p) r, pieces-parse f (q ∷ ps) r)

-- The chunks that a slot holds.
abbrev pub held : Slot → List Frame
held none = []
held (some chunks) = chunks

pub held-extend : (slot : Slot) (f : Frame) → held (extend slot f) ≡ held slot ++ f ∷ []
held-extend none f = refl
held-extend (some chunks) f = refl

module _ ⦃e : Enumn⦄ where
  -- The frame says that it is the last, and has a header.
  pub record IsFinal (f : Frame) (h : FrameHeader) : Type 0 where
    pub header_is : header f ≡ ok h
    pub flag_is : e.tx_n f.txflag ≡ some final_chunk
    pub routed : IsRouted f
    pub short : length f.route < 256

  pub slot_step-piece :
      (slot : Slot) (f : Frame) (p : List ℕ)
      → slot_step slot (piece f p) ≡ ok (extend slot (piece f p), none)
  unfolding slot_step txflag has_more_chunks
  slot_step-piece slot f p =
      let one : e.tx_n 1 ≡ some more_chunks = unfold tx_to_u8 in e.tx_n_of more_chunks in rw one

  finish-held :
      (slot : Slot) (g : Frame) (h : FrameHeader)
      → IsFinal g h
      → finish_chunks slot g ≡ ok (recombine_chunks (held slot ++ g ∷ []) h)
  unfolding finish_chunks
  finish-held none g h v = ap ok (
      sym (
        recombine_chunks-pieces g h (g.payload ∷ []) (header_inv g h v.header_is) v.routed v.short
          (unfold flatten in append-nil g.payload)))
  finish-held (some chunks) g h v = rw v.header_is

  pub slot_step-final :
      (slot : Slot) (g : Frame) (h : FrameHeader)
      → IsFinal g h
      → slot_step slot g ≡ ok (none, some (recombine_chunks (held slot ++ g ∷ []) h))
  unfolding slot_step txflag has_more_chunks
  slot_step-final slot g h v = rw (v.flag_is, finish-held slot g h v)

  pub IsFinal-payload :
      (f : Frame) (h : FrameHeader) (p : List ℕ)
      → IsFinal f h
      → IsFinal (record f { payload = p }) h
  IsFinal-payload f h p v = record {
    header_is = unfold header in v.header_is;
    flag_is = v.flag_is;
    routed = v.routed;
    short = v.short;
  }

  -- The frames of a division complete one message, and leave the slot empty.
  feed_slot-pieces :
      (slot : Slot) (f : Frame) (h : FrameHeader) (m : ℕ) (ps : List (List ℕ))
      → IsFinal f h
      → IsChunking m ps
      → feed_slot slot (pieces f ps) ≡ ok (none, recombine_chunks (held slot ++ pieces f ps) h ∷ [])
  unfolding feed_slot
  feed_slot-pieces slot f h m [] v k = absurd k
  feed_slot-pieces slot f h m (p ∷ []) v k =
      rw (slot_step-final slot (record f { payload = p }) h (IsFinal-payload f h p v))
  feed_slot-pieces slot f h m (p ∷ q ∷ ps) v k =
      let again = feed_slot-pieces (extend slot (piece f p)) f h m (q ∷ ps) v k.2 in
      rw (
        slot_step-piece slot f p,
        again,
        held-extend slot (piece f p),
        append_assoc (held slot) (piece f p ∷ []) (pieces f (q ∷ ps)),
      )

  abbrev pub HasHeader : Frame → Type 0
  HasHeader g = (h : FrameHeader) × (header g ≡ ok h)

  txflag_of_header : (g : Frame) → HasHeader g → (state : TransmissionState) × (txflag g ≡ ok state)
  unfolding header
  txflag_of_header g (h, eh) = let (state, es, _) = bind_inv (txflag g) _ eh in (state, es)

  finish_total :
      (slot : Slot) (g : Frame) → HasHeader g → (whole : Frame) × (finish_chunks slot g ≡ ok whole)
  unfolding finish_chunks
  finish_total none g v = (g, refl)
  finish_total (some chunks) g (h, eh) = (recombine_chunks (chunks ++ g ∷ []) h, rw eh)

  settle_total :
      (rx : RxChunks) (g : Frame) (more : Bool)
      → HasHeader g
      → (rx' : RxChunks) × (o : Option Frame) × (settle rx g more ≡ ok (rx', o))
  unfolding settle
  settle_total rx g true v = (keep_chunk rx g, none, refl)
  settle_total rx g false v =
      let (whole, e) = finish_total (HashMap.get (key_of g) rx) g v in
      (HashMap.remove (key_of g) rx, some whole, rw e)

  pub reassemble_total :
      (rx : RxChunks) (g : Frame)
      → HasHeader g
      → (rx' : RxChunks) × (o : Option Frame) × (reassemble rx g ≡ ok (rx', o))
  unfolding reassemble
  reassemble_total rx g v =
      let (state, es) = txflag_of_header g v in
      let (rx', o, e) = settle_total rx g (has_more_chunks state) v in (rx', o, rw es e)

  -- Frames with headers are received without a panic.
  feed_total :
      (rx : RxChunks) (fs : List Frame)
      → All HasHeader fs
      → (rx' : RxChunks) × (outs : List Frame) × (feed rx fs ≡ ok (rx', outs))
  unfolding feed
  feed_total rx [] v = (rx, [], refl)
  feed_total rx (f ∷ fs) v =
      let (rx1, o, now) = reassemble_total rx f v.0 in
      let (rx2, outs, later) = feed_total rx1 fs v.1 in (rx2, emit o outs, rw (now, later))

  -- The chunks of a frame, fed to an empty slot, complete the frame.
  feed_slot_whole :
      (f : Frame) (h : FrameHeader) (m : ℕ) (ps : List (List ℕ))
      → IsFinal f h
      → Divides m f.payload ps
      → feed_slot none (pieces f ps) ≡ ok (none, f ∷ [])
  feed_slot_whole f h m ps v d =
      feed_slot-pieces none f h m ps v d.chunking
      ∙ ap (λ g. ok (none, g ∷ []))
          (recombine_chunks-pieces f h ps (header_inv f h v.header_is) v.routed v.short d.joined)

  -- A frame with a header, a right length byte and a route shorter than 256, which says that it is
  -- the last of its message, is cut with a positive chunk size. The chunks, parsed, arrive in
  -- order, among any frames of other senders or frame ids, at a node that keeps no chunk under the
  -- key of the frame; all that arrive have headers. Then all are taken without a panic, what is
  -- completed under that key is the frame that was cut and nothing else, and no chunk is left
  -- under the key.
  pub reassembly :
      (f : Frame) (h : FrameHeader) (m : ℕ) (cs : List (List ℕ)) (frames fs : List Frame)
      (rx : RxChunks)
      → 0 < m
      → IsFinal f h
      → chunked f m ≡ ok cs
      → parse_all cs ≡ ok frames
      → mine (key_of f) fs ≡ frames
      → All HasHeader fs
      → HashMap.get (key_of f) rx ≡ none
      → (rx' : RxChunks) × (outs : List Frame) × (feed rx fs ≡ ok (rx', outs))
        × (mine (key_of f) outs ≡ f ∷ [])
        × (HashMap.get (key_of f) rx' ≡ none)
  reassembly f h m cs frames fs rx p v cut parsed own heads free =
      let (ps, d, e) = chunked_lem f h m p v.header_is v.routed v.short in
      let bytes : map to_bytes (pieces f ps) ≡ cs = ok_inj (sym e ∙ cut) in
      let same : pieces f ps ≡ frames =
        ok_inj (sym (pieces-parse f ps v.routed) ∙ ap parse_all bytes ∙ parsed) in
      let (rx', outs, taken) = feed_total rx fs heads in
      let seen : feed_slot (HashMap.get (key_of f) rx) (mine (key_of f) fs)
          ≡ ok (HashMap.get (key_of f) rx', mine (key_of f) outs) =
        feed_slots rx rx' (key_of f) fs outs taken in
      let alone : feed_slot (HashMap.get (key_of f) rx) (mine (key_of f) fs) ≡ ok (none, f ∷ []) =
        ap (λ s. feed_slot s (mine (key_of f) fs)) free
        ∙ ap (feed_slot none) (own ∙ sym same)
        ∙ feed_slot_whole f h m ps v d in
      let both = ok_inj (sym seen ∙ alone) in
      (
        rx',
        outs,
        taken,
        ap (λ (q : Slot × List Frame). q.1) both,
        ap (λ (q : Slot × List Frame). q.0) both,
      )
