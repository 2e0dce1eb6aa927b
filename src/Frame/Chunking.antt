-- ===== src/Frame/Chunking.antt =====
-- `Frame::chunked` and `recombine_chunks` of src/stack/frame.rs.
use lora_mesh_rs.Prelude.{
  ℕ, suc, ◌+◌, ◌-◌, ◌%◌, ◌<◌, ◌≡◌, refl, sym, ap, ◌∙◌, List, [], ◌∷◌, ◌++◌, map, append_assoc,
  append-nil, flatten, arith, ltb, lt→ltb, ge→ltb, length, set, some, if◌then◌else◌,
}
use lora_mesh_rs.Prelude.Outcome.{
  ok, panic, diverges, Panic, unwrap_none, expect, ◌>>=◌, bind_inv, expect_inv,
}
use lora_mesh_rs.Chunk.{chunk_data, chunk_loop}
use lora_mesh_rs.Chunk.Laws.{Divides, IsChunking, chunk_data-Divides, chunk_loop-zero}
use lora_mesh_rs.Kinds.{Enumn, tx_to_u8, msg_to_u8}
use lora_mesh_rs.Frame.{
  Frame, FrameHeader, to_bytes, header, header_bytes, txflag, msgtype, add_headers, chunked,
  combine_payloads, recombine_chunks,
}
use lora_mesh_rs.Frame.Codec.{IsRouted}

-- The frame that carries a chunk which is not the last: its flag says that more chunks follow.
abbrev pub piece : Frame → List ℕ → Frame
piece f p = record f { txflag = 1; payload = p }

-- The frames of a division of the payload. The last keeps the frame's own flag.
abbrev pub pieces : Frame → List (List ℕ) → List Frame
pieces f [] = []
pieces f (p ∷ []) = record f { payload = p } ∷ []
pieces f (p ∷ q ∷ ps) = piece f p ∷ pieces f (q ∷ ps)

-- The header of a frame is read off its fields.
pub record IsHeaderOf (h : FrameHeader) (f : Frame) : Type 0 where
  pub txflag_is : tx_to_u8 h.txflag ≡ f.txflag
  pub frameid_is : h.frameid ≡ f.frameid
  pub msgtype_is : msg_to_u8 h.msgtype ≡ f.msgtype
  pub sender_is : h.sender ≡ f.sender
  pub offset_is : h.routeoffset ≡ length f.route
  pub route_is : h.route ≡ f.route

combine_payloads-pieces :
    (f : Frame) (combined : List ℕ) (ps : List (List ℕ))
    → combine_payloads combined (pieces f ps) ≡ combined ++ flatten ps
unfolding combine_payloads flatten
combine_payloads-pieces f combined [] = sym (append-nil combined)
combine_payloads-pieces f combined (p ∷ []) = ap (λ t. combined ++ t) (sym (append-nil p))
combine_payloads-pieces f combined (p ∷ q ∷ ps) =
    combine_payloads-pieces f (combined ++ p) (q ∷ ps) ∙ append_assoc combined p (flatten (q ∷ ps))

module _ ⦃e : Enumn⦄ where
  pub header_inv : (f : Frame) (h : FrameHeader) → header f ≡ ok h → IsHeaderOf h f
  unfolding header txflag msgtype
  header_inv f h p =
      let (state, es, after) = bind_inv (expect (e.tx_n f.txflag) unwrap_none) _ p in
      let (kind, ek, result) = bind_inv (expect (e.msg_n f.msgtype) unwrap_none) _ after in
      let is_tx : e.tx_n f.txflag ≡ some state = expect_inv _ _ _ es in
      let is_msg : e.msg_n f.msgtype ≡ some kind = expect_inv _ _ _ ek in
      ground (arith, e.tx_n_only f.txflag state is_tx, e.msg_n_only f.msgtype kind is_msg)

  -- Under a right length byte, the header's bytes and a payload print like a frame.
  header_bytes_lem :
      (f : Frame) (h : FrameHeader) (p : List ℕ)
      → IsHeaderOf h f
      → IsRouted f
      → length f.route < 256
      → header_bytes h ++ p ≡ to_bytes (record f { payload = p })
  unfolding header_bytes to_bytes
  header_bytes_lem f h p k r b =
      let m : h.routeoffset % 256 ≡ f.routeoffset = omega (arith, k, r) in
      cc (m, k.txflag_is, k.frameid_is, k.msgtype_is, k.sender_is, k.route_is)

  -- The bytes of chunk `i` of `n`.
  abbrev flagged : ℕ → ℕ → List ℕ → List ℕ
  flagged n i chunk = if ltb i (n - 1) then set chunk 0 1 else chunk

  add_headers-cons :
      (f : Frame) (h : FrameHeader) (n i : ℕ) (p : List ℕ) (ps : List (List ℕ))
      → header f ≡ ok h
      → add_headers f n i (p ∷ ps)
        ≡ (add_headers f n (suc i) ps >>= λ chunks. ok (flagged n i (header_bytes h ++ p) ∷ chunks))
  unfolding add_headers
  add_headers-cons f h n i p ps eh = rw eh

  flagged_more :
      (f : Frame) (n i : ℕ) (p : List ℕ)
      → i < n - 1
      → flagged n i (to_bytes (record f { payload = p })) ≡ to_bytes (piece f p)
  unfolding to_bytes
  flagged_more f n i p h = rw (lt→ltb i (n - 1) h)

  -- The loop of `chunked` from index `i`, on the last chunks of `n`.
  add_headers_lem :
      (f : Frame) (h : FrameHeader) (n i : ℕ) (ps : List (List ℕ))
      → header f ≡ ok h
      → IsRouted f
      → length f.route < 256
      → i + length ps ≡ n
      → add_headers f n i ps ≡ ok (map to_bytes (pieces f ps))
  add_headers_lem f h n i [] eh r b e = unfold add_headers in refl
  add_headers_lem f h n i (p ∷ []) eh r b e = rw (
    add_headers-cons f h n i p [] eh,
    add_headers_lem f h n (suc i) [] eh r b (omega arith),
    header_bytes_lem f h p (header_inv f h eh) r b,
    ge→ltb i (n - 1) (omega arith),
  )
  add_headers_lem f h n i (p ∷ q ∷ ps) eh r b e = rw (
    add_headers-cons f h n i p (q ∷ ps) eh,
    add_headers_lem f h n (suc i) (q ∷ ps) eh r b (omega arith),
    header_bytes_lem f h p (header_inv f h eh) r b,
    flagged_more f n i p (omega arith),
  )

  add_headers_panic :
      (f : Frame) (x : Panic) (m : ℕ) (ps : List (List ℕ))
      → header f ≡ panic x
      → IsChunking m ps
      → add_headers f (length ps) 0 ps ≡ panic x
  unfolding add_headers
  add_headers_panic f x m [] eh k = absurd k
  add_headers_panic f x m (p ∷ ps) eh k = rw eh

  -- A frame with a header, a right length byte and a route shorter than 256 is cut, for a positive
  -- chunk size, into the bytes of frames: their payloads divide its payload, the header is its
  -- own, and all but the last have the flag that more chunks follow.
  pub chunked_lem :
      (f : Frame) (h : FrameHeader) (m : ℕ)
      → 0 < m
      → header f ≡ ok h
      → IsRouted f
      → length f.route < 256
      → (ps : List (List ℕ)) × Divides m f.payload ps
        × (chunked f m ≡ ok (map to_bytes (pieces f ps)))
  unfolding chunked
  chunked_lem f h m p eh r b =
      let (ps, e, d) = chunk_data-Divides f.payload m p in
      (ps, d, rw e (add_headers_lem f h (length ps) 0 ps eh r b (omega arith)))

  -- The parts of a frame combine to the frame, by the header of any frame that has its fields.
  pub recombine_chunks-pieces :
      (f : Frame) (h : FrameHeader) (ps : List (List ℕ))
      → IsHeaderOf h f
      → IsRouted f
      → length f.route < 256
      → flatten ps ≡ f.payload
      → recombine_chunks (pieces f ps) h ≡ f
  unfolding recombine_chunks
  recombine_chunks-pieces f h ps k r b d =
      let l : h.routeoffset % 256 ≡ f.routeoffset = omega (arith, k, r) in
      cc (
        l,
        k.txflag_is,
        k.frameid_is,
        k.msgtype_is,
        k.sender_is,
        k.route_is,
        d,
        combine_payloads-pieces f [] ps,
      )

  -- With chunk size zero, on a frame with a payload that is not empty, the loop of `chunk_data`
  -- does not end in any number of rounds, whatever chunks it has, and so `chunked` never returns.
  pub chunked-zero :
      (f : Frame) (x : ℕ) (rest : List ℕ) (fuel : ℕ) (ret : List (List ℕ))
      → f.payload ≡ x ∷ rest
      → (chunk_loop fuel f.payload 0 ret ≡ diverges) × (chunked f 0 ≡ diverges)
  unfolding chunked chunk_data
  chunked-zero f x rest fuel ret e = (
    rw (e, chunk_loop-zero fuel x rest ret),
    rw (e, chunk_loop-zero (suc (length (x ∷ rest))) x rest []),
  )

  -- For a positive chunk size, `chunked` of a frame whose header cannot be made panics as making
  -- the header does.
  chunked_bad_kind :
      (f : Frame) (m : ℕ) (x : Panic) → 0 < m → header f ≡ panic x → chunked f m ≡ panic x
  unfolding chunked
  chunked_bad_kind f m x p eh =
      let (ps, e, d) = chunk_data-Divides f.payload m p in
      rw e (add_headers_panic f x m ps eh d.chunking)
