-- ===== src/Frame/Bytes.antt =====
-- That `Frame::chunked` of src/stack/frame.rs gives bytes, fewer than 256, which one packet of the
-- device holds.
use lora_mesh_rs.Prelude.{
  ℕ, ◌+◌, ◌<◌, ◌≡◌, sym, ◌∙◌, List, [], ◌∷◌, ◌++◌, map, arith, All, All-append, length, flatten,
  subst,
}
use lora_mesh_rs.Prelude.Outcome.{ok, ok_inj}
use lora_mesh_rs.Util.{IsByte}
use lora_mesh_rs.Kinds.{Enumn}
use lora_mesh_rs.Chunk.Laws.{IsChunking}
use lora_mesh_rs.Frame.{Frame, FrameHeader, to_bytes, header, chunked}
use lora_mesh_rs.Frame.Route.{shifted}
use lora_mesh_rs.Frame.Codec.{IsRouted}
use lora_mesh_rs.Frame.Chunking.{piece, pieces, chunked_lem}
use lora_mesh_rs.Frame.Sizes.{length-to_bytes}

-- What a device takes for one packet: bytes, fewer than 256.
abbrev pub IsPacket : List ℕ → Type 0
IsPacket bytes = All IsByte bytes × (length bytes < 256)

-- The fields of a frame are of the types in the source.
pub record IsTyped (f : Frame) : Type 0 where
  pub flag_fits : IsByte f.txflag
  pub id_fits : IsByte f.frameid
  pub kind_fits : IsByte f.msgtype
  pub sender_fits : IsByte f.sender
  pub offset_fits : IsByte f.routeoffset
  pub route_fits : All IsByte f.route
  pub payload_fits : All IsByte f.payload

to_bytes-IsByte : (f : Frame) → IsTyped f → All IsByte (to_bytes f)
unfolding to_bytes
to_bytes-IsByte f t =
    let all = All-append IsByte f.route f.payload t.route_fits t.payload_fits in
    (t.flag_fits, (t.id_fits, (t.kind_fits, (t.sender_fits, (t.offset_fits, all)))))

to_bytes-IsPacket :
    (f : Frame) → IsTyped f → 5 + length f.route + length f.payload < 256 → IsPacket (to_bytes f)
to_bytes-IsPacket f t b = (to_bytes-IsByte f t, omega (arith, length-to_bytes f))

with_payload :
    (f : Frame) (p : List ℕ) (flag : ℕ)
    → IsByte flag
    → All IsByte p
    → IsTyped f
    → IsTyped (record f { txflag = flag; payload = p })
with_payload f p flag b h t = record {
  flag_fits = b;
  id_fits = t.id_fits;
  kind_fits = t.kind_fits;
  sender_fits = t.sender_fits;
  offset_fits = t.offset_fits;
  route_fits = t.route_fits;
  payload_fits = h;
}

pieces-IsPacket :
    (f : Frame) (m : ℕ) (ps : List (List ℕ))
    → IsTyped f
    → 5 + length f.route + m < 256
    → All (All IsByte) ps
    → IsChunking m ps
    → All IsPacket (map to_bytes (pieces f ps))
pieces-IsPacket f m [] t b h k = tt
pieces-IsPacket f m (p ∷ []) t b h k = (
  to_bytes-IsPacket (record f { payload = p }) (with_payload f p f.txflag t.flag_fits h.0 t)
      (omega arith),
  tt,
)
pieces-IsPacket f m (p ∷ q ∷ ps) t b h k = (
  to_bytes-IsPacket (piece f p) (with_payload f p 1 (omega arith) h.0 t) (omega arith),
  pieces-IsPacket f m (q ∷ ps) t b h.1 k.2,
)

parts_of : (xs ys : List ℕ) → All IsByte (xs ++ ys) → All IsByte xs × All IsByte ys
parts_of [] ys h = (tt, h)
parts_of (x ∷ xs) ys h = let (l, r) = parts_of xs ys h.1 in ((h.0, l), r)

flatten-bytes : (ps : List (List ℕ)) → All IsByte (flatten ps) → All (All IsByte) ps
unfolding flatten
flatten-bytes [] h = tt
flatten-bytes (p ∷ ps) h = let (l, r) = parts_of p (flatten ps) h in (l, flatten-bytes ps r)

-- The rest of a route has no larger bytes than the route.
pub shifted-IsTyped :
    (f : Frame) (rest : List ℕ)
    → length rest < 256
    → All IsByte rest
    → IsTyped f
    → IsTyped (shifted f rest)
shifted-IsTyped f rest short b t = record {
  flag_fits = t.flag_fits;
  id_fits = t.id_fits;
  kind_fits = t.kind_fits;
  sender_fits = t.sender_fits;
  offset_fits = short;
  route_fits = b;
  payload_fits = t.payload_fits;
}

module _ ⦃e : Enumn⦄ where
  -- The chunks of a frame with these fields, where five bytes, the route and the chunk size are
  -- below 256 together.
  pub chunked-IsPacket :
      (f : Frame) (h : FrameHeader) (m : ℕ) (cs : List (List ℕ))
      → 0 < m
      → header f ≡ ok h
      → IsRouted f
      → IsTyped f
      → 5 + length f.route + m < 256
      → chunked f m ≡ ok cs
      → All IsPacket cs
  chunked-IsPacket f h m cs p eh r t b cut =
      let (ps, d, made) = chunked_lem f h m p eh r (omega arith) in
      subst (All IsPacket) (ok_inj (sym made ∙ cut)) (
        pieces-IsPacket f m ps t b
          (flatten-bytes ps (subst (All IsByte) (sym d.joined) t.payload_fits)) d.chunking)
