-- ===== src/Node/Hearing.antt =====
-- A node of src/node.rs that hears all chunks of a frame, one after the other.
use lora_mesh_rs.Prelude.{
  ℕ, ◌<◌, ◌≡◌, refl, sym, ap, ◌∙◌, List, [], ◌∷◌, ◌++◌, map, Option, none, some, length, bytes_eq,
  bytes_beq_iff, append_assoc,
}
use lora_mesh_rs.Prelude.Outcome.{Outcome, ok, ◌>>=◌, ok_inj, bind-ok}
use lora_mesh_rs.Prelude.HashMap
use lora_mesh_rs.Chunk.Laws.{IsChunking}
use lora_mesh_rs.Kinds.{Enumn, TransmissionState, MessageType, more_chunks, tx_to_u8}
use lora_mesh_rs.Frame.{
  Frame, FrameHeader, to_bytes, txflag, msgtype, header, chunked, recombine_chunks,
}
use lora_mesh_rs.Frame.Codec.{IsRouted, from_bytes-to_bytes}
use lora_mesh_rs.Frame.Chunking.{header_inv, piece, pieces, chunked_lem, recombine_chunks-pieces}
use lora_mesh_rs.Message.IpPacket.{PacketCrate}
use lora_mesh_rs.Router.{Clock}
use lora_mesh_rs.Router.Graph.{GraphCrate}
use lora_mesh_rs.Tunnel.{Platform}
use lora_mesh_rs.Node.State.{MeshNode}
use lora_mesh_rs.Node.Receive.{RxChunks, key_of, reassemble, act, on_frame, on_radio}
use lora_mesh_rs.Node.Slots.{Slot, extend, slot_step, reassemble-Refines}
use lora_mesh_rs.Node.Reassembly.{
  IsFinal, IsFinal-payload, HasHeader, reassemble_total, slot_step-piece, slot_step-final, held,
  held-extend,
}

module _ (P : Type 0) {G : Type 0} ⦃e : Enumn⦄ ⦃gc : GraphCrate G⦄ ⦃pc : PacketCrate P⦄
    ⦃os : Platform⦄ where
  -- All that the radio hears, in order.
  unfoldable pub hear_all : Clock → ℕ → MeshNode G → List (List ℕ) → Outcome (MeshNode G)
  unfolding on_radio
  hear_all clock j n [] = ok n
  hear_all clock j n (bytes ∷ rest) = do n' ← on_radio P clock j n bytes; hear_all clock j n' rest

module _ ⦃e : Enumn⦄ where
  pub header_by :
      (g : Frame) (t : TransmissionState) (k : MessageType)
      → e.tx_n g.txflag ≡ some t
      → e.msg_n g.msgtype ≡ some k
      → HasHeader g
  unfolding header txflag msgtype
  header_by g t k et ek = (
    record {
      txflag = t;
      frameid = g.frameid;
      msgtype = k;
      sender = g.sender;
      routeoffset = length g.route;
      route = g.route;
    },
    rw (et, ek),
  )

  -- What a frame with a header does to the table, by what it does to its slot.
  reassemble-slot :
      (rx : RxChunks) (g : Frame) (slot : Slot) (o : Option Frame)
      → HasHeader g
      → slot_step (HashMap.get (key_of g) rx) g ≡ ok (slot, o)
      → (rx' : RxChunks) × (reassemble rx g ≡ ok (rx', o)) × (HashMap.get (key_of g) rx' ≡ slot)
  reassemble-slot rx g slot o h s =
      let (rx', o', taken) = reassemble_total rx g h in
      let r = reassemble-Refines rx rx' g o' taken in
      let same = ok_inj (sym r.steps ∙ s) in
      let reads : HashMap.get (key_of g) rx' ≡ r.slot =
        r.reads (key_of g) ∙ rw ((bytes_beq_iff (key_of g) (key_of g)).1 refl) in
      (
        rx',
        taken ∙ ap (λ (p : Slot × Option Frame). ok (rx', p.1)) same,
        reads ∙ ap (λ (p : Slot × Option Frame). p.0) same,
      )

module _ (P : Type 0) {G : Type 0} ⦃e : Enumn⦄ ⦃gc : GraphCrate G⦄ ⦃pc : PacketCrate P⦄
    ⦃os : Platform⦄ where
  on_radio-reassembled :
      (clock : Clock) (j : ℕ) (n : MeshNode G) (g : Frame) (rx : RxChunks) (o : Option Frame)
      → IsRouted g
      → reassemble n.rxchunks g ≡ ok (rx, o)
      → on_radio P clock j n (to_bytes g) ≡ act P clock j (record n { rxchunks = rx }) o
  unfolding on_radio on_frame
  on_radio-reassembled clock j n g rx o r taken = rw (from_bytes-to_bytes g r, taken)

  hear_all-one :
      (clock : Clock) (j : ℕ) (n : MeshNode G) (bytes : List ℕ)
      → hear_all P clock j n (bytes ∷ []) ≡ on_radio P clock j n bytes
  unfolding hear_all
  hear_all-one clock j n bytes = bind-ok (on_radio P clock j n bytes)

  hear_all-cons :
      (clock : Clock) (j : ℕ) (n n' : MeshNode G) (bytes : List ℕ) (rest : List (List ℕ))
      → on_radio P clock j n bytes ≡ ok n'
      → hear_all P clock j n (bytes ∷ rest) ≡ hear_all P clock j n' rest
  unfolding hear_all
  hear_all-cons clock j n n' bytes rest h = rw h

  act-none : (clock : Clock) (j : ℕ) (n : MeshNode G) → act P clock j n none ≡ ok n
  unfolding act
  act-none clock j n = refl

  -- A chunk that is not the last is kept.
  hear-piece :
      (clock : Clock) (j : ℕ) (n : MeshNode G) (f : Frame) (kind : MessageType) (q : List ℕ)
      → IsRouted f
      → e.msg_n f.msgtype ≡ some kind
      → (rx : RxChunks) × (on_radio P clock j n (to_bytes (piece f q))
          ≡ ok (record n { rxchunks = rx }))
        × (HashMap.get (key_of f) rx ≡ extend (HashMap.get (key_of f) n.rxchunks) (piece f q))
  hear-piece clock j n f kind q r k =
      let one : e.tx_n 1 ≡ some more_chunks = unfold tx_to_u8 in e.tx_n_of more_chunks in
      let slot = HashMap.get (key_of f) n.rxchunks in
      let (rx, taken, reads) =
        reassemble-slot n.rxchunks (piece f q) (extend slot (piece f q)) none
          (header_by (piece f q) more_chunks kind one k) (slot_step-piece slot f q) in
      (
        rx,
        on_radio-reassembled clock j n (piece f q) rx none r taken
            ∙ act-none clock j (record n { rxchunks = rx }),
        reads,
      )

  hear-pieces :
      (clock : Clock) (j : ℕ) (n : MeshNode G) (f : Frame) (h : FrameHeader) (kind : MessageType)
      (m : ℕ) (ps : List (List ℕ))
      → IsFinal f h
      → e.msg_n f.msgtype ≡ some kind
      → IsChunking m ps
      → (rx : RxChunks) × (HashMap.get (key_of f) rx ≡ none)
        × (hear_all P clock j n (map to_bytes (pieces f ps))
            ≡ act P clock j
                (record n { rxchunks = rx })
                (some
                  (recombine_chunks (held (HashMap.get (key_of f) n.rxchunks) ++ pieces f ps) h)))
  hear-pieces clock j n f h kind m [] v k c = absurd c
  hear-pieces clock j n f h kind m (q ∷ []) v k c =
      let g = record f { payload = q } in
      let (rx, taken, reads) =
        reassemble-slot n.rxchunks g none _ (h, (IsFinal-payload f h q v).header_is)
          (slot_step-final (HashMap.get (key_of f) n.rxchunks) g h (IsFinal-payload f h q v)) in
      (
        rx,
        reads,
        hear_all-one clock j n (to_bytes g) ∙ on_radio-reassembled clock j n g rx _ v.routed taken,
      )
  hear-pieces clock j n f h kind m (q ∷ r ∷ ps) v k c =
      let (rx1, heard, reads) = hear-piece clock j n f kind q v.routed k in
      let (rx, free, later) =
        hear-pieces clock j (record n { rxchunks = rx1 }) f h kind m (r ∷ ps) v k c.2 in
      let slot = HashMap.get (key_of f) n.rxchunks in
      let chunks : held (HashMap.get (key_of f) rx1) ++ pieces f (r ∷ ps)
          ≡ held slot ++ pieces f (q ∷ r ∷ ps) =
        ap (λ s. held s ++ pieces f (r ∷ ps)) reads
        ∙ ap (λ fs. fs ++ pieces f (r ∷ ps)) (held-extend slot (piece f q))
        ∙ append_assoc (held slot) (piece f q ∷ []) (pieces f (r ∷ ps)) in
      (
        rx,
        free,
        hear_all-cons clock j n (record n { rxchunks = rx1 }) (to_bytes (piece f q))
              (map to_bytes (pieces f (r ∷ ps))) heard
            ∙ later
            ∙ ap (λ fs. act P clock j (record n { rxchunks = rx }) (some (recombine_chunks fs h)))
                chunks,
      )

  -- A node that keeps no chunk under the key of a frame hears all its chunks: it acts on the frame,
  -- and keeps no chunk under its key.
  pub hear_whole :
      (clock : Clock) (j : ℕ) (n : MeshNode G) (f : Frame) (h : FrameHeader) (kind : MessageType)
      (m : ℕ) (cs : List (List ℕ))
      → 0 < m
      → IsFinal f h
      → e.msg_n f.msgtype ≡ some kind
      → chunked f m ≡ ok cs
      → HashMap.get (key_of f) n.rxchunks ≡ none
      → (rx : RxChunks) × (HashMap.get (key_of f) rx ≡ none)
        × (hear_all P clock j n cs ≡ act P clock j (record n { rxchunks = rx }) (some f))
  hear_whole clock j n f h kind m cs p v k cut free =
      let (ps, d, made) = chunked_lem f h m p v.header_is v.routed v.short in
      let (rx, left, heard) = hear-pieces clock j n f h kind m ps v k d.chunking in
      let whole : recombine_chunks (held (HashMap.get (key_of f) n.rxchunks) ++ pieces f ps) h ≡ f =
        ap (λ s. recombine_chunks (held s ++ pieces f ps) h) free
        ∙ recombine_chunks-pieces f h ps (header_inv f h v.header_is) v.routed v.short d.joined in
      (
        rx,
        left,
        ap (hear_all P clock j n) (ok_inj (sym cut ∙ made))
            ∙ heard
            ∙ ap (λ g. act P clock j (record n { rxchunks = rx }) (some g)) whole,
      )
