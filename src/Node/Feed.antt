-- ===== src/Node/Feed.antt =====
-- The chunk table of src/node.rs, fed frames in turn, and each of its slots, fed its own.
use lora_mesh_rs.Prelude.{
  ℕ, ◌≡◌, refl, sym, ap, ◌∙◌, Bool, true, false, List, [], ◌∷◌, ◌++◌, Option, none, some, arith,
  inl, inr, Bool-cases, if◌then◌else◌, bytes_beq, bytes_beq_iff, bytes_eq,
}
use lora_mesh_rs.Prelude.Outcome.{Outcome, ok, ◌>>=◌, bind_inv, ok_inj}
use lora_mesh_rs.Prelude.HashMap
use lora_mesh_rs.Prelude.HashMap.{get-insert, get-remove}
use lora_mesh_rs.Kinds.{Enumn, has_more_chunks}
use lora_mesh_rs.Util.{composite_key}
use lora_mesh_rs.Frame.{Frame, txflag, header, recombine_chunks}
use lora_mesh_rs.Frame.Chunking.{header_inv}
use lora_mesh_rs.Node.Receive.{RxChunks, key_of, finish_chunks, reassemble}
use lora_mesh_rs.Node.Slots.{Slot, mine, emit, slot_settle, slot_step, Refines, reassemble-Refines}

module _ ⦃e : Enumn⦄ where
  -- A frame that completes a message has the key of its last chunk.
  finish_chunks-key :
      (slot : Slot) (f whole : Frame) → finish_chunks slot f ≡ ok whole → key_of whole ≡ key_of f
  unfolding finish_chunks
  finish_chunks-key none f whole h = ap key_of (sym (ok_inj h))
  finish_chunks-key (some chunks) f whole h =
      let (hd, eh, done) =
        bind_inv (header f) (λ x. ok (recombine_chunks (chunks ++ f ∷ []) x)) h in
      let k = header_inv f hd eh in
      let e : recombine_chunks (chunks ++ f ∷ []) hd ≡ whole = ok_inj done in
      ap key_of (sym e)
      ∙ (unfold recombine_chunks in λ i. composite_key (k.sender_is i) (k.frameid_is i))

  slot_settle-key :
      (slot slot' : Slot) (f whole : Frame) (more : Bool)
      → slot_settle slot f more ≡ ok (slot', some whole)
      → key_of whole ≡ key_of f
  slot_settle-key slot slot' f whole true h = cc
  slot_settle-key slot slot' f whole false h =
      let (w, fin, done) = bind_inv (finish_chunks slot f) (λ x. ok (none, some x)) h in
      let e : w ≡ whole = cc in ap key_of (sym e) ∙ finish_chunks-key slot f w fin

  slot_step-key :
      (slot slot' : Slot) (f : Frame) (o : Option Frame) (whole : Frame)
      → slot_step slot f ≡ ok (slot', o)
      → o ≡ some whole
      → key_of whole ≡ key_of f
  unfolding slot_step
  slot_step-key slot slot' f o whole h e =
      let (state, _, done) = bind_inv (txflag f) (λ s. slot_settle slot f (has_more_chunks s)) h in
      slot_settle-key slot slot' f whole (has_more_chunks state) (done ∙ ap (λ q. ok (slot', q)) e)

  -- The table after frames in turn, and the frames that they completed.
  unfoldable pub feed : RxChunks → List Frame → Outcome (RxChunks × List Frame)
  feed rx [] = ok (rx, [])
  feed rx (f ∷ fs) = do
    (rx', o) ← reassemble rx f
    (rx'', outs) ← feed rx' fs
    ok (rx'', emit o outs)

  -- The same for one slot.
  unfoldable pub feed_slot : Slot → List Frame → Outcome (Slot × List Frame)
  feed_slot slot [] = ok (slot, [])
  feed_slot slot (f ∷ fs) = do
    (slot', o) ← slot_step slot f
    (slot'', outs) ← feed_slot slot' fs
    ok (slot'', emit o outs)

  feed_rest : List Frame → RxChunks × Option Frame → Outcome (RxChunks × List Frame)
  feed_rest fs (rx, o) = feed rx fs >>= λ (t, os). ok (t, emit o os)

  feed-nil : (rx : RxChunks) → feed rx [] ≡ ok (rx, [])
  unfolding feed
  feed-nil rx = refl

  feed_slot-nil : (slot : Slot) → feed_slot slot [] ≡ ok (slot, [])
  unfolding feed_slot
  feed_slot-nil slot = refl

  feed-cons :
      (rx : RxChunks) (f : Frame) (fs : List Frame)
      → feed rx (f ∷ fs) ≡ (reassemble rx f >>= feed_rest fs)
  unfolding feed feed_rest
  feed-cons rx f fs = refl

  feed_rest_lem :
      (fs : List Frame) (rx : RxChunks) (o : Option Frame)
      → feed_rest fs (rx, o) ≡ (feed rx fs >>= λ (t, os). ok (t, emit o os))
  unfolding feed_rest
  feed_rest_lem fs rx o = refl

  mine-emit :
      (k : List ℕ) (slot slot' : Slot) (f : Frame) (o : Option Frame) (outs : List Frame)
      → slot_step slot f ≡ ok (slot', o)
      → mine k (emit o outs)
        ≡ (if bytes_beq (key_of f) k then emit o (mine k outs) else mine k outs)
  mine-emit k slot slot' f none outs h = ground arith
  mine-emit k slot slot' f (some whole) outs h =
      rw (slot_step-key slot slot' f (some whole) whole h refl)

  feed_slots-cons :
      (rx rx1 rx2 : RxChunks) (k : List ℕ) (f : Frame) (fs outs : List Frame) (o : Option Frame)
      → Refines rx rx1 f o (slot_step (HashMap.get (key_of f) rx) f)
      → feed_slot (HashMap.get k rx1) (mine k fs) ≡ ok (HashMap.get k rx2, mine k outs)
      → feed_slot (HashMap.get k rx) (mine k (f ∷ fs))
        ≡ ok (HashMap.get k rx2, mine k (emit o outs))
  feed_slots-cons rx rx1 rx2 k f fs outs o r ih = elim (Bool-cases (bytes_beq (key_of f) k)) [
    | inl same ↦
        let e : key_of f ≡ k = (bytes_beq_iff (key_of f) k).0 same in
        let reads : HashMap.get k rx1 ≡ r.slot = r.reads k ∙ rw same in
        let steps : slot_step (HashMap.get k rx) f ≡ ok (r.slot, o) =
          ap (λ j. slot_step (HashMap.get j rx) f) (sym e) ∙ r.steps in
        let emits : mine k (emit o outs) ≡ emit o (mine k outs) =
          mine-emit k (HashMap.get (key_of f) rx) r.slot f o outs r.steps ∙ rw same in
        let later : feed_slot r.slot (mine k fs) ≡ ok (HashMap.get k rx2, mine k outs) =
          ap (λ s. feed_slot s (mine k fs)) (sym reads) ∙ ih in
        rw (same, emits) (unfold feed_slot in rw (steps, later))
    | inr other ↦
        let reads : HashMap.get k rx1 ≡ HashMap.get k rx = r.reads k ∙ rw other in
        let emits : mine k (emit o outs) ≡ mine k outs =
          mine-emit k (HashMap.get (key_of f) rx) r.slot f o outs r.steps ∙ rw other in
        rw (other, emits) (ap (λ s. feed_slot s (mine k fs)) (sym reads) ∙ ih)
  ]

  -- Where a table of chunks takes frames of any keys in any order, the slot of each key becomes
  -- what it becomes when it alone is fed the frames of that key, in their order, and the messages
  -- that this completes are those of that key among all that the table completed.
  pub feed_slots :
      (rx rx' : RxChunks) (k : List ℕ) (fs outs : List Frame)
      → feed rx fs ≡ ok (rx', outs)
      → feed_slot (HashMap.get k rx) (mine k fs) ≡ ok (HashMap.get k rx', mine k outs)
  feed_slots rx rx' k [] outs h =
      feed_slot-nil (HashMap.get k rx)
      ∙ ap (λ (p : RxChunks × List Frame). ok (HashMap.get k p.0, mine k p.1))
          (ok_inj (sym (feed-nil rx) ∙ h))
  feed_slots rx rx' k (f ∷ fs) outs h =
      let ((rx1, o), now, rest) =
        bind_inv (reassemble rx f) (feed_rest fs) (sym (feed-cons rx f fs) ∙ h) in
      let ((rx2, outs'), later, done) =
        bind_inv (feed rx1 fs) (λ (t, os). ok (t, emit o os))
          (sym (feed_rest_lem fs rx1 o) ∙ rest) in
      let ih = feed_slots rx1 rx2 k fs outs' later in
      feed_slots-cons rx rx1 rx2 k f fs outs' o (reassemble-Refines rx rx1 f o now) ih
      ∙ ap (λ (p : RxChunks × List Frame). ok (HashMap.get k p.0, mine k p.1)) (ok_inj done)
