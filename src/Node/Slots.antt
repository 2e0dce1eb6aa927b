-- ===== src/Node/Slots.antt =====
-- The chunk table of src/node.rs as slots, one for each sender and frame id, and what one frame
-- does to them.
use lora_mesh_rs.Prelude.{
  ℕ, ◌≡◌, refl, sym, ap, ◌∙◌, Bool, true, false, List, [], ◌∷◌, ◌++◌, Option, none, some,
  if◌then◌else◌, bytes_beq, bytes_eq,
}
use lora_mesh_rs.Prelude.Outcome.{Outcome, ok, ◌>>=◌, bind_inv, ok_inj}
use lora_mesh_rs.Prelude.HashMap
use lora_mesh_rs.Prelude.HashMap.{get-insert, get-remove}
use lora_mesh_rs.Kinds.{Enumn, has_more_chunks}
use lora_mesh_rs.Frame.{Frame, txflag}
use lora_mesh_rs.Node.Receive.{RxChunks, key_of, keep_chunk, finish_chunks, settle, reassemble}

-- A slot: the chunks kept, if any.
abbrev pub Slot : Type 0
Slot = Option (List Frame)

abbrev pub extend : Slot → Frame → Slot
extend none frame = some (frame ∷ [])
extend (some chunks) frame = some (chunks ++ frame ∷ [])

-- The frames with a key.
abbrev pub mine : List ℕ → List Frame → List Frame
mine k [] = []
mine k (f ∷ fs) = if bytes_beq (key_of f) k then f ∷ mine k fs else mine k fs

abbrev pub emit : Option Frame → List Frame → List Frame
emit none outs = outs
emit (some f) outs = f ∷ outs

module _ ⦃e : Enumn⦄ where
  abbrev pub slot_settle : Slot → Frame → Bool → Outcome (Slot × Option Frame)
  slot_settle slot frame true = ok (extend slot frame, none)
  slot_settle slot frame false = do whole ← finish_chunks slot frame; ok (none, some whole)

  -- What a frame does to the slot of its key.
  unfoldable pub slot_step : Slot → Frame → Outcome (Slot × Option Frame)
  slot_step slot frame = do state ← txflag frame; slot_settle slot frame (has_more_chunks state)

  get-keep_chunk :
      (k : List ℕ) (rx : RxChunks) (f : Frame)
      → HashMap.get k (keep_chunk rx f) ≡ (
          if bytes_beq (key_of f) k then extend (HashMap.get (key_of f) rx) f else HashMap.get k rx)
  unfolding keep_chunk
  get-keep_chunk k rx f =
      elim (HashMap.get (key_of f) rx)
        as (λ o.
          HashMap.get k (elim o as (λ _. RxChunks) [
            | none ↦ HashMap.insert (key_of f) (f ∷ []) rx
            | some chunks ↦ HashMap.insert (key_of f) (chunks ++ f ∷ []) rx
          ])
          ≡ (if bytes_beq (key_of f) k then extend o f else HashMap.get k rx)) [
            | none ↦ get-insert (key_of f) k (f ∷ []) rx
            | some chunks ↦ get-insert (key_of f) k (chunks ++ f ∷ []) rx
          ]

  -- The table and the result agree with what the slot of the frame's key becomes; any other key
  -- reads as before.
  pub record Refines (rx rx' : RxChunks) (f : Frame) (o : Option Frame)
      (r : Outcome (Slot × Option Frame)) : Type 0 where
    pub slot : Slot
    pub steps : r ≡ ok (slot, o)
    pub reads :
        (k : List ℕ)
        → HashMap.get k rx' ≡ (if bytes_beq (key_of f) k then slot else HashMap.get k rx)

  settle-final :
      (rx : RxChunks) (f : Frame)
      → settle rx f false ≡ (
          finish_chunks (HashMap.get (key_of f) rx) f >>= λ w.
          ok (HashMap.remove (key_of f) rx, some w))
  unfolding settle
  settle-final rx f = refl

  reassemble-settle :
      (rx : RxChunks) (f : Frame)
      → reassemble rx f ≡ (txflag f >>= λ s. settle rx f (has_more_chunks s))
  unfolding reassemble
  reassemble-settle rx f = refl

  settle-Refines :
      (rx rx' : RxChunks) (f : Frame) (more : Bool) (o : Option Frame)
      → settle rx f more ≡ ok (rx', o)
      → Refines rx rx' f o (slot_settle (HashMap.get (key_of f) rx) f more)
  settle-Refines rx rx' f true o h =
      let e : keep_chunk rx f ≡ rx' =
        unfold settle in ap (λ (p : RxChunks × Option Frame). p.0) (ok_inj h) in
      let n : none ≡ o = unfold settle in ap (λ (p : RxChunks × Option Frame). p.1) (ok_inj h) in
      record {
        slot = extend (HashMap.get (key_of f) rx) f;
        steps = ap (λ q. ok (extend (HashMap.get (key_of f) rx) f, q)) n;
        reads = λ k. ap (HashMap.get k) (sym e) ∙ get-keep_chunk k rx f;
      }
  settle-Refines rx rx' f false o h =
      let (whole, fin, done) =
        bind_inv (finish_chunks (HashMap.get (key_of f) rx) f)
          (λ w. ok (HashMap.remove (key_of f) rx, some w)) (sym (settle-final rx f) ∙ h) in
      let e : HashMap.remove (key_of f) rx ≡ rx' =
        ap (λ (p : RxChunks × Option Frame). p.0) (ok_inj done) in
      let n : some whole ≡ o = ap (λ (p : RxChunks × Option Frame). p.1) (ok_inj done) in
      record {
        slot = none;
        steps = rw fin (ap (λ q. ok (none, q)) n);
        reads = λ k. ap (HashMap.get k) (sym e) ∙ get-remove (key_of f) k rx;
      }

  -- A frame changes the slot of its key as `slot_step` says, and no other.
  pub reassemble-Refines :
      (rx rx' : RxChunks) (f : Frame) (o : Option Frame)
      → reassemble rx f ≡ ok (rx', o)
      → Refines rx rx' f o (slot_step (HashMap.get (key_of f) rx) f)
  reassemble-Refines rx rx' f o h =
      let (state, es, done) =
        bind_inv (txflag f) (λ s. settle rx f (has_more_chunks s))
          (sym (reassemble-settle rx f) ∙ h) in
      let r = settle-Refines rx rx' f (has_more_chunks state) o done in
      record { slot = r.slot; steps = unfold slot_step in rw es r.steps; reads = r.reads }
