-- ===== src/Node/Table.antt =====
-- The chunk table of src/node.rs: what it keeps, and where.
use lora_mesh_rs.Prelude.{
  ℕ, ◌≡◌, ◌≢◌, refl, sym, Bool, true, false, List, [], ◌∷◌, ◌++◌, Option, none, some, All,
  All-append, bytes_beq, bytes_beq_iff, bytes_eq, subst, if◌then◌else◌,
}
use lora_mesh_rs.Prelude.Outcome.{ok, bind_inv, ok_inj}
use lora_mesh_rs.Prelude.HashMap
use lora_mesh_rs.Kinds.{Enumn, has_more_chunks}
use lora_mesh_rs.Frame.{Frame, txflag}
use lora_mesh_rs.Node.Receive.{RxChunks, key_of, finish_chunks, reassemble}
use lora_mesh_rs.Node.Slots.{Slot, extend, slot_settle, slot_step, reassemble-Refines}

-- What is kept under a key: frames of that key, at least one.
abbrev pub IsKept : List ℕ → Slot → Type 0
IsKept k none = Unit
IsKept k (some chunks) = (chunks ≢ []) × All (λ f. key_of f ≡ k) chunks

unfoldable pub IsTable : RxChunks → Type 0
IsTable rx = (k : List ℕ) → IsKept k (HashMap.get k rx)

pub empty-IsTable : IsTable []
unfolding HashMap.get IsTable
empty-IsTable k = tt

longer : (chunks : List Frame) (f : Frame) → chunks ++ f ∷ [] ≢ []
longer [] f e = cc
longer (g ∷ chunks) f e = cc

extend-IsKept :
    (k : List ℕ) (slot : Slot) (f : Frame) → key_of f ≡ k → IsKept k slot → IsKept k (extend slot f)
extend-IsKept k none f e h = (longer [] f, (e, tt))
extend-IsKept k (some chunks) f e h =
    (longer chunks f, All-append (λ g. key_of g ≡ k) chunks (f ∷ []) h.1 (e, tt))

module _ ⦃e : Enumn⦄ where
  slot_settle-IsKept :
      (k : List ℕ) (slot slot' : Slot) (f : Frame) (more : Bool) (o : Option Frame)
      → key_of f ≡ k
      → IsKept k slot
      → slot_settle slot f more ≡ ok (slot', o)
      → IsKept k slot'
  slot_settle-IsKept k slot slot' f true o is h s =
      subst (λ (p : Slot × Option Frame). IsKept k p.0) (ok_inj s) (extend-IsKept k slot f is h)
  slot_settle-IsKept k slot slot' f false o is h s =
      let (w, _, done) = bind_inv (finish_chunks slot f) (λ x. ok (none, some x)) s in
      subst (λ (p : Slot × Option Frame). IsKept k p.0) (ok_inj done) tt

  slot_step-IsKept :
      (slot slot' : Slot) (f : Frame) (o : Option Frame)
      → IsKept (key_of f) slot
      → slot_step slot f ≡ ok (slot', o)
      → IsKept (key_of f) slot'
  unfolding slot_step
  slot_step-IsKept slot slot' f o h s =
      let (state, _, done) = bind_inv (txflag f) (λ t. slot_settle slot f (has_more_chunks t)) s in
      slot_settle-IsKept (key_of f) slot slot' f (has_more_chunks state) o refl h done

  if-IsKept :
      (k j : List ℕ) (b : Bool) (slot other : Slot)
      → (b ≡ true → j ≡ k)
      → IsKept j slot
      → IsKept k other
      → IsKept k (if b then slot else other)
  if-IsKept k j true slot other same h g = subst (λ x. IsKept x slot) (same refl) h
  if-IsKept k j false slot other same h g = g

  -- Where a frame is taken, the table keeps frames under their own keys, if it did before.
  pub reassemble-IsTable :
      (rx rx' : RxChunks) (f : Frame) (o : Option Frame)
      → reassemble rx f ≡ ok (rx', o)
      → IsTable rx
      → IsTable rx'
  unfolding IsTable
  reassemble-IsTable rx rx' f o h t =
      let r = reassemble-Refines rx rx' f o h in
      let kept = slot_step-IsKept (HashMap.get (key_of f) rx) r.slot f o (t (key_of f)) r.steps in
      λ k. subst (IsKept k) (sym (r.reads k)) (
        if-IsKept k (key_of f) (bytes_beq (key_of f) k) r.slot (HashMap.get k rx)
          (bytes_beq_iff (key_of f) k).0 kept (t k))
