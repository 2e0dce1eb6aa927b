-- ===== src/Radio/Rules.antt =====
-- What is kept of a radio by what the loop of src/hardware/lostik.rs does with it.
use lora_mesh_rs.Prelude.{
  ℕ, ◌≡◌, Bool, true, false, List, [], ◌∷◌, ◌++◌, Option, none, some, All, All-append,
}
use lora_mesh_rs.Prelude.Post.{Settles, Settles-seq}
use lora_mesh_rs.Radio.{Line, Device, LoStik, ignore, onrx, rxstart, rxstop, tx}
use lora_mesh_rs.Radio.Loop.{LoopState, enqueue, try_recv, send_next, send_burst}
use lora_mesh_rs.Radio.Serves.{Held, Terms}

-- What is kept of a radio that receives, and of one that does not, by what the loop does with it.
pub record Rules ⦃dev : Device⦄ (t : Terms) : Type 1 where
  pub Q : Bool → LoStik → Type 0
  pub queued : (on : Bool) (l : LoStik) → Q on l → All t.Given l.queue
  pub requeues :
      (on : Bool) (l : LoStik) (queue : List (List ℕ))
      → All t.Given queue
      → Q on l
      → Q on (record l { queue = queue })
  pub reads :
      (on : Bool) (l : LoStik) (line : Line) (rest : List Line)
      → l.lines ≡ line ∷ rest
      → Q on l
      → Q on (record l { lines = rest }) × t.Fit line
  pub starts : (on : Bool) (l : LoStik) → Q on l → Settles t.Fails (Q true) (ignore (rxstart l))
  pub stops : (on : Bool) (l : LoStik) → Q on l → Settles t.Fails (Q false) (ignore (rxstop l))
  pub transmits :
      (on : Bool) (l : LoStik) (frame : List ℕ)
      → t.Given frame
      → Q on l
      → Settles t.Fails (Q on) (ignore (tx l frame))
  pub handles :
      (on : Bool) (l : LoStik) (msg : Line)
      → t.Fit msg
      → Q on l
      → Settles t.Fails (Q on) (ignore (onrx l msg))

-- The flag says whether the radio receives.
abbrev pub Loops : ⦃dev : Device⦄ (t : Terms) → Rules t → LoopState → Type 0
Loops t r s = r.Q s.isrx s.radio × Held t.Given s.extratx

module _ ⦃dev : Device⦄ (t : Terms) (r : Rules t) where
  pub enqueued :
      (on : Bool) (l : LoStik) (frames : List (List ℕ))
      → All t.Given frames
      → r.Q on l
      → r.Q on (enqueue l frames)
  enqueued on l frames a v =
      r.requeues on l (l.queue ++ frames) (All-append t.Given l.queue frames (r.queued on l v) a) v

  taken_from :
      (on : Bool) (l : LoStik) (queue : List (List ℕ))
      → All t.Given queue
      → r.Q on l
      → let (k, next) = elim queue as (λ _. LoStik × Option (List ℕ)) [
        | [] ↦ (l, none)
        | frame ∷ rest ↦ (record l { queue = rest }, some frame)
      ] in
        r.Q on k × Held t.Given next
  taken_from on l [] q v = (v, tt)
  taken_from on l (frame ∷ rest) q v = (r.requeues on l rest q.1 v, q.0)

  pub taken :
      (on : Bool) (l : LoStik) → r.Q on l → r.Q on (try_recv l).0 × Held t.Given (try_recv l).1
  taken on l v = taken_from on l l.queue (r.queued on l v) v

  sent_next :
      (on : Bool) (l : LoStik) (next : Option (List ℕ))
      → r.Q on l
      → Held t.Given next
      → Settles t.Fails (r.Q on) (send_next (l, next))
  sent_next on l none v p = v
  sent_next on l (some frame) v p = r.transmits on l frame p v

  pub sent_burst :
      (on : Bool) (burst : List (List (List ℕ))) (l : LoStik)
      → All (All t.Given) burst
      → r.Q on l
      → Settles t.Fails (r.Q on) (send_burst burst l)
  unfolding send_burst
  sent_burst on [] l a v = v
  sent_burst on (frames ∷ checks) l a v =
      let next = try_recv (enqueue l frames) in
      let (w, p) = taken on (enqueue l frames) (enqueued on l frames a.0 v) in
      Settles-seq t.Fails (r.Q on) _ (send_next next) _ (sent_next on next.0 next.1 w p)
        (λ k u. sent_burst on checks k a.1 u)
