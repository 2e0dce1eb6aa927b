-- ===== src/Node/Evolves/Sound.antt =====
-- The frames that src/node.rs recombines from those that it kept.
use lora_mesh_rs.Prelude.{
  ap, Bool, true, false, List, Option, none, some, arith, length, byte_eq, bytes_eq,
}
use lora_mesh_rs.Prelude.Post.{Post, Post-bind, Post-elim}
use lora_mesh_rs.Prelude.HashMap
use lora_mesh_rs.Kinds.{Enumn, has_more_chunks}
use lora_mesh_rs.Frame.{Frame, txflag, header}
use lora_mesh_rs.Frame.Chunking.{header_inv}
use lora_mesh_rs.Node.Receive.{RxChunks, key_of, finish_chunks, settle, reassemble}
use lora_mesh_rs.Node.Wire.{IsSound}

abbrev pub CompletesSound : RxChunks × Option Frame → Type 0
CompletesSound (rx, none) = Unit
CompletesSound (rx, some whole) = IsSound whole

module _ ⦃e : Enumn⦄ where
  finish_chunks-IsSound :
      (slot : Option (List Frame)) (f : Frame) → IsSound f → Post IsSound (finish_chunks slot f)
  unfolding finish_chunks
  finish_chunks-IsSound none f s = s
  finish_chunks-IsSound (some chunks) f s = Post-bind IsSound (header f) _ λ h eh.
      let k = header_inv f h eh in
      record {
        routed = omega (arith, k.offset_is, ap length k.route_is, s.short);
        short = omega (arith, ap length k.route_is, s.short);
      }

  settle-IsSound :
      (rx : RxChunks) (f : Frame) (more : Bool) → IsSound f → Post CompletesSound (settle rx f more)
  unfolding settle
  settle-IsSound rx f true s = tt
  settle-IsSound rx f false s =
      Post-bind CompletesSound (finish_chunks (HashMap.get (key_of f) rx) f) _ (λ whole h.
        Post-elim IsSound (finish_chunks (HashMap.get (key_of f) rx) f) whole
          (finish_chunks-IsSound (HashMap.get (key_of f) rx) f s) h)

  pub reassemble-IsSound :
      (rx : RxChunks) (f : Frame) → IsSound f → Post CompletesSound (reassemble rx f)
  unfolding reassemble
  reassemble-IsSound rx f s =
      Post-bind CompletesSound (txflag f) _
        (λ state _. settle-IsSound rx f (has_more_chunks state) s)
