-- ===== src/Radio/Tracks.antt =====
-- The flag `isrx` of `radioloop` in src/hardware/lostik.rs, and what the device was last told.
use lora_mesh_rs.Prelude.{◌≡◌, refl, true, false, List, everything}
use lora_mesh_rs.Prelude.Outcome.{ok}
use lora_mesh_rs.Prelude.Post.{Settles-elim, Settles-of}
use lora_mesh_rs.Radio.{Device, LoStik, ignore, onrx, rxstart, rxstop, tx}
use lora_mesh_rs.Radio.Mode.{
  listening, AlwaysAccepts, ignore-Ends, rxstart-Ends, rxstop-Ends, onrx-Ends, tx-Ends,
}
use lora_mesh_rs.Radio.Loop.{LoopState, RadioInput, radioloop}
use lora_mesh_rs.Radio.Serves.{Terms, any_arrivals}
use lora_mesh_rs.Radio.Rules.{Rules, Loops}
use lora_mesh_rs.Radio.Rounds.{loop-Loops}

-- The flag agrees with the commands that were given.
abbrev pub Tracks : LoopState → Type 0
Tracks s = listening s.radio ≡ s.isrx

abbrev nothing_said : Terms
nothing_said = record { Fails = Unit; Fit = λ _. Unit; Given = λ _. Unit; Heard = λ _. Unit }

module _ ⦃dev : Device⦄ (up : AlwaysAccepts dev) where
  tracking : Rules nothing_said
  tracking = record {
    Q = λ on l. listening l ≡ on;
    queued = λ on l v. everything l.queue;
    requeues = λ on l queue a v. v;
    reads = λ on l line rest e v. (v, tt);
    starts = λ on l v.
        Settles-of (λ k. listening k ≡ true) (ignore (rxstart l))
          (ignore-Ends true (rxstart l) (rxstart-Ends up l));
    stops = λ on l v.
        Settles-of (λ k. listening k ≡ false) (ignore (rxstop l))
          (ignore-Ends false (rxstop l) (rxstop-Ends up l));
    transmits = λ on l frame p v.
        Settles-of (λ k. listening k ≡ on) (ignore (tx l frame))
          (ignore-Ends on (tx l frame) (tx-Ends up on l frame v));
    handles = λ on l msg f v.
        Settles-of (λ k. listening k ≡ on) (ignore (onrx l msg))
          (ignore-Ends on (onrx l msg) (onrx-Ends up on l msg v));
  }

  -- With a port that takes every line: after any rounds of the radio loop that end, whatever the
  -- limiter says, the node hands over and the device answers, the flag `isrx` says whether the
  -- device was last told to receive.
  pub radioloop-Tracks :
      (inputs : List RadioInput) (l : LoStik) (s : LoopState) → radioloop inputs l ≡ ok s → Tracks s
  unfolding tracking
  radioloop-Tracks inputs l s e =
      (Settles-elim Unit (Loops nothing_said tracking) (radioloop inputs l) s
        (loop-Loops nothing_said tracking inputs (listening l) l (any_arrivals inputs) refl) e).0
