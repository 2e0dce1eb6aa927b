-- ===== src/Radio/Quiet.antt =====
-- Lines that came over the serial line cannot make `radioloop` of src/hardware/lostik.rs panic.
use lora_mesh_rs.Prelude.{false, true, arith, ℕ, ◌≡◌, ◌⊎◌, inl, inr, List, [], everything}
use lora_mesh_rs.Prelude.Outcome.{ok, diverges}
use lora_mesh_rs.Prelude.Post.{Settles-cases}
use lora_mesh_rs.Serial.{SerialIo, serial_rounds}
use lora_mesh_rs.Serial.Fit.{IsFit, IsFit-slices, serial_rounds-IsFit}
use lora_mesh_rs.Radio.{Device, LoStik}
use lora_mesh_rs.Radio.Loop.{LoopState, RadioInput, radioloop}
use lora_mesh_rs.Radio.Serves.{any_arrivals, Terms, IsFair, Cut, Serves-refl}
use lora_mesh_rs.Radio.Serving.{serving}
use lora_mesh_rs.Radio.Rules.{Loops}
use lora_mesh_rs.Radio.Rounds.{loop-Loops}

-- Of frames and bytes nothing is said; no call may panic.
abbrev quiet : Terms
quiet = record { Fails = ⊥; Fit = IsFit; Given = λ _. Unit; Heard = λ _. Unit }

quiet-IsFair : ⦃dev : Device⦄ → IsFair quiet
quiet-IsFair = record { decodes = λ text bytes d. tt; slices = IsFit-slices }

module _ ⦃dev : Device⦄ where
  -- Where the lines from the device are those that rounds of `serialloop` have sent down the
  -- channel, on whatever bytes on the serial line these rounds return, and its thread has not ended
  -- after them: any rounds of the radio loop return or wait for a line that does not come. None
  -- panics.
  pub radioloop_quiet :
      (n : ℕ) (s s' : SerialIo) (inputs : List RadioInput) (l : LoStik)
      → serial_rounds n s [] ≡ ok (s', l.lines)
      → l.connected ≡ true
      → (radioloop inputs l ≡ diverges) ⊎ ((t : LoopState) × (radioloop inputs l ≡ ok t))
  radioloop_quiet n s s' inputs l h on =
      let cut : Cut quiet l = λ off. ground (arith, on, off) in
      let fit = serial_rounds-IsFit n s s' [] l.lines h tt in
      let start = Serves-refl quiet l (everything l.queue) (everything l.heard) fit in
      let ends =
        loop-Loops quiet (serving quiet quiet-IsFair l cut) inputs false l (any_arrivals inputs)
          start in
      elim (Settles-cases (Loops quiet (serving quiet quiet-IsFair l cut)) (radioloop inputs l)
        ends) [ inl waits ↦ inl waits | inr (t, e, _) ↦ inr (t, e) ]
