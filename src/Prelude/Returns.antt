-- ===== src/Prelude/Returns.antt =====
-- Calls that return, and what holds of the value: a rule for each way to build a call.
use mathlib.Core.Path.{◌≡◌, refl, sym, subst}
use mathlib.Core.Bool.{Bool, true, false}
use mathlib.Core.Option.{Option, none, some}
use lora_mesh_rs.Prelude.Tests.{if◌then◌else◌}
use lora_mesh_rs.Prelude.Outcome.{Outcome, ok, err, panic, diverges, Error, ◌>>=◌, attempt}

abbrev pub Returns {ℓ} : {A : Type ℓ} → (A → Type 0) → Outcome A → Type 0
Returns P (ok a) = P a
Returns P (err e) = ⊥
Returns P (panic p) = ⊥
Returns P diverges = ⊥

-- The call ends with a value or an `Err`.
abbrev pub Answers {ℓ} : {A : Type ℓ} → Outcome A → Type 0
Answers (ok a) = Unit
Answers (err e) = Unit
Answers (panic p) = ⊥
Answers diverges = ⊥

pub Returns-elim {ℓ} :
    {A : Type ℓ} (P : A → Type 0) (m : Outcome A) → Returns P m → (a : A) × (m ≡ ok a) × P a
Returns-elim P (ok a) h = (a, refl, h)
Returns-elim P (err e) h = absurd h
Returns-elim P (panic p) h = absurd h
Returns-elim P diverges h = absurd h

pub Returns-ok {ℓ} :
    {A : Type ℓ} (P : A → Type 0) (m : Outcome A) (a : A) → m ≡ ok a → P a → Returns P m
Returns-ok P m a e h = subst (Returns P) (sym e) h

module _ {ℓ κ} {A : Type ℓ} {B : Type κ} where
  pub Returns-bind :
      (P : A → Type 0) (Q : B → Type 0) (m : Outcome A) (k : A → Outcome B)
      → Returns P m
      → ((a : A) → P a → Returns Q (k a))
      → Returns Q (m >>= k)
  Returns-bind P Q (ok a) k h g = g a h
  Returns-bind P Q (err e) k h g = h
  Returns-bind P Q (panic p) k h g = h
  Returns-bind P Q diverges k h g = h

  pub Returns-attempt :
      (Q : B → Type 0) (m : Outcome A) (on_err : Error → Outcome B) (on_ok : A → Outcome B)
      → Answers m
      → ((e : Error) → Returns Q (on_err e))
      → ((a : A) → m ≡ ok a → Returns Q (on_ok a))
      → Returns Q (attempt m on_err on_ok)
  Returns-attempt Q (ok a) on_err on_ok h he ha = ha a refl
  Returns-attempt Q (err e) on_err on_ok h he ha = he e
  Returns-attempt Q (panic p) on_err on_ok h he ha = h
  Returns-attempt Q diverges on_err on_ok h he ha = h

  pub Returns-option :
      (Q : B → Type 0) (o : Option A) (x : Outcome B) (f : A → Outcome B)
      → (o ≡ none → Returns Q x)
      → ((a : A) → o ≡ some a → Returns Q (f a))
      → Returns Q (elim o as (λ _. Outcome B) [ none ↦ x | some a ↦ f a ])
  Returns-option Q none x f hn hs = hn refl
  Returns-option Q (some a) x f hn hs = hs a refl

pub Returns-if {ℓ} :
    {A : Type ℓ} (P : A → Type 0) (b : Bool) (x y : Outcome A)
    → (b ≡ true → Returns P x)
    → (b ≡ false → Returns P y)
    → Returns P (if b then x else y)
Returns-if P true x y hx hy = hx refl
Returns-if P false x y hx hy = hy refl
