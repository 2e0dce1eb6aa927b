-- ===== src/Prelude/Post.antt =====
-- What holds of the value of a call, if it returns one; a rule for each way to build a call.
use mathlib.Core.Path.{◌≡◌, refl}
use mathlib.Core.Logic.{◌⊎◌, inl, inr}
use mathlib.Core.Bool.{Bool, true, false}
use mathlib.Core.Option.{Option, none, some}
use lora_mesh_rs.Prelude.Tests.{if◌then◌else◌}
use lora_mesh_rs.Prelude.Outcome.{
  Outcome, ok, err, panic, diverges, Error, Panic, ◌>>=◌, attempt, expect, assert,
}

abbrev pub Post {ℓ κ} : {A : Type ℓ} → (A → Type κ) → Outcome A → Type κ
Post P (ok a) = P a
Post P (err e) = Unit
Post P (panic p) = Unit
Post P diverges = Unit

pub Post-elim {ℓ κ} :
    {A : Type ℓ} (P : A → Type κ) (r : Outcome A) (a : A) → Post P r → r ≡ ok a → P a
Post-elim P (ok b) a h e = mathlib.Core.Path.subst P (lora_mesh_rs.Prelude.Outcome.ok_inj e) h
Post-elim P (err x) a h e = cc
Post-elim P (panic x) a h e = cc
Post-elim P diverges a h e = cc

module _ {ℓ κ μ} {A : Type ℓ} {B : Type κ} (P : B → Type μ) where
  pub Post-bind :
      (m : Outcome A) (f : A → Outcome B) → ((a : A) → m ≡ ok a → Post P (f a)) → Post P (m >>= f)
  Post-bind (ok a) f h = h a refl
  Post-bind (err e) f h = tt
  Post-bind (panic p) f h = tt
  Post-bind diverges f h = tt

  pub Post-attempt :
      (m : Outcome A) (on_err : Error → Outcome B) (on_ok : A → Outcome B)
      → ((e : Error) → Post P (on_err e))
      → ((a : A) → m ≡ ok a → Post P (on_ok a))
      → Post P (attempt m on_err on_ok)
  Post-attempt (ok a) on_err on_ok he ha = ha a refl
  Post-attempt (err e) on_err on_ok he ha = he e
  Post-attempt (panic p) on_err on_ok he ha = tt
  Post-attempt diverges on_err on_ok he ha = tt

  pub Post-option :
      (o : Option A) (x : Outcome B) (f : A → Outcome B)
      → (o ≡ none → Post P x)
      → ((a : A) → o ≡ some a → Post P (f a))
      → Post P (elim o as (λ _. Outcome B) [ none ↦ x | some a ↦ f a ])
  Post-option none x f hn hs = hn refl
  Post-option (some a) x f hn hs = hs a refl

module _ {κ μ} {B : Type κ} (P : B → Type μ) where
  pub Post-if :
      (b : Bool) (x y : Outcome B)
      → (b ≡ true → Post P x)
      → (b ≡ false → Post P y)
      → Post P (if b then x else y)
  Post-if true x y hx hy = hx refl
  Post-if false x y hx hy = hy refl

  pub Post-mono {ν} : (Q : B → Type ν) (r : Outcome B) → ((b : B) → Q b → P b) → Post Q r → Post P r
  Post-mono Q (ok b) f h = f b h
  Post-mono Q (err e) f h = tt
  Post-mono Q (panic p) f h = tt
  Post-mono Q diverges f h = tt

pub Post-seq {ℓ κ μ ν} :
    {A : Type ℓ} {B : Type κ} (P : A → Type μ) (Q : B → Type ν) (m : Outcome A) (k : A → Outcome B)
    → Post P m
    → ((a : A) → P a → Post Q (k a))
    → Post Q (m >>= k)
Post-seq P Q (ok a) k h g = g a h
Post-seq P Q (err e) k h g = tt
Post-seq P Q (panic x) k h g = tt
Post-seq P Q diverges k h g = tt

-- What holds of the value of a call, if it returns one, where a call that ends without a value
-- must have `F`: with `⊥` for it, the call returns or goes on for ever.
abbrev pub Settles {ℓ} : {A : Type ℓ} → Type 0 → (A → Type 0) → Outcome A → Type 0
Settles F P (ok a) = P a
Settles F P (err e) = F
Settles F P (panic p) = F
Settles F P diverges = Unit

pub Settles-seq {ℓ κ} :
    {A : Type ℓ} {B : Type κ} (F : Type 0) (P : A → Type 0) (Q : B → Type 0) (m : Outcome A)
    (k : A → Outcome B)
    → Settles F P m
    → ((a : A) → P a → Settles F Q (k a))
    → Settles F Q (m >>= k)
Settles-seq F P Q (ok a) k h g = g a h
Settles-seq F P Q (err e) k h g = h
Settles-seq F P Q (panic x) k h g = h
Settles-seq F P Q diverges k h g = tt

pub Settles-elim {ℓ} :
    {A : Type ℓ} (F : Type 0) (P : A → Type 0) (r : Outcome A) (a : A)
    → Settles F P r
    → r ≡ ok a
    → P a
Settles-elim F P (ok b) a h e = mathlib.Core.Path.subst P (lora_mesh_rs.Prelude.Outcome.ok_inj e) h
Settles-elim F P (err x) a h e = cc
Settles-elim F P (panic x) a h e = cc
Settles-elim F P diverges a h e = cc

pub Settles-cases {ℓ} :
    {A : Type ℓ} (P : A → Type 0) (r : Outcome A)
    → Settles ⊥ P r
    → (r ≡ diverges) ⊎ ((a : A) × (r ≡ ok a) × P a)
Settles-cases P (ok a) h = inr (a, refl, h)
Settles-cases P (err e) h = absurd h
Settles-cases P (panic p) h = absurd h
Settles-cases P diverges h = inl refl

pub Settles-if {ℓ} :
    {A : Type ℓ} (F : Type 0) (P : A → Type 0) (b : Bool) (x y : Outcome A)
    → (b ≡ true → Settles F P x)
    → Settles F P y
    → Settles F P (if b then x else y)
Settles-if F P true x y h g = h refl
Settles-if F P false x y h g = g

pub Settles-mono {ℓ} :
    {A : Type ℓ} (F : Type 0) (P Q : A → Type 0) (m : Outcome A)
    → ((a : A) → P a → Q a)
    → Settles F P m
    → Settles F Q m
Settles-mono F P Q (ok a) f h = f a h
Settles-mono F P Q (err e) f h = h
Settles-mono F P Q (panic x) f h = h
Settles-mono F P Q diverges f h = tt

-- Of a call of which nothing is to be shown.
pub anything {ℓ} : {A : Type ℓ} (m : Outcome A) → Settles Unit (λ _. Unit) m
anything (ok a) = tt
anything (err e) = tt
anything (panic x) = tt
anything diverges = tt

pub Settles-of {ℓ} : {A : Type ℓ} (P : A → Type 0) (m : Outcome A) → Post P m → Settles Unit P m
Settles-of P (ok a) h = h
Settles-of P (err e) h = tt
Settles-of P (panic x) h = tt
Settles-of P diverges h = tt
