-- ===== src/Prelude/Outcome.antt =====
-- How a call of the program ends: with a value, with the `Err` of its `Result` type, by a panic,
-- or never. One type for all four, so that `?`, `unwrap` and a loop compose in a `do` block.
use mathlib.Core.Path.{◌≡◌, refl}
use mathlib.Core.Bool.{Bool, true, false}
use mathlib.Core.Option.{Option, none, some}
use mathlib.Core.List.{List}
use Prim.Native.Nat.{ℕ}

-- `std::io::ErrorKind::InvalidData`, and the `reason` of an `IPAssignFailureMessage`.
pub data Error : Type 0 where
  invalid_data : Error
  ip_assign_failure : List ℕ → Error

-- What made the program panic.
pub data Panic : Type 0 where
  unwrap_none out_of_range overflow bad_bool bad_utf8 : Panic
  missing_header missing_ip empty_route local_destination : Panic
  not_private command_failed disconnected : Panic
  no_settings no_interface no_port read_failed test_failed : Panic

pub data Outcome {ℓ} (A : Type ℓ) : Type ℓ where
  ok : A → Outcome A
  err : Error → Outcome A
  panic : Panic → Outcome A
  diverges : Outcome A

infixl 5 ◌>>=◌ ◌>>◌
abbrev pub ◌>>=◌ {ℓ κ} : {A : Type ℓ} {B : Type κ} → Outcome A → (A → Outcome B) → Outcome B
ok a >>= f = f a
err e >>= f = err e
panic p >>= f = panic p
diverges >>= f = diverges

abbrev pub ◌>>◌ {ℓ κ} : {A : Type ℓ} {B : Type κ} → Outcome A → Outcome B → Outcome B
m >> k = m >>= λ _. k

-- `match r { Err(e) => .., Ok(a) => .. }`
abbrev pub attempt {ℓ κ} :
    {A : Type ℓ} {B : Type κ} → Outcome A → (Error → Outcome B) → (A → Outcome B) → Outcome B
attempt (ok a) on_err on_ok = on_ok a
attempt (err e) on_err on_ok = on_err e
attempt (panic p) on_err on_ok = panic p
attempt diverges on_err on_ok = diverges

-- `o.ok_or(e)?`
abbrev pub ok_or {ℓ} : {A : Type ℓ} → Option A → Error → Outcome A
ok_or none e = err e
ok_or (some a) e = ok a

-- `o.unwrap()` and `o.expect(..)`
abbrev pub expect {ℓ} : {A : Type ℓ} → Option A → Panic → Outcome A
expect none p = panic p
expect (some a) p = ok a

-- `assert!(b)`
abbrev pub assert : Bool → Panic → Outcome (Unit {0})
assert true p = ok tt
assert false p = panic p

-- Inversion of a bind that ends well.
pub bind_inv {ℓ κ} :
    {A : Type ℓ} {B : Type κ} (m : Outcome A) (k : A → Outcome B) {b : B}
    → (m >>= k) ≡ ok b
    → (a : A) × (m ≡ ok a) × (k a ≡ ok b)
bind_inv diverges k done = cc
bind_inv (panic p) k done = cc
bind_inv (err e) k done = cc
bind_inv (ok a) k done = (a, refl, done)

pub expect_inv {ℓ} :
    {A : Type ℓ} (o : Option A) (p : Panic) (a : A) → expect o p ≡ ok a → o ≡ some a
expect_inv none p a h = cc
expect_inv (some b) p a h = cc

pub ok_inj {ℓ} : {A : Type ℓ} {a b : A} → ok a ≡ ok b → a ≡ b
ok_inj h = cc

pub some_inj {ℓ} : {A : Type ℓ} {a b : A} → some a ≡ some b → a ≡ b
some_inj h = cc

pub bind-ok {ℓ} : {A : Type ℓ} (m : Outcome A) → (m >>= λ a. ok a) ≡ m
bind-ok (ok a) = refl
bind-ok (err e) = refl
bind-ok (panic p) = refl
bind-ok diverges = refl

pub bind_assoc {ℓ κ μ} :
    {A : Type ℓ} {B : Type κ} {C : Type μ} (m : Outcome A) (f : A → Outcome B) (g : B → Outcome C)
    → (m >>= f >>= g) ≡ (m >>= λ a. f a >>= g)
bind_assoc (ok a) f g = refl
bind_assoc (err e) f g = refl
bind_assoc (panic p) f g = refl
bind_assoc diverges f g = refl
