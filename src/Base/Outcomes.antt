-- ===== src/Base/Outcomes.antt =====
-- What running a piece of the program gives: a value, a fault (an access outside a block or through
-- a null pointer, which C leaves undefined), or a call that never returns.
use mathlib.Core.Path.{◌≡◌, refl}

pub data Outcome {ℓ} (A : Type ℓ) : Type ℓ where
  ok : A → Outcome A
  fault : Outcome A
  blocked : Outcome A

infixl 5 ◌>>=◌
abbrev pub ◌>>=◌ {ℓ κ} : {A : Type ℓ} {B : Type κ} → Outcome A → (A → Outcome B) → Outcome B
ok a >>= f = f a
fault >>= f = fault
blocked >>= f = blocked

module _ {ℓ κ} {A : Type ℓ} {B : Type κ} where
  -- One step of a block that runs well.
  pub bind-ok :
      (f : A → Outcome B) {m : Outcome A} {a : A} {r : Outcome B}
      → m ≡ ok a
      → f a ≡ r
      → (m >>= f) ≡ r
  bind-ok f e h = rw e h

  -- A block that gives a value has run its first step to a value.
  pub bind-eq-ok :
      (m : Outcome A) (f : A → Outcome B) {b : B}
      → (m >>= f) ≡ ok b
      → (a : A) × (m ≡ ok a) × (f a ≡ ok b)
  bind-eq-ok (ok a) f h = (a, refl, h)
  bind-eq-ok fault f h = cc
  bind-eq-ok blocked f h = cc

pub ok-injective {ℓ} : {A : Type ℓ} {a b : A} → ok a ≡ ok b → a ≡ b
ok-injective e = cc
