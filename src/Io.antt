-- ===== src/Io.antt =====
-- Code that acts on the world: it gives a result and the world that it leaves, faults, or blocks.
use os_tp.Base.{◌≡◌, refl, Bool, true, false, Outcome, ok, fault, blocked, bind-ok}
use os_tp.Base

abbrev pub Io {ℓ κ} : Type ℓ → Type κ → Type (ℓ ⊔ κ)
Io W A = W → Outcome (A × W)

infixl 5 ◌>>=◌ ◌>>◌
abbrev pub ◌>>=◌ {ℓ κ μ} : {W : Type ℓ} {A : Type κ} {B : Type μ} → Io W A → (A → Io W B) → Io W B
◌>>=◌ m f w = Base.◌>>=◌ (m w) (λ r. f r.0 r.1)

abbrev pub ◌>>◌ {ℓ κ μ} : {W : Type ℓ} {A : Type κ} {B : Type μ} → Io W A → Io W B → Io W B
m >> n = m >>= λ _. n

abbrev pub pure {ℓ κ} : {W : Type ℓ} {A : Type κ} → A → Io W A
pure a w = ok (a, w)

-- A computation that leaves the world alone.
abbrev pub lift {ℓ κ} : {W : Type ℓ} {A : Type κ} → Outcome A → Io W A
lift m w = Base.◌>>=◌ m (λ a. ok (a, w))

pub lift-ok {ℓ κ} :
    {W : Type ℓ} {A : Type κ} {m : Outcome A} {a : A} (w : W) → m ≡ ok a → lift m w ≡ ok (a, w)
lift-ok w e = rw e refl

-- How a call ends in the process that goes on: it returns a value, or the process has become another
-- program, or has ended.
pub data Fate {ℓ} (A : Type ℓ) : Type ℓ where
  returned : A → Fate A
  replaced exited : Fate A
