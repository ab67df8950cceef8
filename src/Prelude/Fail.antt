-- ===== src/Prelude/Fail.antt =====
-- Runs that may stop in a failed assertion (`none`), as a monad.
use mathlib.Core.Path.{◌≡◌, refl, ap}
use mathlib.Core.Bool.{Bool, true, false}
use mathlib.Core.Option.{Option, none, some}

infixl 5 ◌>>=◌ ◌>>◌
abbrev pub ◌>>=◌ {ℓ κ} : {A : Type ℓ} {B : Type κ} → Option A → (A → Option B) → Option B
none >>= f = none
some a >>= f = f a

abbrev pub ◌>>◌ {ℓ} : {B : Type ℓ} → Option (Unit {0}) → Option B → Option B
m >> k = m >>= λ _. k

-- `assert(b)`
abbrev pub assert : Bool → Option (Unit {0})
assert true = some tt
assert false = none

-- A run whose first step is known.
pub bind-some {ℓ κ} :
    {A : Type ℓ} {B : Type κ} (m : Option A) (k : A → Option B) {a : A}
    → m ≡ some a
    → (m >>= k) ≡ k a
bind-some m k e = ap (λ n. n >>= k) e

-- A run with a result has passed its assertion.
pub past_assert {ℓ} :
    {A : Type ℓ} (b : Bool) (k : Option A) {a : A} → (assert b >> k) ≡ some a → k ≡ some a
past_assert true k e = e
past_assert false k e = absurd (cc)

pub bind_assoc {ℓ κ μ} :
    {A : Type ℓ} {B : Type κ} {C : Type μ} (m : Option A) (f : A → Option B) (g : B → Option C)
    → ((m >>= f) >>= g) ≡ (m >>= λ a. f a >>= g)
bind_assoc none f g = refl
bind_assoc (some a) f g = refl

-- Runs that go on alike.
pub bind_congr {ℓ κ} :
    {A : Type ℓ} {B : Type κ} (m : Option A) {f g : A → Option B}
    → ((a : A) → f a ≡ g a)
    → (m >>= f) ≡ (m >>= g)
bind_congr none h = refl
bind_congr (some a) h = h a

-- A run with a result has come through its first step.
pub past_bind {ℓ κ} :
    {A : Type ℓ} {B : Type κ} (m : Option A) (f : A → Option B) {b : B}
    → (m >>= f) ≡ some b
    → (a : A) × (m ≡ some a) × (f a ≡ some b)
past_bind none f e = absurd (cc)
past_bind (some a) f e = (a, refl, e)
