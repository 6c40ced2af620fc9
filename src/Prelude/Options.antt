-- ===== src/Prelude/Options.antt =====
-- Chains of results that may be missing, and a difference that may be.
use Prim.Native.Nat.{ℕ, ◌-◌}
use mathlib.Core.Path.{◌≡◌, refl}
use mathlib.Core.Option.{Option, none, some}
use rustion.Prelude.Tests.{leb, if◌then◌else◌}

infixl 5 ◌>>=◌
abbrev pub ◌>>=◌ {ℓ κ} : {A : Type ℓ} {B : Type κ} → Option A → (A → Option B) → Option B
none >>= next = none
some a >>= next = next a

-- What a chain that ends in a result went through.
pub bind-eq-some {ℓ κ} :
    {A : Type ℓ} {B : Type κ} (o : Option A) (next : A → Option B) {b : B}
    → (o >>= next) ≡ some b
    → (a : A) × (o ≡ some a) × (next a ≡ some b)
bind-eq-some none next h = cc
bind-eq-some (some a) next h = (a, refl, h)

-- The difference of two numbers that must not be negative.
abbrev pub minus : ℕ → ℕ → Option ℕ
minus a b = if leb b a then some (a - b) else none
