-- ===== src/Prelude/Results.antt =====
-- `Result<T, E>` of the language, with its bind for `?` and for do blocks.
use mathlib.Core.Path.{◌≡◌, refl, ap}
use mathlib.Core.Logic.{◌⊎◌, inl, inr}

pub data Result {ℓ κ} (E : Type ℓ) (T : Type κ) : Type (ℓ ⊔ κ) where
  ok : T → Result E T
  err : E → Result E T

pub Result-cases {ℓ κ} :
    {E : Type ℓ} {T : Type κ} (r : Result E T) → ((t : T) × (r ≡ ok t)) ⊎ ((e : E) × (r ≡ err e))
Result-cases (ok t) = inl (t, refl)
Result-cases (err e) = inr (e, refl)

abbrev pub map_err {ℓ κ μ} :
    {E : Type ℓ} {F : Type κ} {T : Type μ} → (E → F) → Result E T → Result F T
map_err wrap (ok t) = ok t
map_err wrap (err e) = err (wrap e)

module _ {ℓ κ μ} {E : Type ℓ} {T : Type κ} {U : Type μ} where
  infixl 5 ◌>>=◌ ◌>>◌
  abbrev pub ◌>>=◌ : Result E T → (T → Result E U) → Result E U
  ok t >>= next = next t
  err e >>= next = err e

  abbrev pub ◌>>◌ : Result E T → Result E U → Result E U
  r >> later = r >>= λ _. later

  -- Inversion of a `?` by the value that the whole returned, and by the error.
  pub bind-eq-ok :
      (r : Result E T) (next : T → Result E U) {u : U}
      → (r >>= next) ≡ ok u
      → (t : T) × (r ≡ ok t) × (next t ≡ ok u)
  bind-eq-ok (ok t) next h = (t, refl, h)
  bind-eq-ok (err e) next h = cc

  pub bind-eq-err :
      (r : Result E T) (next : T → Result E U) {e : E}
      → (r >>= next) ≡ err e
      → (r ≡ err e) ⊎ ((t : T) × (r ≡ ok t) × (next t ≡ err e))
  bind-eq-err (ok t) next h = inr (t, refl, h)
  bind-eq-err (err x) next h = let same : x ≡ _ = cc in inl (ap err same)
