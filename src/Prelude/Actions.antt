-- ===== src/Prelude/Actions.antt =====
-- Methods that change `self`: a state passed on, and a result, an error by `?`, or a panic.
use mathlib.Core.Path.{◌≡◌, refl, sym, ap, ◌∙◌}

pub data Outcome {ℓ κ} (E : Type ℓ) (A : Type κ) : Type (ℓ ⊔ κ) where
  returned : A → Outcome E A
  failed : E → Outcome E A
  panicked : Outcome E A

module _ {ℓ κ} {S : Type ℓ} {E : Type κ} where
  infixl 5 ◌>>=◌ ◌>>◌
  abbrev pub ◌>>=◌ {μ ν} :
      {A : Type μ} {B : Type ν}
      → (S → Outcome E A × S)
      → (A → S → Outcome E B × S)
      → S
      → Outcome E B × S
  ◌>>=◌ m next s =
      let (r, s') = m s in
      elim r [ returned a ↦ next a s' | failed e ↦ (failed e, s') | panicked ↦ (panicked, s') ]

  abbrev pub ◌>>◌ {μ ν} :
      {A : Type μ} {B : Type ν}
      → (S → Outcome E A × S)
      → (S → Outcome E B × S)
      → S
      → Outcome E B × S
  ◌>>◌ m next = m >>= λ _. next

  -- What returned by a bind: both parts returned.
  pub bind-returned {μ ν} :
      {A : Type μ} {B : Type ν} (m : S → Outcome E A × S) (next : A → S → Outcome E B × S) (s : S)
      {t : S} {b : B}
      → (m >>= next) s ≡ (returned b, t)
      → (a : A) × (r : S) × (m s ≡ (returned a, r)) × (next a r ≡ (returned b, t))
  bind-returned {A} {B} m next s {t} {b} h = split (m s) refl h
    where
      split :
          (p : Outcome E A × S)
          → m s ≡ p
          → elim p.0 [
            | returned a ↦ next a p.1
            | failed e ↦ (failed e, p.1)
            | panicked ↦ (panicked, p.1)
          ]
            ≡ (returned b, t)
          → (a : A) × (r : S) × (m s ≡ (returned a, r)) × (next a r ≡ (returned b, t))
      split (returned a, r) e g = (a, r, e, g)
      split (failed x, r) e g = cc
      split (panicked, r) e g = cc

  -- One run has one end.
  pub same_end {μ} :
      {A : Type μ} {p : Outcome E A × S} {t t' : S} {r r' : Outcome E A}
      → p ≡ (r, t)
      → p ≡ (r', t')
      → (r ≡ r') × (t ≡ t')
  same_end g h = let both = sym g ∙ h in (ap (λ p. p.0) both, ap (λ p. p.1) both)

  -- A relation between the state before and after a bind, from those of its parts.
  pub bind-relates {μ ν π ρ σ} :
      {A : Type μ} {B : Type ν} (First : S → S → Type π) (Second : S → S → Type ρ)
      (Both : S → S → Type σ) (m : S → Outcome E A × S) (next : A → S → Outcome E B × S)
      → ((a b c : S) → First a b → Second b c → Both a c)
      → ((a b : S) → First a b → Both a b)
      → ((s : S) → First s (m s).1)
      → ((a : A) (s : S) → Second s (next a s).1)
      → (s : S) → Both s ((m >>= next) s).1
  bind-relates {A} {B} First Second Both m next trans stop first second s = go (m s) (first s)
    where
      go :
          (p : Outcome E A × S)
          → First s p.1
          → let q : Outcome E B × S = elim p.0 [
            | returned a ↦ next a p.1
            | failed e ↦ (failed e, p.1)
            | panicked ↦ (panicked, p.1)
          ] in
            Both s q.1
      go (returned a, r) f = trans s r (next a r).1 f (second a r)
      go (failed x, r) f = stop s r f
      go (panicked, r) f = stop s r f
