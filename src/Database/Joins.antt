-- ===== src/Database/Joins.antt =====
-- The join of target secrets with their targets and secrets, in src/database/sqlite.rs.
use mathlib.Core.List.Memᴰ
use rustion.Prelude.{
  ◌≤◌, ◌≡◌, refl, sym, ◌≢◌, ◌↔◌, ◌⊎◌, inl, inr, true, false, ◌&&◌, List, [], ◌∷◌, arith, Memᴰ,
  length, ◌==◌, if◌then◌else◌, Bool-cases,
}
use rustion.Casbin.Rules.{Uuid}
use rustion.Casbin.Names.{CasbinName}
use rustion.App.World.{Target}
use rustion.Database.Tables.{Tables, TargetSecret, Secret, from_each, from_joined}
use rustion.Database.Rows.{Memᴰ-from_each, Unique, length-from_each}

-- The primary keys.
pub record HasKeys (D : Tables) : Type 0 where
  pub targets : Unique (λ (t : Target). t.id) D.targets
  pub secrets : Unique (λ (s : Secret). s.id) D.secrets
  pub target_secrets : Unique (λ (ts : TargetSecret). ts.id) D.target_secrets
  pub casbin_names : Unique (λ (n : CasbinName). n.id) D.casbin_names

-- A target secret with its target and its secret.
pub record Joined (D : Tables) (ts : TargetSecret) (t : Target) (s : Secret) : Type 0 where
  pub link : Memᴰ ts D.target_secrets
  pub target : Memᴰ t D.targets
  pub secret : Memᴰ s D.secrets
  pub to_target : ts.target_id ≡ t.id
  pub to_secret : ts.secret_id ≡ s.id

module _ {A : Type 0} (D : Tables) (rows : TargetSecret → Target → Secret → List A) where
  pub Memᴰ-from_joined :
      (b : A)
      → Memᴰ b (from_joined D rows) ↔ (
          (ts : TargetSecret) × (t : Target) × (s : Secret) × Joined D ts t s
          × Memᴰ b (rows ts t s))
  Memᴰ-from_joined b = (
    λ m.
        let (ts, in_ts, m₁) = (Memᴰ-from_each b D.target_secrets _).0 m in
        let (t, in_t, m₂) = (Memᴰ-from_each b D.targets _).0 m₁ in
        let (s, in_s, m₃) = (Memᴰ-from_each b D.secrets _).0 m₂ in
        go ts t s in_ts in_t in_s (Bool-cases (ts.target_id == t.id && ts.secret_id == s.id)) m₃,
    λ i.
        let (ts, t, s, j, m) = i in
        let to_target = j.to_target in
        let to_secret = j.to_secret in
        let e : (ts.target_id == t.id && ts.secret_id == s.id) ≡ true = ground arith in
        (Memᴰ-from_each b D.target_secrets _).1 (
          ts,
          j.link,
          (Memᴰ-from_each b D.targets _).1
              (t, j.target, (Memᴰ-from_each b D.secrets _).1 (s, j.secret, rw e m)),
        ),
  )
    where
      go :
          (ts : TargetSecret) (t : Target) (s : Secret)
          → Memᴰ ts D.target_secrets
          → Memᴰ t D.targets
          → Memᴰ s D.secrets
          → ((ts.target_id == t.id && ts.secret_id == s.id) ≡ true)
            ⊎ ((ts.target_id == t.id && ts.secret_id == s.id) ≡ false)
          → Memᴰ b (if ts.target_id == t.id && ts.secret_id == s.id then rows ts t s else [])
          → (ts : TargetSecret) × (t : Target) × (s : Secret) × Joined D ts t s
            × Memᴰ b (rows ts t s)
      go ts t s in_ts in_t in_s (inl e) m = (
        ts,
        t,
        s,
        record {
          link = in_ts;
          target = in_t;
          secret = in_s;
          to_target = ground arith;
          to_secret = ground arith;
        },
        rw e at m,
      )
      go ts t s in_ts in_t in_s (inr e) m = absurd (Memᴰ.not-nil (rw e at m))

  -- Under the primary keys, the join gives at most one row for an id, if the rest does.
  pub length-from_joined :
      (id : Uuid)
      → HasKeys D
      → ((ts : TargetSecret) (t : Target) (s : Secret) → length (rows ts t s) ≤ 1)
      → ((ts : TargetSecret) (t : Target) (s : Secret) → ts.id ≢ id → rows ts t s ≡ [])
      → length (from_joined D rows) ≤ 1
  length-from_joined id keys one other =
      length-from_each (λ (ts : TargetSecret). ts.id) _ id D.target_secrets keys.target_secrets
        (λ ts ne. nothing D.targets (λ t. nothing D.secrets (λ s. off ts t s (other ts t s ne))))
        (λ ts.
          length-from_each (λ (t : Target). t.id) _ ts.target_id D.targets keys.targets
            (λ t ne. nothing D.secrets (λ s. apart ts t s (λ e. ne (sym e))))
            (λ t.
              length-from_each (λ (s : Secret). s.id) _ ts.secret_id D.secrets keys.secrets
                (λ s ne. apart' ts t s (λ e. ne (sym e))) (λ s. single ts t s)))
    where
      nothing :
          {B : Type 0} (xs : List B) {f : B → List A} → ((x : B) → f x ≡ []) → from_each xs f ≡ []
      nothing [] h = refl
      nothing (x ∷ xs) {f} h = rw (h x, nothing xs {f = f} h) refl

      off :
          (ts : TargetSecret) (t : Target) (s : Secret)
          → rows ts t s ≡ []
          → (if ts.target_id == t.id && ts.secret_id == s.id then rows ts t s else []) ≡ []
      off ts t s e = elim (Bool-cases (ts.target_id == t.id && ts.secret_id == s.id)) [
        | inl c ↦ rw (c, e) refl
        | inr c ↦ rw c refl
      ]

      apart :
          (ts : TargetSecret) (t : Target) (s : Secret)
          → ts.target_id ≢ t.id
          → (if ts.target_id == t.id && ts.secret_id == s.id then rows ts t s else []) ≡ []
      apart ts t s ne =
          let c : (ts.target_id == t.id && ts.secret_id == s.id) ≡ false = ground arith in rw c refl

      apart' :
          (ts : TargetSecret) (t : Target) (s : Secret)
          → ts.secret_id ≢ s.id
          → (if ts.target_id == t.id && ts.secret_id == s.id then rows ts t s else []) ≡ []
      apart' ts t s ne =
          let c : (ts.target_id == t.id && ts.secret_id == s.id) ≡ false = ground arith in rw c refl

      single :
          (ts : TargetSecret) (t : Target) (s : Secret)
          → length (if ts.target_id == t.id && ts.secret_id == s.id then rows ts t s else []) ≤ 1
      single ts t s = elim (Bool-cases (ts.target_id == t.id && ts.secret_id == s.id)) [
        | inl c ↦ rw c (one ts t s)
        | inr c ↦ rw c (omega arith)
      ]
