-- ===== src/Database/Rows.antt =====
-- The rows of a query, for the loops of src/database/sqlite.rs.
use mathlib.Core.List.Memᴰ
use rustion.Prelude.{
  ℕ, ◌≤◌, ◌≡◌, refl, ◌≢◌, ◌↔◌, inl, inr, Bool, true, false, List, [], ◌∷◌, arith, All, Memᴰ,
  Memᴰ-append, length, length-append, ◌==◌, Bool-cases,
}
use rustion.Database.Tables.{from_each, where_row}

module _ {ℓ κ} {A : Type ℓ} {B : Type κ} where
  pub Memᴰ-from_each :
      (b : B) (xs : List A) (rows : A → List B)
      → Memᴰ b (from_each xs rows) ↔ ((x : A) × Memᴰ x xs × Memᴰ b (rows x))
  Memᴰ-from_each b [] rows = (λ m. absurd (Memᴰ.not-nil m), λ i. absurd (Memᴰ.not-nil i.1))
  Memᴰ-from_each b (x ∷ xs) rows =
      let both = Memᴰ-append b (rows x) (from_each xs rows) in
      let rest = Memᴰ-from_each b xs rows in
      (
        λ m. elim (both.0 m) [
          | inl here ↦ (x, Memᴰ.head refl, here)
          | inr later ↦ let (y, n, k) = rest.0 later in (y, Memᴰ.tail n, k)
        ],
        λ i. both.1 (
            let (y, n, k) = i in
            elim (Memᴰ.cases_cons n) [
              | inl same ↦ inl (rw (← same) k)
              | inr later ↦ inr (rest.1 (y, later, k))
            ]),
      )

module _ {ℓ} {A : Type ℓ} where
  pub Memᴰ-where_row : (b : Bool) (x y : A) → Memᴰ y (where_row b x) ↔ ((b ≡ true) × (y ≡ x))
  Memᴰ-where_row true x y = (
    λ m. (
      refl,
      elim (Memᴰ.cases_cons m) [ inl same ↦ same | inr later ↦ absurd (Memᴰ.not-nil later) ],
    ),
    λ i. Memᴰ.head i.1,
  )
  Memᴰ-where_row false x y = (λ m. absurd (Memᴰ.not-nil m), λ i. absurd (let e = i.0 in cc))

-- No two rows have the same key.
abbrev pub Unique {ℓ} : {A : Type ℓ} → (A → ℕ) → List A → Type ℓ
Unique key [] = Unit
Unique key (x ∷ xs) = All (λ y. key y ≢ key x) xs × Unique key xs

module _ {ℓ κ} {A : Type ℓ} {B : Type κ} (key : A → ℕ) (rows : A → List B) (k : ℕ) where
  none_left :
      (n : ℕ) (xs : List A)
      → n ≡ k
      → ((x : A) → key x ≢ k → rows x ≡ [])
      → All (λ y. key y ≢ n) xs
      → from_each xs rows ≡ []
  none_left n [] same h all = refl
  none_left n (x ∷ xs) same h all =
      let e = h x (λ q. all.0 (omega arith)) in rw (e, none_left n xs same h all.1) refl

  -- Where only the rows with one key give anything, and one thing at most, so does the loop.
  pub length-from_each :
      (xs : List A)
      → Unique key xs
      → ((x : A) → key x ≢ k → rows x ≡ [])
      → ((x : A) → length (rows x) ≤ 1)
      → length (from_each xs rows) ≤ 1
  length-from_each [] u h one = omega arith
  length-from_each (x ∷ xs) u h one = elim (Bool-cases (key x == k)) [
    | inl e ↦
        let same : key x ≡ k = ground arith in
        let empty = none_left (key x) xs same h u.0 in
        let l = length-append (rows x) (from_each xs rows) in
        let z : length (from_each xs rows) ≡ 0 = rw empty refl in let o = one x in omega arith
    | inr e ↦
        let differs : key x ≢ k = λ q. ground arith in
        rw (h x differs) (length-from_each xs u.1 h one)
  ]
