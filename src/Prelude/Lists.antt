-- ===== src/Prelude/Lists.antt =====
-- Lists measured by native numbers, under the library's names, and predicates on their items.
use Prim.Native.Nat.{ℕ, zero, suc, ◌+◌}
use mathlib.Core.Path.{◌≡◌, refl}
use mathlib.Core.Logic.{◌↔◌, ◌⊎◌, inl, inr, ⊎_elim}
use mathlib.Core.Bool.{Bool, true, false, ◌||◌}
use mathlib.Core.List.{List, [], ◌∷◌, ◌++◌, Memᴰ}
use mathlib.Core.List.Memᴰ
use mathlib.Core.Option.{Option, none, some}
use native.Mathlib.Omega.{arith}
use rustion.Prelude.Tests.{if◌then◌else◌, Bool-cases}

module _ {ℓ} {A : Type ℓ} where
  abbrev pub length : List A → ℕ
  length [] = 0
  length (x ∷ xs) = suc (length xs)

  abbrev pub get_elem? : List A → ℕ → Option A
  get_elem? [] i = none
  get_elem? (x ∷ xs) zero = some x
  get_elem? (x ∷ xs) (suc i) = get_elem? xs i

  abbrev pub any : (A → Bool) → List A → Bool
  any p [] = false
  any p (x ∷ xs) = p x || any p xs

  -- `Iterator::filter` with a Boolean test.
  abbrev pub keep : (A → Bool) → List A → List A
  keep p [] = []
  keep p (x ∷ xs) = let rest = keep p xs in elim (p x) [ true ↦ x ∷ rest | false ↦ rest ]

  abbrev pub find : (A → Bool) → List A → Option A
  find p [] = none
  find p (x ∷ xs) = if p x then some x else find p xs

  pub length-append : (xs ys : List A) → length (xs ++ ys) ≡ length xs + length ys
  length-append [] ys = omega arith
  length-append (x ∷ xs) ys = omega (arith, length-append xs ys)

  pub Memᴰ-cons : (a x : A) (xs : List A) → Memᴰ a (x ∷ xs) ↔ ((a ≡ x) ⊎ Memᴰ a xs)
  Memᴰ-cons a x xs = (Memᴰ.cases_cons, ⊎_elim Memᴰ.head Memᴰ.tail)

module _ {ℓ κ} {A : Type ℓ} (P : A → Type κ) where
  -- Every item satisfies `P`.
  abbrev pub All : List A → Type κ
  All [] = Unit
  All (x ∷ xs) = P x × All xs

  pub All-append : (xs ys : List A) → All xs → All ys → All (xs ++ ys)
  All-append [] ys hx hy = hy
  All-append (x ∷ xs) ys hx hy = (hx.0, All-append xs ys hx.1 hy)

  pub All-mem : {x : A} (xs : List A) → All xs → Memᴰ x xs → P x
  All-mem [] h m = absurd (Memᴰ.not-nil m)
  All-mem {x} (y ∷ xs) h m = elim (Memᴰ.cases_cons m) [
    | inl e ↦ rw e h.0
    | inr later ↦ All-mem xs h.1 later
  ]

  pub All-of_mem : (xs : List A) → ((x : A) → Memᴰ x xs → P x) → All xs
  All-of_mem [] h = tt
  All-of_mem (x ∷ xs) h = (h x (Memᴰ.head refl), All-of_mem xs (λ y m. h y (Memᴰ.tail m)))

module _ {ℓ} {A : Type ℓ} where
  -- What `any` finds is an item that passes the test.
  pub any_sound :
      (p : A → Bool) (xs : List A) → any p xs ≡ true → (x : A) × Memᴰ x xs × (p x ≡ true)
  any_sound p [] h = cc
  any_sound p (x ∷ xs) h = elim (Bool-cases (p x)) [
    | inl e ↦ (x, Memᴰ.head refl, e)
    | inr e ↦ let (y, m, q) = any_sound p xs (ground arith) in (y, Memᴰ.tail m, q)
  ]

  pub any_complete : (p : A → Bool) {x : A} (xs : List A) → Memᴰ x xs → p x ≡ true → any p xs ≡ true
  any_complete p [] m h = absurd (Memᴰ.not-nil m)
  any_complete p {x} (y ∷ xs) m h = elim (Memᴰ.cases_cons m) [
    | inl e ↦ let q : p y ≡ true = rw (← e) h in rw q
    | inr later ↦ let q = any_complete p xs later h in ground arith
  ]

  pub keep_sound :
      (p : A → Bool) {x : A} (xs : List A) → Memᴰ x (keep p xs) → Memᴰ x xs × (p x ≡ true)
  keep_sound p [] m = absurd (Memᴰ.not-nil m)
  keep_sound p {x} (y ∷ xs) m = elim (Bool-cases (p y)) [
    | inl e ↦ elim (Memᴰ.cases_cons (rw (e, keep) at m)) [
      | inl same ↦ (Memᴰ.head same, rw same e)
      | inr later ↦ let (n, q) = keep_sound p xs later in (Memᴰ.tail n, q)
    ]
    | inr e ↦ let (n, q) = keep_sound p xs (rw (e, keep) at m) in (Memᴰ.tail n, q)
  ]

  pub keep_complete :
      (p : A → Bool) {x : A} (xs : List A) → Memᴰ x xs → p x ≡ true → Memᴰ x (keep p xs)
  keep_complete p [] m h = absurd (Memᴰ.not-nil m)
  keep_complete p {x} (y ∷ xs) m h = elim (Memᴰ.cases_cons m) [
    | inl same ↦ let q : p y ≡ true = rw (← same) h in rw (q, keep) (Memᴰ.head same)
    | inr later ↦ elim (Bool-cases (p y)) [
      | inl e ↦ rw (e, keep) (Memᴰ.tail (keep_complete p xs later h))
      | inr e ↦ rw (e, keep) (keep_complete p xs later h)
    ]
  ]

  pub Memᴰ-append : (x : A) (xs ys : List A) → Memᴰ x (xs ++ ys) ↔ (Memᴰ x xs ⊎ Memᴰ x ys)
  Memᴰ-append x [] ys = (inr, ⊎_elim (λ m. absurd (Memᴰ.not-nil m)) (λ m. m))
  Memᴰ-append x (y ∷ xs) ys =
      let rest = Memᴰ-append x xs ys in
      (
        λ m. elim (Memᴰ.cases_cons m) [
          | inl e ↦ inl (Memᴰ.head e)
          | inr later ↦ elim (rest.0 later) [ inl k ↦ inl (Memᴰ.tail k) | inr k ↦ inr k ]
        ],
        λ m. elim m [
          | inl k ↦ elim (Memᴰ.cases_cons k) [
            | inl e ↦ Memᴰ.head e
            | inr later ↦ Memᴰ.tail (rest.1 (inl later))
          ]
          | inr k ↦ Memᴰ.tail (rest.1 (inr k))
        ],
      )
