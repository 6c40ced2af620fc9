-- ===== src/Terminal/Completion/Order.antt =====
-- `natural_cmp` and `split_alpha_num` of src/terminal/completion.rs, with `sort_by` of the standard
-- library, which is stable.
use Prim.Native.Nat.{compare, Ordering}
use Prim.Native.Nat.Ordering.{lt, eq, gt}
use rustion.Prelude.{
  ℕ, ◌^◌, ◌≡◌, ◌↔◌, ◌⊎◌, inl, inr, Option, none, some, List, [], ◌∷◌, if◌then◌else◌, Memᴰ,
  Memᴰ-cons,
}
use rustion.Prelude.Decimal.{is_digit, parse_unsigned}
use rustion.Prelude.Text.{Text}

-- `str::find` of the first digit, and the parts in front of it and from it on.
unfoldable pub split_at_digit : Text → Text × Text
split_at_digit [] = ([], [])
split_at_digit (c ∷ s) =
    let (front, behind) = split_at_digit s in
    if is_digit c then ([], c ∷ s) else (c ∷ front, behind)

abbrev or_zero : Option ℕ → ℕ
or_zero none = 0
or_zero (some n) = n

unfoldable pub split_alpha_num : Text → Text × ℕ
unfolding split_at_digit
split_alpha_num s =
    let (front, behind) = split_at_digit s in (front, or_zero (parse_unsigned (2 ^ 64) behind))

-- `str::cmp`: the order of the code points is that of the bytes.
unfoldable pub text_cmp : Text → Text → Ordering
text_cmp [] [] = eq
text_cmp [] (_ ∷ _) = lt
text_cmp (_ ∷ _) [] = gt
text_cmp (a ∷ s) (b ∷ t) = elim (compare a b) [ lt ↦ lt | eq ↦ text_cmp s t | gt ↦ gt ]

unfoldable pub natural_cmp : Text → Text → Ordering
unfolding split_alpha_num text_cmp
natural_cmp a b =
    let (a_prefix, a_num) = split_alpha_num a in
    let (b_prefix, b_num) = split_alpha_num b in
    elim (text_cmp a_prefix b_prefix) [ lt ↦ lt | eq ↦ compare a_num b_num | gt ↦ gt ]

insert_by : (Text → Text → Ordering) → Text → List Text → List Text
insert_by cmp x [] = x ∷ []
insert_by cmp x (y ∷ ys) =
    let rest = insert_by cmp x ys in
    elim (cmp x y) [ lt ↦ x ∷ y ∷ ys | eq ↦ x ∷ y ∷ ys | gt ↦ y ∷ rest ]

unfoldable pub sort_by : (Text → Text → Ordering) → List Text → List Text
unfolding insert_by
sort_by cmp [] = []
sort_by cmp (x ∷ xs) = insert_by cmp x (sort_by cmp xs)

Memᴰ-insert_by :
    (cmp : Text → Text → Ordering) (x : Text) (ys : List Text) (e : Text)
    → Memᴰ e (insert_by cmp x ys) ↔ ((e ≡ x) ⊎ Memᴰ e ys)
unfolding insert_by
Memᴰ-insert_by cmp x [] e = Memᴰ-cons e x []
Memᴰ-insert_by cmp x (y ∷ ys) e = go (Memᴰ-insert_by cmp x ys e) (cmp x y)
  where
    go :
        (Memᴰ e (insert_by cmp x ys) ↔ ((e ≡ x) ⊎ Memᴰ e ys))
        → (o : Ordering)
        → Memᴰ e (elim o [ lt ↦ x ∷ y ∷ ys | eq ↦ x ∷ y ∷ ys | gt ↦ y ∷ insert_by cmp x ys ])
          ↔ ((e ≡ x) ⊎ Memᴰ e (y ∷ ys))
    go rest lt = Memᴰ-cons e x (y ∷ ys)
    go rest eq = Memᴰ-cons e x (y ∷ ys)
    go rest gt = (
      λ m. elim ((Memᴰ-cons e y (insert_by cmp x ys)).0 m) [
        | inl q ↦ inr (Memᴰ.head q)
        | inr k ↦ elim (rest.0 k) [ inl q ↦ inl q | inr j ↦ inr (Memᴰ.tail j) ]
      ],
      λ i. elim i [
        | inl q ↦ Memᴰ.tail (rest.1 (inl q))
        | inr m ↦ elim ((Memᴰ-cons e y ys).0 m) [
          | inl q ↦ Memᴰ.head q
          | inr k ↦ Memᴰ.tail (rest.1 (inr k))
        ]
      ],
    )

-- Sorting neither loses nor adds an item.
pub Memᴰ-sort_by :
    (cmp : Text → Text → Ordering) (xs : List Text) (e : Text) → Memᴰ e (sort_by cmp xs) ↔ Memᴰ e xs
unfolding sort_by
Memᴰ-sort_by cmp [] e = (λ m. m, λ m. m)
Memᴰ-sort_by cmp (x ∷ xs) e =
    let rest = Memᴰ-sort_by cmp xs e in
    let one = Memᴰ-insert_by cmp x (sort_by cmp xs) e in
    let both = Memᴰ-cons e x xs in
    (
      λ m. elim (one.0 m) [ inl q ↦ both.1 (inl q) | inr k ↦ both.1 (inr (rest.0 k)) ],
      λ m. elim (both.0 m) [ inl q ↦ one.1 (inl q) | inr k ↦ one.1 (inr (rest.1 k)) ],
    )
