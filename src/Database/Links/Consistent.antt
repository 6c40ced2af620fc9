-- ===== src/Database/Links/Consistent.antt =====
-- When the table `target_secrets` of src/database/sqlite.rs is consistent, and how its rows are found.
use mathlib.Core.List.Memᴰ
use rustion.Prelude.{
  ◌≡◌, refl, sym, ap, ◌∙◌, Bool, true, false, none, some, List, [], ◌∷◌, ◌++◌, find, map, arith,
  inl, inr, ◌⊎◌, Bool-cases, Memᴰ, Memᴰ-append,
}
use rustion.Casbin.Rules.{Uuid}
use rustion.Database.Tables.{TargetSecret}
use rustion.Database.Links.{Links, has_id, has_pair, refers, put}

-- No pair stands in two rows with different ids, and every foreign key refers to a row.
pub record IsConsistent (D : Links) : Type 0 where
  pub pairs :
      (a b : TargetSecret)
      → Memᴰ a D.rows
      → Memᴰ b D.rows
      → a.target_id ≡ b.target_id
      → a.secret_id ≡ b.secret_id
      → a.id ≡ b.id
  pub keys : (a : TargetSecret) → Memᴰ a D.rows → refers D a ≡ true

pub find-some :
    (p : TargetSecret → Bool) (xs : List TargetSecret) (r : TargetSecret)
    → find p xs ≡ some r
    → Memᴰ r xs × (p r ≡ true)
find-some p [] r h = cc
find-some p (x ∷ xs) r h = elim (Bool-cases (p x)) [
  | inl e ↦
      let found : some x ≡ some r = rw e at h in
      let same : x ≡ r = cc in (Memᴰ.head (sym same), rw (← same) e)
  | inr e ↦ let (m, q) = find-some p xs r (rw e at h) in (Memᴰ.tail m, q)
]

pub find-none :
    (p : TargetSecret → Bool) (xs : List TargetSecret) (r : TargetSecret)
    → find p xs ≡ none
    → Memᴰ r xs
    → p r ≡ false
find-none p [] r h m = absurd (Memᴰ.not-nil m)
find-none p (x ∷ xs) r h m = elim (Bool-cases (p x)) [
  | inl e ↦ let found : some x ≡ none = rw e at h in absurd (cc)
  | inr e ↦ elim (Memᴰ.cases_cons m) [
    | inl same ↦ rw same e
    | inr later ↦ find-none p xs r (rw e at h) later
  ]
]

pub find-last :
    (p : TargetSecret → Bool) (xs : List TargetSecret) (r : TargetSecret)
    → find p xs ≡ none
    → p r ≡ true
    → find p (xs ++ (r ∷ [])) ≡ some r
find-last p [] r h q = rw q refl
find-last p (x ∷ xs) r h q = elim (Bool-cases (p x)) [
  | inl e ↦ let found : some x ≡ none = rw e at h in absurd (cc)
  | inr e ↦ rw e (find-last p xs r (rw e at h) q)
]

pub find-put :
    (t s : Uuid) (u ts : TargetSecret) (xs : List TargetSecret)
    → find (has_pair t s) xs ≡ some ts
    → u.id ≡ ts.id
    → has_pair t s u ≡ true
    → find (has_pair t s) (map (put u) xs) ≡ some u
find-put t s u ts [] h same q = cc
find-put t s u ts (x ∷ xs) h same q = elim (Bool-cases (has_id u.id x)) [
  | inl e ↦ rw (e, q) refl
  | inr e ↦ elim (Bool-cases (has_pair t s x)) [
    | inl f ↦
        let found : some x ≡ some ts = rw f at h in
        let at : x ≡ ts = cc in let id : x.id ≡ ts.id = ap (λ y. y.id) at in absurd (ground arith)
    | inr f ↦ rw (e, f) (find-put t s u ts xs (rw f at h) same q)
  ]
]

-- A row of the updated table.
put-cases :
    (u x : TargetSecret) (rows : List TargetSecret)
    → Memᴰ x (map (put u) rows)
    → (y : TargetSecret) × Memᴰ y rows × (put u y ≡ x)
put-cases u x rows m = Memᴰ.of_map (put u) rows m

put-same : (u y : TargetSecret) → has_id u.id y ≡ true → put u y ≡ u
put-same u y e = rw e refl

put-other : (u y : TargetSecret) → has_id u.id y ≡ false → put u y ≡ y
put-other u y e = rw e refl

module _ (D : Links) (c : IsConsistent D) where
  -- A new row, with a pair that is not in the table.
  pub added-IsConsistent :
      (r : TargetSecret)
      → find (has_pair r.target_id r.secret_id) D.rows ≡ none
      → refers D r ≡ true
      → IsConsistent (record D { rows = D.rows ++ (r ∷ []) })
  added-IsConsistent r absent fits = record {
    pairs = λ a b in_a in_b same_t same_s. elim (sides a in_a) [
      | inl old_a ↦ elim (sides b in_b) [
        | inl old_b ↦ c.pairs a b old_a old_b same_t same_s
        | inr new_b ↦ absurd (
            clash a old_a (same_t ∙ ap (λ x. x.target_id) new_b)
              (same_s ∙ ap (λ x. x.secret_id) new_b))
      ]
      | inr new_a ↦ elim (sides b in_b) [
        | inl old_b ↦ absurd (
            clash b old_b (sym same_t ∙ ap (λ x. x.target_id) new_a)
              (sym same_s ∙ ap (λ x. x.secret_id) new_a))
        | inr new_b ↦ ap (λ x. x.id) (new_a ∙ sym new_b)
      ]
    ];
    keys = λ a in_a. elim (sides a in_a) [ inl old ↦ c.keys a old | inr new ↦ rw new fits ];
  }
    where
      sides : (a : TargetSecret) → Memᴰ a (D.rows ++ (r ∷ [])) → Memᴰ a D.rows ⊎ (a ≡ r)
      sides a m = elim ((Memᴰ-append a D.rows (r ∷ [])).0 m) [
        | inl old ↦ inl old
        | inr new ↦ elim (Memᴰ.cases_cons new) [
          | inl same ↦ inr same
          | inr later ↦ absurd (Memᴰ.not-nil later)
        ]
      ]

      clash :
          (a : TargetSecret)
          → Memᴰ a D.rows
          → a.target_id ≡ r.target_id
          → a.secret_id ≡ r.secret_id
          → ⊥
      clash a m p q =
          let e = find-none (has_pair r.target_id r.secret_id) D.rows a absent m in ground arith

  -- A row that is replaced by one with its id and its pair.
  pub replaced-IsConsistent :
      (u ts : TargetSecret)
      → Memᴰ ts D.rows
      → u.id ≡ ts.id
      → u.target_id ≡ ts.target_id
      → u.secret_id ≡ ts.secret_id
      → u.updated_by ≡ ts.updated_by
      → IsConsistent (record D { rows = map (put u) D.rows })
  replaced-IsConsistent u ts m same_id same_t same_s same_by = record {
    pairs = λ a b in_a in_b p q.
        let (x, in_x, id_x, t_x, s_x) = origin a in_a in
        let (y, in_y, id_y, t_y, s_y) = origin b in_b in
        id_x ∙ (c.pairs x y in_x in_y (sym t_x ∙ (p ∙ t_y)) (sym s_x ∙ (q ∙ s_y)) ∙ sym id_y);
    keys = λ a in_a.
        let (y, in_y, same) = put-cases u a D.rows in_a in
        elim (Bool-cases (has_id u.id y)) [
          | inl e ↦
              let k = c.keys ts m in
              let at : u ≡ a = sym (put-same u y e) ∙ same in
              let fits : refers D u ≡ true = rw (same_by, same_s, same_t) k in rw (← at) fits
          | inr e ↦ let at : y ≡ a = sym (put-other u y e) ∙ same in rw (← at) (c.keys y in_y)
        ];
  }
    where
      origin :
          (a : TargetSecret)
          → Memᴰ a (map (put u) D.rows)
          → (x : TargetSecret) × Memᴰ x D.rows
            × (a.id ≡ x.id)
            × (a.target_id ≡ x.target_id)
            × (a.secret_id ≡ x.secret_id)
      origin a in_a =
          let (y, in_y, same) = put-cases u a D.rows in_a in
          elim (Bool-cases (has_id u.id y)) [
            | inl e ↦
                let at : a ≡ u = sym same ∙ put-same u y e in
                (
                  ts,
                  m,
                  ap (λ x. x.id) at ∙ same_id,
                  ap (λ x. x.target_id) at ∙ same_t,
                  ap (λ x. x.secret_id) at ∙ same_s,
                )
            | inr e ↦
                let at : a ≡ y = sym same ∙ put-other u y e in
                (y, in_y, ap (λ x. x.id) at, ap (λ x. x.target_id) at, ap (λ x. x.secret_id) at)
          ]
