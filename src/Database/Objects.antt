-- ===== src/Database/Objects.antt =====
-- What the queries of src/database/sqlite.rs select.
use mathlib.Core.List.Memᴰ
use rustion.Prelude.{
  ◌≤◌, ◌≡◌, refl, ◌↔◌, ◌⊎◌, inl, inr, Bool, true, false, ◌&&◌, List, [], ◌∷◌, arith, Memᴰ, any, not,
  ◌||◌, length, ◌==◌, Bool-cases,
}
use rustion.Prelude.Text.{Text, codes, text_eq}
use rustion.Casbin.Rules.{Uuid, CasbinRule}
use rustion.Casbin.Names.{CasbinName}
use rustion.App.World.{Target, TargetSecretName}
use rustion.Database.Tables.{
  Tables, TargetSecret, Secret, from_each, where_row, from_joined, all_active,
  active_target_secrets, active_internal_objects, check_object_active, list_casbin_rules_by_ptype,
  name_row, list_targets_by_ids,
}
use rustion.Database.Rows.{Memᴰ-from_each, Memᴰ-where_row, length-from_each}
use rustion.Database.Joins.{HasKeys, Joined, Memᴰ-from_joined, length-from_joined}

-- An active target secret whose target and secret are active.
abbrev pub IsActiveSecret : Tables → Uuid → Type 0
IsActiveSecret D id =
    (ts : TargetSecret) × (t : Target) × (s : Secret) × Joined D ts t s
    × (all_active ts t s ≡ true)
    × (ts.id ≡ id)

-- An active internal object.
abbrev pub IsActiveInternal : Tables → Uuid → Type 0
IsActiveInternal D id =
    (n : CasbinName) × Memᴰ n D.casbin_names
    × (text_eq n.ptype (codes "__internal_object_type") ≡ true)
    × (n.is_active ≡ true)
    × (n.id ≡ id)

length-where_row : {A : Type 0} (b : Bool) (x : A) → length (where_row b x) ≤ 1
length-where_row true x = omega arith
length-where_row false x = omega arith

-- A list with an item, and at most one.
one_item :
    {A : Type 0} (xs : List A) → length xs ≤ 1 → ((length xs == 1) ≡ true) ↔ ((x : A) × Memᴰ x xs)
one_item [] h = (λ e. absurd (ground arith), λ i. absurd (Memᴰ.not-nil i.1))
one_item (x ∷ []) h = (λ e. (x, Memᴰ.head refl), λ i. refl)
one_item (x ∷ y ∷ xs) h = absurd (omega arith)

one_secret :
    (D : Tables) (id : Uuid)
    → HasKeys D
    → ((length (active_target_secrets D id) == 1) ≡ true) ↔ IsActiveSecret D id
unfolding active_target_secrets
one_secret D id keys =
    let rows = λ (ts : TargetSecret) (t : Target) (s : Secret).
      where_row (all_active ts t s && ts.id == id) ts in
    let few =
      length-from_joined D rows id keys
        (λ ts t s. length-where_row (all_active ts t s && ts.id == id) ts)
        (λ ts t s ne.
          let e : (all_active ts t s && ts.id == id) ≡ false = ground arith in rw e refl) in
    let iff = one_item (from_joined D rows) few in
    (
      λ e.
          let (x, m) = iff.0 e in
          let (ts, t, s, j, k) = (Memᴰ-from_joined D rows x).0 m in
          let (c, _) = (Memᴰ-where_row (all_active ts t s && ts.id == id) ts x).0 k in
          (ts, t, s, j, ground arith, ground arith),
      λ a.
          let (ts, t, s, j, active, same) = a in
          let c : (all_active ts t s && ts.id == id) ≡ true = ground arith in
          iff.1 (
            ts,
            (Memᴰ-from_joined D rows ts).1 (
              ts,
              t,
              s,
              j,
              (Memᴰ-where_row (all_active ts t s && ts.id == id) ts ts).1 (c, refl),
            ),
          ),
    )

one_internal :
    (D : Tables) (id : Uuid)
    → HasKeys D
    → ((length (active_internal_objects D id) == 1) ≡ true) ↔ IsActiveInternal D id
unfolding active_internal_objects
one_internal D id keys =
    let test = λ (n : CasbinName).
      text_eq n.ptype (codes "__internal_object_type") && n.is_active && n.id == id in
    let rows = λ (n : CasbinName). where_row (test n) n in
    let few =
      length-from_each (λ (n : CasbinName). n.id) rows id D.casbin_names keys.casbin_names
        (λ n ne. let e : test n ≡ false = ground arith in rw e refl)
        (λ n. length-where_row (test n) n) in
    let iff = one_item (from_each D.casbin_names rows) few in
    (
      λ e.
          let (x, m) = iff.0 e in
          let (n, among, k) = (Memᴰ-from_each x D.casbin_names rows).0 m in
          let (c, _) = (Memᴰ-where_row (test n) n x).0 k in
          (n, among, ground arith, ground arith, ground arith),
      λ a.
          let (n, among, typed, active, same) = a in
          let c : test n ≡ true = ground arith in
          iff.1 (
            n,
            (Memᴰ-from_each n D.casbin_names rows).1
                (n, among, (Memᴰ-where_row (test n) n n).1 (c, refl)),
          ),
    )

-- Under the primary keys, an object is active exactly when it is an active target secret with an
-- active target and an active secret, or an active internal object.
pub check_object_active_iff :
    (D : Tables) (id : Uuid)
    → HasKeys D
    → (check_object_active D id ≡ true) ↔ (IsActiveSecret D id ⊎ IsActiveInternal D id)
unfolding check_object_active
check_object_active_iff D id keys =
    let a = one_secret D id keys in
    let b = one_internal D id keys in
    elim (Bool-cases (length (active_target_secrets D id) == 1)) [
      | inl e ↦ (λ h. inl (a.0 e), λ i. rw e refl)
      | inr e ↦ (
        λ h. inr (
            b.0 (elim (Bool-cases (length (active_internal_objects D id) == 1)) [
              | inl f ↦ f
              | inr f ↦ let no : false ≡ true = rw (e, f) at h in absurd (cc)
            ])),
        λ i. elim i [
          | inl k ↦ let q = a.1 k in absurd (cc)
          | inr k ↦ let q = b.1 k in rw (e, q) refl
        ],
      )
    ]

-- The rules of a type.
pub Memᴰ-list_casbin_rules_by_ptype :
    (D : Tables) (ptype : Text) (p : CasbinRule)
    → Memᴰ p (list_casbin_rules_by_ptype D ptype)
      ↔ (Memᴰ p D.casbin_rule × (text_eq p.ptype ptype ≡ true))
unfolding list_casbin_rules_by_ptype
Memᴰ-list_casbin_rules_by_ptype D ptype p = (
  λ m.
      let (r, among, k) = (Memᴰ-from_each p D.casbin_rule _).0 m in
      let (c, same) = (Memᴰ-where_row (text_eq r.ptype ptype) r p).0 k in rw same (among, c),
  λ i.
      (Memᴰ-from_each p D.casbin_rule _).1
        (p, i.0, (Memᴰ-where_row (text_eq p.ptype ptype) p p).1 (i.1, refl)),
)

-- Why a row is selected for some ids.
abbrev pub IsSelected : Tables → List Uuid → Uuid → Bool → TargetSecretName → Type 0
IsSelected D ids pid active_only r =
    (ts : TargetSecret) × (t : Target) × (s : Secret) × Joined D ts t s
    × (any (λ x. x == ts.id) ids ≡ true)
    × ((not active_only || all_active ts t s) ≡ true)
    × (r ≡ name_row pid ts t s)

pub Memᴰ-list_targets_by_ids :
    (D : Tables) (ids : List Uuid) (pid : Uuid) (active_only : Bool) (r : TargetSecretName)
    → Memᴰ r (list_targets_by_ids D ids pid active_only) ↔ IsSelected D ids pid active_only r
unfolding list_targets_by_ids
Memᴰ-list_targets_by_ids D [] pid active_only r =
    (λ m. absurd (Memᴰ.not-nil m), λ i. let (_, _, _, _, c, _, _) = i in absurd (cc))
Memᴰ-list_targets_by_ids D (i ∷ ids) pid active_only r =
    let test = λ (ts : TargetSecret) (t : Target) (s : Secret).
      any (λ x. x == ts.id) (i ∷ ids) && (not active_only || all_active ts t s) in
    (
      λ m.
          let (ts, t, s, j, k) = (Memᴰ-from_joined D _ r).0 m in
          let (c, same) = (Memᴰ-where_row (test ts t s) (name_row pid ts t s) r).0 k in
          let (a, b) =
            both (any (λ x. x == ts.id) (i ∷ ids)) (not active_only || all_active ts t s) c in
          (ts, t, s, j, a, b, same),
      λ h.
          let (ts, t, s, j, a, b, same) = h in
          let c : test ts t s ≡ true = rw (a, b) refl in
          (Memᴰ-from_joined D _ r).1
            (ts, t, s, j, (Memᴰ-where_row (test ts t s) (name_row pid ts t s) r).1 (c, same)),
    )
  where
    both : (a b : Bool) → (a && b) ≡ true → (a ≡ true) × (b ≡ true)
    both true b h = (refl, h)
    both false b h = cc
