-- ===== src/Database/Names/Internal.antt =====
-- What no operation of src/database/sqlite.rs changes of an internal name.
use rustion.Prelude.{
  ℕ, ◌≡◌, ◌≢◌, refl, sym, ◌∙◌, Bool, true, false, not, ◌&&◌, ◌||◌, some, ok, err, List, [], ◌∷◌,
  ◌++◌, if◌then◌else◌, any, find, keep, map, arith, inl, inr, Bool-cases,
}
use rustion.Prelude.Text.{text_eq, text_eq_sound}
use rustion.Casbin.Rules.{Uuid}
use rustion.Casbin.Names.{CasbinName, is_internal}
use rustion.Database.Names.{
  DatabaseError, has_id, get_casbin_name_by_id, known, create_casbin_name, put, store,
  modifies_internal, update_casbin_name, internal_option, delete_casbin_name, Change, create,
  update, delete, table_behind, change, changes, Names,
}

find-append :
    (p : CasbinName → Bool) (xs ys : List CasbinName) (n : CasbinName)
    → find p xs ≡ some n
    → find p (xs ++ ys) ≡ some n
find-append p [] ys n h = cc
find-append p (x ∷ xs) ys n h = elim (Bool-cases (p x)) [
  | inl e ↦ rw e (rw e at h)
  | inr e ↦ rw e (find-append p xs ys n (rw e at h))
]

find-id :
    (id : Uuid) (xs : List CasbinName) (n : CasbinName) → find (has_id id) xs ≡ some n → n.id ≡ id
find-id id [] n h = cc
find-id id (x ∷ xs) n h = elim (Bool-cases (has_id id x)) [
  | inl e ↦
      let found : some x ≡ some n = rw e at h in
      let same : x ≡ n = cc in let at : x.id ≡ id = ground arith in rw (← same) at
  | inr e ↦ find-id id xs n (rw e at h)
]

-- Another row is put in its place.
find-put-other :
    (id : Uuid) (u : CasbinName) (xs : List CasbinName) (n : CasbinName)
    → u.id ≢ id
    → find (has_id id) xs ≡ some n
    → find (has_id id) (map (put u) xs) ≡ some n
find-put-other id u [] n ne h = cc
find-put-other id u (x ∷ xs) n ne h = elim (Bool-cases (has_id u.id x)) [
  | inl e ↦
      let miss : has_id id x ≡ false = ground arith in
      let miss' : has_id id u ≡ false = ground arith in
      rw (e, miss') (find-put-other id u xs n ne (rw miss at h))
  | inr e ↦ elim (Bool-cases (has_id id x)) [
    | inl f ↦ rw (e, f) (rw f at h)
    | inr f ↦ rw (e, f) (find-put-other id u xs n ne (rw f at h))
  ]
]

-- The row itself is.
find-put-same :
    (id : Uuid) (u : CasbinName) (xs : List CasbinName) (n : CasbinName)
    → u.id ≡ id
    → find (has_id id) xs ≡ some n
    → find (has_id id) (map (put u) xs) ≡ some u
find-put-same id u [] n same h = cc
find-put-same id u (x ∷ xs) n same h = elim (Bool-cases (has_id id x)) [
  | inl f ↦
      let hit : has_id u.id x ≡ true = ground arith in
      let hit' : has_id id u ≡ true = ground arith in rw (hit, hit') refl
  | inr f ↦
      let miss : has_id u.id x ≡ false = ground arith in
      rw (miss, f) (find-put-same id u xs n same (rw f at h))
]

find-keep :
    (id d : Uuid) (xs : List CasbinName) (n : CasbinName)
    → d ≢ id
    → find (has_id id) xs ≡ some n
    → find (has_id id) (keep (λ x. not (has_id d x)) xs) ≡ some n
find-keep id d [] n ne h = cc
find-keep id d (x ∷ xs) n ne h = elim (Bool-cases (has_id d x)) [
  | inl e ↦
      let miss : has_id id x ≡ false = ground arith in
      rw (e, keep) (find-keep id d xs n ne (rw miss at h))
  | inr e ↦ elim (Bool-cases (has_id id x)) [
    | inl f ↦ rw (e, keep) (rw f (rw f at h))
    | inr f ↦ rw (e, keep) (rw f (find-keep id d xs n ne (rw f at h)))
  ]
]

module _ (users : List Uuid) (id : Uuid) (names : List CasbinName) (n : CasbinName)
    (at_id : find (has_id id) names ≡ some n) (internal : is_internal n ≡ true) where
  itself : Names id n.ptype n.name names
  unfolding get_casbin_name_by_id
  itself = (n, at_id, refl, refl)

  kept-create : (name : CasbinName) → Names id n.ptype n.name (change users (create name) names)
  unfolding change create_casbin_name get_casbin_name_by_id
  kept-create name =
      go (any (λ (m : CasbinName). has_id name.id m || text_eq m.name name.name) names)
        (known users name.updated_by)
    where
      go :
          (a b : Bool)
          → Names id n.ptype n.name (
              table_behind names (
                if a
                then err DatabaseError.constraint
                else if b
                then ok (name, names ++ (name ∷ []))
                else err DatabaseError.constraint))
      go true b = (n, at_id, refl, refl)
      go false true = (n, find-append (has_id id) names (name ∷ []) n at_id, refl, refl)
      go false false = (n, at_id, refl, refl)

  -- An update that the guard lets through.
  kept-store :
      (u : CasbinName)
      → (u.id ≡ id → (u.ptype ≡ n.ptype) × (u.name ≡ n.name))
      → Names id n.ptype n.name (table_behind names (store users u names))
  unfolding get_casbin_name_by_id
  kept-store u h =
      go (not (any (has_id u.id) names))
        (any (λ (m : CasbinName). not (has_id u.id m) && text_eq m.name u.name) names)
        (known users u.updated_by)
    where
      replaced : Names id n.ptype n.name (map (put u) names)
      replaced = elim (Bool-cases (has_id id u)) [
        | inl e ↦
            let same : u.id ≡ id = ground arith in
            (u, find-put-same id u names n same at_id, (h same).0, (h same).1)
        | inr e ↦ (n, find-put-other id u names n (λ q. ground arith) at_id, refl, refl)
      ]

      go :
          (a b c : Bool)
          → Names id n.ptype n.name (
              table_behind names (
                if a
                then ok (u, names)
                else if b
                then err DatabaseError.constraint
                else if c
                then ok (u, map (put u) names)
                else err DatabaseError.constraint))
      go true b c = (n, at_id, refl, refl)
      go false true c = (n, at_id, refl, refl)
      go false false true = replaced
      go false false false = (n, at_id, refl, refl)

  kept-update :
      (now : ℕ) (rule : CasbinName) → Names id n.ptype n.name (change users (update now rule) names)
  unfolding change update_casbin_name get_casbin_name_by_id modifies_internal
  kept-update now rule = elim (Bool-cases (modifies_internal rule (find (has_id rule.id) names))) [
    | inl e ↦ rw e (n, at_id, refl, refl)
    | inr e ↦ rw e (kept-store (record rule { updated_at = now }) (λ same. unchanged same e))
  ]
    where
      unchanged :
          rule.id ≡ id
          → modifies_internal rule (find (has_id rule.id) names) ≡ false
          → (rule.ptype ≡ n.ptype) × (rule.name ≡ n.name)
      unchanged same e =
          let found : find (has_id rule.id) names ≡ some n = rw same at_id in
          let quiet : modifies_internal rule (some n) ≡ false = rw found at e in equal quiet
        where
          equal :
              modifies_internal rule (some n) ≡ false
              → (rule.ptype ≡ n.ptype) × (rule.name ≡ n.name)
          equal q = (
            sym (text_eq_sound n.ptype rule.ptype (ground arith)),
            sym (text_eq_sound n.name rule.name (ground arith)),
          )

  kept-delete : (d : Uuid) → Names id n.ptype n.name (change users (delete d) names)
  unfolding change delete_casbin_name get_casbin_name_by_id
  kept-delete d = elim (Bool-cases (internal_option (find (has_id d) names))) [
    | inl e ↦ rw e (n, at_id, refl, refl)
    | inr e ↦ rw e (
      n,
      find-keep id d names n
          (λ same.
            let found : find (has_id d) names ≡ some n = rw same at_id in
            let no : is_internal n ≡ false = rw found at e in absurd (cc))
          at_id,
      refl,
      refl,
    )
  ]

  kept-change : (c : Change) → Names id n.ptype n.name (change users c names)
  kept-change (create name) = kept-create name
  kept-change (update now rule) = kept-update now rule
  kept-change (delete d) = kept-delete d

internal-ptype :
    (m n : CasbinName) → m.ptype ≡ n.ptype → is_internal n ≡ true → is_internal m ≡ true
unfolding is_internal
internal-ptype m n same h = rw same h

-- An internal name keeps its row, its type and its text through every sequence of creations, updates
-- and deletions, whatever rows they bring.
pub changes-Names :
    (users : List Uuid) (cs : List Change) (id : Uuid) (names : List CasbinName) (n : CasbinName)
    → get_casbin_name_by_id id names ≡ some n
    → is_internal n ≡ true
    → Names id n.ptype n.name (changes users cs names)
unfolding changes
changes-Names users [] id names n h k = (n, h, refl, refl)
changes-Names users (c ∷ cs) id names n h k =
    let (m, at, same_ptype, same_name) =
      kept-change users id names n (unfold get_casbin_name_by_id in h) k c in
    let (l, found, p, q) =
      changes-Names users cs id (change users c names) m at (internal-ptype m n same_ptype k) in
    (l, found, p ∙ same_ptype, q ∙ same_name)
