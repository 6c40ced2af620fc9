-- ===== src/Database/Links/Upsert.antt =====
-- What `upsert_target_secret` of src/database/sqlite.rs leaves behind.

use rustion.Prelude.{
  ℕ, ◌≡◌, refl, Bool, true, false, not, ◌&&◌, ◌||◌, Option, none, some, [], ◌∷◌, ◌++◌, any,
  any_sound, any_complete, find, map, arith, inl, inr, Bool-cases,
}
use rustion.Casbin.Rules.{Uuid}
use rustion.Database.Tables.{TargetSecret}
use rustion.Database.Links.{
  Links, known, has_id, has_pair, refers, put, replace, create_target_secret, update_target_secret,
  new_target_secret, upsert_target_secret,
}
use rustion.Database.Links.Consistent.{
  IsConsistent, find-some, find-none, find-last, find-put, added-IsConsistent,
  replaced-IsConsistent,
}

-- The pair is bound by a row with this flag.
abbrev pub Binds : Uuid → Uuid → Bool → Links → Type 0
Binds t s active D =
    (r : TargetSecret) × (find (has_pair t s) D.rows ≡ some r)
    × (r.target_id ≡ t)
    × (r.secret_id ≡ s)
    × (r.is_active ≡ active)

-- The result of a call that succeeds.
abbrev pub Upserted : Uuid → Uuid → Bool → Option Links → Type 0
Upserted t s active o = (D : Links) × (o ≡ some D) × IsConsistent D × Binds t s active D

replace-Upserted :
    (t s : Uuid) (u ts : TargetSecret) (D : Links)
    → IsConsistent D
    → find (has_pair t s) D.rows ≡ some ts
    → u.id ≡ ts.id
    → u.target_id ≡ ts.target_id
    → u.secret_id ≡ ts.secret_id
    → u.updated_by ≡ ts.updated_by
    → Upserted t s u.is_active (replace u D)
replace-Upserted t s u ts D c h same_id same_t same_s same_by =
    let (m, q) = find-some (has_pair t s) D.rows ts h in
    let at_t : u.target_id ≡ t = ground arith in
    let at_s : u.secret_id ≡ s = ground arith in
    let there : any (has_id u.id) D.rows ≡ true =
      any_complete (has_id u.id) D.rows m (ground arith) in
    let clash = λ (x : TargetSecret). not (has_id u.id x) && has_pair u.target_id u.secret_id x in
    let alone : any clash D.rows ≡ false = elim (Bool-cases (any clash D.rows)) [
      | inl e ↦
          let (x, in_x, bad) = any_sound clash D.rows e in
          let id = c.pairs x ts in_x m (ground arith) (ground arith) in absurd (ground arith)
      | inr e ↦ e
    ] in
    let fits : refers D u ≡ true = rw (same_by, same_s, same_t) (c.keys ts m) in
    (
      record D { rows = map (put u) D.rows },
      rw (there, alone, fits) refl,
      replaced-IsConsistent D c u ts m same_id same_t same_s same_by,
      (u, find-put t s u ts D.rows h same_id (ground arith), at_t, at_s, refl),
    )

create-Upserted :
    (t s : Uuid) (r : TargetSecret) (D : Links)
    → IsConsistent D
    → find (has_pair t s) D.rows ≡ none
    → r.target_id ≡ t
    → r.secret_id ≡ s
    → any (has_id r.id) D.rows ≡ false
    → refers D r ≡ true
    → Upserted t s r.is_active (create_target_secret r D)
unfolding create_target_secret
create-Upserted t s r D c h at_t at_s fresh fits =
    let absent : find (has_pair r.target_id r.secret_id) D.rows ≡ none = rw (at_t, at_s) h in
    let clash = λ (x : TargetSecret). has_id r.id x || has_pair r.target_id r.secret_id x in
    let alone : any clash D.rows ≡ false = elim (Bool-cases (any clash D.rows)) [
      | inl e ↦
          let (x, in_x, bad) = any_sound clash D.rows e in
          let no_pair = find-none (has_pair r.target_id r.secret_id) D.rows x absent in_x in
          let taken = any_complete (has_id r.id) D.rows in_x (ground arith) in absurd (cc)
      | inr e ↦ e
    ] in
    (
      record D { rows = D.rows ++ (r ∷ []) },
      rw (alone, fits) refl,
      added-IsConsistent D c r absent fits,
      (r, find-last (has_pair t s) D.rows r h (ground arith), at_t, at_s, refl),
    )

-- In a consistent table, a target and a secret that exist can be bound by a known user, with an id
-- that no row has: this never fails, the row of the pair then has the given flag, whether it was
-- there or is new, and the table is consistent again.
pub upsert_target_secret-Upserted :
    (fresh : Uuid) (now : ℕ) (t s : Uuid) (active : Bool) (by : Uuid) (D : Links)
    → IsConsistent D
    → known D.targets t ≡ true
    → known D.secrets s ≡ true
    → known D.users by ≡ true
    → any (has_id fresh) D.rows ≡ false
    → Upserted t s active (upsert_target_secret fresh now t s active by D)
unfolding upsert_target_secret update_target_secret new_target_secret
upsert_target_secret-Upserted fresh now t s active by D c in_t in_s in_by unused =
    go (find (has_pair t s) D.rows) refl
  where
    go :
        (o : Option TargetSecret)
        → find (has_pair t s) D.rows ≡ o
        → Upserted t s active (elim o [
          | some ts ↦ update_target_secret now (record ts { is_active = active }) D
          | none ↦
              create_target_secret
                (record (new_target_secret fresh now t s by) { is_active = active })
                D
        ])
    go (some ts) h =
        replace-Upserted t s (record ts { is_active = active; updated_at = now }) ts D c h refl refl
          refl refl
    go none h =
        create-Upserted t s (record (new_target_secret fresh now t s by) { is_active = active }) D c
          h refl refl unused (rw (in_by, in_s, in_t) refl)
