-- ===== src/Database/Links.antt =====
-- The table `target_secrets` and its operations in src/database/sqlite.rs. None is a broken constraint
-- of the table, which changes nothing.
pub mod Consistent
pub mod Upsert
use rustion.Prelude.{
  ℕ, Bool, not, ◌&&◌, ◌||◌, Option, none, some, List, [], ◌∷◌, ◌++◌, ◌==◌, if◌then◌else◌, any, find,
  keep, map,
}
use rustion.Casbin.Rules.{Uuid}
use rustion.Database.Tables.{TargetSecret}

-- The table, with the ids that its foreign keys refer to.
pub record Links : Type 0 where
  pub users : List Uuid
  pub targets : List Uuid
  pub secrets : List Uuid
  pub rows : List TargetSecret

abbrev pub known : List Uuid → Uuid → Bool
known ids id = any (λ x. x == id) ids

abbrev pub has_id : Uuid → TargetSecret → Bool
has_id id r = r.id == id

abbrev pub has_pair : Uuid → Uuid → TargetSecret → Bool
has_pair target_id secret_id r = r.target_id == target_id && r.secret_id == secret_id

-- The foreign keys.
abbrev pub refers : Links → TargetSecret → Bool
refers D r =
    known D.users r.updated_by && known D.secrets r.secret_id && known D.targets r.target_id

unfoldable pub create_target_secret : TargetSecret → Links → Option Links
create_target_secret r D =
    if any (λ (x : TargetSecret). has_id r.id x || has_pair r.target_id r.secret_id x) D.rows
    then none
    else if refers D r
    then some (record D { rows = D.rows ++ (r ∷ []) })
    else none

abbrev pub put : TargetSecret → TargetSecret → TargetSecret
put updated r = if has_id updated.id r then updated else r

-- `UPDATE .. WHERE id = ?`: without such a row nothing changes, and no constraint is looked at.
abbrev pub replace : TargetSecret → Links → Option Links
replace updated D =
    if not (any (has_id updated.id) D.rows)
    then some D
    else if any
        (λ (x : TargetSecret).
          not (has_id updated.id x) && has_pair updated.target_id updated.secret_id x)
        D.rows
    then none
    else if refers D updated
    then some (record D { rows = map (put updated) D.rows })
    else none

-- `now` is the clock in milliseconds.
unfoldable pub update_target_secret : ℕ → TargetSecret → Links → Option Links
update_target_secret now r D = replace (record r { updated_at = now }) D

unfoldable pub delete_target_secret : Uuid → Links → Bool × Links
delete_target_secret id D =
    (any (has_id id) D.rows, record D { rows = keep (λ r. not (has_id id r)) D.rows })

-- `TargetSecret::new`, with the random id and the clock.
unfoldable pub new_target_secret : Uuid → ℕ → Uuid → Uuid → Uuid → TargetSecret
new_target_secret id now target_id secret_id updated_by = record {
  id = id;
  target_id = target_id;
  secret_id = secret_id;
  is_active = Bool.true;
  updated_by = updated_by;
  updated_at = now;
}

-- `fresh` is the random id of a new row.
unfoldable pub upsert_target_secret : Uuid → ℕ → Uuid → Uuid → Bool → Uuid → Links → Option Links
unfolding create_target_secret update_target_secret new_target_secret
upsert_target_secret fresh now target_id secret_id is_active updated_by D =
    elim (find (has_pair target_id secret_id) D.rows) [
      | some ts ↦ update_target_secret now (record ts { is_active = is_active }) D
      | none ↦
          create_target_secret
            (record (new_target_secret fresh now target_id secret_id updated_by) {
              is_active = is_active;
            })
            D
    ]
