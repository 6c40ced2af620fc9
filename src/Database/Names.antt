-- ===== src/Database/Names.antt =====
-- The table `casbin_names` and its operations in src/database/sqlite.rs: the names of types, roles and
-- groups, some of them internal. A broken constraint of the table is an error and changes nothing.
pub mod Internal
use rustion.Prelude.{
  ℕ, ◌≡◌, refl, ap, ◌∙◌, Bool, true, false, not, ◌&&◌, ◌||◌, Option, none, some, Result, ok, err,
  List, [], ◌∷◌, ◌++◌, ◌==◌, if◌then◌else◌, any, find, keep, map, arith, inl, inr, Bool-cases,
}
use rustion.Prelude.Text.{Text, text_eq, text_eq_sound}
use rustion.Casbin.Rules.{Uuid}
use rustion.Casbin.Names.{CasbinName, is_internal}

-- A broken constraint, and `InternalTypeModification`.
pub data DatabaseError : Type 0 where
  constraint internal_type_modification : DatabaseError

abbrev pub has_id : Uuid → CasbinName → Bool
has_id id n = n.id == id

unfoldable pub get_casbin_name_by_id : Uuid → List CasbinName → Option CasbinName
get_casbin_name_by_id id names = find (has_id id) names

unfoldable pub get_casbin_name_by_name : Text → List CasbinName → Option CasbinName
get_casbin_name_by_name name names = find (λ n. text_eq n.name name) names

-- `FOREIGN KEY (updated_by) REFERENCES users (id)`; `users` are the ids of that table.
abbrev pub known : List Uuid → Uuid → Bool
known users id = any (λ u. u == id) users

unfoldable pub create_casbin_name :
    List Uuid → CasbinName → List CasbinName → Result DatabaseError (CasbinName × List CasbinName)
create_casbin_name users name names =
    if any (λ (n : CasbinName). has_id name.id n || text_eq n.name name.name) names
    then err constraint
    else if known users name.updated_by
    then ok (name, names ++ (name ∷ []))
    else err constraint

-- `UPDATE .. WHERE id = ?`: without such a row nothing changes, and no constraint is looked at.
abbrev put : CasbinName → CasbinName → CasbinName
put updated n = if has_id updated.id n then updated else n

abbrev store :
    List Uuid → CasbinName → List CasbinName → Result DatabaseError (CasbinName × List CasbinName)
store users updated names =
    if not (any (has_id updated.id) names)
    then ok (updated, names)
    else if any (λ (n : CasbinName). not (has_id updated.id n) && text_eq n.name updated.name) names
    then err constraint
    else if known users updated.updated_by
    then ok (updated, map (put updated) names)
    else err constraint

-- The guard of an update.
unfoldable pub modifies_internal : CasbinName → Option CasbinName → Bool
modifies_internal rule none = false
modifies_internal rule (some existing) =
    is_internal existing
    && (not (text_eq existing.ptype rule.ptype) || not (text_eq existing.name rule.name))

-- `now` is the clock in milliseconds.
unfoldable pub update_casbin_name :
    List Uuid
    → ℕ
    → CasbinName
    → List CasbinName
    → Result DatabaseError (CasbinName × List CasbinName)
unfolding get_casbin_name_by_id modifies_internal
update_casbin_name users now rule names =
    if modifies_internal rule (get_casbin_name_by_id rule.id names)
    then err internal_type_modification
    else store users (record rule { updated_at = now }) names

abbrev internal_option : Option CasbinName → Bool
internal_option none = false
internal_option (some n) = is_internal n

-- True if a row was deleted.
unfoldable pub delete_casbin_name :
    Uuid → List CasbinName → Result DatabaseError (Bool × List CasbinName)
unfolding get_casbin_name_by_id
delete_casbin_name id names =
    if internal_option (get_casbin_name_by_id id names)
    then err internal_type_modification
    else ok (any (has_id id) names, keep (λ n. not (has_id id n)) names)

-- An operation, and the table behind it: an error leaves it as it is.
pub data Change : Type 0 where
  create : CasbinName → Change
  update : ℕ → CasbinName → Change
  delete : Uuid → Change

abbrev table_behind {ℓ} :
    {A : Type ℓ} → List CasbinName → Result DatabaseError (A × List CasbinName) → List CasbinName
table_behind names (ok (_, changed)) = changed
table_behind names (err _) = names

unfoldable pub change : List Uuid → Change → List CasbinName → List CasbinName
unfolding create_casbin_name update_casbin_name delete_casbin_name
change users (create name) names = table_behind names (create_casbin_name users name names)
change users (update now rule) names = table_behind names (update_casbin_name users now rule names)
change users (delete id) names = table_behind names (delete_casbin_name id names)

unfoldable pub changes : List Uuid → List Change → List CasbinName → List CasbinName
unfolding change
changes users [] names = names
changes users (c ∷ cs) names = changes users cs (change users c names)

-- The id gives a row with this type and this name.
abbrev pub Names : Uuid → Text → Text → List CasbinName → Type 0
Names id ptype name names =
    (n : CasbinName) × (get_casbin_name_by_id id names ≡ some n)
    × (n.ptype ≡ ptype)
    × (n.name ≡ name)
