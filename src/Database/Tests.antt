-- ===== src/Database/Tests.antt =====
-- Queries on concrete tables.
use mathlib.Core.List.Memᴰ
use rustion.Prelude.{
  ℕ, ◌≡◌, refl, ◌↔◌, ◌⊎◌, true, false, none, some, List, inl, inr, ap, ◌∙◌, sym, [], ◌∷◌, Memᴰ,
}
use rustion.Prelude.Text.{Text, codes}
use rustion.App.World.{Target}
use rustion.Database.Tables.{Tables, TargetSecret, Secret, check_object_active}
use rustion.Casbin.Names.{CasbinName, is_internal}
use rustion.Database.Joins.{HasKeys}
use rustion.Database.Links.{
  Links, upsert_target_secret, create_target_secret, update_target_secret, new_target_secret,
}
use rustion.Database.Links.Consistent.{IsConsistent}
use rustion.Database.Links.Upsert.{Upserted, upsert_target_secret-Upserted}
use rustion.Database.Names.{
  Change, create, update, delete, change, changes, Names, get_casbin_name_by_id, create_casbin_name,
  update_casbin_name, delete_casbin_name, modifies_internal,
}
use rustion.Database.Names.Internal.{changes-Names}
use rustion.Database.Objects.{IsActiveSecret, IsActiveInternal, check_object_active_iff}

abbrev web : Target
web = record {
  id = 20;
  name = codes "web";
  hostname = codes "web.local";
  port = 22;
  server_public_key = [];
  description = none;
  is_active = true;
  updated_by = 1;
  updated_at = 0;
}

abbrev root : Secret
root = record {
  id = 30;
  name = codes "root";
  user = codes "root";
  password = none;
  private_key = none;
  public_key = none;
  is_active = true;
  updated_by = 1;
  updated_at = 0;
}

abbrev root_on_web : TargetSecret
root_on_web = record {
  id = 40;
  target_id = 20;
  secret_id = 30;
  is_active = true;
  updated_by = 1;
  updated_at = 0;
}

-- One secret that is bound to one target.
abbrev tables : Tables
tables = record {
  targets = web ∷ [];
  secrets = root ∷ [];
  target_secrets = root_on_web ∷ [];
  casbin_rule = [];
  casbin_names = [];
}

tables-HasKeys : HasKeys tables
tables-HasKeys = record {
  targets = (tt, tt);
  secrets = (tt, tt);
  target_secrets = (tt, tt);
  casbin_names = tt;
}

check_object_active_iff_example :
    (check_object_active tables 40 ≡ true) ↔ (IsActiveSecret tables 40 ⊎ IsActiveInternal tables 40)
check_object_active_iff_example = check_object_active_iff tables 40 tables-HasKeys

abbrev named : ℕ → Text → Text → CasbinName
named id ptype name = record {
  id = id;
  ptype = ptype;
  name = name;
  is_active = true;
  updated_by = 1;
  updated_at = 0;
}

abbrev login : CasbinName
login = named 70 (codes "__internal_object_type") (codes "login")

-- The second update is refused, as is the deletion; the first only switches the row off.
abbrev attempts : List Change
attempts =
    update 5 (record login { is_active = false })
    ∷ update 6 (named 70 (codes "g2") (codes "mine"))
    ∷ delete 70
    ∷ create (named 71 (codes "g1") (codes "ops"))
    ∷ []

changes_test :
    changes (1 ∷ []) attempts (login ∷ [])
    ≡ record login { is_active = false; updated_at = 5 } ∷ named 71 (codes "g1") (codes "ops") ∷ []
unfolding changes change create_casbin_name update_casbin_name delete_casbin_name
    get_casbin_name_by_id modifies_internal is_internal
changes_test = refl

login-stored : get_casbin_name_by_id 70 (login ∷ []) ≡ some login
unfolding get_casbin_name_by_id
login-stored = refl

login-internal : is_internal login ≡ true
unfolding is_internal
login-internal = refl

changes-Names_example :
    Names 70
      (codes "__internal_object_type")
      (codes "login")
      (changes (1 ∷ []) attempts (login ∷ []))
changes-Names_example =
    changes-Names (1 ∷ []) attempts 70 (login ∷ []) login login-stored login-internal

abbrev links : Links
links = record {
  users = 1 ∷ [];
  targets = 20 ∷ [];
  secrets = 30 ∷ 31 ∷ [];
  rows = root_on_web ∷ [];
}

-- The bound pair is switched off.
upsert_test :
    upsert_target_secret 41 7 20 30 false 1 links
    ≡ some (record links { rows = record root_on_web { is_active = false; updated_at = 7 } ∷ [] })
unfolding upsert_target_secret update_target_secret create_target_secret new_target_secret
upsert_test = refl

links-IsConsistent : IsConsistent links
links-IsConsistent = record {
  pairs = λ a b in_a in_b p q. ap (λ x. x.id) (only a in_a ∙ sym (only b in_b));
  keys = λ a in_a. rw (only a in_a) refl;
}
  where
    only : (a : TargetSecret) → Memᴰ a (root_on_web ∷ []) → a ≡ root_on_web
    only a m = elim (Memᴰ.cases_cons m) [
      | inl same ↦ same
      | inr later ↦ absurd (Memᴰ.not-nil later)
    ]

upsert_target_secret-Upserted_example :
    Upserted 20 31 true (upsert_target_secret 41 7 20 31 true 1 links)
upsert_target_secret-Upserted_example =
    upsert_target_secret-Upserted 41 7 20 31 true 1 links links-IsConsistent refl refl refl refl
