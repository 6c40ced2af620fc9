-- ===== src/Server/User/Credentials.antt =====
-- The methods of `User` in src/database/models/user.rs that set, take and print credentials.
use rustion.Prelude.{ℕ, Bool, true, Option, none, some, List, []}
use rustion.Prelude.Text.{Text, codes}
use rustion.Casbin.Rules.{Uuid}
use rustion.Server.User.{User}

-- `User::new`, with the id and the time that it takes.
pub new_user : Uuid → ℕ → Uuid → User
new_user new_id now updated_by = record {
  id = new_id;
  username = [];
  email = none;
  password_hash = none;
  authorized_keys = none;
  force_init_pass = true;
  is_active = true;
  updated_by = updated_by;
  updated_at = now;
}

pub with_email : Text → User → User
with_email email u = record u { email = some email }

pub with_password_hash : Option Text → User → User
with_password_hash hash u = record u { password_hash = hash }

unfoldable pub with_authorized_keys : List Text → User → User
with_authorized_keys keys u = record u { authorized_keys = some keys }

pub set_authorized_keys : Option (List Text) → User → User
set_authorized_keys keys u = record u { authorized_keys = keys }

pub set_active : Bool → User → User
set_active active u = record u { is_active = active }

unfoldable pub take_password_hash : User → Option Text × User
take_password_hash u = (u.password_hash, record u { password_hash = none })

unfoldable pub set_password_hash : Text → User → User
set_password_hash hash u = record u { password_hash = some hash }

pub get_authorized_keys : User → Option (List Text)
get_authorized_keys u = u.authorized_keys

unfoldable pub print_authorized_keys : User → Text
print_authorized_keys u = elim u.authorized_keys [ none ↦ [] | some _ ↦ codes "********" ]

unfoldable pub print_password : User → Text
print_password u = elim u.password_hash [ none ↦ [] | some _ ↦ codes "********" ]
