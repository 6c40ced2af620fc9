-- ===== src/Server/Login.antt =====
-- Login names: `LoginParse` and `LoginMode` of src/server/bastion_handler.rs.
pub mod Parse
mod Tests
use rustion.Prelude.{Bool, not, ◌&&◌, Option, none, some, List, [], ◌∷◌, if◌then◌else◌}
use rustion.Prelude.Text.{Text, codes, text_eq, is_empty, split}

pub record LoginParse : Type 0 where
  pub user : Text
  pub second : Text
  pub third : Text

pub data LoginMode : Type 0 where
  target_selector password player admin : LoginMode
  target : Text → LoginMode
  target_with_user : Text → Text → LoginMode

-- The match on the parts; from four parts on there is none.
unfoldable pub of_parts : List Text → Option LoginParse
of_parts (first ∷ []) = some (record { user = first; second = []; third = [] })
of_parts (first ∷ second ∷ []) = some (record { user = first; second = second; third = [] })
of_parts (first ∷ second ∷ third ∷ []) =
    some (record { user = first; second = second; third = third })
of_parts [] = none
of_parts (_ ∷ _ ∷ _ ∷ _ ∷ _) = none

unfoldable pub parse_login_name : Text → Option LoginParse
unfolding of_parts
parse_login_name login = of_parts (split b'@' login)

unfoldable pub parse_mode : LoginParse → LoginMode
parse_mode l =
    if not (is_empty l.second) && not (is_empty l.third)
    then target_with_user l.second l.third
    else if not (is_empty l.second) && is_empty l.third
    then (if text_eq l.second (codes "password")
        then password
        else if text_eq l.second (codes "player")
        then player
        else if text_eq l.second (codes "admin")
        then admin
        else target l.second)
    else target_selector
