-- ===== src/Server/Login/Tests.antt =====
-- Login names of each shape.
use rustion.Prelude.{◌≡◌, ◌↔◌, ◌≤◌, refl, none, some, [], ◌∷◌}
use rustion.Prelude.Text.{codes, count, join}
use rustion.Server.Login.{parse_login_name}
use rustion.Server.Login.Parse.{at, HasMode, parse_login_name-none, parse_login_name-join}

parse_login_name-none_example :
    (parse_login_name (codes "a@b@c@d") ≡ none) ↔ (3 ≤ count b'@' (codes "a@b@c@d"))
parse_login_name-none_example = parse_login_name-none (codes "a@b@c@d")

parse_login_name-join_example :
    (parse_login_name (codes "alice")
      ≡ some (record { user = codes "alice"; second = []; third = [] }))
    × (parse_login_name (join at (codes "alice" ∷ [] ∷ []))
        ≡ some (record { user = codes "alice"; second = []; third = [] }))
    × (parse_login_name (join at (codes "alice" ∷ [] ∷ codes "web" ∷ []))
        ≡ some (record { user = codes "alice"; second = []; third = codes "web" }))
    × HasMode (codes "alice") [] []
    × HasMode (codes "alice") [] []
    × HasMode (codes "alice") [] (codes "web")
parse_login_name-join_example =
    parse_login_name-join (codes "alice") [] (codes "web")
      (refl, (refl, (refl, (refl, (refl, tt))))) tt (refl, (refl, (refl, tt)))
