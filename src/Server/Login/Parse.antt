-- ===== src/Server/Login/Parse.antt =====
-- How a login name is read.
use rustion.Prelude.{
  ◌≤◌, ◌≡◌, ◌≢◌, ◌↔◌, refl, none, some, List, [], ◌∷◌, arith, ◌==◌, length, false,
}
use rustion.Prelude.Text.{
  Text, codes, is_empty, split, join, Lacks, split-join, split_on-one, text_eq-ne, count,
  length-split,
}
use rustion.Server.Login.{
  target_selector, password, player, admin, target, target_with_user, of_parts, parse_login_name,
  parse_mode,
}

abbrev pub at : Text
at = codes "@"

of_parts-none : (ps : List Text) → 1 ≤ length ps → (of_parts ps ≡ none) ↔ (4 ≤ length ps)
unfolding of_parts
of_parts-none [] h = absurd (omega arith)
of_parts-none (a ∷ []) h = (λ e. absurd (cc), λ k. absurd (omega arith))
of_parts-none (a ∷ b ∷ []) h = (λ e. absurd (cc), λ k. absurd (omega arith))
of_parts-none (a ∷ b ∷ c ∷ []) h = (λ e. absurd (cc), λ k. absurd (omega arith))
of_parts-none (a ∷ b ∷ c ∷ d ∷ ps) h = (λ e. omega arith, λ k. refl)

-- A login name is refused exactly when it holds three `@` or more.
pub parse_login_name-none : (s : Text) → (parse_login_name s ≡ none) ↔ (3 ≤ count b'@' s)
unfolding parse_login_name
parse_login_name-none s =
    let n = length-split b'@' s in
    let (to, from) = of_parts-none (split b'@' s) (omega arith) in
    (λ e. let k = to e in omega arith, λ k. from (omega arith))

is_empty-ne : (b : Text) → b ≢ [] → is_empty b ≡ false
is_empty-ne [] h = absurd (h refl)
is_empty-ne (_ ∷ _) h = refl

mode-target :
    (a b : Text)
    → b ≢ []
    → b ≢ codes "password"
    → b ≢ codes "player"
    → b ≢ codes "admin"
    → parse_mode (record { user = a; second = b; third = [] }) ≡ target b
unfolding parse_mode
mode-target a b h p q r =
    rw (is_empty-ne b h)
      (rw (text_eq-ne b _ p) (rw (text_eq-ne b _ q) (rw (text_eq-ne b _ r) refl)))

mode-target_with_user :
    (a b c : Text)
    → b ≢ []
    → c ≢ []
    → parse_mode (record { user = a; second = b; third = c }) ≡ target_with_user b c
unfolding parse_mode
mode-target_with_user a b c h k = rw (is_empty-ne b h) (rw (is_empty-ne c k) refl)

-- What the mode is by what stands behind the user: for a second part alone, one of three words or a
-- target; for two more parts, a system user and a target; and without a second part the selector,
-- whatever the third.
pub record HasMode (a b c : Text) : Type 0 where
  pub selects : b ≡ [] → parse_mode (record { user = a; second = b; third = c }) ≡ target_selector
  pub names :
      c ≡ []
      → b ≢ []
      → b ≢ codes "password"
      → b ≢ codes "player"
      → b ≢ codes "admin"
      → parse_mode (record { user = a; second = b; third = c }) ≡ target b
  pub asks :
      c ≡ []
      → (b ≡ codes "password" → parse_mode (record { user = a; second = b; third = c }) ≡ password)
        × (b ≡ codes "player" → parse_mode (record { user = a; second = b; third = c }) ≡ player)
        × (b ≡ codes "admin" → parse_mode (record { user = a; second = b; third = c }) ≡ admin)
  pub joins :
      b ≢ []
      → c ≢ []
      → parse_mode (record { user = a; second = b; third = c }) ≡ target_with_user b c

parse_mode-HasMode : (a b c : Text) → HasMode a b c
unfolding parse_mode
parse_mode-HasMode a b c = record {
  selects = λ e. rw e refl;
  names = λ e h p q r. rw e (mode-target a b h p q r);
  asks = λ e. (λ w. rw (e, w) refl, λ w. rw (e, w) refl, λ w. rw (e, w) refl);
  joins = λ h k. mode-target_with_user a b c h k;
}

-- The parts of a login name are read back, whatever the parts are, as long as none holds an `@`: a
-- part that is left out is read as the empty one. And the mode goes by the second and the third part:
-- without a second one, the selector; with a second one alone, one of three words or a target; with
-- both, a system user and a target.
pub parse_login_name-join :
    (a b c : Text)
    → Lacks b'@' a
    → Lacks b'@' b
    → Lacks b'@' c
    → (parse_login_name a ≡ some (record { user = a; second = []; third = [] }))
      × (parse_login_name (join at (a ∷ b ∷ []))
          ≡ some (record { user = a; second = b; third = [] }))
      × (parse_login_name (join at (a ∷ b ∷ c ∷ []))
          ≡ some (record { user = a; second = b; third = c }))
      × HasMode a [] []
      × HasMode a b []
      × HasMode a b c
unfolding parse_login_name of_parts
parse_login_name-join a b c ha hb hc = (
  rw (split_on-one (λ x. x == b'@') a ha) refl,
  rw (split-join b'@' a (b ∷ []) ha (hb, tt)) refl,
  rw (split-join b'@' a (b ∷ c ∷ []) ha (hb, (hc, tt))) refl,
  parse_mode-HasMode a [] [],
  parse_mode-HasMode a b [],
  parse_mode-HasMode a b c,
)
