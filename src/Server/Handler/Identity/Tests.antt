-- ===== src/Server/Handler/Identity/Tests.antt =====
-- A login by password, and a locked connection.
use rustion.Prelude.{ℕ, ◌≡◌, ◌≢◌, refl, some, [], ◌∷◌, arith}
use rustion.Prelude.Actions.{returned}
use rustion.Prelude.Text.{codes, split_on}
use rustion.Server.Sample.{
  ip_cache, user_cache, sample_limits, sample_crypto, sample_users, alice, fresh_connection,
}
use rustion.Server.Attempts.{
  reject_auth_attempts, clear_auth_attempts, increment_counter, remove_counter,
}
use rustion.Server.Login.{LoginParse, parse_login_name, of_parts}
use rustion.Server.User.{verify_password}
use rustion.Server.Handler.{
  accept, Connection, get_user, set_login, get_login_user, init_login, max_auth_attempts, welcome,
  check_user, within_limit, check_limit, authenticate, auth_password,
}
use rustion.Server.Handler.Accept.{Accepted}
use rustion.Server.Handler.Identity.{
  Request, by_password, serve, session, name_of, message_of, credential_of, serve-Accepted,
  session_identity, session_locked,
}

abbrev sample_login : LoginParse
sample_login = record { user = codes "alice"; second = codes "bob"; third = codes "web" }

abbrev request : Request ip_cache user_cache sample_crypto sample_limits sample_users
request = by_password (codes "alice@bob@web") (codes "secret")

abbrev wrong : Request ip_cache user_cache sample_crypto sample_limits sample_users
wrong = by_password (codes "alice@bob@web") (codes "guess")

accepted :
    (t : Connection ip_cache user_cache) × (serve ip_cache user_cache sample_crypto sample_limits
        sample_users request
        (fresh_connection 3)
      ≡ (returned accept, t))
unfolding serve auth_password authenticate check_limit within_limit check_user welcome
    max_auth_attempts init_login get_login_user set_login get_user reject_auth_attempts
    clear_auth_attempts increment_counter remove_counter parse_login_name of_parts verify_password
    split_on
accepted = (_, refl)

serve-Accepted_example :
    Accepted ip_cache user_cache sample_crypto sample_limits sample_users
      (credential_of ip_cache user_cache sample_crypto sample_limits sample_users request)
      (message_of ip_cache user_cache sample_crypto sample_limits sample_users request)
      (name_of ip_cache user_cache sample_crypto sample_limits sample_users request)
      (fresh_connection 3)
      accepted.0
serve-Accepted_example =
    serve-Accepted ip_cache user_cache sample_crypto sample_limits sample_users request
      (fresh_connection 3) accepted.0 accepted.1

abbrev known : ℕ → Connection ip_cache user_cache
known n = record (fresh_connection 3) {
  user = some alice;
  login_parse = some sample_login;
  auth_attempts_per_conn = n;
}

session_identity_example :
    ((session ip_cache user_cache sample_crypto sample_limits sample_users
        (wrong ∷ request ∷ [])
        (known 0)).user
      ≡ some alice)
    × ((session ip_cache user_cache sample_crypto sample_limits sample_users
          (wrong ∷ request ∷ [])
          (known 0)).login_parse
        ≡ some sample_login)
session_identity_example =
    session_identity ip_cache user_cache sample_crypto sample_limits sample_users
      (wrong ∷ request ∷ []) (known 0) alice sample_login refl refl

session_locked_example :
    serve ip_cache user_cache sample_crypto sample_limits sample_users request
      (session ip_cache user_cache sample_crypto sample_limits sample_users (wrong ∷ []) (known 3))
    ≢ (returned accept, known 5)
session_locked_example =
    session_locked ip_cache user_cache sample_crypto sample_limits sample_users (wrong ∷ []) request
      (known 3) (known 5) (omega arith) (omega arith)
