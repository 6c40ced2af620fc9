-- ===== src/Server/Handler.antt =====
-- `BastionHandler` of src/server/bastion_handler.rs: one SSH connection, up to the application that
-- it opens.
pub mod Accept
pub mod Identity
use rustion.Prelude.{
  ℕ, ◌+◌, ◌%◌, Bool, true, false, not, Option, none, some, Result, ok, err, List, [], ◌∷◌, ◌++◌,
  ltb, if◌then◌else◌,
}
use rustion.Prelude.Actions.{Outcome, returned, failed, panicked, ◌>>=◌, ◌>>◌}
use rustion.Prelude.Text.{Text, codes}
use rustion.Casbin.Rules.{Uuid, Error, invalid_login_name}
use rustion.Server.Attempts.{CounterCache, Limits, Pools, reject_auth_attempts, clear_auth_attempts}
use rustion.Server.Login.{LoginParse, parse_login_name}
use rustion.Server.User.{User, Crypto, verify_password, verify_authorized_keys}

-- `Application` by its tag; the state of the applications is not kept here.
pub data Application : Type 0 where
  no_app connect_target change_password target_selector admin player : Application

-- A log row, without its time.
pub record LogEntry : Type 0 where
  pub connection_id : Uuid
  pub user_id : Uuid
  pub log_type : Text
  pub detail : Text

pub data Auth : Type 0 where
  accept reject : Auth

module _ {Ip : Type 0} (M : CounterCache Ip) (N : CounterCache Text) where
  pub record Connection : Type 0 where
    pub id : Uuid
    pub user : Option User
    pub login_parse : Option LoginParse
    pub client_ip : Option Ip
    pub app : Application
    -- The user that `log` writes for, none before it is set.
    pub log_user : Option Uuid
    pub auth_attempts_per_conn : ℕ
    pub max_auth_attempts_per_conn : ℕ
    -- What the connections share: the counters, and the rows logged.
    pub pools : Pools M N
    pub logs : List LogEntry

  abbrev pub Action {ℓ} : Type ℓ → Type ℓ
  Action A = Connection → Outcome Error A × Connection

  abbrev pure {ℓ} : {A : Type ℓ} → A → Action A
  pure a s = (returned a, s)

  module _ (K : Crypto) (cfg : Limits) (users : Text → Bool → Result Error (Option User)) where
    -- `users` answers `get_user_by_username`.
    pub get_user : Text → Action (Unit {0})
    get_user name s = elim s.user [
      | some _ ↦ (returned tt, s)
      | none ↦ elim (users name true) [
        | ok found ↦ (returned tt, record s { user = found })
        | err e ↦ (failed e, s)
      ]
    ]

    -- `if self.login_parse.is_none() { self.login_parse = … }`.
    pub set_login : Text → Action (Unit {0})
    set_login login_name s = elim s.login_parse [
      | some _ ↦ (returned tt, s)
      | none ↦ (returned tt, record s { login_parse = parse_login_name login_name })
    ]

    -- `let user = …; self.get_user(user)`, over the login name that is set by now.
    pub get_login_user : Action (Unit {0})
    unfolding get_user
    get_login_user s = elim s.login_parse [
      | some l ↦ get_user l.user s
      | none ↦ (failed invalid_login_name, s)
    ]

    pub init_login : Text → Action (Unit {0})
    unfolding set_login get_login_user
    init_login login_name = set_login login_name >> get_login_user

    -- True is too many. The attempts of a connection are a u32.
    pub max_auth_attempts : Action Bool
    max_auth_attempts s = elim s.login_parse [
      | none ↦ (panicked, s)
      | some l ↦
          let (rejected, pools) = reject_auth_attempts M N cfg s.client_ip l.user s.pools in
          let n = (s.auth_attempts_per_conn + 1) % 4294967296 in
          if rejected then (returned true, record s { pools = pools }) else (
            returned (ltb s.max_auth_attempts_per_conn n),
            record s { pools = pools; auth_attempts_per_conn = n },
          )
    ]

    -- After a credential was verified: the counters are cleared and the login is logged.
    pub welcome : Text → User → Action Auth
    welcome message u s = elim s.login_parse [
      | none ↦ (panicked, s)
      | some l ↦ (
        returned accept,
        record s {
          pools = clear_auth_attempts M N s.client_ip l.user s.pools;
          logs =
              s.logs
              ++ record {
                connection_id = s.id;
                user_id = u.id;
                log_type = codes "server";
                detail = message;
              }
                ∷ [];
        },
      )
    ]

    -- The match on the user, which the two methods share but for the credential and the message.
    pub check_user : (User → Bool) → Text → Action Auth
    unfolding welcome
    check_user verified message s = elim s.user [
      | none ↦ (returned reject, s)
      | some u ↦
          let s' = record s { log_user = some u.id } in
          if not u.is_active
          then (returned reject, s')
          else if verified u
          then welcome message u s'
          else (returned reject, s')
    ]

    -- The rest of the two methods, behind the test of the attempts, and with it.
    pub within_limit : (User → Bool) → Text → Bool → Action Auth
    unfolding check_user
    within_limit verified message over = if over then pure reject else check_user verified message

    pub check_limit : (User → Bool) → Text → Action Auth
    unfolding max_auth_attempts within_limit
    check_limit verified message = max_auth_attempts >>= within_limit verified message

    pub authenticate : (User → Bool) → Text → Text → Action Auth
    unfolding init_login check_limit
    authenticate verified message login_name = init_login login_name >> check_limit verified message

    pub auth_password : Text → Text → Action Auth
    unfolding authenticate
    auth_password login_name password =
        authenticate (λ u. verify_password K u password) (codes "login successfully by password")
          login_name

    pub auth_publickey : Text → K.PublicKey → Action Auth
    unfolding authenticate
    auth_publickey login_name public_key =
        authenticate (λ u. verify_authorized_keys K u public_key)
          (codes "login successfully by public key") login_name
