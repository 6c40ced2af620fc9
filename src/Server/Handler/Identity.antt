-- ===== src/Server/Handler/Identity.antt =====
-- A sequence of authentication requests on one connection.
mod Tests
use rustion.Prelude.{
  ℕ, zero, suc, ◌+◌, ◌%◌, ◌≤◌, ◌<◌, ◌≡◌, ◌≢◌, refl, sym, ap, ◌∙◌, ◌⊎◌, inl, inr, Bool, true, false,
  not, Option, none, some, Result, ok, err, List, [], ◌∷◌, ◌++◌, arith, ltb, if◌then◌else◌,
  Bool-cases, Option-cases, Result-cases, length,
}
use rustion.Prelude.Actions.{Outcome, returned, failed, panicked, bind-relates}
use rustion.Prelude.Text.{Text, codes}
use rustion.Casbin.Rules.{Error, invalid_login_name}
use rustion.Server.Attempts.{CounterCache, Limits, Pools, reject_auth_attempts, clear_auth_attempts}
use rustion.Server.Login.{LoginParse, parse_login_name}
use rustion.Server.User.{User, Crypto, verify_password, verify_authorized_keys}
use rustion.Server.Handler.{
  LogEntry, Auth, accept, reject, Connection, Action, get_user, set_login, get_login_user,
  init_login, max_auth_attempts, welcome, check_user, within_limit, check_limit, authenticate,
  auth_password, auth_publickey,
}
use rustion.Server.Handler.Accept.{Accepted, authenticate_accepts}

module _ {Ip : Type 0} (M : CounterCache Ip) (N : CounterCache Text) (K : Crypto) (cfg : Limits)
    (users : Text → Bool → Result Error (Option User)) where
  -- What no request changes, `n` of them counted at most.
  pub record Keeps (n : ℕ) (s t : Connection M N) : Type 0 where
    pub same_limit : t.max_auth_attempts_per_conn ≡ s.max_auth_attempts_per_conn
    pub same_ip : t.client_ip ≡ s.client_ip
    pub same_app : t.app ≡ s.app
    pub same_login : (l : LoginParse) → s.login_parse ≡ some l → t.login_parse ≡ some l
    pub same_user : (u : User) → s.user ≡ some u → t.user ≡ some u
    pub counted :
        s.auth_attempts_per_conn + n < 4294967296
        → (s.auth_attempts_per_conn ≤ t.auth_attempts_per_conn)
          × (t.auth_attempts_per_conn ≤ s.auth_attempts_per_conn + n)

  Keeps-trans : (m n : ℕ) (a b c : Connection M N) → Keeps m a b → Keeps n b c → Keeps (m + n) a c
  Keeps-trans m n a b c f g = record {
    same_limit = g.same_limit ∙ f.same_limit;
    same_ip = g.same_ip ∙ f.same_ip;
    same_app = g.same_app ∙ f.same_app;
    same_login = λ l e. g.same_login l (f.same_login l e);
    same_user = λ u e. g.same_user u (f.same_user u e);
    counted = λ h.
        let x = f.counted (omega arith) in
        let y = g.counted (omega arith) in (omega arith, omega arith);
  }

  Keeps-more : (m n : ℕ) (a b : Connection M N) → m ≤ n → Keeps m a b → Keeps n a b
  Keeps-more m n a b h f = record {
    same_limit = f.same_limit;
    same_ip = f.same_ip;
    same_app = f.same_app;
    same_login = f.same_login;
    same_user = f.same_user;
    counted = λ k. let x = f.counted (omega arith) in (x.0, omega arith);
  }

  Keeps-refl : (s : Connection M N) → Keeps 0 s s
  Keeps-refl s = record {
    same_limit = refl;
    same_ip = refl;
    same_app = refl;
    same_login = λ l e. e;
    same_user = λ u e. e;
    counted = λ h. (omega arith, omega arith);
  }

  others_kept :
      (s t : Connection M N)
      → t ≡ record s {
        user = t.user;
        login_parse = t.login_parse;
        log_user = t.log_user;
        pools = t.pools;
        logs = t.logs;
      }
      → ((l : LoginParse) → s.login_parse ≡ some l → t.login_parse ≡ some l)
      → ((u : User) → s.user ≡ some u → t.user ≡ some u)
      → Keeps 0 s t
  others_kept s t e f g =
      let n : t.auth_attempts_per_conn ≡ s.auth_attempts_per_conn = cc e in
      record {
        same_limit = cc e;
        same_ip = cc e;
        same_app = cc e;
        same_login = f;
        same_user = g;
        counted = λ h. (omega arith, omega arith);
      }

  set_login-Keeps :
      (name : Text) (s : Connection M N) → Keeps 0 s (set_login M N K cfg users name s).1
  unfolding set_login
  set_login-Keeps name s = elim (Option-cases s.login_parse) [
    | inl e ↦ others_kept s _ (cc) (λ l h. cc) (λ u h. cc)
    | inr (l, e) ↦ others_kept s _ (cc) (λ l h. cc) (λ u h. cc)
  ]

  get_user-Keeps :
      (name : Text) (s : Connection M N) → Keeps 0 s (get_user M N K cfg users name s).1
  unfolding get_user
  get_user-Keeps name s = elim (Option-cases s.user) [
    | inl e ↦ elim (Result-cases (users name true)) [
      | inl (found, f) ↦ others_kept s _ (cc) (λ l h. cc) (λ u h. cc)
      | inr (x, f) ↦ others_kept s _ (cc) (λ l h. cc) (λ u h. cc)
    ]
    | inr (u, e) ↦ others_kept s _ (cc) (λ l h. cc) (λ u h. cc)
  ]

  get_login_user-Keeps : (s : Connection M N) → Keeps 0 s (get_login_user M N K cfg users s).1
  unfolding get_login_user
  get_login_user-Keeps s = elim (Option-cases s.login_parse) [
    | inl e ↦ others_kept s _ (cc) (λ l h. cc) (λ u h. cc)
    | inr (l, e) ↦
        let q : get_login_user M N K cfg users s ≡ get_user M N K cfg users l.user s = cc in
        rw q (get_user-Keeps l.user s)
  ]

  check_user-Keeps :
      (verified : User → Bool) (message : Text) (s : Connection M N)
      → Keeps 0 s (check_user M N K cfg users verified message s).1
  unfolding check_user welcome
  check_user-Keeps verified message s = elim (Option-cases s.user) [
    | inl e ↦ others_kept s _ (cc) (λ l h. cc) (λ u h. cc)
    | inr (u, e) ↦ elim (Bool-cases u.is_active) [
      | inr a ↦ others_kept s _ (cc) (λ l h. cc) (λ u h. cc)
      | inl a ↦ elim (Bool-cases (verified u)) [
        | inr v ↦ others_kept s _ (cc) (λ l h. cc) (λ u h. cc)
        | inl v ↦ elim (Option-cases s.login_parse) [
          | inl f ↦ others_kept s _ (cc) (λ l h. cc) (λ u h. cc)
          | inr (l, f) ↦ others_kept s _ (cc) (λ l h. cc) (λ u h. cc)
        ]
      ]
    ]
  ]

  max_auth_attempts-Keeps : (s : Connection M N) → Keeps 1 s (max_auth_attempts M N K cfg users s).1
  unfolding max_auth_attempts
  max_auth_attempts-Keeps s = elim (Option-cases s.login_parse) [
    | inl e ↦ Keeps-more 0 1 s _ (omega arith) (others_kept s _ (cc) (λ l h. cc) (λ u h. cc))
    | inr (l, e) ↦ elim (Bool-cases ((reject_auth_attempts M N cfg s.client_ip l.user s.pools).0)) [
      | inl f ↦ Keeps-more 0 1 s _ (omega arith) (others_kept s _ (cc) (λ l h. cc) (λ u h. cc))
      | inr f ↦ record {
        same_limit = cc;
        same_ip = cc;
        same_app = cc;
        same_login = λ l h. cc;
        same_user = λ u h. cc;
        counted = λ h.
            let n : (max_auth_attempts M N K cfg users s).1.auth_attempts_per_conn
                ≡ (s.auth_attempts_per_conn + 1) % 4294967296 =
              cc in
            (omega arith, omega arith);
      }
    ]
  ]

  init_login-Keeps :
      (name : Text) (s : Connection M N) → Keeps 0 s (init_login M N K cfg users name s).1
  unfolding init_login
  init_login-Keeps name =
      bind-relates (Keeps 0) (Keeps 0) (Keeps 0) (set_login M N K cfg users name)
        (λ _. get_login_user M N K cfg users) (Keeps-trans 0 0) (λ a b f. f) (set_login-Keeps name)
        (λ _. get_login_user-Keeps)

  within_limit-Keeps :
      (verified : User → Bool) (message : Text) (over : Bool) (s : Connection M N)
      → Keeps 0 s (within_limit M N K cfg users verified message over s).1
  unfolding within_limit
  within_limit-Keeps verified message true s = Keeps-refl s
  within_limit-Keeps verified message false s = check_user-Keeps verified message s

  check_limit-Keeps :
      (verified : User → Bool) (message : Text) (s : Connection M N)
      → Keeps 1 s (check_limit M N K cfg users verified message s).1
  unfolding check_limit
  check_limit-Keeps verified message =
      bind-relates (Keeps 1) (Keeps 0) (Keeps 1) (max_auth_attempts M N K cfg users)
        (within_limit M N K cfg users verified message) (Keeps-trans 1 0) (λ a b f. f)
        max_auth_attempts-Keeps (within_limit-Keeps verified message)

  authenticate-Keeps :
      (verified : User → Bool) (message name : Text) (s : Connection M N)
      → Keeps 1 s (authenticate M N K cfg users verified message name s).1
  unfolding authenticate
  authenticate-Keeps verified message name =
      bind-relates (Keeps 0) (Keeps 1) (Keeps 1) (init_login M N K cfg users name)
        (λ _. check_limit M N K cfg users verified message) (Keeps-trans 0 1)
        (λ a b. Keeps-more 0 1 a b (omega arith)) (init_login-Keeps name)
        (λ _. check_limit-Keeps verified message)

  -- A request with its login name, served on a connection.
  pub data Request : Type 0 where
    by_password : Text → Text → Request
    by_public_key : Text → K.PublicKey → Request

  pub serve : Request → Action M N Auth
  unfolding auth_password auth_publickey
  serve (by_password name password) = auth_password M N K cfg users name password
  serve (by_public_key name key) = auth_publickey M N K cfg users name key

  abbrev pub name_of : Request → Text
  name_of (by_password name password) = name
  name_of (by_public_key name key) = name

  abbrev pub message_of : Request → Text
  message_of (by_password name password) = codes "login successfully by password"
  message_of (by_public_key name key) = codes "login successfully by public key"

  abbrev pub credential_of : Request → User → Bool
  credential_of (by_password name password) u = verify_password K u password
  credential_of (by_public_key name key) u = verify_authorized_keys K u key

  -- The connection after a sequence of requests.
  pub session : List Request → Connection M N → Connection M N
  session [] s = s
  session (r ∷ rs) s = session rs (serve r s).1

  serve-authenticate :
      (r : Request) (s : Connection M N)
      → serve r s ≡ authenticate M N K cfg users (credential_of r) (message_of r) (name_of r) s
  unfolding serve auth_password auth_publickey
  serve-authenticate (by_password name password) s = refl
  serve-authenticate (by_public_key name key) s = refl

  session-Keeps : (rs : List Request) (s : Connection M N) → Keeps (length rs) s (session rs s)
  unfolding session
  session-Keeps [] s = Keeps-refl s
  session-Keeps (r ∷ rs) s =
      let first : Keeps 1 s (serve r s).1 =
        rw (serve-authenticate r s)
          (authenticate-Keeps (credential_of r) (message_of r) (name_of r) s) in
      Keeps-more (1 + length rs) (suc (length rs)) s _ (omega arith) (
        Keeps-trans 1 (length rs) s (serve r s).1 (session rs (serve r s).1) first
          (session-Keeps rs (serve r s).1))

  -- When a connection accepts a password or a public key: the login name is the one that it has
  -- since an earlier request, or the request's, which parses; the user is the one that it has
  -- since an earlier request, or the one that the database gives for that login name when asked for
  -- active users; this
  -- user is active and has the credential; neither counter rejected the attempt; it is counted, and
  -- the count is within the connection's limit; the counters are cleared; the login is logged.
  pub serve-Accepted :
      (r : Request) (s t : Connection M N)
      → serve r s ≡ (returned accept, t)
      → Accepted M N K cfg users (credential_of r) (message_of r) (name_of r) s t
  serve-Accepted r s t h =
      authenticate_accepts M N K cfg users (credential_of r) (message_of r) (name_of r) s t
        (sym (serve-authenticate r s) ∙ h)

  -- Once a connection has a login name and a user, no sequence of requests changes them, whatever
  -- the login names in the requests.
  pub session_identity :
      (rs : List Request) (s : Connection M N) (u : User) (l : LoginParse)
      → s.user ≡ some u
      → s.login_parse ≡ some l
      → ((session rs s).user ≡ some u) × ((session rs s).login_parse ≡ some l)
  session_identity rs s u l e f = let k = session-Keeps rs s in (k.same_user u e, k.same_login l f)

  -- A connection that has used up its attempts accepts no request any more, after any sequence of
  -- requests that does not make its count overflow.
  pub session_locked :
      (rs : List Request) (r : Request) (s t : Connection M N)
      → s.max_auth_attempts_per_conn ≤ s.auth_attempts_per_conn
      → s.auth_attempts_per_conn + length rs + 1 < 4294967296
      → serve r (session rs s) ≢ (returned accept, t)
  session_locked rs r s t over bound h =
      let k = session-Keeps rs s in
      let a = serve-Accepted r (session rs s) t h in
      let n = a.counted in
      let m = a.below in let limit = k.same_limit in let c = k.counted (omega arith) in omega arith
