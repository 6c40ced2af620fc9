-- ===== src/Server/Handler/Accept.antt =====
-- What an accepted authentication means.
use rustion.Prelude.{
  ◌+◌, ◌%◌, ◌≤◌, ◌≡◌, sym, ap, ◌∙◌, ◌⊎◌, inl, inr, Bool, true, false, Option, none, some, Result,
  ok, err, [], ◌∷◌, ◌++◌, arith, ltb, Bool-cases, Option-cases, Result-cases,
}
use rustion.Prelude.Actions.{returned, failed, bind-returned, same_end}
use rustion.Prelude.Text.{Text, codes}
use rustion.Casbin.Rules.{Error}
use rustion.Server.Attempts.{CounterCache, Limits, reject_auth_attempts, clear_auth_attempts}
use rustion.Server.Login.{LoginParse, parse_login_name}
use rustion.Server.User.{User, Crypto}
use rustion.Server.Handler.{
  LogEntry, accept, Connection, get_user, set_login, get_login_user, init_login, max_auth_attempts,
  welcome, check_user, within_limit, check_limit, authenticate,
}

module _ {Ip : Type 0} (M : CounterCache Ip) (N : CounterCache Text) (K : Crypto) (cfg : Limits)
    (users : Text → Bool → Result Error (Option User)) where
  -- The login name and the user that a request finds, or the connection has since an earlier one.
  pub record Starts (login_name : Text) (s t : Connection M N) (l : LoginParse) : Type 0 where
    pub login_set : t.login_parse ≡ some l
    pub login_from :
        (s.login_parse ≡ some l) ⊎ ((s.login_parse ≡ none) × (parse_login_name login_name ≡ some l))
    pub user_from :
        ((u : User) × (s.user ≡ some u) × (t.user ≡ some u))
        ⊎ ((s.user ≡ none) × (users l.user true ≡ ok t.user))
    pub others : t ≡ record s { user = t.user; login_parse = t.login_parse }

  module _ (name : Text) (s : Connection M N) where
    get_user-kept :
        (u : User) → s.user ≡ some u → get_user M N K cfg users name s ≡ (returned tt, s)
    unfolding get_user
    get_user-kept u e = cc

    get_user-asked :
        (found : Option User)
        → s.user ≡ none
        → users name true ≡ ok found
        → get_user M N K cfg users name s ≡ (returned tt, record s { user = found })
    unfolding get_user
    get_user-asked found e f = cc

    get_user-failed :
        (x : Error)
        → s.user ≡ none
        → users name true ≡ err x
        → get_user M N K cfg users name s ≡ (failed x, s)
    unfolding get_user
    get_user-failed x e f = cc

    get_user_found :
        (t : Connection M N)
        → get_user M N K cfg users name s ≡ (returned tt, t)
        → (((u : User) × (s.user ≡ some u) × (t.user ≡ some u))
            ⊎ ((s.user ≡ none) × (users name true ≡ ok t.user)))
          × (t ≡ record s { user = t.user })
    get_user_found t h = elim (Option-cases s.user) [
      | inl e ↦ elim (Result-cases (users name true)) [
        | inl (found, f) ↦
            let q = (same_end (get_user-asked found e f) h).1 in
            (inr (e, f ∙ ap (λ r. ok r.user) q), cc)
        | inr (x, f) ↦ let q = (same_end (get_user-failed x e f) h).0 in cc
      ]
      | inr (u, e) ↦ let q = (same_end (get_user-kept u e) h).1 in (inl (u, e, cc), cc)
    ]

  set_login_found :
      (name : Text) (s t : Connection M N) (l : LoginParse)
      → set_login M N K cfg users name s ≡ (returned tt, t)
      → t.login_parse ≡ some l
      → ((s.login_parse ≡ some l) ⊎ ((s.login_parse ≡ none) × (parse_login_name name ≡ some l)))
        × (t ≡ record s { login_parse = t.login_parse })
  unfolding set_login
  set_login_found name s t l h e = elim (Option-cases s.login_parse) [
    | inl f ↦ (inr (f, cc), cc)
    | inr (l', f) ↦ (inl cc, cc)
  ]

  login_user_found :
      (s t : Connection M N)
      → get_login_user M N K cfg users s ≡ (returned tt, t)
      → (l : LoginParse) × (s.login_parse ≡ some l)
        × (get_user M N K cfg users l.user s ≡ (returned tt, t))
  unfolding get_login_user
  login_user_found s t h = elim (Option-cases s.login_parse) [
    | inl e ↦ cc
    | inr (l, e) ↦ (l, e, cc)
  ]

  init_login-Starts :
      (name : Text) (s t : Connection M N)
      → init_login M N K cfg users name s ≡ (returned tt, t)
      → (l : LoginParse) × Starts name s t l
  unfolding init_login
  init_login-Starts name s t h =
      let (_, r, first, rest) =
        bind-returned (set_login M N K cfg users name) (λ _. get_login_user M N K cfg users) s h in
      let (l, e, got) = login_user_found r t rest in
      let (by_login, same_login) = set_login_found name s r l first e in
      let (by_user, same_user) = get_user_found l.user r t got in
      let kept : t.login_parse ≡ r.login_parse = ap (λ c. c.login_parse) same_user in
      let untouched : r.user ≡ s.user = ap (λ c. c.user) same_login in
      (
        l,
        record {
          login_set = kept ∙ e;
          login_from = by_login;
          user_from = elim by_user [
            | inl (u, f, g) ↦ inl (u, sym untouched ∙ f, g)
            | inr (f, g) ↦ inr (sym untouched ∙ f, g)
          ];
          others = same_user ∙ cc;
        },
      )

  max_auth_attempts_passed :
      (s t : Connection M N) (l : LoginParse)
      → s.login_parse ≡ some l
      → max_auth_attempts M N K cfg users s ≡ (returned false, t)
      → ((reject_auth_attempts M N cfg s.client_ip l.user s.pools).0 ≡ false)
        × (t ≡ record s {
          pools = (reject_auth_attempts M N cfg s.client_ip l.user s.pools).1;
          auth_attempts_per_conn = (s.auth_attempts_per_conn + 1) % 4294967296;
        })
        × ((s.auth_attempts_per_conn + 1) % 4294967296 ≤ s.max_auth_attempts_per_conn)
  unfolding max_auth_attempts
  max_auth_attempts_passed s t l e h =
      elim (Bool-cases ((reject_auth_attempts M N cfg s.client_ip l.user s.pools).0)) [
        | inl f ↦ cc
        | inr f ↦
            let below : ltb s.max_auth_attempts_per_conn
                  ((s.auth_attempts_per_conn + 1) % 4294967296)
                ≡ false =
              cc in
            (f, cc, ground arith)
      ]

  abbrev pub login_entry : Connection M N → User → Text → LogEntry
  login_entry s u message = record {
    connection_id = s.id;
    user_id = u.id;
    log_type = codes "server";
    detail = message;
  }

  check_user_accepts :
      (verified : User → Bool) (message : Text) (s t : Connection M N) (l : LoginParse)
      → s.login_parse ≡ some l
      → check_user M N K cfg users verified message s ≡ (returned accept, t)
      → (u : User) × (s.user ≡ some u)
        × (u.is_active ≡ true)
        × (verified u ≡ true)
        × (t ≡ record s {
          log_user = some u.id;
          pools = clear_auth_attempts M N s.client_ip l.user s.pools;
          logs = s.logs ++ login_entry s u message ∷ [];
        })
  unfolding check_user welcome
  check_user_accepts verified message s t l e h = elim (Option-cases s.user) [
    | inl f ↦ cc
    | inr (u, f) ↦ elim (Bool-cases u.is_active) [
      | inl a ↦ elim (Bool-cases (verified u)) [ inl v ↦ (u, f, a, v, cc) | inr v ↦ cc ]
      | inr a ↦ cc
    ]
  ]

  -- What a request leaves behind that was accepted.
  pub record Accepted (verified : User → Bool) (message login_name : Text) (s t : Connection M N)
      : Type 0 where
    pub user : User
    pub login : LoginParse
    pub user_set : t.user ≡ some user
    pub login_set : t.login_parse ≡ some login
    pub login_from :
        (s.login_parse ≡ some login)
        ⊎ ((s.login_parse ≡ none) × (parse_login_name login_name ≡ some login))
    pub user_from :
        (s.user ≡ some user) ⊎ ((s.user ≡ none) × (users login.user true ≡ ok (some user)))
    pub active : user.is_active ≡ true
    pub credential : verified user ≡ true
    pub not_rejected : (reject_auth_attempts M N cfg s.client_ip login.user s.pools).0 ≡ false
    pub counted : t.auth_attempts_per_conn ≡ (s.auth_attempts_per_conn + 1) % 4294967296
    pub below : t.auth_attempts_per_conn ≤ s.max_auth_attempts_per_conn
    pub cleared :
        t.pools
        ≡ clear_auth_attempts M N s.client_ip login.user
            (reject_auth_attempts M N cfg s.client_ip login.user s.pools).1
    pub logged : t.logs ≡ s.logs ++ login_entry s user message ∷ []

  check_limit_accepts :
      (verified : User → Bool) (message : Text) (s t : Connection M N)
      → check_limit M N K cfg users verified message s ≡ (returned accept, t)
      → (r : Connection M N) × (max_auth_attempts M N K cfg users s ≡ (returned false, r))
        × (check_user M N K cfg users verified message r ≡ (returned accept, t))
  unfolding check_limit within_limit
  check_limit_accepts verified message s t h =
      let (over, r, first, rest) =
        bind-returned (max_auth_attempts M N K cfg users)
          (within_limit M N K cfg users verified message) s h in
      elim (Bool-cases over) [ inl e ↦ cc | inr e ↦ (r, cc, cc) ]

  pub authenticate_accepts :
      (verified : User → Bool) (message login_name : Text) (s t : Connection M N)
      → authenticate M N K cfg users verified message login_name s ≡ (returned accept, t)
      → Accepted verified message login_name s t
  unfolding authenticate
  authenticate_accepts verified message login_name s t h =
      let (_, a, first, rest) =
        bind-returned (init_login M N K cfg users login_name)
          (λ _. check_limit M N K cfg users verified message) s h in
      let (b, limit, check) = check_limit_accepts verified message a t rest in
      let (l, start) = init_login-Starts login_name s a first in
      let (passed, same_b, below) = max_auth_attempts_passed a b l start.login_set limit in
      let in_b : b.login_parse ≡ some l = ap (λ c. c.login_parse) same_b ∙ start.login_set in
      let (u, found, active, credential, same_t) =
        check_user_accepts verified message b t l in_b check in
      let base = start.others in
      let n : t.auth_attempts_per_conn ≡ (s.auth_attempts_per_conn + 1) % 4294967296 =
        cc (same_t, same_b, base) in
      let n' : t.auth_attempts_per_conn ≡ (a.auth_attempts_per_conn + 1) % 4294967296 =
        cc (same_t, same_b) in
      let limit_kept : a.max_auth_attempts_per_conn ≡ s.max_auth_attempts_per_conn = cc base in
      let same_user : a.user ≡ some u = cc (same_b, found) in
      record {
        user = u;
        login = l;
        user_set = ap (λ c. c.user) same_t ∙ found;
        login_set = ap (λ c. c.login_parse) same_t ∙ in_b;
        login_from = start.login_from;
        user_from = elim start.user_from [
          | inl (v, f, g) ↦ inl (f ∙ sym g ∙ same_user)
          | inr (f, g) ↦ inr (f, g ∙ ap ok same_user)
        ];
        active = active;
        credential = credential;
        not_rejected = cc (passed, base);
        counted = n;
        below = rw n' (rw (sym limit_kept) below);
        cleared = cc (same_t, same_b, base);
        logged = cc (same_t, same_b, base);
      }
