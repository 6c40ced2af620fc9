-- ===== src/Server/Sample.antt =====
-- Concrete counters, credentials and a connection, for the tests of the server's parts.
use rustion.Prelude.{
  ℕ, ◌==◌, ==_iff, ◌≡◌, ◌↔◌, refl, Bool, true, false, Option, none, some, Result, ok, [], ◌∷◌,
  if◌then◌else◌,
}
use rustion.Prelude.Text.{Text, codes, text_eq, text_eq_sound, text_eq_self}
use mathlib.Core.Path.{subst}
use rustion.Casbin.Rules.{Error}
use rustion.Server.Attempts.{CounterCache, Limits}
use rustion.Server.User.{User, Crypto}
use rustion.Server.Handler.{Connection, no_app}

module _ {K : Type 0} (eq : K → K → Bool) (eq_iff : (a b : K) → (eq a b ≡ true) ↔ (a ≡ b)) where
  abbrev pub function_cache : CounterCache K
  function_cache = record {
    Cache = K → Option ℕ;
    empty = λ _. none;
    key_eq = eq;
    key_eq_iff = eq_iff;
    get = λ k c. c k;
    put = λ k n c j. if eq k j then some n else c j;
    invalidate = λ k c j. if eq k j then none else c j;
    get-empty = λ k. refl;
    get-put = λ k j n c. refl;
    get-invalidate = λ k j c. refl;
  }

abbrev pub ip_cache : CounterCache ℕ
ip_cache = function_cache (λ a b. a == b) ==_iff

pub text_eq_iff : (s t : Text) → (text_eq s t ≡ true) ↔ (s ≡ t)
text_eq_iff s t = (text_eq_sound s t, λ e. subst (λ u. text_eq s u ≡ true) e (text_eq_self s))

abbrev pub user_cache : CounterCache Text
user_cache = function_cache text_eq text_eq_iff

abbrev pub sample_limits : Limits
sample_limits = record { max_ip_attempts = 2; max_user_attempts = 2 }

-- A hash is its password, and a key its line, which does not parse when it is empty.
abbrev key_of : Text → Option Text
key_of [] = none
key_of (c ∷ s) = some (c ∷ s)

abbrev pub sample_crypto : Crypto
sample_crypto = record {
  Hash = Text;
  PublicKey = Text;
  parse_hash = λ t. some t;
  verify = λ password hash. text_eq password hash;
  parse_key = key_of;
  same_key_data = text_eq;
}

abbrev pub alice : User
alice = record {
  id = 1;
  username = codes "alice";
  email = none;
  password_hash = some (codes "secret");
  authorized_keys = some (codes "key a" ∷ codes "key b" ∷ []);
  force_init_pass = false;
  is_active = true;
  updated_by = 0;
  updated_at = 0;
}

abbrev pub sample_users : Text → Bool → Result Error (Option User)
sample_users name active_only = ok (if text_eq name (codes "alice") then some alice else none)

abbrev pub fresh_connection : ℕ → Connection ip_cache user_cache
fresh_connection limit = record {
  id = 7;
  user = none;
  login_parse = none;
  client_ip = some 9;
  app = no_app;
  log_user = none;
  auth_attempts_per_conn = 0;
  max_auth_attempts_per_conn = limit;
  pools = record { client_ip_pool = λ _. none; client_user_pool = λ _. none };
  logs = [];
}
