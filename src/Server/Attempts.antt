-- ===== src/Server/Attempts.antt =====
-- The counters against brute-force logins of src/server/bastion_server.rs: `increment_counter`,
-- `remove_counter`, `reject_auth_attempts` and `clear_auth_attempts`. The cache crate moka is a
-- parameter.
pub mod History
mod Tests
use rustion.Prelude.{
  ℕ, suc, ◌+◌, ◌≡◌, ◌↔◌, Bool, true, false, Option, none, some, ltb, if◌then◌else◌,
}
use Prim.Native.Nat.{min}
use rustion.Prelude.Text.{Text}

-- A moka `Cache<K, u32>`, with what moka documents: a write is read back, an invalidated key is
-- absent, other keys keep their values. An entry that lapses is an invalidation that the
-- environment makes.
pub record CounterCache (K : Type 0) : Type 1 where
  pub Cache : Type 0
  pub empty : Cache
  pub key_eq : K → K → Bool
  pub key_eq_iff : (a b : K) → (key_eq a b ≡ true) ↔ (a ≡ b)
  pub get : K → Cache → Option ℕ
  pub put : K → ℕ → Cache → Cache
  pub invalidate : K → Cache → Cache
  pub get-empty : (k : K) → get k empty ≡ none
  pub get-put :
      (k j : K) (n : ℕ) (c : Cache) → get j (put k n c) ≡ (if key_eq k j then some n else get j c)
  pub get-invalidate :
      (k j : K) (c : Cache) → get j (invalidate k c) ≡ (if key_eq k j then none else get j c)

-- moka's `CompResult` of a `Put`: a new entry, or the value that replaced the old one.
pub data CompResult : Type 0 where
  inserted replaced_with : ℕ → CompResult

abbrev pub u32_max : ℕ
u32_max = 4294967295

module _ {K : Type 0} (M : CounterCache K) where
  -- `counter.saturating_add(1)` on an entry, 1 without one.
  unfoldable pub increment_counter : K → M.Cache → CompResult × M.Cache
  increment_counter key cache = elim (M.get key cache) [
    | some counter ↦
        let next = min (counter + 1) u32_max in (replaced_with next, M.put key next cache)
    | none ↦ (inserted 1, M.put key 1 cache)
  ]

  unfoldable pub remove_counter : K → M.Cache → M.Cache
  remove_counter key cache = M.invalidate key cache

-- `if let CompResult::ReplacedWith(entry) = result && entry.value() > &max`.
abbrev pub exceeds : CompResult → ℕ → Bool
exceeds (inserted _) limit = false
exceeds (replaced_with n) limit = ltb limit n

pub record Limits : Type 0 where
  pub max_ip_attempts : ℕ
  pub max_user_attempts : ℕ

module _ {Ip : Type 0} (M : CounterCache Ip) (N : CounterCache Text) where
  pub record Pools : Type 0 where
    pub client_ip_pool : M.Cache
    pub client_user_pool : N.Cache

  unfoldable pub reject_auth_attempts : Limits → Option Ip → Text → Pools → Bool × Pools
  unfolding increment_counter
  reject_auth_attempts cfg none username s =
      let (by_user, users) = increment_counter N username s.client_user_pool in
      (exceeds by_user cfg.max_user_attempts, record s { client_user_pool = users })
  reject_auth_attempts cfg (some ip) username s =
      let (by_ip, ips) = increment_counter M ip s.client_ip_pool in
      let (by_user, users) = increment_counter N username s.client_user_pool in
      (
        if exceeds by_user cfg.max_user_attempts then true else exceeds by_ip cfg.max_ip_attempts,
        record { client_ip_pool = ips; client_user_pool = users },
      )

  unfoldable pub clear_auth_attempts : Option Ip → Text → Pools → Pools
  unfolding remove_counter
  clear_auth_attempts none username s = record s {
    client_user_pool = remove_counter N username s.client_user_pool;
  }
  clear_auth_attempts (some ip) username s = record {
    client_ip_pool = remove_counter M ip s.client_ip_pool;
    client_user_pool = remove_counter N username s.client_user_pool;
  }
