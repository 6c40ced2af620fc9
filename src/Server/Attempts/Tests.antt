-- ===== src/Server/Attempts/Tests.antt =====
-- The counters, over caches that are functions.
use rustion.Prelude.{◌≡◌, ◌↔◌, ◌⊎◌, refl, true, some, [], ◌∷◌, List}
use rustion.Prelude.Text.{codes}
use rustion.Server.Sample.{ip_cache, user_cache, sample_limits}
use rustion.Server.Attempts.{
  reject_auth_attempts, clear_auth_attempts, increment_counter, remove_counter,
}
use rustion.Server.Attempts.History.{
  Event, attempt, clear, lapse_user, run, IsOver, attempts_of, user_step, ip_step, fresh_pools,
  reject_auth_attempts_iff,
}

abbrev history : List (Event ip_cache user_cache)
history =
    attempt (some 9) (codes "alice")
    ∷ clear (some 9) (codes "alice")
    ∷ attempt (some 9) (codes "alice")
    ∷ attempt (some 9) (codes "bob")
    ∷ lapse_user (codes "bob")
    ∷ []

reject_auth_attempts_iff_example :
    ((reject_auth_attempts ip_cache user_cache sample_limits
        (some 9)
        (codes "alice")
        (run ip_cache user_cache sample_limits history (fresh_pools ip_cache user_cache))).0
      ≡ true)
    ↔ (IsOver ip_cache user_cache
          (attempts_of ip_cache user_cache
            (user_step ip_cache user_cache (codes "alice"))
            history
            0)
          2
        ⊎ IsOver ip_cache user_cache
            (attempts_of ip_cache user_cache (ip_step ip_cache user_cache 9) history 0)
            2)
reject_auth_attempts_iff_example =
    reject_auth_attempts_iff ip_cache user_cache sample_limits history 9 (codes "alice")

-- The third attempt from the address is over its limit of two.
third_attempt :
    (reject_auth_attempts ip_cache user_cache sample_limits
      (some 9)
      (codes "alice")
      (run ip_cache user_cache sample_limits history (fresh_pools ip_cache user_cache))).0
    ≡ true
unfolding run reject_auth_attempts clear_auth_attempts increment_counter remove_counter
third_attempt = refl
