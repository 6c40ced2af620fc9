-- ===== src/Server/Attempts/History.antt =====
-- The counters say how many attempts the history holds since the last clearing.
use Prim.Native.Nat.{min}
use rustion.Prelude.{
  ℕ, zero, suc, ◌+◌, ◌≤◌, ◌<◌, ◌≡◌, ◌↔◌, refl, ap, ◌∙◌, ◌⊎◌, inl, inr, Bool, true, false, Option,
  none, some, List, [], ◌∷◌, arith, ltb, if◌then◌else◌, Bool-cases,
}
use mathlib.Core.Bool.{false≢true}
use rustion.Prelude.Text.{Text}
use rustion.Server.Attempts.{
  CounterCache, u32_max, increment_counter, exceeds, Limits, Pools, reject_auth_attempts,
  clear_auth_attempts,
}

-- What a counter holds after `n` attempts.
abbrev pub shown : ℕ → Option ℕ
shown zero = none
shown (suc n) = some (min (suc n) u32_max)

either_iff :
    {P Q : Type 0} (b c : Bool)
    → (b ≡ true) ↔ P
    → (c ≡ true) ↔ Q
    → ((if b then true else c) ≡ true) ↔ (P ⊎ Q)
either_iff true c p q = (λ h. inl (p.0 refl), λ h. refl)
either_iff {P} {Q} false c p q = (λ h. inr (q.0 h), back)
  where
    back : P ⊎ Q → c ≡ true
    back (inl x) = absurd (false≢true (p.1 x))
    back (inr y) = q.1 y

module _ {K : Type 0} (M : CounterCache K) where
  increment_counter-get :
      (k j : K) (c : M.Cache) (n : ℕ)
      → M.get k c ≡ shown n
      → M.get j (increment_counter M k c).1 ≡ (if M.key_eq k j then shown (suc n) else M.get j c)
  unfolding increment_counter
  increment_counter-get k j c zero h = rw (h, increment_counter) (M.get-put k j 1 c)
  increment_counter-get k j c (suc n) h = rw (h, increment_counter) (rw M.get-put (ground arith))

  increment_counter-exceeds :
      (k : K) (c : M.Cache) (n limit : ℕ)
      → M.get k c ≡ shown n
      → exceeds (increment_counter M k c).0 limit
        ≡ (if ltb 0 n then ltb limit (min (n + 1) u32_max) else false)
  unfolding increment_counter
  increment_counter-exceeds k c zero limit h = rw (h, increment_counter) refl
  increment_counter-exceeds k c (suc n) limit h = rw (h, increment_counter) (ground arith)

  module _ (f : K → ℕ) (c : M.Cache) (h : (k : K) → M.get k c ≡ shown (f k)) where
    counted_up :
        (k j : K)
        → M.get j (increment_counter M k c).1 ≡ shown (if M.key_eq k j then suc (f j) else f j)
    counted_up k j = elim (Bool-cases (M.key_eq k j)) [
      | inl e ↦
          let same : k ≡ j = (M.key_eq_iff k j).0 e in
          increment_counter-get k j c (f k) (h k) ∙ rw e (ap (λ x. shown (suc (f x))) same)
      | inr e ↦ increment_counter-get k j c (f k) (h k) ∙ rw e (h j)
    ]

    cleared : (k j : K) → M.get j (M.invalidate k c) ≡ shown (if M.key_eq k j then 0 else f j)
    cleared k j =
        M.get-invalidate k j c
        ∙ (elim (Bool-cases (M.key_eq k j)) [ inl e ↦ rw e refl | inr e ↦ rw e (h j) ])

module _ {Ip : Type 0} (M : CounterCache Ip) (N : CounterCache Text) where
  -- What happens to the two caches: a login attempt from an address, or from none, under a name; a
  -- successful login; an entry that lapses.
  pub data Event : Type 0 where
    attempt : Option Ip → Text → Event
    clear : Option Ip → Text → Event
    lapse_ip : Ip → Event
    lapse_user : Text → Event

  unfoldable pub run : Limits → List Event → Pools M N → Pools M N
  run cfg [] s = s
  run cfg (attempt ip user ∷ es) s = run cfg es (reject_auth_attempts M N cfg ip user s).1
  run cfg (clear ip user ∷ es) s = run cfg es (clear_auth_attempts M N ip user s)
  run cfg (lapse_ip ip ∷ es) s =
      run cfg es (record s { client_ip_pool = M.invalidate ip s.client_ip_pool })
  run cfg (lapse_user user ∷ es) s =
      run cfg es (record s { client_user_pool = N.invalidate user s.client_user_pool })

  -- The attempts under a name, and those from an address, since the last event that cleared them;
  -- `n` is the number before the events.
  abbrev pub user_step : Text → Event → ℕ → ℕ
  user_step u (attempt ip v) n = if N.key_eq v u then suc n else n
  user_step u (clear ip v) n = if N.key_eq v u then 0 else n
  user_step u (lapse_ip ip) n = n
  user_step u (lapse_user v) n = if N.key_eq v u then 0 else n

  abbrev is_ip : Option Ip → Ip → Bool
  is_ip none a = false
  is_ip (some b) a = M.key_eq b a

  abbrev pub ip_step : Ip → Event → ℕ → ℕ
  ip_step a (attempt ip v) n = if is_ip ip a then suc n else n
  ip_step a (clear ip v) n = if is_ip ip a then 0 else n
  ip_step a (lapse_ip b) n = if M.key_eq b a then 0 else n
  ip_step a (lapse_user v) n = n

  abbrev pub attempts_of : (Event → ℕ → ℕ) → List Event → ℕ → ℕ
  attempts_of f [] n = n
  attempts_of f (e ∷ es) n = attempts_of f es (f e n)

  -- The caches hold the numbers `f` and `g`.
  pub record Counts (f : Text → ℕ) (g : Ip → ℕ) (s : Pools M N) : Type 0 where
    pub users : (u : Text) → N.get u s.client_user_pool ≡ shown (f u)
    pub ips : (a : Ip) → M.get a s.client_ip_pool ≡ shown (g a)

  abbrev step : Limits → Event → Pools M N → Pools M N
  step cfg e s = run cfg (e ∷ []) s

  Counts-step :
      (cfg : Limits) (e : Event) (f : Text → ℕ) (g : Ip → ℕ) (s : Pools M N)
      → Counts f g s
      → Counts (λ u. user_step u e (f u)) (λ a. ip_step a e (g a)) (step cfg e s)
  unfolding run reject_auth_attempts clear_auth_attempts
  Counts-step cfg (attempt none v) f g s c = record {
    users = λ u. counted_up N f s.client_user_pool c.users v u;
    ips = c.ips;
  }
  Counts-step cfg (attempt (some b) v) f g s c = record {
    users = λ u. counted_up N f s.client_user_pool c.users v u;
    ips = λ a. counted_up M g s.client_ip_pool c.ips b a;
  }
  Counts-step cfg (clear none v) f g s c = record {
    users = λ u. cleared N f s.client_user_pool c.users v u;
    ips = c.ips;
  }
  Counts-step cfg (clear (some b) v) f g s c = record {
    users = λ u. cleared N f s.client_user_pool c.users v u;
    ips = λ a. cleared M g s.client_ip_pool c.ips b a;
  }
  Counts-step cfg (lapse_ip b) f g s c = record {
    users = c.users;
    ips = λ a. cleared M g s.client_ip_pool c.ips b a;
  }
  Counts-step cfg (lapse_user v) f g s c = record {
    users = λ u. cleared N f s.client_user_pool c.users v u;
    ips = c.ips;
  }

  run-cons :
      (cfg : Limits) (e : Event) (es : List Event) (s : Pools M N)
      → run cfg (e ∷ es) s ≡ run cfg es (step cfg e s)
  unfolding run
  run-cons cfg (attempt ip v) es s = refl
  run-cons cfg _ es s = refl

  run-Counts :
      (cfg : Limits) (es : List Event) (f : Text → ℕ) (g : Ip → ℕ) (s : Pools M N)
      → Counts f g s
      → Counts
          (λ u. attempts_of (user_step u) es (f u))
          (λ a. attempts_of (ip_step a) es (g a))
          (run cfg es s)
  run-Counts cfg [] f g s c = unfold run in c
  run-Counts cfg (e ∷ es) f g s c = rw (run-cons cfg e es s) (
      run-Counts cfg es (λ u. user_step u e (f u)) (λ a. ip_step a e (g a)) (step cfg e s)
        (Counts-step cfg e f g s c))

  abbrev pub fresh_pools : Pools M N
  fresh_pools = record { client_ip_pool = M.empty; client_user_pool = N.empty }

  -- The attempt after `n` others is over the limit: it is not the first, and the saturated count
  -- passes the limit.
  abbrev pub IsOver : ℕ → ℕ → Type 0
  IsOver n limit = (1 ≤ n) × (limit < min (n + 1) u32_max)

  IsOver-iff :
      (n limit : ℕ)
      → ((if ltb 0 n then ltb limit (min (n + 1) u32_max) else false) ≡ true) ↔ IsOver n limit
  IsOver-iff n limit = (ground arith, ground arith)

  -- After any history of attempts, clearings and lapsed entries, the next attempt from an address
  -- under a name is rejected exactly when the attempts under that name, or those from that
  -- address, since they were last cleared are over their limit: there was at least one, and with
  -- this one they pass the limit.
  pub reject_auth_attempts_iff :
      (cfg : Limits) (es : List Event) (ip : Ip) (user : Text)
      → ((reject_auth_attempts M N cfg (some ip) user (run cfg es fresh_pools)).0 ≡ true) ↔ (
          IsOver (attempts_of (user_step user) es 0) cfg.max_user_attempts
          ⊎ IsOver (attempts_of (ip_step ip) es 0) cfg.max_ip_attempts)
  unfolding reject_auth_attempts
  reject_auth_attempts_iff cfg es ip user =
      let start : Counts (λ u. 0) (λ a. 0) fresh_pools = record {
        users = λ u. N.get-empty u;
        ips = λ a. M.get-empty a;
      } in
      let c = run-Counts cfg es (λ u. 0) (λ a. 0) fresh_pools start in
      let x = increment_counter-exceeds N user _ _ cfg.max_user_attempts (c.users user) in
      let y = increment_counter-exceeds M ip _ _ cfg.max_ip_attempts (c.ips ip) in
      rw x (
        rw y
          (either_iff _ _ (IsOver-iff _ cfg.max_user_attempts) (IsOver-iff _ cfg.max_ip_attempts)))
