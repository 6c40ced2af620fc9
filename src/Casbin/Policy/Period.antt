-- ===== src/Casbin/Policy/Period.antt =====
-- What the policy checks decide: the period, the address, and the whole of `verify_extend_policy`.
use rustion.Prelude.{
  ℕ, ◌≤◌, ◌<◌, ◌≡◌, ◌↔◌, refl, ◌⊎◌, inl, inr, Bool, true, false, Option, none, some, ok, arith,
  Result-cases,
}
use rustion.Prelude.Text.{Text}
use rustion.Casbin.Policy.{
  Clocks, IpLib, TimeLib, IpPolicy, allow, deny, ExtendPolicy, ExtendPolicyReq, is_in_period,
  is_ip_in_cidr, is_expired, from_str, verify_extend_policy,
}

module _ (I : IpLib) (C : TimeLib) where
  open I use {IpAddr, IpNetwork, contains}
  open C use {DateTime, instant, timezone, offset_eq}

  -- The times of the period as the documentation reads them: from the start, and before the end,
  -- the end on the next day if it lies before the start.
  abbrev pub InPeriod : ℕ → Option DateTime → Option DateTime → Type 0
  InPeriod t none none = Unit
  InPeriod t (some _) none = ⊥
  InPeriod t none (some _) = ⊥
  InPeriod t (some s) (some e) =
      ((instant s ≤ instant e) × (instant s ≤ t) × (t < instant e))
      ⊎ ((instant e < instant s) × ((instant s ≤ t) ⊎ (t < instant e)))

  pub is_in_period_iff :
      (t : ℕ) (s e : Option DateTime) → (is_in_period I C t s e ≡ true) ↔ InPeriod t s e
  unfolding is_in_period
  is_in_period_iff t none none = (λ _. tt, λ _. refl)
  is_in_period_iff t (some s) none = (λ h. absurd (cc), λ h. absurd h)
  is_in_period_iff t none (some e) = (λ h. absurd (cc), λ h. absurd h)
  is_in_period_iff t (some s) (some e) = (ground arith, ground arith)

  -- The policy on addresses: nothing without a policy, an address in the network for an allowance,
  -- an address outside of it for a denial.
  abbrev pub IpPasses : Option IpAddr → Option (IpPolicy I C) → Type 0
  IpPasses ip none = Unit
  IpPasses none (some _) = ⊥
  IpPasses (some ip) (some (allow n)) = contains n ip ≡ true
  IpPasses (some ip) (some (deny n)) = contains n ip ≡ false

  pub is_ip_in_cidr_iff :
      (ip : Option IpAddr) (p : Option (IpPolicy I C))
      → (is_ip_in_cidr I C ip p ≡ true) ↔ IpPasses ip p
  unfolding is_ip_in_cidr
  is_ip_in_cidr_iff ip none = (λ _. tt, λ _. refl)
  is_ip_in_cidr_iff none (some p) = (λ h. absurd (cc), λ h. absurd h)
  is_ip_in_cidr_iff (some ip) (some (allow n)) = (λ h. h, λ h. h)
  is_ip_in_cidr_iff (some ip) (some (deny n)) = (ground arith, ground arith)

  abbrev pub NotExpired : ℕ → Option DateTime → Type 0
  NotExpired now none = Unit
  NotExpired now (some ep) = now < instant ep

  pub is_expired_iff :
      (now : ℕ) (ep : Option DateTime) → (is_expired I C now ep ≡ false) ↔ NotExpired now ep
  is_expired_iff now none = (λ _. tt, λ _. refl)
  is_expired_iff now (some ep) = (ground arith, ground arith)

  -- The request meets the extension.
  pub record Admits (req : ExtendPolicyReq I C) (ext : ExtendPolicy I C) : Type 0 where
    pub address : IpPasses req.ip ext.ip_policy
    pub period : InPeriod req.now ext.start_time ext.end_time
    pub live : NotExpired req.now ext.expire_date

  -- `verify_extend_policy` accepts exactly the texts that parse to an extension which the request
  -- meets.
  pub verify_extend_policy_iff :
      (at : Clocks) (req : ExtendPolicyReq I C) (s : Text)
      → (verify_extend_policy I C at req s ≡ ok true)
        ↔ ((ext : ExtendPolicy I C) × (from_str I C at s ≡ ok ext) × Admits req ext)
  unfolding verify_extend_policy
  verify_extend_policy_iff at req s = (sound, complete)
    where
      sound :
          verify_extend_policy I C at req s ≡ ok true
          → (ext : ExtendPolicy I C) × (from_str I C at s ≡ ok ext) × Admits req ext
      sound h = elim (Result-cases (from_str I C at s)) [
        | inr (e, p) ↦ absurd (ground arith)
        | inl (ext, p) ↦ (
          ext,
          p,
          record {
            address = (is_ip_in_cidr_iff req.ip ext.ip_policy).0 (ground arith);
            period = (is_in_period_iff req.now ext.start_time ext.end_time).0 (ground arith);
            live = (is_expired_iff req.now ext.expire_date).0 (ground arith);
          },
        )
      ]

      complete :
          (ext : ExtendPolicy I C) × (from_str I C at s ≡ ok ext) × Admits req ext
          → verify_extend_policy I C at req s ≡ ok true
      complete (ext, p, a) =
          let x = (is_ip_in_cidr_iff req.ip ext.ip_policy).1 a.address in
          let y = (is_in_period_iff req.now ext.start_time ext.end_time).1 a.period in
          let z = (is_expired_iff req.now ext.expire_date).1 a.live in
          rw (p, verify_extend_policy) (rw x (rw y (rw z)))

  pub verify_extend_policy_total :
      (at : Clocks) (req : ExtendPolicyReq I C) (s : Text) (ext : ExtendPolicy I C)
      → from_str I C at s ≡ ok ext
      → (b : Bool) × (verify_extend_policy I C at req s ≡ ok b)
  unfolding verify_extend_policy
  verify_extend_policy_total at req s ext p =
      elim (Result-cases (verify_extend_policy I C at req s)) [
        | inl done ↦ done
        | inr (e, bad) ↦ absurd (ground arith)
      ]
