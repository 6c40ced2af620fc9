-- ===== src/Server/Enforce/Sound.antt =====
-- When `enforce` grants, in terms of the rows of the database.
use rustion.Prelude.{
  ◌≡◌, ◌↔◌, refl, ap, ◌∙◌, inl, inr, Bool, true, false, Result, ok, bind-eq-ok, Result-cases,
  Bool-cases, List, [], ◌∷◌, Memᴰ, arith,
}
use mathlib.Core.List.Memᴰ
use rustion.Prelude.Text.{codes}
use rustion.Casbin.Rules.{Uuid, CasbinRule, CasbinRuleGroup, Error, object, action, RuleGroup}
use rustion.Casbin.Graph.{DiGraph}
use rustion.Casbin.Roles.{RoleManage, new_manage, match_sub}
use rustion.Casbin.Policy.{
  IpLib, TimeLib, ExtendPolicy, ExtendPolicyReq, Clocks, from_str, verify_extend_policy,
}
use rustion.Casbin.Policy.Period.{Admits, verify_extend_policy_iff, verify_extend_policy_total}
use rustion.Server.Enforce.Covered.{Covers, covers, covered, kept_iff}
use rustion.Server.Enforce.{Queries, try_policy, try_policies, enforce}

module _ (G : DiGraph RuleGroup) (I : IpLib) (C : TimeLib) where
  module _ (db : Queries) (m : RoleManage G) (parsed_at : CasbinRule → Clocks)
      (r1 r2 r3 : List CasbinRuleGroup) (built : new_manage G r1 r2 r3 ≡ ok m) where
    -- The policy `pol` permits the request.
    pub record Permits (sub obj act : Uuid) (req : ExtendPolicyReq I C) (pol : CasbinRule)
        : Type 0 where
      pub subject_covered : Covers r1 sub pol.v0
      pub object_covered : Covers r2 pol.v1 obj
      pub object_active : db.check_object_active obj ≡ ok true
      pub action_covered : Covers r3 pol.v2 act
      pub admits :
          (ext : ExtendPolicy I C) × (from_str I C (parsed_at pol) pol.v3 ≡ ok ext)
          × Admits I C req ext

    module _ (sub obj act : Uuid) (req : ExtendPolicyReq I C) where
      abbrev attempt : CasbinRule → Result Error Bool
      attempt = try_policy G I C db m parsed_at obj act req

      attempt_sound :
          (pol : CasbinRule)
          → Covers r1 sub pol.v0
          → attempt pol ≡ ok true
          → Permits sub obj act req pol
      unfolding try_policy
      attempt_sound pol s h =
          let verified : verify_extend_policy I C (parsed_at pol) req pol.v3 ≡ ok true =
            ground arith in
          record {
            subject_covered = s;
            object_covered = covers G m r1 r2 r3 built object pol.v1 obj pol.v1 obj (ground arith);
            object_active = ground arith;
            action_covered = covers G m r1 r2 r3 built action pol.v2 act pol.v2 act (ground arith);
            admits = (verify_extend_policy_iff I C (parsed_at pol) req pol.v3).0 verified;
          }

      attempt_complete : (pol : CasbinRule) → Permits sub obj act req pol → attempt pol ≡ ok true
      unfolding try_policy
      attempt_complete pol p =
          let o = covered G m r1 r2 r3 built object pol.v1 obj pol.v1 obj p.object_covered in
          let a = covered G m r1 r2 r3 built action pol.v2 act pol.v2 act p.action_covered in
          let v = (verify_extend_policy_iff I C (parsed_at pol) req pol.v3).1 p.admits in
          rw o (rw p.object_active (rw a v))

      try_policies_sound :
          (pols : List CasbinRule)
          → try_policies G I C db m parsed_at obj act req pols ≡ ok true
          → (pol : CasbinRule) × Memᴰ pol pols × (attempt pol ≡ ok true)
      unfolding try_policies
      try_policies_sound [] h = cc
      try_policies_sound (pol ∷ pols) h =
          let (granted, e, rest) = bind-eq-ok (attempt pol) _ h in
          elim (Bool-cases granted) [
            | inl yes_ ↦ (pol, Memᴰ.head refl, e ∙ ap (λ b. ok b) yes_)
            | inr no_ ↦
                let (p, i, q) = try_policies_sound pols (rw no_ at rest) in (p, Memᴰ.tail i, q)
          ]

      -- A grant has a reason: whenever `enforce` answers yes, some policy row permits the request.
      -- Its subject, object and action are the requested ones or groups that chains of grouping
      -- rows, of any length, connect them with, the object is active, and the row's extension parses
      -- and admits the request. The role manager is the one that the grouping rows `r1 r2 r3` build.
      pub enforce_sound :
          enforce G I C db m parsed_at sub obj act req ≡ ok true
          → (policies : List CasbinRule) × (db.list_casbin_rules_by_ptype (codes "p") ≡ ok policies)
            × (pol : CasbinRule) × Memᴰ pol policies
            × Permits sub obj act req pol
      unfolding enforce
      enforce_sound h =
          let (policies, listed, tried) =
            bind-eq-ok (db.list_casbin_rules_by_ptype (codes "p")) _ h in
          let (pol, i, e) = try_policies_sound (match_sub G m policies sub) tried in
          let (j, s) = (kept_iff G m r1 r2 r3 built sub policies pol).0 i in
          (policies, listed, pol, j, attempt_sound pol s e)

      -- No row can make the decision fail: the object's state can be read, and every extension parses.
      pub record IsReadable (policies : List CasbinRule) : Type 0 where
        pub active : (b : Bool) × (db.check_object_active obj ≡ ok b)
        pub parses :
            (pol : CasbinRule)
            → Memᴰ pol policies
            → (ext : ExtendPolicy I C) × (from_str I C (parsed_at pol) pol.v3 ≡ ok ext)

      attempt_total :
          (pol : CasbinRule)
          → (b : Bool) × (db.check_object_active obj ≡ ok b)
          → (ext : ExtendPolicy I C) × (from_str I C (parsed_at pol) pol.v3 ≡ ok ext)
          → (granted : Bool) × (attempt pol ≡ ok granted)
      unfolding try_policy
      attempt_total pol (b, e) (ext, f) =
          let (v, verified) = verify_extend_policy_total I C (parsed_at pol) req pol.v3 ext f in
          elim (Result-cases (attempt pol)) [
            | inl done ↦ done
            | inr (x, bad) ↦ absurd (ground arith)
          ]

      try_policies_total :
          (pols : List CasbinRule)
          → ((pol : CasbinRule) → Memᴰ pol pols → (granted : Bool) × (attempt pol ≡ ok granted))
          → (granted : Bool) × (try_policies G I C db m parsed_at obj act req pols ≡ ok granted)
      unfolding try_policies
      try_policies_total [] all = (false, refl)
      try_policies_total (pol ∷ pols) all =
          let (b, e) = all pol (Memᴰ.head refl) in
          let (c, f) = try_policies_total pols (λ p i. all p (Memᴰ.tail i)) in
          elim (Bool-cases b) [
            | inl yes_ ↦ (true, rw e (rw yes_ refl))
            | inr no_ ↦ (c, rw e (rw no_ f))
          ]

      try_policies_complete :
          (pols : List CasbinRule)
          → ((pol : CasbinRule) → Memᴰ pol pols → (granted : Bool) × (attempt pol ≡ ok granted))
          → (pol : CasbinRule) → Memᴰ pol pols
          → attempt pol ≡ ok true
          → try_policies G I C db m parsed_at obj act req pols ≡ ok true
      unfolding try_policies
      try_policies_complete [] all pol i t = absurd (Memᴰ.not-nil i)
      try_policies_complete (p ∷ pols) all pol i t =
          let (b, e) = all p (Memᴰ.head refl) in
          elim (Bool-cases b) [
            | inl yes_ ↦ rw e (rw yes_ refl)
            | inr no_ ↦ elim (Memᴰ.cases_cons i) [
              | inl same ↦ let q : attempt p ≡ ok true = rw (← same) t in absurd (cc)
              | inr later ↦
                  rw e
                    (rw no_ (try_policies_complete pols (λ p i. all p (Memᴰ.tail i)) pol later t))
            ]
          ]

      -- Where the database can be read and every extension parses, `enforce` always answers, and
      -- it answers yes exactly when some policy row permits the request, where groups reach over chains
      -- of grouping rows of any length: without such a row, access is denied.
      pub enforce_iff :
          (policies : List CasbinRule)
          → db.list_casbin_rules_by_ptype (codes "p") ≡ ok policies
          → IsReadable policies
          → ((granted : Bool) × (enforce G I C db m parsed_at sub obj act req ≡ ok granted))
            × ((enforce G I C db m parsed_at sub obj act req ≡ ok true)
                ↔ ((pol : CasbinRule) × Memᴰ pol policies × Permits sub obj act req pol))
      unfolding enforce
      enforce_iff policies listed r =
          let each = λ (pol : CasbinRule) (i : Memᴰ pol (match_sub G m policies sub)).
            attempt_total pol r.active
              (r.parses pol ((kept_iff G m r1 r2 r3 built sub policies pol).0 i).0) in
          let (b, e) = try_policies_total (match_sub G m policies sub) each in
          ((b, rw (listed, enforce) e), (granted, permitted each))
        where
          granted :
              enforce G I C db m parsed_at sub obj act req ≡ ok true
              → (pol : CasbinRule) × Memᴰ pol policies × Permits sub obj act req pol
          granted h =
              let (listed', same, pol, i, p) = enforce_sound h in
              let eq : listed' ≡ policies = cc in (pol, rw (← eq) i, p)

          permitted :
              ((pol : CasbinRule)
                → Memᴰ pol (match_sub G m policies sub)
                → (granted : Bool) × (attempt pol ≡ ok granted))
              → (pol : CasbinRule) × Memᴰ pol policies × Permits sub obj act req pol
              → enforce G I C db m parsed_at sub obj act req ≡ ok true
          permitted each (pol, i, p) =
              rw (listed, enforce)
                (try_policies_complete (match_sub G m policies sub) each pol
                  ((kept_iff G m r1 r2 r3 built sub policies pol).1 (i, p.subject_covered))
                  (attempt_complete pol p))
