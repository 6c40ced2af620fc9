-- ===== src/Server/Offered/Exact.antt =====
-- What `list_targets_for_user` of src/server/bastion_server.rs answers, in terms of the rows of the
-- database.
use mathlib.Core.List.Memᴰ
use rustion.Prelude.{
  ◌≡◌, ◌↔◌, ◌⊎◌, refl, sym, inl, inr, Bool, true, not, ◌||◌, ◌==◌, ==_iff, some, ok, List, [], ◌∷◌,
  ◌++◌, Memᴰ, Memᴰ-append, any, any_sound, any_complete,
}
use rustion.Prelude.Text.{codes, text_eq}
use rustion.Casbin.Rules.{Uuid, CasbinRule, CasbinRuleGroup, object, RuleGroup}
use rustion.Casbin.Graph.{DiGraph, here}
use rustion.Casbin.Roles.{RoleManage, new_manage, match_sub}
use rustion.Casbin.Roles.Match.{IsMember}
use rustion.Casbin.Roles.Fetch.{fetch_role_from_start_iff}
use rustion.App.World.{Target, TargetSecretName}
use rustion.Database.Tables.{
  Tables, TargetSecret, Secret, all_active, name_row, list_casbin_rules_by_ptype,
  list_targets_by_ids,
}
use rustion.Database.Joins.{Joined}
use rustion.Database.Objects.{Memᴰ-list_casbin_rules_by_ptype, Memᴰ-list_targets_by_ids}
use rustion.Server.Enforce.Covered.{Covers, kept_iff}
use rustion.Server.Offered.{or_itself, offered_by, offered_by_all, list_targets_for_user}

or_itself_sound :
    {r : TargetSecretName} (xs ys : List TargetSecretName)
    → Memᴰ r (or_itself xs ys)
    → Memᴰ r xs ⊎ Memᴰ r ys
or_itself_sound [] ys m = inr m
or_itself_sound (x ∷ xs) ys m = inl m

or_itself_left :
    {r : TargetSecretName} (xs ys : List TargetSecretName) → Memᴰ r xs → Memᴰ r (or_itself xs ys)
or_itself_left [] ys m = absurd (Memᴰ.not-nil m)
or_itself_left (x ∷ xs) ys m = m

-- The second list counts where the first has it or is empty.
or_itself_right :
    {r : TargetSecretName} (xs ys : List TargetSecretName)
    → Memᴰ r ys
    → ((x : TargetSecretName) → Memᴰ x xs → Memᴰ r xs)
    → Memᴰ r (or_itself xs ys)
or_itself_right [] ys m h = m
or_itself_right (x ∷ xs) ys m h = h x (Memᴰ.head refl)

module _ (D : Tables) (r2 : List CasbinRuleGroup) (active_only : Bool) where
  -- The row `r` shows a target secret that the object of the policy `p` covers.
  abbrev pub IsOfferedBy : CasbinRule → TargetSecretName → Type 0
  IsOfferedBy p r =
      (ts : TargetSecret) × (t : Target) × (s : Secret) × Joined D ts t s
      × Covers r2 p.v1 ts.id
      × ((not active_only || all_active ts t s) ≡ true)
      × (r ≡ name_row p.id ts t s)

  module _ (p : CasbinRule) (ids : List Uuid)
      (members : (a : Uuid) → Memᴰ a ids ↔ IsMember r2 p.v1 a) where
    has : (ids : List Uuid) (a : Uuid) → Memᴰ a ids → any (λ x. x == a) ids ≡ true
    has ids a m = any_complete (λ x. x == a) ids m ((==_iff a a).1 refl)

    had : (ids : List Uuid) (a : Uuid) → any (λ x. x == a) ids ≡ true → Memᴰ a ids
    had ids a h =
        let (x, m, e) = any_sound (λ x. x == a) ids h in
        let same : x ≡ a = (==_iff x a).0 e in rw (← same) m

    -- A group with members is a member of itself.
    reached : (b a : Uuid) → Memᴰ b ids → Covers r2 p.v1 a → IsMember r2 p.v1 a
    reached b a m (inl e) = let (t, _) = (members b).0 m in (t, rw (← e) here)
    reached b a m (inr w) = w

    by_group :
        (x r : TargetSecretName)
        → IsOfferedBy p r
        → Memᴰ x (list_targets_by_ids D ids p.id active_only)
        → Memᴰ r (list_targets_by_ids D ids p.id active_only)
    by_group x r (ts, t, s, j, c, active, same) m =
        let (us, _, _, _, found, _, _) = (Memᴰ-list_targets_by_ids D ids p.id active_only x).0 m in
        let w = reached us.id ts.id (had ids us.id found) c in
        (Memᴰ-list_targets_by_ids D ids p.id active_only r).1
          (ts, t, s, j, has ids ts.id ((members ts.id).1 w), active, same)

    abbrev chosen : List TargetSecretName
    chosen =
        or_itself (list_targets_by_ids D ids p.id active_only)
          (list_targets_by_ids D (p.v1 ∷ []) p.id active_only)

    Memᴰ-chosen : (r : TargetSecretName) → Memᴰ r chosen ↔ IsOfferedBy p r
    Memᴰ-chosen r = (to, from)
      where
        to : Memᴰ r chosen → IsOfferedBy p r
        to m = elim (or_itself_sound _ _ m) [
          | inl k ↦
              let (ts, t, s, j, found, active, same) =
                (Memᴰ-list_targets_by_ids D ids p.id active_only r).0 k in
              (ts, t, s, j, inr ((members ts.id).0 (had ids ts.id found)), active, same)
          | inr k ↦
              let (ts, t, s, j, found, active, same) =
                (Memᴰ-list_targets_by_ids D (p.v1 ∷ []) p.id active_only r).0 k in
              (
                ts,
                t,
                s,
                j,
                inl (sym (Memᴰ.eq_of_singleton (had (p.v1 ∷ []) ts.id found))),
                active,
                same,
              )
        ]

        from : IsOfferedBy p r → Memᴰ r chosen
        from (ts, t, s, j, inr w, active, same) = or_itself_left _ _ (
            (Memᴰ-list_targets_by_ids D ids p.id active_only r).1
              (ts, t, s, j, has ids ts.id ((members ts.id).1 w), active, same))
        from (ts, t, s, j, inl e, active, same) =
            or_itself_right _ _
              ((Memᴰ-list_targets_by_ids D (p.v1 ∷ []) p.id active_only r).1
                (ts, t, s, j, has (p.v1 ∷ []) ts.id (Memᴰ.head (sym e)), active, same))
              (λ x m. by_group x r (ts, t, s, j, inl e, active, same) m)

module _ (G : DiGraph RuleGroup) (r1 r2 r3 : List CasbinRuleGroup) (m : RoleManage G)
    (built : new_manage G r1 r2 r3 ≡ ok m) (D : Tables) (active_only : Bool) where
  abbrev One : CasbinRule → List TargetSecretName → Type 0
  One p first = (r : TargetSecretName) → Memᴰ r first ↔ IsOfferedBy D r2 active_only p r

  abbrev Others : List CasbinRule → List TargetSecretName → Type 0
  Others ps rest =
      (r : TargetSecretName)
      → Memᴰ r rest ↔ ((p : CasbinRule) × Memᴰ p ps × IsOfferedBy D r2 active_only p r)

  offered_by_iff :
      (p : CasbinRule)
      → (res : List TargetSecretName) × (offered_by G D m active_only p ≡ some res)
        × ((r : TargetSecretName) → Memᴰ r res ↔ IsOfferedBy D r2 active_only p r)
  unfolding offered_by
  offered_by_iff p =
      let (ids, e, members) = fetch_role_from_start_iff G r1 r2 r3 m object p.v1 built in
      (
        chosen D r2 active_only p ids members,
        rw (e, offered_by) refl,
        Memᴰ-chosen D r2 active_only p ids members,
      )

  offered_by_all_iff :
      (ps : List CasbinRule)
      → (res : List TargetSecretName) × (offered_by_all G D m active_only ps ≡ some res)
        × ((r : TargetSecretName)
            → Memᴰ r res ↔ ((p : CasbinRule) × Memᴰ p ps × IsOfferedBy D r2 active_only p r))
  unfolding offered_by_all
  offered_by_all_iff [] = (
    [],
    refl,
    λ r. (λ k. absurd (Memᴰ.not-nil k), λ k. let (_, i, _) = k in absurd (Memᴰ.not-nil i)),
  )
  offered_by_all_iff (p ∷ ps) =
      let (first, e, one) = offered_by_iff p in
      let (rest, f, others) = offered_by_all_iff ps in
      (
        first ++ rest,
        rw (e, offered_by_all) (rw (f, offered_by_all) refl),
        λ r. (to first rest one others r, from first rest one others r),
      )
    where
      to :
          (first rest : List TargetSecretName)
          → One p first
          → Others ps rest
          → (r : TargetSecretName) → Memᴰ r (first ++ rest)
          → (q : CasbinRule) × Memᴰ q (p ∷ ps) × IsOfferedBy D r2 active_only q r
      to first rest one others r k = elim ((Memᴰ-append r first rest).0 k) [
        | inl now ↦ (p, Memᴰ.head refl, (one r).0 now)
        | inr later ↦ let (q, i, o) = (others r).0 later in (q, Memᴰ.tail i, o)
      ]

      from :
          (first rest : List TargetSecretName)
          → One p first
          → Others ps rest
          → (r : TargetSecretName)
          → (q : CasbinRule) × Memᴰ q (p ∷ ps) × IsOfferedBy D r2 active_only q r
          → Memᴰ r (first ++ rest)
      from first rest one others r (q, i, o) = elim (Memᴰ.cases_cons i) [
        | inl same ↦
            let here_p : IsOfferedBy D r2 active_only p r = rw (← same) o in
            (Memᴰ-append r first rest).1 (inl ((one r).1 here_p))
        | inr later ↦ (Memᴰ-append r first rest).1 (inr ((others r).1 (q, later, o)))
      ]

  -- With a role manager that the grouping rows build, `list_targets_for_user` never panics, and it
  -- answers with these rows and no others: for a policy of type "p" whose subject is the user or a group
  -- that a chain of user rows connects them with, the target secrets that the object of the policy
  -- covers in the same way over the object rows, with their target and secret; and under
  -- `active_only`, only those where all three are active. The order of the rows, and how often one
  -- stands there, is not stated.
  pub list_targets_for_user_iff :
      (user : Uuid)
      → (res : List TargetSecretName) × (list_targets_for_user G D m user active_only ≡ some res)
        × ((r : TargetSecretName)
            → Memᴰ r res ↔ (
                (p : CasbinRule) × Memᴰ p D.casbin_rule
                × (text_eq p.ptype (codes "p") ≡ true)
                × Covers r1 user p.v0
                × IsOfferedBy D r2 active_only p r))
  unfolding list_targets_for_user
  list_targets_for_user_iff user =
      let rules = list_casbin_rules_by_ptype D (codes "p") in
      let (res, e, each) = offered_by_all_iff (match_sub G m rules user) in
      (
        res,
        e,
        λ r. (
          λ k.
              let (p, i, o) = (each r).0 k in
              let (j, c) = (kept_iff G m r1 r2 r3 built user rules p).0 i in
              let (among, typed) = (Memᴰ-list_casbin_rules_by_ptype D (codes "p") p).0 j in
              (p, among, typed, c, o),
          λ h.
              let (p, among, typed, c, o) = h in
              let j = (Memᴰ-list_casbin_rules_by_ptype D (codes "p") p).1 (among, typed) in
              (each r).1 (p, (kept_iff G m r1 r2 r3 built user rules p).1 (j, c), o),
        ),
      )
