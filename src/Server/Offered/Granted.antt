-- ===== src/Server/Offered/Granted.antt =====
-- `list_targets_for_user` and `enforce` of src/server/bastion_server.rs together: who is offered a
-- target secret is granted its use.
use std.Path.{subst}
use rustion.Prelude.{◌≡◌, refl, sym, ap, inl, true, some, ok, List, Memᴰ}
use rustion.Prelude.Text.{codes, text_eq}
use rustion.Casbin.Rules.{Uuid, CasbinRule, CasbinRuleGroup, RuleGroup}
use rustion.Casbin.Graph.{DiGraph}
use rustion.Casbin.Roles.{RoleManage, new_manage}
use rustion.Casbin.Policy.{IpLib, TimeLib, ExtendPolicy, ExtendPolicyReq, Clocks, from_str}
use rustion.Casbin.Policy.Period.{Admits}
use rustion.App.World.{TargetSecretName}
use rustion.Database.Tables.{Tables, check_object_active, list_casbin_rules_by_ptype}
use rustion.Database.Joins.{HasKeys}
use rustion.Database.Objects.{check_object_active_iff, Memᴰ-list_casbin_rules_by_ptype}
use rustion.Server.Enforce.{Queries, enforce}
use rustion.Server.Enforce.Covered.{Covers}
use rustion.Server.Enforce.Sound.{enforce_iff}
use rustion.Server.Offered.{list_targets_for_user}
use rustion.Server.Offered.Exact.{IsOfferedBy, list_targets_for_user_iff}

-- The queries of `enforce`, answered from the tables.
abbrev pub queries : Tables → Queries
queries D = record {
  list_casbin_rules_by_ptype = λ t. ok (list_casbin_rules_by_ptype D t);
  check_object_active = λ id. ok (check_object_active D id);
}

module _ (G : DiGraph RuleGroup) (I : IpLib) (C : TimeLib) (r1 r2 r3 : List CasbinRuleGroup)
    (m : RoleManage G) (built : new_manage G r1 r2 r3 ≡ ok m) (D : Tables)
    (parsed_at : CasbinRule → Clocks) where
  -- The extension of a policy parses.
  abbrev pub Parses : CasbinRule → ExtendPolicy I C → Type 0
  Parses pol ext = from_str I C (parsed_at pol) pol.v3 ≡ ok ext

  -- The policy allows the action, and its extension admits the request.
  abbrev pub IsFor : Uuid → ExtendPolicyReq I C → CasbinRule → Type 0
  IsFor act req pol =
      Covers r3 pol.v2 act × (ext : ExtendPolicy I C) × Parses pol ext × Admits I C req ext

  -- Every policy of type "p" has an extension that parses.
  abbrev pub Parse : Type 0
  Parse =
      (pol : CasbinRule)
      → Memᴰ pol (list_casbin_rules_by_ptype D (codes "p"))
      → (ext : ExtendPolicy I C) × Parses pol ext

  permitted :
      (user act : Uuid) (req : ExtendPolicyReq I C) (id : Uuid) (p : CasbinRule)
      → Parse
      → Memᴰ p D.casbin_rule
      → text_eq p.ptype (codes "p") ≡ true
      → Covers r1 user p.v0
      → Covers r2 p.v1 id
      → IsFor act req p
      → check_object_active D id ≡ true
      → enforce G I C (queries D) m parsed_at user id act req ≡ ok true
  permitted user act req id p parse among typed s o (a, ext, parsed, admitted) live =
      let policies = list_casbin_rules_by_ptype D (codes "p") in
      (enforce_iff G I C (queries D) m parsed_at r1 r2 r3 built user id act req policies refl
          (record { active = (check_object_active D id, refl); parses = parse })).1.1
        (
          p,
          (Memᴰ-list_casbin_rules_by_ptype D (codes "p") p).1 (among, typed),
          record {
            subject_covered = s;
            object_covered = o;
            object_active = ap (λ b. ok b) live;
            action_covered = a;
            admits = (ext, parsed, admitted);
          },
        )

  -- A target secret that a user is offered under `active_only` is an active object, and `enforce`
  -- grants the user every action on it that the offering policy covers, when the policy's extension
  -- admits the request. Both read the same tables, with primary keys, and the same role manager, that
  -- the grouping rows build; the policies of type "p" all have an extension that parses; the offering
  -- policies are those with the id that the row shows.
  pub list_targets_for_user-enforce :
      (user act : Uuid) (req : ExtendPolicyReq I C) (res : List TargetSecretName)
      (r : TargetSecretName)
      → HasKeys D
      → list_targets_for_user G D m user true ≡ some res
      → Memᴰ r res
      → Parse
      → ((pol : CasbinRule) → Memᴰ pol D.casbin_rule → pol.id ≡ r.pid → IsFor act req pol)
      → (check_object_active D r.id ≡ true)
        × (enforce G I C (queries D) m parsed_at user r.id act req ≡ ok true)
  list_targets_for_user-enforce user act req res r keys listed i parse offering =
      let (res', listed', each) = list_targets_for_user_iff G r1 r2 r3 m built D true user in
      let same_list : res ≡ res' = cc in given ((each r).0 (subst (λ xs. Memᴰ r xs) same_list i))
    where
      given :
          ((p : CasbinRule) × Memᴰ p D.casbin_rule
            × (text_eq p.ptype (codes "p") ≡ true)
            × Covers r1 user p.v0
            × IsOfferedBy D r2 true p r)
          → (check_object_active D r.id ≡ true)
            × (enforce G I C (queries D) m parsed_at user r.id act req ≡ ok true)
      given (p, among, typed, c, (ts, t, s, j, o, active, row)) =
          let shown : r.id ≡ ts.id = ap (λ x. x.id) row in
          let live =
            (check_object_active_iff D r.id keys).1 (inl (ts, t, s, j, active, sym shown)) in
          (
            live,
            permitted user act req r.id p parse among typed c (rw shown o)
                (offering p among (sym (ap (λ x. x.pid) row))) live,
          )
