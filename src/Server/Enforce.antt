-- ===== src/Server/Enforce.antt =====
-- `enforce` of src/server/bastion_server.rs: the decision whether a subject may act on an object.
pub mod Covered
pub mod Sound
pub mod Tests
use rustion.Prelude.{
  ℕ, Bool, true, false, not, ◌||◌, ◌==◌, Result, ok, err, ◌>>=◌, List, [], ◌∷◌, if◌then◌else◌,
}
use rustion.Prelude.Text.{Text, codes}
use rustion.Casbin.Rules.{Uuid, CasbinRule, Error, GroupType, object, action, RuleGroup}
use rustion.Casbin.Graph.{DiGraph}
use rustion.Casbin.Roles.{RoleManage, match_role, match_sub}
use rustion.Casbin.Policy.{IpLib, TimeLib, ExtendPolicyReq, Clocks, verify_extend_policy}

-- The queries of the database that `enforce` makes, with their answers while it runs.
pub record Queries : Type 0 where
  pub list_casbin_rules_by_ptype : Text → Result Error (List CasbinRule)
  pub check_object_active : Uuid → Result Error Bool

module _ (G : DiGraph RuleGroup) (I : IpLib) (C : TimeLib) where
  -- `parsed_at p` is the clock when the extension of the policy `p` is parsed.
  module _ (db : Queries) (role_manager : RoleManage G) (parsed_at : CasbinRule → Clocks) where
    open db use {list_casbin_rules_by_ptype, check_object_active}

    -- The body of the loop: true is `return Ok(true)`, false goes on to the next policy.
    pub try_policy : Uuid → Uuid → ExtendPolicyReq I C → CasbinRule → Result Error Bool
    try_policy obj act ext pol =
        if pol.v1 == obj || match_role G role_manager pol.v1 obj object
        then (do
          active ← check_object_active obj
          if not active
              then ok false
              else if pol.v2 == act || match_role G role_manager pol.v2 act action
              then verify_extend_policy I C (parsed_at pol) ext pol.v3
              else ok false)
        else ok false

    pub try_policies : Uuid → Uuid → ExtendPolicyReq I C → List CasbinRule → Result Error Bool
    try_policies obj act ext [] = ok false
    try_policies obj act ext (pol ∷ rest) =
        let later = try_policies obj act ext rest in
        try_policy obj act ext pol >>= λ granted. if granted then ok true else later

    pub enforce : Uuid → Uuid → Uuid → ExtendPolicyReq I C → Result Error Bool
    enforce sub obj act ext = do
      policies ← list_casbin_rules_by_ptype (codes "p")
      try_policies obj act ext (match_sub G role_manager policies sub)
