-- ===== src/Server/Offered.antt =====
-- `list_targets_for_user` of src/server/bastion_server.rs: the target secrets that a user is offered,
-- over the role manager and the tables of the database. None is a panic of the role manager; queries
-- that fail are left out.
pub mod Exact
pub mod Granted
mod Tests
use rustion.Prelude.{Bool, Option, none, some, List, [], ◌∷◌, ◌++◌}
use rustion.Prelude.Text.{codes}
use rustion.Casbin.Rules.{Uuid, CasbinRule, object, RuleGroup}
use rustion.Casbin.Graph.{DiGraph}
use rustion.Casbin.Roles.{RoleManage, match_sub, fetch_role_from_start}
use rustion.App.World.{TargetSecretName}
use rustion.Database.Tables.{Tables, list_casbin_rules_by_ptype, list_targets_by_ids}

-- `if ts.is_empty()`, the object itself in place of the members of the group.
abbrev pub or_itself : List TargetSecretName → List TargetSecretName → List TargetSecretName
or_itself [] t = t
or_itself (r ∷ ts) t = r ∷ ts

module _ (G : DiGraph RuleGroup) (D : Tables) (m : RoleManage G) where
  -- The body of the loop.
  unfoldable pub offered_by : Bool → CasbinRule → Option (List TargetSecretName)
  offered_by active_only pol = elim (fetch_role_from_start G m pol.v1 object) [
    | none ↦ none
    | some role_ids ↦ some (
        or_itself (list_targets_by_ids D role_ids pol.id active_only)
          (list_targets_by_ids D (pol.v1 ∷ []) pol.id active_only))
  ]

  unfoldable pub offered_by_all : Bool → List CasbinRule → Option (List TargetSecretName)
  unfolding offered_by
  offered_by_all active_only [] = some []
  offered_by_all active_only (pol ∷ policies) = elim (offered_by active_only pol) [
    | none ↦ none
    | some first ↦ elim (offered_by_all active_only policies) [
      | none ↦ none
      | some rest ↦ some (first ++ rest)
    ]
  ]

  unfoldable pub list_targets_for_user : Uuid → Bool → Option (List TargetSecretName)
  unfolding offered_by_all
  list_targets_for_user user_id active_only =
      offered_by_all active_only (match_sub G m (list_casbin_rules_by_ptype D (codes "p")) user_id)
