-- ===== src/Casbin/Roles/Tests.antt =====
-- One membership of each type on the concrete graph, and the theorems about roles at it.
use rustion.Prelude.{◌≡◌, ◌↔◌, true, none, some, ok, err, List, [], ◌∷◌, Memᴰ, All}
use rustion.Prelude.Text.{codes}
use rustion.Casbin.Rules.{
  Uuid, CasbinRuleGroup, Error, invalid_rule_group, subject, RuleGroup, IsLabelled,
}
use rustion.Casbin.Graph.{DiGraph}
use rustion.Casbin.Graph.EdgeList.{edge_list}
use rustion.Casbin.Roles.{RoleManage, new_manage, match_role, fetch_role_from_start}
use rustion.Casbin.Roles.Match.{IsMember, rows, match_role_iff}
use rustion.Casbin.Roles.Fetch.{new_manage_iff, fetch_role_from_start_iff}

abbrev pub sample_graph : DiGraph RuleGroup
sample_graph = edge_list RuleGroup

-- `member` belongs to `group`; the label of the member is an object's.
abbrev pub row : Uuid → Uuid → CasbinRuleGroup
row member group = record {
  id = 0;
  v0 = group;
  v0_object_label = none;
  v0_group_label = some (codes "group");
  v1 = member;
  v1_object_label = some (codes "member");
  v1_group_label = none;
}

abbrev pub user_rows : List CasbinRuleGroup
user_rows = row 1 10 ∷ row 10 11 ∷ []

abbrev pub object_rows : List CasbinRuleGroup
object_rows = row 20 2 ∷ []

abbrev pub action_rows : List CasbinRuleGroup
action_rows = row 30 3 ∷ []

pub manager_made :
    (m : RoleManage sample_graph) × (new_manage sample_graph user_rows object_rows action_rows
      ≡ ok m)
manager_made =
    (new_manage_iff sample_graph user_rows object_rows action_rows).0.1
      ((labelled 1 10, (labelled 10 11, tt)), (labelled 20 2, tt), (labelled 30 3, tt))
  where
    labelled : (a b : Uuid) → IsLabelled (row a b)
    labelled a b = record { left = tt; right = tt }

abbrev pub sample_manager : RoleManage sample_graph
sample_manager = manager_made.0

pub sample_manager-built :
    new_manage sample_graph user_rows object_rows action_rows ≡ ok sample_manager
sample_manager-built = manager_made.1

match_role_iff_example :
    (match_role sample_graph sample_manager 1 11 subject ≡ true)
    ↔ IsMember (rows subject user_rows object_rows action_rows) 1 11
match_role_iff_example =
    match_role_iff sample_graph user_rows object_rows action_rows sample_manager subject 1 11
      sample_manager-built

new_manage_iff_example :
    (((m : RoleManage sample_graph) × (new_manage sample_graph (row 1 10 ∷ []) [] [] ≡ ok m))
      ↔ (All IsLabelled (row 1 10 ∷ []) × All IsLabelled [] × All IsLabelled []))
    × ((e : Error) → new_manage sample_graph (row 1 10 ∷ []) [] [] ≡ err e → e ≡ invalid_rule_group)
new_manage_iff_example = new_manage_iff sample_graph (row 1 10 ∷ []) [] []

fetch_role_from_start_iff_example :
    (ids : List Uuid) × (fetch_role_from_start sample_graph sample_manager 1 subject ≡ some ids)
    × ((a : Uuid) → Memᴰ a ids ↔ IsMember (rows subject user_rows object_rows action_rows) 1 a)
fetch_role_from_start_iff_example =
    fetch_role_from_start_iff sample_graph user_rows object_rows action_rows sample_manager subject
      1 sample_manager-built
