-- ===== src/Casbin/Roles.antt =====
-- `RoleManage` and `build_graph` of src/server/casbin.rs, over any graph library with petgraph's
-- laws.
pub mod Index
pub mod Match
pub mod Fetch
pub mod Tests
use rustion.Prelude.{
  ℕ, Bool, true, false, not, Option, none, some, Result, ok, ◌>>=◌, List, [], ◌∷◌, ◌==◌, ◌||◌, any,
  keep, map,
}
use rustion.Prelude.Map.{HashMap, get, insert}
use rustion.Casbin.Rules.{
  Uuid, CasbinRule, CasbinRuleGroup, Error, GroupType, subject, object, action, RuleGroup,
  fetch_role, rule_group_from_v0, rule_group_from_v1,
}
use rustion.Casbin.Graph.{DiGraph}

module _ (G : DiGraph RuleGroup) where
  open G use {Graph, new, add_node, add_edge, node_weight, bfs}

  -- `*hm.entry(k).or_insert_with(|| g.add_node(w))`.
  pub entry : Uuid → RuleGroup → HashMap ℕ → Graph → ℕ × HashMap ℕ × Graph
  entry k w hm g = elim (get k hm) [
    | some i ↦ (i, hm, g)
    | none ↦ let (i, g') = add_node w g in (i, insert k i hm, g')
  ]

  -- One round of the loop of `build_graph`, after its two conversions.
  pub link : CasbinRuleGroup → RuleGroup → RuleGroup → HashMap ℕ × Graph → HashMap ℕ × Graph
  unfolding entry
  link r v0_rg v1_rg (hm, g) =
      let (u, hm1, g1) = entry r.v0 v0_rg hm g in
      let (v, hm2, g2) = entry r.v1 v1_rg hm1 g1 in (hm2, add_edge v u g2)

  pub build_graph : List CasbinRuleGroup → HashMap ℕ × Graph → Result Error (HashMap ℕ × Graph)
  build_graph [] s = ok s
  build_graph (r ∷ rules) s = do
    v0_rg ← rule_group_from_v0 r
    v1_rg ← rule_group_from_v1 r
    build_graph rules (link r v0_rg v1_rg s)

  -- One grouping: its index and its graph (`h1` with `g1`, and so on).
  abbrev pub Grouping : Type 0
  Grouping = HashMap ℕ × Graph

  pub record RoleManage : Type 0 where
    pub s1 : Grouping
    pub s2 : Grouping
    pub s3 : Grouping

  pub new_manage :
      List CasbinRuleGroup → List CasbinRuleGroup → List CasbinRuleGroup → Result Error RoleManage
  new_manage r1 r2 r3 = do
    a ← build_graph r1 ([], new)
    b ← build_graph r2 ([], new)
    c ← build_graph r3 ([], new)
    ok (record { s1 = a; s2 = b; s3 = c })

  pub get_group : RoleManage → GroupType → Grouping
  get_group m subject = m.s1
  get_group m object = m.s2
  get_group m action = m.s3

  -- The arm that `match_role` repeats for each type of group.
  match_in : Grouping → Uuid → Uuid → Bool
  match_in (h, g) start req = elim (get start h) [
    | none ↦ false
    | some s ↦ elim (get req h) [ none ↦ false | some node ↦ any (λ n. n == node) (bfs g s) ]
  ]

  pub match_role : RoleManage → Uuid → Uuid → GroupType → Bool
  unfolding get_group match_in
  match_role m start req rt = match_in (get_group m rt) start req

  unfoldable pub match_sub : RoleManage → List CasbinRule → Uuid → List CasbinRule
  match_sub m policies sub = keep (λ p. p.v0 == sub || match_role m sub p.v0 subject) policies

  -- `expect`: none is the panic on a node without weight.
  weights : Graph → List ℕ → Option (List Uuid)
  weights g [] = some []
  weights g (n ∷ ns) = elim (node_weight g n) [
    | none ↦ none
    | some w ↦ elim (weights g ns) [ none ↦ none | some ids ↦ some (fetch_role w ∷ ids) ]
  ]

  pub fetch_role_from_start : RoleManage → Uuid → GroupType → Option (List Uuid)
  unfolding get_group weights
  fetch_role_from_start m start rt =
      let (h, g) = get_group m rt in
      elim (get start h) [ none ↦ some [] | some s ↦ weights g (bfs g s) ]
