-- ===== src/Casbin/Roles/Fetch.antt =====
-- When `RoleManage::new` succeeds, and what `fetch_role_from_start` returns.
use rustion.Prelude.{
  ℕ, ◌≡◌, ◌↔◌, refl, sym, ap, ◌∙◌, inl, inr, Option, none, some, ok, err, bind-eq-ok, bind-eq-err,
  ◌>>=◌, List, [], ◌∷◌, Memᴰ, arith, All, Option-cases,
}
use mathlib.Core.List.Memᴰ
use rustion.Prelude.Text.{Text}
use rustion.Prelude.Map.{HashMap, get}
use rustion.Casbin.Rules.{
  Uuid, CasbinRuleGroup, Error, invalid_rule_group, GroupType, RuleGroup, fetch_role,
  rule_group_from_v0, rule_group_from_v1, IsLabelled, IsOne, of_labels, Label,
}
use rustion.Casbin.Graph.{DiGraph, Reach}
use rustion.Casbin.Roles.{
  Grouping, RoleManage, build_graph, new_manage, get_group, weights, fetch_role_from_start, link,
}
use rustion.Casbin.Roles.Index.{IsLinked, IsIndex-injective}
use rustion.Casbin.Roles.Match.{
  IsMember, rows, Reach-rows, Reach-nodes, touched, visited, new_manage-IsLinked,
}

of_labels-ok : (a b : Option Text) → IsOne a b → (l : Label) × (of_labels a b ≡ ok l)
of_labels-ok (some s) none h = (Label.object s, refl)
of_labels-ok none (some s) h = (Label.group s, refl)
of_labels-ok (some _) (some _) h = absurd h
of_labels-ok none none h = absurd h

ok-of_labels : (a b : Option Text) (l : Label) → of_labels a b ≡ ok l → IsOne a b
ok-of_labels (some s) none l h = tt
ok-of_labels none (some s) l h = tt
ok-of_labels (some _) (some _) l h = cc
ok-of_labels none none l h = cc

IsLabelled-ok :
    (r : CasbinRuleGroup)
    → IsLabelled r
    → (a b : RuleGroup) × (rule_group_from_v0 r ≡ ok a) × (rule_group_from_v1 r ≡ ok b)
unfolding rule_group_from_v0 rule_group_from_v1
IsLabelled-ok r x =
    let (l, p) = of_labels-ok _ _ x.left in
    let (k, q) = of_labels-ok _ _ x.right in
    (
      RuleGroup.v0 (record { id = r.id; v = r.v0; label = l }),
      RuleGroup.v1 (record { id = r.id; v = r.v1; label = k }),
      ap (λ z. z >>= λ y. ok (RuleGroup.v0 (record { id = r.id; v = r.v0; label = y }))) p,
      ap (λ z. z >>= λ y. ok (RuleGroup.v1 (record { id = r.id; v = r.v1; label = y }))) q,
    )

ok-IsLabelled :
    (r : CasbinRuleGroup) (a b : RuleGroup)
    → rule_group_from_v0 r ≡ ok a
    → rule_group_from_v1 r ≡ ok b
    → IsLabelled r
unfolding rule_group_from_v0 rule_group_from_v1
ok-IsLabelled r a b p q =
    let (l, e, _) = bind-eq-ok (of_labels r.v0_object_label r.v0_group_label) _ p in
    let (k, f, _) = bind-eq-ok (of_labels r.v1_object_label r.v1_group_label) _ q in
    record { left = ok-of_labels _ _ l e; right = ok-of_labels _ _ k f }

from_v0-err :
    (r : CasbinRuleGroup) (e : Error) → rule_group_from_v0 r ≡ err e → e ≡ invalid_rule_group
unfolding rule_group_from_v0
from_v0-err r e h = ground arith

from_v1-err :
    (r : CasbinRuleGroup) (e : Error) → rule_group_from_v1 r ≡ err e → e ≡ invalid_rule_group
unfolding rule_group_from_v1
from_v1-err r e h = ground arith

module _ (G : DiGraph RuleGroup) where
  open G use {Graph, new, node_weight, bfs}

  build_graph_total :
      (rules : List CasbinRuleGroup) (s : Grouping G)
      → All IsLabelled rules
      → (t : Grouping G) × (build_graph G rules s ≡ ok t)
  unfolding build_graph
  build_graph_total [] s h = (s, refl)
  build_graph_total (r ∷ rules) s h =
      let (a, b, p, q) = IsLabelled-ok r h.0 in
      let (t, e) = build_graph_total rules (link G r a b s) h.1 in
      (t, rw (p, build_graph) (rw (q, build_graph) e))

  build_graph-All :
      (rules : List CasbinRuleGroup) (s t : Grouping G)
      → build_graph G rules s ≡ ok t
      → All IsLabelled rules
  unfolding build_graph
  build_graph-All [] s t h = tt
  build_graph-All (r ∷ rules) s t h =
      let (a, p, h0) = bind-eq-ok (rule_group_from_v0 r) _ h in
      let (b, q, h1) = bind-eq-ok (rule_group_from_v1 r) _ h0 in
      (ok-IsLabelled r a b p q, build_graph-All rules (link G r a b s) t h1)

  build_graph-err :
      (rules : List CasbinRuleGroup) (s : Grouping G) (e : Error)
      → build_graph G rules s ≡ err e
      → e ≡ invalid_rule_group
  unfolding build_graph
  build_graph-err [] s e h = cc
  build_graph-err (r ∷ rules) s e h = elim (bind-eq-err (rule_group_from_v0 r) _ h) [
    | inl p ↦ from_v0-err r e p
    | inr (a, _, h1) ↦ elim (bind-eq-err (rule_group_from_v1 r) _ h1) [
      | inl q ↦ from_v1-err r e q
      | inr (b, _, h2) ↦ build_graph-err rules (link G r a b s) e h2
    ]
  ]

  -- `RoleManage::new` returns a manager exactly when every row has one label on each side, and
  -- otherwise it fails with `InvalidRuleGroup`.
  pub new_manage_iff :
      (r1 r2 r3 : List CasbinRuleGroup)
      → (((m : RoleManage G) × (new_manage G r1 r2 r3 ≡ ok m))
          ↔ (All IsLabelled r1 × All IsLabelled r2 × All IsLabelled r3))
        × ((e : Error) → new_manage G r1 r2 r3 ≡ err e → e ≡ invalid_rule_group)
  unfolding new_manage
  new_manage_iff r1 r2 r3 = ((labelled, made), failed)
    where
      labelled :
          (m : RoleManage G) × (new_manage G r1 r2 r3 ≡ ok m)
          → All IsLabelled r1 × All IsLabelled r2 × All IsLabelled r3
      labelled (m, h) =
          let (a, p, h1) = bind-eq-ok (build_graph G r1 ([], new)) _ h in
          let (b, q, h2) = bind-eq-ok (build_graph G r2 ([], new)) _ h1 in
          let (c, r, h3) = bind-eq-ok (build_graph G r3 ([], new)) _ h2 in
          (build_graph-All r1 _ a p, build_graph-All r2 _ b q, build_graph-All r3 _ c r)

      made :
          All IsLabelled r1 × All IsLabelled r2 × All IsLabelled r3
          → (m : RoleManage G) × (new_manage G r1 r2 r3 ≡ ok m)
      made (x, y, z) =
          let (a, p) = build_graph_total r1 ([], new) x in
          let (b, q) = build_graph_total r2 ([], new) y in
          let (c, r) = build_graph_total r3 ([], new) z in
          (record { s1 = a; s2 = b; s3 = c }, rw (p, new_manage) (rw (q, new_manage) (rw r)))

      failed : (e : Error) → new_manage G r1 r2 r3 ≡ err e → e ≡ invalid_rule_group
      failed e h = elim (bind-eq-err (build_graph G r1 ([], new)) _ h) [
        | inl p ↦ build_graph-err r1 _ e p
        | inr (a, _, h1) ↦ elim (bind-eq-err (build_graph G r2 ([], new)) _ h1) [
          | inl q ↦ build_graph-err r2 _ e q
          | inr (b, _, h2) ↦ elim (bind-eq-err (build_graph G r3 ([], new)) _ h2) [
            | inl r ↦ build_graph-err r3 _ e r
            | inr (c, _, h3) ↦ cc
          ]
        ]
      ]

  module _ {E : Uuid → Uuid → Type 0} (hm : HashMap ℕ) (g : Graph) (x : IsLinked G E (hm, g)) where
    -- The weights of nodes that stand for ids are those ids, and none is missing.
    weights_total :
        (ns : List ℕ)
        → All (λ n. (a : Uuid) × (get a hm ≡ some n)) ns
        → (ids : List Uuid) × (weights G g ns ≡ some ids)
          × ((a : Uuid) → Memᴰ a ids ↔ ((n : ℕ) × Memᴰ n ns × (get a hm ≡ some n)))
    unfolding weights
    weights_total [] h =
        ([], refl, λ a. (λ m. absurd (Memᴰ.not-nil m), λ c. absurd (Memᴰ.not-nil c.1)))
    weights_total (n ∷ ns) ((a, p), h) =
        let (w, e, f) = x.index.weight a n p in
        let (ids, q, mem) = weights_total ns h in
        (fetch_role w ∷ ids, rw (e, weights) (rw q), λ b. (to w f ids mem b, from w f ids mem b))
      where
        to :
            (w : RuleGroup)
            → fetch_role w ≡ a
            → (ids : List Uuid)
            → ((b : Uuid) → Memᴰ b ids ↔ ((k : ℕ) × Memᴰ k ns × (get b hm ≡ some k)))
            → (b : Uuid) → Memᴰ b (fetch_role w ∷ ids)
            → (k : ℕ) × Memᴰ k (n ∷ ns) × (get b hm ≡ some k)
        to w f ids mem b m = elim (Memᴰ.cases_cons m) [
          | inl same ↦ (n, Memᴰ.head refl, rw (same ∙ f) p)
          | inr later ↦ let (k, i, q) = (mem b).0 later in (k, Memᴰ.tail i, q)
        ]

        from :
            (w : RuleGroup)
            → fetch_role w ≡ a
            → (ids : List Uuid)
            → ((b : Uuid) → Memᴰ b ids ↔ ((k : ℕ) × Memᴰ k ns × (get b hm ≡ some k)))
            → (b : Uuid) → (k : ℕ) × Memᴰ k (n ∷ ns) × (get b hm ≡ some k)
            → Memᴰ b (fetch_role w ∷ ids)
        from w f ids mem b (k, m, q) = elim (Memᴰ.cases_cons m) [
          | inl same ↦
              let here_a = IsIndex-injective G x.index b a n (q ∙ ap (λ z. some z) same) p in
              Memᴰ.head (here_a ∙ sym f)
          | inr later ↦ Memᴰ.tail ((mem b).1 (k, later, q))
        ]

    All-of_mem :
        (ns : List ℕ)
        → ((n : ℕ) → Memᴰ n ns → (a : Uuid) × (get a hm ≡ some n))
        → All (λ n. (a : Uuid) × (get a hm ≡ some n)) ns
    All-of_mem [] h = tt
    All-of_mem (n ∷ ns) h = (h n (Memᴰ.head refl), All-of_mem ns (λ k m. h k (Memᴰ.tail m)))

    weights-bfs :
        (start i : ℕ)
        → get start hm ≡ some i
        → (ids : List Uuid) × (weights G g (bfs g i) ≡ some ids)
          × ((a : Uuid) → Memᴰ a ids ↔ Reach E start a)
    weights-bfs start i p =
        let stand = λ (n : ℕ) (m : Memᴰ n (bfs g i)).
          let (b, q, _) = Reach-rows G hm g x start i p ((visited G hm g x start i n p).0 m) in
          let r : (a : Uuid) × (get a hm ≡ some n) = (b, q) in r in
        let (ids, q, mem) = weights_total (bfs g i) (All-of_mem (bfs g i) stand) in
        (ids, q, λ a. (λ m. to a ((mem a).0 m), λ r. (mem a).1 (from a r)))
      where
        to : (a : Uuid) → (n : ℕ) × Memᴰ n (bfs g i) × (get a hm ≡ some n) → Reach E start a
        to a (n, m, q) =
            let (b, r, w) = Reach-rows G hm g x start i p ((visited G hm g x start i n p).0 m) in
            let same : b ≡ a = IsIndex-injective G x.index b a n r q in rw (← same) w

        from : (a : Uuid) → Reach E start a → (n : ℕ) × Memᴰ n (bfs g i) × (get a hm ≡ some n)
        from a r =
            let (k, q, w) = Reach-nodes G hm g x start i p r in
            (k, (visited G hm g x start i k p).1 w, q)

  -- For a role manager built from the grouping rows, `fetch_role_from_start` never panics, and it
  -- returns exactly the ids that a chain of rows of that type leads to from a start in some row;
  -- for any other start it returns none.
  pub fetch_role_from_start_iff :
      (r1 r2 r3 : List CasbinRuleGroup) (m : RoleManage G) (t : GroupType) (start : Uuid)
      → new_manage G r1 r2 r3 ≡ ok m
      → (ids : List Uuid) × (fetch_role_from_start G m start t ≡ some ids)
        × ((a : Uuid) → Memᴰ a ids ↔ IsMember (rows t r1 r2 r3) start a)
  unfolding fetch_role_from_start
  fetch_role_from_start_iff r1 r2 r3 m t start h =
      let x = new_manage-IsLinked G r1 r2 r3 m t h in
      let (hm, g) = get_group G m t in
      elim (Option-cases (get start hm)) [
        | inl e ↦ (
          [],
          rw (e, fetch_role_from_start) refl,
          λ a. (
            λ c. absurd (Memᴰ.not-nil c),
            λ c. let (i, p) = touched G _ _ x start c.0 in absurd (cc),
          ),
        )
        | inr (i, p) ↦
            let (ids, q, mem) = weights-bfs _ _ x start i p in
            (
              ids,
              rw (p, fetch_role_from_start) q,
              λ a. (λ c. (x.known start i p, (mem a).0 c), λ c. (mem a).1 c.1),
            )
      ]
