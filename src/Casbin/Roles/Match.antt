-- ===== src/Casbin/Roles/Match.antt =====
-- What `match_role`, `fetch_role_from_start` and `RoleManage::new` compute, in terms of the grouping
-- rows alone.
use rustion.Prelude.{
  ℕ, ◌≡◌, ◌↔◌, ◌∙◌, ap, inl, inr, true, some, ok, bind-eq-ok, List, [], Memᴰ, arith, ◌==◌, ==_iff,
  ==_self, any, any_sound, any_complete, Option-cases,
}
use mathlib.Core.List.Memᴰ
use rustion.Prelude.Map.{HashMap, get}
use rustion.Casbin.Rules.{Uuid, CasbinRuleGroup, GroupType, subject, object, action, RuleGroup}
use rustion.Casbin.Graph.{DiGraph, Reach, here, step}
use rustion.Casbin.Roles.{
  Grouping, RoleManage, build_graph, new_manage, get_group, match_in, match_role,
}
use rustion.Casbin.Roles.Index.{
  RuleEdge, Touches, OrRules, IsLinked, IsIndex-injective, IsIndex-present, build_graph-IsLinked,
  IsLinked-map,
}

-- The rows of one type.
abbrev pub rows :
    GroupType
    → List CasbinRuleGroup
    → List CasbinRuleGroup
    → List CasbinRuleGroup
    → List CasbinRuleGroup
rows subject r1 r2 r3 = r1
rows object r1 r2 r3 = r2
rows action r1 r2 r3 = r3

-- `start` stands in a row, and a chain of rows leads from it up to `req`.
abbrev pub IsMember : List CasbinRuleGroup → Uuid → Uuid → Type 0
IsMember rules start req = Touches (RuleEdge rules) start × Reach (RuleEdge rules) start req

module _ (G : DiGraph RuleGroup) where
  open G use {Graph, new, node_weight, neighbors, bfs}

  IsLinked-new : IsLinked G (λ _ _. ⊥) ([], new)
  unfolding get
  IsLinked-new = record {
    index = record {
      weight = λ a i p. absurd (cc);
      to_edge = λ i j m. absurd (Memᴰ.not-nil (rw G.neighbors-new at m));
      from_edge = λ a b e. absurd e;
    };
    known = λ a i p. absurd (cc);
  }

  pub build_graph-RuleEdge :
      (rules : List CasbinRuleGroup) (s : Grouping G)
      → build_graph G rules ([], new) ≡ ok s
      → IsLinked G (RuleEdge rules) s
  build_graph-RuleEdge rules s h =
      IsLinked-map G (λ a b. (drop_none, inr))
        (build_graph-IsLinked G rules ([], new) s IsLinked-new h)
    where
      drop_none : {a b : Uuid} → OrRules G (λ _ _. ⊥) rules a b → RuleEdge rules a b
      drop_none (inl e) = absurd e
      drop_none (inr e) = e

  module _ {E : Uuid → Uuid → Type 0} (hm : HashMap ℕ) (g : Graph) (x : IsLinked G E (hm, g)) where
    abbrev pub Near : ℕ → ℕ → Type 0
    Near i j = Memᴰ j (neighbors g i)

    pub Reach-rows :
        (a i : ℕ) {k : ℕ}
        → get a hm ≡ some i
        → Reach Near i k
        → (b : Uuid) × (get b hm ≡ some k) × Reach E a b
    Reach-rows a i p here = (a, p, here)
    Reach-rows a i p (step w e) =
        let (b, q, r) = Reach-rows a i p w in
        let (c, d, pc, pd, edge) = x.index.to_edge _ _ e in
        let same : b ≡ c = IsIndex-injective G x.index b c _ q pc in (d, pd, step r (rw same edge))

    pub Reach-nodes :
        (a i : ℕ) {b : Uuid}
        → get a hm ≡ some i
        → Reach E a b
        → (k : ℕ) × (get b hm ≡ some k) × Reach Near i k
    Reach-nodes a i p here = (i, p, here)
    Reach-nodes a i p (step w e) =
        let (k, q, r) = Reach-nodes a i p w in
        let (k', l, pk, pl, m) = x.index.from_edge _ _ e in
        let same : k ≡ k' = cc in (l, pl, step r (rw same m))

    pub touched : (a : Uuid) → Touches E a → (i : ℕ) × (get a hm ≡ some i)
    touched a (b, inl e) = let (i, j, p, q, m) = x.index.from_edge a b e in (i, p)
    touched a (b, inr e) = let (i, j, p, q, m) = x.index.from_edge b a e in (j, q)

    pub visited : (a i k : ℕ) → get a hm ≡ some i → Memᴰ k (bfs g i) ↔ Reach Near i k
    visited a i k p = G.bfs-reach g i k (IsIndex-present G x.index a i p)

    match_in_sound :
        (start req : Uuid)
        → match_in G (hm, g) start req ≡ true
        → Touches E start × Reach E start req
    unfolding match_in
    match_in_sound start req h = elim (Option-cases (get start hm)) [
      | inl e ↦ absurd (ground arith)
      | inr (i, p) ↦ elim (Option-cases (get req hm)) [
        | inl e ↦ absurd (ground arith)
        | inr (k, q) ↦
            let (n, m, t) = any_sound (λ n. n == k) (bfs g i) (ground arith) in
            let n_is_k : n ≡ k = (==_iff n k).0 t in
            let (b, pb, r) = Reach-rows start i p ((visited start i n p).0 m) in
            let same : b ≡ req =
              IsIndex-injective G x.index b req k (pb ∙ ap (λ z. some z) n_is_k) q in
            (x.known start i p, rw (← same) r)
      ]
    ]

    match_in_complete :
        (start req : Uuid)
        → Touches E start
        → Reach E start req
        → match_in G (hm, g) start req ≡ true
    unfolding match_in
    match_in_complete start req t r =
        let (i, p) = touched start t in
        let (k, q, w) = Reach-nodes start i p r in
        let found : any (λ n. n == k) (bfs g i) ≡ true =
          any_complete (λ n. n == k) (bfs g i) ((visited start i k p).1 w) (==_self k) in
        rw (p, match_in) (rw (q, match_in) found)

  -- The groupings of a manager that `new_manage` built.
  pub new_manage-IsLinked :
      (r1 r2 r3 : List CasbinRuleGroup) (m : RoleManage G) (t : GroupType)
      → new_manage G r1 r2 r3 ≡ ok m
      → IsLinked G (RuleEdge (rows t r1 r2 r3)) (get_group G m t)
  unfolding new_manage get_group
  new_manage-IsLinked r1 r2 r3 m t h =
      let (a, ea, ha) = bind-eq-ok (build_graph G r1 ([], new)) _ h in
      let (b, eb, hb) = bind-eq-ok (build_graph G r2 ([], new)) _ ha in
      let (c, ec, hc) = bind-eq-ok (build_graph G r3 ([], new)) _ hb in
      let made : (a ≡ m.s1) × (b ≡ m.s2) × (c ≡ m.s3) = (cc, cc, cc) in
      linked t (rw (← made.0) (build_graph-RuleEdge r1 a ea))
        (rw (← made.1) (build_graph-RuleEdge r2 b eb))
        (rw (← made.2) (build_graph-RuleEdge r3 c ec))
    where
      linked :
          (t : GroupType)
          → IsLinked G (RuleEdge r1) m.s1
          → IsLinked G (RuleEdge r2) m.s2
          → IsLinked G (RuleEdge r3) m.s3
          → IsLinked G (RuleEdge (rows t r1 r2 r3)) (get_group G m t)
      linked subject x y z = x
      linked object x y z = y
      linked action x y z = z

  -- For a role manager built from the grouping rows, `match_role` answers yes exactly when the
  -- start stands in some row of that type and a chain of rows, of any length, leads from it to the
  -- requested id.
  pub match_role_iff :
      (r1 r2 r3 : List CasbinRuleGroup) (m : RoleManage G) (t : GroupType) (start req : Uuid)
      → new_manage G r1 r2 r3 ≡ ok m
      → (match_role G m start req t ≡ true) ↔ IsMember (rows t r1 r2 r3) start req
  unfolding match_role
  match_role_iff r1 r2 r3 m t start req h =
      let x = new_manage-IsLinked r1 r2 r3 m t h in
      (match_in_sound _ _ x start req, λ c. match_in_complete _ _ x start req c.0 c.1)
