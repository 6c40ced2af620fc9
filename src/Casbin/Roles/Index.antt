-- ===== src/Casbin/Roles/Index.antt =====
-- The invariant of `build_graph`: the index and the graph say the same as the grouping rows read
-- so far.
use rustion.Prelude.{
  ℕ, ◌≡◌, ◌≢◌, ◌↔◌, refl, sym, ap, ◌∙◌, ◌⊎◌, inl, inr, none, some, ok, bind-eq-ok, List, [], ◌∷◌,
  Memᴰ, arith, ==_iff, ==_self, Option-cases,
}
use mathlib.Core.List.Memᴰ
use rustion.Prelude.Map.{HashMap, get, insert, get-insert}
use rustion.Casbin.Rules.{
  Uuid, CasbinRuleGroup, RuleGroup, fetch_role, rule_group_from_v0, rule_group_from_v1,
}
use rustion.Casbin.Graph.{DiGraph}
use rustion.Casbin.Roles.{entry, link, build_graph, Grouping}

-- Some row makes `a` a member of `b`.
abbrev pub RuleEdge : List CasbinRuleGroup → Uuid → Uuid → Type 0
RuleEdge rules a b = (r : CasbinRuleGroup) × Memᴰ r rules × (r.v1 ≡ a) × (r.v0 ≡ b)

-- An edge at `a`, on either side.
abbrev pub Touches : (Uuid → Uuid → Type 0) → Uuid → Type 0
Touches E a = (b : Uuid) × (E a b ⊎ E b a)

pub fetch_role-from_v0 :
    (r : CasbinRuleGroup) (w : RuleGroup) → rule_group_from_v0 r ≡ ok w → fetch_role w ≡ r.v0
unfolding rule_group_from_v0 fetch_role
fetch_role-from_v0 r w h = ground arith

pub fetch_role-from_v1 :
    (r : CasbinRuleGroup) (w : RuleGroup) → rule_group_from_v1 r ≡ ok w → fetch_role w ≡ r.v1
unfolding rule_group_from_v1 fetch_role
fetch_role-from_v1 r w h = ground arith

module _ (G : DiGraph RuleGroup) where
  open G use {Graph, new, add_node, add_edge, node_weight, neighbors}

  pub record IsIndex (E : Uuid → Uuid → Type 0) (hm : HashMap ℕ) (g : Graph) : Type 0 where
    pub weight :
        (a i : ℕ)
        → get a hm ≡ some i
        → (w : RuleGroup) × (node_weight g i ≡ some w) × (fetch_role w ≡ a)
    pub to_edge :
        (i j : ℕ)
        → Memᴰ j (neighbors g i)
        → (a b : Uuid) × (get a hm ≡ some i) × (get b hm ≡ some j) × E a b
    pub from_edge :
        (a b : Uuid)
        → E a b
        → (i j : ℕ) × (get a hm ≡ some i) × (get b hm ≡ some j) × Memᴰ j (neighbors g i)

  pub IsIndex-injective :
      {E : Uuid → Uuid → Type 0} {hm : HashMap ℕ} {g : Graph} (x : IsIndex E hm g) (a b i : ℕ)
      → get a hm ≡ some i
      → get b hm ≡ some i
      → a ≡ b
  IsIndex-injective x a b i p q =
      let (w, e, f) = x.weight a i p in
      let (w', e', f') = x.weight b i q in let same : w ≡ w' = cc in cc

  pub IsIndex-present :
      {E : Uuid → Uuid → Type 0} {hm : HashMap ℕ} {g : Graph} (x : IsIndex E hm g) (a i : ℕ)
      → get a hm ≡ some i
      → node_weight g i ≢ none
  IsIndex-present x a i p n = let (w, e, f) = x.weight a i p in cc

  IsIndex-map :
      {E F : Uuid → Uuid → Type 0} {hm : HashMap ℕ} {g : Graph}
      → ((a b : Uuid) → E a b ↔ F a b)
      → IsIndex E hm g
      → IsIndex F hm g
  IsIndex-map e x = record {
    weight = x.weight;
    to_edge = λ i j m. let (a, b, p, q, h) = x.to_edge i j m in (a, b, p, q, (e a b).0 h);
    from_edge = λ a b h. x.from_edge a b ((e a b).1 h);
  }

  -- What an `entry` call leaves: the key is there, the old keys keep their nodes, and the only new
  -- key is the one asked for.
  record IsEntered (E : Uuid → Uuid → Type 0) (k : Uuid) (hm : HashMap ℕ)
      (r : ℕ × HashMap ℕ × Graph) : Type 0 where
    found : get k r.1 ≡ some r.0
    kept : (a i : ℕ) → get a hm ≡ some i → get a r.1 ≡ some i
    only : (a i : ℕ) → get a r.1 ≡ some i → (get a hm ≡ some i) ⊎ (a ≡ k)
    index : IsIndex E r.1 r.2

  module _ {E : Uuid → Uuid → Type 0} (k : Uuid) (w : RuleGroup) {hm : HashMap ℕ} {g : Graph}
      (x : IsIndex E hm g) (wk : fetch_role w ≡ k) (new_key : get k hm ≡ none) where
    fresh_kept : (a i : ℕ) → get a hm ≡ some i → get a (insert k (add_node w g).0 hm) ≡ some i
    fresh_kept a i p = rw get-insert (ground (arith, ==_iff k a))

    fresh_only :
        (a i : ℕ)
        → get a (insert k (add_node w g).0 hm) ≡ some i
        → (get a hm ≡ some i) ⊎ ((a ≡ k) × (i ≡ (add_node w g).0))
    fresh_only a i p = let q = rw get-insert at p in ground (arith, ==_iff k a)

    fresh_weight :
        (a i : ℕ)
        → get a (insert k (add_node w g).0 hm) ≡ some i
        → (v : RuleGroup) × (node_weight (add_node w g).1 i ≡ some v) × (fetch_role v ≡ a)
    fresh_weight a i p = elim (fresh_only a i p) [
      | inl old ↦
          let (v, e, f) = x.weight a i old in
          let new_i = G.add_node-fresh w g in (v, rw G.node_weight-add_node (ground arith), f)
      | inr (e, f) ↦ (w, rw G.node_weight-add_node (ground arith), wk ∙ sym e)
    ]

    fresh-IsIndex : IsIndex E (insert k (add_node w g).0 hm) (add_node w g).1
    fresh-IsIndex = record {
      weight = fresh_weight;
      to_edge = λ i j m.
          let (a, b, p, q, h) = x.to_edge i j (rw G.neighbors-add_node at m) in
          (a, b, fresh_kept a i p, fresh_kept b j q, h);
      from_edge = λ a b h.
          let (i, j, p, q, m) = x.from_edge a b h in
          (i, j, fresh_kept a i p, fresh_kept b j q, rw G.neighbors-add_node m);
    }

    fresh-IsEntered :
        IsEntered E k hm ((add_node w g).0, insert k (add_node w g).0 hm, (add_node w g).1)
    fresh-IsEntered = record {
      found = rw get-insert (ground (arith, ==_self k));
      kept = fresh_kept;
      only = λ a i p. elim (fresh_only a i p) [ inl old ↦ inl old | inr (e, _) ↦ inr e ];
      index = fresh-IsIndex;
    }

  entry-IsEntered :
      {E : Uuid → Uuid → Type 0} (k : Uuid) (w : RuleGroup) (hm : HashMap ℕ) (g : Graph)
      → IsIndex E hm g
      → fetch_role w ≡ k
      → IsEntered E k hm (entry G k w hm g)
  unfolding entry
  entry-IsEntered {E} k w hm g x wk = elim (Option-cases (get k hm)) [
    | inl e ↦ rw (e, entry) (fresh-IsEntered k w x wk e)
    | inr (i, e) ↦
        rw (e, entry) (record { found = e; kept = λ a j p. p; only = λ a j p. inl p; index = x })
  ]

  -- The new edge of a row.
  abbrev pub OrRow : (Uuid → Uuid → Type 0) → CasbinRuleGroup → Uuid → Uuid → Type 0
  OrRow E r a b = E a b ⊎ ((r.v1 ≡ a) × (r.v0 ≡ b))

  module _ {E : Uuid → Uuid → Type 0} {hm : HashMap ℕ} {g : Graph} (x : IsIndex E hm g)
      (r : CasbinRuleGroup) (u v : ℕ) (pu : get r.v0 hm ≡ some u) (pv : get r.v1 hm ≡ some v) where
    new_edge :
        (i j : ℕ)
        → Memᴰ j (neighbors (add_edge v u g) i) ↔ (Memᴰ j (neighbors g i) ⊎ ((i ≡ v) × (j ≡ u)))
    new_edge i j =
        G.neighbors-add_edge v u g i j (IsIndex-present x r.v1 v pv) (IsIndex-present x r.v0 u pu)

    add_edge-IsIndex : IsIndex (OrRow E r) hm (add_edge v u g)
    add_edge-IsIndex = record {
      weight = λ a i p.
          let (w, e, f) = x.weight a i p in
          let same =
            G.node_weight-add_edge v u g i (IsIndex-present x r.v1 v pv)
              (IsIndex-present x r.v0 u pu) in
          (w, same ∙ e, f);
      to_edge = λ i j m. elim ((new_edge i j).0 m) [
        | inl old ↦ let (a, b, p, q, h) = x.to_edge i j old in (a, b, p, q, inl h)
        | inr (ei, ej) ↦ (r.v1, r.v0, rw ei pv, rw ej pu, inr (refl, refl))
      ];
      from_edge = λ a b h. elim h [
        | inl old ↦
            let (i, j, p, q, m) = x.from_edge a b old in (i, j, p, q, (new_edge i j).1 (inl m))
        | inr (ea, eb) ↦ (v, u, rw (← ea) pv, rw (← eb) pu, (new_edge v u).1 (inr (refl, refl)))
      ];
    }

  -- The keys are those that an edge touches.
  abbrev pub IsKnown : (Uuid → Uuid → Type 0) → HashMap ℕ → Type 0
  IsKnown E hm = (a i : ℕ) → get a hm ≡ some i → Touches E a

  -- The invariant of the loop.
  pub record IsLinked (E : Uuid → Uuid → Type 0) (s : Grouping G) : Type 0 where
    pub index : IsIndex E s.0 s.1
    pub known : IsKnown E s.0

  module _ {E : Uuid → Uuid → Type 0} (r : CasbinRuleGroup) (w0 w1 : RuleGroup) (hm : HashMap ℕ)
      (g : Graph) (x : IsLinked E (hm, g)) (f0 : fetch_role w0 ≡ r.v0)
      (f1 : fetch_role w1 ≡ r.v1) where
    first : IsEntered E r.v0 hm (entry G r.v0 w0 hm g)
    first = entry-IsEntered r.v0 w0 hm g x.index f0

    second :
        IsEntered E r.v1
          (entry G r.v0 w0 hm g).1
          (entry G r.v1 w1 (entry G r.v0 w0 hm g).1 (entry G r.v0 w0 hm g).2)
    second = entry-IsEntered r.v1 w1 _ _ first.index f1

    Touches-old : (a : Uuid) → Touches E a → Touches (OrRow E r) a
    Touches-old a (b, inl e) = (b, inl (inl e))
    Touches-old a (b, inr e) = (b, inr (inl e))

    link-known :
        (a i : ℕ)
        → get a (entry G r.v1 w1 (entry G r.v0 w0 hm g).1 (entry G r.v0 w0 hm g).2).1 ≡ some i
        → Touches (OrRow E r) a
    link-known a i p = elim (second.only a i p) [
      | inl old ↦ elim (first.only a i old) [
        | inl older ↦ Touches-old a (x.known a i older)
        | inr e ↦ (r.v1, inr (inr (refl, sym e)))
      ]
      | inr e ↦ (r.v0, inl (inr (sym e, refl)))
    ]

    link-IsLinked : IsLinked (OrRow E r) (link G r w0 w1 (hm, g))
    unfolding link
    link-IsLinked = record {
      index = add_edge-IsIndex second.index r _ _ (second.kept r.v0 _ first.found) second.found;
      known = link-known;
    }

  -- The edges of the rows read before and of the rows to come.
  abbrev pub OrRules : (Uuid → Uuid → Type 0) → List CasbinRuleGroup → Uuid → Uuid → Type 0
  OrRules E rules a b = E a b ⊎ RuleEdge rules a b

  OrRules-nil : (E : Uuid → Uuid → Type 0) (a b : Uuid) → E a b ↔ OrRules E [] a b
  OrRules-nil E a b = (inl, or_nil)
    where
      or_nil : OrRules E [] a b → E a b
      or_nil (inl e) = e
      or_nil (inr (r, m, _, _)) = absurd (Memᴰ.not-nil m)

  OrRules-cons :
      (E : Uuid → Uuid → Type 0) (r : CasbinRuleGroup) (rules : List CasbinRuleGroup) (a b : Uuid)
      → OrRules (OrRow E r) rules a b ↔ OrRules E (r ∷ rules) a b
  OrRules-cons E r rules a b = (to, from)
    where
      to : OrRules (OrRow E r) rules a b → OrRules E (r ∷ rules) a b
      to (inl (inl e)) = inl e
      to (inl (inr (p, q))) = inr (r, Memᴰ.head refl, p, q)
      to (inr (r', m, p, q)) = inr (r', Memᴰ.tail m, p, q)

      from : OrRules E (r ∷ rules) a b → OrRules (OrRow E r) rules a b
      from (inl e) = inl (inl e)
      from (inr (r', m, p, q)) = elim (Memᴰ.cases_cons m) [
        | inl same ↦ inl (
            inr (
              ap (λ (c : CasbinRuleGroup). c.v1) (sym same) ∙ p,
              ap (λ (c : CasbinRuleGroup). c.v0) (sym same) ∙ q,
            ))
        | inr later ↦ inr (r', later, p, q)
      ]

  pub IsLinked-map :
      {E F : Uuid → Uuid → Type 0} {s : Grouping G}
      → ((a b : Uuid) → E a b ↔ F a b)
      → IsLinked E s
      → IsLinked F s
  IsLinked-map {E} {F} e x = record {
    index = IsIndex-map e x.index;
    known = λ a i p. touch a (x.known a i p);
  }
    where
      touch : (a : Uuid) → Touches E a → Touches F a
      touch a (b, inl h) = (b, inl ((e a b).0 h))
      touch a (b, inr h) = (b, inr ((e b a).0 h))

  pub build_graph-IsLinked :
      {E : Uuid → Uuid → Type 0} (rules : List CasbinRuleGroup) (s t : Grouping G)
      → IsLinked E s
      → build_graph G rules s ≡ ok t
      → IsLinked (OrRules E rules) t
  unfolding build_graph
  build_graph-IsLinked {E} [] s t x h =
      let same : s ≡ t = cc in rw (← same) (IsLinked-map (OrRules-nil E) x)
  build_graph-IsLinked {E} (r ∷ rules) (hm, g) t x h =
      let (w0, e0, h0) = bind-eq-ok (rule_group_from_v0 r) _ h in
      let (w1, e1, h1) = bind-eq-ok (rule_group_from_v1 r) _ h0 in
      IsLinked-map (OrRules-cons E r rules) (
        build_graph-IsLinked rules (link G r w0 w1 (hm, g)) t
          (link-IsLinked r w0 w1 hm g x (fetch_role-from_v0 r w0 e0) (fetch_role-from_v1 r w1 e1))
          h1)
