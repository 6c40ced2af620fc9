-- ===== src/Casbin/Graph/EdgeList.antt =====
-- A graph by its lists of weights and edges, which meets the laws of `DiGraph`: the concrete graph
-- that examples run on.
use rustion.Prelude.{
  ℕ, zero, suc, ◌≡◌, ◌↔◌, refl, sym, ◌⊎◌, inl, inr, Bool, true, ◌&&◌, ◌||◌, none, some, List, [],
  ◌∷◌, ◌++◌, map, Memᴰ, arith, ◌==◌, ==_iff, ==_self, if◌then◌else◌, length, get_elem?, keep,
  keep_sound, keep_complete, Bool-cases,
}
use mathlib.Core.List.Memᴰ
use rustion.Casbin.Graph.{DiGraph, Reach, here, step}

abbrev pub Edges : Type 0
Edges = List (ℕ × ℕ)

pub targets : Edges → ℕ → List ℕ
targets [] i = []
targets ((a, b) ∷ es) i = let rest = targets es i in if a == i then b ∷ rest else rest

-- Reachability, an edge at a time.
reaches : Edges → ℕ → ℕ → Bool
reaches [] s t = s == t
reaches ((a, b) ∷ es) s t = reaches es s t || (reaches es s a && reaches es b t)

abbrev pub Near : Edges → ℕ → ℕ → Type 0
Near es a b = Memᴰ b (targets es a)

pub Near-cons :
    (a b : ℕ) (es : Edges) (i j : ℕ) → Near ((a, b) ∷ es) i j ↔ (Near es i j ⊎ ((i ≡ a) × (j ≡ b)))
unfolding targets
Near-cons a b es i j = elim (Bool-cases (a == i)) [
  | inl e ↦ rw (e, targets) ((λ m. first ((==_iff a i).0 e) (Memᴰ.cases_cons m)), back)
  | inr e ↦ rw (e, targets) (inl, other (λ p. absurd (ground arith)))
]
  where
    first : a ≡ i → (j ≡ b) ⊎ Near es i j → Near es i j ⊎ ((i ≡ a) × (j ≡ b))
    first p (inl q) = inr (sym p, q)
    first p (inr m) = inl m

    back : Near es i j ⊎ ((i ≡ a) × (j ≡ b)) → Memᴰ j (b ∷ targets es i)
    back (inl m) = Memᴰ.tail m
    back (inr (p, q)) = Memᴰ.head q

    other : (i ≡ a → ⊥) → Near es i j ⊎ ((i ≡ a) × (j ≡ b)) → Near es i j
    other apart (inl m) = m
    other apart (inr (p, q)) = absurd (apart p)

Reach-trans {ℓ} :
    {A : Type ℓ} {E : A → A → Type ℓ} {a b c : A} → Reach E a b → Reach E b c → Reach E a c
Reach-trans p here = p
Reach-trans p (step w e) = step (Reach-trans p w) e

Reach-cons : (a b : ℕ) (es : Edges) {s t : ℕ} → Reach (Near es) s t → Reach (Near ((a, b) ∷ es)) s t
Reach-cons a b es here = here
Reach-cons a b es (step w e) = step (Reach-cons a b es w) ((Near-cons a b es _ _).1 (inl e))

reaches_sound : (es : Edges) (s t : ℕ) → reaches es s t ≡ true → Reach (Near es) s t
unfolding reaches
reaches_sound [] s t h = let e = (==_iff s t).0 h in rw (← e) here
reaches_sound ((a, b) ∷ es) s t h = elim (Bool-cases (reaches es s t)) [
  | inl e ↦ Reach-cons a b es (reaches_sound es s t e)
  | inr e ↦
      let to_a = Reach-cons a b es (reaches_sound es s a (ground arith)) in
      let from_b = Reach-cons a b es (reaches_sound es b t (ground arith)) in
      Reach-trans (step to_a ((Near-cons a b es a b).1 (inr (refl, refl)))) from_b
]

reaches_self : (es : Edges) (s : ℕ) → reaches es s s ≡ true
unfolding reaches
reaches_self [] s = ==_self s
reaches_self ((a, b) ∷ es) s = ground (arith, reaches_self es s)

reaches_step :
    (es : Edges) (s u v : ℕ) → reaches es s u ≡ true → Near es u v → reaches es s v ≡ true
unfolding reaches targets
reaches_step [] s u v h m = absurd (Memᴰ.not-nil m)
reaches_step ((a, b) ∷ es) s u v h m = elim ((Near-cons a b es u v).0 m) [
  | inl old ↦
      let direct = λ (p : reaches es s u ≡ true). reaches_step es s u v p old in
      let after = λ (p : reaches es b u ≡ true). reaches_step es b u v p old in
      elim (Bool-cases (reaches es s u)) [
        | inl e ↦ let q = direct e in ground arith
        | inr e ↦ let q = after (ground arith) in ground arith
      ]
  | inr (p, q) ↦ let r = reaches_self es b in ground arith
]

reaches_complete : (es : Edges) {s t : ℕ} → Reach (Near es) s t → reaches es s t ≡ true
reaches_complete es {s} here = reaches_self es s
reaches_complete es {s} {t} (step {u} w e) = reaches_step es s u t (reaches_complete es w) e

-- What is reached is the start or the end of an edge.
near_target : (es : Edges) (i j : ℕ) → Near es i j → Memᴰ j (map (λ e. e.1) es)
unfolding targets
near_target [] i j m = absurd (Memᴰ.not-nil m)
near_target ((a, b) ∷ es) i j m = elim ((Near-cons a b es i j).0 m) [
  | inl old ↦ Memᴰ.tail (near_target es i j old)
  | inr (p, q) ↦ Memᴰ.head q
]

candidate : (es : Edges) {s t : ℕ} → Reach (Near es) s t → Memᴰ t (s ∷ map (λ e. e.1) es)
candidate es here = Memᴰ.head refl
candidate es (step {u} {v} w e) = Memᴰ.tail (near_target es u v e)

pub record EdgeList (W : Type 0) : Type 0 where
  pub weights : List W
  pub edges : Edges

pub search_from : Edges → ℕ → List ℕ
search_from es s = keep (reaches es s) (s ∷ map (λ e. e.1) es)

pub search_from-Reach : (es : Edges) (s i : ℕ) → Memᴰ i (search_from es s) ↔ Reach (Near es) s i
unfolding search_from
search_from-Reach es s i = (
  λ m. reaches_sound es s i (keep_sound (reaches es s) (s ∷ map (λ e. e.1) es) m).1,
  λ r.
      keep_complete (reaches es s) (s ∷ map (λ e. e.1) es) (candidate es r) (reaches_complete es r),
)

pub get_elem?-length {ℓ} : {A : Type ℓ} (xs : List A) → get_elem? xs (length xs) ≡ none
get_elem?-length [] = refl
get_elem?-length (x ∷ xs) = get_elem?-length xs

pub get_elem?-concat {ℓ} :
    {A : Type ℓ} (xs : List A) (a : A) (i : ℕ)
    → get_elem? (xs ++ a ∷ []) i ≡ (if length xs == i then some a else get_elem? xs i)
get_elem?-concat [] a zero = refl
get_elem?-concat [] a (suc i) = ground arith
get_elem?-concat (x ∷ xs) a zero = ground arith
get_elem?-concat (x ∷ xs) a (suc i) = ground (arith, get_elem?-concat xs a i)

unfoldable pub edge_list : (W : Type 0) → DiGraph W
unfolding targets search_from reaches
edge_list W = record {
  Graph = EdgeList W;
  new = record { weights = []; edges = [] };
  add_node = λ w g. (length g.weights, record g { weights = g.weights ++ w ∷ [] });
  add_edge = λ a b g. record g { edges = (a, b) ∷ g.edges };
  node_weight = λ g. get_elem? g.weights;
  neighbors = λ g. targets g.edges;
  bfs = λ g. search_from g.edges;
  node_weight-new = λ i. refl;
  neighbors-new = λ i. refl;
  add_node-fresh = λ w g. get_elem?-length g.weights;
  node_weight-add_node = λ w g i. get_elem?-concat g.weights w i;
  neighbors-add_node = λ w g i. refl;
  node_weight-add_edge = λ a b g i _ _. refl;
  neighbors-add_edge = λ a b g i j _ _. Near-cons a b g.edges i j;
  bfs-reach = λ g s i _. search_from-Reach g.edges s i;
}
