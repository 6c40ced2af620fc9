-- ===== src/Casbin/Graph.antt =====
-- The interface of the graph that src/server/casbin.rs builds on: petgraph's
-- `StableDiGraph<W, ()>` and its `Bfs`. An index is the number that a `NodeIndex` wraps. The laws
-- are what petgraph documents; no node or edge is ever removed.
pub mod EdgeList
use rustion.Prelude.{ℕ, ◌≡◌, ◌≢◌, ◌↔◌, ◌⊎◌, Option, none, some, List, [], Memᴰ, ◌==◌, if◌then◌else◌}

-- The nodes that a walk along `E` from `s` ends in.
pub data Reach {ℓ} {A : Type ℓ} (E : A → A → Type ℓ) (s : A) : A → Type ℓ where
  here : Reach E s s
  step : {u v : A} → Reach E s u → E u v → Reach E s v

pub record DiGraph (W : Type 0) : Type 1 where
  pub Graph : Type 0
  pub new : Graph
  pub add_node : W → Graph → ℕ × Graph
  pub add_edge : ℕ → ℕ → Graph → Graph
  pub node_weight : Graph → ℕ → Option W
  pub neighbors : Graph → ℕ → List ℕ
  pub bfs : Graph → ℕ → List ℕ
  pub node_weight-new : (i : ℕ) → node_weight new i ≡ none
  pub neighbors-new : (i : ℕ) → neighbors new i ≡ []
  -- The index of a new node was not in use, and it alone gets the weight.
  pub add_node-fresh : (w : W) (g : Graph) → node_weight g (add_node w g).0 ≡ none
  pub node_weight-add_node :
      (w : W) (g : Graph) (i : ℕ)
      → node_weight (add_node w g).1 i ≡ (if (add_node w g).0 == i then some w else node_weight g i)
  pub neighbors-add_node :
      (w : W) (g : Graph) (i : ℕ) → neighbors (add_node w g).1 i ≡ neighbors g i
  -- `add_edge` panics unless both ends are nodes.
  pub node_weight-add_edge :
      (a b : ℕ) (g : Graph) (i : ℕ)
      → node_weight g a ≢ none
      → node_weight g b ≢ none
      → node_weight (add_edge a b g) i ≡ node_weight g i
  pub neighbors-add_edge :
      (a b : ℕ) (g : Graph) (i j : ℕ)
      → node_weight g a ≢ none
      → node_weight g b ≢ none
      → Memᴰ j (neighbors (add_edge a b g) i) ↔ (Memᴰ j (neighbors g i) ⊎ ((i ≡ a) × (j ≡ b)))
  -- The search visits what is reachable from its start.
  pub bfs-reach :
      (g : Graph) (s i : ℕ)
      → node_weight g s ≢ none
      → Memᴰ i (bfs g s) ↔ Reach (λ a b. Memᴰ b (neighbors g a)) s i
