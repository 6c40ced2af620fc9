-- ===== src/Terminal/Completion.antt =====
-- `CompletionNode` and the insertion of words, of src/terminal/completion.rs. The `inclusions`, which
-- all nodes share, stand with the completer; `is_alphanumeric` is `char::is_alphanumeric`.
pub mod Words
pub mod Exact
pub mod Order
pub mod Line
mod Room
pub mod Offered
mod Tests
use rustion.Prelude.{
  ℕ, Bool, true, false, ◌||◌, Option, none, some, List, [], ◌∷◌, ◌++◌, leb, ltb, ◌==◌,
  if◌then◌else◌, any,
}
use rustion.Prelude.Text.{Text}
use rustion.Prelude.Trim.{is_whitespace, byte_len}

-- The map of a node is its entries in the order of their keys.
mutual
  pub data CompletionNode : Type 0 where
    node : Bool → Subnodes → CompletionNode

  pub data Subnodes : Type 0 where
    nil : Subnodes
    sub : ℕ → CompletionNode → Subnodes → Subnodes

unfoldable pub new_node : CompletionNode
new_node = node false nil

-- `entry(c).or_insert_with(..)`, and a call on what it gives.
unfoldable pub entry : ℕ → (CompletionNode → CompletionNode) → Subnodes → Subnodes
unfolding new_node
entry c f nil = sub c (f new_node) nil
entry c f (sub d n cs) =
    let rest = entry c f cs in
    if c == d
    then sub d (f n) cs
    else if ltb c d
    then sub c (f new_node) (sub d n cs)
    else sub d n rest

unfoldable pub get : ℕ → Subnodes → Option CompletionNode
get c nil = none
get c (sub d n cs) = if c == d then some n else get c cs

module _ (is_alphanumeric : ℕ → Bool) where
  -- What a word may hold.
  unfoldable pub is_allowed : List ℕ → ℕ → Bool
  is_allowed inclusions c = any (λ x. x == c) inclusions || is_alphanumeric c || is_whitespace c

  -- `CompletionNode::insert`.
  unfoldable pub insert : List ℕ → Text → CompletionNode → CompletionNode
  unfolding entry is_allowed
  insert inclusions [] (node leaf cs) = node true cs
  insert inclusions (c ∷ s) (node leaf cs) =
      if is_allowed inclusions c then node leaf (entry c (insert inclusions s) cs) else node true cs

unfoldable mutual
  pub collect : Text → CompletionNode → List Text
  collect partial (node leaf cs) =
      (if leaf then partial ∷ [] else []) ++ collect_subnodes partial cs

  pub collect_subnodes : Text → Subnodes → List Text
  collect_subnodes partial nil = []
  collect_subnodes partial (sub c n cs) =
      collect (partial ++ (c ∷ [])) n ++ collect_subnodes partial cs

unfoldable pub complete : Text → CompletionNode → Option (List Text)
unfolding collect get
complete [] n = some (collect [] n)
complete (c ∷ s) (node leaf cs) = elim (get c cs) [ none ↦ none | some n ↦ complete s n ]

pub record BastionCompleter : Type 0 where
  pub root : CompletionNode
  pub min_word_len : ℕ
  pub inclusions : List ℕ

unfoldable pub with_inclusions : List ℕ → BastionCompleter
unfolding new_node
with_inclusions inclusions = record { root = new_node; min_word_len = 2; inclusions = inclusions }

unfoldable pub set_min_word_len : ℕ → BastionCompleter → BastionCompleter
set_min_word_len len b = record b { min_word_len = len }

-- `BastionCompleter::insert`.
unfoldable pub insert_words : (ℕ → Bool) → List Text → BastionCompleter → BastionCompleter
unfolding insert
insert_words is_alphanumeric [] b = b
insert_words is_alphanumeric (word ∷ words) b = insert_words is_alphanumeric words (
    if leb b.min_word_len (byte_len word)
    then record b { root = insert is_alphanumeric b.inclusions word b.root }
    else b)
