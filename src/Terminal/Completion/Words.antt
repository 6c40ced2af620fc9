-- ===== src/Terminal/Completion/Words.antt =====
-- The words that the nodes of src/terminal/completion.rs hold.

use rustion.Prelude.{
  ℕ, suc, ◌≤◌, ◌≡◌, refl, sym, ◌∙◌, ◌↔◌, ◌⊎◌, inl, inr, Bool, true, false, List, [], ◌∷◌, ltb, ◌==◌,
  if◌then◌else◌, arith, Bool-cases,
}
use rustion.Prelude.Text.{Text}
use rustion.Terminal.Completion.{
  CompletionNode, Subnodes, node, nil, sub, new_node, entry, is_allowed, insert,
}

-- A node holds a word.
unfoldable mutual
  pub In : CompletionNode → Text → Type 0
  In (node leaf cs) [] = leaf ≡ true
  In (node leaf cs) (c ∷ s) = InSub cs c s

  pub InSub : Subnodes → ℕ → Text → Type 0
  InSub nil c s = ⊥
  InSub (sub d n cs) c s = ((c ≡ d) × In n s) ⊎ InSub cs c s

-- The keys go up, from a first one on.
unfoldable mutual
  pub Tidy : CompletionNode → Type 0
  Tidy (node leaf cs) = TidySub 0 cs

  pub TidySub : ℕ → Subnodes → Type 0
  TidySub b nil = Unit
  TidySub b (sub c n cs) = (b ≤ c) × Tidy n × TidySub (suc c) cs

-- The part of a word that is inserted: it ends in front of the first character that is not allowed.
unfoldable pub kept : (ℕ → Bool) → Text → Text
kept allowed [] = []
kept allowed (c ∷ s) = let rest = kept allowed s in if allowed c then c ∷ rest else []

Tidy-entry :
    (b c : ℕ) (f : CompletionNode → CompletionNode) (cs : Subnodes)
    → ((n : CompletionNode) → Tidy n → Tidy (f n))
    → b ≤ c
    → TidySub b cs
    → TidySub b (entry c f cs)
unfolding Tidy entry new_node
Tidy-entry b c f nil h le t = (le, h (node false nil) tt, tt)
Tidy-entry b c f (sub d n cs) h le (at, tidy, rest) = elim (Bool-cases (c == d)) [
  | inl e ↦ rw e (at, h n tidy, rest)
  | inr e ↦ elim (Bool-cases (ltb c d)) [
    | inl lt ↦ rw (e, lt) (le, h (node false nil) tt, (ground arith, tidy, rest))
    | inr ge ↦ rw (e, ge) (at, tidy, Tidy-entry (suc d) c f cs h (ground arith) rest)
  ]
]

pub Tidy-insert :
    (p : ℕ → Bool) (incl : List ℕ) (w : Text) (n : CompletionNode)
    → Tidy n
    → Tidy (insert p incl w n)
unfolding insert Tidy
Tidy-insert p incl [] (node leaf cs) t = t
Tidy-insert p incl (c ∷ s) (node leaf cs) t = elim (Bool-cases (is_allowed p incl c)) [
  | inl e ↦ rw e (Tidy-entry 0 c (insert p incl s) cs (Tidy-insert p incl s) (omega arith) t)
  | inr e ↦ rw e t
]

In-entry :
    (c : ℕ) (f : CompletionNode → CompletionNode) (cs : Subnodes) (w : Text)
    → ((n : CompletionNode) (v : Text) → In (f n) v ↔ ((v ≡ w) ⊎ In n v))
    → (x : ℕ) (v : Text) → InSub (entry c f cs) x v ↔ (((x ≡ c) × (v ≡ w)) ⊎ InSub cs x v)
unfolding In entry new_node
In-entry c f nil w h x v = (
  λ i. elim i [
    | inl (e, j) ↦ elim ((h (node false nil) v).0 j) [
      | inl same ↦ inl (e, same)
      | inr k ↦ absurd (empty v k)
    ]
    | inr k ↦ inr k
  ],
  λ i. elim i [ inl (e, same) ↦ inl (e, (h (node false nil) v).1 (inl same)) | inr k ↦ inr k ],
)
  where
    empty : (v : Text) → In (node false nil) v → ⊥
    empty [] k = cc
    empty (_ ∷ _) k = k
In-entry c f (sub d n cs) w h x v = elim (Bool-cases (c == d)) [
  | inl e ↦
      let same : c ≡ d = ground arith in
      rw e (
        λ i. elim i [
          | inl (at, j) ↦ elim ((h n v).0 j) [
            | inl q ↦ inl (at ∙ sym same, q)
            | inr k ↦ inr (inl (at, k))
          ]
          | inr k ↦ inr (inr k)
        ],
        λ i. elim i [
          | inl (at, q) ↦ inl (at ∙ same, (h n v).1 (inl q))
          | inr (inl (at, k)) ↦ inl (at, (h n v).1 (inr k))
          | inr (inr k) ↦ inr k
        ],
      )
  | inr e ↦ elim (Bool-cases (ltb c d)) [
    | inl lt ↦
        rw (e, lt)
          (
            λ i. elim i [
              | inl (at, j) ↦ elim ((h (node false nil) v).0 j) [
                | inl q ↦ inl (at, q)
                | inr k ↦ absurd (empty v k)
              ]
              | inr k ↦ inr k
            ],
            λ i. elim i [
              | inl (at, q) ↦ inl (at, (h (node false nil) v).1 (inl q))
              | inr k ↦ inr k
            ],
          )
    | inr ge ↦
        let rest = In-entry c f cs w h x v in
        rw (e, ge)
          (
            λ i. elim i [
              | inl k ↦ inr (inl k)
              | inr k ↦ elim (rest.0 k) [ inl q ↦ inl q | inr j ↦ inr (inr j) ]
            ],
            λ i. elim i [
              | inl q ↦ inr (rest.1 (inl q))
              | inr (inl k) ↦ inl k
              | inr (inr j) ↦ inr (rest.1 (inr j))
            ],
          )
  ]
]
  where
    empty : (v : Text) → In (node false nil) v → ⊥
    empty [] k = cc
    empty (_ ∷ _) k = k

-- Inserting a word adds its allowed part, and nothing else.
pub In-insert :
    (p : ℕ → Bool) (incl : List ℕ) (w : Text) (n : CompletionNode) (v : Text)
    → In (insert p incl w n) v ↔ ((v ≡ kept (is_allowed p incl) w) ⊎ In n v)
unfolding insert In kept
In-insert p incl [] (node leaf cs) [] = (λ i. inl refl, λ i. refl)
In-insert p incl [] (node leaf cs) (x ∷ v) =
    (λ i. inr i, λ i. elim i [ inl e ↦ absurd (cc) | inr k ↦ k ])
In-insert p incl (c ∷ s) (node leaf cs) [] = elim (Bool-cases (is_allowed p incl c)) [
  | inl e ↦ rw e (λ i. inr i, λ i. elim i [ inl q ↦ absurd (cc) | inr k ↦ k ])
  | inr e ↦ rw e (λ i. inl refl, λ i. refl)
]
In-insert p incl (c ∷ s) (node leaf cs) (x ∷ v) = elim (Bool-cases (is_allowed p incl c)) [
  | inl e ↦
      let step =
        In-entry c (insert p incl s) cs (kept (is_allowed p incl) s) (λ n u. In-insert p incl s n u)
          x v in
      rw e (
        λ i. elim (step.0 i) [ inl (a, b) ↦ inl (cc) | inr k ↦ inr k ],
        λ i. elim i [ inl q ↦ step.1 (inl (cc, cc)) | inr k ↦ step.1 (inr k) ],
      )
  | inr e ↦ rw e (λ i. inr i, λ i. elim i [ inl q ↦ absurd (cc) | inr k ↦ k ])
]
