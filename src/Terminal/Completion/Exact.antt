-- ===== src/Terminal/Completion/Exact.antt =====
-- What `complete` of src/terminal/completion.rs finds.
use mathlib.Core.List.{append_assoc, append-nil}
use mathlib.Core.List.Memᴰ
use rustion.Prelude.{
  ℕ, suc, ◌≤◌, ◌≡◌, refl, sym, ap, ◌∙◌, ◌↔◌, ◌⊎◌, inl, inr, Bool, true, false, Option, none, some,
  List, [], ◌∷◌, ◌++◌, leb, ◌==◌, if◌then◌else◌, arith, Memᴰ, Memᴰ-append, Bool-cases,
}
use rustion.Prelude.Text.{Text}
use rustion.Prelude.Trim.{byte_len}
use rustion.Terminal.Completion.{
  CompletionNode, Subnodes, node, nil, sub, new_node, get, is_allowed, insert, collect,
  collect_subnodes, complete, BastionCompleter, with_inclusions, set_min_word_len, insert_words,
}
use rustion.Terminal.Completion.Words.{In, InSub, Tidy, TidySub, kept, In-insert, Tidy-insert}

-- The words of a node behind a text.
Behind : Text → CompletionNode → Text → Type 0
Behind p n e = (s : Text) × (e ≡ p ++ s) × In n s

BehindSub : Text → Subnodes → Text → Type 0
BehindSub p cs e = (c : ℕ) × (s : Text) × (e ≡ p ++ (c ∷ s)) × InSub cs c s

mutual
  unfolding collect In Behind BehindSub

  collect-Behind : (p : Text) (n : CompletionNode) (e : Text) → Memᴰ e (collect p n) ↔ Behind p n e
  collect-Behind p (node leaf cs) e =
      let below = collect-BehindSub p cs e in
      let both = Memᴰ-append e (if leaf then p ∷ [] else []) (collect_subnodes p cs) in
      (
        λ m. elim (both.0 m) [
          | inl here ↦ at leaf here
          | inr later ↦ let (c, s, q, i) = below.0 later in (c ∷ s, q, i)
        ],
        λ b. both.1 (back below b),
      )
    where
      at :
          (l : Bool)
          → Memᴰ e (if l then p ∷ [] else [])
          → (s : Text) × (e ≡ p ++ s) × In (node l cs) s
      at true m = elim (Memᴰ.cases_cons m) [
        | inl q ↦ ([], q ∙ sym (append-nil p), refl)
        | inr later ↦ absurd (Memᴰ.not-nil later)
      ]
      at false m = absurd (Memᴰ.not-nil m)

      back :
          Memᴰ e (collect_subnodes p cs)
            ↔ ((c : ℕ) × (s : Text) × (e ≡ p ++ (c ∷ s)) × InSub cs c s)
          → (s : Text) × (e ≡ p ++ s) × In (node leaf cs) s
          → Memᴰ e (if leaf then p ∷ [] else []) ⊎ Memᴰ e (collect_subnodes p cs)
      back below ([], q, i) = inl (rw i (Memᴰ.head (q ∙ append-nil p)))
      back below (c ∷ s, q, i) = inr (below.1 (c, s, q, i))

  collect-BehindSub :
      (p : Text) (cs : Subnodes) (e : Text) → Memᴰ e (collect_subnodes p cs) ↔ BehindSub p cs e
  collect-BehindSub p nil e = (λ m. absurd (Memᴰ.not-nil m), λ b. absurd b.3)
  collect-BehindSub p (sub d n cs) e =
      let first = collect-Behind (p ++ (d ∷ [])) n e in
      let rest = collect-BehindSub p cs e in
      let both = Memᴰ-append e (collect (p ++ (d ∷ [])) n) (collect_subnodes p cs) in
      (
        λ m. elim (both.0 m) [
          | inl here ↦
              let (s, q, i) = first.0 here in (d, s, q ∙ append_assoc p (d ∷ []) s, inl (refl, i))
          | inr later ↦ let (c, s, q, i) = rest.0 later in (c, s, q, inr i)
        ],
        λ b. both.1 (
            let (c, s, q, i) = b in
            elim i [
              | inl (same, j) ↦ inl (
                  first.1
                    (s, q ∙ (ap (λ x. p ++ (x ∷ s)) same ∙ sym (append_assoc p (d ∷ []) s)), j))
              | inr k ↦ inr (rest.1 (c, s, q, k))
            ]),
      )

-- Under keys that go up, the words behind a key are those of the node that `get` finds.
InSub-later : (b c : ℕ) (cs : Subnodes) (s : Text) → TidySub b cs → InSub cs c s → b ≤ c
unfolding Tidy In
InSub-later b c nil s t i = absurd i
InSub-later b c (sub d n cs) s (at, tidy, rest) i = elim i [
  | inl (same, _) ↦ omega arith
  | inr k ↦ let later = InSub-later (suc d) c cs s rest k in omega arith
]

get-In :
    (b c : ℕ) (cs : Subnodes) (n : CompletionNode)
    → TidySub b cs
    → get c cs ≡ some n
    → Tidy n × ((s : Text) → In n s ↔ InSub cs c s)
unfolding Tidy In get
get-In b c nil n t g = absurd (cc)
get-In b c (sub d m cs) n (at, tidy, rest) g = elim (Bool-cases (c == d)) [
  | inl e ↦
      let same : c ≡ d = ground arith in
      let found : some m ≡ some n = rw e at g in
      let node_same : m ≡ n = cc in
      rw (← node_same) (
        tidy,
        λ s. (
          λ i. inl (same, i),
          λ i. elim i [
            | inl (_, j) ↦ j
            | inr k ↦ let later = InSub-later (suc d) c cs s rest k in absurd (omega arith)
          ],
        ),
      )
  | inr e ↦
      let (fine, iff) = get-In (suc d) c cs n rest (rw e at g) in
      (
        fine,
        λ s. (
          λ i. inr ((iff s).0 i),
          λ i. elim i [ inl (same, _) ↦ absurd (ground arith) | inr k ↦ (iff s).1 k ],
        ),
      )
]

get-none : (c : ℕ) (cs : Subnodes) (s : Text) → get c cs ≡ none → InSub cs c s → ⊥
unfolding In get
get-none c nil s g i = i
get-none c (sub d n cs) s g i = elim (Bool-cases (c == d)) [
  | inl e ↦ let found : some n ≡ none = rw e at g in absurd (cc)
  | inr e ↦ elim i [ inl (same, _) ↦ absurd (ground arith) | inr k ↦ get-none c cs s (rw e at g) k ]
]

-- The answer of `complete`, against the words of the node.
abbrev pub Answers : Text → CompletionNode → Option (List Text) → Type 0
Answers p n none = (s : Text) → In n (p ++ s) → ⊥
Answers p n (some es) = (s : Text) → Memᴰ s es ↔ In n (p ++ s)

pub complete-Answers : (p : Text) (n : CompletionNode) → Tidy n → Answers p n (complete p n)
unfolding complete In
complete-Answers [] n t = λ s.
    let iff = collect-Behind [] n s in
    unfold Behind in (λ m. let (u, q, i) = iff.0 m in rw q i, λ i. iff.1 (s, refl, i))
complete-Answers (c ∷ p) (node leaf cs) t = go (get c cs) refl (λ n fine. complete-Answers p n fine)
  where
    deeper :
        (n : CompletionNode) (o : Option (List Text))
        → ((s : Text) → In n s ↔ InSub cs c s)
        → Answers p n o
        → Answers (c ∷ p) (node leaf cs) o
    deeper n none iff h = λ s i. h s ((iff (p ++ s)).1 i)
    deeper n (some es) iff h =
        λ s. (λ m. (iff (p ++ s)).0 ((h s).0 m), λ i. (h s).1 ((iff (p ++ s)).1 i))

    go :
        (o : Option CompletionNode)
        → get c cs ≡ o
        → ((n : CompletionNode) → Tidy n → Answers p n (complete p n))
        → Answers (c ∷ p) (node leaf cs) (elim o [ none ↦ none | some n ↦ complete p n ])
    go none g h = unfold In in λ s i. get-none c cs (p ++ s) g i
    go (some n) g h =
        let (fine, iff) = get-In 0 c cs n (unfold Tidy in t) g in
        deeper n (complete p n) iff (h n fine)

-- The completer's words: the allowed parts of the words that are long enough.
abbrev pub IsOffered : (ℕ → Bool) → ℕ → List Text → Text → Type 0
IsOffered allowed len words v =
    (w : Text) × Memᴰ w words × (len ≤ byte_len w) × (v ≡ kept allowed w)

insert_words-In :
    (p : ℕ → Bool) (words : List Text) (b : BastionCompleter)
    → Tidy b.root
    → let b' = insert_words p words b in
      Tidy b'.root
      × ((v : Text)
          → In b'.root v
            ↔ (IsOffered (is_allowed p b.inclusions) b.min_word_len words v ⊎ In b.root v))
unfolding insert_words
insert_words-In p [] b t =
    (t, λ v. (inr, λ i. elim i [ inl o ↦ absurd (Memᴰ.not-nil o.1) | inr k ↦ k ]))
insert_words-In p (w ∷ words) b t = elim (Bool-cases (leb b.min_word_len (byte_len w))) [
  | inl e ↦
      let b' = record b { root = insert p b.inclusions w b.root } in
      let (fine, iff) = insert_words-In p words b' (Tidy-insert p b.inclusions w b.root t) in
      let long : b.min_word_len ≤ byte_len w = ground arith in
      rw (e, insert_words)
        (
          fine,
          λ v.
              let one = In-insert p b.inclusions w b.root v in
              (
                λ i. elim ((iff v).0 i) [
                  | inl (u, m, l, q) ↦ inl (u, Memᴰ.tail m, l, q)
                  | inr k ↦ elim (one.0 k) [
                    | inl q ↦ inl (w, Memᴰ.head refl, long, q)
                    | inr j ↦ inr j
                  ]
                ],
                λ i. elim i [
                  | inl (u, m, l, q) ↦ elim (Memᴰ.cases_cons m) [
                    | inl same ↦
                        (iff v).1
                          (inr (one.1 (inl (q ∙ ap (kept (is_allowed p b.inclusions)) same))))
                    | inr later ↦ (iff v).1 (inl (u, later, l, q))
                  ]
                  | inr j ↦ (iff v).1 (inr (one.1 (inr j)))
                ],
              ),
        )
  | inr e ↦
      let (fine, iff) = insert_words-In p words b t in
      rw (e, insert_words)
        (
          fine,
          λ v. (
            λ i. elim ((iff v).0 i) [
              | inl (u, m, l, q) ↦ inl (u, Memᴰ.tail m, l, q)
              | inr j ↦ inr j
            ],
            λ i. elim i [
              | inl (u, m, l, q) ↦ elim (Memᴰ.cases_cons m) [
                | inl same ↦
                    absurd (let z : byte_len u ≡ byte_len w = ap byte_len same in ground arith)
                | inr later ↦ (iff v).1 (inl (u, later, l, q))
              ]
              | inr j ↦ (iff v).1 (inr j)
            ],
          ),
        )
]

-- A completer with these inclusions, this shortest length, and these words.
abbrev pub filled : (ℕ → Bool) → List ℕ → ℕ → List Text → BastionCompleter
filled p inclusions len words =
    insert_words p words (set_min_word_len len (with_inclusions inclusions))

empty-In : (v : Text) → In new_node v → ⊥
unfolding In new_node
empty-In [] i = cc
empty-In (_ ∷ _) i = i

pub filled-In :
    (p : ℕ → Bool) (inclusions : List ℕ) (len : ℕ) (words : List Text)
    → Tidy (filled p inclusions len words).root
      × ((v : Text)
          → In (filled p inclusions len words).root v
            ↔ IsOffered (is_allowed p inclusions) len words v)
unfolding with_inclusions set_min_word_len
filled-In p inclusions len words =
    let (fine, iff) =
      insert_words-In p words (set_min_word_len len (with_inclusions inclusions))
        (unfold Tidy in unfold new_node in tt) in
    (
      fine,
      λ v. (
        λ i. elim ((iff v).0 i) [ inl o ↦ o | inr k ↦ absurd (empty-In v k) ],
        λ o. (iff v).1 (inl o),
      ),
    )

-- What is found for a text is what the offered words that start with it go on with; nothing is found
-- only if no offered word starts with it.
abbrev pub IsAnswer : (Text → Type 0) → Text → Option (List Text) → Type 0
IsAnswer offered text none = (s : Text) → offered (text ++ s) → ⊥
IsAnswer offered text (some extensions) = (s : Text) → Memᴰ s extensions ↔ offered (text ++ s)

-- What `complete` finds for a text is exactly what the offered words that start with it go on with,
-- and it finds nothing only if no offered word starts with it. A word that was inserted is offered up
-- to its first character that is not allowed, if it is long enough.
pub complete_iff :
    (p : ℕ → Bool) (inclusions : List ℕ) (len : ℕ) (words : List Text) (text : Text)
    → IsAnswer
        (IsOffered (is_allowed p inclusions) len words)
        text
        (complete text (filled p inclusions len words).root)
complete_iff p inclusions len words text =
    let (fine, iff) = filled-In p inclusions len words in
    go (complete text (filled p inclusions len words).root)
      (complete-Answers text (filled p inclusions len words).root fine) iff
  where
    go :
        (o : Option (List Text))
        → Answers text (filled p inclusions len words).root o
        → ((v : Text)
            → In (filled p inclusions len words).root v
              ↔ IsOffered (is_allowed p inclusions) len words v)
        → IsAnswer (IsOffered (is_allowed p inclusions) len words) text o
    go none h iff = λ s o. h s ((iff (text ++ s)).1 o)
    go (some es) h iff =
        λ s. (λ m. (iff (text ++ s)).0 ((h s).0 m), λ o. (h s).1 ((iff (text ++ s)).1 o))
