-- ===== src/Terminal/Completion/Offered.antt =====
-- The suggestions of src/terminal/completion.rs for a line.
use mathlib.Core.List.Memᴰ
use rustion.Prelude.{
  ℕ, suc, ◌+◌, ◌-◌, ◌≤◌, ◌<◌, ◌≡◌, refl, Bool, true, false, Option, none, some, List, [], ◌∷◌, ◌++◌,
  map, leb, if◌then◌else◌, keep, keep_sound, arith, All, All-append, Memᴰ, All-of_mem, Bool-cases,
  inl, inr,
}
use rustion.Prelude.Options.{◌>>=◌}
use rustion.Prelude.Text.{Text, is_empty}
use rustion.Prelude.Trim.{byte_len}
use rustion.Terminal.Completion.{CompletionNode, is_allowed, collect, complete}
use rustion.Terminal.Completion.Order.{natural_cmp, sort_by, Memᴰ-sort_by}
use rustion.Terminal.Completion.Words.{In, Tidy}
use rustion.Terminal.Completion.Exact.{Answers, complete-Answers, IsOffered, filled, filled-In}
use rustion.Terminal.Completion.Room.{byte_len-append, byte_len-up_to_cursor, room, room-words_of}
use rustion.Terminal.Completion.Line.{
  Suggestion, up_to_cursor, each, suggest, suggestions, span_with, over_words, dedup, dedup_from,
  is_longer, suggestion_eq, words_of, suggest_all, complete_line,
}

-- A suggestion at a place, of a word that satisfies `P`, that is longer than what it stands for.
abbrev pub Fits : (Text → Type 0) → ℕ → Suggestion → Type 0
Fits P pos t = P t.value × (t.start ≤ pos) × (t.end ≡ pos) × (pos - t.start < byte_len t.value)

-- The suggestion where nothing panics.
made : ℕ → Text → ℕ → Text → Suggestion
made pos span ws ext = record { value = span ++ ext; start = pos - byte_len span - ws; end = pos }

each-made :
    (pos : ℕ) (span : Text) (ws : ℕ) (exts : List Text)
    → byte_len span + ws ≤ pos
    → each (suggest pos span ws) exts ≡ some (map (made pos span ws) exts)
unfolding each suggest made
each-made pos span ws [] h = refl
each-made pos span ws (e ∷ es) h =
    let a : leb (byte_len span) pos ≡ true = ground arith in
    let b : leb ws (pos - byte_len span) ≡ true = ground arith in
    rw (a, b, each-made pos span ws es h) refl

-- All the suggestions of a part of the code, which does not panic.
abbrev Sound : (Text → Type 0) → ℕ → Option (List Suggestion) → Type 0
Sound P pos o = (gs : List Suggestion) × (o ≡ some gs) × All (Fits P pos) gs

kept-Fits :
    (P : Text → Type 0) (pos : ℕ) (gs : List Suggestion)
    → ((g : Suggestion) → Memᴰ g gs → P g.value × (g.start ≤ pos) × (g.end ≡ pos))
    → All (Fits P pos) (keep is_longer gs)
kept-Fits P pos gs h = All-of_mem (Fits P pos) (keep is_longer gs) (λ g m.
    let (among, longer) = keep_sound is_longer gs m in
    let (p, fits, at) = h g among in (p, fits, at, ground arith))

suggestions-Sound :
    (root : CompletionNode) (pos : ℕ) (span : Text) (ws : ℕ)
    → Tidy root
    → byte_len span + ws ≤ pos
    → Sound (In root) pos (suggestions root pos span ws)
unfolding suggestions
suggestions-Sound root pos span ws t h = go (complete span root) (complete-Answers span root t)
  where
    go :
        (o : Option (List Text))
        → Answers span root o
        → Sound (In root) pos (elim o [
          | none ↦ some []
          | some extensions ↦ (do
            let sorted = sort_by (λ a b. natural_cmp (span ++ a) (span ++ b)) extensions
            made ← each (suggest pos span ws) sorted
            some (keep is_longer made))
        ])
    go none a = ([], refl, tt)
    go (some exts) a =
        let sorted = sort_by (λ a b. natural_cmp (span ++ a) (span ++ b)) exts in
        (
          keep is_longer (map (made pos span ws) sorted),
          rw (each-made pos span ws sorted h) refl,
          kept-Fits (In root) pos (map (made pos span ws) sorted) (λ g m.
              let (ext, among, same) = Memᴰ.of_map (made pos span ws) sorted m in
              rw (← same) (
                unfold made in ((a ext).0 ((Memᴰ-sort_by _ exts ext).0 among), omega arith, refl))),
        )

over_words-Sound :
    (root : CompletionNode) (pos : ℕ) (words : List Text) (span : Text) (ws : ℕ)
    → Tidy root
    → room words + byte_len span + ws ≤ (if is_empty span then suc pos else pos)
    → Sound (In root) pos (over_words root pos words span ws)
unfolding over_words
over_words-Sound root pos [] span ws t h = ([], refl, tt)
over_words-Sound root pos ([] ∷ words) span ws t h =
    over_words-Sound root pos words span (suc ws) t (go (is_empty span) h)
  where
    go :
        (b : Bool)
        → 1 + room words + byte_len span + ws ≤ (if b then suc pos else pos)
        → room words + byte_len span + suc ws ≤ (if b then suc pos else pos)
    go true k = omega arith
    go false k = omega arith
over_words-Sound root pos ((c ∷ s) ∷ words) span ws t h =
    let fits = with_word span h in
    let (first, e, p) = suggestions-Sound root pos (span_with (c ∷ s) span) ws t (omega arith) in
    let (rest, f, q) =
      over_words-Sound root pos words (span_with (c ∷ s) span) ws t (nonempty span fits) in
    (first ++ rest, rw (e, f) refl, All-append (Fits (In root) pos) first rest p q)
  where
    with_word :
        (u : Text)
        → suc (byte_len (c ∷ s)) + room words + byte_len u + ws
          ≤ (if is_empty u then suc pos else pos)
        → room words + byte_len (span_with (c ∷ s) u) + ws ≤ pos
    with_word [] k = omega arith
    with_word (d ∷ u) k = let l = byte_len-append (c ∷ s) (b' ' ∷ d ∷ u) in ground arith

    nonempty :
        (u : Text)
        → room words + byte_len (span_with (c ∷ s) u) + ws ≤ pos
        → room words + byte_len (span_with (c ∷ s) u) + ws
          ≤ (if is_empty (span_with (c ∷ s) u) then suc pos else pos)
    nonempty [] k = k
    nonempty (d ∷ u) k = k

dedup_from-All :
    (P : Suggestion → Type 0) (last : Suggestion) (gs : List Suggestion)
    → All P gs
    → All P (dedup_from last gs)
unfolding dedup_from
dedup_from-All P last [] h = tt
dedup_from-All P last (g ∷ gs) h = elim (Bool-cases (suggestion_eq g last)) [
  | inl e ↦ rw e (dedup_from-All P last gs h.1)
  | inr e ↦ rw e (h.0, dedup_from-All P g gs h.1)
]

dedup-All : (P : Suggestion → Type 0) (gs : List Suggestion) → All P gs → All P (dedup gs)
unfolding dedup
dedup-All P [] h = tt
dedup-All P (g ∷ gs) h = (h.0, dedup_from-All P g gs h.1)

suggest_all-Sound :
    (root : CompletionNode) (pos : ℕ) → Tidy root → All (Fits (In root) pos) (suggest_all root pos)
unfolding suggest_all complete
suggest_all-Sound root pos t =
    let sorted = sort_by natural_cmp (collect [] root) in
    let place : Text → Suggestion = λ ext. record { value = ext; start = pos; end = pos } in
    kept-Fits (In root) pos (map place sorted) (λ g m.
      let (ext, among, same) = Memᴰ.of_map place sorted m in
      let found = complete-Answers [] root t in
      rw (← same) (
        (found ext).0 ((Memᴰ-sort_by natural_cmp (collect [] root) ext).0 among),
        omega arith,
        refl,
      ))

Sound-dedup :
    (P : Text → Type 0) (pos : ℕ) (o : Option (List Suggestion))
    → Sound P pos o
    → Sound P pos (o >>= (λ gs. some (dedup gs)))
Sound-dedup P pos o (gs, e, h) = (dedup gs, rw e refl, dedup-All (Fits P pos) gs h)

completions-Sound :
    (root : CompletionNode) (pos : ℕ) (t : Text)
    → Tidy root
    → byte_len t ≤ pos
    → Sound
        (In root)
        pos
        (if is_empty t then some (suggest_all root pos) else over_words root pos (words_of t) [] 0)
completions-Sound root pos [] tidy h = (suggest_all root pos, refl, suggest_all-Sound root pos tidy)
completions-Sound root pos (c ∷ t) tidy h =
    let r = room-words_of (c ∷ t) in
    over_words-Sound root pos (words_of (c ∷ t)) [] 0 tidy (omega arith)

Fits-map :
    (P Q : Text → Type 0) (pos : ℕ) (gs : List Suggestion)
    → ((v : Text) → P v → Q v)
    → All (Fits P pos) gs
    → All (Fits Q pos) gs
Fits-map P Q pos [] h a = tt
Fits-map P Q pos (g ∷ gs) h ((p, a₁, a₂, a₃), later) =
    ((h g.value p, a₁, a₂, a₃), Fits-map P Q pos gs h later)

-- Completing a line whose cursor does not stand within a character never panics, wherever behind the
-- line the cursor stands, and each suggestion is a word that is offered, whose span ends at the
-- cursor, starts no later, and is shorter than the word. A word that was inserted is offered up to
-- its first character that is not allowed, if it is long enough.
pub complete_line-Fits :
    (p : ℕ → Bool) (inclusions : List ℕ) (len : ℕ) (words : List Text) (line t : Text) (pos : ℕ)
    → up_to_cursor pos line ≡ some t
    → (gs : List Suggestion) × (complete_line (filled p inclusions len words) line pos ≡ some gs)
      × All (Fits (IsOffered (is_allowed p inclusions) len words) pos) gs
unfolding complete_line
complete_line-Fits p inclusions len words line t pos h =
    let (fine, iff) = filled-In p inclusions len words in
    let root = (filled p inclusions len words).root in
    let (gs, e, all) =
      Sound-dedup (In root) pos _
        (completions-Sound root pos t fine (byte_len-up_to_cursor pos line t h)) in
    (
      gs,
      rw h e,
      Fits-map (In root) (IsOffered (is_allowed p inclusions) len words) pos gs (λ v i. (iff v).0 i)
          all,
    )
