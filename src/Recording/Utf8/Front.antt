-- ===== src/Recording/Utf8/Front.antt =====
-- The front of some bytes, and of the same bytes with more behind them.
use rustion.Prelude.{
  ℕ, ◌≤◌, ◌<◌, ◌≡◌, refl, [], ◌∷◌, ◌++◌, arith, length, Bool, true, false, if◌then◌else◌,
}
use rustion.Recording.Utf8.{
  Bytes, Head, end, char, bad, cut, next_char, two, three, four, last_of_four,
}

-- The front of some bytes against the front of them with more behind: only a sequence that breaks
-- off can change.
pub data Extends (s ys : Bytes) : Head → Head → Type 0 where
  at_end : {h : Head} → s ≡ [] → Extends s ys end h
  at_char :
      {c : ℕ} {r : Bytes} {h : Head}
      → h ≡ char c (r ++ ys)
      → length r < length s
      → Extends s ys (char c r) h
  at_bad : {n : ℕ} {h : Head} → h ≡ bad n → 1 ≤ n → n ≤ length s → Extends s ys (bad n) h
  at_cut : {h : Head} → 1 ≤ length s → Extends s ys cut h

module _ (s ys : Bytes) where
  if-Extends :
      (b : Bool) {x y x' y' : Head}
      → Extends s ys x x'
      → Extends s ys y y'
      → Extends s ys (if b then x else y) (if b then x' else y')
  if-Extends true p q = p
  if-Extends false p q = q

  -- The same, where a sequence breaks off at once.
  cut-Extends :
      (b : Bool) {y : Head} (x' : Head) {y' : Head}
      → 1 ≤ length s
      → Extends s ys y y'
      → Extends s ys (if b then cut else y) (if b then x' else y')
  cut-Extends true x' p q = at_cut p
  cut-Extends false x' p q = q

two-Extends : (a : ℕ) (s ys : Bytes) → Extends (a ∷ s) ys (two a s) (two a (s ++ ys))
unfolding two
two-Extends a [] ys = at_cut (omega arith)
two-Extends a (b ∷ s) ys =
    if-Extends (a ∷ b ∷ s) ys _ (at_char refl (omega arith))
      (at_bad refl (omega arith) (omega arith))

three-Extends : (a : ℕ) (s ys : Bytes) → Extends (a ∷ s) ys (three a s) (three a (s ++ ys))
unfolding three
three-Extends a [] ys = at_cut (omega arith)
three-Extends a (b ∷ []) [] =
    cut-Extends _ _ _ _ (omega arith) (at_bad refl (omega arith) (omega arith))
three-Extends a (b ∷ []) (y ∷ ys) =
    cut-Extends _ _ _ _ (omega arith) (at_bad refl (omega arith) (omega arith))
three-Extends a (b ∷ c ∷ s) ys =
    let x = a ∷ b ∷ c ∷ s in
    if-Extends x ys _
      (if-Extends x ys _ (at_char refl (omega arith)) (at_bad refl (omega arith) (omega arith)))
      (at_bad refl (omega arith) (omega arith))

last-Extends :
    (a b c : ℕ) (s ys : Bytes)
    → Extends (a ∷ b ∷ c ∷ s) ys (last_of_four a b c s) (last_of_four a b c (s ++ ys))
unfolding last_of_four
last-Extends a b c [] ys = at_cut (omega arith)
last-Extends a b c (d ∷ s) ys =
    if-Extends (a ∷ b ∷ c ∷ d ∷ s) ys _ (at_char refl (omega arith))
      (at_bad refl (omega arith) (omega arith))

four-Extends : (a : ℕ) (s ys : Bytes) → Extends (a ∷ s) ys (four a s) (four a (s ++ ys))
unfolding four
four-Extends a [] ys = at_cut (omega arith)
four-Extends a (b ∷ []) [] =
    cut-Extends _ _ _ _ (omega arith) (at_bad refl (omega arith) (omega arith))
four-Extends a (b ∷ []) (y ∷ ys) =
    cut-Extends _ _ _ _ (omega arith) (at_bad refl (omega arith) (omega arith))
four-Extends a (b ∷ c ∷ s) ys =
    let x = a ∷ b ∷ c ∷ s in
    if-Extends x ys _
      (if-Extends x ys _ (last-Extends a b c s ys) (at_bad refl (omega arith) (omega arith)))
      (at_bad refl (omega arith) (omega arith))

pub next_char-Extends : (s ys : Bytes) → Extends s ys (next_char s) (next_char (s ++ ys))
unfolding next_char
next_char-Extends [] ys = at_end refl
next_char-Extends (a ∷ s) ys =
    let x = a ∷ s in
    if-Extends x ys _ (at_char refl (omega arith)) (
      if-Extends x ys _ (two-Extends a s ys) (
        if-Extends x ys _ (three-Extends a s ys)
          (if-Extends x ys _ (four-Extends a s ys) (at_bad refl (omega arith) (omega arith)))))

module _ {s ys : Bytes} {h : Head} where
  pub end_front : Extends s ys end h → s ≡ []
  end_front (at_end e) = e

  pub char_front :
      {c : ℕ} {r : Bytes}
      → Extends s ys (char c r) h
      → (h ≡ char c (r ++ ys)) × (length r < length s)
  char_front (at_char e l) = (e, l)

  pub bad_front : {n : ℕ} → Extends s ys (bad n) h → (h ≡ bad n) × (1 ≤ n) × (n ≤ length s)
  bad_front (at_bad e p q) = (e, p, q)

  pub cut_front : Extends s ys cut h → 1 ≤ length s
  cut_front (at_cut l) = l
