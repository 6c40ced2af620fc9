-- ===== src/Recording/Utf8/Chunks.antt =====
-- What is decoded does not depend on the chunks in which the bytes come.
use rustion.Prelude.{
  ℕ, zero, suc, ◌≤◌, ◌<◌, ◌≡◌, refl, ap, none, some, [], ◌∷◌, ◌++◌, arith, length,
}
use mathlib.Core.List.{append_assoc}
use mathlib.Core.Path.{ap₂}
use rustion.Prelude.Text.{Text}
use rustion.Recording.Utf8.{
  Bytes, Head, end, char, bad, cut, next_char, Utf8, valid, invalid, prepend, from_utf8, drop,
  replacement, feed_loop, feed,
}
use rustion.Recording.Utf8.Front.{next_char-Extends, end_front, char_front, bad_front, Extends}

-- The bytes hold this text, but for the last ones, which start a character: each sequence that is
-- no character stands for a replacement.
pub data Decodes : Bytes → Text → Bytes → Type 0 where
  done : (s : Bytes) → next_char s ≡ end → Decodes s [] []
  one :
      {t : Text} {l : Bytes} (s : Bytes) (c : ℕ) (r : Bytes)
      → next_char s ≡ char c r
      → Decodes r t l
      → Decodes s (c ∷ t) l
  skip :
      {t : Text} {l : Bytes} (s : Bytes) (n : ℕ)
      → next_char s ≡ bad n
      → Decodes (drop n s) t l
      → Decodes s (replacement ∷ t) l
  stop : (s : Bytes) → next_char s ≡ cut → Decodes s [] s

drop-append : (n : ℕ) (s ys : Bytes) → n ≤ length s → drop n (s ++ ys) ≡ drop n s ++ ys
drop-append zero s ys h = refl
drop-append (suc n) [] ys h = absurd (omega arith)
drop-append (suc n) (x ∷ s) ys h = drop-append n s ys (omega arith)

length-drop : (n : ℕ) (s : Bytes) → 1 ≤ n → n ≤ length s → length (drop n s) < length s
length-drop zero s p h = absurd (omega arith)
length-drop (suc n) [] p h = absurd (omega arith)
length-drop (suc zero) (x ∷ s) p h = omega arith
length-drop (suc (suc n)) (x ∷ s) p h =
    let q = length-drop (suc n) s (omega arith) (omega arith) in omega arith

-- More bytes go on from what was kept.
Decodes-append :
    {s l l' : Bytes} {t t' : Text} (ys : Bytes)
    → Decodes s t l
    → Decodes (l ++ ys) t' l'
    → Decodes (s ++ ys) (t ++ t') l'
Decodes-append ys (done s e) d = rw (end_front (rw e at (next_char-Extends s ys))) d
Decodes-append ys (one s c r e rest) d =
    one (s ++ ys) c (r ++ ys) (char_front (rw e at (next_char-Extends s ys))).0
      (Decodes-append ys rest d)
Decodes-append ys (skip s n e rest) d =
    let (front, _, fits) = bad_front (rw e at (next_char-Extends s ys)) in
    skip (s ++ ys) n front (rw (drop-append n s ys fits) (Decodes-append ys rest d))
Decodes-append ys (stop s e) d = d

Decodes-unique :
    {s l l' : Bytes} {t t' : Text} → Decodes s t l → Decodes s t' l' → (t ≡ t') × (l ≡ l')
Decodes-unique (done s e) (done _ e') = (refl, refl)
Decodes-unique (done s e) (one _ c r e' d) = absurd (cc)
Decodes-unique (done s e) (skip _ n e' d) = absurd (cc)
Decodes-unique (done s e) (stop _ e') = absurd (cc)
Decodes-unique (one s c r e d) (done _ e') = absurd (cc)
Decodes-unique (one s c r e d) (one _ c' r' e' d') =
    let same_c : c ≡ c' = cc in
    let same_r : r' ≡ r = cc in
    let (same_t, same_l) = Decodes-unique d (rw same_r at d') in
    (ap₂ (λ x y. x ∷ y) same_c same_t, same_l)
Decodes-unique (one s c r e d) (skip _ n e' d') = absurd (cc)
Decodes-unique (one s c r e d) (stop _ e') = absurd (cc)
Decodes-unique (skip s n e d) (done _ e') = absurd (cc)
Decodes-unique (skip s n e d) (one _ c r e' d') = absurd (cc)
Decodes-unique (skip s n e d) (skip _ n' e' d') =
    let same_n : n' ≡ n = cc in
    let (same_t, same_l) = Decodes-unique d (rw same_n at d') in
    (ap (λ x. replacement ∷ x) same_t, same_l)
Decodes-unique (skip s n e d) (stop _ e') = absurd (cc)
Decodes-unique (stop s e) (done _ e') = absurd (cc)
Decodes-unique (stop s e) (one _ c r e' d') = absurd (cc)
Decodes-unique (stop s e) (skip _ n e' d') = absurd (cc)
Decodes-unique (stop s e) (stop _ e') = (refl, refl)

-- What a result of `from_utf8` says of the bytes: they hold the text; or they do but for a broken
-- end; or they go on behind a sequence that is no character, with fewer bytes left.
Explains : Bytes → Utf8 → Type 0
Explains s (valid t) = Decodes s t []
Explains s (invalid t rest none) = Decodes s t rest
Explains s (invalid t rest (some n)) =
    (length (drop n rest) < length s)
    × ((more : Text) (l : Bytes)
        → Decodes (drop n rest) more l
        → Decodes s (t ++ (replacement ∷ more)) l)

prepend-Explains :
    (s : Bytes) (c : ℕ) (r : Bytes) (u : Utf8)
    → next_char s ≡ char c r
    → length r < length s
    → Explains r u
    → Explains s (prepend c u)
unfolding Explains
prepend-Explains s c r (valid t) e lt d = one s c r e d
prepend-Explains s c r (invalid t rest none) e lt d = one s c r e d
prepend-Explains s c r (invalid t rest (some n)) e lt (fewer, go_on) =
    (omega arith, λ more l d. one s c r e (go_on more l d))

from_utf8-Explains : (fuel : ℕ) (s : Bytes) → length s ≤ fuel → Explains s (from_utf8 fuel s)
unfolding from_utf8 Explains
from_utf8-Explains zero [] h = done [] (unfold next_char in refl)
from_utf8-Explains zero (a ∷ s) h = absurd (omega arith)
from_utf8-Explains (suc fuel) s h =
    go (from_utf8-Explains fuel) (next_char s) refl (next_char-Extends s [])
  where
    go :
        ((r : Bytes) → length r ≤ fuel → Explains r (from_utf8 fuel r))
        → (x : Head) → next_char s ≡ x
        → Extends s [] x (next_char (s ++ []))
        → Explains s (elim x [
          | end ↦ valid []
          | char c rest ↦ prepend c (from_utf8 fuel rest)
          | bad n ↦ invalid [] s (some n)
          | cut ↦ invalid [] s none
        ])
    go rec end e f = done s e
    go rec (char c r) e f =
        let (_, fewer) = char_front f in
        prepend-Explains s c r (from_utf8 fuel r) e fewer (rec r (omega arith))
    go rec (bad n) e f =
        let (_, some_taken, fits) = bad_front f in
        (length-drop n s some_taken fits, λ more l d. skip s n e d)
    go rec cut e f = stop s e

feed_loop-Decodes :
    (fuel : ℕ) (s : Bytes) → length s < fuel → Decodes s (feed_loop fuel s).0 (feed_loop fuel s).1
unfolding feed_loop Explains
feed_loop-Decodes zero s h = absurd (omega arith)
feed_loop-Decodes (suc fuel) [] h = done [] (unfold next_char in refl)
feed_loop-Decodes (suc fuel) (a ∷ s) h =
    go (feed_loop-Decodes fuel) (from_utf8 (length (a ∷ s)) (a ∷ s))
      (from_utf8-Explains (length (a ∷ s)) (a ∷ s) (omega arith))
  where
    go :
        ((r : Bytes) → length r < fuel → Decodes r (feed_loop fuel r).0 (feed_loop fuel r).1)
        → (u : Utf8) → Explains (a ∷ s) u
        → let q : Text × Bytes = elim u [
          | valid text ↦ (text, [])
          | invalid text rest error_len ↦ elim error_len [
            | some len ↦
                let (more, kept) = feed_loop fuel (drop len rest) in
                (text ++ (replacement ∷ more), kept)
            | none ↦ (text, rest)
          ]
        ] in
          Decodes (a ∷ s) q.0 q.1
    go rec (valid text) e = e
    go rec (invalid text rest none) e = e
    go rec (invalid text rest (some n)) (fewer, go_on) = go_on _ _ (rec (drop n rest) (omega arith))

pub feed-Decodes :
    (kept input : Bytes) → Decodes (kept ++ input) (feed kept input).0 (feed kept input).1
unfolding feed
feed-Decodes kept input =
    feed_loop-Decodes (suc (length (kept ++ input))) (kept ++ input) (omega arith)

-- Bytes that come in two chunks give the text that they give in one, and leave the same bytes to be
-- completed by the next chunk.
pub feed-append :
    (kept xs ys : Bytes)
    → let first = feed kept xs in
      let second = feed first.1 ys in feed kept (xs ++ ys) ≡ (first.0 ++ second.0, second.1)
feed-append kept xs ys =
    let first = feed kept xs in
    let second = feed first.1 ys in
    let both : Decodes ((kept ++ xs) ++ ys) (first.0 ++ second.0) second.1 =
      Decodes-append ys (feed-Decodes kept xs) (feed-Decodes first.1 ys) in
    let (same_t, same_l) =
      Decodes-unique (feed-Decodes kept (xs ++ ys)) (rw (append_assoc kept xs ys) at both) in
    λ i. (same_t i, same_l i)
