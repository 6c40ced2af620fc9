-- ===== src/Prelude/Text.antt =====
-- `&str` and `String` as their code points, with the operations of the standard library that the
-- program calls: equality, `split`, `join`, `split_whitespace`.
use Prim.Native.Char.{code}
use Prim.Native.Nat.{ℕ, suc, ◌≤◌}
use Prim.Native.String.{String}
use mathlib.Core.Path.{◌≡◌, refl, ap, ◌∙◌}
use mathlib.Core.Bool.{Bool, true, false, not, ◌&&◌, ◌||◌}
use mathlib.Core.List.{List, [], ◌∷◌, ◌++◌}
use native.Mathlib.Omega.{arith}
use rustion.Prelude.Tests.{◌==◌, ==_self, leb, Bool-cases, if◌then◌else◌}
use rustion.Prelude.Lists.{All, keep, length}
use mathlib.Core.Logic.{inl, inr, ◌≢◌}

abbrev pub Text : Type 0
Text = List ℕ

-- The code points of a literal.
abbrev pub codes : String → Text
codes String.[] = []
codes (String.◌∷◌ c s) = code c ∷ codes s

abbrev pub text_eq : Text → Text → Bool
text_eq [] [] = true
text_eq [] (_ ∷ _) = false
text_eq (_ ∷ _) [] = false
text_eq (a ∷ s) (b ∷ t) = a == b && text_eq s t

pub text_eq_sound : (s t : Text) → text_eq s t ≡ true → s ≡ t
text_eq_sound [] [] h = refl
text_eq_sound [] (_ ∷ _) h = cc
text_eq_sound (_ ∷ _) [] h = cc
text_eq_sound (a ∷ s) (b ∷ t) h = ground (arith, text_eq_sound s t)

pub text_eq_self : (s : Text) → text_eq s s ≡ true
text_eq_self [] = refl
text_eq_self (a ∷ s) = ground (arith, text_eq_self s)

abbrev pub is_empty : Text → Bool
is_empty [] = true
is_empty (_ ∷ _) = false

-- `str::split` at the characters that `sep` accepts: the parts between them, one at least.
abbrev pub cons_head : ℕ → List Text → List Text
cons_head c [] = (c ∷ []) ∷ []
cons_head c (p ∷ ps) = (c ∷ p) ∷ ps

unfoldable pub split_on : (ℕ → Bool) → Text → List Text
split_on sep [] = [] ∷ []
split_on sep (c ∷ s) = let rest = split_on sep s in if sep c then [] ∷ rest else cons_head c rest

-- `str::split(sep)` at one character.
abbrev pub split : ℕ → Text → List Text
split sep = split_on (λ c. c == sep)

-- `char::is_whitespace`: the code points of Unicode's White_Space.
unfoldable pub is_whitespace : ℕ → Bool
is_whitespace c =
    leb 9 c && leb c 13
    || c == 32
    || c == 0x85
    || c == 0xa0
    || c == 0x1680
    || leb 0x2000 c && leb c 0x200a
    || c == 0x2028
    || c == 0x2029
    || c == 0x202f
    || c == 0x205f
    || c == 0x3000

-- `str::split_whitespace`: the parts between white space that are not empty.
unfoldable pub split_whitespace : Text → List Text
unfolding is_whitespace split_on
split_whitespace s = keep (λ p. not (is_empty p)) (split_on is_whitespace s)

-- `[T]::join(sep)`.
unfoldable pub join : Text → List Text → Text
join sep [] = []
join sep (p ∷ []) = p
join sep (p ∷ q ∷ ps) = p ++ (sep ++ join sep (q ∷ ps))

-- No character of the text is a separator.
abbrev pub Free : (ℕ → Bool) → Text → Type 0
Free sep = All (λ x. sep x ≡ false)

abbrev pub Lacks : ℕ → Text → Type 0
Lacks c = Free (λ x. x == c)

pub split_on-one : (sep : ℕ → Bool) (p : Text) → Free sep p → split_on sep p ≡ p ∷ []
unfolding split_on
split_on-one sep [] h = refl
split_on-one sep (c ∷ p) h = rw (split_on-one sep p h.1, split_on) (ground arith)

pub split_on-more :
    (sep : ℕ → Bool) (p : Text) (c : ℕ) (s : Text)
    → Free sep p
    → sep c ≡ true
    → split_on sep (p ++ (c ∷ s)) ≡ p ∷ split_on sep s
unfolding split_on
split_on-more sep [] c s h e = ground arith
split_on-more sep (x ∷ p) c s h e = rw (split_on-more sep p c s h.1 e, split_on) (ground arith)

-- Splitting undoes joining where no part holds the separator.
pub split-join :
    (sep : ℕ) (p : Text) (ps : List Text)
    → Lacks sep p
    → All (Lacks sep) ps
    → split sep (join (sep ∷ []) (p ∷ ps)) ≡ p ∷ ps
unfolding join
split-join sep p [] h hs = split_on-one (λ c. c == sep) p h
split-join sep p (q ∷ ps) h hs =
    split_on-more (λ c. c == sep) p sep (join (sep ∷ []) (q ∷ ps)) h (==_self sep)
    ∙ ap (λ r. p ∷ r) (split-join sep q ps hs.0 hs.1)

-- The number of separators.
abbrev pub count : ℕ → Text → ℕ
count sep [] = 0
count sep (c ∷ s) = if c == sep then suc (count sep s) else count sep s

length-cons_head : (c : ℕ) (ps : List Text) → 1 ≤ length ps → length (cons_head c ps) ≡ length ps
length-cons_head c [] h = absurd (omega arith)
length-cons_head c (p ∷ ps) h = refl

pub length-split : (sep : ℕ) (s : Text) → length (split sep s) ≡ suc (count sep s)
unfolding split_on
length-split sep [] = refl
length-split sep (c ∷ s) =
    let ih = length-split sep s in
    let same = length-cons_head c (split sep s) (omega arith) in
    elim (Bool-cases (c == sep)) [ inl t ↦ rw t (ap suc ih) | inr t ↦ rw t (same ∙ ih) ]

pub text_eq-ne : (s t : Text) → s ≢ t → text_eq s t ≡ false
text_eq-ne s t h = elim (Bool-cases (text_eq s t)) [
  | inl e ↦ absurd (h (text_eq_sound s t e))
  | inr e ↦ e
]
