-- ===== src/Recording/Sample.antt =====
-- A reader and a writer of the lines of a cast file, in place of serde_json.
use mathlib.Core.List.{append_assoc}
use mathlib.Core.Option
use rustion.Prelude.{
  ℕ, zero, suc, ◌+◌, ◌/◌, ◌%◌, ◌^◌, ◌<◌, ◌≡◌, refl, ap, ◌∙◌, Bool, true, false, ◌||◌, Option, none,
  some, [], ◌∷◌, ◌++◌, ◌==◌, if◌then◌else◌, arith, All, Bool-cases, inl, inr,
}
use rustion.Prelude.Decimal.{digits, is_digit, digits-digit}
use rustion.Prelude.Text.{Text, codes}
use rustion.Prelude.Options.{◌>>=◌}
use rustion.Recording.Cast.{Json, line_of, format_millis, shown_fraction, three_digits, is_escaped}

takes_backslash : ℕ → Bool
takes_backslash c = c == b'"' || c == 0x5c

escape : Text → Text
unfolding takes_backslash
escape [] = []
escape (c ∷ s) = if takes_backslash c then 0x5c ∷ c ∷ escape s else c ∷ escape s

-- Up to the closing quote; behind a backslash any character counts as itself.
unescape : Bool → Text → Option (Text × Text)
unescape b [] = none
unescape true (c ∷ s) = Option.map (λ (p : Text × Text). (c ∷ p.0, p.1)) (unescape false s)
unescape false (c ∷ s) =
    let behind = unescape true s in
    let plain = Option.map (λ (p : Text × Text). (c ∷ p.0, p.1)) (unescape false s) in
    if c == b'"' then some ([], s) else if c == 0x5c then behind else plain

unescape-escape : (t rest : Text) → unescape false (escape t ++ (b'"' ∷ rest)) ≡ some (t, rest)
unfolding unescape escape takes_backslash
unescape-escape [] rest = refl
unescape-escape (c ∷ t) rest = elim (Bool-cases (c == b'"' || c == 0x5c)) [
  | inl e ↦ rw (e, unescape-escape t rest)
  | inr e ↦
      let q : (c == b'"') ≡ false = ground arith in
      let k : (c == 0x5c) ≡ false = ground arith in rw e (rw (q, k, unescape-escape t rest))
]

quote : Text → Text
quote s = b'"' ∷ escape s ++ (b'"' ∷ [])

-- A quoted text.
read_string : Text → Option (Text × Text)
read_string [] = none
read_string (c ∷ s) = unescape false s

read_string-quote : (t rest : Text) → read_string (quote t ++ rest) ≡ some (t, rest)
unfolding read_string quote
read_string-quote t rest =
    ap (unescape false) (append_assoc (escape t) (b'"' ∷ []) rest) ∙ unescape-escape t rest

-- The number as `f64` shows it: the zeros at the end of three decimals go.
short : ℕ → ℕ → ℕ → Text
short a b c =
    if c == b'0'
    then if b == b'0' then if a == b'0' then [] else b'.' ∷ a ∷ [] else b'.' ∷ a ∷ b ∷ []
    else b'.' ∷ a ∷ b ∷ c ∷ []

short-shown :
    (n : ℕ)
    → n < 1000
    → short (b'0' + n / 100) (b'0' + n / 10 % 10) (b'0' + n % 10) ≡ shown_fraction n
unfolding short shown_fraction
short-shown n h = ground arith

decimals : Text → Option (Text × Text)
decimals (a ∷ b ∷ c ∷ s) = some (short a b c, s)
decimals [] = none
decimals (_ ∷ []) = none
decimals (_ ∷ _ ∷ []) = none

number : Text → Option (Text × Text)
number [] = none
number (c ∷ s) =
    let rest = Option.map (λ (p : Text × Text). (c ∷ p.0, p.1)) (number s) in
    if c == b'.' then decimals s else rest

number-format :
    (ds : Text) (n : ℕ) (rest : Text)
    → All (λ c. is_digit c ≡ true) ds
    → n < 1000
    → number (ds ++ (b'.' ∷ three_digits n ++ rest)) ≡ some (ds ++ shown_fraction n, rest)
unfolding number decimals
number-format [] n rest all h = ap (λ x. some (x, rest)) (short-shown n h)
number-format (c ∷ ds) n rest all h =
    let e : (c == b'.') ≡ false = let d = all.0 in ground arith in
    rw (e, number-format ds n rest all.1 h)

skip : ℕ → Text → Text
skip zero s = s
skip (suc n) [] = []
skip (suc n) (_ ∷ s) = skip n s

read_event : Text → Option (Text × Text × Text)
unfolding skip
read_event line = do
  (n, s) ← number (skip 1 line)
  (code, s') ← read_string (skip 2 s)
  (text, _) ← read_string (skip 2 s')
  some (n, code, text)

read_event-line :
    (time_ms code : ℕ) (text : Text)
    → time_ms < 10 ^ 15
    → is_escaped code ≡ false
    → read_event (line_of quote time_ms (code ∷ []) text)
      ≡ some (digits 20 (time_ms / 1000) ++ shown_fraction (time_ms % 1000), code ∷ [], text)
unfolding read_event format_millis skip
read_event-line time_ms code text h plain =
    let front = digits 20 (time_ms / 1000) in
    let last = codes ", " ++ (quote text ++ codes "]") in
    let behind = codes ", " ++ (quote (code ∷ []) ++ last) in
    rw (
      append_assoc front (b'.' ∷ three_digits (time_ms % 1000)) behind,
      number-format front (time_ms % 1000) behind (digits-digit 20 (time_ms / 1000)) (omega arith),
      read_string-quote (code ∷ []) last,
      read_string-quote text (codes "]"),
    )

pub sample_json : Json
sample_json = record { to_json_string = quote; read_event = read_event; reads = read_event-line }
