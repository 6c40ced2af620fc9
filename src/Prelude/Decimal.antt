-- ===== src/Prelude/Decimal.antt =====
-- Numbers in decimal: `to_string` of an unsigned integer, and `parse`.
use Prim.Native.Nat.{ℕ, zero, suc, ◌+◌, ◌-◌, ◌*◌, ◌/◌, ◌%◌, ◌^◌, ◌<◌}
use mathlib.Core.Path.{◌≡◌, refl, ap, ◌∙◌}
use mathlib.Core.Bool.{Bool, true, false, ◌&&◌}
use mathlib.Core.List.{[], ◌∷◌, ◌++◌}
use mathlib.Core.Logic.{inl, inr, ◌≢◌}
use mathlib.Core.Option.{Option, none, some}
use native.Mathlib.Omega.{arith}
use native.Mathlib.Nat.{pow-suc}
use rustion.Prelude.Tests.{ltb, leb, ◌==◌, if◌then◌else◌, Bool-cases}
use rustion.Prelude.Lists.{All, All-append}
use rustion.Prelude.Text.{Text}

-- `to_string`, with as many digits as the type can need for fuel.
unfoldable pub digits : ℕ → ℕ → Text
digits zero n = []
digits (suc fuel) n =
    let before = digits fuel (n / 10) in
    if ltb n 10 then (b'0' + n) ∷ [] else before ++ ((b'0' + n % 10) ∷ [])

abbrev pub is_digit : ℕ → Bool
is_digit c = leb b'0' c && leb c b'9'

-- The value of a text of digits.
unfoldable pub scan : ℕ → Text → Option ℕ
scan acc [] = some acc
scan acc (c ∷ s) = let rest = scan (acc * 10 + (c - b'0')) s in if is_digit c then rest else none

-- What is no digit yet: an empty text is refused.
unfoldable pub parse_digits : Text → Option ℕ
unfolding scan
parse_digits [] = none
parse_digits (c ∷ s) = scan 0 (c ∷ s)

-- A number that the type has room for.
unfoldable pub below : ℕ → Option ℕ → Option ℕ
below bound none = none
below bound (some n) = if ltb n bound then some n else none

-- `parse::<u16>()` and the like: one `+` may stand in front.
unfoldable pub parse_unsigned : ℕ → Text → Option ℕ
unfolding parse_digits below
parse_unsigned bound [] = none
parse_unsigned bound (c ∷ s) = below bound (parse_digits (if c == b'+' then s else c ∷ s))

scan-snoc :
    (acc : ℕ) (s : Text) (c m : ℕ)
    → scan acc s ≡ some m
    → is_digit c ≡ true
    → scan acc (s ++ (c ∷ [])) ≡ some (m * 10 + (c - b'0'))
unfolding scan
scan-snoc acc [] c m h d = ground arith
scan-snoc acc (x ∷ s) c m h d = elim (Bool-cases (is_digit x)) [
  | inl e ↦ rw e (scan-snoc (acc * 10 + (x - b'0')) s c m (rw e at h) d)
  | inr e ↦ ground arith
]

scan-digits : (fuel n : ℕ) → n < 10 ^ fuel → scan 0 (digits fuel n) ≡ some n
unfolding digits
scan-digits zero n h = unfold scan in ground arith
scan-digits (suc fuel) n h = elim (Bool-cases (ltb n 10)) [
  | inl e ↦ rw e (unfold scan in ground arith)
  | inr e ↦
      let within : n / 10 < 10 ^ fuel = let b = pow-suc 10 fuel in omega (arith, b) in
      rw e (
        scan-snoc 0 (digits fuel (n / 10)) (b'0' + n % 10) (n / 10)
          (scan-digits fuel (n / 10) within) (ground arith)
        ∙ ap some (omega arith))
]

pub digits-digit : (fuel n : ℕ) → All (λ c. is_digit c ≡ true) (digits fuel n)
unfolding digits
digits-digit zero n = tt
digits-digit (suc fuel) n = elim (Bool-cases (ltb n 10)) [
  | inl e ↦ rw e (ground arith, tt)
  | inr e ↦
      rw e (All-append _ (digits fuel (n / 10)) _ (digits-digit fuel (n / 10)) (ground arith, tt))
]

pub digits-ne-nil : (fuel n : ℕ) → digits (suc fuel) n ≢ []
unfolding digits
digits-ne-nil fuel n h = elim (Bool-cases (ltb n 10)) [
  | inl e ↦ ground arith
  | inr e ↦ some_snoc (digits fuel (n / 10)) _ (rw e at h)
]
  where
    some_snoc : (s : Text) (c : ℕ) → s ++ (c ∷ []) ≢ []
    some_snoc [] c e = cc
    some_snoc (x ∷ s) c e = cc

parse_digits-scan : (s : Text) → s ≢ [] → parse_digits s ≡ scan 0 s
unfolding parse_digits
parse_digits-scan [] ne = absurd (ne refl)
parse_digits-scan (c ∷ s) ne = refl

parse_unsigned-scan :
    (bound : ℕ) (s : Text)
    → All (λ c. is_digit c ≡ true) s
    → s ≢ []
    → parse_unsigned bound s ≡ below bound (scan 0 s)
unfolding parse_unsigned
parse_unsigned-scan bound [] all ne = absurd (ne refl)
parse_unsigned-scan bound (c ∷ s) all ne =
    let e : (c == b'+') ≡ false = let d = all.0 in ground arith in
    rw e (ap (below bound) (parse_digits-scan (c ∷ s) ne))

pub parse_digits-digits :
    (fuel n : ℕ) → n < 10 ^ suc fuel → parse_digits (digits (suc fuel) n) ≡ some n
parse_digits-digits fuel n h =
    parse_digits-scan _ (digits-ne-nil fuel n) ∙ scan-digits (suc fuel) n h

pub parse_unsigned-digits :
    (bound fuel n : ℕ)
    → n < 10 ^ suc fuel
    → n < bound
    → parse_unsigned bound (digits (suc fuel) n) ≡ some n
parse_unsigned-digits bound fuel n h k =
    parse_unsigned-scan bound _ (digits-digit (suc fuel) n) (digits-ne-nil fuel n)
    ∙ (ap (below bound) (scan-digits (suc fuel) n h) ∙ within)
  where
    within : below bound (some n) ≡ some n
    within = unfold below in ground arith
