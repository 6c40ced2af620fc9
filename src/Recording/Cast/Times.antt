-- ===== src/Recording/Cast/Times.antt =====
-- Times and numbers of a cast file are read back as they were written.
use mathlib.Core.List.{append-nil}
use mathlib.Core.Option
use native.Mathlib.Nat.{mod-eq_of_lt}
use rustion.Prelude.{
  ℕ, zero, suc, ◌+◌, ◌*◌, ◌/◌, ◌%◌, ◌^◌, ◌<◌, ◌≤◌, ◌≡◌, refl, ap, ◌∙◌, Bool, true, false, not, ◌≢◌,
  ◌&&◌, Option, none, some, [], ◌∷◌, ◌++◌, ◌==◌, arith, All, Bool-cases, inl, inr,
}
use rustion.Prelude.Decimal.{
  digits, is_digit, digits-digit, parse_unsigned, parse_unsigned-digits, parse_digits-digits, below,
  digits-ne-nil,
}
use rustion.Prelude.Int.{ℤ, pos, negsuc}
use rustion.Prelude.Text.{Text, split_on-one, split_on-more, Lacks}
use rustion.Recording.Cast.{
  shown_fraction, show_i32, parse_i32, split_once, parse_fraction, deserialize_time,
}

-- A test on every number that `k` more can reach, by evaluation.
passes_up_to : (ℕ → Bool) → ℕ → Bool
passes_up_to test zero = test zero
passes_up_to test (suc k) = passes_up_to test k && test (suc k)

passes_up_to-at : (test : ℕ → Bool) (k m : ℕ) → m ≤ k → passes_up_to test k ≡ true → test m ≡ true
unfolding passes_up_to
passes_up_to-at test zero m le all = let e : zero ≡ m = omega arith in rw e at all
passes_up_to-at test (suc k) m le all = elim (Bool-cases (m == suc k)) [
  | inl e ↦ let same : m ≡ suc k = ground arith in rw same (ground arith)
  | inr e ↦ passes_up_to-at test k m (ground arith) (ground arith)
]

digits-Lacks : (sep fuel n : ℕ) → is_digit sep ≡ false → Lacks sep (digits fuel n)
digits-Lacks sep fuel n h = go (digits fuel n) (digits-digit fuel n)
  where
    go : (s : Text) → All (λ c. is_digit c ≡ true) s → Lacks sep s
    go [] all = tt
    go (c ∷ s) all = (let d = all.0 in ground arith, go s all.1)

split_once-append :
    (sep : ℕ) (s t : Text) → Lacks sep s → split_once sep (s ++ (sep ∷ t)) ≡ some (s, t)
unfolding split_once
split_once-append sep [] t h = ground arith
split_once-append sep (c ∷ s) t h = rw (h.0, split_once-append sep s t h.1)

pub split_resize :
    (cols rows : ℕ)
    → split_once b'x' (digits 5 cols ++ (b'x' ∷ digits 5 rows))
      ≡ some (digits 5 cols, digits 5 rows)
split_resize cols rows = split_once-append b'x' (digits 5 cols) _ (digits-Lacks b'x' 5 cols refl)

-- The range of an `i32`.
abbrev pub InI32 : ℤ → Type 0
InI32 (pos n) = n < 2 ^ 31
InI32 (negsuc n) = n < 2 ^ 31

parse_i32-positive :
    (s : Text)
    → All (λ c. is_digit c ≡ true) s
    → s ≢ []
    → parse_i32 s ≡ Option.map pos (parse_unsigned (2 ^ 31) s)
unfolding parse_i32
parse_i32-positive [] all ne = absurd (ne refl)
parse_i32-positive (c ∷ s) all ne =
    let e : (c == b'-') ≡ false = let d = all.0 in ground arith in rw e

pub parse_i32-show_i32 : (z : ℤ) → InI32 z → parse_i32 (show_i32 z) ≡ some z
unfolding show_i32 parse_i32
parse_i32-show_i32 (pos n) h =
    parse_i32-positive _ (digits-digit 10 n) (digits-ne-nil 9 n)
    ∙ ap (Option.map pos) (parse_unsigned-digits (2 ^ 31) 9 n (omega arith) h)
parse_i32-show_i32 (negsuc n) h =
    rw (parse_digits-digits 9 (suc n) (omega arith)) (unfold below in ground arith)

no_dot : Text → Bool
no_dot [] = true
no_dot (c ∷ s) = not (c == b'.') && no_dot s

no_dot-Lacks : (s : Text) → no_dot s ≡ true → Lacks b'.' s
unfolding no_dot
no_dot-Lacks [] h = tt
no_dot-Lacks (c ∷ s) h = (ground arith, no_dot-Lacks s (ground arith))

-- A fraction that is read as so many thousands.
is_thousands : ℕ → Option ℕ → Bool
is_thousands m none = false
is_thousands m (some n) = n == m * 1000

reads_as : ℕ → Text → Bool
reads_as m [] = m == 0
reads_as m (dot ∷ right) = dot == b'.' && (no_dot right && is_thousands m (parse_fraction right))

-- The fractions below a thousand, one by one.
fraction_table : passes_up_to (λ m. reads_as m (shown_fraction m)) 999 ≡ true
unfolding passes_up_to reads_as no_dot is_thousands parse_fraction shown_fraction parse_unsigned
fraction_table = refl

thousands-eq : (m : ℕ) (o : Option ℕ) → is_thousands m o ≡ true → o ≡ some (m * 1000)
unfolding is_thousands
thousands-eq m none h = cc
thousands-eq m (some n) h = ground arith

deserialize-parts :
    (left f : Text) (secs m : ℕ)
    → Lacks b'.' left
    → parse_unsigned (2 ^ 64) left ≡ some secs
    → reads_as m f ≡ true
    → secs < 10 ^ 12
    → m < 1000
    → deserialize_time (left ++ f) ≡ some ((secs * 1000000 + m * 1000) * 1000)
unfolding deserialize_time reads_as
deserialize-parts left [] secs m lacks p h small fraction =
    let z : m ≡ 0 = ground arith in
    let fits' : secs * 1000000 % 2 ^ 64 * 1000 ≡ (secs * 1000000 + m * 1000) * 1000 = omega arith in
    rw (append-nil left, split_on-one (λ c. c == b'.') left lacks, p) (ap some fits')
deserialize-parts left (dot ∷ right) secs m lacks p h small fraction =
    let is_dot : (dot == b'.') ≡ true = ground arith in
    let free : no_dot right ≡ true = ground arith in
    let value = thousands-eq m (parse_fraction right) (ground arith) in
    let fits = mod-eq_of_lt {n = secs * 1000000 + m * 1000} {m = 2 ^ 64} (omega arith) in
    rw (
      split_on-more (λ c. c == b'.') left dot right lacks is_dot,
      split_on-one (λ c. c == b'.') right (no_dot-Lacks right free),
      p,
      value,
      fits,
    )

-- A time in milliseconds, as an `f64` shows it.
pub deserialize_time-shown :
    (time_ms : ℕ)
    → time_ms < 10 ^ 15
    → deserialize_time (digits 20 (time_ms / 1000) ++ shown_fraction (time_ms % 1000))
      ≡ some (time_ms * 1000000)
deserialize_time-shown time_ms h =
    let secs = time_ms / 1000 in
    deserialize-parts (digits 20 secs) _ secs (time_ms % 1000) (digits-Lacks b'.' 20 secs refl)
      (parse_unsigned-digits (2 ^ 64) 19 secs (omega arith) (omega arith))
      (passes_up_to-at _ 999 (time_ms % 1000) (omega arith) fraction_table) (omega arith)
      (omega arith)
    ∙ ap some (omega arith)
