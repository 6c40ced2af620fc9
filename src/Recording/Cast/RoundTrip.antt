-- ===== src/Recording/Cast/RoundTrip.antt =====
-- What the writer of a cast file writes, the reader reads, but for the rounding of the times.
use mathlib.Core.Path.{subst}
use native.Mathlib.Nat.{mod-eq_of_lt}
use rustion.Prelude.{
  ℕ, ◌+◌, ◌-◌, ◌*◌, ◌/◌, ◌%◌, ◌^◌, ◌<◌, ◌≤◌, ◌≡◌, refl, ap, sym, ◌∙◌, Bool, true, false, ◌||◌, some,
  Result, ok, err, List, [], ◌∷◌, leb, ◌==◌, arith, All,
}
use rustion.Prelude.Decimal.{parse_unsigned-digits}
use rustion.Prelude.Int.{pos_part, neg_part}
use rustion.Prelude.Text.{Text, is_empty}
use rustion.Recording.Quantizer.{new_quantizer, next}
use rustion.Recording.Quantizer.Drift.{IsNear, next-Moves}
use rustion.Recording.Session.Acts.{Ordered}
use rustion.Recording.Cast.{
  Event, EventData, output, input, marker, resize, exit, other, Json, format_duration, is_escaped,
}
use rustion.Recording.Cast.Lines.{
  V3Encoder, new_encoder, code_and_text, CastError, data_of_code, line_after, serialize_event,
  encode, parse_event, parse_lines, is_comment,
}
use rustion.Recording.Cast.Times.{InI32, parse_i32-show_i32, split_resize, deserialize_time-shown}

abbrev is_reserved : ℕ → Bool
is_reserved c = c == b'o' || c == b'i' || c == b'r' || c == b'm' || c == b'x' || is_escaped c

-- The data that the machine types hold, and for other data a code that is none of the format's and
-- that JSON writes as it is.
abbrev pub Writable : EventData → Type 0
Writable (resize cols rows) = (cols < 2 ^ 16) × (rows < 2 ^ 16)
Writable (exit status) = InI32 status
Writable (other code text) = is_reserved code ≡ false
Writable (output text) = Unit
Writable (input text) = Unit
Writable (marker label) = Unit

-- An event as it was, but for half a millisecond of its time.
abbrev pub Close : List Event → List (Result CastError Event) → Type 0
Close [] [] = Unit
Close (e ∷ es) (ok f ∷ fs) =
    (f.content ≡ e.content) × (f.time ≤ e.time + 500000) × (e.time ≤ f.time + 500000) × Close es fs
Close (e ∷ es) (err _ ∷ fs) = ⊥
Close (e ∷ es) [] = ⊥
Close [] (_ ∷ fs) = ⊥

data_of-written :
    (d : EventData)
    → Writable d
    → data_of_code ((code_and_text d).0 ∷ []) (code_and_text d).1 ≡ ok d
unfolding data_of_code code_and_text
data_of-written (output text) h = refl
data_of-written (input text) h = refl
data_of-written (marker label) h = refl
data_of-written (resize cols rows) h = rw (
  split_resize cols rows,
  parse_unsigned-digits (2 ^ 16) 4 cols (omega (arith, h.0)) h.0,
  parse_unsigned-digits (2 ^ 16) 4 rows (omega (arith, h.1)) h.1,
)
data_of-written (exit status) h = rw (parse_i32-show_i32 status h)
data_of-written (other code text) h = ground arith

plain_code : (d : EventData) → Writable d → is_escaped (code_and_text d).0 ≡ false
unfolding code_and_text
plain_code (output text) h = refl
plain_code (input text) h = refl
plain_code (marker label) h = refl
plain_code (resize cols rows) h = refl
plain_code (exit status) h = refl
plain_code (other code text) h = ground arith

whole_steps : (out q : ℕ) → q ≡ 1000000 → out % q ≡ 0 → out / 1000000 * 1000000 ≡ out
whole_steps out q e h = let w : out % 1000000 ≡ 0 = rw (← e) h in omega arith

module _ (J : Json) where
  parse_event-line :
      (p nanos : ℕ) (d : EventData)
      → nanos < 2 ^ 64
      → Writable d
      → parse_event J p (line_after J nanos d)
        ≡ ok (record { time = p + nanos / 1000000 * 1000000; content = d })
  unfolding parse_event line_after format_duration
  parse_event-line p nanos d h w = rw (
    J.reads (nanos / 1000000) (code_and_text d).0 (code_and_text d).1 (omega arith)
        (plain_code d w),
    deserialize_time-shown (nanos / 1000000) (omega arith),
    data_of-written d w,
  )

  -- The state of the reader against that of the writer: it lags behind by the error.
  record Follows (p : ℕ) (encoder : V3Encoder) : Type 0 where
    near : IsNear encoder.time_quantizer
    thousandth : encoder.time_quantizer.q ≡ 1000000
    lag :
        encoder.prev_time + neg_part encoder.time_quantizer.error
        ≡ p + pos_part encoder.time_quantizer.error
    early : encoder.prev_time < 2 ^ 63

  -- One event.
  record Written (p : ℕ) (encoder : V3Encoder) (e : Event) : Type 0 where
    line : Text
    behind : V3Encoder
    time : ℕ
    writes : serialize_event J e encoder ≡ some (line, behind)
    plain : (is_empty line || is_comment line) ≡ false
    reads : parse_event J p line ≡ ok (record { time = time; content = e.content })
    follows : Follows time behind
    at : behind.prev_time ≡ e.time

  serialize_event-Written :
      (p : ℕ) (encoder : V3Encoder) (e : Event)
      → Follows p encoder
      → encoder.prev_time ≤ e.time
      → e.time < 2 ^ 63
      → Writable e.content
      → Written p encoder e
  serialize_event-Written p encoder e f later small w =
      let dt = e.time - encoder.prev_time in
      let z = encoder.time_quantizer in
      let m = next-Moves z dt f.near (omega arith) in
      let out = (next z dt).0 in
      let q = f.thousandth in
      let balance = m.balance in
      let near = f.near in
      let near' = m.near in
      let same = m.same_q in
      let lag = f.lag in
      let half : z.q / 2 ≡ 500000 = ap (λ (x : ℕ). x / 2) q in
      let half' : (next z dt).1.q / 2 ≡ 500000 = ap (λ (x : ℕ). x / 2) (same ∙ q) in
      let fits : out < 2 ^ 64 = omega (arith, near.above, near'.under) in
      let whole = whole_steps out z.q q m.whole in
      let stays : out % 2 ^ 64 ≡ out = mod-eq_of_lt fits in
      let in_order : leb encoder.prev_time e.time ≡ true = ground arith in
      record {
        line = line_after J out e.content;
        behind = record { prev_time = e.time; time_quantizer = (next z dt).1 };
        time = p + out;
        writes = unfold serialize_event in rw (in_order, stays);
        plain = unfold line_after in refl;
        reads = rw whole at (parse_event-line p out e.content fits w);
        follows = record { near = near'; thousandth = same ∙ q; lag = omega arith; early = small };
        at = refl;
      }

  encode-cons :
      (encoder : V3Encoder) (e : Event) (es : List Event) (w : Text × V3Encoder) (lines : List Text)
      → serialize_event J e encoder ≡ some w
      → encode J w.1 es ≡ some lines
      → encode J encoder (e ∷ es) ≡ some (w.0 ∷ lines)
  unfolding encode
  encode-cons encoder e es w lines p q = rw (p, encode) (rw (q, encode))

  parse_lines-cons :
      (p : ℕ) (line : Text) (lines : List Text) (e : Event)
      → (is_empty line || is_comment line) ≡ false
      → parse_event J p line ≡ ok e
      → parse_lines J p (line ∷ lines) ≡ ok e ∷ parse_lines J e.time lines
  unfolding parse_lines
  parse_lines-cons p line lines e plain reads = rw (plain, parse_lines) (rw (reads, parse_lines))

  encode-Close :
      (p : ℕ) (encoder : V3Encoder) (events : List Event)
      → Follows p encoder
      → Ordered (λ (e : Event). e.time) encoder.prev_time events
      → All (λ e. (e.time < 2 ^ 63) × Writable e.content) events
      → (lines : List Text) × (encode J encoder events ≡ some lines)
        × Close events (parse_lines J p lines)
  encode-Close p encoder [] f o all = ([], unfold encode in refl, unfold parse_lines in tt)
  encode-Close p encoder (e ∷ events) f o all =
      let one = serialize_event-Written p encoder e f o.0 all.0.0 all.0.1 in
      let follows = one.follows in
      let lag = follows.lag in
      let above = follows.near.above in
      let under = follows.near.under in
      let half = ap (λ (x : ℕ). x / 2) follows.thousandth in
      let at = one.at in
      let (lines, runs, close) =
        encode-Close one.time one.behind events follows
          (subst (λ x. Ordered (λ (v : Event). v.time) x events) (sym at) o.1) all.1 in
      (
        one.line ∷ lines,
        encode-cons encoder e events (one.line, one.behind) lines one.writes runs,
        rw (parse_lines-cons p one.line lines _ one.plain one.reads)
            (refl, omega arith, omega arith, close),
      )

  -- Events whose times do not go back, and stay below 2 ^ 63 nanoseconds, with data that the machine
  -- types hold, and for other data a code that is none of the format's and that JSON writes without a
  -- backslash: they are written without a panic, and what is written is read back as the same data in the same order, each at a time within half a
  -- millisecond of its own.
  pub encode-parse_lines :
      (events : List Event)
      → Ordered (λ (e : Event). e.time) 0 events
      → All (λ e. (e.time < 2 ^ 63) × Writable e.content) events
      → (lines : List Text) × (encode J new_encoder events ≡ some lines)
        × Close events (parse_lines J 0 lines)
  unfolding new_encoder new_quantizer
  encode-parse_lines events o all =
      encode-Close 0 new_encoder events
        (record {
          near = record {
            step = omega arith;
            small = omega arith;
            above = omega arith;
            under = omega arith;
          };
          thousandth = refl;
          lag = omega arith;
          early = omega arith;
        })
        o all
