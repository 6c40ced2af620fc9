-- ===== src/Recording/Cast.antt =====
-- The events of a cast file: src/asciinema/asciicast/mod.rs, the writer `V3Encoder` and the reader
-- `Parser` of src/asciinema/asciicast/v3.rs, and `deserialize_time` of
-- src/asciinema/asciicast/util.rs. A `Duration` is its nanoseconds. A line stands without its
-- newline, which `BufRead::lines` takes off again.
pub mod Lines
pub mod Times
pub mod RoundTrip
use rustion.Prelude.{
  ℕ, zero, suc, ◌+◌, ◌-◌, ◌*◌, ◌/◌, ◌%◌, ◌^◌, ◌<◌, ◌≡◌, Bool, ◌&&◌, Option, none, some, List, [],
  ◌∷◌, ◌++◌, leb, ltb, ◌==◌, if◌then◌else◌, ◌||◌, false,
}
use mathlib.Core.Option
use rustion.Prelude.Decimal.{digits, parse_digits, parse_unsigned, below}
use rustion.Prelude.Int.{ℤ, pos, negsuc}
use rustion.Prelude.Text.{Text, codes, split, is_empty}
use rustion.Prelude.Trim.{trim}
use rustion.Recording.Quantizer.{Quantizer, new_quantizer, next}
use rustion.Recording.Session
use rustion.Prelude.Options.{◌>>=◌}
use rustion.Recording.Session.{TtySize}

pub data EventData : Type 0 where
  output input marker : Text → EventData
  resize : ℕ → ℕ → EventData
  exit : ℤ → EventData
  other : ℕ → Text → EventData

pub record Event : Type 0 where
  pub time : ℕ
  pub content : EventData

-- `From<session::Event>` of src/asciinema/file_writer.rs.
unfoldable pub of_session : Session.Event → Event
of_session (Session.output t text) = record { time = t; content = output text }
of_session (Session.input t text) = record { time = t; content = input text }
of_session (Session.resize t size) = record { time = t; content = resize size.cols size.rows }
of_session (Session.marker t label) = record { time = t; content = marker label }
of_session (Session.exit t status) = record { time = t; content = exit status }

-- `{n:03}` below a thousand.
abbrev pub three_digits : ℕ → Text
three_digits n = (b'0' + n / 100) ∷ (b'0' + n / 10 % 10) ∷ (b'0' + n % 10) ∷ []

unfoldable pub format_millis : ℕ → Text
format_millis time_ms = digits 20 (time_ms / 1000) ++ (b'.' ∷ three_digits (time_ms % 1000))

unfoldable pub format_duration : ℕ → Text
unfolding format_millis
format_duration nanos = format_millis (nanos / 1000000)

-- A number with three decimals as `f64` shows it: without zeros at the end, nor a dot before nothing.
unfoldable pub shown_fraction : ℕ → Text
shown_fraction millis =
    if millis == 0
    then []
    else if millis % 100 == 0
    then b'.' ∷ (b'0' + millis / 100) ∷ []
    else if millis % 10 == 0
    then b'.' ∷ (b'0' + millis / 100) ∷ (b'0' + millis / 10 % 10) ∷ []
    else b'.' ∷ three_digits millis

-- The line of an event, with its time in milliseconds.
abbrev pub line_of : (Text → Text) → ℕ → Text → Text → Text
line_of to_json_string time_ms code text =
    codes "["
    ++ (format_millis time_ms
        ++ (codes ", "
            ++ (to_json_string code ++ (codes ", " ++ (to_json_string text ++ codes "]")))))

-- What JSON writes with a backslash.
abbrev pub is_escaped : ℕ → Bool
is_escaped c = c == b'"' || c == 0x5c || ltb c 0x20

-- serde_json: strings in its notation, and the parts of an array of a number, a code and a text, the
-- number by `as_f64` and `to_string`. Fifteen digits are exact in an `f64`. The code is read as a
-- borrowed `&str`, which a string with a backslash cannot give.
pub record Json : Type 0 where
  pub to_json_string : Text → Text
  pub read_event : Text → Option (Text × Text × Text)
  pub reads :
      (time_ms code : ℕ) (text : Text)
      → time_ms < 10 ^ 15
      → is_escaped code ≡ false
      → read_event (line_of to_json_string time_ms (code ∷ []) text)
        ≡ some (digits 20 (time_ms / 1000) ++ shown_fraction (time_ms % 1000), code ∷ [], text)

-- `i32::to_string` and `parse`.
unfoldable pub show_i32 : ℤ → Text
show_i32 (pos n) = digits 10 n
show_i32 (negsuc n) = b'-' ∷ digits 10 (suc n)

negative : ℕ → ℤ
negative zero = pos 0
negative (suc n) = negsuc n

unfoldable pub parse_i32 : Text → Option ℤ
unfolding negative
parse_i32 [] = none
parse_i32 (c ∷ s) =
    if c == b'-'
    then Option.map negative (below (2 ^ 31 + 1) (parse_digits s))
    else Option.map pos (parse_unsigned (2 ^ 31) (c ∷ s))

-- `str::split_once`.
unfoldable pub split_once : ℕ → Text → Option (Text × Text)
split_once sep [] = none
split_once sep (c ∷ s) =
    let rest = Option.map (λ (p : Text × Text). (c ∷ p.0, p.1)) (split_once sep s) in
    if c == sep then some ([], s) else rest

abbrev first_six : Text → Text
first_six (a ∷ b ∷ c ∷ d ∷ e ∷ f ∷ s) = a ∷ b ∷ c ∷ d ∷ e ∷ f ∷ []
first_six s = s

-- `{:0<6}`.
pad : ℕ → Text → Text
pad zero s = s
pad (suc n) [] = b'0' ∷ pad n []
pad (suc n) (c ∷ s) = c ∷ pad n s

unfoldable pub parse_fraction : Text → Option ℕ
unfolding pad
parse_fraction right = parse_unsigned (2 ^ 64) (pad 6 (first_six (trim right)))

-- The parts of `deserialize_time`, in nanoseconds; every refusal is none. The microseconds are a
-- u64, which wraps.
unfoldable pub time_of_parts : List Text → Option ℕ
unfolding parse_fraction
time_of_parts (number ∷ []) = do
  secs ← parse_unsigned (2 ^ 64) number
  some (secs * 1000000 % 2 ^ 64 * 1000)
time_of_parts (left ∷ right ∷ []) = do
  secs ← parse_unsigned (2 ^ 64) left
  micros ← parse_fraction right
  some ((secs * 1000000 + micros) % 2 ^ 64 * 1000)
time_of_parts [] = none
time_of_parts (_ ∷ _ ∷ _ ∷ _) = none

unfoldable pub deserialize_time : Text → Option ℕ
unfolding time_of_parts
deserialize_time number = time_of_parts (split b'.' number)
