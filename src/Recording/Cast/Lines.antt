-- ===== src/Recording/Cast/Lines.antt =====
-- `V3Encoder` and `Parser` of src/asciinema/asciicast/v3.rs: an event as a line, and a line as an
-- event. The writer's none is a panic, where the time goes back.
use rustion.Prelude.{
  ℕ, ◌+◌, ◌-◌, ◌%◌, ◌^◌, Bool, true, false, ◌||◌, Option, none, some, Result, ok, err, List, [],
  ◌∷◌, ◌++◌, leb, ◌==◌, if◌then◌else◌, ◌>>=◌,
}
use rustion.Prelude.Decimal.{digits, parse_unsigned}
use rustion.Prelude.Text.{Text, codes, is_empty}
use rustion.Recording.Quantizer.{Quantizer, new_quantizer, next}
use rustion.Recording.Cast.{
  Event, EventData, output, input, marker, resize, exit, other, Json, format_duration, show_i32,
  parse_i32, split_once, deserialize_time,
}

pub record V3Encoder : Type 0 where
  pub prev_time : ℕ
  pub time_quantizer : Quantizer

unfoldable pub new_encoder : V3Encoder
new_encoder = record { prev_time = 0; time_quantizer = new_quantizer 1000000 }

-- The code and the text of an event.
unfoldable pub code_and_text : EventData → ℕ × Text
code_and_text (output text) = (b'o', text)
code_and_text (input text) = (b'i', text)
code_and_text (resize cols rows) = (b'r', digits 5 cols ++ (b'x' ∷ digits 5 rows))
code_and_text (marker label) = (b'm', label)
code_and_text (exit status) = (b'x', show_i32 status)
code_and_text (other code text) = (code, text)

-- The errors of a line.
pub data CastError : Type 0 where
  json invalid_cols invalid_rows invalid_resize invalid_exit : CastError

abbrev pub or_error {ℓ} : {A : Type ℓ} → CastError → Option A → Result CastError A
or_error e none = err e
or_error e (some a) = ok a

-- The data of an event by its code; a code of more letters counts by its first.
unfoldable pub data_of : ℕ → Text → Result CastError EventData
data_of code text =
    let resized = (do
      (left, right) ← or_error invalid_resize (split_once b'x' text)
      cols ← or_error invalid_cols (parse_unsigned (2 ^ 16) left)
      rows ← or_error invalid_rows (parse_unsigned (2 ^ 16) right)
      ok (resize cols rows)) in
    let exited = (do status ← or_error invalid_exit (parse_i32 text); ok (exit status)) in
    if code == b'o'
    then ok (output text)
    else if code == b'i'
    then ok (input text)
    else if code == b'r'
    then resized
    else if code == b'm'
    then ok (marker text)
    else if code == b'x'
    then exited
    else ok (other code text)

-- `deserialize_code` with it: one letter alone is a code of the format.
unfoldable pub data_of_code : Text → Text → Result CastError EventData
unfolding data_of
data_of_code [] text = err json
data_of_code (c ∷ []) text = data_of c text
data_of_code (c ∷ _ ∷ _) text = ok (other c text)

abbrev pub is_comment : Text → Bool
is_comment [] = false
is_comment (c ∷ _) = c == b'#'

module _ (J : Json) where
  -- The line of an event `d` after the one before.
  unfoldable pub line_after : ℕ → EventData → Text
  unfolding code_and_text
  line_after nanos d =
      codes "["
      ++ (format_duration nanos
          ++ (codes ", "
              ++ (J.to_json_string ((code_and_text d).0 ∷ [])
                  ++ (codes ", " ++ (J.to_json_string (code_and_text d).1 ++ codes "]")))))

  unfoldable pub serialize_event : Event → V3Encoder → Option (Text × V3Encoder)
  unfolding line_after
  serialize_event event encoder =
      let (quantized, quantizer) = next encoder.time_quantizer (event.time - encoder.prev_time) in
      if leb encoder.prev_time event.time
      then some (
        line_after (quantized % 2 ^ 64) event.content,
        record { prev_time = event.time; time_quantizer = quantizer },
      )
      else none

  -- The lines of a sequence of events.
  unfoldable pub encode : V3Encoder → List Event → Option (List Text)
  unfolding serialize_event
  encode encoder [] = some []
  encode encoder (event ∷ events) = elim (serialize_event event encoder) [
    | none ↦ none
    | some written ↦ elim (encode written.1 events) [
      | none ↦ none
      | some lines ↦ some (written.0 ∷ lines)
    ]
  ]

  -- `parse_event`: the event, at the time of the one before and its own. The sum is taken to be a
  -- `Duration`, which holds 2 ^ 64 seconds.
  unfoldable pub parse_event : ℕ → Text → Result CastError Event
  unfolding data_of_code
  parse_event prev_time line = do
    (number, code, text) ← or_error json (J.read_event line)
    time ← or_error json (deserialize_time number)
    d ← data_of_code code text
    ok (record { time = prev_time + time; content = d })

  -- `parse_line` on each line: empty ones and comments are passed over, and after an error the time
  -- stays.
  unfoldable pub parse_lines : ℕ → List Text → List (Result CastError Event)
  unfolding parse_event
  parse_lines prev_time [] = []
  parse_lines prev_time (line ∷ lines) =
      let event = parse_event prev_time line in
      elim (is_empty line || is_comment line) [
        | true ↦ parse_lines prev_time lines
        | false ↦ event ∷ parse_lines (elim event [ ok e ↦ e.time | err _ ↦ prev_time ]) lines
      ]
