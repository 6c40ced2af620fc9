-- ===== src/Recording/Tests.antt =====
-- The recording of sessions on concrete inputs.
use rustion.Prelude.{
  ℕ, ◌+◌, ◌-◌, ◌%◌, ◌/◌, ◌^◌, ◌<◌, ◌≤◌, ◌≡◌, refl, Bool, true, false, Option, none, some, List, [],
  ◌∷◌, ◌++◌, arith, All, map, if◌then◌else◌,
}
use rustion.Prelude.Int.{pos, negsuc}
use rustion.Prelude.Text.{Text, codes}
use rustion.Recording.Quantizer.{new_quantizer, quantize, as_i128, as_u128, next}
use rustion.Recording.Quantizer.Drift.{sum, quantize-drift}
use rustion.Recording.Utf8.{feed, feed_loop, from_utf8, next_char}
use rustion.Recording.Utf8.Chunks.{feed-append}
use rustion.Recording.Utf8.Many.{concat}
use rustion.Recording.Session.{TtySize, Session, new_session}
use rustion.Recording.Session as Recorder
use rustion.Recording.Session.Acts.{
  Act, wrote, typed, exited, run, printed, entered, time_of, written_by, typed_by, all_bytes,
  Ordered,
}
use rustion.Recording.Session.Faithful.{run-new_session}
use rustion.Recording.Cast.{Event, output, resize, exit, other}
use rustion.Recording.Cast.Lines.{new_encoder, encode, parse_lines}
use rustion.Recording.Cast.RoundTrip.{Close, encode-parse_lines}
use rustion.Recording.Idle.{limit_idle_time}
use rustion.Recording.Idle.Gaps.{contents, times, gaps, at_most, limit_idle_time-gaps}
use rustion.Recording.Sample.{sample_json}

abbrev values : List ℕ
values = 26692 ∷ 540290 ∷ 64736 ∷ 105951 ∷ []

quantize_test : quantize (new_quantizer 1000) values ≡ 27000 ∷ 540000 ∷ 65000 ∷ 106000 ∷ []
unfolding quantize new_quantizer next as_i128 as_u128 rustion.Prelude.Int.◌+ℤ◌
    rustion.Prelude.Int.◌-ℤ◌ rustion.Prelude.Int.times rustion.Prelude.Int.over
quantize_test = refl

quantize-drift_example :
    (sum (quantize (new_quantizer 1000) values) ≤ sum values + 500)
    × (sum values ≤ sum (quantize (new_quantizer 1000) values) + 500)
    × All (λ w. w % 1000 ≡ 0) (quantize (new_quantizer 1000) values)
quantize-drift_example =
    quantize-drift 1000 values (omega arith) (omega arith)
      (omega arith, (omega arith, (omega arith, (omega arith, tt))))

-- A letter of two bytes that comes in two chunks.
feed-append_example : feed [] ((0x7a ∷ 0xc5 ∷ []) ++ (0xbc ∷ 0x80 ∷ [])) ≡ (
  (feed [] (0x7a ∷ 0xc5 ∷ [])).0 ++ (feed (feed [] (0x7a ∷ 0xc5 ∷ [])).1 (0xbc ∷ 0x80 ∷ [])).0,
  (feed (feed [] (0x7a ∷ 0xc5 ∷ [])).1 (0xbc ∷ 0x80 ∷ [])).1,
)
feed-append_example = feed-append [] (0x7a ∷ 0xc5 ∷ []) (0xbc ∷ 0x80 ∷ [])

feed_test :
    feed (0xc5 ∷ []) (0xbc ∷ 0x80 ∷ 0xf0 ∷ 0x90 ∷ []) ≡ (0x17c ∷ 0xfffd ∷ [], 0xf0 ∷ 0x90 ∷ [])
unfolding feed feed_loop from_utf8 next_char
feed_test = refl

abbrev acts : List (ℕ × Act)
acts =
    (1, wrote (0xc5 ∷ []))
    ∷ (2, typed (0x61 ∷ []))
    ∷ (5, wrote (0xbc ∷ []))
    ∷ (9, exited (pos 0))
    ∷ []

abbrev size : TtySize
size = record { cols = 80; rows = 24 }

run-new_session_example :
    (es : List Recorder.Event) × (last : Session) × (run (new_session size true) acts
      ≡ some (es, last))
    × (printed es ≡ (feed [] (concat (all_bytes written_by acts))).0)
    × (entered es ≡ (if true then (feed [] (concat (all_bytes typed_by acts))).0 else []))
    × Ordered time_of 0 es
run-new_session_example =
    run-new_session size true acts 0 (omega arith, (omega arith, (omega arith, (omega arith, tt))))

abbrev recorded : List Event
recorded =
    record { time = 1234567890; content = output (codes "a\"b") }
    ∷ record { time = 1234999999; content = resize 80 24 }
    ∷ record { time = 9000000000; content = other b'z' (codes "?") }
    ∷ record { time = 9000000001; content = exit (negsuc 0) }
    ∷ []

encode-parse_lines_example :
    (lines : List Text) × (encode sample_json new_encoder recorded ≡ some lines)
    × Close recorded (parse_lines sample_json 0 lines)
encode-parse_lines_example =
    encode-parse_lines sample_json recorded
      (omega arith, (omega arith, (omega arith, (omega arith, tt))))
      (
        (omega arith, tt),
        (
          (omega arith, (omega arith, omega arith)),
          ((omega arith, refl), ((omega arith, omega arith), tt)),
        ),
      )

abbrev file : List Text
file =
    codes "[0.500, \"o\", \"a\"]" ∷ codes "# pause" ∷ codes "[7.000, \"o\", \"b\"]" ∷ codes "?" ∷ []

limit_idle_time-gaps_example :
    (contents (limit_idle_time 2000000000 (parse_lines sample_json 0 file))
      ≡ contents (parse_lines sample_json 0 file))
    × (gaps 0 (times (limit_idle_time 2000000000 (parse_lines sample_json 0 file)))
        ≡ map (at_most 2000000000) (gaps 0 (times (parse_lines sample_json 0 file))))
    × Ordered (λ (t : ℕ). t) 0 (times (limit_idle_time 2000000000 (parse_lines sample_json 0 file)))
limit_idle_time-gaps_example = limit_idle_time-gaps sample_json 2000000000 file
