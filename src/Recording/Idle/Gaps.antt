-- ===== src/Recording/Idle/Gaps.antt =====
-- The pauses of a recording, as it is written and as it is played.
use rustion.Prelude.{
  ℕ, ◌+◌, ◌-◌, ◌≤◌, ◌≡◌, refl, ap, List, [], ◌∷◌, Result, ok, err, ltb, if◌then◌else◌, arith, map,
  Bool, true, false, ◌||◌, sym, bind-eq-ok,
}
use mathlib.Core.Path.{ap₂, subst, subst₂}
use rustion.Prelude.Text.{Text, is_empty}
use rustion.Recording.Cast.{Event, EventData, Json, deserialize_time}
use rustion.Recording.Cast.Lines.{
  CastError, parse_event, parse_lines, is_comment, or_error, data_of_code, json,
}
use rustion.Recording.Idle.{Idle, limit_event, limit_from, limit_idle_time}
use rustion.Recording.Session.Acts.{Ordered}

-- The times of the events that were read.
abbrev pub times : List (Result CastError Event) → List ℕ
times [] = []
times (ok e ∷ es) = e.time ∷ times es
times (err _ ∷ es) = times es

-- The events without their times, and the errors.
abbrev pub contents : List (Result CastError Event) → List (Result CastError EventData)
contents [] = []
contents (ok e ∷ es) = ok e.content ∷ contents es
contents (err e ∷ es) = err e ∷ contents es

-- The pause before each event.
abbrev pub gaps : ℕ → List ℕ → List ℕ
gaps prev [] = []
gaps prev (t ∷ ts) = (t - prev) ∷ gaps t ts

abbrev pub at_most : ℕ → ℕ → ℕ
at_most limit d = if ltb limit d then limit else d

abbrev InOrder : ℕ → List ℕ → Type 0
InOrder = Ordered (λ (t : ℕ). t)

parse_event-later :
    (J : Json) (p : ℕ) (line : Text) (e : Event) → parse_event J p line ≡ ok e → p ≤ e.time
unfolding parse_event
parse_event-later J p line e h =
    let ((number, code, text), _, h₁) = bind-eq-ok (or_error json (J.read_event line)) _ h in
    let (time, _, h₂) = bind-eq-ok (or_error json (deserialize_time number)) _ h₁ in
    let (d, _, h₃) = bind-eq-ok (data_of_code code text) _ h₂ in
    let same : p + time ≡ e.time = cc in omega arith

-- The reader adds up the times, so that they never go back.
parse_lines-InOrder :
    (J : Json) (p : ℕ) (lines : List Text) → InOrder p (times (parse_lines J p lines))
unfolding parse_lines
parse_lines-InOrder J p [] = tt
parse_lines-InOrder J p (line ∷ lines) =
    go (is_empty line || is_comment line) (parse_event J p line) (parse_event-later J p line)
      (λ q. parse_lines-InOrder J q lines)
  where
    go :
        (b : Bool) (event : Result CastError Event)
        → ((e : Event) → event ≡ ok e → p ≤ e.time)
        → ((q : ℕ) → InOrder q (times (parse_lines J q lines)))
        → InOrder p (
            times (elim b [
              | true ↦ parse_lines J p lines
              | false ↦ event ∷ parse_lines J (elim event [ ok e ↦ e.time | err _ ↦ p ]) lines
            ]))
    go true event later rest = rest p
    go false (ok e) later rest = (later e refl, rest e.time)
    go false (err x) later rest = rest p

-- One event: the pause before it is cut.
limit_event-gap :
    (limit : ℕ) (e : Event) (s : Idle)
    → s.offset ≤ s.prev_time
    → s.prev_time ≤ e.time
    → let (out, s') = limit_event limit e s in
      (s'.offset ≤ s'.prev_time)
      × (s'.prev_time ≡ e.time)
      × (out.time ≡ e.time - s'.offset)
      × (s.prev_time - s.offset ≤ out.time)
      × (out.time - (s.prev_time - s.offset) ≡ at_most limit (e.time - s.prev_time))
unfolding limit_event
limit_event-gap limit e s h k = ground arith

limit_event-content :
    (limit : ℕ) (e : Event) (s : Idle) → (limit_event limit e s).0.content ≡ e.content
unfolding limit_event
limit_event-content limit e s = refl

limit_from-gaps :
    (limit : ℕ) (s : Idle) (es : List (Result CastError Event))
    → s.offset ≤ s.prev_time
    → InOrder s.prev_time (times es)
    → InOrder (s.prev_time - s.offset) (times (limit_from limit s es))
      × (gaps (s.prev_time - s.offset) (times (limit_from limit s es))
          ≡ map (at_most limit) (gaps s.prev_time (times es)))
      × (contents (limit_from limit s es) ≡ contents es)
unfolding limit_from
limit_from-gaps limit s [] h o = (tt, refl, refl)
limit_from-gaps limit s (err e ∷ es) h o =
    let (a, b, c) = limit_from-gaps limit s es h o in (a, b, ap (λ x. err e ∷ x) c)
limit_from-gaps limit s (ok e ∷ es) h o =
    let s' = (limit_event limit e s).1 in
    let (fits, same, shifted, later, cut) = limit_event-gap limit e s h o.0 in
    let start : s'.prev_time - s'.offset ≡ (limit_event limit e s).0.time = omega arith in
    let (a, b, c) =
      limit_from-gaps limit s' es fits (subst (λ x. InOrder x (times es)) (sym same) o.1) in
    (
      (later, subst (λ x. InOrder x (times (limit_from limit s' es))) start a),
      ap₂ (λ x xs. x ∷ xs) cut
          (subst₂
            (λ x y.
              gaps x (times (limit_from limit s' es)) ≡ map (at_most limit) (gaps y (times es)))
            start same b),
      ap₂ (λ x xs. ok x ∷ xs) (limit_event-content limit e s) c,
    )

-- A recording is played with the same data in the same order, and the pause before each event is the
-- recorded one, or the limit where it is longer; for every file, whatever its lines.
pub limit_idle_time-gaps :
    (J : Json) (limit : ℕ) (lines : List Text)
    → let recorded = parse_lines J 0 lines in
      let played = limit_idle_time limit recorded in
      (contents played ≡ contents recorded)
      × (gaps 0 (times played) ≡ map (at_most limit) (gaps 0 (times recorded)))
      × Ordered (λ (t : ℕ). t) 0 (times played)
unfolding limit_idle_time
limit_idle_time-gaps J limit lines =
    let (a, b, c) =
      limit_from-gaps limit (record { prev_time = 0; offset = 0 }) (parse_lines J 0 lines)
        (omega arith) (parse_lines-InOrder J 0 lines) in
    (c, b, a)
