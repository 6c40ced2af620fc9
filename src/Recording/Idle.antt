-- ===== src/Recording/Idle.antt =====
-- `limit_idle_time` of src/asciinema/asciicast/mod.rs, and `emit_session_events` of
-- src/asciinema/player.rs up to the task that sends the events on. Times are in nanoseconds.
pub mod Gaps
use rustion.Prelude.{ℕ, ◌+◌, ◌-◌, List, [], ◌∷◌, Result, ok, err, ltb, if◌then◌else◌}
use rustion.Recording.Cast.{Event}
use rustion.Recording.Cast.Lines.{CastError}

-- What the closure keeps between the events. `saturating_sub` is `-`, which stops at 0.
pub record Idle : Type 0 where
  pub prev_time : ℕ
  pub offset : ℕ

-- One event that came through.
unfoldable pub limit_event : ℕ → Event → Idle → Event × Idle
limit_event limit event s =
    let delay = event.time - s.prev_time in
    let offset = if ltb limit delay then s.offset + (delay - limit) else s.offset in
    (
      record event { time = event.time - offset },
      record { prev_time = event.time; offset = offset },
    )

-- Errors pass through.
unfoldable pub limit_from : ℕ → Idle → List (Result CastError Event) → List (Result CastError Event)
limit_from limit s [] = []
limit_from limit s (err e ∷ events) = err e ∷ limit_from limit s events
limit_from limit s (ok event ∷ events) =
    let (limited, s') = limit_event limit event s in ok limited ∷ limit_from limit s' events

unfoldable pub limit_idle_time : ℕ → List (Result CastError Event) → List (Result CastError Event)
unfolding limit_from
limit_idle_time limit events = limit_from limit (record { prev_time = 0; offset = 0 }) events
