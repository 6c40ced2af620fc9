-- ===== src/Recording/Session.antt =====
-- `Session` of src/asciinema/session.rs: what a recorder makes of what it is told. `now` is
-- `epoch.elapsed()` at the call, in nanoseconds; none is a panic. The channel to the writer is taken
-- to be open.
pub mod Acts
mod Steps
pub mod Faithful
use rustion.Prelude.{
  ℕ, ◌+◌, ◌-◌, Bool, true, false, not, ◌&&◌, ◌||◌, Option, none, some, List, [], ◌∷◌, ◌++◌, leb,
  ◌==◌, if◌then◌else◌,
}
use rustion.Prelude.Int.{ℤ}
use rustion.Prelude.Options.{◌>>=◌, minus}
use rustion.Prelude.Text.{Text, is_empty, text_eq}
use rustion.Recording.Utf8.{Bytes, feed}

pub record TtySize : Type 0 where
  pub cols : ℕ
  pub rows : ℕ

abbrev pub size_eq : TtySize → TtySize → Bool
size_eq a b = a.cols == b.cols && a.rows == b.rows

pub data Event : Type 0 where
  output input marker : ℕ → Text → Event
  resize : ℕ → TtySize → Event
  exit : ℕ → ℤ → Event

pub record Session : Type 0 where
  pub input_decoder : Bytes
  pub output_decoder : Bytes
  pub pause_time : Option ℕ
  pub prefix_mode : Bool
  pub record_input : Bool
  pub time_offset : ℕ
  pub tty_size : TtySize

unfoldable pub new_session : TtySize → Bool → Session
new_session size record_input = record {
  input_decoder = [];
  output_decoder = [];
  pause_time = none;
  prefix_mode = false;
  record_input = record_input;
  time_offset = 0;
  tty_size = size;
}

-- A call that does not panic: the events that it sends, its answer, and the session behind it.
abbrev pub Called : Type 0 → Type 0
Called A = Option (List Event × A × Session)

unfoldable pub elapsed_time : ℕ → Session → Option ℕ
elapsed_time now s = elim s.pause_time [
  | some pause_time ↦ some pause_time
  | none ↦ minus now s.time_offset
]

unfoldable pub handle_output : ℕ → Bytes → Session → Called (Unit {0})
handle_output now bytes s = elim s.pause_time [
  | some _ ↦ some ([], tt, s)
  | none ↦
      let (text, kept) = feed s.output_decoder bytes in
      let s' = record s { output_decoder = kept } in
      let sent = (do time ← elapsed_time now s'; some (output time text ∷ [], tt, s')) in
      if is_empty text then some ([], tt, s') else sent
]

-- A key that is set, and is what came in.
abbrev is_key : Option Bytes → Bytes → Bool
is_key none bytes = false
is_key (some key) bytes = text_eq bytes key

abbrev is_unset : Option Bytes → Bool
is_unset none = true
is_unset (some _) = false

-- The end of `handle_input`.
unfoldable pub record_bytes : ℕ → Bytes → Session → Called Bool
record_bytes now bytes s =
    let (text, kept) = feed s.input_decoder bytes in
    let s' = record s { input_decoder = kept } in
    let sent = (do time ← elapsed_time now s'; some (input time text ∷ [], true, s')) in
    let fed = if is_empty text then some ([], true, s') else sent in
    elim s.pause_time [
      | none ↦ if s.record_input then fed else some ([], true, s)
      | some _ ↦ some ([], true, s)
    ]

-- The pause key.
unfoldable pub toggle_pause : ℕ → Session → Called Bool
toggle_pause now s = elim s.pause_time [
  | some pt ↦ (do
    let resumed = record s { pause_time = none }
    time ← elapsed_time now resumed
    more ← minus time pt
    some ([], false, record resumed { time_offset = s.time_offset + more }))
  | none ↦ (do time ← elapsed_time now s; some ([], false, record s { pause_time = some time }))
]

unfoldable pub input_with :
    Option Bytes → Option Bytes → Option Bytes → ℕ → Bytes → Session → Called Bool
unfolding record_bytes toggle_pause
input_with prefix_key pause_key add_marker_key now bytes s =
    let s' = record s { prefix_mode = false } in
    let marked = (do time ← elapsed_time now s'; some (marker time [] ∷ [], false, s')) in
    if not s.prefix_mode && is_key prefix_key bytes
    then some ([], false, record s { prefix_mode = true })
    else if s.prefix_mode || is_unset prefix_key
    then if is_key pause_key bytes
      then toggle_pause now s'
      else if is_key add_marker_key bytes
      then marked
      else record_bytes now bytes s'
    else record_bytes now bytes s

-- None of the three keys is set.
unfoldable pub handle_input : ℕ → Bytes → Session → Called Bool
unfolding input_with
handle_input = input_with none none none

unfoldable pub handle_resize : ℕ → TtySize → Session → Called (Unit {0})
handle_resize now size s =
    let sent = (do
      time ← elapsed_time now s
      some (resize time size ∷ [], tt, record s { tty_size = size })) in
    if size_eq size s.tty_size then some ([], tt, s) else sent

unfoldable pub handle_exit : ℕ → ℤ → Session → Called (Unit {0})
handle_exit now status s = do time ← elapsed_time now s; some (exit time status ∷ [], tt, s)

unfoldable pub handle_marker : ℕ → Text → Session → Called (Unit {0})
handle_marker now label s = do time ← elapsed_time now s; some (marker time label ∷ [], tt, s)
