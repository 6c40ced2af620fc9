-- ===== src/Widgets/Inputs.antt =====
-- The text widgets of src/server/widgets/mod.rs, `SingleLineText` and `MultiLineText`. The text area
-- of the crate tui-textarea is a parameter; styles and colours are not kept.
use rustion.Prelude.{ℕ, Bool, true, false, not, ◌==◌, ◌||◌, List, map, keep, if◌then◌else◌}
use rustion.Prelude.Text.{Text, is_empty}

-- crossterm's `KeyCode`; the keys without a name in the source are `other_key`.
pub data KeyCode : Type 0 where
  char : ℕ → KeyCode
  esc enter tab back_tab up down left right : KeyCode
  other_key : ℕ → KeyCode

pub data CursorMove : Type 0 where
  to_head to_end to_up to_down to_back to_forward : CursorMove

-- The operations of a text area that the widgets call, with the trimming of Rust's strings.
pub record TextArea : Type 1 where
  pub Area : Type 0
  pub default_area : Area
  pub of_lines : List Text → Area
  pub lines : Area → List Text
  pub cursor_row : Area → ℕ
  pub move_cursor : CursorMove → Area → Area
  pub delete_line_by_head : Area → Area
  pub delete_newline : Area → Area
  pub delete_str : ℕ → Area → Area
  pub insert_newline : Area → Area
  pub input : KeyCode → Area → Area
  pub trim : Text → Text

module _ (T : TextArea) where
  -- `text_input_position`.
  pub text_input_position : KeyCode → T.Area → T.Area
  text_input_position (char c) area = T.move_cursor (if c == b'i' then to_head else to_end) area
  text_input_position _ area = T.move_cursor to_end area

  -- `SingleLineText::clear_line`.
  pub clear_line : T.Area → T.Area
  clear_line area = T.delete_line_by_head (T.move_cursor to_end area)

  -- `SingleLineText::handle_input`: true is the end of editing.
  pub single_line_input : KeyCode → T.Area → Bool × T.Area
  single_line_input esc area = (true, area)
  single_line_input tab area = (true, area)
  single_line_input back_tab area = (true, area)
  single_line_input up area = (true, area)
  single_line_input down area = (true, area)
  single_line_input enter area = (true, area)
  single_line_input (char c) area = (false, T.input (char c) area)
  single_line_input left area = (false, T.input left area)
  single_line_input right area = (false, T.input right area)
  single_line_input (other_key k) area = (false, T.input (other_key k) area)

  pub record MultiLineText : Type 0 where
    pub textarea : T.Area
    pub editing_mode : Bool

  -- `MultiLineText::new(None)`.
  abbrev pub new_multi_line : MultiLineText
  new_multi_line = record { textarea = T.default_area; editing_mode = false }

  -- Esc while the lines are edited: they are trimmed, and the empty ones dropped.
  abbrev finish : MultiLineText → MultiLineText
  finish t = record t {
    textarea = T.of_lines (keep (λ l. not (is_empty l)) (map T.trim (T.lines t.textarea)));
    editing_mode = false;
  }

  abbrev delete_line : MultiLineText → MultiLineText
  delete_line t =
      let area = T.move_cursor to_end t.textarea in
      let row = T.cursor_row area in
      let rest = T.delete_newline (T.delete_line_by_head area) in
      record t { textarea = if row == 0 then T.delete_str 1 rest else rest }

  abbrev start : KeyCode → MultiLineText → MultiLineText
  start key t = record { textarea = text_input_position key t.textarea; editing_mode = true }

  abbrev moved : CursorMove → MultiLineText → MultiLineText
  moved m t = record t { textarea = T.move_cursor m t.textarea }

  -- `MultiLineText::handle_input` outside its editing mode.
  abbrev command : KeyCode → MultiLineText → Bool × MultiLineText
  command esc t = (true, t)
  command up t = (false, moved to_up t)
  command down t = (false, moved to_down t)
  command left t = (false, moved to_back t)
  command right t = (false, moved to_forward t)
  command enter t = (false, start enter t)
  command (char c) t =
      if c == b'q'
      then (true, t)
      else if c == b'd'
      then (false, delete_line t)
      else if c == b'o'
      then (
        false,
        start (char c) (record t { textarea = T.insert_newline (T.move_cursor to_end t.textarea) }),
      )
      else if c == b'k'
      then (false, moved to_up t)
      else if c == b'j'
      then (false, moved to_down t)
      else if c == b'h'
      then (false, moved to_back t)
      else if c == b'l'
      then (false, moved to_forward t)
      else if c == b'i' || c == b'a'
      then (false, start (char c) t)
      else (false, t)
  command tab t = (false, t)
  command back_tab t = (false, t)
  command (other_key k) t = (false, t)

  abbrev typed : KeyCode → MultiLineText → Bool × MultiLineText
  typed esc t = (false, finish t)
  typed key t = (false, record t { textarea = T.input key t.textarea })

  -- `MultiLineText::handle_input`: true is the end of editing.
  pub multi_line_input : KeyCode → MultiLineText → Bool × MultiLineText
  multi_line_input key t = if t.editing_mode then typed key t else command key t
