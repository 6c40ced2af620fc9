-- ===== src/Widgets/Form/Keys.antt =====
-- `FormEditor::handle_key_event` of src/server/widgets/form.rs, by its phases. None is a panic.
pub mod Run
mod Tests
use rustion.Prelude.{
  ℕ, Bool, true, false, ◌==◌, ◌||◌, ◌&&◌, Option, none, some, List, [], ◌∷◌, if◌then◌else◌,
}
use rustion.Widgets.Inputs.{
  KeyCode, char, esc, enter, tab, back_tab, up, down, left, right, other_key, TextArea,
}
use rustion.Widgets.Form.{
  FormEvent, nothing, save, cancel, FormFieldWidget, text, multi_line, checkbox, radio, FormEditor,
  widget_at, handle_editing_input, normal_key,
}

-- The keys that end the event once the focused field has read them.
abbrev pub is_consumed : KeyCode → Bool
is_consumed esc = true
is_consumed enter = true
is_consumed (char c) = true
is_consumed _ = false

abbrev pub is_vertical : KeyCode → Bool
is_vertical up = true
is_vertical down = true
is_vertical _ = false

module _ (T : TextArea) where
  abbrev Step : Type 0
  Step = Option (FormEvent × FormEditor T)

  -- While the confirmation is shown.
  pub confirm_key : KeyCode → FormEditor T → FormEvent × FormEditor T
  confirm_key (char c) s =
      if c == b'y' || c == b'Y'
      then (cancel, s)
      else if c == b'n' || c == b'N'
      then (nothing, record s { show_cancel_confirmation = false })
      else (nothing, s)
  confirm_key esc s = (nothing, record s { show_cancel_confirmation = false })
  confirm_key _ s = (nothing, s)

  pub dismiss_key : KeyCode → FormEditor T → FormEvent × FormEditor T
  dismiss_key enter s = (nothing, record s { save_error = none })
  dismiss_key _ s = (nothing, s)

  pub finish_normal : KeyCode → FormEditor T → Step
  unfolding normal_key
  finish_normal key s = elim (normal_key T key s) [ none ↦ none | some s' ↦ some (nothing, s') ]

  abbrev pub is_radio : FormFieldWidget T → Bool
  is_radio (radio _) = true
  is_radio (text _) = false
  is_radio (multi_line _) = false
  is_radio (checkbox _) = false

  -- Up and down on a radio field.
  pub moves_radio : KeyCode → FormFieldWidget T → Bool
  moves_radio key w = is_radio w && is_vertical key

  -- After the focused field has read the key.
  pub after_editing : KeyCode → FormEditor T → Step
  unfolding finish_normal widget_at moves_radio
  after_editing key s =
      if is_consumed key then some (nothing, s) else (elim (widget_at T s.focused s.fields) [
        | none ↦ none
        | some w ↦ if moves_radio key w then some (nothing, s) else finish_normal key s
      ])

  pub edit_key : KeyCode → FormEditor T → Step
  unfolding handle_editing_input after_editing finish_normal
  edit_key key s =
      if s.editing_mode
      then (elim (handle_editing_input T key s) [ none ↦ none | some s' ↦ after_editing key s' ])
      else finish_normal key s

  -- Ctrl+S and Ctrl+C.
  pub shortcut_key : KeyCode → Bool → FormEditor T → Step
  unfolding edit_key
  shortcut_key (char c) true s =
      if c == b's'
      then some (save, s)
      else if c == b'c'
      then some (nothing, record s { show_cancel_confirmation = true })
      else edit_key (char c) s
  shortcut_key key true s = edit_key key s
  shortcut_key key false s = edit_key key s

  -- The Boolean is whether the modifiers contain Control.
  pub handle_key_event : KeyCode → Bool → FormEditor T → Step
  unfolding confirm_key dismiss_key shortcut_key
  handle_key_event key control s =
      if s.show_cancel_confirmation then some (confirm_key key s) else (elim s.save_error [
        | some _ ↦ some (dismiss_key key s)
        | none ↦ shortcut_key key control s
      ])
