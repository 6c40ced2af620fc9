-- ===== src/Widgets/Form.antt =====
-- `FormEditor` of src/server/widgets/form.rs, but for what it draws. None is a panic: an index out
-- of range, a remainder by zero, or `unreachable!`.
pub mod Keys
pub mod Valid
pub mod Moves
use rustion.Prelude.{
  ℕ, zero, suc, ◌+◌, ◌-◌, ◌%◌, Bool, true, false, not, ◌==◌, ◌&&◌, ◌||◌, Option, none, some, List,
  [], ◌∷◌, length, if◌then◌else◌,
}
use Prim.Native.Nat.{min}
use rustion.Prelude.Text.{Text}
use rustion.Widgets.Inputs.{
  KeyCode, char, esc, enter, tab, back_tab, up, down, left, right, other_key, TextArea,
  text_input_position, clear_line, single_line_input, MultiLineText, new_multi_line,
  multi_line_input,
}
use rustion.Widgets.Radio.{RadioButtons, radio_input, before}

-- The help texts, by the names of their constants.
pub data Help : Type 0 where
  common_help radio_help radio_edit_help checkbox_help : Help
  multilines_help multilines_edit_help multilines_input_help : Help

pub data FormEvent : Type 0 where
  nothing save cancel : FormEvent

module _ (T : TextArea) where
  pub data FormFieldWidget : Type 0 where
    text : T.Area → FormFieldWidget
    multi_line : MultiLineText T → FormFieldWidget
    checkbox : Bool → FormFieldWidget
    radio : RadioButtons → FormFieldWidget

  pub record FormField : Type 0 where
    pub label : Text
    pub height : ℕ
    pub widget : FormFieldWidget

  pub record FormEditor : Type 0 where
    pub fields : List FormField
    pub focused : ℕ
    pub scroll_offset : ℕ
    pub show_cancel_confirmation : Bool
    pub editing_mode : Bool
    pub save_error : Option (List Text)
    pub help_text : Help

  -- `&self.fields[i].widget`, and the assignment through it.
  pub widget_at : ℕ → List FormField → Option FormFieldWidget
  widget_at i [] = none
  widget_at zero (f ∷ fs) = some f.widget
  widget_at (suc i) (f ∷ fs) = widget_at i fs

  pub set_widget : ℕ → FormFieldWidget → List FormField → List FormField
  set_widget i w [] = []
  set_widget zero w (f ∷ fs) = record f { widget = w } ∷ fs
  set_widget (suc i) w (f ∷ fs) = f ∷ set_widget i w fs

  abbrev pub help_for : FormFieldWidget → Help
  help_for (text _) = common_help
  help_for (multi_line _) = multilines_help
  help_for (checkbox _) = checkbox_help
  help_for (radio _) = radio_help

  pub new_form : List FormField → FormEditor
  unfolding widget_at
  new_form fields = record {
    fields = fields;
    focused = 0;
    scroll_offset = 0;
    show_cancel_confirmation = false;
    editing_mode = false;
    save_error = none;
    help_text = elim (widget_at 0 fields) [ none ↦ common_help | some w ↦ help_for w ];
  }

  abbrev pub with_widget : FormFieldWidget → FormEditor → FormEditor
  with_widget w s = record s { fields = set_widget s.focused w s.fields }

  abbrev stop_if : Bool → FormEditor → Bool
  stop_if done s = if done then false else s.editing_mode

  -- The match on `self.fields[self.focused].widget`.
  pub on_focused : (FormFieldWidget → Option FormEditor) → FormEditor → Option FormEditor
  unfolding widget_at
  on_focused branch s = elim (widget_at s.focused s.fields) [ none ↦ none | some w ↦ branch w ]

  pub edit_widget : KeyCode → FormEditor → FormFieldWidget → Option FormEditor
  unfolding set_widget
  edit_widget key s (text t) =
      let (done, t') = single_line_input T key t in
      some (record (with_widget (text t') s) { editing_mode = stop_if done s })
  edit_widget key s (multi_line t) =
      let (done, t') = multi_line_input T key t in
      some (record (with_widget (multi_line t') s) {
        editing_mode = stop_if done s;
        help_text =
            if done
            then multilines_help
            else if t'.editing_mode
            then multilines_input_help
            else multilines_edit_help;
      })
  edit_widget key s (radio r) =
      let (done, r') = radio_input key r in
      some (record (with_widget (radio r') s) {
        editing_mode = stop_if done s;
        help_text = if done then radio_help else s.help_text;
      })
  edit_widget key s (checkbox _) = none

  pub handle_editing_input : KeyCode → FormEditor → Option FormEditor
  unfolding on_focused edit_widget
  handle_editing_input key s = on_focused (edit_widget key s) s

  pub enter_widget : KeyCode → FormEditor → FormFieldWidget → Option FormEditor
  unfolding set_widget
  enter_widget key s (checkbox v) = some (with_widget (checkbox (not v)) s)
  enter_widget key s (text t) =
      some (record (with_widget (text (text_input_position T key t)) s) { editing_mode = true })
  enter_widget key s (multi_line t) =
      some (record s { editing_mode = true; help_text = multilines_edit_help })
  enter_widget key s (radio r) =
      some (record s { editing_mode = true; help_text = radio_edit_help })

  pub enter_edit_mode : KeyCode → FormEditor → Option FormEditor
  unfolding on_focused enter_widget
  enter_edit_mode key s = on_focused (enter_widget key s) s

  pub clear_widget : FormEditor → FormFieldWidget → Option FormEditor
  unfolding set_widget
  clear_widget s (text t) = some (with_widget (text (clear_line T t)) s)
  clear_widget s (multi_line t) = some (with_widget (multi_line (new_multi_line T)) s)
  clear_widget s (checkbox v) = some s
  clear_widget s (radio r) = some s

  pub clear_focused_field : FormEditor → Option FormEditor
  unfolding on_focused clear_widget
  clear_focused_field s = on_focused (clear_widget s) s

  -- The space key.
  pub toggle_widget : FormEditor → FormFieldWidget → Option FormEditor
  unfolding set_widget
  toggle_widget s (checkbox v) = some (with_widget (checkbox (not v)) s)
  toggle_widget s (text t) = some s
  toggle_widget s (multi_line t) = some s
  toggle_widget s (radio r) = some s

  pub toggle : FormEditor → Option FormEditor
  unfolding on_focused toggle_widget
  toggle s = on_focused (toggle_widget s) s

  pub update_help_text : FormEditor → Option FormEditor
  unfolding on_focused
  update_help_text s = on_focused (λ w. some (record s { help_text = help_for w })) s

  pub focus_next : FormEditor → Option FormEditor
  unfolding update_help_text
  focus_next s =
      if length s.fields == 0
      then none
      else update_help_text
          (record s { focused = ((s.focused + 1) % 18446744073709551616) % length s.fields })

  pub focus_previous : FormEditor → Option FormEditor
  unfolding update_help_text
  focus_previous s =
      update_help_text
        (record s { focused = if s.focused == 0 then before (length s.fields) else s.focused - 1 })

  -- `saturating_sub`, which subtraction is here.
  abbrev pub max_scroll_offset : FormEditor → ℕ
  max_scroll_offset s = length s.fields - 1

  pub scroll_next : FormEditor → FormEditor
  scroll_next s = record s {
    scroll_offset =
        if s.scroll_offset == max_scroll_offset s
        then 0
        else min (s.scroll_offset + 1) 18446744073709551615;
  }

  pub scroll_previous : FormEditor → FormEditor
  scroll_previous s = record s {
    scroll_offset = if s.scroll_offset == 0 then max_scroll_offset s else s.scroll_offset - 1;
  }

  -- Tab and Shift-Tab.
  pub go_next : FormEditor → Option FormEditor
  unfolding focus_next scroll_next
  go_next s = elim (focus_next (record s { editing_mode = false })) [
    | none ↦ none
    | some s' ↦ some (scroll_next s')
  ]

  pub go_previous : FormEditor → Option FormEditor
  unfolding focus_previous scroll_previous
  go_previous s = elim (focus_previous (record s { editing_mode = false })) [
    | none ↦ none
    | some s' ↦ some (scroll_previous s')
  ]

  -- The match of the normal mode.
  pub normal_key : KeyCode → FormEditor → Option FormEditor
  unfolding go_next go_previous enter_edit_mode clear_focused_field toggle
  normal_key esc s = some (record s { show_cancel_confirmation = true })
  normal_key tab s = go_next s
  normal_key down s = go_next s
  normal_key back_tab s = go_previous s
  normal_key up s = go_previous s
  normal_key enter s = enter_edit_mode enter s
  normal_key left s = some s
  normal_key right s = some s
  normal_key (other_key k) s = some s
  normal_key (char c) s =
      if c == b'q'
      then some (record s { show_cancel_confirmation = true })
      else if c == b'j'
      then go_next s
      else if c == b'k'
      then go_previous s
      else if c == b'i' || c == b'a'
      then enter_edit_mode (char c) s
      else if c == b'd' && not s.editing_mode
      then clear_focused_field s
      else if c == b' '
      then toggle s
      else some s
