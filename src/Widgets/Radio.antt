-- ===== src/Widgets/Radio.antt =====
-- `RadioButtons` of src/server/widgets/mod.rs. Subtraction wraps, as it does in a release build.
use rustion.Prelude.{
  ℕ, ◌+◌, ◌-◌, ◌%◌, Bool, true, false, ◌==◌, ◌&&◌, leb, List, length, if◌then◌else◌,
}
use rustion.Prelude.Text.{Text}
use rustion.Widgets.Inputs.{
  KeyCode, char, esc, enter, tab, back_tab, up, down, left, right, other_key,
}

pub record RadioOption : Type 0 where
  pub label : Text
  pub value : Text

pub record RadioButtons : Type 0 where
  pub options : List RadioOption
  pub selected_index : ℕ

-- `n - 1` on a usize.
abbrev pub before : ℕ → ℕ
before n = (n + 18446744073709551615) % 18446744073709551616

abbrev previous : RadioButtons → RadioButtons
previous r = record r {
  selected_index =
      if r.selected_index == 0 then before (length r.options) else r.selected_index - 1;
}

abbrev next : RadioButtons → RadioButtons
next r = record r {
  selected_index =
      if r.selected_index == before (length r.options) then 0 else r.selected_index + 1;
}

-- The digits 1 to 9.
abbrev select : ℕ → RadioButtons → RadioButtons
select c r =
    if leb b'1' c && leb c b'9' && leb (c - b'0') (length r.options)
    then record r { selected_index = c - b'1' }
    else r

-- `RadioButtons::handle_input`: true is the end of editing.
pub radio_input : KeyCode → RadioButtons → Bool × RadioButtons
radio_input esc r = (true, r)
radio_input enter r = (true, r)
radio_input tab r = (true, r)
radio_input back_tab r = (true, r)
radio_input up r = (false, previous r)
radio_input down r = (false, next r)
radio_input (char c) r =
    if c == b'k'
    then (false, previous r)
    else if c == b'j'
    then (false, next r)
    else (false, select c r)
radio_input left r = (false, r)
radio_input right r = (false, r)
radio_input (other_key k) r = (false, r)
