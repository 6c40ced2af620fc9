-- ===== src/Widgets/Form/Keys/Tests.antt =====
-- A form with a text, a checkbox and a radio field, over a text area that keeps what is typed.
use rustion.Prelude.{◌<◌, ◌≡◌, Bool, false, some, List, [], ◌∷◌, ◌++◌, length, arith}
use rustion.Prelude.Text.{Text, codes}
use rustion.Widgets.Inputs.{KeyCode, char, esc, enter, tab, back_tab, down, TextArea}
use rustion.Widgets.Form.{FormField, text, checkbox, radio, FormEditor, new_form}
use rustion.Widgets.Form.Keys.Run.{run, run-new_form}

abbrev last_key : KeyCode → Text
last_key (char c) = c ∷ []
last_key _ = []

abbrev typed_text : TextArea
typed_text = record {
  Area = Text;
  default_area = [];
  of_lines = λ ls. [];
  lines = λ a. a ∷ [];
  cursor_row = λ a. 0;
  move_cursor = λ m a. a;
  delete_line_by_head = λ a. [];
  delete_newline = λ a. a;
  delete_str = λ n a. a;
  insert_newline = λ a. a;
  input = λ key a. a ++ last_key key;
  trim = λ t. t;
}

abbrev sample_fields : List (FormField typed_text)
sample_fields =
    record { label = codes "name"; height = 3; widget = text [] }
    ∷ record { label = codes "active"; height = 3; widget = checkbox false }
    ∷ record {
      label = codes "kind";
      height = 5;
      widget = radio (record {
        options = record { label = codes "a"; value = codes "a" } ∷ [];
        selected_index = 0;
      });
    }
    ∷ []

abbrev sample_keys : List (KeyCode × Bool)
sample_keys =
    (enter, false)
    ∷ (char b'x', false)
    ∷ (tab, false)
    ∷ (char b' ', false)
    ∷ (down, false)
    ∷ (enter, false)
    ∷ (down, false)
    ∷ (esc, false)
    ∷ (back_tab, false)
    ∷ []

run-new_form_example :
    (t : FormEditor typed_text) × (run typed_text sample_keys (new_form typed_text sample_fields)
      ≡ some t)
    × (t.focused < 3)
    × (t.scroll_offset ≡ t.focused)
    × (length t.fields ≡ 3)
run-new_form_example = run-new_form typed_text sample_keys sample_fields (omega arith) (omega arith)
