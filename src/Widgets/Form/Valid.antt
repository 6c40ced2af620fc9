-- ===== src/Widgets/Form/Valid.antt =====
-- The invariant of the form editor.
use rustion.Prelude.{
  ℕ, zero, suc, ◌<◌, ◌≡◌, ◌≢◌, refl, sym, ap, ◌∙◌, Bool, true, not, Option, some, List, [], ◌∷◌,
  length, arith,
}
use rustion.Widgets.Inputs.{KeyCode, TextArea}
use rustion.Widgets.Form.{
  FormFieldWidget, text, multi_line, checkbox, radio, FormField, FormEditor, widget_at, set_widget,
  with_widget, on_focused, edit_widget, enter_widget, clear_widget, toggle_widget, help_for,
  handle_editing_input, enter_edit_mode, clear_focused_field, toggle, update_help_text,
}

module _ (T : TextArea) where
  -- The focus is in range and the scrolling in step with it; no checkbox is being edited.
  pub record Valid (s : FormEditor T) : Type 0 where
    pub in_range : s.focused < length s.fields
    pub bounded : length s.fields < 18446744073709551616
    pub in_step : s.scroll_offset ≡ s.focused
    pub editable :
        s.editing_mode ≡ true → (b : Bool) → widget_at T s.focused s.fields ≢ some (checkbox b)

  -- The operation does not panic, and keeps the invariant and the number of the fields.
  pub record Safe (s : FormEditor T) (r : Option (FormEditor T)) : Type 0 where
    pub after : FormEditor T
    pub made : r ≡ some after
    pub valid : Valid after
    pub same_length : length after.fields ≡ length s.fields

  pub widget_at-some :
      (n : ℕ) (fs : List (FormField T))
      → n < length fs
      → (w : FormFieldWidget T) × (widget_at T n fs ≡ some w)
  unfolding widget_at
  widget_at-some n [] h = absurd (omega arith)
  widget_at-some zero (f ∷ fs) h = (f.widget, refl)
  widget_at-some (suc n) (f ∷ fs) h = widget_at-some n fs (omega arith)

  length-set_widget :
      (n : ℕ) (w : FormFieldWidget T) (fs : List (FormField T))
      → length (set_widget T n w fs) ≡ length fs
  unfolding set_widget
  length-set_widget n w [] = refl
  length-set_widget zero w (f ∷ fs) = refl
  length-set_widget (suc n) w (f ∷ fs) = ap suc (length-set_widget n w fs)

  widget_at-set_widget :
      (n : ℕ) (w : FormFieldWidget T) (fs : List (FormField T))
      → n < length fs
      → widget_at T n (set_widget T n w fs) ≡ some w
  unfolding widget_at set_widget
  widget_at-set_widget n w [] h = absurd (omega arith)
  widget_at-set_widget zero w (f ∷ fs) h = refl
  widget_at-set_widget (suc n) w (f ∷ fs) h = widget_at-set_widget n w fs (omega arith)

  Valid-same :
      (s t : FormEditor T)
      → Valid s
      → length t.fields ≡ length s.fields
      → t.focused ≡ s.focused
      → t.scroll_offset ≡ s.scroll_offset
      → (t.editing_mode ≡ true → (b : Bool) → widget_at T t.focused t.fields ≢ some (checkbox b))
      → Valid t
  Valid-same s t v a b c d =
      let i = v.in_range in
      let j = v.bounded in
      record {
        in_range = omega arith;
        bounded = omega arith;
        in_step = c ∙ v.in_step ∙ sym b;
        editable = d;
      }

  -- The focused widget is replaced by one that is no checkbox.
  replaced :
      (s t : FormEditor T) (w : FormFieldWidget T)
      → Valid s
      → ((b : Bool) → w ≢ checkbox b)
      → t.fields ≡ set_widget T s.focused w s.fields
      → t.focused ≡ s.focused
      → t.scroll_offset ≡ s.scroll_offset
      → Safe s (some t)
  replaced s t w v other e f g =
      let l : length t.fields ≡ length s.fields =
        ap length e ∙ length-set_widget s.focused w s.fields in
      let at : widget_at T t.focused t.fields ≡ some w =
        cc (e, f, widget_at-set_widget s.focused w s.fields v.in_range) in
      record {
        after = t;
        made = refl;
        valid = Valid-same s t v l f g (λ _ b h. other b (cc (at, h)));
        same_length = l;
      }

  -- Nothing that the invariant is about changes.
  pub unchanged :
      (s t : FormEditor T)
      → Valid s
      → t.fields ≡ s.fields
      → t.focused ≡ s.focused
      → t.scroll_offset ≡ s.scroll_offset
      → (t.editing_mode ≡ true → (b : Bool) → widget_at T s.focused s.fields ≢ some (checkbox b))
      → Safe s (some t)
  unchanged s t v e f g d = record {
    after = t;
    made = refl;
    valid = Valid-same s t v (ap length e) f g (λ h b k. d h b (cc (e, f, k)));
    same_length = ap length e;
  }

  on_focused-Safe :
      (branch : FormFieldWidget T → Option (FormEditor T)) (s : FormEditor T)
      → Valid s
      → ((w : FormFieldWidget T) → widget_at T s.focused s.fields ≡ some w → Safe s (branch w))
      → Safe s (on_focused T branch s)
  unfolding on_focused
  on_focused-Safe branch s v f =
      let (w, at) = widget_at-some s.focused s.fields v.in_range in
      let r = f w at in
      record {
        after = r.after;
        made = cc (at, r.made);
        valid = r.valid;
        same_length = r.same_length;
      }

  pub handle_editing_input-Safe :
      (key : KeyCode) (s : FormEditor T)
      → Valid s
      → s.editing_mode ≡ true
      → Safe s (handle_editing_input T key s)
  unfolding handle_editing_input edit_widget
  handle_editing_input-Safe key s v e = on_focused-Safe (edit_widget T key s) s v branch
    where
      branch :
          (w : FormFieldWidget T)
          → widget_at T s.focused s.fields ≡ some w
          → Safe s (edit_widget T key s w)
      branch (text t) at = replaced s _ _ v (λ b h. cc) refl refl refl
      branch (multi_line t) at = replaced s _ _ v (λ b h. cc) refl refl refl
      branch (radio r) at = replaced s _ _ v (λ b h. cc) refl refl refl
      branch (checkbox b) at = absurd (v.editable e b at)

  -- A checkbox in focus is not being edited, whatever its value becomes.
  checkbox-Safe :
      (s : FormEditor T) (b c : Bool)
      → Valid s
      → widget_at T s.focused s.fields ≡ some (checkbox b)
      → Safe s (some (with_widget T (checkbox c) s))
  checkbox-Safe s b c v at =
      let l : length (set_widget T s.focused (checkbox c) s.fields) ≡ length s.fields =
        length-set_widget s.focused (checkbox c) s.fields in
      record {
        after = with_widget T (checkbox c) s;
        made = refl;
        valid =
            Valid-same s (with_widget T (checkbox c) s) v l refl refl (λ h _ _. v.editable h b at);
        same_length = l;
      }

  pub enter_edit_mode-Safe :
      (key : KeyCode) (s : FormEditor T) → Valid s → Safe s (enter_edit_mode T key s)
  unfolding enter_edit_mode enter_widget
  enter_edit_mode-Safe key s v = on_focused-Safe (enter_widget T key s) s v branch
    where
      branch :
          (w : FormFieldWidget T)
          → widget_at T s.focused s.fields ≡ some w
          → Safe s (enter_widget T key s w)
      branch (text t) at = replaced s _ _ v (λ b h. cc) refl refl refl
      branch (multi_line t) at = unchanged s _ v refl refl refl (λ h b k. cc (at, k))
      branch (radio r) at = unchanged s _ v refl refl refl (λ h b k. cc (at, k))
      branch (checkbox b) at = checkbox-Safe s b (not b) v at

  pub clear_focused_field-Safe : (s : FormEditor T) → Valid s → Safe s (clear_focused_field T s)
  unfolding clear_focused_field clear_widget
  clear_focused_field-Safe s v = on_focused-Safe (clear_widget T s) s v branch
    where
      branch :
          (w : FormFieldWidget T)
          → widget_at T s.focused s.fields ≡ some w
          → Safe s (clear_widget T s w)
      branch (text t) at = replaced s _ _ v (λ b h. cc) refl refl refl
      branch (multi_line t) at = replaced s _ _ v (λ b h. cc) refl refl refl
      branch (radio r) at = unchanged s s v refl refl refl v.editable
      branch (checkbox b) at = unchanged s s v refl refl refl v.editable

  pub toggle-Safe : (s : FormEditor T) → Valid s → Safe s (toggle T s)
  unfolding toggle toggle_widget
  toggle-Safe s v = on_focused-Safe (toggle_widget T s) s v branch
    where
      branch :
          (w : FormFieldWidget T)
          → widget_at T s.focused s.fields ≡ some w
          → Safe s (toggle_widget T s w)
      branch (text t) at = unchanged s s v refl refl refl v.editable
      branch (multi_line t) at = unchanged s s v refl refl refl v.editable
      branch (radio r) at = unchanged s s v refl refl refl v.editable
      branch (checkbox b) at = checkbox-Safe s b (not b) v at

  -- The help text follows the focus, wherever in range that is.
  pub update_help_text-made :
      (s : FormEditor T)
      → s.focused < length s.fields
      → (t : FormEditor T) × (update_help_text T s ≡ some t)
        × (t ≡ record s { help_text = t.help_text })
  unfolding update_help_text on_focused
  update_help_text-made s h =
      let (w, at) = widget_at-some s.focused s.fields h in
      (record s { help_text = help_for T w }, cc at, refl)
