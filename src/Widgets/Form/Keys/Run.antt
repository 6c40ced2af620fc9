-- ===== src/Widgets/Form/Keys/Run.antt =====
-- Any sequence of keys on a form.
use rustion.Prelude.{
  ℕ, ◌<◌, ◌≡◌, refl, sym, ap, ◌∙◌, inl, inr, Bool, true, false, ◌==◌, ◌||◌, Option, none, some,
  List, [], ◌∷◌, length, arith, if◌then◌else◌, Bool-cases, Option-cases,
}
use mathlib.Core.Bool.{false≢true}
use rustion.Widgets.Inputs.{KeyCode, char, esc, enter, TextArea}
use rustion.Widgets.Form.{
  FormEvent, nothing, save, FormField, FormFieldWidget, FormEditor, widget_at, new_form,
}
use rustion.Widgets.Form.Keys.{
  is_consumed, moves_radio, confirm_key, dismiss_key, finish_normal, after_editing, edit_key,
  shortcut_key, handle_key_event,
}
use rustion.Widgets.Form.Valid.{Valid, Safe, widget_at-some, handle_editing_input-Safe}
use rustion.Widgets.Form.Moves.{normal_key-Safe}

module _ (T : TextArea) where
  -- As `Safe`, with the event that is reported.
  pub record Handled (n : ℕ) (r : Option (FormEvent × FormEditor T)) : Type 0 where
    pub event : FormEvent
    pub after : FormEditor T
    pub made : r ≡ some (event, after)
    pub valid : Valid T after
    pub same_length : length after.fields ≡ n

  stay :
      (e : FormEvent) (s t : FormEditor T)
      → Valid T s
      → t.fields ≡ s.fields
      → t.focused ≡ s.focused
      → t.scroll_offset ≡ s.scroll_offset
      → t.editing_mode ≡ s.editing_mode
      → Handled (length s.fields) (some (e, t))
  stay e s t v f g h k =
      let i = v.in_range in
      let b = v.bounded in
      let l = ap length f in
      record {
        event = e;
        after = t;
        made = refl;
        valid = record {
          in_range = omega arith;
          bounded = omega arith;
          in_step = h ∙ v.in_step ∙ sym g;
          editable = λ on c at. v.editable (sym k ∙ on) c (cc (f, g, at));
        };
        same_length = l;
      }

  choose :
      (n : ℕ) (b : Bool) {x y : Option (FormEvent × FormEditor T)}
      → Handled n x
      → Handled n y
      → Handled n (if b then x else y)
  choose n true p q = p
  choose n false p q = q

  finish_normal-Handled :
      (key : KeyCode) (s : FormEditor T)
      → Valid T s
      → Handled (length s.fields) (finish_normal T key s)
  unfolding finish_normal
  finish_normal-Handled key s v =
      let r = normal_key-Safe T key s v in
      record {
        event = nothing;
        after = r.after;
        made = cc r.made;
        valid = r.valid;
        same_length = r.same_length;
      }

  after_editing-Handled :
      (key : KeyCode) (s : FormEditor T)
      → Valid T s
      → Handled (length s.fields) (after_editing T key s)
  unfolding after_editing
  after_editing-Handled key s v =
      let (w, at) = widget_at-some T s.focused s.fields v.in_range in
      let normal = finish_normal-Handled key s v in
      let stays = stay nothing s s v refl refl refl refl in
      choose _ (is_consumed key) stays (opened w at (choose _ (moves_radio T key w) stays normal))
    where
      opened :
          (w : FormFieldWidget T)
          → widget_at T s.focused s.fields ≡ some w
          → Handled
              (length s.fields)
              (if moves_radio T key w then some (nothing, s) else finish_normal T key s)
          → Handled (length s.fields) (elim (widget_at T s.focused s.fields) [
            | none ↦ none
            | some w ↦ if moves_radio T key w then some (nothing, s) else finish_normal T key s
          ])
      opened w at h = record {
        event = h.event;
        after = h.after;
        made = cc (at, h.made);
        valid = h.valid;
        same_length = h.same_length;
      }

  edit_key-Handled :
      (key : KeyCode) (s : FormEditor T) → Valid T s → Handled (length s.fields) (edit_key T key s)
  unfolding edit_key
  edit_key-Handled key s v = elim (Bool-cases s.editing_mode) [
    | inl e ↦
        let r = handle_editing_input-Safe T key s v e in
        let h = after_editing-Handled key r.after r.valid in
        record {
          event = h.event;
          after = h.after;
          made = cc (e, r.made, h.made);
          valid = h.valid;
          same_length = h.same_length ∙ r.same_length;
        }
    | inr e ↦
        let h = finish_normal-Handled key s v in
        record {
          event = h.event;
          after = h.after;
          made = cc (e, h.made);
          valid = h.valid;
          same_length = h.same_length;
        }
  ]

  shortcut_key-Handled :
      (key : KeyCode) (control : Bool) (s : FormEditor T)
      → Valid T s
      → Handled (length s.fields) (shortcut_key T key control s)
  unfolding shortcut_key
  shortcut_key-Handled (char c) true s v =
      choose _ (c == b's') (stay save s s v refl refl refl refl) (
        choose _ (c == b'c') (stay nothing s _ v refl refl refl refl)
          (edit_key-Handled (char c) s v))
  shortcut_key-Handled (char c) false s v = edit_key-Handled (char c) s v
  shortcut_key-Handled key true s v = edit_key-Handled key s v
  shortcut_key-Handled key false s v = edit_key-Handled key s v

  dialog-Handled :
      (s : FormEditor T) (p : FormEvent × FormEditor T)
      → Valid T s
      → p.1.fields ≡ s.fields
      → p.1.focused ≡ s.focused
      → p.1.scroll_offset ≡ s.scroll_offset
      → p.1.editing_mode ≡ s.editing_mode
      → Handled (length s.fields) (some p)
  dialog-Handled s (e, t) v f g h k = stay e s t v f g h k

  confirm_key-Handled :
      (key : KeyCode) (s : FormEditor T)
      → Valid T s
      → Handled (length s.fields) (some (confirm_key T key s))
  unfolding confirm_key
  confirm_key-Handled (char c) s v = elim (Bool-cases (c == b'y' || c == b'Y')) [
    | inl e ↦ dialog-Handled s _ v (cc e) (cc e) (cc e) (cc e)
    | inr e ↦ elim (Bool-cases (c == b'n' || c == b'N')) [
      | inl f ↦ dialog-Handled s _ v (cc (e, f)) (cc (e, f)) (cc (e, f)) (cc (e, f))
      | inr f ↦ dialog-Handled s _ v (cc (e, f)) (cc (e, f)) (cc (e, f)) (cc (e, f))
    ]
  ]
  confirm_key-Handled esc s v = dialog-Handled s _ v refl refl refl refl
  confirm_key-Handled _ s v = dialog-Handled s _ v refl refl refl refl

  dismiss_key-Handled :
      (key : KeyCode) (s : FormEditor T)
      → Valid T s
      → Handled (length s.fields) (some (dismiss_key T key s))
  unfolding dismiss_key
  dismiss_key-Handled enter s v = dialog-Handled s _ v refl refl refl refl
  dismiss_key-Handled _ s v = dialog-Handled s _ v refl refl refl refl

  handle_key_event-Handled :
      (key : KeyCode) (control : Bool) (s : FormEditor T)
      → Valid T s
      → Handled (length s.fields) (handle_key_event T key control s)
  unfolding handle_key_event
  handle_key_event-Handled key control s v = elim (Bool-cases s.show_cancel_confirmation) [
    | inl e ↦ same (confirm_key-Handled key s v) (cc e)
    | inr e ↦ elim (Option-cases s.save_error) [
      | inl f ↦ same (shortcut_key-Handled key control s v) (cc (e, f))
      | inr (m, f) ↦ same (dismiss_key-Handled key s v) (cc (e, f))
    ]
  ]
    where
      same :
          {r : Option (FormEvent × FormEditor T)}
          → Handled (length s.fields) r
          → handle_key_event T key control s ≡ r
          → Handled (length s.fields) (handle_key_event T key control s)
      same h e = record {
        event = h.event;
        after = h.after;
        made = e ∙ h.made;
        valid = h.valid;
        same_length = h.same_length;
      }

  -- The keys of a form, each with its Control modifier; none once one panicked.
  pub run : List (KeyCode × Bool) → FormEditor T → Option (FormEditor T)
  run [] s = some s
  run ((key, control) ∷ keys) s = elim (handle_key_event T key control s) [
    | none ↦ none
    | some p ↦ run keys p.1
  ]

  run-Safe : (keys : List (KeyCode × Bool)) (s : FormEditor T) → Valid T s → Safe T s (run keys s)
  unfolding run
  run-Safe [] s v = record { after = s; made = refl; valid = v; same_length = refl }
  run-Safe ((key, control) ∷ keys) s v =
      let h = handle_key_event-Handled key control s v in
      let r = run-Safe keys h.after h.valid in
      record {
        after = r.after;
        made = cc (h.made, r.made);
        valid = r.valid;
        same_length = r.same_length ∙ h.same_length;
      }

  new_form-Valid :
      (fields : List (FormField T))
      → 0 < length fields
      → length fields < 18446744073709551616
      → Valid T (new_form T fields)
  unfolding new_form
  new_form-Valid fields h k = record {
    in_range = h;
    bounded = k;
    in_step = refl;
    editable = λ on _ _. absurd (false≢true on);
  }

  -- A new form with at least one field, and no more than a usize counts, handles every sequence of
  -- keys without a panic: no index is out of range, and the unreachable arm for a checkbox that is
  -- edited is never reached. Behind the keys the focus is in range, the scroll offset equals the
  -- focused field, and the number of the fields is the same.
  pub run-new_form :
      (keys : List (KeyCode × Bool)) (fields : List (FormField T))
      → 0 < length fields
      → length fields < 18446744073709551616
      → (t : FormEditor T) × (run keys (new_form T fields) ≡ some t)
        × (t.focused < length fields)
        × (t.scroll_offset ≡ t.focused)
        × (length t.fields ≡ length fields)
  unfolding new_form
  run-new_form keys fields h k =
      let r = run-Safe keys (new_form T fields) (new_form-Valid fields h k) in
      let i = r.valid.in_range in
      let l : length r.after.fields ≡ length fields = r.same_length in
      (r.after, r.made, omega arith, r.valid.in_step, l)
