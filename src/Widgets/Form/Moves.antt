-- ===== src/Widgets/Form/Moves.antt =====
-- Moving the focus keeps the invariant.
use rustion.Prelude.{
  ℕ, ◌+◌, ◌-◌, ◌%◌, ◌<◌, ◌≡◌, refl, sym, ap, ◌∙◌, inl, inr, Bool, true, false, not, ◌==◌, ◌&&◌,
  ◌||◌, Option, some, length, arith, if◌then◌else◌, Bool-cases,
}
use Prim.Native.Nat.{min}
use native.Mathlib.Nat.{mod_self, mod-lt, mod-eq_of_lt}
use mathlib.Core.Bool.{false≢true}
use rustion.Widgets.Inputs.{
  KeyCode, char, esc, enter, tab, back_tab, up, down, left, right, other_key, TextArea,
}
use rustion.Widgets.Radio.{before}
use rustion.Widgets.Form.{
  FormEditor, focus_next, focus_previous, scroll_next, scroll_previous, go_next, go_previous,
  normal_key,
}
use rustion.Widgets.Form.Valid.{
  Valid, Safe, unchanged, enter_edit_mode-Safe, clear_focused_field-Safe, toggle-Safe,
  update_help_text-made,
}

module _ (T : TextArea) where
  next_in_range :
      (i n : ℕ)
      → i < n
      → n < 18446744073709551616
      → ((i + 1) % 18446744073709551616) % n ≡ (if i == n - 1 then 0 else i + 1)
  next_in_range i n h k = elim (Bool-cases (i == n - 1)) [
    | inl e ↦
        let at_end : i ≡ n - 1 = ground arith in
        let last : (i + 1) % 18446744073709551616 ≡ n = omega arith in rw e (rw last (mod_self n))
    | inr e ↦
        let small : i + 1 < n = ground arith in
        let kept : (i + 1) % 18446744073709551616 ≡ i + 1 = omega arith in
        rw e (rw kept (mod-eq_of_lt small))
  ]

  saturated :
      (i n : ℕ)
      → i < n
      → n < 18446744073709551616
      → (if i == n - 1 then 0 else min (i + 1) 18446744073709551615)
        ≡ (if i == n - 1 then 0 else i + 1)
  saturated i n h k = ground arith

  moved :
      (s t : FormEditor T) (r : Option (FormEditor T))
      → Valid T s
      → r ≡ some t
      → t.fields ≡ s.fields
      → t.focused < length s.fields
      → t.scroll_offset ≡ t.focused
      → t.editing_mode ≡ false
      → Safe T s r
  moved s t r v made e h step off =
      let b = v.bounded in
      let l : length t.fields ≡ length s.fields = ap length e in
      record {
        after = t;
        made = made;
        valid = record {
          in_range = omega arith;
          bounded = omega arith;
          in_step = step;
          editable = λ on _ _. absurd (false≢true (sym off ∙ on));
        };
        same_length = l;
      }

  go_next-Safe : (s : FormEditor T) → Valid T s → Safe T s (go_next T s)
  unfolding go_next focus_next scroll_next
  go_next-Safe s v =
      let i = v.in_range in
      let n = length s.fields in
      let target : ℕ = ((s.focused + 1) % 18446744073709551616) % n in
      let place : target ≡ (if s.focused == n - 1 then 0 else s.focused + 1) =
        next_in_range s.focused n i v.bounded in
      let (t, made, same) =
        update_help_text-made T (record s { editing_mode = false; focused = target })
          (mod-lt ((s.focused + 1) % 18446744073709551616) (omega arith)) in
      let filled : (n == 0) ≡ false = ground arith in
      let focus : t.focused ≡ target = cc same in
      let fields : t.fields ≡ s.fields = cc same in
      let scrolled : t.scroll_offset ≡ s.focused = cc (same, v.in_step) in
      let stepped : (scroll_next T t).scroll_offset
          ≡ (if s.focused == n - 1 then 0 else min (s.focused + 1) 18446744073709551615) =
        cc (scrolled, fields) in
      moved s (scroll_next T t) (go_next T s) v (cc (filled, made)) fields
        (rw focus (mod-lt ((s.focused + 1) % 18446744073709551616) (omega arith)))
        (stepped ∙ saturated s.focused n i v.bounded ∙ sym place ∙ sym focus) (cc same)

  go_previous-Safe : (s : FormEditor T) → Valid T s → Safe T s (go_previous T s)
  unfolding go_previous focus_previous scroll_previous
  go_previous-Safe s v =
      let i = v.in_range in
      let b = v.bounded in
      let n = length s.fields in
      let target : ℕ = if s.focused == 0 then before n else s.focused - 1 in
      let place : target ≡ (if s.focused == 0 then n - 1 else s.focused - 1) = ground arith in
      let within : target < n = ground arith in
      let (t, made, same) =
        update_help_text-made T (record s { editing_mode = false; focused = target }) within in
      let focus : t.focused ≡ target = cc same in
      let fields : t.fields ≡ s.fields = cc same in
      let scrolled : t.scroll_offset ≡ s.focused = cc (same, v.in_step) in
      let stepped : (scroll_previous T t).scroll_offset
          ≡ (if s.focused == 0 then n - 1 else s.focused - 1) =
        cc (scrolled, fields) in
      moved s (scroll_previous T t) (go_previous T s) v (cc made) fields (rw focus within)
        (stepped ∙ sym place ∙ sym focus) (cc same)

  char-Safe : (c : ℕ) (s : FormEditor T) → Valid T s → Safe T s (normal_key T (char c) s)
  unfolding normal_key
  char-Safe c s v = choose (c == b'q') (unchanged T s _ v refl refl refl v.editable) (
      choose (c == b'j') (go_next-Safe s v) (
        choose (c == b'k') (go_previous-Safe s v) (
          choose (c == b'i' || c == b'a') (enter_edit_mode-Safe T (char c) s v) (
            choose (c == b'd' && not s.editing_mode) (clear_focused_field-Safe T s v) (
              choose (c == b' ') (toggle-Safe T s v)
                (unchanged T s s v refl refl refl v.editable))))))
    where
      choose :
          (b : Bool) {x y : Option (FormEditor T)}
          → Safe T s x
          → Safe T s y
          → Safe T s (if b then x else y)
      choose true p q = p
      choose false p q = q

  pub normal_key-Safe :
      (key : KeyCode) (s : FormEditor T) → Valid T s → Safe T s (normal_key T key s)
  unfolding normal_key
  normal_key-Safe esc s v = unchanged T s _ v refl refl refl v.editable
  normal_key-Safe tab s v = go_next-Safe s v
  normal_key-Safe down s v = go_next-Safe s v
  normal_key-Safe back_tab s v = go_previous-Safe s v
  normal_key-Safe up s v = go_previous-Safe s v
  normal_key-Safe enter s v = enter_edit_mode-Safe T enter s v
  normal_key-Safe left s v = unchanged T s s v refl refl refl v.editable
  normal_key-Safe right s v = unchanged T s s v refl refl refl v.editable
  normal_key-Safe (other_key k) s v = unchanged T s s v refl refl refl v.editable
  normal_key-Safe (char c) s v = char-Safe c s v
