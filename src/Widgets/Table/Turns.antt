-- ===== src/Widgets/Table/Turns.antt =====
-- The pages of a table of src/server/widgets/table.rs: when `items_len - rows` does not wrap.
use rustion.Prelude.{
  ℕ, ◌+◌, ◌-◌, ◌%◌, ◌<◌, ◌≤◌, ◌≡◌, refl, inl, inr, true, ltb, leb, arith, if◌then◌else◌, Bool-cases,
  Option-cases,
}
use Prim.Native.Nat.{◌/◌}
use native.Mathlib.Nat.{div-add-mod', mod-lt, div-le_self, mul-le-mul_left}
use rustion.Widgets.Radio.{before}
use rustion.Widgets.Table.{
  AdminTable, select_row, page_rows, previous_page, has_next_page, next_page, next_row,
  previous_row, zoom_in, zoom_out,
}
use rustion.Widgets.Table.Steps.{
  InTable, Move, row_down, row_up, page_down, page_up, enlarge, reduce, resize, move, HasLines,
  Sized,
}

-- A page that begins behind the shown rows is no longer than the table.
pub page_rows-fit :
    (n : ℕ) (s : AdminTable)
    → n < 576460752303423488
    → InTable n s
    → Sized s.height s.offset
    → leb ((s.offset + page_rows s) % 18446744073709551616) n ≡ true
    → page_rows s ≤ n
unfolding page_rows Sized
page_rows-fit n s k v z more =
    let w = v.shown in
    let a = v.at_least in
    let b = v.at_most in
    elim z [
      | inl (tall, small) ↦ let less = div-le_self (before s.height) s.row_height in ground arith
      | inr (flat, top) ↦
          let all : before s.height ≡ 18446744073709551615 = rw flat refl in
          let less = div-le_self (before s.height) s.row_height in ground arith
    ]

-- Before anything is shown, a page is longer than any table.
page_rows-flat :
    (n : ℕ) (s : AdminTable) → InTable n s → s.height ≡ 0 → 576460752303423488 ≤ page_rows s
unfolding page_rows
page_rows-flat n s v flat =
    let a = v.at_least in
    let b = v.at_most in
    let whole = div-add-mod' (before s.height) s.row_height in
    let rest = mod-lt (before s.height) a in
    let bound = mul-le-mul_left (before s.height / s.row_height) b in
    let all : before s.height ≡ 18446744073709551615 = rw flat refl in ground arith

Sized-same : {h h' o o' : ℕ} → Sized h o → h' ≡ h → o' ≡ o → Sized h' o'
unfolding Sized
Sized-same (inl (tall, small)) p q = inl (omega arith, omega arith)
Sized-same (inr (flat, top)) p q = inr (omega arith, omega arith)

Sized-tall : {h h' o o' : ℕ} → Sized h o → h' ≡ h → (o ≡ 0 → o' ≡ 0) → Sized h' o'
unfolding Sized
Sized-tall (inl (tall, small)) p q = inl (omega arith, omega arith)
Sized-tall (inr (flat, top)) p q = inr (omega arith, q top)

next_row-Sized :
    (n : ℕ) (s : AdminTable)
    → Sized s.height s.offset
    → Sized (next_row n s).height (next_row n s).offset
unfolding next_row select_row
next_row-Sized n s z = elim (Option-cases s.selected) [
  | inl e ↦ Sized-same z (cc e) (cc e)
  | inr (i, e) ↦ Sized-same z (cc e) (cc e)
]

previous_row-Sized :
    (n : ℕ) (s : AdminTable)
    → Sized s.height s.offset
    → Sized (previous_row n s).height (previous_row n s).offset
unfolding previous_row select_row
previous_row-Sized n s z = elim (Option-cases s.selected) [
  | inl e ↦ Sized-same z (cc e) (cc e)
  | inr (i, e) ↦ Sized-same z (cc e) (cc e)
]

previous_page-Sized :
    (s : AdminTable)
    → Sized s.height s.offset
    → Sized (previous_page s).height (previous_page s).offset
unfolding previous_page select_row
previous_page-Sized s z =
    let o : ℕ = if ltb s.offset (page_rows s) then 0 else s.offset - page_rows s in
    let top : s.offset ≡ 0 → o ≡ 0 = λ t. ground arith in
    elim (Option-cases s.selected) [
      | inl e ↦ Sized-tall z (cc e) (λ t. let y = top t in cc (e, y))
      | inr (i, e) ↦ Sized-tall z (cc e) (λ t. let y = top t in cc (e, y))
    ]

next_page-Sized :
    (n : ℕ) (s : AdminTable)
    → n < 576460752303423488
    → InTable n s
    → Sized s.height s.offset
    → Sized (next_page n s).height (next_page n s).offset
unfolding next_page has_next_page select_row Sized
next_page-Sized n s k v z =
    elim (Bool-cases (leb ((s.offset + page_rows s) % 18446744073709551616) n)) [
      | inl more ↦
          let fit = page_rows-fit n s k v z more in
          elim z [
            | inl (tall, small) ↦ elim (Option-cases s.selected) [
              | inl e ↦
                  let same : (next_page n s).height ≡ s.height = cc (e, more) in
                  inl (rw same tall, rw same small)
              | inr (i, e) ↦
                  let same : (next_page n s).height ≡ s.height = cc (e, more) in
                  inl (rw same tall, rw same small)
            ]
            | inr (flat, top) ↦ let long = page_rows-flat n s v flat in absurd (omega arith)
          ]
      | inr last ↦ elim (Option-cases s.selected) [
        | inl e ↦ Sized-same z (cc (e, last)) (cc (e, last))
        | inr (i, e) ↦ Sized-same z (cc (e, last)) (cc (e, last))
      ]
    ]

pub move-Sized :
    (n : ℕ) (m : Move) (s : AdminTable)
    → n < 576460752303423488
    → HasLines m
    → InTable n s
    → Sized s.height s.offset
    → Sized (move n m s).height (move n m s).offset
unfolding move zoom_in zoom_out
move-Sized n row_down s k l v z = next_row-Sized n s z
move-Sized n row_up s k l v z = previous_row-Sized n s z
move-Sized n page_down s k l v z = next_page-Sized n s k v z
move-Sized n page_up s k l v z = previous_page-Sized s z
move-Sized n enlarge s k l v z = z
move-Sized n reduce s k l v z = z
move-Sized n (resize h) s k l v z = unfold Sized in inl l
