-- ===== src/Widgets/Table/Moves.antt =====
-- What the moves of a table do to its selection and its offset.
use rustion.Prelude.{
  ℕ, ◌+◌, ◌-◌, ◌%◌, ◌<◌, ◌≤◌, ◌≡◌, refl, ap, ◌∙◌, inl, inr, All, ◌==◌, some, List, [], ◌∷◌, ltb,
  leb, arith, if◌then◌else◌, Bool-cases, Option-cases,
}
use Prim.Native.Nat.{min, max}
use rustion.Widgets.Radio.{before}
use rustion.Widgets.Table.{
  AdminTable, new_table, select_row, page_rows, previous_page, has_next_page, next_page, next_row,
  previous_row, zoom_in, zoom_out, minus_rows,
}
use rustion.Widgets.Table.Steps.{
  InTable, Move, row_down, row_up, page_down, page_up, enlarge, reduce, resize, move, moves,
  HasLines, Sized,
}
use rustion.Widgets.Table.Turns.{page_rows-fit, move-Sized}

next_row-selected :
    (n i : ℕ) (s : AdminTable)
    → s.selected ≡ some i
    → (next_row n s).selected ≡ some (if leb (before n) i then 0 else i + 1)
unfolding next_row select_row
next_row-selected n i s e = cc e

previous_row-selected :
    (n i : ℕ) (s : AdminTable)
    → s.selected ≡ some i
    → (previous_row n s).selected ≡ some (if i == 0 then before n else i - 1)
unfolding previous_row select_row
previous_row-selected n i s e = cc e

-- Where the selected row is a row of the table, and not the one behind the last that a page turn can
-- select, and the rows are no more than a usize counts: moving on and back, and back and on, selects
-- the same row again, and both moves select a row of the table.
pub next_row-previous_row :
    (n i : ℕ) (s : AdminTable)
    → s.selected ≡ some i
    → i < n
    → n < 18446744073709551616
    → ((previous_row n (next_row n s)).selected ≡ some i)
      × ((next_row n (previous_row n s)).selected ≡ some i)
      × ((j : ℕ) × ((next_row n s).selected ≡ some j) × (j < n))
      × ((j : ℕ) × ((previous_row n s).selected ≡ some j) × (j < n))
next_row-previous_row n i s e h k =
    let forth : (if leb (before n) i then 0 else i + 1) < n = ground arith in
    let back : (if i == 0 then before n else i - 1) < n = ground arith in
    let down = next_row-selected n i s e in
    let up = previous_row-selected n i s e in
    (
      previous_row-selected n _ (next_row n s) down ∙ ap some (ground arith),
      next_row-selected n _ (previous_row n s) up ∙ ap some (ground arith),
      (_, down, forth),
      (_, up, back),
    )

-- Only the selection, the offset and the bar have changed.
placed :
    (n i o : ℕ) (s t : AdminTable)
    → InTable n s
    → t.selected ≡ some i
    → i ≤ n
    → t.offset ≡ o
    → o ≤ n
    → t.row_height ≡ s.row_height
    → InTable n t
placed n i o s t v e h f k g =
    let a = v.at_least in
    let b = v.at_most in
    record {
      selection = λ j d. let same : i ≡ j = cc (e, d) in omega arith;
      shown = omega arith;
      at_least = omega arith;
      at_most = omega arith;
    }

next_row-InTable :
    (n : ℕ) (s : AdminTable)
    → 0 < n
    → n < 18446744073709551616
    → InTable n s
    → InTable n (next_row n s)
unfolding next_row select_row
next_row-InTable n s p k v = elim (Option-cases s.selected) [
  | inl e ↦ placed n 0 s.offset s _ v (cc e) (omega arith) (cc e) v.shown (cc e)
  | inr (i, e) ↦
      placed n (if leb (before n) i then 0 else i + 1) s.offset s _ v (cc e) (ground arith) (cc e)
        v.shown (cc e)
]

previous_row-InTable :
    (n : ℕ) (s : AdminTable)
    → 0 < n
    → n < 18446744073709551616
    → InTable n s
    → InTable n (previous_row n s)
unfolding previous_row select_row
previous_row-InTable n s p k v = elim (Option-cases s.selected) [
  | inl e ↦ placed n 0 s.offset s _ v (cc e) (omega arith) (cc e) v.shown (cc e)
  | inr (i, e) ↦
      let h = v.selection i e in
      placed n (if i == 0 then before n else i - 1) s.offset s _ v (cc e) (ground arith) (cc e)
        v.shown (cc e)
]

previous_page-InTable : (n : ℕ) (s : AdminTable) → InTable n s → InTable n (previous_page s)
unfolding previous_page select_row
previous_page-InTable n s v =
    let rows = page_rows s in
    let o : ℕ = if ltb s.offset rows then 0 else s.offset - rows in
    let w = v.shown in
    let within : o ≤ n = ground arith in
    elim (Option-cases s.selected) [
      | inl e ↦ placed n 0 o s _ v (cc e) (omega arith) (cc e) within (cc e)
      | inr (i, e) ↦
          let h = v.selection i e in
          placed n (if ltb i rows then i else i - rows) o s _ v (cc e) (ground arith) (cc e) within
            (cc e)
    ]

next_page-InTable :
    (n : ℕ) (s : AdminTable)
    → n < 576460752303423488
    → InTable n s
    → Sized s.height s.offset
    → InTable n (next_page n s)
unfolding next_page has_next_page select_row
next_page-InTable n s k v z =
    let rows = page_rows s in
    let target : ℕ = (s.offset + rows) % 18446744073709551616 in
    let w = v.shown in
    elim (Bool-cases (leb target n)) [
      | inl more ↦
          let within : target ≤ n = ground arith in
          let fit : rows ≤ n = page_rows-fit n s k v z more in
          elim (Option-cases s.selected) [
            | inl e ↦
                placed n 0 target s _ v (cc (e, more)) (omega arith) (cc (e, more)) within
                  (cc (e, more))
            | inr (i, e) ↦
                placed n
                  (if leb (minus_rows n rows) i then target else (i + rows) % 18446744073709551616)
                  target s _ v (cc (e, more)) (ground arith) (cc (e, more)) within (cc (e, more))
          ]
      | inr last ↦ elim (Option-cases s.selected) [
        | inl e ↦
            placed n 0 s.offset s _ v (cc (e, last)) (omega arith) (cc (e, last)) w (cc (e, last))
        | inr (i, e) ↦
            placed n i s.offset s _ v (cc (e, last)) (v.selection i e) (cc (e, last)) w
              (cc (e, last))
      ]
    ]

zoomed :
    (n h : ℕ) (s : AdminTable)
    → 1 ≤ h
    → h ≤ 20
    → InTable n s
    → InTable n (record s { row_height = h })
zoomed n h s a b v = record { selection = v.selection; shown = v.shown; at_least = a; at_most = b }

move-InTable :
    (n : ℕ) (m : Move) (s : AdminTable)
    → 0 < n
    → n < 576460752303423488
    → InTable n s
    → Sized s.height s.offset
    → InTable n (move n m s)
unfolding move zoom_in zoom_out
move-InTable n row_down s p k v z = next_row-InTable n s p (omega arith) v
move-InTable n row_up s p k v z = previous_row-InTable n s p (omega arith) v
move-InTable n page_down s p k v z = next_page-InTable n s k v z
move-InTable n page_up s p k v z = previous_page-InTable n s v
move-InTable n enlarge s p k v z =
    let a = v.at_least in
    let b = v.at_most in
    zoomed n (min (min (s.row_height + 1) 18446744073709551615) 20) s (omega arith) (omega arith) v
move-InTable n reduce s p k v z =
    let a = v.at_least in
    let b = v.at_most in zoomed n (max (s.row_height - 1) 1) s (omega arith) (omega arith) v
move-InTable n (resize h) s p k v z = record {
  selection = v.selection;
  shown = v.shown;
  at_least = v.at_least;
  at_most = v.at_most;
}

moves_keep :
    (n : ℕ) (ms : List Move) (s : AdminTable)
    → 0 < n
    → n < 576460752303423488
    → All HasLines ms
    → InTable n s
    → Sized s.height s.offset
    → InTable n (moves n ms s)
unfolding moves
moves_keep n [] s p k l v z = v
moves_keep n (m ∷ ms) s p k l v z =
    moves_keep n ms (move n m s) p k l.1 (move-InTable n m s p k v z) (move-Sized n m s k l.0 v z)

-- In a table with rows, fewer than 2 ^ 59, after any moves, page turns, zooms and changes of the
-- terminal's height, to one line at least and no more than a u16 counts, from a new table: the
-- selected row and the offset are at most the number of the rows, which is one behind the last row,
-- and a row is 1 to 20 lines high.
pub new_table-InTable :
    (n : ℕ) (ms : List Move)
    → 0 < n
    → n < 576460752303423488
    → All HasLines ms
    → InTable n (moves n ms new_table)
unfolding new_table Sized
new_table-InTable n ms p k l =
    moves_keep n ms new_table p k l
      (record {
        selection = λ j d. let same : 0 ≡ j = cc d in omega arith;
        shown = omega arith;
        at_least = omega arith;
        at_most = omega arith;
      })
      (inr (refl, refl))
