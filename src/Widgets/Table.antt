-- ===== src/Widgets/Table.antt =====
-- The selection of `AdminTable` of src/server/widgets/table.rs. ratatui's `TableState` is its selected
-- row and its offset, and the scrollbar's state its position. The type usize wraps.
pub mod Steps
mod Turns
pub mod Moves
mod Tests
use rustion.Prelude.{
  ℕ, ◌+◌, ◌-◌, ◌*◌, ◌/◌, ◌%◌, Bool, true, false, ◌==◌, Option, none, some, ltb, leb, if◌then◌else◌,
}
use Prim.Native.Nat.{min, max}
use rustion.Widgets.Radio.{before}

pub record AdminTable : Type 0 where
  pub selected : Option ℕ
  pub offset : ℕ
  pub scroll_position : ℕ
  pub row_height : ℕ
  -- `size.1`, a u16.
  pub height : ℕ

pub new_table : AdminTable
new_table = record {
  selected = some 0;
  offset = 0;
  scroll_position = 0;
  row_height = 2;
  height = 0;
}

-- The end of each move.
pub select_row : ℕ → AdminTable → AdminTable
select_row i s = record s {
  selected = some i;
  scroll_position = (i * s.row_height) % 18446744073709551616;
}

-- The rows of a page.
pub page_rows : AdminTable → ℕ
page_rows s = before s.height / s.row_height

pub previous_page : AdminTable → AdminTable
unfolding select_row page_rows
previous_page s =
    let rows = page_rows s in
    let s' = record s { offset = if ltb s.offset rows then 0 else s.offset - rows } in
    elim s.selected [
      | some i ↦ select_row (if ltb i rows then i else i - rows) s'
      | none ↦ select_row 0 s'
    ]

-- `items_len - rows`.
abbrev pub minus_rows : ℕ → ℕ → ℕ
minus_rows items_len rows = (items_len + 18446744073709551616 - rows) % 18446744073709551616

-- Whether the offset moves on by a page.
pub has_next_page : ℕ → AdminTable → Bool
unfolding page_rows
has_next_page items_len s = leb ((s.offset + page_rows s) % 18446744073709551616) items_len

pub next_page : ℕ → AdminTable → AdminTable
unfolding select_row page_rows has_next_page
next_page items_len s =
    let rows = page_rows s in
    let target = (s.offset + rows) % 18446744073709551616 in
    if has_next_page items_len s
    then (elim s.selected [
      | some i ↦
          select_row
            (if leb (minus_rows items_len rows) i
              then target
              else (i + rows) % 18446744073709551616)
            (record s { offset = target })
      | none ↦ select_row 0 (record s { offset = target })
    ])
    else (elim s.selected [ some i ↦ select_row i s | none ↦ select_row 0 s ])

pub next_row : ℕ → AdminTable → AdminTable
unfolding select_row
next_row items_len s = elim s.selected [
  | some i ↦ select_row (if leb (before items_len) i then 0 else i + 1) s
  | none ↦ select_row 0 s
]

pub previous_row : ℕ → AdminTable → AdminTable
unfolding select_row
previous_row items_len s = elim s.selected [
  | some i ↦ select_row (if i == 0 then before items_len else i - 1) s
  | none ↦ select_row 0 s
]

pub zoom_in : AdminTable → AdminTable
zoom_in s = record s { row_height = min (min (s.row_height + 1) 18446744073709551615) 20 }

pub zoom_out : AdminTable → AdminTable
zoom_out s = record s { row_height = max (s.row_height - 1) 1 }
