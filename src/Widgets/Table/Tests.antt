-- ===== src/Widgets/Table/Tests.antt =====
-- A table of ten rows in a terminal of eleven lines.
use rustion.Prelude.{ℕ, ◌<◌, ◌≡◌, refl, some, List, [], ◌∷◌, arith}
use rustion.Widgets.Table.{
  AdminTable, new_table, next_row, previous_row, next_page, has_next_page, page_rows, select_row,
}
use rustion.Widgets.Table.Steps.{Move, InTable, row_down, page_down, enlarge, resize, moves}
use rustion.Widgets.Table.Moves.{next_row-previous_row, new_table-InTable}

abbrev ninth : AdminTable
ninth = record { selected = some 9; offset = 0; scroll_position = 18; row_height = 2; height = 11 }

next_row-previous_row_example :
    ((previous_row 10 (next_row 10 ninth)).selected ≡ some 9)
    × ((next_row 10 (previous_row 10 ninth)).selected ≡ some 9)
    × ((j : ℕ) × ((next_row 10 ninth).selected ≡ some j) × (j < 10))
    × ((j : ℕ) × ((previous_row 10 ninth).selected ≡ some j) × (j < 10))
next_row-previous_row_example = next_row-previous_row 10 9 ninth refl (omega arith) (omega arith)

abbrev some_moves : List Move
some_moves = resize 11 ∷ page_down ∷ page_down ∷ row_down ∷ enlarge ∷ []

new_table-InTable_example : InTable 10 (moves 10 some_moves new_table)
new_table-InTable_example =
    new_table-InTable 10 some_moves (omega arith) (omega arith)
      ((omega arith, omega arith), (tt, (tt, (tt, (tt, tt)))))

abbrev first : AdminTable
first = record { selected = some 0; offset = 0; scroll_position = 0; row_height = 2; height = 11 }

-- Two pages of five rows: the selection is behind the last of the ten rows.
past_the_end : (next_page 10 (next_page 10 first)).selected ≡ some 10
unfolding next_page has_next_page page_rows select_row
past_the_end = refl

-- A terminal without a line: the subtraction wraps, and a page down selects no row of the ten.
abbrev no_lines : AdminTable
no_lines = record { selected = some 0; offset = 5; scroll_position = 0; row_height = 1; height = 0 }

without_lines : (next_page 10 no_lines).selected ≡ some 18446744073709551615
unfolding next_page has_next_page page_rows select_row
without_lines = refl
