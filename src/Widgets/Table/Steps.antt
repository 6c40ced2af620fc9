-- ===== src/Widgets/Table/Steps.antt =====
-- Moves in a table of src/server/widgets/table.rs, and where they stay.
use rustion.Prelude.{ℕ, ◌<◌, ◌≤◌, ◌≡◌, ◌⊎◌, some, List, [], ◌∷◌}
use rustion.Widgets.Table.{
  AdminTable, previous_page, next_page, next_row, previous_row, zoom_in, zoom_out,
}

-- The selection is at most one row behind the last, and the offset too; a row is 1 to 20 lines.
pub record InTable (n : ℕ) (s : AdminTable) : Type 0 where
  pub selection : (i : ℕ) → s.selected ≡ some i → i ≤ n
  pub shown : s.offset ≤ n
  pub at_least : 1 ≤ s.row_height
  pub at_most : s.row_height ≤ 20

pub data Move : Type 0 where
  row_down row_up page_down page_up enlarge reduce : Move
  -- The height that the terminal has from now on.
  resize : ℕ → Move

unfoldable pub move : ℕ → Move → AdminTable → AdminTable
unfolding next_row previous_row next_page previous_page zoom_in zoom_out
move n row_down s = next_row n s
move n row_up s = previous_row n s
move n page_down s = next_page n s
move n page_up s = previous_page s
move n enlarge s = zoom_in s
move n reduce s = zoom_out s
move n (resize h) s = record s { height = h }

unfoldable pub moves : ℕ → List Move → AdminTable → AdminTable
moves n [] s = s
moves n (m ∷ ms) s = moves n ms (move n m s)

-- A terminal has a line at least, and no more than a u16 counts.
abbrev pub HasLines : Move → Type 0
HasLines (resize h) = (0 < h) × (h < 65536)
HasLines row_down = Unit
HasLines row_up = Unit
HasLines page_down = Unit
HasLines page_up = Unit
HasLines enlarge = Unit
HasLines reduce = Unit

-- What keeps `items_len - rows` from wrapping: the terminal has lines, or nothing was shown yet.
unfoldable pub Sized : ℕ → ℕ → Type 0
Sized height offset = ((0 < height) × (height < 65536)) ⊎ ((height ≡ 0) × (offset ≡ 0))
