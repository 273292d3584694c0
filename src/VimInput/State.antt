-- ===== src/VimInput/State.antt =====
-- The state of `VimInput` (crates/vcz-ui/src/widgets/vim_input.rs), and its positions and line breaks. A
-- String is the list of its chars, so that the index of a byte at a char is the char's position; the
-- widths of the unicode_width crate are parameters. What is drawn is left out.
use vincenzo.Prelude.{
  ℕ, zero, suc, ◌+◌, ◌-◌, Bool, List, [], ◌∷◌, ◌++◌, take, drop, ltb, leb, ◌==◌, ◌&&◌,
  if◌then◌else◌,
}

pub record Cursor : Type 0 where
  pub row : ℕ
  pub col : ℕ

pub data Mode : Type 0 where
  normal insert : Mode
  operator : ℕ → Mode

-- `Key` and `Input` of crates/vcz-ui/src/lib.rs
pub data Key : Type 0 where
  char f : ℕ → Key
  backspace insert enter left right up down tab delete home end page_up page_down esc : Key
  copy cut paste mouse_scroll_down mouse_scroll_up null : Key

pub record Input : Type 0 where
  pub key : Key
  pub ctrl : Bool
  pub alt : Bool
  pub shift : Bool

pub data Transition : Type 0 where
  nop quit : Transition
  mode : Mode → Transition
  pending : Input → Transition

-- the text, `lines.join("")`
unfoldable pub join : List (List ℕ) → List ℕ
join [] = []
join (line ∷ lines) = line ++ join lines

-- the remainder goes in front of the next line, or becomes it
abbrev pub push_down : List ℕ → List (List ℕ) → List (List ℕ)
push_down remainder [] = remainder ∷ []
push_down remainder (next ∷ lines) = (remainder ++ next) ∷ lines

-- the cursor, if it stood behind the split
abbrev pub moved : ℕ → ℕ → Cursor → Cursor
moved current_row col cursor =
    if (cursor.row == current_row) && ltb col cursor.col
    then record { row = cursor.row + 1; col = cursor.col - col }
    else cursor

-- `char_width` and `column_width`
module _ (width : ℕ → ℕ) where
  unfoldable pub column_width : List ℕ → ℕ
  column_width [] = 0
  column_width (c ∷ s) = width c + column_width s

  -- `byte_idx_and_width_at_column`, the first part: how many chars stand before the column
  unfoldable pub position_at : ℕ → List ℕ → ℕ → ℕ
  position_at current_col [] col = 0
  position_at current_col (c ∷ s) col =
      let rest = position_at (current_col + width c) s col in
      if ltb col (current_col + width c) then 0 else suc rest

  -- How many chars of a line fit from a column on, and the column behind them.
  unfoldable pub fitting : ℕ → ℕ → List ℕ → ℕ × ℕ
  fitting chars_per_line col [] = (0, col)
  fitting chars_per_line col (c ∷ s) =
      let (n, stop) = fitting chars_per_line (col + width c) s in
      if ltb chars_per_line (col + width c) then (0, col) else (suc n, stop)

  -- `break_lines_from` on the lines from the current row on. The loop need not end, so it runs on fuel.
  unfoldable pub break_lines : ℕ → ℕ → ℕ → List (List ℕ) → Cursor → List (List ℕ) × Cursor
  unfolding column_width fitting
  break_lines fuel chars_per_line current_row [] cursor = ([], cursor)
  break_lines zero chars_per_line current_row (line ∷ lines) cursor = (line ∷ lines, cursor)
  break_lines (suc fuel) chars_per_line current_row (line ∷ lines) cursor =
      let fits = leb (column_width line) chars_per_line in
      let (split, col) = fitting chars_per_line 0 line in
      let kept = if fits then line else take split line in
      let below = if fits then lines else push_down (drop split line) lines in
      let cursor' = if fits then cursor else moved current_row col cursor in
      let (rest, last) = break_lines fuel chars_per_line (current_row + 1) below cursor' in
      (kept ∷ rest, last)
