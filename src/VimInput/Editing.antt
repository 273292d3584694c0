-- ===== src/VimInput/Editing.antt =====
-- What the keys of the insert mode do to the lines: `insert_char`, `insert_newline`, `backspace` and
-- `adjust_scroll_offset` of crates/vcz-ui/src/widgets/vim_input.rs.
use vincenzo.Prelude.{
  ℕ, zero, suc, ◌+◌, ◌-◌, ◌^◌, ◌%◌, Option, none, some, List, [], ◌∷◌, ◌++◌, length, get_elem?,
  take, drop, ltb, leb, ◌==◌, min, if◌then◌else◌,
}
use vincenzo.Outcome.{Outcome, ok, panic}
use vincenzo.VimInput.State.{Cursor, Mode, Input, join, column_width, position_at, break_lines}

pub record VimInput : Type 0 where
  pub chars_per_line : ℕ
  pub lines : List (List ℕ)
  pub cursor : Cursor
  pub height : ℕ
  pub scroll_offset : ℕ
  pub mode : Mode
  pub pending : Input

-- `scroll_offset + visible_height - 1` wraps where overflow is not checked.
unfoldable pub adjust_scroll_offset : VimInput → VimInput
adjust_scroll_offset e =
    let row = e.cursor.row in
    let up = if ltb row e.scroll_offset then row else e.scroll_offset in
    let bottom_line = (up + e.height + (2 ^ 64 - 1)) % 2 ^ 64 in
    let down = if ltb bottom_line row then row - e.height + 1 else up in
    record e { scroll_offset = min down (length e.lines - e.height) }

abbrev pub put_line : ℕ → List ℕ → List (List ℕ) → List (List ℕ)
put_line row line lines = take row lines ++ (line ∷ drop (suc row) lines)

-- lines are added until there is one of the number
abbrev pub padded : ℕ → List (List ℕ)
padded zero = []
padded (suc n) = [] ∷ padded n

-- the chars of a line, without one
abbrev pub without : ℕ → List ℕ → List ℕ
without n line = take n line ++ drop (suc n) line

module _ (width : ℕ → ℕ) where
  -- `break_lines_from`; the fuel is the number of lines and chars
  unfoldable pub break_lines_from : ℕ → VimInput → VimInput
  unfolding break_lines
  break_lines_from row e =
      let below = drop row e.lines in
      let (broken, cursor) =
        break_lines width (length below + length (join below)) e.chars_per_line row below
          e.cursor in
      record e { lines = take row e.lines ++ broken; cursor = cursor }

  abbrev pub insert_in : ℕ → VimInput → Option (List ℕ) → Outcome VimInput
  insert_in c e none = panic
  insert_in c e (some line) =
      let at = position_at width 0 line e.cursor.col in
      let line' = take at line ++ (c ∷ drop at line) in
      let e' = record e {
        lines = put_line e.cursor.row line' e.lines;
        cursor = record { row = e.cursor.row; col = e.cursor.col + width c };
      } in
      let e'' =
        if ltb e.chars_per_line (column_width width line')
        then break_lines_from e.cursor.row e'
        else e' in
      ok (adjust_scroll_offset e'')

  unfoldable pub insert_char : ℕ → VimInput → Outcome VimInput
  unfolding break_lines_from adjust_scroll_offset position_at column_width
  insert_char c e =
      let lines = e.lines ++ padded (suc e.cursor.row - length e.lines) in
      insert_in c (record e { lines = lines }) (get_elem? lines e.cursor.row)

  abbrev pub newline_in : VimInput → Option (List ℕ) → Outcome VimInput
  newline_in e none = panic
  newline_in e (some line) =
      let at = position_at width 0 line e.cursor.col in
      let row = e.cursor.row in
      ok (
        adjust_scroll_offset (record e {
          lines = take row e.lines ++ (take at line ∷ drop at line ∷ drop (suc row) e.lines);
          cursor = record { row = row + 1; col = 0 };
        }))

  unfoldable pub insert_newline : VimInput → Outcome VimInput
  unfolding adjust_scroll_offset position_at
  insert_newline e = newline_in e (get_elem? e.lines e.cursor.row)

  -- Chars of the lines below are moved up, one from each, and empty lines removed, until a line is full.
  unfoldable pub pull_up : ℕ → List ℕ → List (List ℕ) → List (List ℕ)
  unfolding column_width
  pull_up chars_per_line line [] = line ∷ []
  pull_up chars_per_line line ([] ∷ lines) =
      let rest = pull_up chars_per_line line lines in
      if leb chars_per_line (column_width width line) then line ∷ [] ∷ lines else rest
  pull_up chars_per_line line ((c ∷ next) ∷ lines) =
      let rest = pull_up chars_per_line next lines in
      if leb chars_per_line (column_width width line)
      then line ∷ (c ∷ next) ∷ lines
      else if ltb chars_per_line (column_width width line + width c)
      then line ∷ (c ∷ next) ∷ lines
      else (line ++ (c ∷ [])) ∷ rest

  -- the char in front of the cursor is removed; an empty line has none, which panics
  abbrev pub remove_in : VimInput → List ℕ → Option ℕ → Outcome VimInput
  remove_in e line none = panic
  remove_in e line (some c) =
      let at = position_at width 0 line e.cursor.col in
      let last_width = if at == 0 then 0 else width c in
      ok (
        adjust_scroll_offset (record e {
          lines =
              take e.cursor.row e.lines
              ++ pull_up e.chars_per_line (without (at - 1) line) (drop (suc e.cursor.row) e.lines);
          cursor = record { row = e.cursor.row; col = e.cursor.col - last_width };
        }))

  abbrev pub remove_of : VimInput → Option (List ℕ) → Outcome VimInput
  remove_of e none = panic
  remove_of e (some line) =
      remove_in e line (get_elem? line (position_at width 0 line e.cursor.col - 1))

  -- at the start of a line, it is joined to the one above
  abbrev pub join_up : VimInput → ℕ → Option (List ℕ) → Option (List ℕ) → Outcome VimInput
  join_up e above (some prev) (some line) = ok (
      adjust_scroll_offset (
        break_lines_from above (record e {
          lines = take above e.lines ++ ((prev ++ line) ∷ drop (suc (suc above)) e.lines);
          cursor = record { row = above; col = column_width width prev };
        })))
  join_up e above _ _ = panic

  abbrev pub backspace_at : ℕ → ℕ → VimInput → Outcome VimInput
  backspace_at zero zero e = ok (adjust_scroll_offset e)
  backspace_at (suc above) zero e =
      join_up e above (get_elem? e.lines above) (get_elem? e.lines (suc above))
  backspace_at row (suc col) e = remove_of e (get_elem? e.lines row)

  unfoldable pub backspace : VimInput → Outcome VimInput
  unfolding pull_up break_lines_from adjust_scroll_offset position_at column_width
  backspace e = backspace_at e.cursor.row e.cursor.col e
