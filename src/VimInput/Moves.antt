-- ===== src/VimInput/Moves.antt =====
-- The moves of the cursor and the scrolls of crates/vcz-ui/src/widgets/vim_input.rs. The width of a whole
-- line is a parameter beside that of a char, since the code asks the unicode_width crate for both.
use vincenzo.Prelude.{
  ℕ, zero, suc, ◌+◌, ◌-◌, ◌^◌, ◌%◌, Bool, true, false, Option, none, some, List, [], ◌∷◌, length,
  get_elem?, ltb, ◌==◌, min, if◌then◌else◌,
}
use vincenzo.Outcome.{Outcome, ok, panic}
use vincenzo.VimInput.Editing.{VimInput, adjust_scroll_offset}

-- `char::len_utf8` and `String::len`
abbrev len_utf8 : ℕ → ℕ
len_utf8 c = if ltb c 128 then 1 else if ltb c 2048 then 2 else if ltb c 65536 then 3 else 4

abbrev pub byte_len : List ℕ → ℕ
byte_len [] = 0
byte_len (c ∷ s) = len_utf8 c + byte_len s

abbrev pub at : ℕ → ℕ → VimInput → VimInput
at row col e = record e { cursor = record { row = row; col = col } }

abbrev pub settle : VimInput → Outcome VimInput
settle e = ok (adjust_scroll_offset e)

-- the scan of `move_cursor_left`: whether the cursor was found in a char, and its new column
abbrev pub left_scan : (ℕ → ℕ) → ℕ → ℕ → List ℕ → ℕ → Bool × ℕ
left_scan width start prev_start [] col = (false, prev_start)
left_scan width start prev_start (c ∷ s) col =
    let rest = left_scan width (start + width c) start s col in
    if ltb col (start + width c) then (true, if col == start then prev_start else start) else rest

-- the scan of `move_cursor_right`
abbrev pub right_scan : (ℕ → ℕ) → ℕ → List ℕ → ℕ → ℕ
right_scan width start [] col = col
right_scan width start (c ∷ s) col =
    let rest = right_scan width (start + width c) s col in
    if ltb col (start + width c) then start + width c else rest

-- the column, at most some other
abbrev pub clamp : ℕ → ℕ → ℕ
clamp col most = if ltb most col then most else col

module _ (width : ℕ → ℕ) (line_width : List ℕ → ℕ) where
  -- a cursor that is found in a char is moved without a scroll
  abbrev pub left_in : VimInput → Option (List ℕ) → Outcome VimInput
  left_in e none = panic
  left_in e (some line) =
      let (found, col) = left_scan width 0 0 line e.cursor.col in
      let e' = at e.cursor.row col e in if found then ok e' else settle e'

  abbrev pub to_end : ℕ → VimInput → Option (List ℕ) → Outcome VimInput
  to_end row e none = panic
  to_end row e (some line) = settle (at row (line_width line) e)

  abbrev pub left_at : ℕ → ℕ → VimInput → Outcome VimInput
  left_at zero zero e = settle e
  left_at (suc above) zero e = to_end above e (get_elem? e.lines above)
  left_at zero (suc col) e = left_in e (get_elem? e.lines zero)
  left_at (suc above) (suc col) e = left_in e (get_elem? e.lines (suc above))

  unfoldable pub move_cursor_left : VimInput → Outcome VimInput
  unfolding adjust_scroll_offset
  move_cursor_left e = left_at e.cursor.row e.cursor.col e

  abbrev pub right_in : VimInput → Option (List ℕ) → Outcome VimInput
  right_in e none = panic
  right_in e (some line) = settle (
      if ltb e.cursor.col (line_width line)
      then at e.cursor.row (right_scan width 0 line e.cursor.col) e
      else if ltb e.cursor.row (length e.lines - 1)
      then at (e.cursor.row + 1) 0 e
      else e)

  unfoldable pub move_cursor_right : VimInput → Outcome VimInput
  unfolding adjust_scroll_offset
  move_cursor_right e = right_in e (get_elem? e.lines e.cursor.row)

  -- to another line, at most to its end
  abbrev pub to_line : ℕ → VimInput → Option (List ℕ) → Outcome VimInput
  to_line row e none = panic
  to_line row e (some line) = settle (at row (clamp e.cursor.col (line_width line)) e)

  abbrev pub up_at : ℕ → VimInput → Outcome VimInput
  up_at zero e = settle e
  up_at (suc above) e = to_line above e (get_elem? e.lines above)

  unfoldable pub move_cursor_up : VimInput → Outcome VimInput
  unfolding adjust_scroll_offset
  move_cursor_up e = up_at e.cursor.row e

  -- without lines `len() - 1` panics or is a row that there is not
  abbrev pub down_in : VimInput → List (List ℕ) → Outcome VimInput
  down_in e [] = panic
  down_in e (line ∷ lines) =
      let row = e.cursor.row in
      let moved = to_line (row + 1) e (get_elem? e.lines (row + 1)) in
      if ltb row (length lines) then moved else settle e

  unfoldable pub move_cursor_down : VimInput → Outcome VimInput
  unfolding adjust_scroll_offset
  move_cursor_down e = down_in e e.lines

-- the column is cut to the bytes of the line
abbrev pub cut_to : ℕ → VimInput → Option (List ℕ) → Outcome VimInput
cut_to row e none = panic
cut_to row e (some line) = ok (at row (min e.cursor.col (byte_len line)) e)

unfoldable pub scroll_up : ℕ → VimInput → Outcome VimInput
scroll_up n e =
    let new_scroll = e.scroll_offset - n in
    let row = e.cursor.row - (e.scroll_offset - new_scroll) in
    let scrolled = record e { scroll_offset = new_scroll } in
    if ltb 0 e.cursor.row then cut_to row scrolled (get_elem? e.lines row) else ok scrolled

-- `new_scroll - scroll_offset` wraps where overflow is not checked
abbrev pub scroll_down_in : ℕ → VimInput → List (List ℕ) → Outcome VimInput
scroll_down_in n e [] = panic
scroll_down_in n e (line ∷ lines) =
    let new_scroll = min (e.scroll_offset + n) (length e.lines - e.height) in
    let scroll_amount = (new_scroll + 2 ^ 64 - e.scroll_offset) % 2 ^ 64 in
    let row = min ((e.cursor.row + scroll_amount) % 2 ^ 64) (length lines) in
    let scrolled = record e { scroll_offset = new_scroll } in
    if ltb e.cursor.row (length lines)
    then cut_to row scrolled (get_elem? e.lines row)
    else ok scrolled

unfoldable pub scroll_down : ℕ → VimInput → Outcome VimInput
scroll_down n e = scroll_down_in n e e.lines
