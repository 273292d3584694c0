-- ===== src/VimInput/Keys.antt =====
-- What a key does: `handle_normal_mode`, `handle_insert_mode`, `transition` and `handle_event` of
-- crates/vcz-ui/src/widgets/vim_input.rs.
use vincenzo.Prelude.{
  ℕ, ◌+◌, ◌-◌, ◌/◌, Bool, true, false, ◌&&◌, Option, none, some, List, length, get_elem?, ◌==◌,
  if◌then◌else◌,
}
use vincenzo.Outcome.{Outcome, ok, err, panic}
use vincenzo.VimInput.State.{Mode, Key, Input, Transition}
use vincenzo.VimInput.Editing.{VimInput, insert_char, insert_newline, backspace}
use vincenzo.VimInput.Moves.{
  byte_len, at, settle, move_cursor_left, move_cursor_right, move_cursor_up, move_cursor_down,
  scroll_up, scroll_down,
}

abbrev pub then_ : Transition → Outcome VimInput → Outcome (Transition × VimInput)
then_ t (ok e) = ok (t, e)
then_ t (err x) = err x
then_ t panic = panic

-- `Input::default`
abbrev pub no_input : Input
no_input = record { key = Key.null; ctrl = false; alt = false; shift = false }

abbrev is_g : Key → Bool
is_g (Key.char c) = c == 103
is_g _ = false

-- `G`: the column is the number of bytes of the last line
abbrev pub to_last : VimInput → Option (List ℕ) → Outcome VimInput
to_last e none = panic
to_last e (some line) = settle (at (length e.lines - 1) (byte_len line) e)

module _ (width : ℕ → ℕ) (line_width : List ℕ → ℕ) where
  abbrev pub normal_char : ℕ → Input → VimInput → Outcome (Transition × VimInput)
  normal_char c i e =
      let stays = Transition.mode Mode.normal in
      if c == 105
      then ok (Transition.mode Mode.insert, e)
      else if c == 104
      then then_ stays (move_cursor_left width line_width e)
      else if c == 106
      then then_ stays (move_cursor_down width line_width e)
      else if c == 107
      then then_ stays (move_cursor_up width line_width e)
      else if c == 108
      then then_ stays (move_cursor_right width line_width e)
      else if (c == 101) && i.ctrl
      then then_ Transition.nop (scroll_down 1 e)
      else if (c == 121) && i.ctrl
      then then_ Transition.nop (scroll_up 1 e)
      else if (c == 100) && i.ctrl
      then then_ Transition.nop (scroll_down ((e.height + 1) / 2) e)
      else if (c == 117) && i.ctrl
      then then_ Transition.nop (scroll_up ((e.height + 1) / 2) e)
      else if (c == 102) && i.ctrl
      then then_ Transition.nop (scroll_down e.height e)
      else if (c == 98) && i.ctrl
      then then_ Transition.nop (scroll_up e.height e)
      else if (c == 71) && i.shift
      then then_ stays (to_last e (get_elem? e.lines (length e.lines - 1)))
      else if (c == 103) && is_g e.pending.key
      then ok (stays, record (at 0 0 e) { scroll_offset = 0; pending = no_input })
      else if c == 103
      then ok (Transition.pending i, e)
      else ok (Transition.nop, e)

  abbrev pub normal_key : Key → Input → VimInput → Outcome (Transition × VimInput)
  normal_key (Key.char c) i e = normal_char c i e
  normal_key _ i e = ok (Transition.nop, e)

  unfoldable pub handle_normal_mode : Input → VimInput → Outcome (Transition × VimInput)
  unfolding move_cursor_left move_cursor_right move_cursor_up move_cursor_down scroll_up scroll_down
  handle_normal_mode i e = normal_key i.key i e

  abbrev pub insert_key : Key → Bool → VimInput → Outcome (Transition × VimInput)
  insert_key Key.esc shift e = ok (Transition.mode Mode.normal, e)
  insert_key Key.enter true e = then_ Transition.nop (insert_newline width e)
  insert_key Key.backspace shift e = then_ Transition.nop (backspace width e)
  insert_key (Key.char c) shift e = then_ (Transition.mode Mode.insert) (insert_char width c e)
  insert_key _ shift e = ok (Transition.nop, e)

  unfoldable pub handle_insert_mode : Input → VimInput → Outcome (Transition × VimInput)
  unfolding insert_char insert_newline backspace
  handle_insert_mode i e = insert_key i.key i.shift e

  abbrev pub in_mode : Mode → Input → VimInput → Outcome (Transition × VimInput)
  in_mode Mode.normal i e = handle_normal_mode i e
  in_mode Mode.insert i e = handle_insert_mode i e
  in_mode (Mode.operator c) i e = ok (Transition.nop, e)

  abbrev pub by_key : Key → Mode → Input → VimInput → Outcome (Transition × VimInput)
  by_key Key.null mode i e = ok (Transition.nop, e)
  by_key Key.esc Mode.normal i e = ok (Transition.quit, e)
  by_key _ mode i e = in_mode mode i e

  unfoldable pub transition : Input → VimInput → Outcome (Transition × VimInput)
  unfolding handle_normal_mode handle_insert_mode
  transition i e = by_key i.key e.mode i e

  -- whether the input is left, and the editor
  abbrev pub handled : Outcome (Transition × VimInput) → Outcome (Bool × VimInput)
  handled (ok (Transition.mode m, e)) = ok (false, record e { mode = m })
  handled (ok (Transition.pending i, e)) = ok (false, record e { pending = i })
  handled (ok (Transition.quit, e)) = ok (true, e)
  handled (ok (Transition.nop, e)) = ok (false, e)
  handled (err x) = err x
  handled panic = panic

  unfoldable pub handle_event : Input → VimInput → Outcome (Bool × VimInput)
  unfolding transition
  handle_event i e = handled (transition i e)
