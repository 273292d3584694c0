-- ===== src/VimInput/Tests.antt =====
-- Runs of the editor, and its theorems at concrete inputs.
use vincenzo.Prelude.{ℕ, ◌≡◌, refl, [], ◌∷◌, ltb, All, if◌then◌else◌, arith}
use vincenzo.Outcome.{ok}
use vincenzo.VimInput.State.{Mode, Key, join, column_width, position_at, break_lines}
use vincenzo.VimInput.Wrapping.{Fits, break_lines-Fits}
use vincenzo.VimInput.Editing.{VimInput, insert_char, backspace}
use vincenzo.VimInput.Edits.{IsFit, Edited, insert_char-Edited}
use vincenzo.VimInput.Deleting.{backspace-Edited}
use vincenzo.VimInput.Keys.{no_input, handle_normal_mode}
use vincenzo.VimInput.Stays.{StaysWith, handle_normal_mode-Stays}

-- the chars from 4352 on are two columns wide
abbrev widths : ℕ → ℕ
widths c = if ltb c 4352 then 1 else 2

abbrev an_editor : VimInput
an_editor = record {
  chars_per_line = 3;
  lines = (1 ∷ 2 ∷ 3 ∷ []) ∷ (4 ∷ []) ∷ [];
  cursor = record { row = 0; col = 2 };
  height = 2;
  scroll_offset = 0;
  mode = Mode.insert;
  pending = no_input;
}

an_editor-IsFit : IsFit widths an_editor (1 ∷ 2 ∷ 3 ∷ [])
unfolding column_width join
an_editor-IsFit = record { on_line = refl; fits = omega arith; narrow = omega arith }

-- a char is typed in a full line, which is broken
typed_nine :
    insert_char widths 9 an_editor
    ≡ ok (record an_editor {
      lines = (1 ∷ 2 ∷ 9 ∷ []) ∷ (3 ∷ 4 ∷ []) ∷ [];
      cursor = record { row = 0; col = 3 };
    })
unfolding insert_char join
typed_nine = refl

-- and removed, at which a char of the next line moves up
deleted_two :
    backspace widths an_editor
    ≡ ok (record an_editor {
      lines = (1 ∷ 3 ∷ 4 ∷ []) ∷ [] ∷ [];
      cursor = record { row = 0; col = 1 };
    })
unfolding backspace
deleted_two = refl

-- a wide char that does not fit with the others
break_lines-Fits_example :
    All (Fits widths 3) ((1 ∷ 2 ∷ []) ∷ (5000 ∷ 4 ∷ []) ∷ [])
    × (join ((1 ∷ 2 ∷ []) ∷ (5000 ∷ 4 ∷ []) ∷ []) ≡ join ((1 ∷ 2 ∷ 5000 ∷ []) ∷ (4 ∷ []) ∷ []))
unfolding break_lines column_width join
break_lines-Fits_example =
    break_lines-Fits widths 6 3 0 ((1 ∷ 2 ∷ 5000 ∷ []) ∷ (4 ∷ []) ∷ [])
      (record { row = 0; col = 2 }) (omega arith) (omega arith)

insert_char-Edited_example :
    Edited widths an_editor (1 ∷ 2 ∷ 9 ∷ 3 ∷ 4 ∷ []) (insert_char widths 9 an_editor)
unfolding position_at join
insert_char-Edited_example =
    insert_char-Edited widths an_editor (1 ∷ 2 ∷ 3 ∷ []) an_editor-IsFit 9 (omega arith)

backspace-Edited_example : Edited widths an_editor (1 ∷ 3 ∷ 4 ∷ []) (backspace widths an_editor)
unfolding position_at join
backspace-Edited_example =
    backspace-Edited widths an_editor (1 ∷ 2 ∷ 3 ∷ []) an_editor-IsFit
      (λ e. absurd (omega (arith, e)))

-- `l` at the end of the first line
handle_normal_mode-Stays_example : StaysWith an_editor.lines (
    handle_normal_mode widths
      (column_width widths)
      (record no_input { key = Key.char 108 })
      (record an_editor { cursor = record { row = 0; col = 3 } }))
handle_normal_mode-Stays_example =
    handle_normal_mode-Stays widths (column_width widths) (record no_input { key = Key.char 108 })
      (record an_editor { cursor = record { row = 0; col = 3 } }) (omega arith)
