-- ===== src/VimInput/Edits.antt =====
-- What a key of the insert mode does to the text.
use vincenzo.Prelude.{
  ℕ, suc, ◌+◌, ◌-◌, ◌≤◌, ◌≡◌, refl, sym, ap, ◌∙◌, subst, some, List, [], ◌∷◌, ◌++◌, append-nil,
  append_assoc, length, length-append, get_elem?, take, drop, ltb, ◌==◌, ltb→le, Bool-cases, inl,
  inr, All, All-append, if◌then◌else◌, arith,
}
use vincenzo.Outcome.{Outcome, ok}
use vincenzo.VimInput.State.{join, column_width, position_at}
use vincenzo.VimInput.Wrapping.{take-drop, Fits, IsNarrow, All-split}
use vincenzo.VimInput.Editing.{
  VimInput, adjust_scroll_offset, put_line, padded, without, insert_char, insert_newline, pull_up,
  remove_of, backspace, break_lines_from,
}
use vincenzo.VimInput.Lines.{
  around, all_but_last, all_but_last-take, join-append, split_widths, without-Fits, pull_up-Fits,
  break_lines_from-Fits,
}

module _ (width : ℕ → ℕ) where
  -- The cursor stands on a line, no line is wider than it may be, and no char is.
  pub record IsFit (e : VimInput) (line : List ℕ) : Type 0 where
    pub on_line : get_elem? e.lines e.cursor.row ≡ some line
    pub fits : All (Fits width e.chars_per_line) e.lines
    pub narrow : All (IsNarrow width e.chars_per_line) (join e.lines)

  -- the text in front of the cursor, and behind it
  abbrev pub text_before : VimInput → List ℕ → List ℕ
  text_before e line =
      join (take e.cursor.row e.lines) ++ take (position_at width 0 line e.cursor.col) line

  abbrev pub text_behind : VimInput → List ℕ → List ℕ
  text_behind e line =
      drop (position_at width 0 line e.cursor.col) line ++ join (drop (suc e.cursor.row) e.lines)

  pub position_at-length :
      (from : ℕ) (line : List ℕ) (col : ℕ) → position_at width from line col ≤ length line
  unfolding position_at
  position_at-length from [] col = omega arith
  position_at-length from (c ∷ line) col =
      ground (arith, position_at-length (from + width c) line col)

  -- An edit ends, with this text on lines that fit.
  pub record Edited (e : VimInput) (text : List ℕ) (r : Outcome VimInput) : Type 0 where
    pub after : VimInput
    pub returns : r ≡ ok after
    pub has_text : join after.lines ≡ text
    pub still_fits : All (Fits width e.chars_per_line) after.lines

  module _ (e : VimInput) (line : List ℕ) (w : IsFit e line) where
    abbrev k : ℕ
    k = e.chars_per_line

    abbrev row : ℕ
    row = e.cursor.row

    abbrev at : ℕ
    at = position_at width 0 line e.cursor.col

    abbrev above : List (List ℕ)
    above = take row e.lines

    abbrev below : List (List ℕ)
    below = drop (suc row) e.lines

    stands : (e.lines ≡ above ++ (line ∷ below)) × (length above ≡ row)
    stands = around row e.lines line w.on_line

    parts : All (Fits width k) above × (Fits width k line × All (Fits width k) below)
    parts =
        All-split (Fits width k) above (line ∷ below) (subst (All (Fits width k)) stands.0 w.fits)

    text-eq : join e.lines ≡ join above ++ (line ++ join below)
    unfolding join
    text-eq = ap join stands.0 ∙ join-append above (line ∷ below)

    parts-IsNarrow :
        All (IsNarrow width k) (join above)
        × (All (IsNarrow width k) line × All (IsNarrow width k) (join below))
    parts-IsNarrow =
        let (p, q) =
          All-split (IsNarrow width k) (join above) (line ++ join below)
            (subst (All (IsNarrow width k)) text-eq w.narrow) in
        (p, All-split (IsNarrow width k) line (join below) q)

    no_padding : e.lines ++ padded (suc row - length e.lines) ≡ e.lines
    no_padding =
        let none_missing : suc row - length e.lines ≡ 0 =
          omega (arith, ap length stands.0, length-append above (line ∷ below), stands.1) in
        rw none_missing (append-nil e.lines)

    abbrev with_char : ℕ → List ℕ
    with_char c = take at line ++ (c ∷ drop at line)

    abbrev typed : ℕ → VimInput
    typed c = record e {
      lines = put_line row (with_char c) e.lines;
      cursor = record { row = row; col = e.cursor.col + width c };
    }

    abbrev broken : ℕ → VimInput
    broken c =
        if ltb k (column_width width (with_char c))
        then break_lines_from width row (typed c)
        else typed c

    with_char-IsNarrow :
        (c : ℕ) → IsNarrow width k c → All (IsNarrow width k) (with_char c ++ join below)
    with_char-IsNarrow c n =
        let (_, (p, q)) = parts-IsNarrow in
        let (front, back) =
          All-split (IsNarrow width k) (take at line) (drop at line)
            (subst (All (IsNarrow width k)) (sym (take-drop at line)) p) in
        All-append (IsNarrow width k) (with_char c) (join below)
          (All-append (IsNarrow width k) (take at line) (c ∷ drop at line) front (n, back)) q

    broken-Fits :
        (c : ℕ)
        → IsNarrow width k c
        → All (Fits width k) (broken c).lines
          × (join (broken c).lines ≡ join above ++ (with_char c ++ join below))
    unfolding join
    broken-Fits c n = elim (Bool-cases (ltb k (column_width width (with_char c)))) [
      | inl t ↦ rw t (
          break_lines_from-Fits width row (typed c) above (with_char c ∷ below) refl stands.1
            parts.0 (with_char-IsNarrow c n))
      | inr u ↦ rw u (
        All-append (Fits width k) above (with_char c ∷ below) parts.0
            (ltb→le k (column_width width (with_char c)) u, parts.1.1),
        join-append above (with_char c ∷ below),
      )
    ]

    -- In an editor whose cursor is on a line, where no line and no char is wider than a line may be, an
    -- insert of such a char ends: the char stands at the cursor in the text, which is else as it was,
    -- and every line fits.
    pub insert_char-Edited :
        (c : ℕ)
        → IsNarrow width k c
        → Edited e (text_before e line ++ (c ∷ text_behind e line)) (insert_char width c e)
    unfolding insert_char
    insert_char-Edited c n = record {
      after = adjust_scroll_offset (broken c);
      returns = rw (no_padding, w.on_line) refl;
      has_text = (broken-Fits c n).1 ∙ (simp append_assoc);
      still_fits = (broken-Fits c n).0;
    }

    -- a new line changes the lines and not the text
    insert_newline-Edited : Edited e (join e.lines) (insert_newline width e)
    unfolding insert_newline join
    insert_newline-Edited =
        let two = take at line ∷ drop at line ∷ below in
        let widths = split_widths width at line in
        record {
          after =
              adjust_scroll_offset
                (record e { lines = above ++ two; cursor = record { row = row + 1; col = 0 } });
          returns = rw w.on_line refl;
          has_text =
              join-append above two
              ∙ ap (λ s. join above ++ s)
                  (sym (append_assoc (take at line) (drop at line) (join below))
                    ∙ ap (λ s. s ++ join below) (take-drop at line))
              ∙ sym text-eq;
          still_fits =
              All-append (Fits width k) above two parts.0
                (omega (arith, widths, parts.1.0), (omega (arith, widths, parts.1.0), parts.1.1));
        }

    removed_text :
        (m c : ℕ)
        → get_elem? line m ≡ some c
        → at ≡ suc m
        → join above ++ (without m line ++ join below)
          ≡ all_but_last (text_before e line) ++ text_behind e line
    removed_text m c found at_m =
        rw (at_m, all_but_last-take m (join above) line c found) (simp append_assoc)

    -- the char in front of the cursor goes
    pub removed-Edited :
        (m c : ℕ)
        → get_elem? line m ≡ some c
        → at ≡ suc m
        → Edited e
            (all_but_last (text_before e line) ++ text_behind e line)
            (remove_of width e (some line))
    unfolding backspace join
    removed-Edited m c found at_m =
        let (p, q) =
          pull_up-Fits width k (without m line) below
            (without-Fits width k m line c found parts.1.0) parts.1.1 in
        let at1 : at - 1 ≡ m = omega (arith, at_m) in
        let pulled = pull_up width k (without m line) below in
        record {
          after = adjust_scroll_offset (record e {
            lines = above ++ pulled;
            cursor = record { row = row; col = e.cursor.col - (if at == 0 then 0 else width c) };
          });
          returns = rw (at1, found, at1) refl;
          has_text =
              join-append above pulled ∙ ap (λ s. join above ++ s) q ∙ removed_text m c found at_m;
          still_fits = All-append (Fits width k) above pulled parts.0 p;
        }
