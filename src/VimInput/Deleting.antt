-- ===== src/VimInput/Deleting.antt =====
-- What a backspace does to the text.
use vincenzo.Prelude.{
  ℕ, zero, suc, ◌≡◌, refl, sym, ap, ◌∙◌, subst, Option, some, List, ◌∷◌, ◌++◌, append_assoc,
  get_elem?, take, drop, ◌==◌, All, if◌then◌else◌, arith,
}
use vincenzo.VimInput.State.{join, column_width, position_at}
use vincenzo.VimInput.Wrapping.{Fits, IsNarrow, All-split}
use vincenzo.VimInput.Edits.{
  IsFit, Edited, text_before, text_behind, removed-Edited, position_at-length,
}
use vincenzo.VimInput.Editing.{
  VimInput, adjust_scroll_offset, remove_of, backspace_at, backspace, break_lines_from,
}
use vincenzo.VimInput.Lines.{
  around, drop_at, one_before, elem_at, all_but_last, join-append, break_lines_from-Fits,
}

if_zero : {A : Type 0} (x y : A) (n : ℕ) → n ≡ 0 → (if n == 0 then x else y) ≡ x
if_zero x y n e = rw e refl

if_suc : {A : Type 0} (x y : A) (n m : ℕ) → n ≡ suc m → (if n == 0 then x else y) ≡ y
if_suc x y n m e = ground (arith, e)

some_pred : (n : ℕ) → (n ≡ 0 → ⊥) → (m : ℕ) × (n ≡ suc m)
some_pred zero h = absurd (h refl)
some_pred (suc m) h = (m, refl)

module _ (width : ℕ → ℕ) where
  -- at the start of a line that is not the first
  joined-Edited :
      (e : VimInput) (r : ℕ) (line : List ℕ)
      → get_elem? e.lines (suc r) ≡ some line
      → All (Fits width e.chars_per_line) e.lines
      → All (IsNarrow width e.chars_per_line) (join e.lines)
      → Edited width e (join e.lines) (backspace_at width (suc r) zero e)
  unfolding backspace join
  joined-Edited e r line found f n =
      let (prev, before) = one_before r e.lines line found in
      let (p, l) = around r e.lines prev before in
      let k = e.chars_per_line in
      let above = take r e.lines in
      let below = drop (suc (suc r)) e.lines in
      let whole : e.lines ≡ above ++ (prev ∷ line ∷ below) =
        p ∙ ap (λ z. above ++ (prev ∷ z)) (drop_at (suc r) e.lines line found) in
      let text = ap join whole ∙ join-append above (prev ∷ line ∷ below) in
      let (fits, _) =
        All-split (Fits width k) above (prev ∷ line ∷ below) (subst (All (Fits width k)) whole f) in
      let (_, narrow) =
        All-split (IsNarrow width k) (join above) (prev ++ (line ++ join below))
          (subst (All (IsNarrow width k)) text n) in
      let e' = record e {
        lines = above ++ ((prev ++ line) ∷ below);
        cursor = record { row = r; col = column_width width prev };
      } in
      let assoc = append_assoc prev line (join below) in
      let (g, j) =
        break_lines_from-Fits width r e' above ((prev ++ line) ∷ below) refl l fits
          (subst (All (IsNarrow width k)) (sym assoc) narrow) in
      record {
        after = adjust_scroll_offset (break_lines_from width r e');
        returns = rw (before, found) refl;
        has_text = j ∙ ap (λ s. join above ++ s) assoc ∙ sym text;
        still_fits = g;
      }

  unmoved-Edited :
      (e : VimInput) (line : List ℕ)
      → IsFit width e line
      → Edited width e (join e.lines) (backspace_at width zero zero e)
  unfolding backspace
  unmoved-Edited e line w = record {
    after = adjust_scroll_offset e;
    returns = refl;
    has_text = refl;
    still_fits = w.fits;
  }

  -- what a backspace leaves of the text
  abbrev pub text_deleted : VimInput → List ℕ → List ℕ
  text_deleted e line =
      if e.cursor.col == 0
      then join e.lines
      else all_but_last (text_before width e line) ++ text_behind width e line

  cut_in :
      (e : VimInput) (line : List ℕ)
      → IsFit width e line
      → {found : Option (List ℕ)} → found ≡ some line
      → (col : ℕ) → e.cursor.col ≡ suc col
      → (position_at width 0 line e.cursor.col ≡ 0 → e.cursor.col ≡ 0)
      → Edited width e (text_deleted e line) (remove_of width e found)
  cut_in e line w {found} f col q starts =
      let (m, at_m) =
        some_pred (position_at width 0 line e.cursor.col) (λ z. omega (arith, starts z, q)) in
      let (c, there) =
        elem_at m line (omega (arith, at_m, position_at-length width 0 line e.cursor.col)) in
      subst (λ t. Edited width e t (remove_of width e found)) (sym (if_suc _ _ e.cursor.col col q))
        (subst
          (λ o.
            Edited width e (all_but_last (text_before width e line) ++ text_behind width e line)
              (remove_of width e o))
          (sym f) (removed-Edited width e line w m c there at_m))

  deleted-Edited :
      (row col : ℕ) (e : VimInput) (line : List ℕ)
      → IsFit width e line
      → e.cursor.row ≡ row
      → e.cursor.col ≡ col
      → (position_at width 0 line e.cursor.col ≡ 0 → e.cursor.col ≡ 0)
      → Edited width e (text_deleted e line) (backspace_at width row col e)
  deleted-Edited zero zero e line w p q starts =
      subst (λ t. Edited width e t (backspace_at width zero zero e))
        (sym (if_zero _ _ e.cursor.col q)) (unmoved-Edited e line w)
  deleted-Edited (suc r) zero e line w p q starts =
      let found = ap (get_elem? e.lines) (sym p) ∙ w.on_line in
      subst (λ t. Edited width e t (backspace_at width (suc r) zero e))
        (sym (if_zero _ _ e.cursor.col q)) (joined-Edited e r line found w.fits w.narrow)
  deleted-Edited zero (suc col) e line w p q starts =
      cut_in e line w (ap (get_elem? e.lines) (sym p) ∙ w.on_line) col q starts
  deleted-Edited (suc r) (suc col) e line w p q starts =
      cut_in e line w (ap (get_elem? e.lines) (sym p) ∙ w.on_line) col q starts

  -- In an editor whose cursor is on a line, and not within the first char, where no line and no char is
  -- wider than a line may be, a backspace ends: the char in front of the cursor is gone from the text
  -- and nothing else, at the start of a line the text is what it was, and every line fits.
  pub backspace-Edited :
      (e : VimInput) (line : List ℕ)
      → IsFit width e line
      → (position_at width 0 line e.cursor.col ≡ 0 → e.cursor.col ≡ 0)
      → Edited width e (text_deleted e line) (backspace width e)
  unfolding backspace
  backspace-Edited e line w starts =
      deleted-Edited e.cursor.row e.cursor.col e line w refl refl starts
