-- ===== src/VimInput/Wrapping.antt =====
-- Lines that are broken: they fit, and no char is lost.
use vincenzo.Prelude.{
  ℕ, zero, suc, ◌+◌, ◌≤◌, ◌<◌, ◌≡◌, refl, sym, ap, ◌∙◌, false, List, [], ◌∷◌, ◌++◌, append_assoc,
  length, length-append, length-drop, take, drop, ltb, leb, leb→le, leb→lt, ltb→le, le→ltb,
  All-append, Bool-cases, inl, inr, All, arith,
}
use vincenzo.VimInput.State.{join, column_width, fitting, push_down, moved, break_lines, Cursor}

pub take-drop : {A : Type 0} (n : ℕ) (xs : List A) → take n xs ++ drop n xs ≡ xs
take-drop zero xs = refl
take-drop (suc n) [] = refl
take-drop (suc n) (x ∷ xs) = ap (◌∷◌ x) (take-drop n xs)

module _ {A : Type 0} (P : A → Type 0) where
  pub All-split : (xs ys : List A) → All P (xs ++ ys) → All P xs × All P ys
  All-split [] ys a = (tt, a)
  All-split (x ∷ xs) ys a = let (p, q) = All-split xs ys a.1 in ((a.0, p), q)

  pub All-drop : (n : ℕ) (xs : List A) → All P xs → All P (drop n xs)
  All-drop zero xs a = a
  All-drop (suc n) [] a = tt
  All-drop (suc n) (x ∷ xs) a = All-drop n xs a.1

module _ (width : ℕ → ℕ) where
  abbrev pub Fits : ℕ → List ℕ → Type 0
  Fits chars_per_line line = column_width width line ≤ chars_per_line

  abbrev pub IsNarrow : ℕ → ℕ → Type 0
  IsNarrow chars_per_line c = width c ≤ chars_per_line

  -- what is kept of a line fits
  fitting-Fits :
      (k col : ℕ) (line : List ℕ)
      → col ≤ k
      → col + column_width width (take (fitting width k col line).0 line) ≤ k
  unfolding fitting column_width
  fitting-Fits k col [] h = omega (arith, h)
  fitting-Fits k col (c ∷ line) h = elim (Bool-cases (ltb k (col + width c))) [
    | inl t ↦ rw t (omega (arith, h))
    | inr t ↦ rw t (omega (arith, fitting-Fits k (col + width c) line (ltb→le k (col + width c) t)))
  ]

  -- and of a line that does not fit, whose chars do, something is kept
  fitting-some :
      (k : ℕ) (line : List ℕ)
      → k < column_width width line
      → All (IsNarrow k) line
      → length (drop (fitting width k 0 line).0 line) < length line
  unfolding fitting column_width
  fitting-some k [] h n = absurd (omega (arith, h))
  fitting-some k (c ∷ line) h n =
      let some_fit : ltb k (0 + width c) ≡ false = le→ltb k (0 + width c) (omega (arith, n.0)) in
      rw some_fit (omega (arith, length-drop (fitting width k (0 + width c) line).0 line))

  join-push_down : (s : List ℕ) (lines : List (List ℕ)) → join (push_down s lines) ≡ s ++ join lines
  unfolding join
  join-push_down s [] = refl
  join-push_down s (next ∷ lines) = append_assoc s next (join lines)

  -- a line that does not fit is split: what stands below it then, and its size
  below-IsNarrow :
      (k n : ℕ) (line : List ℕ) (lines : List (List ℕ))
      → All (IsNarrow k) (line ++ join lines)
      → All (IsNarrow k) (join (push_down (drop n line) lines))
  below-IsNarrow k n line lines a =
      let (p, q) = All-split (IsNarrow k) line (join lines) a in
      rw (join-push_down (drop n line) lines)
        (All-append (IsNarrow k) (drop n line) (join lines) (All-drop (IsNarrow k) n line p) q)

  below_less :
      (fuel n : ℕ) (line : List ℕ) (lines : List (List ℕ))
      → length (drop n line) < length line
      → suc (length lines) + length (line ++ join lines) ≤ suc fuel
      → length (push_down (drop n line) lines) + length (join (push_down (drop n line) lines))
        ≤ fuel
  unfolding join
  below_less fuel n line [] h m =
      omega (arith, length-append line [], length-append (drop n line) [])
  below_less fuel n line (next ∷ lines) h m = omega (
    arith,
    length-append line (next ++ join lines),
    length-append next (join lines),
    length-append (drop n line ++ next) (join lines),
    length-append (drop n line) next,
  )

  -- With fuel for its lines and chars, the loop ends: no line is wider than it may be, and the text is
  -- what it was, if no char is wider than a line.
  pub break_lines-Fits :
      (fuel k row : ℕ) (lines : List (List ℕ)) (cursor : Cursor)
      → All (IsNarrow k) (join lines)
      → length lines + length (join lines) ≤ fuel
      → All (Fits k) (break_lines width fuel k row lines cursor).0
        × (join (break_lines width fuel k row lines cursor).0 ≡ join lines)
  unfolding break_lines join
  break_lines-Fits fuel k row [] cursor a m = (tt, refl)
  break_lines-Fits zero k row (line ∷ lines) cursor a m = absurd (omega arith)
  break_lines-Fits (suc fuel) k row (line ∷ lines) cursor a m =
      elim (Bool-cases (leb (column_width width line) k)) [
        | inl t ↦
            let (_, q) = All-split (IsNarrow k) line (join lines) a in
            let rest =
              break_lines-Fits fuel k (row + 1) lines cursor q
                (omega (arith, length-append line (join lines))) in
            rw t ((leb→le (column_width width line) k t, rest.0), ap (λ s. line ++ s) rest.1)
        | inr c ↦
            let n = (fitting width k 0 line).0 in
            let (p, q) = All-split (IsNarrow k) line (join lines) a in
            let less = fitting-some k line (leb→lt (column_width width line) k c) p in
            let kept = fitting-Fits k 0 line (omega arith) in
            let below = push_down (drop n line) lines in
            let cursor' = moved row (fitting width k 0 line).1 cursor in
            let rest =
              break_lines-Fits fuel k (row + 1) below cursor' (below-IsNarrow k n line lines a)
                (below_less fuel n line lines less m) in
            rw c (
              (omega (arith, kept), rest.0),
              ap (λ s. take n line ++ s) (rest.1 ∙ join-push_down (drop n line) lines)
                  ∙ sym (append_assoc (take n line) (drop n line) (join lines))
                  ∙ ap (λ s. s ++ join lines) (take-drop n line),
            )
      ]
