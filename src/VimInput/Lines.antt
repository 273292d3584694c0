-- ===== src/VimInput/Lines.antt =====
-- Lemmas on the lines of the editor: a line and what stands around it, and the width of its parts.
use vincenzo.Prelude.{
  ℕ, zero, suc, ◌+◌, ◌<◌, ◌≡◌, refl, sym, ap, ◌∙◌, subst, some, List, [], ◌∷◌, ◌++◌, append_assoc,
  length, get_elem?, take, drop, take-append_self, drop-append_self, ltb, leb, ltb→le, Bool-cases,
  inl, inr, All, All-append, arith,
}
use vincenzo.VimInput.State.{join, column_width, break_lines}
use vincenzo.VimInput.Wrapping.{take-drop, Fits, IsNarrow, break_lines-Fits}
use vincenzo.VimInput.Editing.{VimInput, pull_up, without, break_lines_from}

module _ {A : Type 0} where
  -- what is found at a position stands there
  pub around :
      (n : ℕ) (xs : List A) (x : A)
      → get_elem? xs n ≡ some x
      → (xs ≡ take n xs ++ (x ∷ drop (suc n) xs)) × (length (take n xs) ≡ n)
  around n [] x e = absurd (cc)
  around zero (y ∷ xs) x e = let same : y ≡ x = cc in (ap (λ z. z ∷ xs) same, refl)
  around (suc n) (y ∷ xs) x e = let (p, q) = around n xs x e in (ap (◌∷◌ y) p, ap suc q)

module _ {A : Type 0} where
  pub drop_at :
      (n : ℕ) (xs : List A) (x : A) → get_elem? xs n ≡ some x → drop n xs ≡ x ∷ drop (suc n) xs
  drop_at n [] x e = absurd (cc)
  drop_at zero (y ∷ xs) x e = let same : y ≡ x = cc in ap (λ z. z ∷ xs) same
  drop_at (suc n) (y ∷ xs) x e = drop_at n xs x e

  pub elem_at : (n : ℕ) (xs : List A) → n < length xs → (x : A) × (get_elem? xs n ≡ some x)
  elem_at n [] h = absurd (omega arith)
  elem_at zero (x ∷ xs) h = (x, refl)
  elem_at (suc n) (x ∷ xs) h = elem_at n xs (omega arith)

  pub one_before :
      (n : ℕ) (xs : List A) (x : A)
      → get_elem? xs (suc n) ≡ some x
      → (y : A) × (get_elem? xs n ≡ some y)
  one_before n [] x e = absurd (cc)
  one_before zero (y ∷ xs) x e = (y, refl)
  one_before (suc n) (y ∷ xs) x e = one_before n xs x e

  -- a list without its last element
  abbrev pub all_but_last : List A → List A
  all_but_last [] = []
  all_but_last (x ∷ []) = []
  all_but_last (x ∷ y ∷ ys) = x ∷ all_but_last (y ∷ ys)

  all_but_last-append :
      (xs : List A) (y : A) (ys : List A)
      → all_but_last (xs ++ (y ∷ ys)) ≡ xs ++ all_but_last (y ∷ ys)
  all_but_last-append [] y ys = refl
  all_but_last-append (x ∷ []) y ys = refl
  all_but_last-append (x ∷ z ∷ xs) y ys = ap (◌∷◌ x) (all_but_last-append (z ∷ xs) y ys)

  pub all_but_last-take :
      (n : ℕ) (xs ys : List A) (y : A)
      → get_elem? ys n ≡ some y
      → all_but_last (xs ++ take (suc n) ys) ≡ xs ++ take n ys
  all_but_last-take n xs [] y e = absurd (cc)
  all_but_last-take zero xs (z ∷ ys) y e = all_but_last-append xs z []
  all_but_last-take (suc n) xs (z ∷ ys) y e =
      all_but_last-append xs z (take (suc n) ys)
      ∙ ap (λ s. xs ++ s) (all_but_last-take n (z ∷ []) ys y e)

pub join-append : (xs ys : List (List ℕ)) → join (xs ++ ys) ≡ join xs ++ join ys
unfolding join
join-append [] ys = refl
join-append (x ∷ xs) ys =
    ap (λ s. x ++ s) (join-append xs ys) ∙ sym (append_assoc x (join xs) (join ys))

module _ (width : ℕ → ℕ) where
  pub column_width-append :
      (s t : List ℕ) → column_width width (s ++ t) ≡ column_width width s + column_width width t
  unfolding column_width
  column_width-append [] t = omega arith
  column_width-append (c ∷ s) t = omega (arith, column_width-append s t)

  pub split_widths :
      (n : ℕ) (line : List ℕ)
      → column_width width (take n line) + column_width width (drop n line)
        ≡ column_width width line
  split_widths n line =
      sym (column_width-append (take n line) (drop n line))
      ∙ ap (column_width width) (take-drop n line)

  pub without-Fits :
      (k n : ℕ) (line : List ℕ) (c : ℕ)
      → get_elem? line n ≡ some c
      → Fits width k line
      → Fits width k (without n line)
  unfolding column_width
  without-Fits k n line c e f =
      let (p, _) = around n line c e in
      omega (
        arith,
        f,
        ap (column_width width) p,
        column_width-append (take n line) (c ∷ drop (suc n) line),
        column_width-append (take n line) (drop (suc n) line),
      )

  -- what is pulled up fits, and is the same text
  pub pull_up-Fits :
      (k : ℕ) (line : List ℕ) (lines : List (List ℕ))
      → Fits width k line
      → All (Fits width k) lines
      → All (Fits width k) (pull_up width k line lines)
        × (join (pull_up width k line lines) ≡ line ++ join lines)
  unfolding pull_up join column_width
  pull_up-Fits k line [] f a = ((f, tt), refl)
  pull_up-Fits k line ([] ∷ lines) f a = elim (Bool-cases (leb k (column_width width line))) [
    | inl t ↦ rw t ((f, a), refl)
    | inr c ↦ rw c (pull_up-Fits k line lines f a.1)
  ]
  pull_up-Fits k line ((x ∷ next) ∷ lines) f a =
      elim (Bool-cases (leb k (column_width width line))) [
        | inl t ↦ rw t ((f, a), refl)
        | inr c ↦ elim (Bool-cases (ltb k (column_width width line + width x))) [
          | inl t ↦ rw (c, t) ((f, a), refl)
          | inr u ↦
              let (p, q) = pull_up-Fits k next lines (omega (arith, a.0)) a.1 in
              let fits = ltb→le k (column_width width line + width x) u in
              rw (c, u)
                (
                  (omega (arith, fits, column_width-append line (x ∷ [])), p),
                  ap (λ s. (line ++ (x ∷ [])) ++ s) q
                      ∙ append_assoc line (x ∷ []) (next ++ join lines),
                )
        ]
      ]

  -- the lines above stay, and what is below is broken
  pub break_lines_from-Fits :
      (row : ℕ) (e : VimInput) (above below : List (List ℕ))
      → e.lines ≡ above ++ below
      → length above ≡ row
      → All (Fits width e.chars_per_line) above
      → All (IsNarrow width e.chars_per_line) (join below)
      → All (Fits width e.chars_per_line) (break_lines_from width row e).lines
        × (join (break_lines_from width row e).lines ≡ join above ++ join below)
  unfolding break_lines_from
  break_lines_from-Fits row e above below p n f a =
      let t : take row e.lines ≡ above =
        ap (take row) p
        ∙ subst (λ k. take k (above ++ below) ≡ above) n (take-append_self above below) in
      let d : drop row e.lines ≡ below =
        ap (drop row) p
        ∙ subst (λ k. drop k (above ++ below) ≡ below) n (drop-append_self above below) in
      let fuel = length below + length (join below) in
      let (g, j) =
        break_lines-Fits width fuel e.chars_per_line row below e.cursor a (omega arith) in
      let broken = (break_lines width fuel e.chars_per_line row below e.cursor).0 in
      rw (t, d)
        (
          All-append (Fits width e.chars_per_line) above broken f g,
          join-append above broken ∙ ap (λ s. join above ++ s) j,
        )
