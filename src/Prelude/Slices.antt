-- ===== src/Prelude/Slices.antt =====
-- Slices of std and memory maps: `&xs[from..to]` and `copy_from_slice` into a range.
use Prim.Native.Nat.{ℕ, zero, suc, ◌+◌, ◌-◌, ◌≤◌}
use mathlib.Core.Path.{◌≡◌, refl, sym, ap, ap₂}
use mathlib.Core.List.{List, [], ◌∷◌, ◌++◌}
use native.Mathlib.Omega.{arith}
use native.Mathlib.Numerals.{unary_clauses}
use vincenzo.Prelude.Lists.{length, take, drop}

module _ {ℓ} {A : Type ℓ} where
  -- `bs` put over what stands from the position on; what would lie behind the end is dropped
  abbrev pub overwrite : ℕ → List A → List A → List A
  overwrite n bs [] = []
  overwrite (suc n) bs (x ∷ xs) = x ∷ overwrite n bs xs
  overwrite zero [] (x ∷ xs) = x ∷ xs
  overwrite zero (b ∷ bs) (x ∷ xs) = b ∷ overwrite zero bs xs

  pub length-overwrite : (n : ℕ) (bs xs : List A) → length (overwrite n bs xs) ≡ length xs
  length-overwrite n bs [] = refl
  length-overwrite (suc n) bs (x ∷ xs) = ap suc (length-overwrite n bs xs)
  length-overwrite zero [] (x ∷ xs) = refl
  length-overwrite zero (b ∷ bs) (x ∷ xs) = ap suc (length-overwrite zero bs xs)

  pub overwrite-nil : (n : ℕ) (xs : List A) → overwrite n [] xs ≡ xs
  overwrite-nil n [] = refl
  overwrite-nil (suc n) (x ∷ xs) = ap (◌∷◌ x) (overwrite-nil n xs)
  overwrite-nil zero (x ∷ xs) = refl

  pub overwrite_behind : (n : ℕ) (bs xs : List A) → length xs ≤ n → overwrite n bs xs ≡ xs
  overwrite_behind n bs [] h = refl
  overwrite_behind (suc n) bs (x ∷ xs) h = ap (◌∷◌ x) (overwrite_behind n bs xs (omega arith))
  overwrite_behind zero bs (x ∷ xs) h = absurd (omega arith)

  pub drop-nil : (n : ℕ) → ◌≡◌ {A = List A} (drop n []) []
  drop-nil zero = refl
  drop-nil (suc n) = refl

  pub take-nil : (n : ℕ) → ◌≡◌ {A = List A} (take n []) []
  take-nil zero = refl
  take-nil (suc n) = refl

  pub overwrite-append :
      (n : ℕ) (bs xs ys : List A)
      → overwrite n bs (xs ++ ys)
        ≡ overwrite n bs xs ++ overwrite (n - length xs) (drop (length xs - n) bs) ys
  overwrite-append n bs [] ys =
      let e : n - 0 ≡ n = omega arith in let z : 0 - n ≡ 0 = omega arith in rw (e, z)
  overwrite-append (suc n) bs (x ∷ xs) ys =
      simp unary_clauses (ap (◌∷◌ x) (overwrite-append n bs xs ys))
  overwrite-append zero [] (x ∷ xs) ys = simp (unary_clauses, overwrite-nil)
  overwrite-append zero (b ∷ bs) (x ∷ xs) ys =
      let e : 0 - suc (length xs) ≡ 0 - length xs = omega arith in
      let f : suc (length xs) - 0 ≡ suc (length xs - 0) = omega arith in
      rw (e, f) (ap (◌∷◌ b) (overwrite-append zero bs xs ys))

  -- what is dropped behind the end may be left out before
  pub overwrite-take :
      (n k : ℕ) (bs xs : List A)
      → length xs ≤ n + k
      → overwrite n (take k bs) xs ≡ overwrite n bs xs
  overwrite-take n k bs [] h = refl
  overwrite-take (suc n) k bs (x ∷ xs) h = ap (◌∷◌ x) (overwrite-take n k bs xs (omega arith))
  overwrite-take zero zero bs (x ∷ xs) h = absurd (omega arith)
  overwrite-take zero (suc k) [] (x ∷ xs) h = refl
  overwrite-take zero (suc k) (b ∷ bs) (x ∷ xs) h =
      ap (◌∷◌ b) (overwrite-take zero k bs xs (omega arith))

  pub take_all : (n : ℕ) (xs : List A) → length xs ≤ n → take n xs ≡ xs
  take_all zero [] h = refl
  take_all zero (x ∷ xs) h = absurd (omega arith)
  take_all (suc n) [] h = refl
  take_all (suc n) (x ∷ xs) h = ap (◌∷◌ x) (take_all n xs (omega arith))

  pub drop_all : (n : ℕ) (xs : List A) → length xs ≤ n → drop n xs ≡ []
  drop_all zero [] h = refl
  drop_all zero (x ∷ xs) h = absurd (omega arith)
  drop_all (suc n) [] h = refl
  drop_all (suc n) (x ∷ xs) h = drop_all n xs (omega arith)

  pub drop-drop : (n m : ℕ) (xs : List A) → drop n (drop m xs) ≡ drop (m + n) xs
  drop-drop n zero xs = let e : 0 + n ≡ n = omega arith in rw e
  drop-drop n (suc m) [] = simp (drop-nil)
  drop-drop n (suc m) (x ∷ xs) =
      let e : suc m + n ≡ suc (m + n) = omega arith in rw e (drop-drop n m xs)

  pub drop-append :
      (n : ℕ) (xs ys : List A) → drop n (xs ++ ys) ≡ drop n xs ++ drop (n - length xs) ys
  drop-append zero xs ys = let e : 0 - length xs ≡ 0 = omega arith in rw e
  drop-append (suc n) [] ys = simp unary_clauses
  drop-append (suc n) (x ∷ xs) ys = simp unary_clauses (drop-append n xs ys)

  pub take-append :
      (n : ℕ) (xs ys : List A) → take n (xs ++ ys) ≡ take n xs ++ take (n - length xs) ys
  take-append zero xs ys = let e : 0 - length xs ≡ 0 = omega arith in rw e
  take-append (suc n) [] ys = simp unary_clauses
  take-append (suc n) (x ∷ xs) ys = simp unary_clauses (ap (◌∷◌ x) (take-append n xs ys))

  -- a written range is read back
  pub take-drop-overwrite :
      (n : ℕ) (bs xs : List A)
      → n + length bs ≤ length xs
      → take (length bs) (drop n (overwrite n bs xs)) ≡ bs
  take-drop-overwrite n [] xs h = refl
  take-drop-overwrite zero (b ∷ bs) [] h = absurd (omega arith)
  take-drop-overwrite (suc n) (b ∷ bs) [] h = absurd (omega arith)
  take-drop-overwrite zero (b ∷ bs) (x ∷ xs) h =
      ap (◌∷◌ b) (take-drop-overwrite zero bs xs (omega arith))
  take-drop-overwrite (suc n) (b ∷ bs) (x ∷ xs) h = take-drop-overwrite n (b ∷ bs) xs (omega arith)

  -- what is read before or behind a written range is as before
  pub take-drop-overwrite_before :
      (n k m : ℕ) (bs xs : List A)
      → n + k ≤ m
      → take k (drop n (overwrite m bs xs)) ≡ take k (drop n xs)
  take-drop-overwrite_before n k m bs [] h = refl
  take-drop-overwrite_before zero zero m bs (x ∷ xs) h = refl
  take-drop-overwrite_before zero (suc k) zero bs (x ∷ xs) h = absurd (omega arith)
  take-drop-overwrite_before zero (suc k) (suc m) bs (x ∷ xs) h =
      ap (◌∷◌ x) (take-drop-overwrite_before zero k m bs xs (omega arith))
  take-drop-overwrite_before (suc n) k zero bs (x ∷ xs) h = absurd (omega arith)
  take-drop-overwrite_before (suc n) k (suc m) bs (x ∷ xs) h =
      take-drop-overwrite_before n k m bs xs (omega arith)

  pub drop-overwrite_behind :
      (n m : ℕ) (bs xs : List A) → m + length bs ≤ n → drop n (overwrite m bs xs) ≡ drop n xs
  drop-overwrite_behind n m bs [] h = refl
  drop-overwrite_behind zero (suc m) bs (x ∷ xs) h = absurd (omega arith)
  drop-overwrite_behind (suc n) (suc m) bs (x ∷ xs) h =
      drop-overwrite_behind n m bs xs (omega arith)
  drop-overwrite_behind n zero [] (x ∷ xs) h = refl
  drop-overwrite_behind zero zero (b ∷ bs) (x ∷ xs) h = absurd (omega arith)
  drop-overwrite_behind (suc n) zero (b ∷ bs) (x ∷ xs) h =
      drop-overwrite_behind n zero bs xs (omega arith)

  -- what is cut behind `xs` is cut within what follows it
  pub split_behind :
      (xs ys front back : List A)
      → xs ++ ys ≡ front ++ back
      → length xs ≤ length front
      → (mid : List A) × (front ≡ xs ++ mid) × (ys ≡ mid ++ back)
  split_behind [] ys front back e h = (front, refl, e)
  split_behind (x ∷ xs) ys [] back e h = absurd (omega arith)
  split_behind (x ∷ xs) ys (f ∷ front) back e h =
      let (mid, p, q) = split_behind xs ys front back (cc) (omega arith) in
      let same : x ≡ f = cc in (mid, ap₂ (◌∷◌) (sym same) p, q)
