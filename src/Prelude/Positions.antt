-- ===== src/Prelude/Positions.antt =====
-- `Vec` of std by position: `iter().position`, `contains`, `remove`, `swap_remove`.
use Prim.Native.Nat.{ℕ, zero, suc, ◌+◌}
use mathlib.Core.Path.{◌≡◌, refl, ap}
use mathlib.Core.Logic.{ite}
use mathlib.Core.Bool.{Bool, true, false}
use mathlib.Core.List.{List, [], ◌∷◌, ◌++◌}
use mathlib.Core.Option
use mathlib.Core.Option.{Option, none, some}
use native.Mathlib.Omega.{arith}
use vincenzo.Prelude.Lists.{length}

module _ {ℓ} {A : Type ℓ} where
  -- `remove(i)`, which panics out of range
  unfoldable pub remove_at : ℕ → List A → Option (List A)
  remove_at i [] = none
  remove_at zero (x ∷ xs) = some xs
  remove_at (suc i) (x ∷ xs) = Option.map (λ rest. x ∷ rest) (remove_at i xs)

  -- the last element put over the one at the position, and the list without its last element
  abbrev pub last_or : A → List A → A
  last_or d [] = d
  last_or d (x ∷ xs) = last_or x xs

  abbrev pub but_last : List A → List A
  but_last [] = []
  but_last (x ∷ []) = []
  but_last (x ∷ y ∷ xs) = x ∷ but_last (y ∷ xs)

  -- `swap_remove(i)`: the last element takes the place; out of range it panics
  unfoldable pub swap_remove : ℕ → List A → Option (List A)
  swap_remove i [] = none
  swap_remove zero (x ∷ []) = some []
  swap_remove zero (x ∷ y ∷ xs) = some (last_or y xs ∷ but_last (y ∷ xs))
  swap_remove (suc i) (x ∷ xs) = Option.map (λ rest. x ∷ rest) (swap_remove i xs)

  length-but_last : (x : A) (xs : List A) → length (but_last (x ∷ xs)) ≡ length xs
  length-but_last x [] = refl
  length-but_last x (y ∷ xs) = ap suc (length-but_last y xs)

  pub length-swap_remove :
      (i : ℕ) (xs rest : List A) → swap_remove i xs ≡ some rest → length rest + 1 ≡ length xs
  unfolding swap_remove
  length-swap_remove i [] rest h = cc
  length-swap_remove zero (x ∷ []) rest h = ground arith
  length-swap_remove zero (x ∷ y ∷ xs) rest h = ground (arith, length-but_last y xs)
  length-swap_remove (suc i) (x ∷ xs) [] h = ground arith
  length-swap_remove (suc i) (x ∷ xs) (y ∷ rest) h = ground (arith, length-swap_remove i xs rest)

module _ {ℓ} {A : Type ℓ} (dec : Discrete A) where
  unfoldable pub position : A → List A → Option ℕ
  position a [] = none
  position a (x ∷ xs) = ite (dec x a) (some 0) (Option.map suc (position a xs))

  unfoldable pub contains : A → List A → Bool
  contains a [] = false
  contains a (x ∷ xs) = ite (dec x a) true (contains a xs)

  unfoldable pub count : A → List A → ℕ
  count a [] = 0
  count a (x ∷ xs) = ite (dec x a) (suc (count a xs)) (count a xs)

  abbrev pub IsNodup : List A → Type 0
  IsNodup [] = Unit
  IsNodup (x ∷ xs) = (position x xs ≡ none) × IsNodup xs

  pub position-append_one :
      (a b : A) (xs : List A)
      → position b xs ≡ none
      → position a (xs ++ (b ∷ [])) ≡ ite (dec b a) (some (length xs)) (position a xs)
  unfolding position
  position-append_one a b [] h = ground arith
  position-append_one a b (x ∷ xs) h = ground (arith, position-append_one a b xs)

  pub append_one-IsNodup :
      (b : A) (xs : List A) → position b xs ≡ none → IsNodup xs → IsNodup (xs ++ (b ∷ []))
  unfolding position
  append_one-IsNodup b [] h u = (refl, tt)
  append_one-IsNodup b (x ∷ xs) h u =
      ground (arith, append_one-IsNodup b xs, position-append_one x b xs)
