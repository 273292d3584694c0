-- ===== src/Prelude/Keys.antt =====
-- Equality of the byte strings that are keys of the program's maps.
use native.Mathlib.Decide.{ℕ_discrete}
use Prim.Native.Nat.{ℕ}
use mathlib.Core.Path.{◌≡◌, refl}
use mathlib.Core.Bool.{Bool, true, false}
use mathlib.Core.Logic.{ite}
use native.Mathlib.Omega.{arith}
use mathlib.Core.List.{List, [], ◌∷◌}

both_dec : {x y : ℕ} {xs ys : List ℕ} → Dec (x ≡ y) → Dec (xs ≡ ys) → Dec (x ∷ xs ≡ y ∷ ys)
both_dec (yes p) (yes q) = yes (cc)
both_dec (yes p) (no n) = no (λ e. n (cc))
both_dec (no n) q = no (λ e. n (cc))

unfoldable pub bytes_discrete : Discrete (List ℕ)
unfolding both_dec ℕ_discrete
bytes_discrete [] [] = yes refl
bytes_discrete [] (y ∷ ys) = no (λ e. cc)
bytes_discrete (x ∷ xs) [] = no (λ e. cc)
bytes_discrete (x ∷ xs) (y ∷ ys) = both_dec (ℕ_discrete x y) (bytes_discrete xs ys)

-- `==` on byte strings
abbrev pub same_bytes : List ℕ → List ℕ → Bool
same_bytes xs ys = ite (bytes_discrete xs ys) true false

pub same_bytes_sym : (xs ys : List ℕ) → same_bytes xs ys ≡ same_bytes ys xs
same_bytes_sym xs ys = ground arith

pub same_bytes_refl : (xs : List ℕ) → same_bytes xs xs ≡ true
same_bytes_refl xs = ground arith

pub same_bytes→eq : (xs ys : List ℕ) → same_bytes xs ys ≡ true → xs ≡ ys
same_bytes→eq xs ys e = ground arith
