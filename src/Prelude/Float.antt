-- ===== src/Prelude/Float.antt =====
-- `f32` and `f64` of the language. antt has no floating point: what the code computes with them is
-- a parameter, with the laws of the comparison that the theorems use.
use Prim.Native.Nat.{ℕ}
use mathlib.Core.Bool.{Bool}
use mathlib.Core.List.{List}

pub record Float (F : Type 0) : Type 0 where
  -- `lit m d` is the literal m / 10 ^ d
  pub lit : ℕ → ℕ → F
  -- `n as f32`, and `x as u32` or `x as u64`, which round towards 0 and stop at the bounds
  pub from_nat : ℕ → F
  pub to_u32 : F → ℕ
  pub to_u64 : F → ℕ
  pub plus : F → F → F
  pub minus : F → F → F
  pub times : F → F → F
  pub over : F → F → F
  pub abs : F → F
  pub smaller : F → F → F
  pub larger : F → F → F
  pub sum : List F → F
  pub gt : F → F → Bool
