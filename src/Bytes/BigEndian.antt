-- ===== src/Bytes/BigEndian.antt =====
-- `to_be_bytes` and `from_be_bytes` of u16, u32 and u64.
use vincenzo.Prelude.{ℕ, ◌+◌, ◌*◌, ◌/◌, ◌%◌, ◌^◌, ◌<◌, ◌≡◌, List, [], ◌∷◌, All, arith}

abbrev pub IsByte : ℕ → Type 0
IsByte b = b < 256

abbrev pub IsU16 : ℕ → Type 0
IsU16 v = v < 2 ^ 16

abbrev pub IsU32 : ℕ → Type 0
IsU32 v = v < 2 ^ 32

abbrev pub u16_to_be_bytes : ℕ → List ℕ
u16_to_be_bytes v = (v / 256 % 256) ∷ (v % 256) ∷ []

abbrev pub u32_to_be_bytes : ℕ → List ℕ
u32_to_be_bytes v = (v / 2 ^ 24 % 256) ∷ (v / 2 ^ 16 % 256) ∷ (v / 256 % 256) ∷ (v % 256) ∷ []

abbrev pub u16_from_be_bytes : ℕ → ℕ → ℕ
u16_from_be_bytes a b = a * 256 + b

abbrev pub u32_from_be_bytes : ℕ → ℕ → ℕ → ℕ → ℕ
u32_from_be_bytes a b c d = a * 2 ^ 24 + b * 2 ^ 16 + c * 256 + d

pub u16_from-to : (v : ℕ) → IsU16 v → u16_from_be_bytes (v / 256 % 256) (v % 256) ≡ v
u16_from-to v h = omega arith

pub u32_from-to :
    (v : ℕ)
    → IsU32 v
    → u32_from_be_bytes (v / 2 ^ 24 % 256) (v / 2 ^ 16 % 256) (v / 256 % 256) (v % 256) ≡ v
u32_from-to v h = omega arith

pub u16_to_be_bytes-IsByte : (v : ℕ) → All IsByte (u16_to_be_bytes v)
u16_to_be_bytes-IsByte v = omega arith

pub u32_to_be_bytes-IsByte : (v : ℕ) → All IsByte (u32_to_be_bytes v)
u32_to_be_bytes-IsByte v = omega arith
