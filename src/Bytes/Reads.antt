-- ===== src/Bytes/Reads.antt =====
-- What the reads of a buffer give where the bytes are there.
use vincenzo.Prelude.{
  ℕ, ◌≤◌, ◌≡◌, refl, List, [], ◌∷◌, ◌++◌, length, length-append, drop, take-append_self,
  drop-append_self, arith,
}
use vincenzo.Outcome.{ok}
use vincenzo.Bytes.BigEndian.{u32_from_be_bytes}
use vincenzo.Bytes.Buffer.{plain, peek_u32}

pub front-append : (xs rest : List ℕ) → plain.copy_to_bytes (length xs) (xs ++ rest) ≡ (ok xs, rest)
front-append xs rest =
    ground (arith, length-append xs rest, take-append_self xs rest, drop-append_self xs rest)

-- `get_u32` on at least four bytes
pub first_u32-reads :
    (buf : List ℕ) → 4 ≤ length buf → (n : ℕ) × (plain.get_u32 buf ≡ (ok n, drop 4 buf))
first_u32-reads (a ∷ b ∷ c ∷ d ∷ buf) h = (u32_from_be_bytes a b c d, refl)
first_u32-reads [] h = absurd (omega arith)
first_u32-reads (a ∷ []) h = absurd (omega arith)
first_u32-reads (a ∷ b ∷ []) h = absurd (omega arith)
first_u32-reads (a ∷ b ∷ c ∷ []) h = absurd (omega arith)

pub peek_u32-append :
    (front back : List ℕ) → 4 ≤ length front → peek_u32 (front ++ back) ≡ peek_u32 front
peek_u32-append (a ∷ b ∷ c ∷ d ∷ front) back h = refl
peek_u32-append [] back h = absurd (omega arith)
peek_u32-append (a ∷ []) back h = absurd (omega arith)
peek_u32-append (a ∷ b ∷ []) back h = absurd (omega arith)
peek_u32-append (a ∷ b ∷ c ∷ []) back h = absurd (omega arith)
