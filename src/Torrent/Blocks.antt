-- ===== src/Torrent/Blocks.antt =====
-- The blocks of a piece cover it.
use vincenzo.Prelude.{
  ℕ, zero, suc, ◌+◌, ◌-◌, ◌*◌, ◌≤◌, ◌<◌, ◌≡◌, refl, sym, ap, subst, Bool, true, false, some, List,
  [], ◌∷◌, length, All, ◌==◌, min, Bool-cases, inl, inr, le→ltb, arith,
}
use vincenzo.Outcome.{Outcome, ok}
use vincenzo.Wire.Message.{block_len, BlockInfo}
use vincenzo.Torrent.Bits.{Bits, IsBits, eq-plain, ones}
use vincenzo.Torrent.Info.{
  Info, div_ceil, pieces, piece_len, block_loop, get_block_infos_of_piece, last_bit,
  downloaded_bytes,
}

-- Blocks of one piece, none empty or above the block length, each from where the last one ended.
abbrev pub Covers : ℕ → ℕ → ℕ → List BlockInfo → Type 0
Covers piece from to [] = from ≡ to
Covers piece from to (b ∷ bs) =
    (b.index ≡ piece)
    × (b.begin ≡ from)
    × (0 < b.len)
    × (b.len ≤ block_len)
    × Covers piece (from + b.len) to bs

abbrev pub CoversOk : ℕ → ℕ → Outcome (List BlockInfo) → Type 0
CoversOk piece size (ok bs) = Covers piece 0 size bs
CoversOk piece size _ = ⊥

block_loop-Covers :
    (piece size n k i from : ℕ)
    → from ≡ i * block_len
    → k + i ≡ n
    → n * block_len < size
    → size ≤ n * block_len + block_len
    → Covers piece from size (block_loop piece size n (suc k) i)
unfolding block_loop
block_loop-Covers piece size n zero i from s e l u = elim (Bool-cases (i == n)) [
  | inl t ↦ rw t (refl, sym s, omega arith, omega arith, omega arith)
  | inr f ↦ absurd (ground arith)
]
block_loop-Covers piece size n (suc k) i from s e l u = elim (Bool-cases (i == n)) [
  | inl t ↦ absurd (ground arith)
  | inr f ↦ rw f (
    refl,
    sym s,
    omega arith,
    omega arith,
    block_loop-Covers piece size n k (i + 1) (from + block_len) (omega arith) (omega arith) l u,
  )
]

blocks-Covers :
    (piece size : ℕ)
    → Covers piece 0 size
        (block_loop piece size (div_ceil size block_len - 1) (div_ceil size block_len) 0)
unfolding block_loop
blocks-Covers piece zero = refl
blocks-Covers piece (suc size) =
    let n = div_ceil (suc size) block_len - 1 in
    let e : suc n ≡ div_ceil (suc size) block_len = omega arith in
    subst (λ k. Covers piece 0 (suc size) (block_loop piece (suc size) n k 0)) e
      (block_loop-Covers piece (suc size) n n 0 0 (omega arith) (omega arith) (omega arith)
        (omega arith))

-- The blocks of a piece that starts within the torrent cover it without a gap or an overlap, up to
-- the end of the piece or, for the last one, of the torrent.
pub get_block_infos-Covers :
    (total_size piece_length piece_index : ℕ)
    → piece_index * piece_length ≤ total_size
    → CoversOk piece_index
        (min (piece_index * piece_length + piece_length) total_size - piece_index * piece_length)
        (get_block_infos_of_piece total_size piece_length piece_index)
unfolding get_block_infos_of_piece
get_block_infos-Covers total_size piece_length piece_index h =
    let from = piece_index * piece_length in
    rw (le→ltb (min (from + piece_length) total_size) from (omega arith))
      (blocks-Covers piece_index (min (from + piece_length) total_size - from))

ones-All : (bits : List Bool) → All (λ b. b ≡ true) bits → ones bits ≡ length bits
ones-All [] a = refl
ones-All (true ∷ bs) a = ground (arith, ones-All bs a.1)
ones-All (false ∷ bs) a = ground arith

last_bit-All :
    (bits : List Bool) → All (λ b. b ≡ true) bits → 0 < length bits → last_bit bits ≡ some true
last_bit-All [] a p = absurd (omega arith)
last_bit-All (b ∷ []) a p = ap some a.0
last_bit-All (b ∷ c ∷ bs) a p = last_bit-All (c ∷ bs) a.1 (omega arith)

times-suc : (n m : ℕ) → 0 < n → (n - 1) * m + m ≡ n * m
times-suc zero m p = absurd (omega arith)
times-suc (suc n) m p = grind arith

-- Of a torrent that is there as a whole, the bytes counted as downloaded are those of as many full
-- pieces, since the length of the last piece is never asked for.
downloaded_bytes_whole :
    (o : Bits) (bits : List Bool) (info : Info)
    → IsBits o
    → All (λ b. b ≡ true) bits
    → length bits ≡ pieces info
    → 0 < length bits
    → downloaded_bytes o bits info ≡ ok (length bits * info.piece_length)
unfolding downloaded_bytes piece_len
downloaded_bytes_whole o bits info b a e p =
    rw (eq-plain b, last_bit-All bits a p, ones-All bits a, ← e)
      (ground (arith, times-suc (length bits) info.piece_length p))
