-- ===== src/Disk/Sizes.antt =====
-- What the layout and the sizes of a torrent say, where its info is well formed.
use vincenzo.Prelude.{
  ℕ, zero, suc, ◌+◌, ◌-◌, ◌*◌, ◌^◌, ◌%◌, ◌≤◌, ◌<◌, ◌≡◌, refl, sym, ◌∙◌, ap, false, Option, none,
  some, List, [], ◌∷◌, length, min, ◌==◌, Bool-cases, inl, inr, ==→eq, if◌then◌else◌, arith,
}
use native.Mathlib.Nat.{mul-add-mod_self_right, mod_self, mod-eq_of_lt, mul-le-mul_right}
use vincenzo.Outcome.{ok}
use vincenzo.Torrent.Info.{File, Info, pieces, get_torrent_size, piece_len, total, size_of}
use vincenzo.Disk.State.{FilePath}
use vincenzo.Disk.Layout.{place_files, place_all, cache_of}
use vincenzo.Disk.Image.{IsLaid}

place_files-IsLaid :
    (base : FilePath) (offset : ℕ) (fs : List File)
    → IsLaid offset (place_files base offset fs) (offset + total fs)
unfolding place_files
place_files-IsLaid base offset [] = omega arith
place_files-IsLaid base offset (f ∷ fs) =
    let e : offset + f.length + total fs ≡ offset + (f.length + total fs) = omega arith in
    (refl, rw (← e) (place_files-IsLaid base (offset + f.length) fs))

-- The files that `compute_torrent_cache` places follow one another, from 0 to the size of the
-- torrent.
pub cache_of-IsLaid :
    (download_dir : FilePath) (info : Info)
    → IsLaid 0 (cache_of download_dir info).file_metadata (get_torrent_size info)
unfolding cache_of get_torrent_size
cache_of-IsLaid download_dir info = placed _ info.files info.file_length
  where
    placed :
        (base : FilePath) (files : Option (List File)) (l : Option ℕ)
        → IsLaid 0 (place_all base files l) (size_of files l)
    placed base none none = (refl, refl)
    placed base none (some n) = (refl, omega arith)
    placed base (some fs) l =
        let e : 0 + total fs ≡ total fs = omega arith in rw e at (place_files-IsLaid base 0 fs)

-- A hash for each piece, and the torrent ends in the last piece.
pub record IsWhole (info : Info) : Type 0 where
  pub hashes : length info.pieces ≡ pieces info * 20
  pub has_pieces : 0 < pieces info
  pub long : 0 < info.piece_length
  pub last_starts : (pieces info - 1) * info.piece_length < get_torrent_size info
  pub last_ends : get_torrent_size info ≤ pieces info * info.piece_length
  pub fits : get_torrent_size info < 2 ^ 64

-- the bytes of a piece
abbrev pub size_of_piece : Info → ℕ → ℕ
size_of_piece info piece =
    min (piece * info.piece_length + info.piece_length) (get_torrent_size info)
    - piece * info.piece_length

-- the last piece, of `q` full ones before it
last_size :
    (q m total_size : ℕ)
    → q * m < total_size
    → total_size ≤ q * m + m
    → (if total_size % m == 0 then ok m else ok (total_size % m)) ≡ ok (total_size - q * m)
last_size q m total_size a b =
    let r = total_size - q * m in
    let split : q * m + r ≡ total_size = omega arith in
    let same : total_size % m ≡ r % m =
      ap (λ n. n % m) (sym split) ∙ mul-add-mod_self_right q m r in
    elim (Bool-cases (r == m)) [
      | inl t ↦
          let e : r % m ≡ 0 = ap (λ n. n % m) (==→eq r m t) ∙ mod_self m in
          rw (same ∙ e) (ap ok (sym (==→eq r m t)))
      | inr n ↦ let e : r % m ≡ r = mod-eq_of_lt (ground arith) in rw (same ∙ e) (ground arith)
    ]

le_times : (n m : ℕ) → 0 < m → n ≤ n * m
le_times n m h = grind arith

pub rows : (a b m : ℕ) → a < b → a * m + m ≤ b * m
rows a b m h = grind arith

one_row : (p m : ℕ) → 0 < p → (p - 1) * m + m ≡ p * m
one_row zero m h = absurd (omega arith)
one_row (suc p) m h = grind arith

module _ (info : Info) (w : IsWhole info) where
  open w use {hashes, has_pieces, long, last_starts, last_ends, fits}

  last_piece : (pieces info + (2 ^ 64 - 1)) % 2 ^ 64 ≡ pieces info - 1
  last_piece = omega (arith, le_times (pieces info - 1) info.piece_length long)

  -- The size of each piece of a well-formed torrent, the last one included.
  pub piece_len-eq-size :
      (piece : ℕ) → piece < pieces info → piece_len info piece ≡ ok (size_of_piece info piece)
  unfolding piece_len
  piece_len-eq-size piece h = elim (Bool-cases (piece == pieces info - 1)) [
    | inl t ↦
        let e = ==→eq piece (pieces info - 1) t in
        let pos : (info.piece_length == 0) ≡ false = ground (arith) in
        let starts : piece * info.piece_length < get_torrent_size info = rw e last_starts in
        let ends : get_torrent_size info ≤ piece * info.piece_length + info.piece_length = omega (
          arith,
          one_row (pieces info) info.piece_length has_pieces,
          ap (λ n. n * info.piece_length) e,
        ) in
        rw (last_piece, t, pos)
          (last_size piece info.piece_length (get_torrent_size info) starts ends
            ∙ ap ok (omega arith))
    | inr n ↦
        let before : piece < pieces info - 1 = ground (arith) in
        rw (last_piece, n)
          (ap ok (omega (arith, rows piece (pieces info - 1) info.piece_length before)))
  ]

  -- A piece is not empty and ends within the torrent.
  pub piece_in_range :
      (piece : ℕ)
      → piece < pieces info
      → (0 < size_of_piece info piece)
        × (piece * info.piece_length + size_of_piece info piece ≤ get_torrent_size info)
  piece_in_range piece h =
      let starts : piece * info.piece_length ≤ (pieces info - 1) * info.piece_length =
        mul-le-mul_right info.piece_length (omega arith) in
      omega arith
