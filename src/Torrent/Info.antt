-- ===== src/Torrent/Info.antt =====
-- `Info` of crates/vcz-lib/src/metainfo.rs: the sizes of a torrent, its pieces and their blocks.
-- Strings are their bytes.
use vincenzo.Prelude.{
  ℕ, zero, suc, ◌+◌, ◌-◌, ◌*◌, ◌/◌, ◌%◌, ◌^◌, Bool, true, not, Option, none, some, List, [], ◌∷◌,
  length, ltb, ◌==◌, min, if◌then◌else◌,
}
use vincenzo.Outcome.{Outcome, ok, panic}
use vincenzo.Torrent.Bits.{Bits}
use vincenzo.Wire.Message.{block_len, BlockInfo}

pub record File : Type 0 where
  pub length : ℕ
  pub path : List (List ℕ)

pub record Info : Type 0 where
  pub cross_seed_entry : Option (List ℕ)
  pub file_length : Option ℕ
  pub files : Option (List File)
  pub name : List ℕ
  pub piece_length : ℕ
  pub pieces : List ℕ
  pub source : Option (List ℕ)
  pub metadata_size : ℕ
  pub info_hash : List ℕ

-- `div_ceil`, of a divisor above 0
abbrev pub div_ceil : ℕ → ℕ → ℕ
div_ceil n d = (n + (d - 1)) / d

unfoldable pub pieces : Info → ℕ
pieces info = div_ceil (length info.pieces) 20

abbrev pub total : List File → ℕ
total [] = 0
total (f ∷ fs) = f.length + total fs

abbrev pub size_of : Option (List File) → Option ℕ → ℕ
size_of (some files) l = total files
size_of none (some n) = n
size_of none none = 0

unfoldable pub get_torrent_size : Info → ℕ
get_torrent_size info = size_of info.files info.file_length

unfoldable pub blocks_count : Info → ℕ
unfolding get_torrent_size
blocks_count info = div_ceil (get_torrent_size info) block_len

-- `pieces() - 1` wraps where there are no pieces; a remainder by a piece length of 0 panics.
unfoldable pub piece_len : Info → ℕ → Outcome ℕ
unfolding pieces get_torrent_size
piece_len info piece =
    let last = (pieces info + (2 ^ 64 - 1)) % 2 ^ 64 in
    let remainder = get_torrent_size info % info.piece_length in
    if not (piece == last)
    then ok info.piece_length
    else if info.piece_length == 0
    then panic
    else if remainder == 0
    then ok info.piece_length
    else ok remainder

-- the loop: `k` blocks are left, the next has number `i`, the last number `last`
unfoldable pub block_loop : ℕ → ℕ → ℕ → ℕ → ℕ → List BlockInfo
block_loop piece_index piece_size last zero i = []
block_loop piece_index piece_size last (suc k) i =
    record {
      index = piece_index;
      begin = i * block_len;
      len = if i == last then piece_size - i * block_len else block_len;
    }
    ∷ block_loop piece_index piece_size last k (i + 1)

-- Where the piece starts behind the end, `piece_end - piece_start` panics, or wraps to a size whose
-- blocks no memory holds, at which the allocation panics.
unfoldable pub get_block_infos_of_piece : ℕ → ℕ → ℕ → Outcome (List BlockInfo)
unfolding block_loop
get_block_infos_of_piece total_size piece_length piece_index =
    let piece_start = piece_index * piece_length in
    let piece_end = min (piece_start + piece_length) total_size in
    let piece_size = piece_end - piece_start in
    let num_blocks = div_ceil piece_size block_len in
    if ltb piece_end piece_start
    then panic
    else ok (block_loop piece_index piece_size (num_blocks - 1) num_blocks 0)

abbrev pub last_bit : List Bool → Option Bool
last_bit [] = none
last_bit (b ∷ []) = some b
last_bit (b ∷ c ∷ bs) = last_bit (c ∷ bs)

abbrev pub plus_last : ℕ → Outcome ℕ → Outcome ℕ
plus_last r (ok n) = ok (r + n)
plus_last r _ = panic

abbrev pub downloaded_with : Option Bool → Outcome ℕ → ℕ → Outcome ℕ
downloaded_with (some true) len r = plus_last r len
downloaded_with _ len r = ok r

-- the piece that `piece_length` is asked about is the length of the bitfield
unfoldable pub downloaded_bytes : Bits → List Bool → Info → Outcome ℕ
unfolding piece_len
downloaded_bytes o bitfield info =
    downloaded_with (last_bit bitfield) (piece_len info (length bitfield))
      ((o.count_ones bitfield - 1) * info.piece_length)
