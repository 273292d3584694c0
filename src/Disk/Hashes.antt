-- ===== src/Disk/Hashes.antt =====
-- Checking pieces against their hashes: `verify_piece`, `preopen_files` and
-- `compute_downloaded_pieces`, by which a torrent is taken up again, and `validate_piece`, by which a
-- piece is checked once its blocks are there (crates/vcz-lib/src/disk.rs). The `sha1` crate is a
-- parameter.
use vincenzo.Prelude.{
  ℕ, ◌+◌, ◌-◌, ◌*◌, ◌^◌, ◌%◌, Bool, true, false, not, ◌&&◌, List, [], ◌∷◌, ◌++◌, length, take, drop,
  ltb, leb, ◌==◌, min, if◌then◌else◌,
}
use Prim.Native.Nat.{max}
use vincenzo.Prelude.HashMap.{lookup}
use vincenzo.Prelude.Keys.{bytes_discrete, same_bytes}
use vincenzo.Outcome.{Outcome, ok, err, panic, piece_invalid}
use vincenzo.Torrent.Info.{piece_len}
use vincenzo.Disk.State.{FilePath, Files, FileMetadata, TorrentData}
use vincenzo.Disk.Write.{get_map}

-- The bytes that the loop of `verify_piece` hashes. A file that is too short is passed over, with
-- the test for the end of the loop.
unfoldable pub verify_loop : ℕ → ℕ → ℕ → List (FileMetadata × List ℕ) → List ℕ
verify_loop piece_start piece_end remaining [] = []
verify_loop piece_start piece_end remaining ((f, mmap) ∷ mmaps) =
    let file_end = f.start_offset + f.length in
    let overlaps = ltb piece_start file_end && ltb f.start_offset piece_end in
    let read_start = max piece_start f.start_offset in
    let read_length = min piece_end file_end - read_start in
    let file_offset = read_start - f.start_offset in
    let short = leb (length mmap) file_offset in
    let reads = overlaps && not short in
    let left = if reads then remaining - read_length else remaining in
    let chunk =
      if reads
      then take (min read_length (length mmap - file_offset)) (drop file_offset mmap)
      else [] in
    let rest = verify_loop piece_start piece_end left mmaps in
    chunk ++ (if not (overlaps && short) && left == 0 then [] else rest)

-- The 20 bytes of a piece in the list of hashes.
abbrev pub hash_at : ℕ → List ℕ → List ℕ
hash_at piece hashes = take 20 (drop (piece * 20) hashes)

abbrev with_chunk : Outcome (List ℕ) → ℕ → ℕ → Outcome (List ℕ) → Outcome (List ℕ)
with_chunk (ok mmap) from len (ok rest) =
    if leb (from + len) (length mmap) then ok (take len (drop from mmap) ++ rest) else panic
with_chunk (ok mmap) from len (err e) = if leb (from + len) (length mmap) then err e else panic
with_chunk (ok mmap) from len panic = panic
with_chunk (err e) from len rest = err e
with_chunk panic from len rest = panic

module _ (sha1 : List ℕ → List ℕ) where
  -- Where a piece starts behind the end, its size wraps, and nothing overlaps it.
  unfoldable pub verify_piece : ℕ → List (FileMetadata × List ℕ) → ℕ → ℕ → List ℕ → Bool
  unfolding verify_loop
  verify_piece piece mmaps piece_length total_size expected_hash =
      let piece_start = piece * piece_length in
      let piece_end = min (piece_start + piece_length) total_size in
      same_bytes (sha1 (verify_loop piece_start piece_end (piece_end - piece_start) mmaps))
        expected_hash

module _ (missing : FilePath → Outcome (List ℕ)) where
  -- The bytes that the loop of `validate_piece` hashes. The ends are the last bytes, so that they
  -- wrap where a file is empty.
  unfoldable pub validate_loop : ℕ → ℕ → List FileMetadata → Files → Outcome (List ℕ)
  validate_loop piece_start piece_end [] files = ok []
  validate_loop piece_start piece_end (f ∷ fs) files =
      let file_end = (f.start_offset + f.length + (2 ^ 64 - 1)) % 2 ^ 64 in
      let overlap_start = max piece_start f.start_offset - f.start_offset in
      let overlap_end = (min piece_end file_end + 2 ^ 64 - f.start_offset) % 2 ^ 64 in
      let len = (overlap_end + 2 ^ 64 - overlap_start + 1) % 2 ^ 64 in
      let rest = validate_loop piece_start piece_end fs files in
      if leb piece_start file_end && leb f.start_offset piece_end
      then with_chunk (get_map missing f.path (lookup bytes_discrete f.path files)) overlap_start
          len rest
      else rest

  -- What `preopen_files` opened, and whether it stopped at a file that cannot be opened.
  abbrev push_map :
      FileMetadata
      → Outcome (List ℕ)
      → Outcome (List (FileMetadata × List ℕ) × Bool)
      → Outcome (List (FileMetadata × List ℕ) × Bool)
  push_map f (err e) rest = ok ([], true)
  push_map f panic rest = panic
  push_map f (ok bs) (ok (ms, failed)) = ok ((f, bs) ∷ ms, failed)
  push_map f (ok bs) (err e) = err e
  push_map f (ok bs) panic = panic

  unfoldable pub preopen_files :
      List FileMetadata → Files → Outcome (List (FileMetadata × List ℕ) × Bool)
  preopen_files [] files = ok ([], false)
  preopen_files (f ∷ fs) files =
      push_map f (get_map missing f.path (lookup bytes_discrete f.path files))
        (preopen_files fs files)

  module _ (sha1 : List ℕ → List ℕ) where
    abbrev compared : Outcome (List ℕ) → List ℕ → Outcome (Unit {0})
    compared (ok bs) hash = if same_bytes hash (sha1 bs) then ok tt else err piece_invalid
    compared (err e) hash = err e
    compared panic hash = panic

    abbrev validated : Outcome ℕ → ℕ → List ℕ → List FileMetadata → Files → Outcome (Unit {0})
    validated (ok len) piece_start hash fs files =
        compared (validate_loop piece_start ((piece_start + len + (2 ^ 64 - 1)) % 2 ^ 64) fs files)
          hash
    validated (err e) piece_start hash fs files = err e
    validated panic piece_start hash fs files = panic

    unfoldable pub validate_piece : TorrentData → Files → ℕ → Outcome (Unit {0})
    unfolding validate_loop piece_len
    validate_piece t files piece =
        let info = t.torrent_info in
        if leb (piece * 20 + 20) (length info.pieces)
        then validated (piece_len info piece) (piece * info.piece_length)
            (hash_at piece info.pieces) t.torrent_cache.file_metadata files
        else panic
