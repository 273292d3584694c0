-- ===== src/Disk/Validation.antt =====
-- The two checks of a piece, of a torrent whose files are all there.
use vincenzo.Prelude.{
  ℕ, ◌+◌, ◌-◌, ◌*◌, ◌^◌, ◌%◌, ◌<◌, ◌≡◌, sym, ◌∙◌, ap, ap₂, true, List, length, take, drop, leb,
  le→leb, min, if◌then◌else◌, arith,
}
use Prim.Native.Nat.{max}
use vincenzo.Outcome.{Outcome, ok, err, piece_invalid}
use vincenzo.Torrent.Info.{Info, pieces, get_torrent_size}
use vincenzo.Disk.State.{FilePath, Files, TorrentData}
use vincenzo.Disk.Layout.{cache_of}
use vincenzo.Prelude.Keys.{same_bytes, same_bytes_sym}
use vincenzo.Disk.Hashes.{hash_at, verify_piece, validate_piece}
use vincenzo.Disk.Image.{IsDistinct, IsMapped, image}
use vincenzo.Disk.Parts.{part, opened, verify_loop-part}
use vincenzo.Disk.LastBytes.{HasBytes, validate_loop-part}
use vincenzo.Disk.Sizes.{IsWhole, size_of_piece, cache_of-IsLaid, piece_len-eq-size, piece_in_range}

-- A well-formed torrent as `new_torrent` takes it up, no file of which is empty, with its files there
-- under paths of their own.
pub record IsLoaded (download_dir : FilePath) (t : TorrentData) (files : Files) : Type 0 where
  pub cached : t.torrent_cache ≡ cache_of download_dir t.torrent_info
  pub whole : IsWhole t.torrent_info
  pub bytes : HasBytes (cache_of download_dir t.torrent_info).file_metadata
  pub distinct : IsDistinct (cache_of download_dir t.torrent_info).file_metadata
  pub mapped : IsMapped (cache_of download_dir t.torrent_info).file_metadata files

-- the bytes of a torrent and of a piece
abbrev pub torrent_bytes : FilePath → Info → Files → List ℕ
torrent_bytes download_dir info files = image (cache_of download_dir info).file_metadata files

abbrev pub piece_bytes : Info → ℕ → List ℕ → List ℕ
piece_bytes info piece bs = take (size_of_piece info piece) (drop (piece * info.piece_length) bs)

whole_part :
    (start size : ℕ) (bs : List ℕ) → part start (start + size) 0 bs ≡ take size (drop start bs)
whole_part start size bs =
    let a : start + size - max start 0 ≡ size = omega arith in
    let b : start - 0 ≡ start = omega arith in rw (a, b)

-- the hash of each piece is in the list
hash_there : (p q n : ℕ) → n ≡ q * 20 → p < q → leb (p * 20 + 20) n ≡ true
hash_there p q n e h = le→leb (p * 20 + 20) n (omega arith)

module _ (sha1 : List ℕ → List ℕ) (missing : FilePath → Outcome (List ℕ))
    (download_dir : FilePath) where
  pub validate_piece-eq-hash :
      (t : TorrentData) (files : Files) (piece : ℕ)
      → IsLoaded download_dir t files
      → piece < pieces t.torrent_info
      → validate_piece missing sha1 t files piece ≡ (
          if same_bytes (hash_at piece t.torrent_info.pieces) (
            sha1
              (piece_bytes t.torrent_info piece (torrent_bytes download_dir t.torrent_info files)))
          then ok tt
          else err piece_invalid)
  unfolding validate_piece
  validate_piece-eq-hash t files piece l h =
      let info = t.torrent_info in
      let from = piece * info.piece_length in
      let size = size_of_piece info piece in
      let inside = piece_in_range info l.whole piece h in
      let last : (from + size + (2 ^ 64 - 1)) % 2 ^ 64 ≡ from + size - 1 =
        omega (arith, l.whole.fits) in
      let read =
        validate_loop-part missing files from (from + size) (get_torrent_size info) inside.1
          (omega arith) l.whole.fits 0 (cache_of download_dir info).file_metadata l.bytes
          (cache_of-IsLaid download_dir info) l.mapped in
      rw (
        hash_there piece (pieces info) (length info.pieces) l.whole.hashes h,
        piece_len-eq-size info l.whole piece h,
        l.cached,
        last,
        read,
        whole_part from size (torrent_bytes download_dir info files),
      )

  pub verify_piece-eq-hash :
      (info : Info) (files : Files) (piece : ℕ) (hash : List ℕ)
      → IsMapped (cache_of download_dir info).file_metadata files
      → verify_piece sha1 piece
          (opened files (cache_of download_dir info).file_metadata)
          info.piece_length
          (get_torrent_size info)
          hash
        ≡ same_bytes (sha1 (piece_bytes info piece (torrent_bytes download_dir info files))) hash
  unfolding verify_piece
  verify_piece-eq-hash info files piece hash m =
      let from = piece * info.piece_length in
      let end = min (from + info.piece_length) (get_torrent_size info) in
      let bs = torrent_bytes download_dir info files in
      let size : end - max from 0 ≡ end - from = omega arith in
      let same : part from end 0 bs ≡ piece_bytes info piece bs =
        ap₂ (λ k n. take k (drop n bs)) size (omega arith) in
      let read =
        verify_loop-part files (get_torrent_size info) from end 0
          (cache_of download_dir info).file_metadata (cache_of-IsLaid download_dir info) m in
      ap (λ x. same_bytes (sha1 x) hash) (rw size at read ∙ rw size at same)

  -- The check of a piece whose blocks have arrived and that of a piece which is found when the
  -- torrent is taken up again agree, on every piece of a torrent with its layout computed, whose
  -- info is well formed (a whole hash for each piece, sizes that agree), none of whose files is
  -- empty, and each of whose files is there with its full length under a path of its own.
  pub validate_piece-verify_piece :
      (t : TorrentData) (files : Files) (piece : ℕ)
      → IsLoaded download_dir t files
      → piece < pieces t.torrent_info
      → validate_piece missing sha1 t files piece ≡ (
          if verify_piece sha1 piece
            (opened files t.torrent_cache.file_metadata)
            t.torrent_cache.piece_length
            t.torrent_cache.total_size
            (hash_at piece t.torrent_info.pieces)
          then ok tt
          else err piece_invalid)
  unfolding cache_of
  validate_piece-verify_piece t files piece l h =
      let info = t.torrent_info in
      let hash = hash_at piece info.pieces in
      validate_piece-eq-hash t files piece l h
      ∙ rw l.cached (
          ap (λ b. if b then ok tt else err piece_invalid)
            (same_bytes_sym hash
                (sha1 (piece_bytes info piece (torrent_bytes download_dir info files)))
              ∙ sym (verify_piece-eq-hash info files piece hash l.mapped)))
