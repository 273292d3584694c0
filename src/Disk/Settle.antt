-- ===== src/Disk/Settle.antt =====
-- What a block that arrives does to a torrent: its bytes, the count of its piece, and what is told.
use vincenzo.Prelude.{
  ℕ, ◌+◌, ◌-◌, ◌*◌, ◌<◌, ◌≡◌, refl, sym, ◌∙◌, ap, Bool, true, false, some, List, ◌++◌, append-nil,
  length, get_elem?, leb, ◌==◌, min, if◌then◌else◌, Bool-cases, inl, inr, arith,
}
use mathlib.Core.Logic.{if_pos}
use vincenzo.Prelude.HashMap.{lookup, lookup-insert}
use vincenzo.Prelude.Keys.{bytes_discrete}
use vincenzo.Prelude.Slices.{overwrite}
use vincenzo.Outcome.{Outcome, ok, err, piece_invalid}
use vincenzo.Wire.Message.{Block}
use vincenzo.Torrent.Info.{Info, pieces, get_torrent_size, get_block_infos_of_piece}
use vincenzo.Torrent.Blocks.{get_block_infos-Covers}
use vincenzo.Disk.State.{
  FilePath, InfoHash, Files, FileMetadata, TorrentData, Disk, get_torrent, put_torrent,
  piece_length, usize_max,
}
use vincenzo.Disk.Layout.{cache_of}
use vincenzo.Disk.Write.{apply_ops, ops_loop, calculate_write_ops_for_block}
use vincenzo.Prelude.Keys.{same_bytes}
use vincenzo.Disk.Hashes.{hash_at, validate_piece}
use vincenzo.Disk.Blocks.{write_block, completed, checked, set_at, add_at, is_piece_downloaded}
use vincenzo.Disk.Written.{Written, ops-Written}
use vincenzo.Disk.Sizes.{size_of_piece, cache_of-IsLaid, piece_len-eq-size, piece_in_range}
use vincenzo.Disk.Validation.{IsLoaded, torrent_bytes, piece_bytes, validate_piece-eq-hash}
use vincenzo.Disk.Arrival.{
  get_elem?-add_at, add_at-eq-set_at, set_at-add_at, covered_ok, with_first,
  piece_length-eq-piece_len, blocks_of, with_block, hash_fits, Settled,
}

module _ (missing : FilePath → Outcome (List ℕ)) (sha1 : List ℕ → List ℕ) (download_dir : FilePath)
    (hash : InfoHash) (b : Block) (t : TorrentData) (d : Disk) (n : ℕ)
    (loaded : IsLoaded download_dir t d.files) (found : get_torrent hash d ≡ some t)
    (counted_so_far : get_elem? t.downloaded_per_piece b.index ≡ some n)
    (in_torrent : b.index < pieces t.torrent_info) (unchecked : (n == usize_max) ≡ false) where
  abbrev info : Info
  info = t.torrent_info

  abbrev fs : List FileMetadata
  fs = (cache_of download_dir info).file_metadata

  abbrev start : ℕ
  start = b.index * info.piece_length + b.begin

  abbrev ran : Outcome (Unit {0}) × Files
  ran =
      apply_ops missing (ops_loop start (min (start + length b.block) (get_torrent_size info)) fs)
        b.block d.files

  ran-Written :
      Written missing start
        (min (start + length b.block) (get_torrent_size info))
        (get_torrent_size info)
        b.block
        refl
        0
        fs
        d.files
        ran
  ran-Written =
      ops-Written missing start _ _ b.block refl 0 fs d.files (cache_of-IsLaid download_dir info)
        loaded.distinct loaded.mapped

  -- the bytes of the torrent from then on
  abbrev bytes_then : List ℕ
  bytes_then = overwrite start b.block (torrent_bytes download_dir info d.files)

  ran_bytes : torrent_bytes download_dir info ran.1 ≡ bytes_then
  ran_bytes =
      let zero_on : start - 0 ≡ start = omega arith in
      let from_zero : 0 - start ≡ 0 = omega arith in ran-Written.bytes ∙ rw (zero_on, from_zero)

  abbrev size : ℕ
  size = size_of_piece info b.index

  abbrev t1 : TorrentData
  t1 = record t { downloaded_per_piece = add_at b.index (length b.block) t.downloaded_per_piece }

  abbrev d1 : Disk
  d1 = put_torrent hash t1 (record d { files = ran.1 })

  size_there : piece_length t.torrent_cache b.index ≡ ok size
  size_there =
      ap (λ c. piece_length c b.index) loaded.cached
      ∙ piece_length-eq-piece_len download_dir info b.index
      ∙ piece_len-eq-size info loaded.whole b.index in_torrent

  ops-eq :
      calculate_write_ops_for_block t.torrent_cache
        (record { index = b.index; begin = b.begin; len = length b.block })
      ≡ ops_loop start (min (start + length b.block) (get_torrent_size info)) fs
  unfolding calculate_write_ops_for_block cache_of
  ops-eq =
      ap
        (λ c.
          calculate_write_ops_for_block c
            (record { index = b.index; begin = b.begin; len = length b.block }))
        loaded.cached

  complete-eq : is_piece_downloaded t1 b.index ≡ ok (leb size (n + length b.block))
  unfolding is_piece_downloaded
  complete-eq = rw (
    get_elem?-add_at b.index (length b.block) n t.downloaded_per_piece counted_so_far,
    size_there,
  )

  write_block-eq-completed :
      write_block missing sha1 hash b d
      ≡ completed missing sha1 hash b.index t1 (ok (leb size (n + length b.block))) d1
  unfolding write_block
  write_block-eq-completed =
      rw (found, counted_so_far, unchecked, ops-eq, with_first ran ran-Written.done, complete-eq)

  abbrev is_valid : Bool
  is_valid = same_bytes (hash_at b.index info.pieces) (sha1 (piece_bytes info b.index bytes_then))

  t1-IsLoaded : IsLoaded download_dir t1 ran.1
  t1-IsLoaded = record {
    cached = loaded.cached;
    whole = loaded.whole;
    bytes = loaded.bytes;
    distinct = loaded.distinct;
    mapped = ran-Written.mapped;
  }

  valid-eq :
      validate_piece missing sha1 t1 ran.1 b.index ≡ (if is_valid then ok tt else err piece_invalid)
  valid-eq =
      validate_piece-eq-hash sha1 missing download_dir t1 ran.1 b.index t1-IsLoaded in_torrent
      ∙ rw ran_bytes

  refilled :
      get_block_infos_of_piece t.torrent_cache.total_size t.torrent_cache.piece_length b.index
      ≡ ok (blocks_of (get_block_infos_of_piece (get_torrent_size info) info.piece_length b.index))
  unfolding cache_of
  refilled =
      let inside = piece_in_range info loaded.whole b.index in_torrent in
      ap (λ c. get_block_infos_of_piece c.total_size c.piece_length b.index) loaded.cached
      ∙ covered_ok b.index size
          (get_block_infos_of_piece (get_torrent_size info) info.piece_length b.index)
          (get_block_infos-Covers (get_torrent_size info) info.piece_length b.index (omega arith))

  found_after : (t' : TorrentData) (d' : Disk) → get_torrent hash (put_torrent hash t' d') ≡ some t'
  found_after t' d' =
      lookup-insert bytes_discrete hash hash t' d'.torrents
      ∙ if_pos (bytes_discrete hash hash) refl (some t') (lookup bytes_discrete hash d'.torrents)

  counted_then :
      t1.downloaded_per_piece ≡ set_at b.index (n + length b.block) t.downloaded_per_piece
  counted_then = add_at-eq-set_at b.index (length b.block) n t.downloaded_per_piece counted_so_far

  set_then :
      (v : ℕ) → set_at b.index v t1.downloaded_per_piece ≡ set_at b.index v t.downloaded_per_piece
  set_then v = set_at-add_at b.index v (length b.block) t.downloaded_per_piece

  abbrev Ends : Bool → Bool → Outcome (Unit {0}) × Disk → Type 0
  Ends complete fits r = Settled download_dir hash b t n d complete fits r

  waits : Ends false is_valid (completed missing sha1 hash b.index t1 (ok false) d1)
  waits = record {
    done = refl;
    torrent = t1;
    found = found_after t1 (record d { files = ran.1 });
    keeps_info = refl;
    loaded = t1-IsLoaded;
    bytes = ran_bytes;
    counts = counted_then;
    tells = sym (append-nil d.sent);
    queues = sym (append-nil t.queue);
  }

  validates : is_valid ≡ true → Ends true true (checked hash b.index t1 (ok tt) d1)
  validates v =
      let t2 = record t1 {
        downloaded_per_piece = set_at b.index usize_max t1.downloaded_per_piece;
      } in
      record {
        done = refl;
        torrent = t2;
        found = found_after t2 d1;
        keeps_info = refl;
        loaded = record {
          cached = loaded.cached;
          whole = loaded.whole;
          bytes = loaded.bytes;
          distinct = loaded.distinct;
          mapped = ran-Written.mapped;
        };
        bytes = ran_bytes;
        counts = set_then usize_max;
        tells = refl;
        queues = sym (append-nil t.queue);
      }

  corrupts : Ends true false (checked hash b.index t1 (err piece_invalid) d1)
  corrupts =
      let blocks =
        blocks_of (get_block_infos_of_piece (get_torrent_size info) info.piece_length b.index) in
      let t2 = record t1 {
        queue = t.queue ++ blocks;
        downloaded_per_piece = set_at b.index 0 t1.downloaded_per_piece;
      } in
      rw refilled (record {
        done = refl;
        torrent = t2;
        found = found_after t2 d1;
        keeps_info = refl;
        loaded = record {
          cached = loaded.cached;
          whole = loaded.whole;
          bytes = loaded.bytes;
          distinct = loaded.distinct;
          mapped = ran-Written.mapped;
        };
        bytes = ran_bytes;
        counts = set_then 0;
        tells = refl;
        queues = refl;
      })

  completes : Ends true is_valid (completed missing sha1 hash b.index t1 (ok true) d1)
  completes = elim (Bool-cases is_valid) [
    | inl v ↦ rw (valid-eq, v) (validates v)
    | inr c ↦ rw (valid-eq, c) corrupts
  ]

  -- Take a torrent with its layout computed, whose info is well formed (a whole hash for each
  -- piece, sizes that agree), none of whose files is empty, and each of whose files is there with
  -- its full length under a path of its own. A block of a piece of it that is not checked yet goes
  -- into the torrent's bytes at its place, whichever files lie there. While the piece is not
  -- complete only its count grows; once it is, it is announced and marked as checked exactly if its
  -- bytes have its hash, and else it is reported, counted as empty, and its blocks are queued
  -- again.
  pub write_block-Settled :
      Settled download_dir hash b t n d
        (leb (size_of_piece t.torrent_info b.index) (n + length b.block))
        (hash_fits sha1 t.torrent_info b.index (with_block download_dir t.torrent_info b d.files))
        (write_block missing sha1 hash b d)
  write_block-Settled =
      rw write_block-eq-completed (elim (Bool-cases (leb size (n + length b.block))) [
        | inl e ↦ rw e completes
        | inr e ↦ rw e waits
      ])
