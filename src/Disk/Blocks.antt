-- ===== src/Disk/Blocks.antt =====
-- Blocks in and out: `read_block`, `write_block`, `is_piece_downloaded` and `handle_torrent_err` of
-- crates/vcz-lib/src/disk.rs, and what `run` does at ReadBlock and WriteBlock. An index and an offset
-- are u32s, so that their sums stay below 2 ^ 64.
use vincenzo.Prelude.{
  ℕ, zero, suc, ◌+◌, ◌-◌, ◌*◌, Bool, true, false, ◌&&◌, Option, none, some, List, [], ◌∷◌, ◌++◌,
  length, get_elem?, take, drop, ltb, leb, ◌==◌, if◌then◌else◌,
}
use vincenzo.Prelude.HashMap.{lookup}
use vincenzo.Prelude.Keys.{bytes_discrete}
use vincenzo.Outcome.{Outcome, ok, err, panic, torrent_does_not_exist, io, not_found}
use vincenzo.Wire.Message.{Block, BlockInfo}
use vincenzo.Torrent.Info.{get_block_infos_of_piece}
use vincenzo.Torrent.Pause.{TorrentStatusErrorCode}
use vincenzo.Disk.State.{
  FilePath, InfoHash, Files, FileMetadata, TorrentData, TorrentMsg, Disk, get_torrent, put_torrent,
  send, piece_length, usize_max,
}
use vincenzo.Disk.Write.{get_map, apply_ops, calculate_write_ops_for_block}
use vincenzo.Disk.Hashes.{validate_piece}

-- the first file that has the byte
unfoldable pub find_file : ℕ → List FileMetadata → Option FileMetadata
find_file at [] = none
find_file at (f ∷ fs) =
    let rest = find_file at fs in
    if leb f.start_offset at && ltb at (f.start_offset + f.length) then some f else rest

-- `PieceTracker::record` and the assignments to `downloaded_per_piece`
abbrev pub set_at : ℕ → ℕ → List ℕ → List ℕ
set_at i v [] = []
set_at zero v (x ∷ xs) = v ∷ xs
set_at (suc i) v (x ∷ xs) = x ∷ set_at i v xs

abbrev pub add_at : ℕ → ℕ → List ℕ → List ℕ
add_at i v [] = []
add_at zero v (x ∷ xs) = (x + v) ∷ xs
add_at (suc i) v (x ∷ xs) = x ∷ add_at i v xs

-- `&mmap[start..end]`
abbrev sliced : ℕ → ℕ → Outcome (List ℕ) → Outcome (List ℕ)
sliced start len (ok mmap) =
    if leb (start + len) (length mmap) then ok (take len (drop start mmap)) else panic
sliced start len (err e) = err e
sliced start len panic = panic

-- `record_piece_access`, at the time `now`. The task that writes it may run later.
unfoldable pub record_piece_access : InfoHash → ℕ → ℕ → TorrentData → Disk → Disk
record_piece_access hash piece now t =
    put_torrent hash (record t { piece_tracker = set_at piece now t.piece_tracker })

abbrev downloaded_of : Option ℕ → Outcome ℕ → Outcome Bool
downloaded_of (some n) (ok size) = ok (leb size n)
downloaded_of (some n) (err e) = err e
downloaded_of _ _ = panic

unfoldable pub is_piece_downloaded : TorrentData → ℕ → Outcome Bool
unfolding piece_length
is_piece_downloaded t piece =
    downloaded_of (get_elem? t.downloaded_per_piece piece) (piece_length t.torrent_cache piece)

-- `handle_torrent_err`
unfoldable pub handle_torrent_err {ℓ} : {A : Type ℓ} → InfoHash → Outcome A → Disk → Disk
handle_torrent_err hash (err not_found) d =
    send hash (TorrentMsg.set_torrent_error TorrentStatusErrorCode.files_missing) d
handle_torrent_err hash (err io) d =
    send hash (TorrentMsg.set_torrent_error TorrentStatusErrorCode.unknown) d
handle_torrent_err hash _ d = d

-- the blocks of a corrupted piece are queued again, and it counts as not downloaded
abbrev pub requeued :
    InfoHash → ℕ → TorrentData → Outcome (List BlockInfo) → Disk → Outcome (Unit {0}) × Disk
requeued hash index t (ok blocks) d = (
  ok tt,
  send hash (TorrentMsg.corrupted_piece index) (
      put_torrent hash
        (record t {
          queue = t.queue ++ blocks;
          downloaded_per_piece = set_at index 0 t.downloaded_per_piece;
        })
        d),
)
requeued hash index t (err e) d = (err e, d)
requeued hash index t panic d = (panic, d)

abbrev pub checked :
    InfoHash → ℕ → TorrentData → Outcome (Unit {0}) → Disk → Outcome (Unit {0}) × Disk
checked hash index t (ok _) d = (
  ok tt,
  send hash (TorrentMsg.downloaded_piece index) (
      put_torrent hash
        (record t { downloaded_per_piece = set_at index usize_max t.downloaded_per_piece }) d),
)
checked hash index t (err _) d =
    requeued hash index t
      (get_block_infos_of_piece t.torrent_cache.total_size t.torrent_cache.piece_length index) d
checked hash index t panic d = (panic, d)

module _ (missing : FilePath → Outcome (List ℕ)) where
  abbrev pub read_in :
      InfoHash → BlockInfo → ℕ → TorrentData → Option FileMetadata → Disk → Outcome (List ℕ) × Disk
  read_in hash b now t none d = (err torrent_does_not_exist, d)
  read_in hash b now t (some f) d =
      let start = b.index * t.torrent_cache.piece_length + b.begin - f.start_offset in
      (
        sliced start b.len (get_map missing f.path (lookup bytes_discrete f.path d.files)),
        record_piece_access hash b.index now t d,
      )

  abbrev read_of : InfoHash → BlockInfo → ℕ → Option TorrentData → Disk → Outcome (List ℕ) × Disk
  read_of hash b now none d = (err torrent_does_not_exist, d)
  read_of hash b now (some t) d =
      read_in hash b now t
        (find_file (b.index * t.torrent_cache.piece_length + b.begin) t.torrent_cache.file_metadata)
        d

  unfoldable pub read_block : InfoHash → BlockInfo → ℕ → Disk → Outcome (List ℕ) × Disk
  unfolding find_file record_piece_access
  read_block hash b now d = read_of hash b now (get_torrent hash d) d

  -- `DiskMsg::ReadBlock`: what is sent back, and the disk
  unfoldable pub on_read_block : InfoHash → BlockInfo → ℕ → Disk → Outcome (List ℕ) × Disk
  on_read_block hash b now d =
      let (r, d') = read_block hash b now d in (r, handle_torrent_err hash r d')

  module _ (sha1 : List ℕ → List ℕ) where
    abbrev pub completed :
        InfoHash → ℕ → TorrentData → Outcome Bool → Disk → Outcome (Unit {0}) × Disk
    completed hash index t (ok false) d = (ok tt, d)
    completed hash index t (ok true) d =
        checked hash index t (validate_piece missing sha1 t d.files index) d
    completed hash index t (err e) d = (err e, d)
    completed hash index t panic d = (panic, d)

    abbrev pub counted :
        InfoHash
        → ℕ
        → ℕ
        → TorrentData
        → Outcome (Unit {0}) × Files
        → Disk
        → Outcome (Unit {0}) × Disk
    counted hash index len t (ok _, files) d =
        let t' = record t { downloaded_per_piece = add_at index len t.downloaded_per_piece } in
        completed hash index t' (is_piece_downloaded t' index)
          (put_torrent hash t' (record d { files = files }))
    counted hash index len t (err e, files) d = (err e, record d { files = files })
    counted hash index len t (panic, files) d = (panic, record d { files = files })

    -- a piece that is downloaded and checked already takes no more blocks
    abbrev pub write_in :
        InfoHash → Block → TorrentData → Option ℕ → Disk → Outcome (Unit {0}) × Disk
    write_in hash b t none d = (ok tt, d)
    write_in hash b t (some n) d =
        if n == usize_max
        then (ok tt, d)
        else counted hash b.index (length b.block) t
            (apply_ops missing
              (calculate_write_ops_for_block t.torrent_cache
                (record { index = b.index; begin = b.begin; len = length b.block }))
              b.block d.files)
            d

    abbrev pub write_of : InfoHash → Block → Option TorrentData → Disk → Outcome (Unit {0}) × Disk
    write_of hash b none d = (err torrent_does_not_exist, d)
    write_of hash b (some t) d = write_in hash b t (get_elem? t.downloaded_per_piece b.index) d

    unfoldable pub write_block : InfoHash → Block → Disk → Outcome (Unit {0}) × Disk
    unfolding is_piece_downloaded calculate_write_ops_for_block
    write_block hash b d = write_of hash b (get_torrent hash d) d

    -- `DiskMsg::WriteBlock`
    unfoldable pub on_write_block : InfoHash → Block → Disk → Outcome (Unit {0}) × Disk
    on_write_block hash b d =
        let (r, d') = write_block hash b d in (r, handle_torrent_err hash r d')
