-- ===== src/Disk/Resume.antt =====
-- Taking up a torrent: `new_torrent`, `pre_alloc_files` and `compute_downloaded_pieces` of
-- crates/vcz-lib/src/disk.rs, up to the message that adds the torrent to the daemon. Whether the folder
-- of a file can be made is a parameter. The bitfield is the list of the results, bit by bit.
use vincenzo.Prelude.{
  ℕ, zero, suc, ◌+◌, ◌%◌, Bool, true, false, Option, none, some, List, [], ◌∷◌, ◌++◌, length, take,
  leb, ◌==◌, if◌then◌else◌,
}
use vincenzo.Prelude.HashMap.{lookup, insert}
use vincenzo.Prelude.Keys.{bytes_discrete}
use vincenzo.Outcome.{Outcome, ok, err, panic, torrent_does_not_exist}
use vincenzo.Torrent.Bits.{ones}
use vincenzo.Torrent.Info.{Info, pieces, piece_len}
use vincenzo.Disk.State.{
  FilePath, Files, FileMetadata, TorrentData, Disk, get_torrent, put_torrent, new_torrent_data,
}
use vincenzo.Disk.Layout.{zeros, compute_torrent_cache}
use vincenzo.Disk.Write.{get_map}
use vincenzo.Disk.Hashes.{hash_at, verify_piece, preopen_files}

pub data MetadataDir : Type 0 where
  complete incomplete queue : MetadataDir

-- `set_len`
abbrev pub resize : ℕ → List ℕ → List ℕ
resize n bs = take n (bs ++ zeros n)

-- A file that cannot be opened is passed over.
abbrev pub allocated :
    FileMetadata
    → Outcome (Unit {0})
    → Outcome (List ℕ)
    → Files
    → (Files → Outcome (Unit {0}) × Files)
    → Outcome (Unit {0}) × Files
allocated f (err e) map files go = (err e, files)
allocated f panic map files go = (panic, files)
allocated f (ok _) (ok bs) files go = go (insert bytes_discrete f.path (resize f.length bs) files)
allocated f (ok _) (err e) files go = go files
allocated f (ok _) panic files go = (panic, files)

-- the size of each piece that is there, and 0 for the others
abbrev pub sized : Bool → Outcome ℕ → Outcome (List ℕ) → Outcome (List ℕ)
sized false size (ok rest) = ok (0 ∷ rest)
sized true (ok size) (ok rest) = ok (size ∷ rest)
sized true (err e) rest = err e
sized true panic rest = panic
sized b size (err e) = err e
sized b size panic = panic

unfoldable pub downloaded_sizes : Info → ℕ → List Bool → Outcome (List ℕ)
downloaded_sizes info i [] = ok []
downloaded_sizes info i (b ∷ bs) = sized b (piece_len info i) (downloaded_sizes info (i + 1) bs)

-- the pieces that are there, how many, and whether files are missing (`TorrentFilesMissing`)
pub record Downloaded : Type 0 where
  pub bitfield : List Bool
  pub count : ℕ
  pub files_missing : Bool

-- What is sent to the daemon: the bitfield, whether the status is the error for missing files, and
-- whether the torrent is complete, which moves its metainfo.
pub record Added : Type 0 where
  pub bitfield : List Bool
  pub files_missing : Bool
  pub is_complete : Bool

module _ (sha1 : List ℕ → List ℕ) where
  unfoldable pub verify_all : Info → ℕ → List (FileMetadata × List ℕ) → ℕ → ℕ → List Bool
  verify_all info total_size mmaps zero i = []
  verify_all info total_size mmaps (suc k) i =
      verify_piece sha1 i mmaps info.piece_length total_size (hash_at i info.pieces)
      ∷ verify_all info total_size mmaps k (i + 1)

module _ (missing : FilePath → Outcome (List ℕ)) (make_parent : FilePath → Outcome (Unit {0})) where
  unfoldable pub pre_alloc_files : List FileMetadata → Files → Outcome (Unit {0}) × Files
  pre_alloc_files [] files = (ok tt, files)
  pre_alloc_files (f ∷ fs) files =
      allocated f (make_parent f.path) (get_map missing f.path (lookup bytes_discrete f.path files))
        files (λ files'. pre_alloc_files fs files')

  module _ (sha1 : List ℕ → List ℕ) where
    abbrev pub with_sizes :
        Info → TorrentData → List Bool → Bool → Outcome (List ℕ) → Disk → Outcome Downloaded × Disk
    with_sizes info t bits failed (ok sizes) d = (
      ok (record { bitfield = bits; count = ones bits; files_missing = failed }),
      put_torrent info.info_hash (record t { downloaded_per_piece = sizes }) d,
    )
    with_sizes info t bits failed (err e) d = (err e, d)
    with_sizes info t bits failed panic d = (panic, d)

    -- `chunks_exact` leaves out a hash that is too short, and the index of its piece panics
    abbrev pub with_maps :
        Info
        → TorrentData
        → Outcome (List (FileMetadata × List ℕ) × Bool)
        → Disk
        → Outcome Downloaded × Disk
    with_maps info t (ok (mmaps, failed)) d =
        let bits = verify_all sha1 info t.torrent_cache.total_size mmaps (pieces info) 0 in
        if length info.pieces % 20 == 0
        then with_sizes info t bits failed (downloaded_sizes info 0 bits) d
        else (panic, d)
    with_maps info t (err e) d = (err e, d)
    with_maps info t panic d = (panic, d)

    abbrev pub downloaded_of : Info → Option TorrentData → Disk → Outcome Downloaded × Disk
    downloaded_of info none d = (err torrent_does_not_exist, d)
    downloaded_of info (some t) d =
        with_maps info t (preopen_files missing t.torrent_cache.file_metadata d.files) d

    unfoldable pub compute_downloaded_pieces : Info → Disk → Outcome Downloaded × Disk
    unfolding verify_all downloaded_sizes
    compute_downloaded_pieces info d = downloaded_of info (get_torrent info.info_hash d) d

    abbrev pub added : Info → Outcome Downloaded × Disk → Outcome Added × Disk
    added info (ok r, d) = (
      ok (record {
        bitfield = r.bitfield;
        files_missing = r.files_missing;
        is_complete = leb (pieces info) r.count;
      }),
      d,
    )
    added info (err e, d) = (err e, d)
    added info (panic, d) = (panic, d)

    abbrev pub after_alloc : Info → Outcome (Unit {0}) × Files → Disk → Outcome Added × Disk
    after_alloc info (ok _, files) d =
        added info (compute_downloaded_pieces info (record d { files = files }))
    after_alloc info (err e, files) d = (err e, record d { files = files })
    after_alloc info (panic, files) d = (panic, record d { files = files })

    -- only a torrent that was queued is given its files
    abbrev pub alloc_in : MetadataDir → List FileMetadata → Files → Outcome (Unit {0}) × Files
    alloc_in MetadataDir.queue fs files = pre_alloc_files fs files
    alloc_in _ fs files = (ok tt, files)

    abbrev pub files_of : Option TorrentData → List FileMetadata
    files_of none = []
    files_of (some t) = t.torrent_cache.file_metadata

    -- The layout is computed of a torrent that was just put in, which cannot fail; the default
    -- strategy sorts a queue that is empty.
    unfoldable pub new_torrent : FilePath → Info → MetadataDir → Disk → Outcome Added × Disk
    unfolding pre_alloc_files compute_downloaded_pieces
    new_torrent download_dir info dir d =
        let d1 = (compute_torrent_cache download_dir info (new_torrent_data info d)).1 in
        after_alloc info (alloc_in dir (files_of (get_torrent info.info_hash d1)) d1.files) d1
