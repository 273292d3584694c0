-- ===== src/Disk/Layout.antt =====
-- Where the files of a torrent lie: `base_path` and `compute_torrent_cache` of
-- crates/vcz-lib/src/disk.rs, with `PathBuf::push` of std on Unix.
use vincenzo.Prelude.{
  ℕ, zero, suc, ◌+◌, Bool, true, false, Option, none, some, List, [], ◌∷◌, ◌++◌, ◌==◌,
  if◌then◌else◌,
}
use vincenzo.Outcome.{Outcome, ok, err, torrent_does_not_exist}
use vincenzo.Torrent.Info.{File, Info, pieces, get_torrent_size}
use vincenzo.Disk.State.{
  FilePath, FileMetadata, TorrentCache, TorrentData, Disk, get_torrent, put_torrent,
}

-- the byte of '/'
abbrev pub slash : ℕ
slash = 47

abbrev starts_at_root : List ℕ → Bool
starts_at_root [] = false
starts_at_root (c ∷ cs) = c == slash

abbrev wants_slash : List ℕ → Bool
wants_slash [] = false
wants_slash (c ∷ []) = if c == slash then false else true
wants_slash (c ∷ d ∷ cs) = wants_slash (d ∷ cs)

-- `PathBuf::push`: an absolute path replaces the one that it is pushed to
unfoldable pub push : FilePath → List ℕ → FilePath
push base name =
    if starts_at_root name
    then name
    else if wants_slash base
    then base ++ slash ∷ name
    else base ++ name

-- `path.extend(&file.path)`
unfoldable pub extend : FilePath → List (List ℕ) → FilePath
unfolding push
extend base [] = base
extend base (name ∷ names) = extend (push base name) names

-- `get_torrent` panics at the unwrap where the torrent is unknown; the callers have just read it.
unfoldable pub base_path : FilePath → Info → FilePath
unfolding push
base_path download_dir info = push download_dir info.name

unfoldable pub place_files : FilePath → ℕ → List File → List FileMetadata
unfolding extend
place_files base offset [] = []
place_files base offset (f ∷ fs) =
    record { path = extend base f.path; start_offset = offset; length = f.length }
    ∷ place_files base (offset + f.length) fs

abbrev pub or_zero : Option ℕ → ℕ
or_zero none = 0
or_zero (some n) = n

abbrev pub place_all : FilePath → Option (List File) → Option ℕ → List FileMetadata
place_all base (some files) file_length = place_files base 0 files
place_all base none file_length =
    record { path = base; start_offset = 0; length = or_zero file_length } ∷ []

abbrev pub zeros : ℕ → List ℕ
zeros zero = []
zeros (suc n) = 0 ∷ zeros n

-- what `compute_torrent_cache` makes of the torrent's info
unfoldable pub cache_of : FilePath → Info → TorrentCache
unfolding base_path pieces get_torrent_size
cache_of download_dir info = record {
  file_metadata = place_all (base_path download_dir info) info.files info.file_length;
  piece_length = info.piece_length;
  num_pieces = pieces info;
  total_size = get_torrent_size info;
}

abbrev pub cached : FilePath → Info → Option TorrentData → Disk → Outcome (Unit {0}) × Disk
cached download_dir info none d = (err torrent_does_not_exist, d)
cached download_dir info (some t) d = (
  ok tt,
  put_torrent info.info_hash
      (record t { piece_tracker = zeros (pieces info); torrent_cache = cache_of download_dir info })
      d,
)

unfoldable pub compute_torrent_cache : FilePath → Info → Disk → Outcome (Unit {0}) × Disk
unfolding cache_of
compute_torrent_cache download_dir info d =
    cached download_dir info (get_torrent info.info_hash d) d
