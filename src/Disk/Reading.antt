-- ===== src/Disk/Reading.antt =====
-- What is read of a torrent: the bytes at the block's place, as far as they lie in one file.
use vincenzo.Prelude.{
  ℕ, ◌+◌, ◌-◌, ◌*◌, ◌≤◌, ◌<◌, ◌≡◌, sym, ◌∙◌, ap, subst, get_elem?, ◌==◌, true, false, some, List,
  length, take, drop, leb, le→leb, lt→leb, leb→le, leb→lt, if◌then◌else◌, Bool-cases, inl, inr,
  arith,
}
use vincenzo.Prelude.Slices.{take-drop-overwrite}
use vincenzo.Outcome.{Outcome, ok, panic}
use vincenzo.Wire.Message.{Block, BlockInfo, info_of_block}
use vincenzo.Torrent.Info.{Info, pieces, get_torrent_size}
use vincenzo.Disk.State.{
  usize_max, FilePath, InfoHash, Files, FileMetadata, TorrentData, Disk, get_torrent,
}
use vincenzo.Disk.Layout.{cache_of}
use vincenzo.Disk.Blocks.{find_file, read_block, write_block}
use vincenzo.Disk.Image.{content, image, length-image}
use vincenzo.Disk.Found.{find_file-le, Found, find_file-Found}
use vincenzo.Disk.Sizes.{cache_of-IsLaid}
use vincenzo.Disk.Validation.{IsLoaded, torrent_bytes}
use vincenzo.Disk.Settle.{write_block-Settled}

-- A byte of the torrent lies in a file, up to whose end a block from there on is read.
pub record Reads (fs : List FileMetadata) (at len : ℕ) (bs : List ℕ) (r : Outcome (List ℕ))
    : Type 0 where
  pub file : FileMetadata
  pub is_first : find_file at fs ≡ some file
  pub starts : file.start_offset ≤ at
  pub ends : at < file.start_offset + file.length
  pub reads : r ≡ (
      if leb (at + len) (file.start_offset + file.length)
      then ok (take len (drop at bs))
      else panic)

module _ (files : Files) (at total len : ℕ) (inside : at < total) (fs : List FileMetadata) where
  -- the range that is asked of the file, and the one of the torrent
  slice-eq :
      (f : Found files at total inside 0 fs)
      → (if leb (at - f.file.start_offset + len) (length (content f.file.path files))
          then ok (take len (drop (at - f.file.start_offset) (content f.file.path files)))
          else panic)
        ≡ (if leb (at + len) (f.file.start_offset + f.file.length)
            then ok (take len (drop at (image fs files)))
            else panic)
  slice-eq f =
      let zero_on : at - 0 ≡ at = omega arith in
      elim (Bool-cases (leb (at + len) (f.file.start_offset + f.file.length))) [
        | inl t ↦
            let fits : leb (at - f.file.start_offset + len) (length (content f.file.path files))
                ≡ true =
              le→leb _ _ (omega (arith, leb→le _ _ t, f.starts, f.long)) in
            rw (t, fits) (ap ok (f.reads len (leb→le _ _ t) ∙ rw zero_on))
        | inr n ↦
            let long : leb (at - f.file.start_offset + len) (length (content f.file.path files))
                ≡ false =
              lt→leb _ _ (omega (arith, leb→lt _ _ n, f.starts, f.long)) in
            rw (n, long)
      ]

module _ (missing : FilePath → Outcome (List ℕ)) (download_dir : FilePath) (hash : InfoHash)
    (b : BlockInfo) (now : ℕ) where
  -- Take a torrent with its layout computed, whose info is well formed (a whole hash for each
  -- piece, sizes that agree), none of whose files is empty, and each of whose files is there with
  -- its full length under a path of its own. A block that starts within it is the torrent's bytes
  -- at its place, where it ends in the file that it starts in; a block that goes on in the next
  -- file is not read but a panic.
  pub read_block-Reads :
      (t : TorrentData) (d : Disk)
      → get_torrent hash d ≡ some t
      → IsLoaded download_dir t d.files
      → b.index * t.torrent_info.piece_length + b.begin < get_torrent_size t.torrent_info
      → Reads
          (cache_of download_dir t.torrent_info).file_metadata
          (b.index * t.torrent_info.piece_length + b.begin)
          b.len
          (torrent_bytes download_dir t.torrent_info d.files)
          (read_block missing hash b now d).0
  unfolding read_block cache_of
  read_block-Reads t d e l h =
      let info = t.torrent_info in
      let at = b.index * info.piece_length + b.begin in
      let fs = (cache_of download_dir info).file_metadata in
      let f =
        find_file-Found d.files at (get_torrent_size info) h 0 fs
          (cache_of-IsLaid download_dir info) l.mapped (omega arith) in
      let place : b.index * t.torrent_cache.piece_length + b.begin ≡ at =
        ap (λ c. b.index * c.piece_length + b.begin) l.cached in
      let named : find_file (b.index * t.torrent_cache.piece_length + b.begin)
            t.torrent_cache.file_metadata
          ≡ some f.file =
        ap (λ c. find_file (b.index * c.piece_length + b.begin) c.file_metadata) l.cached
        ∙ f.is_found in
      record {
        file = f.file;
        is_first = f.is_found;
        starts = f.starts;
        ends = f.ends;
        reads =
            rw (e, named, f.opens, place)
              (slice-eq d.files at (get_torrent_size info) b.len h fs f);
      }

  -- the same of a torrent whose info is known
  read_block-Reads_as :
      (info : Info) (t : TorrentData) (d : Disk)
      → t.torrent_info ≡ info
      → get_torrent hash d ≡ some t
      → IsLoaded download_dir t d.files
      → b.index * info.piece_length + b.begin < get_torrent_size info
      → Reads
          (cache_of download_dir info).file_metadata
          (b.index * info.piece_length + b.begin)
          b.len
          (torrent_bytes download_dir info d.files)
          (read_block missing hash b now d).0
  read_block-Reads_as info t d same e l h =
      subst
        (λ i.
          Reads (cache_of download_dir i).file_metadata (b.index * i.piece_length + b.begin) b.len
            (torrent_bytes download_dir i d.files) (read_block missing hash b now d).0)
        same
        (read_block-Reads t d e l
          (subst (λ i. b.index * i.piece_length + b.begin < get_torrent_size i) (sym same) h))

-- Of what is read, the file is the one that is asked for.
Reads-take :
    (fs : List FileMetadata) (at len : ℕ) (bs : List ℕ) (r : Outcome (List ℕ)) (f : FileMetadata)
    → Reads fs at len bs r
    → find_file at fs ≡ some f
    → at + len ≤ f.start_offset + f.length
    → r ≡ ok (take len (drop at bs))
Reads-take fs at len bs r f w e h =
    let same : w.file ≡ f = cc w.is_first in
    w.reads ∙ rw (same, le→leb (at + len) (f.start_offset + f.length) h)

-- Take a torrent with its layout computed, whose info is well formed (a whole hash for each piece, sizes
-- that agree), none of whose files is empty, and each of whose files is there with its full length under
-- a path of its own. A block of an unchecked piece of it that is written is read back, whatever the hash
-- of its piece says, where it lies in one file.
pub read_block-write_block :
    (missing : FilePath → Outcome (List ℕ)) (sha1 : List ℕ → List ℕ) (download_dir : FilePath)
    (hash : InfoHash) (b : Block) (now : ℕ) (t : TorrentData) (d : Disk) (n : ℕ) (f : FileMetadata)
    → IsLoaded download_dir t d.files
    → get_torrent hash d ≡ some t
    → get_elem? t.downloaded_per_piece b.index ≡ some n
    → b.index < pieces t.torrent_info
    → (n == usize_max) ≡ false
    → b.index * t.torrent_info.piece_length + b.begin < get_torrent_size t.torrent_info
    → find_file
        (b.index * t.torrent_info.piece_length + b.begin)
        (cache_of download_dir t.torrent_info).file_metadata
      ≡ some f
    → b.index * t.torrent_info.piece_length + b.begin + length b.block ≤ f.start_offset + f.length
    → (read_block missing hash (info_of_block b) now (write_block missing sha1 hash b d).1).0
      ≡ ok b.block
unfolding info_of_block
read_block-write_block missing sha1 download_dir hash b now t d n f l e c i u h first ends =
    let info = t.torrent_info in
    let at = b.index * info.piece_length + b.begin in
    let fs = (cache_of download_dir info).file_metadata in
    let laid = cache_of-IsLaid download_dir info in
    let s = write_block-Settled missing sha1 download_dir hash b t d n l e c i u in
    Reads-take (cache_of download_dir info).file_metadata at (length b.block) _ _ f
      (read_block-Reads_as missing download_dir hash (info_of_block b) now info s.torrent
        (write_block missing sha1 hash b d).1 s.keeps_info s.found s.loaded h)
      first ends
    ∙ ap ok (
        rw s.bytes (
          take-drop-overwrite at b.block (torrent_bytes download_dir info d.files) (
            omega (
              arith,
              find_file-le at 0 (get_torrent_size info) fs f laid first,
              length-image 0 (get_torrent_size info) fs d.files laid l.mapped,
            ))))
