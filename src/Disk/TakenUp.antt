-- ===== src/Disk/TakenUp.antt =====
-- A queued torrent, taken up: its files, its bitfield and what is announced of it.
use vincenzo.Prelude.{
  ◌≢◌, All, ℕ, ◌%◌, ◌≡◌, refl, sym, ◌∙◌, ap, Bool, true, false, some, List, [], ◌∷◌, length, leb,
  ◌==◌, Option-cases, inl, inr, arith,
}
use mathlib.Core.Logic.{if_pos}
use vincenzo.Prelude.HashMap.{lookup, insert, lookup-insert}
use vincenzo.Prelude.Keys.{bytes_discrete}
use vincenzo.Outcome.{Outcome, ok}
use vincenzo.Torrent.Bits.{ones}
use vincenzo.Torrent.Info.{Info, pieces, get_torrent_size}
use vincenzo.Disk.State.{
  FilePath, InfoHash, TorrentMsg, Files, FileMetadata, TorrentData, PieceStrategy, Disk,
  get_torrent, put_torrent, new_torrent_data,
}
use vincenzo.Disk.Layout.{zeros, cache_of, compute_torrent_cache}
use vincenzo.Disk.Write.{get_map}
use vincenzo.Disk.Hashes.{preopen_files}
use vincenzo.Disk.Image.{
  IsAway, IsDistinct, IsMapped, content, lookup-insert_self, lookup-insert_away,
}
use vincenzo.Disk.LastBytes.{HasBytes}
use vincenzo.Disk.Parts.{opened, preopen_files-opened}
use vincenzo.Disk.Sizes.{IsWhole}
use vincenzo.Disk.Validation.{torrent_bytes}
use vincenzo.Disk.Arrival.{with_first}
use vincenzo.Disk.Fitting.{
  length-resize, fitting, sizes_of, length-fitting, length-sizes_of, downloaded_sizes-eq,
  verify_all-fitting,
}
use vincenzo.Disk.Honest.{IsHonest, Told}
use vincenzo.Disk.Resume.{
  added, MetadataDir, Added, resize, pre_alloc_files, compute_downloaded_pieces, new_torrent,
}

module _ (missing : FilePath → Outcome (List ℕ)) (make_parent : FilePath → Outcome (Unit {0}))
    (opens : (p : FilePath) → missing p ≡ ok [])
    (makes : (p : FilePath) → make_parent p ≡ ok tt) where
  get_map-content :
      (p : FilePath) (files : Files)
      → get_map missing p (lookup bytes_discrete p files) ≡ ok (content p files)
  get_map-content p files = elim (Option-cases (lookup bytes_discrete p files)) [
    | inl e ↦ rw e (opens p)
    | inr (bs, e) ↦ rw e
  ]

  record Allocated (fs : List FileMetadata) (files : Files) (r : Outcome (Unit {0}) × Files)
      : Type 0 where
    done : r.0 ≡ ok tt
    mapped : IsMapped fs r.1
    others :
        (p : FilePath) → IsAway p fs → lookup bytes_discrete p r.1 ≡ lookup bytes_discrete p files

  pre_alloc_files-Allocated :
      (fs : List FileMetadata) (files : Files)
      → IsDistinct fs
      → Allocated fs files (pre_alloc_files missing make_parent fs files)
  unfolding pre_alloc_files
  pre_alloc_files-Allocated [] files d = record { done = refl; mapped = tt; others = λ p a. refl }
  pre_alloc_files-Allocated (f ∷ fs) files d =
      let c = resize f.length (content f.path files) in
      let r = pre_alloc_files-Allocated fs (insert bytes_discrete f.path c files) d.1 in
      let here = r.others f.path d.0 ∙ lookup-insert_self f.path c files in
      rw (makes f.path, get_map-content f.path files)
        (record {
          done = r.done;
          mapped = rw here (refl, length-resize f.length (content f.path files), r.mapped);
          others = λ p a. r.others p a.1 ∙ lookup-insert_away f.path c files p (λ e. a.0 (sym e));
        })

  module _ (sha1 : List ℕ → List ℕ) (download_dir : FilePath) (info : Info) where
    abbrev all_bits : Files → List Bool
    all_bits files = fitting sha1 info (torrent_bytes download_dir info files) (pieces info) 0

    -- the torrent as it is while its files are looked at
    abbrev laid_out : TorrentData → TorrentData
    laid_out t = record t {
      piece_tracker = zeros (pieces info);
      torrent_cache = cache_of download_dir info;
    }

    found_after :
        (t' : TorrentData) (d' : Disk)
        → get_torrent info.info_hash (put_torrent info.info_hash t' d') ≡ some t'
    found_after t' d' =
        lookup-insert bytes_discrete info.info_hash info.info_hash t' d'.torrents
        ∙ if_pos (bytes_discrete info.info_hash info.info_hash) refl (some t')
            (lookup bytes_discrete info.info_hash d'.torrents)

    compute-eq :
        (t : TorrentData) (d : Disk)
        → IsWhole info
        → IsMapped (cache_of download_dir info).file_metadata d.files
        → get_torrent info.info_hash d ≡ some t
        → t.torrent_cache ≡ cache_of download_dir info
        → compute_downloaded_pieces missing make_parent sha1 info d ≡ (
          ok (record {
            bitfield = all_bits d.files;
            count = ones (all_bits d.files);
            files_missing = false;
          }),
          put_torrent info.info_hash
              (record t { downloaded_per_piece = sizes_of info 0 (all_bits d.files) })
              d,
        )
    unfolding compute_downloaded_pieces cache_of
    compute-eq t d w m e c =
        let opens_all : preopen_files missing t.torrent_cache.file_metadata d.files
            ≡ ok (opened d.files (cache_of download_dir info).file_metadata, false) =
          ap (λ c. preopen_files missing c.file_metadata d.files) c
          ∙ preopen_files-opened d.files missing (cache_of download_dir info).file_metadata m in
        let total : t.torrent_cache.total_size ≡ get_torrent_size info = ap (λ c. c.total_size) c in
        let whole_hashes : (length info.pieces % 20 == 0) ≡ true = ground (arith, w.hashes) in
        let sizes = downloaded_sizes-eq info w 0 (all_bits d.files) (
          omega (
            arith,
            length-fitting sha1 info (torrent_bytes download_dir info d.files) (pieces info) 0,
          )) in
        rw (
          e,
          opens_all,
          total,
          whole_hashes,
          verify_all-fitting sha1 missing download_dir info d.files m (pieces info) 0,
          sizes,
        )

    -- what a queued torrent is taken up as
    pub record TakesUp (r : Outcome Added × Disk) : Type 0 where
      pub done :
          r.0
          ≡ ok (record {
            bitfield = all_bits r.1.files;
            files_missing = false;
            is_complete = leb (pieces info) (ones (all_bits r.1.files));
          })
      pub honest : IsHonest sha1 download_dir info.info_hash info r.1

    abbrev fresh : TorrentData
    fresh = record {
      downloaded_per_piece = [];
      endgame = false;
      piece_tracker = [];
      torrent_info = info;
      metadata_pieces = [];
      piece_strategy = PieceStrategy.sequential;
      queue = [];
      torrent_cache = record {
        file_metadata = [];
        piece_length = 0;
        num_pieces = 0;
        total_size = 0;
      };
    }

    abbrev with_layout : Disk → Disk
    with_layout d = put_torrent info.info_hash (laid_out fresh) (put_torrent info.info_hash fresh d)

    abbrev ran : Disk → Outcome (Unit {0}) × Files
    ran d = pre_alloc_files missing make_parent (cache_of download_dir info).file_metadata d.files

    new_torrent-eq :
        (d : Disk)
        → (ran d).0 ≡ ok tt
        → new_torrent missing make_parent sha1 download_dir info MetadataDir.queue d
          ≡ added missing make_parent sha1 info (
              compute_downloaded_pieces missing make_parent sha1 info
                (record (with_layout d) { files = (ran d).1 }))
    unfolding new_torrent compute_torrent_cache new_torrent_data
    new_torrent-eq d h =
        let e = found_after (laid_out fresh) (put_torrent info.info_hash fresh d) in
        rw (found_after fresh d, e, with_first (ran d) h, e)

    -- no piece of this torrent
    abbrev pub Unannounced : InfoHash × TorrentMsg → Type 0
    Unannounced (h, TorrentMsg.downloaded_piece i) = h ≢ info.info_hash
    Unannounced (h, _) = Unit

    Unannounced-Told :
        (counts bs : List ℕ) (ms : List (InfoHash × TorrentMsg))
        → All Unannounced ms
        → All (Told sha1 download_dir info.info_hash info counts bs) ms
    Unannounced-Told counts bs [] a = tt
    Unannounced-Told counts bs ((h, TorrentMsg.downloaded_piece i) ∷ ms) a =
        (λ e. absurd (a.0 e), Unannounced-Told counts bs ms a.1)
    Unannounced-Told counts bs ((h, TorrentMsg.corrupted_piece i) ∷ ms) a =
        (tt, Unannounced-Told counts bs ms a.1)
    Unannounced-Told counts bs ((h, TorrentMsg.endgame) ∷ ms) a =
        (tt, Unannounced-Told counts bs ms a.1)
    Unannounced-Told counts bs ((h, TorrentMsg.set_torrent_error c) ∷ ms) a =
        (tt, Unannounced-Told counts bs ms a.1)

    -- A queued torrent is taken up where its files and folders can be made, its info is well formed
    -- (a whole hash for each piece, sizes that agree), none of its files is empty and each has a
    -- path of its own, and no piece of it was announced as downloaded before. Then its files are
    -- there with their lengths, whatever they held before, the bitfield that is sent on has exactly
    -- the pieces whose bytes have their hash, the torrent counts as complete exactly if these are
    -- all, and the disk holds the torrent as taken up, from where its messages go on.
    pub new_torrent-TakesUp :
        (d : Disk)
        → IsWhole info
        → HasBytes (cache_of download_dir info).file_metadata
        → IsDistinct (cache_of download_dir info).file_metadata
        → All Unannounced d.sent
        → TakesUp (new_torrent missing make_parent sha1 download_dir info MetadataDir.queue d)
    new_torrent-TakesUp d w b u s =
        let a = pre_alloc_files-Allocated (cache_of download_dir info).file_metadata d.files u in
        let d1 = record (with_layout d) { files = (ran d).1 } in
        let t2 = record (laid_out fresh) {
          downloaded_per_piece = sizes_of info 0 (all_bits d1.files);
        } in
        rw
          (
            new_torrent-eq d a.done,
            compute-eq (laid_out fresh) d1 w a.mapped
                (found_after (laid_out fresh) (put_torrent info.info_hash fresh d)) refl,
          )
          (record {
            done = refl;
            honest = record {
              torrent = t2;
              found = found_after t2 d1;
              same_info = refl;
              loaded = record {
                cached = refl;
                whole = w;
                bytes = b;
                distinct = u;
                mapped = a.mapped;
              };
              counted = omega (
                arith,
                length-sizes_of info 0 (all_bits d1.files),
                length-fitting sha1 info (torrent_bytes download_dir info d1.files) (pieces info) 0,
              );
              told = Unannounced-Told _ _ d.sent s;
            };
          })
