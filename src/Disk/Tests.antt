-- ===== src/Disk/Tests.antt =====
-- Runs of the disk on a torrent of two small files, and its theorems at concrete inputs.
use vincenzo.Prelude.{
  ℕ, ◌≡◌, refl, sym, true, false, none, some, List, [], ◌∷◌, ◌++◌, take, if◌then◌else◌, arith,
}
use vincenzo.Prelude.HashMap.{lookup, insert}
use vincenzo.Prelude.Keys.{bytes_discrete}
use vincenzo.Outcome.{Outcome, ok, err, panic, piece_invalid}
use vincenzo.Wire.Message.{Block, info_of_block}
use vincenzo.Torrent.Bits.{plain, plain-IsBits}
use vincenzo.Torrent.Info.{Info, pieces, get_torrent_size, piece_len, get_block_infos_of_piece}
use vincenzo.Disk.State.{
  FilePath, InfoHash, TorrentCache, TorrentData, TorrentMsg, PieceStrategy, Disk, piece_length,
}
use vincenzo.Disk.Layout.{push, extend, base_path, place_files, cache_of}
use vincenzo.Disk.Write.{apply_ops}
use vincenzo.Disk.Hashes.{hash_at, verify_piece, validate_piece}
use vincenzo.Disk.Parts.{opened}
use vincenzo.Disk.Blocks.{find_file, read_block, write_block, on_write_block, is_piece_downloaded}
use vincenzo.Disk.Queues.{request_blocks, blocks_of_pieces}
use vincenzo.Disk.Image.{IsDistinct}
use vincenzo.Disk.LastBytes.{HasBytes}
use vincenzo.Disk.Sizes.{IsWhole}
use vincenzo.Disk.Validation.{IsLoaded, torrent_bytes, validate_piece-verify_piece}
use vincenzo.Disk.Arrival.{Settled, with_block, hash_fits}
use vincenzo.Disk.Settle.{write_block-Settled}
use vincenzo.Disk.Reading.{Reads, read_block-Reads, read_block-write_block}
use vincenzo.Disk.HandedOut.{HandsOut, request_blocks-HandsOut}
use vincenzo.Disk.Honest.{IsHonest}
use vincenzo.Disk.Steps.{Reach, here, next, write, Reach-IsHonest}
use vincenzo.Disk.Resume.{MetadataDir, new_torrent}
use vincenzo.Disk.TakenUp.{TakesUp, new_torrent-TakesUp}

-- 20 bytes, the first of which are those that are hashed
abbrev first_twenty : List ℕ → List ℕ
first_twenty bs =
    take 20
      (bs ++ 0 ∷ 0 ∷ 0 ∷ 0 ∷ 0 ∷ 0 ∷ 0 ∷ 0 ∷ 0 ∷ 0 ∷ 0 ∷ 0 ∷ 0 ∷ 0 ∷ 0 ∷ 0 ∷ 0 ∷ 0 ∷ 0 ∷ 0 ∷ [])

-- a file that is opened is made, empty
abbrev made : FilePath → Outcome (List ℕ)
made p = ok []

abbrev folder_made : FilePath → Outcome (Unit {0})
folder_made p = ok tt

abbrev downloads : FilePath
downloads = 47 ∷ 100 ∷ []

-- files of 3 and 4 bytes, in pieces of 4
abbrev small_info : Info
small_info = record {
  cross_seed_entry = none;
  file_length = none;
  files = some (
      record { length = 3; path = (97 ∷ []) ∷ [] }
      ∷ record { length = 4; path = (98 ∷ []) ∷ [] }
      ∷ []);
  name = 116 ∷ [];
  piece_length = 4;
  pieces = first_twenty (1 ∷ 2 ∷ 3 ∷ 4 ∷ []) ++ first_twenty (5 ∷ 6 ∷ 7 ∷ []);
  source = none;
  metadata_size = 0;
  info_hash = 9 ∷ [];
}

abbrev path_a : FilePath
path_a = 47 ∷ 100 ∷ 47 ∷ 116 ∷ 47 ∷ 97 ∷ []

abbrev path_b : FilePath
path_b = 47 ∷ 100 ∷ 47 ∷ 116 ∷ 47 ∷ 98 ∷ []

abbrev small_cache : TorrentCache
small_cache = record {
  file_metadata =
      record { path = path_a; start_offset = 0; length = 3 }
      ∷ record { path = path_b; start_offset = 3; length = 4 }
      ∷ [];
  piece_length = 4;
  num_pieces = 2;
  total_size = 7;
}

small_layout : cache_of downloads small_info ≡ small_cache
unfolding cache_of base_path push extend place_files pieces get_torrent_size
small_layout = refl

small_IsWhole : IsWhole small_info
unfolding pieces get_torrent_size
small_IsWhole = record {
  hashes = refl;
  has_pieces = omega arith;
  long = omega arith;
  last_starts = omega arith;
  last_ends = omega arith;
  fits = omega arith;
}

small_HasBytes : HasBytes (cache_of downloads small_info).file_metadata
small_HasBytes = rw small_layout (omega arith)

small_IsDistinct : IsDistinct (cache_of downloads small_info).file_metadata
small_IsDistinct = rw small_layout (((λ e. ground arith), tt), (tt, tt))

abbrev small_torrent : TorrentData
small_torrent = record {
  downloaded_per_piece = 0 ∷ 0 ∷ [];
  endgame = false;
  piece_tracker = 0 ∷ 0 ∷ [];
  torrent_info = small_info;
  metadata_pieces = [];
  piece_strategy = PieceStrategy.sequential;
  queue = record { index = 1; begin = 0; len = 3 } ∷ record { index = 0; begin = 0; len = 4 } ∷ [];
  torrent_cache = small_cache;
}

abbrev small_disk : Disk
small_disk = record {
  torrents = (9 ∷ [], small_torrent) ∷ [];
  files = (path_a, 0 ∷ 0 ∷ 0 ∷ []) ∷ (path_b, 0 ∷ 0 ∷ 0 ∷ 0 ∷ []) ∷ [];
  sent = [];
}

abbrev empty_disk : Disk
empty_disk = record { torrents = []; files = []; sent = [] }

small_IsLoaded : IsLoaded downloads small_torrent small_disk.files
unfolding lookup bytes_discrete
small_IsLoaded = record {
  cached = sym small_layout;
  whole = small_IsWhole;
  bytes = small_HasBytes;
  distinct = small_IsDistinct;
  mapped = rw small_layout (refl, refl, (refl, refl, tt));
}

abbrev own_hash : InfoHash
own_hash = 9 ∷ []

-- the whole first piece, which lies in both files
abbrev a_block : Block
a_block = record { index = 0; begin = 0; block = 1 ∷ 2 ∷ 3 ∷ 4 ∷ [] }

-- the second piece, which lies in the second file
abbrev b_block : Block
b_block = record { index = 1; begin = 0; block = 5 ∷ 6 ∷ 7 ∷ [] }

written_files :
    (write_block made first_twenty own_hash a_block small_disk).1.files
    ≡ (path_a, 1 ∷ 2 ∷ 3 ∷ []) ∷ (path_b, 4 ∷ 0 ∷ 0 ∷ 0 ∷ []) ∷ []
unfolding write_block apply_ops lookup insert bytes_discrete is_piece_downloaded piece_length
    validate_piece piece_len pieces get_torrent_size
written_files = refl

written_news :
    (write_block made first_twenty own_hash a_block small_disk).1.sent
    ≡ (own_hash, TorrentMsg.downloaded_piece 0) ∷ []
unfolding write_block apply_ops lookup insert bytes_discrete is_piece_downloaded piece_length
    validate_piece piece_len pieces get_torrent_size
written_news = refl

-- a block that goes on in the next file is not read
read_across : (read_block made own_hash (info_of_block a_block) 1 small_disk).0 ≡ panic
unfolding read_block lookup bytes_discrete info_of_block
read_across = refl

write_block-Settled_example :
    Settled downloads own_hash a_block small_torrent 0 small_disk true
      (hash_fits first_twenty small_info 0
        (with_block downloads small_info a_block small_disk.files))
      (write_block made first_twenty own_hash a_block small_disk)
unfolding lookup bytes_discrete pieces get_torrent_size
write_block-Settled_example =
    write_block-Settled made first_twenty downloads own_hash a_block small_torrent small_disk 0
      small_IsLoaded refl refl (omega arith) refl

read_block-write_block_example :
    (read_block made own_hash
      (info_of_block b_block)
      1
      (write_block made first_twenty own_hash b_block small_disk).1).0
    ≡ ok (5 ∷ 6 ∷ 7 ∷ [])
unfolding lookup bytes_discrete pieces get_torrent_size find_file
read_block-write_block_example =
    read_block-write_block made first_twenty downloads own_hash b_block 1 small_torrent small_disk 0
      (record { path = path_b; start_offset = 3; length = 4 }) small_IsLoaded refl refl
      (omega arith) refl (omega arith) (rw small_layout) (omega arith)

read_block-Reads_example :
    Reads
      (cache_of downloads small_info).file_metadata
      4
      3
      (torrent_bytes downloads small_info small_disk.files)
      (read_block made own_hash (info_of_block b_block) 1 small_disk).0
unfolding lookup bytes_discrete get_torrent_size info_of_block
read_block-Reads_example =
    read_block-Reads made downloads own_hash (info_of_block b_block) 1 small_torrent small_disk refl
      small_IsLoaded (omega arith)

validate_piece-verify_piece_example :
    validate_piece made first_twenty small_torrent small_disk.files 1 ≡ (
      if verify_piece first_twenty 1
        (opened small_disk.files small_cache.file_metadata)
        4
        7
        (hash_at 1 small_info.pieces)
      then ok tt
      else err piece_invalid)
unfolding pieces
validate_piece-verify_piece_example =
    validate_piece-verify_piece first_twenty made downloads small_torrent small_disk.files 1
      small_IsLoaded (omega arith)

new_torrent-TakesUp_example :
    TakesUp made folder_made
      (λ p. refl)
      (λ p. refl)
      first_twenty
      downloads
      small_info
      (new_torrent made folder_made first_twenty downloads small_info MetadataDir.queue empty_disk)
new_torrent-TakesUp_example =
    new_torrent-TakesUp made folder_made (λ p. refl) (λ p. refl) first_twenty downloads small_info
      empty_disk small_IsWhole small_HasBytes small_IsDistinct tt

request_blocks-HandsOut_example :
    HandsOut own_hash
      (true ∷ false ∷ [])
      0
      small_torrent
      (record { index = 1; begin = 0; len = 3 } ∷ [])
      small_disk
      (request_blocks plain own_hash (1 ∷ []) (true ∷ false ∷ []) 0 small_disk)
unfolding lookup bytes_discrete blocks_of_pieces get_block_infos_of_piece
request_blocks-HandsOut_example =
    request_blocks-HandsOut plain own_hash (1 ∷ []) (true ∷ false ∷ []) 0 small_torrent
      (record { index = 1; begin = 0; len = 3 } ∷ []) small_disk plain-IsBits refl refl refl

-- both pieces arrive, the second one first with a wrong byte
abbrev bad_block : Block
bad_block = record { index = 1; begin = 0; block = 5 ∷ 6 ∷ 8 ∷ [] }

abbrev after : Block → Disk → Disk
after b d = (on_write_block made first_twenty own_hash b d).1

three_blocks :
    Reach plain made first_twenty downloads own_hash small_info small_disk
      (after a_block (after b_block (after bad_block small_disk)))
unfolding get_torrent_size
three_blocks =
    next (next (next here (write bad_block (omega arith) refl)) (write b_block (omega arith) refl))
      (write a_block (omega arith) refl)

small_IsHonest : IsHonest first_twenty downloads own_hash small_info small_disk
unfolding lookup bytes_discrete pieces
small_IsHonest = record {
  torrent = small_torrent;
  found = refl;
  same_info = refl;
  loaded = small_IsLoaded;
  counted = omega arith;
  told = tt;
}

Reach-IsHonest_example :
    IsHonest first_twenty downloads own_hash small_info
      (after a_block (after b_block (after bad_block small_disk)))
Reach-IsHonest_example =
    Reach-IsHonest plain made first_twenty downloads own_hash small_info small_IsHonest three_blocks
