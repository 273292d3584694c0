-- ===== src/Disk/State.antt =====
-- The state of `Disk` (crates/vcz-lib/src/disk.rs): the torrents by info hash, what their mapped files
-- hold, and the messages that were sent to the torrents. Paths and hashes are their bytes.
use vincenzo.Prelude.{
  ℕ, ◌+◌, ◌-◌, ◌^◌, ◌%◌, Bool, false, not, Option, none, some, List, [], ◌∷◌, ◌++◌, ◌==◌,
  if◌then◌else◌,
}
use vincenzo.Prelude.HashMap.{lookup, insert}
use vincenzo.Prelude.Keys.{bytes_discrete}
use vincenzo.Outcome.{Outcome, ok, err, panic, torrent_does_not_exist}
use vincenzo.Wire.Message.{BlockInfo}
use vincenzo.Torrent.Info.{Info}
use vincenzo.Torrent.Pause.{TorrentStatusErrorCode}

abbrev pub InfoHash : Type 0
InfoHash = List ℕ

abbrev pub FilePath : Type 0
FilePath = List ℕ

-- `usize::MAX`
abbrev pub usize_max : ℕ
usize_max = 18446744073709551615

pub data PieceStrategy : Type 0 where
  random sequential : PieceStrategy

pub record FileMetadata : Type 0 where
  pub path : FilePath
  pub start_offset : ℕ
  pub length : ℕ

pub record TorrentCache : Type 0 where
  pub file_metadata : List FileMetadata
  pub piece_length : ℕ
  pub num_pieces : ℕ
  pub total_size : ℕ

-- a `MetadataPiece` is its number
pub record TorrentData : Type 0 where
  pub downloaded_per_piece : List ℕ
  pub endgame : Bool
  pub piece_tracker : List ℕ
  pub torrent_info : Info
  pub metadata_pieces : List ℕ
  pub piece_strategy : PieceStrategy
  pub queue : List BlockInfo
  pub torrent_cache : TorrentCache

-- the messages that the disk sends to a torrent
pub data TorrentMsg : Type 0 where
  endgame : TorrentMsg
  set_torrent_error : TorrentStatusErrorCode → TorrentMsg
  corrupted_piece downloaded_piece : ℕ → TorrentMsg

-- What the files hold, by path: both caches map the same files, shared.
abbrev pub Files : Type 0
Files = List (FilePath × List ℕ)

pub record Disk : Type 0 where
  pub torrents : List (InfoHash × TorrentData)
  pub files : Files
  pub sent : List (InfoHash × TorrentMsg)

abbrev pub get_torrent : InfoHash → Disk → Option TorrentData
get_torrent hash d = lookup bytes_discrete hash d.torrents

abbrev pub put_torrent : InfoHash → TorrentData → Disk → Disk
put_torrent hash t d = record d { torrents = insert bytes_discrete hash t d.torrents }

abbrev pub send : InfoHash → TorrentMsg → Disk → Disk
send hash msg d = record d { sent = d.sent ++ (hash, msg) ∷ [] }

-- `torrent_data!`, where the torrent is only read
abbrev pub with_torrent {ℓ} :
    {A : Type ℓ} → Option TorrentData → (TorrentData → Outcome A) → Outcome A
with_torrent none f = err torrent_does_not_exist
with_torrent (some t) f = f t

-- `TorrentCache::piece_length`: without pieces the last number wraps, and a remainder by 0 panics.
unfoldable pub piece_length : TorrentCache → ℕ → Outcome ℕ
piece_length c piece =
    let rem = c.total_size % c.piece_length in
    if not (piece == (c.num_pieces + (2 ^ 64 - 1)) % 2 ^ 64)
    then ok c.piece_length
    else if c.piece_length == 0
    then panic
    else if rem == 0
    then ok c.piece_length
    else ok rem

-- `new_torrent_data`
unfoldable pub new_torrent_data : Info → Disk → Disk
new_torrent_data info = put_torrent info.info_hash (record {
  downloaded_per_piece = [];
  endgame = false;
  piece_tracker = [];
  torrent_info = info;
  metadata_pieces = [];
  piece_strategy = PieceStrategy.sequential;
  queue = [];
  torrent_cache = record { file_metadata = []; piece_length = 0; num_pieces = 0; total_size = 0 };
})
