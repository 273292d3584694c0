-- ===== src/Disk/Queues.antt =====
-- Blocks to ask for: `request_blocks`, `request_metadata` and `enter_endgame` of
-- crates/vcz-lib/src/disk.rs, and what `run` does when blocks and metadata pieces come back and when a
-- download is finished. `block_infos_len` is a counter of the peer that asks.
use vincenzo.Prelude.{
  ℕ, zero, suc, ◌+◌, Bool, true, false, not, ◌&&◌, Option, none, some, List, [], ◌∷◌, ◌++◌, length,
  take, drop, min, ◌==◌, if◌then◌else◌,
}
use mathlib.Core.List.{reverse}
use vincenzo.Outcome.{Outcome, ok, err, panic, torrent_does_not_exist}
use vincenzo.Wire.Message.{BlockInfo, block_len}
use vincenzo.Torrent.Bits.{Bits, safe_get}
use vincenzo.Torrent.Info.{div_ceil, get_block_infos_of_piece}
use vincenzo.Disk.State.{InfoHash, TorrentData, TorrentMsg, Disk, get_torrent, put_torrent, send}

abbrev appended : Outcome (List BlockInfo) → Outcome (List BlockInfo) → Outcome (List BlockInfo)
appended (ok bs) (ok cs) = ok (bs ++ cs)
appended (ok bs) (err e) = err e
appended (ok bs) panic = panic
appended (err e) rest = err e
appended panic rest = panic

-- the blocks of the pieces, in their order
unfoldable pub blocks_of_pieces : ℕ → ℕ → List ℕ → Outcome (List BlockInfo)
blocks_of_pieces total_size piece_length [] = ok []
blocks_of_pieces total_size piece_length (p ∷ ps) =
    appended (get_block_infos_of_piece total_size piece_length p)
      (blocks_of_pieces total_size piece_length ps)

abbrev pub is_empty : List BlockInfo → Bool
is_empty [] = true
is_empty (b ∷ bs) = false

module _ (o : Bits) where
  -- in endgame: a copy of each block whose piece the peer has
  unfoldable pub copy_queue : List Bool → List BlockInfo → List BlockInfo
  copy_queue bits [] = []
  copy_queue bits (b ∷ bs) =
      let (has, bits') = safe_get o b.index bits in
      let rest = copy_queue bits' bs in if has then b ∷ rest else rest

  -- `while let Some(block) = queue.pop_if(..)` on the queue from its end on: the blocks that are
  -- popped, and what stays
  unfoldable pub pop_queue : List Bool → List BlockInfo → List BlockInfo × List BlockInfo
  pop_queue bits [] = ([], [])
  pop_queue bits (b ∷ bs) =
      let (has, bits') = safe_get o b.index bits in
      let (popped, rest) = pop_queue bits' bs in if has then (b ∷ popped, rest) else ([], b ∷ bs)

  unfoldable pub enter_endgame : InfoHash → TorrentData → Disk → Disk
  enter_endgame hash t d =
      if t.endgame
      then d
      else send hash TorrentMsg.endgame (put_torrent hash (record t { endgame = true }) d)

  abbrev pub answer :
      InfoHash → ℕ → TorrentData → List BlockInfo → Disk → Outcome (List BlockInfo) × Disk
  answer hash block_infos_len t result d = (
    ok result,
    (if (block_infos_len == 0 && is_empty result) && not t.endgame
        then enter_endgame hash t d
        else d),
  )

  abbrev pub request_with :
      InfoHash
      → List Bool
      → ℕ
      → TorrentData
      → Outcome (List BlockInfo)
      → Disk
      → Outcome (List BlockInfo) × Disk
  request_with hash bitfield block_infos_len t (err e) d = (err e, d)
  request_with hash bitfield block_infos_len t panic d = (panic, d)
  request_with hash bitfield block_infos_len t (ok blocks) d =
      if t.endgame
      then answer hash block_infos_len t (blocks ++ copy_queue bitfield t.queue) d
      else let (popped, rest) = pop_queue bitfield (reverse t.queue) in
        let t' = record t { queue = reverse rest } in
        answer hash block_infos_len t' (blocks ++ popped) (put_torrent hash t' d)

  abbrev pub request_of :
      InfoHash
      → List ℕ
      → List Bool
      → ℕ
      → Option TorrentData
      → Disk
      → Outcome (List BlockInfo) × Disk
  request_of hash pieces bitfield block_infos_len none d = (err torrent_does_not_exist, d)
  request_of hash pieces bitfield block_infos_len (some t) d =
      request_with hash bitfield block_infos_len t
        (blocks_of_pieces t.torrent_cache.total_size t.torrent_cache.piece_length pieces) d

  unfoldable pub request_blocks :
      InfoHash → List ℕ → List Bool → ℕ → Disk → Outcome (List BlockInfo) × Disk
  unfolding copy_queue pop_queue enter_endgame blocks_of_pieces
  request_blocks hash pieces bitfield block_infos_len d =
      request_of hash pieces bitfield block_infos_len (get_torrent hash d) d

abbrev count_up : ℕ → ℕ → List ℕ
count_up i zero = []
count_up i (suc n) = i ∷ count_up (i + 1) n

-- an empty list is filled up with all the pieces of the metadata
abbrev pub filled : ℕ → List ℕ → List ℕ
filled metadata_size [] = count_up 0 (div_ceil metadata_size block_len)
filled metadata_size (p ∷ ps) = p ∷ ps

abbrev pub metadata_of : InfoHash → ℕ → ℕ → Option TorrentData → Disk → Outcome (List ℕ) × Disk
metadata_of hash qnt metadata_size none d = (err torrent_does_not_exist, d)
metadata_of hash qnt metadata_size (some t) d =
    let metas = filled metadata_size t.metadata_pieces in
    let n = min qnt (length metas) in
    (ok (take n metas), put_torrent hash (record t { metadata_pieces = drop n metas }) d)

unfoldable pub request_metadata : InfoHash → ℕ → ℕ → Disk → Outcome (List ℕ) × Disk
request_metadata hash qnt metadata_size d =
    metadata_of hash qnt metadata_size (get_torrent hash d) d

-- what becomes of a torrent that is there
abbrev pub on_torrent : InfoHash → (TorrentData → TorrentData) → Option TorrentData → Disk → Disk
on_torrent hash f none d = d
on_torrent hash f (some t) d = put_torrent hash (f t) d

-- `ReturnToDisk::Block` and `ReturnToDisk::Metadata`
unfoldable pub return_blocks : InfoHash → List BlockInfo → Disk → Disk
return_blocks hash blocks d =
    on_torrent hash (λ t. record t { queue = t.queue ++ blocks }) (get_torrent hash d) d

unfoldable pub return_metadata : InfoHash → List ℕ → Disk → Disk
return_metadata hash pieces d =
    on_torrent hash (λ t. record t { metadata_pieces = t.metadata_pieces ++ pieces })
      (get_torrent hash d) d

-- `DiskMsg::FinishedDownload`, but for the files that it flushes and moves
unfoldable pub finished_download : InfoHash → Disk → Disk
finished_download hash d =
    on_torrent hash (λ t. record t { queue = []; metadata_pieces = []; downloaded_per_piece = [] })
      (get_torrent hash d) d
