-- ===== src/Disk/Arrival.antt =====
-- What a written block should do to a torrent, and lemmas on the parts of `write_block`.
use vincenzo.Prelude.{
  ℕ, zero, suc, ◌+◌, ◌*◌, ◌≡◌, refl, ap, Bool, some, List, [], ◌∷◌, ◌++◌, length, get_elem?,
  if◌then◌else◌, arith,
}
use vincenzo.Prelude.Slices.{overwrite}
use vincenzo.Outcome.{Outcome, ok, err, panic}
use vincenzo.Wire.Message.{Block, BlockInfo}
use vincenzo.Torrent.Info.{Info, piece_len, get_torrent_size, get_block_infos_of_piece}
use vincenzo.Torrent.Blocks.{CoversOk}
use vincenzo.Disk.State.{
  FilePath, InfoHash, Files, TorrentData, TorrentMsg, Disk, get_torrent, piece_length, usize_max,
}
use vincenzo.Disk.Layout.{cache_of}
use vincenzo.Prelude.Keys.{same_bytes}
use vincenzo.Disk.Hashes.{hash_at}
use vincenzo.Disk.Blocks.{set_at, add_at}
use vincenzo.Disk.Validation.{IsLoaded, torrent_bytes, piece_bytes}

pub get_elem?-add_at :
    (i v n : ℕ) (xs : List ℕ) → get_elem? xs i ≡ some n → get_elem? (add_at i v xs) i ≡ some (n + v)
get_elem?-add_at i v n [] h = cc
get_elem?-add_at zero v n (x ∷ xs) h = ground arith
get_elem?-add_at (suc i) v n (x ∷ xs) h = get_elem?-add_at i v n xs h

pub add_at-eq-set_at :
    (i v n : ℕ) (xs : List ℕ) → get_elem? xs i ≡ some n → add_at i v xs ≡ set_at i (n + v) xs
add_at-eq-set_at i v n [] h = refl
add_at-eq-set_at zero v n (x ∷ xs) h = ground arith
add_at-eq-set_at (suc i) v n (x ∷ xs) h = ap (◌∷◌ x) (add_at-eq-set_at i v n xs h)

pub set_at-add_at : (i v w : ℕ) (xs : List ℕ) → set_at i v (add_at i w xs) ≡ set_at i v xs
set_at-add_at i v w [] = refl
set_at-add_at zero v w (x ∷ xs) = refl
set_at-add_at (suc i) v w (x ∷ xs) = ap (◌∷◌ x) (set_at-add_at i v w xs)

abbrev pub blocks_of : Outcome (List BlockInfo) → List BlockInfo
blocks_of (ok bs) = bs
blocks_of _ = []

pub covered_ok : (p s : ℕ) (o : Outcome (List BlockInfo)) → CoversOk p s o → o ≡ ok (blocks_of o)
covered_ok p s (ok bs) c = refl
covered_ok p s (err e) c = absurd c
covered_ok p s panic c = absurd c

pub with_first {ℓ κ} : {A : Type ℓ} {B : Type κ} (p : A × B) {a : A} → p.0 ≡ a → p ≡ (a, p.1)
with_first p h = λ i. (h i, p.1)

pub piece_length-eq-piece_len :
    (dir : FilePath) (info : Info) (piece : ℕ)
    → piece_length (cache_of dir info) piece ≡ piece_len info piece
unfolding piece_length piece_len cache_of
piece_length-eq-piece_len dir info piece = refl

-- What is counted, told and queued once a block has been written, by whether its piece is complete
-- and whether the hash of the piece fits.
abbrev pub count_then : Bool → Bool → ℕ → ℕ
count_then complete fits n = if complete then (if fits then usize_max else 0) else n

abbrev pub news_then : InfoHash → ℕ → Bool → Bool → List (InfoHash × TorrentMsg)
news_then hash piece complete fits =
    if complete
    then (
      hash,
      if fits then TorrentMsg.downloaded_piece piece else TorrentMsg.corrupted_piece piece,
    )
      ∷ []
    else []

abbrev pub queued_then : Bool → Bool → List BlockInfo → List BlockInfo
queued_then complete fits blocks = if complete then (if fits then [] else blocks) else []

-- the torrent's bytes with the block in its place
abbrev pub with_block : FilePath → Info → Block → Files → List ℕ
with_block download_dir info b files =
    overwrite (b.index * info.piece_length + b.begin) b.block
      (torrent_bytes download_dir info files)

abbrev pub hash_fits : (List ℕ → List ℕ) → Info → ℕ → List ℕ → Bool
hash_fits sha1 info piece bs =
    same_bytes (hash_at piece info.pieces) (sha1 (piece_bytes info piece bs))

pub record Settled (download_dir : FilePath) (hash : InfoHash) (b : Block) (t : TorrentData) (n : ℕ)
    (d : Disk) (complete fits : Bool) (r : Outcome (Unit {0}) × Disk) : Type 0 where
  pub done : r.0 ≡ ok tt
  pub torrent : TorrentData
  pub found : get_torrent hash r.1 ≡ some torrent
  pub keeps_info : torrent.torrent_info ≡ t.torrent_info
  pub loaded : IsLoaded download_dir torrent r.1.files
  pub bytes :
      torrent_bytes download_dir t.torrent_info r.1.files
      ≡ with_block download_dir t.torrent_info b d.files
  pub counts :
      torrent.downloaded_per_piece
      ≡ set_at b.index (count_then complete fits (n + length b.block)) t.downloaded_per_piece
  pub tells : r.1.sent ≡ d.sent ++ news_then hash b.index complete fits
  pub queues :
      torrent.queue
      ≡ t.queue
        ++ queued_then complete fits (
            blocks_of (
              get_block_infos_of_piece
                (get_torrent_size t.torrent_info)
                t.torrent_info.piece_length
                b.index))
