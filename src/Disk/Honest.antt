-- ===== src/Disk/Honest.antt =====
-- The disk at work on one torrent: what the messages of the torrent and its peers do to it, one after
-- the other, and what every announcement of one of its pieces says of the bytes on the disk.
use vincenzo.Prelude.{
  ℕ, zero, suc, ◌+◌, ◌*◌, ◌≤◌, ◌<◌, ◌≡◌, ◌≢◌, ◌⊎◌, inl, inr, refl, sym, ◌∙◌, ap, Bool, true, false,
  some, List, [], ◌∷◌, length, get_elem?, take, leb, ◌==◌, All, All-append, Bool-cases, arith,
}
use vincenzo.Prelude.Slices.{overwrite, take-drop-overwrite_before, drop-overwrite_behind}
use vincenzo.Outcome.{Outcome}
use vincenzo.Wire.Message.{Block}
use vincenzo.Torrent.Info.{Info, pieces}
use vincenzo.Disk.State.{FilePath, InfoHash, TorrentData, TorrentMsg, Disk, get_torrent, usize_max}
use vincenzo.Disk.Blocks.{set_at}
use vincenzo.Prelude.Keys.{same_bytes}
use vincenzo.Disk.Hashes.{hash_at}
use vincenzo.Disk.Sizes.{IsWhole, size_of_piece, rows}
use vincenzo.Disk.Validation.{IsLoaded, torrent_bytes, piece_bytes}
use vincenzo.Disk.Arrival.{hash_fits, count_then, news_then, with_block, Settled}

-- a piece that takes no more blocks: it is checked, or the download is over
abbrev pub IsFinal : ℕ → List ℕ → Type 0
IsFinal piece counts = (counts ≡ []) ⊎ (get_elem? counts piece ≡ some usize_max)

get_elem?-set_at_other :
    (i j v : ℕ) (xs : List ℕ) → i ≢ j → get_elem? (set_at j v xs) i ≡ get_elem? xs i
get_elem?-set_at_other i j v [] h = refl
get_elem?-set_at_other zero zero v (x ∷ xs) h = absurd (h refl)
get_elem?-set_at_other zero (suc j) v (x ∷ xs) h = refl
get_elem?-set_at_other (suc i) zero v (x ∷ xs) h = refl
get_elem?-set_at_other (suc i) (suc j) v (x ∷ xs) h =
    get_elem?-set_at_other i j v xs (λ e. h (ap suc e))

get_elem?-set_at_self :
    (i v n : ℕ) (xs : List ℕ) → get_elem? xs i ≡ some n → get_elem? (set_at i v xs) i ≡ some v
get_elem?-set_at_self i v n [] h = cc
get_elem?-set_at_self zero v n (x ∷ xs) h = refl
get_elem?-set_at_self (suc i) v n (x ∷ xs) h = get_elem?-set_at_self i v n xs h

length-set_at : (i v : ℕ) (xs : List ℕ) → length (set_at i v xs) ≡ length xs
length-set_at i v [] = refl
length-set_at zero v (x ∷ xs) = refl
length-set_at (suc i) v (x ∷ xs) = ap suc (length-set_at i v xs)

clash : (n : ℕ) → (n == usize_max) ≡ false → some n ≡ some usize_max → ⊥
clash n h e = ground arith

pub lt-length : (i n : ℕ) (xs : List ℕ) → get_elem? xs i ≡ some n → i < length xs
lt-length i n [] h = cc
lt-length zero n (x ∷ xs) h = omega arith
lt-length (suc i) n (x ∷ xs) h = omega (arith, lt-length i n xs h)

module _ (info : Info) (w : IsWhole info) where
  -- a block within one piece leaves the bytes of the others
  piece_bytes_other :
      (i : ℕ) (b : Block) (bs : List ℕ)
      → i ≢ b.index
      → b.begin + length b.block ≤ size_of_piece info b.index
      → piece_bytes info i (overwrite (b.index * info.piece_length + b.begin) b.block bs)
        ≡ piece_bytes info i bs
  piece_bytes_other i b bs ne h = elim (Bool-cases (leb i b.index)) [
    | inl le ↦
        take-drop-overwrite_before (i * info.piece_length) (size_of_piece info i) _ b.block bs
          (omega (arith, rows i b.index info.piece_length (ground arith)))
    | inr gt ↦ ap (take (size_of_piece info i)) (
        drop-overwrite_behind (i * info.piece_length) _ b.block bs
          (omega (arith, rows b.index i info.piece_length (ground arith))))
  ]

module _ (sha1 : List ℕ → List ℕ) (download_dir : FilePath) (hash : InfoHash) where
  -- a piece of this torrent that was announced has its hash, and is final
  abbrev pub Told : Info → List ℕ → List ℕ → InfoHash × TorrentMsg → Type 0
  Told info counts bs (h, TorrentMsg.downloaded_piece i) =
      h ≡ hash → (hash_fits sha1 info i bs ≡ true) × IsFinal i counts
  Told info counts bs (h, _) = Unit

  pub record IsHonest (info : Info) (d : Disk) : Type 0 where
    pub torrent : TorrentData
    pub found : get_torrent hash d ≡ some torrent
    pub same_info : torrent.torrent_info ≡ info
    pub loaded : IsLoaded download_dir torrent d.files
    pub counted : length torrent.downloaded_per_piece ≤ pieces info
    pub told :
        All
          (Told info torrent.downloaded_per_piece (torrent_bytes download_dir info d.files))
          d.sent

  module _ (b : Block) (t : TorrentData) (d : Disk) (n : ℕ)
      (loaded : IsLoaded download_dir t d.files)
      (counted_so_far : get_elem? t.downloaded_per_piece b.index ≡ some n)
      (unchecked : (n == usize_max) ≡ false)
      (within : b.begin + length b.block ≤ size_of_piece t.torrent_info b.index) where
    abbrev bytes_before : List ℕ
    bytes_before = torrent_bytes download_dir t.torrent_info d.files

    abbrev bytes_after : List ℕ
    bytes_after = with_block download_dir t.torrent_info b d.files

    -- what was announced stays true
    piece-kept :
        (v i : ℕ)
        → (hash_fits sha1 t.torrent_info i bytes_before ≡ true) × IsFinal i t.downloaded_per_piece
        → (hash_fits sha1 t.torrent_info i bytes_after ≡ true)
          × IsFinal i (set_at b.index v t.downloaded_per_piece)
    piece-kept v i (fits, inl none_left) = absurd (no_count none_left)
      where
        no_count : t.downloaded_per_piece ≡ [] → ⊥
        no_count e = cc (rw e at counted_so_far)
    piece-kept v i (fits, inr final) = (
      ap (λ x. same_bytes (hash_at i t.torrent_info.pieces) (sha1 x))
            (piece_bytes_other t.torrent_info loaded.whole i b bytes_before other within)
          ∙ fits,
      inr (get_elem?-set_at_other i b.index v t.downloaded_per_piece other ∙ final),
    )
      where
        other : i ≢ b.index
        other e = clash n unchecked (sym counted_so_far ∙ (rw e at final))

    Told-kept :
        (v : ℕ) (m : InfoHash × TorrentMsg)
        → Told t.torrent_info t.downloaded_per_piece bytes_before m
        → Told t.torrent_info (set_at b.index v t.downloaded_per_piece) bytes_after m
    Told-kept v (h, TorrentMsg.downloaded_piece i) m = λ e. piece-kept v i (m e)
    Told-kept v (h, TorrentMsg.corrupted_piece i) m = tt
    Told-kept v (h, TorrentMsg.endgame) m = tt
    Told-kept v (h, TorrentMsg.set_torrent_error c) m = tt

    All-kept :
        (v : ℕ) (ms : List (InfoHash × TorrentMsg))
        → All (Told t.torrent_info t.downloaded_per_piece bytes_before) ms
        → All (Told t.torrent_info (set_at b.index v t.downloaded_per_piece) bytes_after) ms
    All-kept v [] a = tt
    All-kept v (m ∷ ms) a = (Told-kept v m a.0, All-kept v ms a.1)

    Told-news :
        (complete fits : Bool)
        → hash_fits sha1 t.torrent_info b.index bytes_after ≡ fits
        → All
            (Told t.torrent_info
              (set_at b.index
                (count_then complete fits (n + length b.block))
                t.downloaded_per_piece)
              bytes_after)
            (news_then hash b.index complete fits)
    Told-news false fits e = tt
    Told-news true true e = (
      λ same. (
        e,
        inr (get_elem?-set_at_self b.index usize_max n t.downloaded_per_piece counted_so_far),
      ),
      tt,
    )
    Told-news true false e = (tt, tt)

    pub write-IsHonest :
        (complete fits : Bool) (r : Outcome (Unit {0}) × Disk)
        → hash_fits sha1 t.torrent_info b.index bytes_after ≡ fits
        → length t.downloaded_per_piece ≤ pieces t.torrent_info
        → All (Told t.torrent_info t.downloaded_per_piece bytes_before) d.sent
        → Settled download_dir hash b t n d complete fits r
        → IsHonest t.torrent_info r.1
    write-IsHonest complete fits r e c told s = record {
      torrent = s.torrent;
      found = s.found;
      same_info = s.keeps_info;
      loaded = s.loaded;
      counted =
          rw
            (
              s.counts,
              length-set_at b.index (count_then complete fits (n + length b.block))
                  t.downloaded_per_piece,
            )
            c;
      told =
          rw (s.counts, s.bytes, s.tells)
            (All-append _ d.sent (news_then hash b.index complete fits)
              (All-kept (count_then complete fits (n + length b.block)) d.sent told)
              (Told-news complete fits e));
    }
