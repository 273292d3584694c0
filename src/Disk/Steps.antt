-- ===== src/Disk/Steps.antt =====
-- The disk at work on one torrent: the messages of `run` (crates/vcz-lib/src/disk.rs) in any order, and
-- what holds after all of them.
use vincenzo.Prelude.{
  ℕ, ◌+◌, ◌≤◌, ◌<◌, ◌≡◌, refl, sym, ◌∙◌, ap, subst, Bool, true, false, not, Option, some, none,
  List, [], ◌∷◌, ◌++◌, length, get_elem?, ◌==◌, ◌&&◌, inl, inr, All, All-append, if◌then◌else◌,
  Bool-cases, Option-cases, arith,
}
use mathlib.Core.Logic.{if_pos}
use mathlib.Core.List.{reverse}
use vincenzo.Prelude.HashMap.{lookup, lookup-insert}
use vincenzo.Prelude.Keys.{bytes_discrete}
use vincenzo.Outcome.{Outcome, ok, err, panic, io, not_found}
use vincenzo.Wire.Message.{Block, BlockInfo}
use vincenzo.Torrent.Bits.{Bits}
use vincenzo.Torrent.Info.{Info, pieces}
use vincenzo.Disk.State.{
  FileMetadata, FilePath, InfoHash, TorrentData, TorrentMsg, Disk, get_torrent, put_torrent, send,
  usize_max,
}
use vincenzo.Disk.Blocks.{
  read_in, record_piece_access, read_block, write_block, on_write_block, on_read_block,
  handle_torrent_err,
}
use vincenzo.Disk.Queues.{
  answer, request_with, is_empty, copy_queue, pop_queue, request_blocks, request_metadata,
  return_blocks, return_metadata, finished_download, enter_endgame,
}
use vincenzo.Disk.Sizes.{size_of_piece, IsWhole}
use vincenzo.Disk.Layout.{cache_of}
use vincenzo.Disk.LastBytes.{HasBytes}
use vincenzo.Disk.Image.{IsDistinct, IsMapped}
use vincenzo.Disk.Validation.{torrent_bytes}
use vincenzo.Disk.Settle.{write_block-Settled}
use vincenzo.Disk.Honest.{IsHonest, Told, write-IsHonest, lt-length}

either_way {ℓ κ} :
    {A : Type ℓ} (P : A → Type κ) (c : Bool) {x y : A} → P x → P y → P (if c then x else y)
either_way P true p q = p
either_way P false p q = q

module _ (o : Bits) (missing : FilePath → Outcome (List ℕ)) (sha1 : List ℕ → List ℕ)
    (download_dir : FilePath) (hash : InfoHash) (info : Info) where
  -- One message of this torrent. A block that arrives lies within its piece, as every block that is asked for does.
  pub data Step (d d' : Disk) : Type 0 where
    write :
        (b : Block)
        → b.begin + length b.block ≤ size_of_piece info b.index
        → d' ≡ (on_write_block missing sha1 hash b d).1
        → Step d d'
    read : (b : BlockInfo) (now : ℕ) → d' ≡ (on_read_block missing hash b now d).1 → Step d d'
    request :
        (ps : List ℕ) (bits : List Bool) (block_infos_len : ℕ)
        → d' ≡ (request_blocks o hash ps bits block_infos_len d).1
        → Step d d'
    ask_metadata : (qnt size : ℕ) → d' ≡ (request_metadata hash qnt size d).1 → Step d d'
    give_back : (blocks : List BlockInfo) → d' ≡ return_blocks hash blocks d → Step d d'
    give_metadata : (ps : List ℕ) → d' ≡ return_metadata hash ps d → Step d d'
    finish : d' ≡ finished_download hash d → Step d d'

  pub data Reach (d : Disk) : Disk → Type 0 where
    here : Reach d d
    next : {e f : Disk} → Reach d e → Step e f → Reach d f

  abbrev Honest : Disk → Type 0
  Honest = IsHonest sha1 download_dir hash info

  found_after : (t' : TorrentData) (d' : Disk) → get_torrent hash (put_torrent hash t' d') ≡ some t'
  found_after t' d' =
      lookup-insert bytes_discrete hash hash t' d'.torrents
      ∙ if_pos (bytes_discrete hash hash) refl (some t') (lookup bytes_discrete hash d'.torrents)

  -- what a message changes that touches neither the counts nor the files
  put-IsHonest :
      (t' : TorrentData) {d : Disk} (h : Honest d)
      → t'.torrent_info ≡ h.torrent.torrent_info
      → t'.torrent_cache ≡ h.torrent.torrent_cache
      → t'.downloaded_per_piece ≡ h.torrent.downloaded_per_piece
      → Honest (put_torrent hash t' d)
  put-IsHonest t' {d} h i c n = record {
    torrent = t';
    found = found_after t' d;
    same_info = i ∙ h.same_info;
    loaded = record {
      cached = c ∙ h.loaded.cached ∙ ap (cache_of download_dir) (sym i);
      whole = subst IsWhole (sym i) h.loaded.whole;
      bytes = subst (λ x. HasBytes (cache_of download_dir x).file_metadata) (sym i) h.loaded.bytes;
      distinct =
          subst (λ x. IsDistinct (cache_of download_dir x).file_metadata) (sym i) h.loaded.distinct;
      mapped =
          subst (λ x. IsMapped (cache_of download_dir x).file_metadata d.files) (sym i)
            h.loaded.mapped;
    };
    counted = rw n h.counted;
    told = rw n h.told;
  }

  abbrev Quiet : TorrentMsg → Type 0
  Quiet (TorrentMsg.downloaded_piece i) = ⊥
  Quiet m = Unit

  unsent-Told :
      (m : TorrentMsg) (counts bs : List ℕ)
      → Quiet m
      → Told sha1 download_dir hash info counts bs (hash, m)
  unsent-Told TorrentMsg.endgame counts bs q = tt
  unsent-Told (TorrentMsg.set_torrent_error c) counts bs q = tt
  unsent-Told (TorrentMsg.corrupted_piece i) counts bs q = tt
  unsent-Told (TorrentMsg.downloaded_piece i) counts bs q = absurd q

  send-IsHonest : (m : TorrentMsg) {d : Disk} → Quiet m → Honest d → Honest (send hash m d)
  send-IsHonest m {d} q h = record {
    torrent = h.torrent;
    found = h.found;
    same_info = h.same_info;
    loaded = h.loaded;
    counted = h.counted;
    told = All-append _ d.sent ((hash, m) ∷ []) h.told (unsent-Told m _ _ q, tt);
  }

  handle_torrent_err-IsHonest :
      {A : Type 0} (r : Outcome A) {d : Disk} → Honest d → Honest (handle_torrent_err hash r d)
  unfolding handle_torrent_err
  handle_torrent_err-IsHonest (ok a) h = h
  handle_torrent_err-IsHonest panic h = h
  handle_torrent_err-IsHonest (err not_found) h = send-IsHonest _ tt h
  handle_torrent_err-IsHonest (err io) h = send-IsHonest _ tt h
  handle_torrent_err-IsHonest (err _) h = h

  answer-IsHonest :
      (len : ℕ) (t' : TorrentData) (result : List BlockInfo) {d : Disk} (h : Honest d)
      → t'.torrent_info ≡ h.torrent.torrent_info
      → t'.torrent_cache ≡ h.torrent.torrent_cache
      → t'.downloaded_per_piece ≡ h.torrent.downloaded_per_piece
      → Honest (answer o hash len t' result d).1
  unfolding enter_endgame
  answer-IsHonest len t' result {d} h i c n =
      either_way Honest ((len == 0 && is_empty result) && not t'.endgame)
        (either_way Honest t'.endgame h (
          send-IsHonest TorrentMsg.endgame tt
            (put-IsHonest (record t' { endgame = true }) h i c n)))
        h

  request-IsHonest :
      (bits : List Bool) (len : ℕ) (r : Outcome (List BlockInfo)) {d : Disk} (h : Honest d)
      → Honest (request_with o hash bits len h.torrent r d).1
  unfolding enter_endgame put-IsHonest
  request-IsHonest bits len (err e) h = h
  request-IsHonest bits len panic h = h
  request-IsHonest bits len (ok blocks) {d} h =
      let p = pop_queue o bits (reverse h.torrent.queue) in
      let t' = record h.torrent { queue = reverse p.1 } in
      either_way (λ (r : Outcome (List BlockInfo) × Disk). Honest r.1) h.torrent.endgame
        (answer-IsHonest len h.torrent (blocks ++ copy_queue o bits h.torrent.queue) h refl refl
          refl)
        (answer-IsHonest len t' (blocks ++ p.0) (put-IsHonest t' h refl refl refl) refl refl refl)

  -- the count of a piece once the download is over
  Told-finished :
      (counts bs : List ℕ) (m : InfoHash × TorrentMsg)
      → Told sha1 download_dir hash info counts bs m
      → Told sha1 download_dir hash info [] bs m
  Told-finished counts bs (h, TorrentMsg.downloaded_piece i) a = λ e. ((a e).0, inl refl)
  Told-finished counts bs (h, TorrentMsg.corrupted_piece i) a = tt
  Told-finished counts bs (h, TorrentMsg.endgame) a = tt
  Told-finished counts bs (h, TorrentMsg.set_torrent_error c) a = tt

  All-finished :
      (counts bs : List ℕ) (ms : List (InfoHash × TorrentMsg))
      → All (Told sha1 download_dir hash info counts bs) ms
      → All (Told sha1 download_dir hash info [] bs) ms
  All-finished counts bs [] a = tt
  All-finished counts bs (m ∷ ms) a = (Told-finished counts bs m a.0, All-finished counts bs ms a.1)

  finish-IsHonest : {d : Disk} → Honest d → Honest (finished_download hash d)
  unfolding finished_download
  finish-IsHonest {d} h =
      let t' = record h.torrent { queue = []; metadata_pieces = []; downloaded_per_piece = [] } in
      rw h.found (record {
        torrent = t';
        found = found_after t' d;
        same_info = h.same_info;
        loaded = record {
          cached = h.loaded.cached;
          whole = h.loaded.whole;
          bytes = h.loaded.bytes;
          distinct = h.loaded.distinct;
          mapped = h.loaded.mapped;
        };
        counted = omega arith;
        told = All-finished h.torrent.downloaded_per_piece _ d.sent h.told;
      })

  written :
      (b : Block) {d : Disk}
      → b.begin + length b.block ≤ size_of_piece info b.index
      → (h : Honest d) → (n : ℕ) → get_elem? h.torrent.downloaded_per_piece b.index ≡ some n
      → (n == usize_max) ≡ false
      → Honest (write_block missing sha1 hash b d).1
  written b {d} within h n e u =
      let t = h.torrent in
      let back = sym h.same_info in
      let counted = subst (λ i. length t.downloaded_per_piece ≤ pieces i) back h.counted in
      let in_torrent : b.index < pieces t.torrent_info =
        omega (arith, lt-length b.index n t.downloaded_per_piece e, counted) in
      subst (λ i. IsHonest sha1 download_dir hash i (write_block missing sha1 hash b d).1)
        h.same_info
        (write-IsHonest sha1 download_dir hash b t d n h.loaded e u
          (subst (λ i. b.begin + length b.block ≤ size_of_piece i b.index) back within) _ _
          (write_block missing sha1 hash b d) refl counted
          (subst
            (λ i.
              All
                (Told sha1 download_dir hash i t.downloaded_per_piece
                  (torrent_bytes download_dir i d.files))
                d.sent)
            back h.told)
          (write_block-Settled missing sha1 download_dir hash b t d n h.loaded h.found e in_torrent
            u))

  -- a block of the torrent, whose piece may be checked already or not be there
  write-honest :
      (b : Block) {d : Disk}
      → b.begin + length b.block ≤ size_of_piece info b.index
      → Honest d
      → Honest (write_block missing sha1 hash b d).1
  unfolding write_block
  write-honest b {d} within h =
      elim (Option-cases (get_elem? h.torrent.downloaded_per_piece b.index)) [
        | inl e ↦ rw (h.found, e) h
        | inr (n, e) ↦ elim (Bool-cases (n == usize_max)) [
          | inl t ↦ rw (h.found, e, t) h
          | inr u ↦ written b within h n e u
        ]
      ]

  read_in-honest :
      (b : BlockInfo) (now : ℕ) (f : Option FileMetadata) {d : Disk} (h : Honest d)
      → Honest (read_in missing hash b now h.torrent f d).1
  unfolding record_piece_access
  read_in-honest b now none h = h
  read_in-honest b now (some f) h = put-IsHonest _ h refl refl refl

  read-honest :
      (b : BlockInfo) (now : ℕ) {d : Disk} → Honest d → Honest (read_block missing hash b now d).1
  unfolding read_block
  read-honest b now h = rw h.found (read_in-honest b now _ h)

  Step-IsHonest : {d d' : Disk} → Step d d' → Honest d → Honest d'
  unfolding on_write_block on_read_block request_blocks request_metadata return_blocks
      return_metadata
  Step-IsHonest (write b w e) h = rw e (handle_torrent_err-IsHonest _ (write-honest b w h))
  Step-IsHonest (read b now e) h = rw e (handle_torrent_err-IsHonest _ (read-honest b now h))
  Step-IsHonest (request ps bits len e) h = rw (e, h.found) (request-IsHonest bits len _ h)
  Step-IsHonest (ask_metadata qnt size e) h = rw (e, h.found) (put-IsHonest _ h refl refl refl)
  Step-IsHonest (give_back blocks e) h = rw (e, h.found) (put-IsHonest _ h refl refl refl)
  Step-IsHonest (give_metadata ps e) h = rw (e, h.found) (put-IsHonest _ h refl refl refl)
  Step-IsHonest (finish e) h = rw e (finish-IsHonest h)

  -- Take a torrent as the disk holds it once it is taken up: its info well formed (a whole hash for
  -- each piece, sizes that agree), no file of it empty, each file there with its full length under
  -- a path of its own, at most one count for each piece, and each piece of it that was announced as
  -- downloaded with its hash on the disk and closed to more blocks. After any messages of this
  -- torrent in any order - blocks to write, each within its piece, blocks to read, requests,
  -- returns and the end of the download - the torrent is still so: the bytes of each of its
  -- announced pieces have the piece's hash, and the piece takes no more blocks.
  pub Reach-IsHonest :
      {d e : Disk}
      → IsHonest sha1 download_dir hash info d
      → Reach d e
      → IsHonest sha1 download_dir hash info e
  Reach-IsHonest h here = h
  Reach-IsHonest h (next r st) = Step-IsHonest st (Reach-IsHonest h r)
