-- ===== src/Disk/HandedOut.antt =====
-- Which blocks a peer is given to ask for.
use vincenzo.Prelude.{
  ℕ, ◌≡◌, refl, sym, ◌∙◌, ap, Bool, true, false, ◌&&◌, some, List, [], ◌∷◌, ◌++◌, All, ◌==◌,
  if◌then◌else◌, Bool-cases, inl, inr,
}
use mathlib.Core.Logic.{if_pos}
use mathlib.Core.List.{reverse, reverse-append, reverse-reverse}
use vincenzo.Prelude.HashMap.{lookup, lookup-insert}
use vincenzo.Prelude.Keys.{bytes_discrete}
use vincenzo.Outcome.{Outcome, ok}
use vincenzo.Wire.Message.{BlockInfo}
use vincenzo.Torrent.Bits.{Bits, IsBits, plain, eq-plain, safe_get, reach, bit_at}
use vincenzo.Torrent.BitLaws.{bit_at-reach}
use vincenzo.Disk.State.{InfoHash, TorrentData, TorrentMsg, Disk, get_torrent, put_torrent}
use vincenzo.Disk.Queues.{is_empty, blocks_of_pieces, pop_queue, enter_endgame, request_blocks}

abbrev pub Has : List Bool → BlockInfo → Type 0
Has bits b = bit_at b.index bits ≡ true

-- nothing is left, or the next block is of a piece that the peer has not
abbrev pub Stops : List Bool → List BlockInfo → Type 0
Stops bits [] = Unit
Stops bits (b ∷ bs) = bit_at b.index bits ≡ false

Has-reach :
    (i : ℕ) (bits : List Bool) (bs : List BlockInfo)
    → All (Has (reach plain i bits)) bs
    → All (Has bits) bs
Has-reach i bits [] a = tt
Has-reach i bits (b ∷ bs) a = (sym (bit_at-reach i b.index bits) ∙ a.0, Has-reach i bits bs a.1)

Stops-reach :
    (i : ℕ) (bits : List Bool) (bs : List BlockInfo) → Stops (reach plain i bits) bs → Stops bits bs
Stops-reach i bits [] a = tt
Stops-reach i bits (b ∷ bs) a = sym (bit_at-reach i b.index bits) ∙ a

record Popped (bits : List Bool) (queue : List BlockInfo) (r : List BlockInfo × List BlockInfo)
    : Type 0 where
  splits : queue ≡ r.0 ++ r.1
  has : All (Has bits) r.0
  stops : Stops bits r.1

pop_queue-Popped :
    (bits : List Bool) (queue : List BlockInfo) → Popped bits queue (pop_queue plain bits queue)
unfolding pop_queue safe_get
pop_queue-Popped bits [] = record { splits = refl; has = tt; stops = tt }
pop_queue-Popped bits (b ∷ bs) =
    let ih = pop_queue-Popped (reach plain b.index bits) bs in
    let same = bit_at-reach b.index b.index bits in
    elim (Bool-cases (bit_at b.index (reach plain b.index bits))) [
      | inl t ↦
          rw (t, pop_queue)
            (record {
              splits = ap (◌∷◌ b) ih.splits;
              has = (sym same ∙ t, Has-reach b.index bits _ ih.has);
              stops = Stops-reach b.index bits _ ih.stops;
            })
      | inr n ↦ rw (n, pop_queue) (record { splits = refl; has = tt; stops = sym same ∙ n })
    ]

-- What becomes of the queue and the endgame, and what the peer is given: the blocks of the new pieces
-- and those that were taken from the end of the queue.
pub record HandsOut (hash : InfoHash) (bits : List Bool) (block_infos_len : ℕ) (t : TorrentData)
    (new : List BlockInfo) (d : Disk) (r : Outcome (List BlockInfo) × Disk) : Type 0 where
  pub taken : List BlockInfo
  pub left : List BlockInfo
  pub gives : r.0 ≡ ok (new ++ taken)
  pub splits : t.queue ≡ left ++ reverse taken
  pub has : All (Has bits) taken
  pub stops : Stops bits (reverse left)
  pub found :
      get_torrent hash r.1
      ≡ some (record t { queue = left; endgame = block_infos_len == 0 && is_empty (new ++ taken) })
  pub tells : r.1.sent ≡ (
      if block_infos_len == 0 && is_empty (new ++ taken)
      then d.sent ++ (hash, TorrentMsg.endgame) ∷ []
      else d.sent)

found_after :
    (hash : InfoHash) (t' : TorrentData) (d' : Disk)
    → get_torrent hash (put_torrent hash t' d') ≡ some t'
found_after hash t' d' =
    lookup-insert bytes_discrete hash hash t' d'.torrents
    ∙ if_pos (bytes_discrete hash hash) refl (some t') (lookup bytes_discrete hash d'.torrents)

request_plain :
    (hash : InfoHash) (pieces : List ℕ) (bits : List Bool) (block_infos_len : ℕ) (t : TorrentData)
    (new : List BlockInfo) (d : Disk)
    → get_torrent hash d ≡ some t
    → blocks_of_pieces t.torrent_cache.total_size t.torrent_cache.piece_length pieces ≡ ok new
    → t.endgame ≡ false
    → HandsOut hash bits block_infos_len t new d
        (request_blocks plain hash pieces bits block_infos_len d)
unfolding request_blocks enter_endgame
request_plain hash pieces bits block_infos_len t new d e n f =
    let p = pop_queue plain bits (reverse t.queue) in
    let w = pop_queue-Popped bits (reverse t.queue) in
    let t1 = record t { queue = reverse p.1; endgame = false } in
    let parts : t.queue ≡ reverse p.1 ++ reverse p.0 =
      sym (reverse-reverse t.queue) ∙ ap reverse w.splits ∙ reverse-append p.0 p.1 in
    elim (Bool-cases (block_infos_len == 0 && is_empty (new ++ p.0))) [
      | inl y ↦
          rw (e, n, f)
            (record {
              taken = p.0;
              left = reverse p.1;
              gives = refl;
              splits = parts;
              has = w.has;
              stops = rw reverse-reverse w.stops;
              found = rw y (
                  found_after hash (record t { queue = reverse p.1; endgame = true })
                    (put_torrent hash t1 d));
              tells = rw y;
            })
      | inr z ↦
          rw (e, n, f)
            (record {
              taken = p.0;
              left = reverse p.1;
              gives = refl;
              splits = parts;
              has = w.has;
              stops = rw reverse-reverse w.stops;
              found = rw z (found_after hash t1 d);
              tells = rw z;
            })
    ]

-- Before the endgame a peer is given all the blocks of the pieces it asks for, and of the queue those
-- at its end that are of pieces which it has, up to the first that is not: these leave the queue and
-- no other does. The endgame begins, and is told, exactly where that is nothing and the peer has no
-- block left.
pub request_blocks-HandsOut :
    (o : Bits) (hash : InfoHash) (pieces : List ℕ) (bits : List Bool) (block_infos_len : ℕ)
    (t : TorrentData) (new : List BlockInfo) (d : Disk)
    → IsBits o
    → get_torrent hash d ≡ some t
    → blocks_of_pieces t.torrent_cache.total_size t.torrent_cache.piece_length pieces ≡ ok new
    → t.endgame ≡ false
    → HandsOut hash bits block_infos_len t new d
        (request_blocks o hash pieces bits block_infos_len d)
request_blocks-HandsOut o hash pieces bits block_infos_len t new d l e n f =
    rw (eq-plain l) (request_plain hash pieces bits block_infos_len t new d e n f)
