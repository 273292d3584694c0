-- ===== src/Torrent/Tests.antt =====
-- Runs of the sizes and the choice of pieces, and their theorems at concrete inputs.
use vincenzo.Prelude.{
  ℕ, ◌*◌, ◌-◌, ◌+◌, ◌≡◌, refl, true, false, none, some, List, [], ◌∷◌, min, arith,
}
use vincenzo.Outcome.{ok}
use vincenzo.Torrent.Bits.{plain, plain-IsBits, safe_set, reach, safe_get}
use vincenzo.Torrent.Info.{
  Info, pieces, get_torrent_size, piece_len, block_loop, get_block_infos_of_piece,
}
use vincenzo.Torrent.Blocks.{CoversOk, get_block_infos-Covers}
use vincenzo.Torrent.Wanted.{get_want_pieces, want_loop}
use vincenzo.Torrent.Choice.{Wants, get_want_pieces-Wants}

-- two pieces of 32 KiB, the last one short
abbrev an_info : Info
an_info = record {
  cross_seed_entry = none;
  file_length = some 50000;
  files = none;
  name = [];
  piece_length = 32768;
  pieces = hash_pair;
  source = none;
  metadata_size = 0;
  info_hash = [];
}
  where
    hash : List ℕ → List ℕ
    hash rest = 0 ∷ 0 ∷ 0 ∷ 0 ∷ 0 ∷ 0 ∷ 0 ∷ 0 ∷ 0 ∷ 0 ∷ 0 ∷ 0 ∷ 0 ∷ 0 ∷ 0 ∷ 0 ∷ 0 ∷ 0 ∷ 0 ∷ 0 ∷ rest

    hash_pair : List ℕ
    hash_pair = hash (hash [])

last_piece_len : piece_len an_info 1 ≡ ok 17232
unfolding piece_len get_torrent_size pieces
last_piece_len = refl

last_piece_blocks :
    get_block_infos_of_piece 50000 32768 1
    ≡ ok (
        record { index = 1; begin = 0; len = 16384 }
        ∷ record { index = 1; begin = 16384; len = 848 }
        ∷ [])
unfolding get_block_infos_of_piece block_loop
last_piece_blocks = refl

-- the test `safe_set` of bitfield.rs
safe_set_grows : safe_set plain 2 true (false ∷ false ∷ []) ≡ ok (false ∷ false ∷ true ∷ [])
unfolding safe_set reach
safe_set_grows = refl

want_two :
    get_want_pieces plain 2 (true ∷ true ∷ false ∷ true ∷ true ∷ []) (true ∷ [])
    ≡ ok (1 ∷ 3 ∷ [], true ∷ true ∷ false ∷ true ∷ [])
unfolding get_want_pieces want_loop safe_get reach
want_two = refl

get_block_infos-Covers_example :
    CoversOk 1 (min (1 * 32768 + 32768) 50000 - 1 * 32768) (get_block_infos_of_piece 50000 32768 1)
get_block_infos-Covers_example = get_block_infos-Covers 50000 32768 1 (omega arith)

get_want_pieces-Wants_example :
    Wants 2 0
      (true ∷ true ∷ false ∷ true ∷ true ∷ [])
      (true ∷ [])
      (get_want_pieces plain 2 (true ∷ true ∷ false ∷ true ∷ true ∷ []) (true ∷ []))
get_want_pieces-Wants_example =
    get_want_pieces-Wants plain 2 (true ∷ true ∷ false ∷ true ∷ true ∷ []) (true ∷ []) plain-IsBits
      (omega arith)
