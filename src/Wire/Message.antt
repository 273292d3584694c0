-- ===== src/Wire/Message.antt =====
-- `Block`, `BlockInfo` and the messages `Core` of crates/vcz-lib/src/extensions/core/mod.rs and
-- codec.rs. A `usize` is a number below 2 ^ 64.
use vincenzo.Prelude.{
  ℕ, ◌+◌, ◌^◌, ◌%◌, ◌≡◌, Bool, ◌&&◌, Option, none, some, List, length, ltb, leb, ◌==◌,
  if◌then◌else◌,
}

abbrev pub block_len : ℕ
block_len = 16384

pub record Block : Type 0 where
  pub index : ℕ
  pub begin : ℕ
  pub block : List ℕ

pub record BlockInfo : Type 0 where
  pub index : ℕ
  pub begin : ℕ
  pub len : ℕ

unfoldable pub block_is_valid : Block → Bool
block_is_valid b = leb (length b.block) block_len && leb b.begin block_len

unfoldable pub info_is_valid : BlockInfo → Bool
info_is_valid b = ltb 0 b.len && leb b.len block_len && leb b.begin block_len

unfoldable pub info_of_block : Block → BlockInfo
info_of_block b = record { index = b.index; begin = b.begin; len = length b.block }

-- The `bit_vec` crate: `Bitfield` is its `BitVec<u8>`.
pub record BitVec : Type 1 where
  pub Bitfield : Type 0
  pub storage_len : Bitfield → ℕ
  pub to_bytes : Bitfield → List ℕ
  pub from_bytes_general : List ℕ → Bitfield

-- Eight bits a byte, the last byte filled up with zeros.
pub record IsBitVec (v : BitVec) : Type 0 where
  pub storage_len-eq-length : (b : v.Bitfield) → v.storage_len b ≡ length (v.to_bytes b)
  pub to_bytes-from_bytes : (bs : List ℕ) → v.to_bytes (v.from_bytes_general bs) ≡ bs

-- `ExtendedMessage(id, payload)` is the pair of arguments of `extended`.
pub data Core (Bitfield : Type 0) : Type 0 where
  choke unchoke interested not_interested : Core Bitfield
  have : ℕ → Core Bitfield
  bitfield : Bitfield → Core Bitfield
  request : BlockInfo → Core Bitfield
  piece : Block → Core Bitfield
  cancel : BlockInfo → Core Bitfield
  extended : ℕ → List ℕ → Core Bitfield
  keep_alive : Core Bitfield

pub data CoreId : Type 0 where
  choke unchoke interested not_interested have bitfield request piece cancel extended : CoreId

unfoldable pub id_as_u8 : CoreId → ℕ
id_as_u8 CoreId.choke = 0
id_as_u8 CoreId.unchoke = 1
id_as_u8 CoreId.interested = 2
id_as_u8 CoreId.not_interested = 3
id_as_u8 CoreId.have = 4
id_as_u8 CoreId.bitfield = 5
id_as_u8 CoreId.request = 6
id_as_u8 CoreId.piece = 7
id_as_u8 CoreId.cancel = 8
id_as_u8 CoreId.extended = 20

-- `CoreId::try_from(u8)`
unfoldable pub id_try_from : ℕ → Option CoreId
id_try_from b =
    if b == 0
    then some CoreId.choke
    else if b == 1
    then some CoreId.unchoke
    else if b == 2
    then some CoreId.interested
    else if b == 3
    then some CoreId.not_interested
    else if b == 4
    then some CoreId.have
    else if b == 5
    then some CoreId.bitfield
    else if b == 6
    then some CoreId.request
    else if b == 7
    then some CoreId.piece
    else if b == 8
    then some CoreId.cancel
    else if b == 20
    then some CoreId.extended
    else none

-- `Core::len`, whose casts and sums are those of a u32.
module _ (v : BitVec) where
  open v use {Bitfield, storage_len}

  unfoldable pub core_len : Core Bitfield → ℕ
  core_len keep_alive = 0
  core_len choke = 1
  core_len unchoke = 1
  core_len interested = 1
  core_len not_interested = 1
  core_len (cancel _) = 13
  core_len (request _) = 13
  core_len (have _) = 5
  core_len (bitfield b) = (1 + storage_len b % 2 ^ 32) % 2 ^ 32
  core_len (piece b) = (9 + length b.block % 2 ^ 32) % 2 ^ 32
  core_len (extended id payload) = (2 + length payload % 2 ^ 32) % 2 ^ 32
