-- ===== src/Handshake/Codec.antt =====
-- `HandshakeCodec` of crates/vcz-lib/src/extensions/core/handshake_codec.rs and `Reserved` of bitfield.rs.
-- The extended handshake is any type with its bencoding; arrays of bytes are lists.
use vincenzo.Prelude.{
  ℕ, ◌+◌, ◌-◌, ◌≡◌, ◌/◌, ◌%◌, ◌^◌, Bool, true, false, not, ◌||◌, Option, none, some, List, [], ◌∷◌,
  length, get_elem?, ltb, ◌==◌, if◌then◌else◌,
}
use vincenzo.Prelude.Keys.{same_bytes}
use vincenzo.Outcome.{bencode, handshake_invalid, OnBuf, pure, raise, panics, ok, ◌>>=◌, ◌>>◌}
use vincenzo.Bytes.Buffer.{Buffer, peek_u32}
use vincenzo.Wire.Message.{CoreId, id_as_u8}

-- The extended handshake: what this client supports, its one field that is set later, and its
-- `ToBencode` and `FromBencode`.
pub record Extended (E : Type 0) : Type 0 where
  pub supported : Option ℕ → E
  pub with_metadata_size : Option ℕ → E → E
  pub to_bencode : E → Option (List ℕ)
  pub from_bencode : List ℕ → Option E

-- What is bencoded is read back.
abbrev pub IsExtended : {E : Type 0} → Extended E → Type 0
IsExtended {E} x = (e : E) (bs : List ℕ) → x.to_bencode e ≡ some bs → x.from_bencode bs ≡ some e

-- "BitTorrent protocol"
abbrev pub pstr : List ℕ
pstr =
    66 ∷ 105 ∷ 116 ∷ 84 ∷ 111 ∷ 114 ∷ 114 ∷ 101 ∷ 110 ∷ 116 ∷ 32 ∷ 112 ∷ 114 ∷ 111 ∷ 116 ∷ 111 ∷ 99
    ∷ 111 ∷ 108 ∷ []

abbrev pub pstr_len : ℕ
pstr_len = 19

-- `Handshake::MIN_LEN`
abbrev pub min_len : ℕ
min_len = 68

-- `Extension::ID`
abbrev pub extension_id : ℕ
extension_id = 0

-- `Reserved::supported`
abbrev pub reserved_supported : List ℕ
reserved_supported = 0 ∷ 0 ∷ 0 ∷ 0 ∷ 0 ∷ 16 ∷ 0 ∷ 0 ∷ []

abbrev bit_four : Option ℕ → Bool
bit_four none = false
bit_four (some b) = not (b / 16 % 2 == 0)

unfoldable pub supports_extended : List ℕ → Bool
supports_extended reserved = bit_four (get_elem? reserved 5)

pub record Handshake (E : Type 0) : Type 0 where
  pub pstr_len : ℕ
  pub pstr : List ℕ
  pub reserved : List ℕ
  pub info_hash : List ℕ
  pub peer_id : List ℕ
  pub ext : Option E

-- `Handshake::new`
unfoldable pub new : {E : Type 0} → Extended E → List ℕ → List ℕ → Handshake E
new x info_hash peer_id = record {
  pstr_len = pstr_len;
  pstr = pstr;
  reserved = reserved_supported;
  info_hash = info_hash;
  peer_id = peer_id;
  ext = some (x.supported (some 0));
}

-- `Handshake::validate`
unfoldable pub validate : {E : Type 0} → Handshake E → Handshake E → Bool
validate h target =
    if not (length target.peer_id == 20)
    then false
    else if not (same_bytes h.info_hash target.info_hash)
    then false
    else if not (target.pstr_len == 19)
    then false
    else if not (same_bytes target.pstr pstr)
    then false
    else true

module _ {E : Type 0} (o : Buffer) (x : Extended E) where
  open o use {put_u8, put_u32, put_slice, advance, get_u8, copy_to_bytes, copy_to_slice}

  -- the extended handshake behind the handshake; `2 + len as u32` wraps where overflow is not checked
  abbrev put_bencoded : Option (List ℕ) → OnBuf (Unit {0})
  put_bencoded none = raise bencode
  put_bencoded (some bs) = do
    put_u32 ((2 + length bs % 2 ^ 32) % 2 ^ 32)
    put_u8 (id_as_u8 CoreId.extended)
    put_u8 extension_id
    put_slice bs

  unfoldable pub put_ext : Option E → OnBuf (Unit {0})
  unfolding id_as_u8
  put_ext none = pure tt
  put_ext (some e) = put_bencoded (x.to_bencode e)

  unfoldable pub encode : Handshake E → OnBuf (Unit {0})
  unfolding put_ext
  encode h = do
    put_u8 pstr_len
    put_slice h.pstr
    put_slice h.reserved
    put_slice h.info_hash
    put_slice h.peer_id
    put_ext h.ext

  -- a corrupted extension is passed over
  abbrev with_ext : Handshake E → Option E → Handshake E
  with_ext h none = h
  with_ext h (some e) = record h { ext = some e }

  -- `buf[4]` and `buf[5]`, read behind a test of the length
  abbrev is_other : List ℕ → Bool
  is_other (_ ∷ _ ∷ _ ∷ _ ∷ core_id ∷ ext_id ∷ _) =
      not (core_id == id_as_u8 CoreId.extended) || not (ext_id == extension_id)
  is_other _ = true

  -- `copy_to_bytes(size - 2)`: the subtraction panics below 0 where overflow is checked, and else gives
  -- a length that no buffer holds, at which `copy_to_bytes` panics.
  abbrev copy_payload : ℕ → OnBuf (List ℕ)
  copy_payload size = if ltb size 2 then panics else copy_to_bytes (size - 2)

  -- what may stand behind the 68 bytes
  unfoldable pub get_ext : Handshake E → OnBuf (Option (Handshake E))
  unfolding id_as_u8
  get_ext h buf =
      if ltb (length buf) 6
      then (ok (some h), buf)
      else let size = peek_u32 buf in
        if ltb (length buf) (size + 4)
        then (ok none, buf)
        else if is_other buf
        then (ok (some h), buf)
        else (do
          advance 6
          payload ← copy_payload size
          pure (some (with_ext h (x.from_bencode payload))))
            buf

  unfoldable pub get_fields : OnBuf (Option (Handshake E))
  unfolding get_ext
  get_fields = do
    s ← copy_to_slice 19
    reserved ← copy_to_slice 8
    info_hash ← copy_to_slice 20
    peer_id ← copy_to_slice 20
    get_ext (record {
      pstr_len = pstr_len;
      pstr = s;
      reserved = reserved;
      info_hash = info_hash;
      peer_id = peer_id;
      ext = none;
    })

  unfoldable pub decode : OnBuf (Option (Handshake E))
  unfolding get_fields
  decode buf =
      if ltb (length buf) min_len
      then (ok none, buf)
      else (do len ← get_u8; if not (len == pstr_len) then raise handshake_invalid else get_fields)
          buf
