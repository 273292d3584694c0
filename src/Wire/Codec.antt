-- ===== src/Wire/Codec.antt =====
-- `CoreCodec` of crates/vcz-lib/src/extensions/core/codec.rs: its `Encoder` and its `Decoder`.
-- The capacity that `decode` reserves has no effect on what the buffer holds and is left out.
use vincenzo.Prelude.{
  ℕ, ◌+◌, ◌-◌, ◌^◌, ◌%◌, Option, none, some, List, length, ltb, leb, ◌==◌, if◌then◌else◌,
}
use vincenzo.Outcome.{ok, invalid_input, OnBuf, pure, raise, panics, ◌>>=◌, ◌>>◌}
use vincenzo.Bytes.Buffer.{Buffer, peek_u32, remaining}
use vincenzo.Wire.Message.{BlockInfo, BitVec, Core, CoreId, id_as_u8, id_try_from, core_len}

module _ (o : Buffer) (v : BitVec) where
  open o use {put_u8, put_u32, put_slice, advance, clear, get_u8, get_u32, copy_to_bytes}
  open v use {Bitfield, to_bytes, from_bytes_general}

  -- the length prefix and the id
  put_head : ℕ → CoreId → OnBuf (Unit {0})
  unfolding id_as_u8
  put_head msg_len id = do put_u32 msg_len; put_u8 (id_as_u8 id)

  -- `x.try_into()` from usize to u32, and `put_u32` of the result
  put_usize : ℕ → OnBuf (Unit {0})
  put_usize x = if ltb x (2 ^ 32) then put_u32 x else raise invalid_input

  put_info : BlockInfo → OnBuf (Unit {0})
  put_info b = do put_u32 (b.index % 2 ^ 32); put_u32 (b.begin % 2 ^ 32); put_u32 (b.len % 2 ^ 32)

  put_body : Core Bitfield → ℕ → OnBuf (Unit {0})
  unfolding put_head put_usize put_info
  put_body Core.keep_alive msg_len = put_u32 msg_len
  put_body (Core.bitfield b) msg_len = do put_head msg_len CoreId.bitfield; put_slice (to_bytes b)
  put_body Core.choke msg_len = put_head msg_len CoreId.choke
  put_body Core.unchoke msg_len = put_head msg_len CoreId.unchoke
  put_body Core.interested msg_len = put_head msg_len CoreId.interested
  put_body Core.not_interested msg_len = put_head msg_len CoreId.not_interested
  put_body (Core.have index) msg_len = do put_head msg_len CoreId.have; put_usize index
  put_body (Core.request b) msg_len = do put_head msg_len CoreId.request; put_info b
  put_body (Core.piece b) msg_len = do
    put_head msg_len CoreId.piece
    put_usize b.index
    put_u32 (b.begin % 2 ^ 32)
    put_slice b.block
  put_body (Core.cancel b) msg_len = do put_head msg_len CoreId.cancel; put_info b
  put_body (Core.extended id payload) msg_len = do
    put_head msg_len CoreId.extended
    put_u8 id
    put_slice payload

  unfoldable pub encode : Core Bitfield → OnBuf (Unit {0})
  unfolding put_body
  encode item = put_body item (core_len v item)

  get_info : OnBuf BlockInfo
  get_info = do
    index ← get_u32
    begin ← get_u32
    len ← get_u32
    pure (record { index = index; begin = begin; len = len })

  -- `copy_to_bytes(size - k)`: the subtraction panics below 0 where overflow is checked, and else
  -- gives a length that no buffer holds, at which `copy_to_bytes` panics.
  copy_but : ℕ → ℕ → OnBuf (List ℕ)
  copy_but k size = if ltb size k then panics else copy_to_bytes (size - k)

  -- `if buf.remaining() < n { return Ok(None) }` in front of a read
  at_least : ℕ → OnBuf (Core Bitfield) → OnBuf (Option (Core Bitfield))
  at_least n read = do
    here ← remaining
    if ltb here n then pure none else (do msg ← read; pure (some msg))

  -- the match on the id; `size` is the length prefix
  get_payload : CoreId → ℕ → OnBuf (Option (Core Bitfield))
  unfolding get_info copy_but at_least
  get_payload CoreId.choke size = pure (some Core.choke)
  get_payload CoreId.unchoke size = pure (some Core.unchoke)
  get_payload CoreId.interested size = pure (some Core.interested)
  get_payload CoreId.not_interested size = pure (some Core.not_interested)
  get_payload CoreId.have size = at_least 4 (do index ← get_u32; pure (Core.have index))
  get_payload CoreId.bitfield size =
      at_least 1 (do bs ← copy_but 1 size; pure (Core.bitfield (from_bytes_general bs)))
  get_payload CoreId.request size = at_least 12 (do b ← get_info; pure (Core.request b))
  get_payload CoreId.piece size = at_least 8 (do
    index ← get_u32
    begin ← get_u32
    block ← copy_but 9 size
    pure (Core.piece (record { index = index; begin = begin; block = block })))
  get_payload CoreId.cancel size = at_least 12 (do b ← get_info; pure (Core.cancel b))
  get_payload CoreId.extended size =
      at_least 1 (do id ← get_u8; payload ← copy_but 2 size; pure (Core.extended id payload))

  -- an id that is not known drops what the code takes for the message
  unfoldable pub get_message : Option CoreId → ℕ → OnBuf (Option (Core Bitfield))
  unfolding get_payload
  get_message none size = do
    here ← remaining
    if leb size here then advance size else clear
    pure none
  get_message (some id) size = get_payload id size

  unfoldable pub decode : OnBuf (Option (Core Bitfield))
  unfolding get_message
  decode buf =
      if ltb (length buf) 4
      then (ok none, buf)
      else let size = peek_u32 buf in
        if size == 0
        then (do advance 4; pure (some Core.keep_alive)) buf
        else if ltb (length buf) (4 + size)
        then (ok none, buf)
        else (do advance 4; id ← get_u8; get_message (id_try_from id) size) buf
