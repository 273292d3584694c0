-- ===== src/Daemon/Codec.antt =====
-- `DaemonCodec` of crates/vcz-lib/src/daemon_wire.rs: its `Encoder` and its `Decoder`. An info hash
-- is its 20 bytes. The capacity that `decode` reserves has no effect on what the buffer holds.
use vincenzo.Prelude.{
  ℕ, ◌+◌, ◌^◌, ◌%◌, Bool, Option, none, some, List, length, ltb, ◌==◌, if◌then◌else◌,
}
use vincenzo.Outcome.{Error, Outcome, ok, rkyv, magnet_link, OnBuf, pure, raise, ◌>>=◌, ◌>>◌}
use vincenzo.Bytes.Buffer.{Buffer, peek_u32, remaining}
use vincenzo.Bytes.Utf8.{from_utf8}
use vincenzo.Daemon.Message.{
  Message, MessageId, message_id_as_u8, message_id_try_from, Archive, MagnetUrl,
}

-- `?` on the result of another crate
abbrev pub or_raise : {A : Type 0} → Error → Option A → OnBuf A
or_raise e none = raise e
or_raise e (some a) = pure a

abbrev pub attempt : {A : Type 0} → Outcome A → OnBuf A
attempt r buf = (r, buf)

abbrev pub bit : Bool → ℕ
bit b = if b then 1 else 0

module _ {Magnet State : Type 0} (o : Buffer) (url : MagnetUrl Magnet) (one : Archive State)
    (many : Archive (List State)) where
  open o use {put_u8, put_u32, put_slice, advance, clear, get_u8, copy_to_slice}

  -- `1 + len as u32` in front of the id; the sum wraps where overflow is not checked
  put_framed : MessageId → ℕ → OnBuf (Unit {0})
  unfolding message_id_as_u8
  put_framed id len = do put_u32 ((1 + len % 2 ^ 32) % 2 ^ 32); put_u8 (message_id_as_u8 id)

  put_payload : MessageId → List ℕ → OnBuf (Unit {0})
  unfolding put_framed
  put_payload id bs = do put_framed id (length bs); put_slice bs

  unfoldable pub encode : Message Magnet State → OnBuf (Unit {0})
  unfolding put_framed put_payload
  encode (Message.init b) = do put_u32 1; put_u8 (bit b)
  encode (Message.new_torrent magnet) = put_payload MessageId.new_torrent (url.to_string magnet)
  encode (Message.torrent_state s) = do
    bs ← or_raise rkyv (one.to_bytes s)
    put_payload MessageId.torrent_state bs
  encode (Message.torrent_states ss) = do
    bs ← or_raise rkyv (many.to_bytes ss)
    put_payload MessageId.torrent_states bs
  encode (Message.get_torrent_state info_hash) = put_payload MessageId.get_torrent_state info_hash
  encode (Message.toggle_pause info_hash) = put_payload MessageId.toggle_pause info_hash
  encode (Message.delete_torrent info_hash also_from_disk) = do
    put_framed MessageId.delete_torrent (length info_hash + 1)
    put_slice info_hash
    put_u8 (bit also_from_disk)
  encode Message.print_torrent_status = put_framed MessageId.print_torrent_status 0
  encode Message.frontend_quit = put_framed MessageId.frontend_quit 0
  encode Message.quit = put_framed MessageId.quit 0

  -- `let mut payload = vec![0u8; buf.remaining()]; buf.copy_to_slice(&mut payload)`
  get_rest : OnBuf (List ℕ)
  get_rest = do n ← remaining; copy_to_slice n

  -- the match on the id
  unfoldable pub get_body : MessageId → OnBuf (Message Magnet State)
  unfolding get_rest
  get_body MessageId.init = do b ← get_u8; pure (Message.init (b == 1))
  get_body MessageId.new_torrent = do
    payload ← get_rest
    text ← attempt (from_utf8 payload)
    magnet ← or_raise magnet_link (url.parse text)
    pure (Message.new_torrent magnet)
  get_body MessageId.torrent_state = do
    payload ← get_rest
    s ← or_raise rkyv (one.from_bytes payload)
    pure (Message.torrent_state s)
  get_body MessageId.torrent_states = do
    payload ← get_rest
    ss ← or_raise rkyv (many.from_bytes payload)
    pure (Message.torrent_states ss)
  get_body MessageId.toggle_pause = do
    payload ← copy_to_slice 20
    pure (Message.toggle_pause payload)
  get_body MessageId.delete_torrent = do
    payload ← copy_to_slice 20
    b ← get_u8
    pure (Message.delete_torrent payload (b == 1))
  get_body MessageId.print_torrent_status = pure Message.print_torrent_status
  get_body MessageId.quit = pure Message.quit
  get_body MessageId.frontend_quit = pure Message.frontend_quit
  get_body MessageId.get_torrent_state = do
    payload ← copy_to_slice 20
    pure (Message.get_torrent_state payload)

  -- an id that is not known empties the buffer
  unfoldable pub get_known : Option MessageId → OnBuf (Option (Message Magnet State))
  unfolding get_body
  get_known none = do clear; pure none
  get_known (some id) = do msg ← get_body id; pure (some msg)

  unfoldable pub decode : OnBuf (Option (Message Magnet State))
  unfolding get_known
  decode buf =
      if ltb (length buf) 4
      then (ok none, buf)
      else let size = peek_u32 buf in
        if size == 0
        then (ok (some Message.quit), buf)
        else if ltb (length buf) (4 + size)
        then (ok none, buf)
        else (do advance 4; id ← get_u8; get_known (message_id_try_from id)) buf
