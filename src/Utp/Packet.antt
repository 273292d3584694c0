-- ===== src/Utp/Packet.antt =====
-- `PacketType`, `TypeVer`, `Header` and `Packet` of crates/utp/src/packet.rs and header.rs: what a
-- packet is, and the bytes that stand for it. Bit operations on a byte are written as arithmetic.
use vincenzo.Prelude.{
  ℕ, ◌+◌, ◌*◌, ◌/◌, ◌%◌, Bool, false, not, ◌||◌, Option, none, some, List, [], ◌∷◌, ◌++◌, length,
  take, drop, ltb, ◌==◌, is_some, if◌then◌else◌,
}
use vincenzo.Outcome.{Outcome, ok, err, panic, invalid_data, OnBuf, ◌>>◌}
use vincenzo.Bytes.BigEndian.{
  u16_to_be_bytes, u32_to_be_bytes, u16_from_be_bytes, u32_from_be_bytes,
}
use vincenzo.Bytes.Buffer.{Buffer}

-- `PacketType::Data` is `payload`, since `data` is a keyword here
pub data PacketType : Type 0 where
  payload fin state reset syn : PacketType

unfoldable pub packet_type_as_u8 : PacketType → ℕ
packet_type_as_u8 PacketType.payload = 0
packet_type_as_u8 PacketType.fin = 1
packet_type_as_u8 PacketType.state = 2
packet_type_as_u8 PacketType.reset = 3
packet_type_as_u8 PacketType.syn = 4

-- `PacketType::try_from`, derived from the discriminants
unfoldable pub packet_type_try_from : ℕ → Option PacketType
packet_type_try_from b =
    if b == 0
    then some PacketType.payload
    else if b == 1
    then some PacketType.fin
    else if b == 2
    then some PacketType.state
    else if b == 3
    then some PacketType.reset
    else if b == 4
    then some PacketType.syn
    else none

abbrev pub utp_version : ℕ
utp_version = 1

abbrev pub header_len : ℕ
header_len = 20

-- `TypeVer`, a byte: `version`, `packet_type` and `from_packet`
unfoldable pub version : ℕ → ℕ
version t = t % 16

unfoldable pub packet_type : ℕ → Option PacketType
unfolding packet_type_try_from
packet_type t = packet_type_try_from (t / 16 % 16)

unfoldable pub from_packet : PacketType → ℕ
unfolding packet_type_as_u8
from_packet p = utp_version + packet_type_as_u8 p * 16

pub record Header : Type 0 where
  pub type_ver : ℕ
  pub extension : ℕ
  pub conn_id : ℕ
  pub timestamp : ℕ
  pub timestamp_diff : ℕ
  pub wnd_size : ℕ
  pub seq_nr : ℕ
  pub ack_nr : ℕ

pub record Packet : Type 0 where
  pub header : Header
  pub payload : List ℕ

unfoldable pub to_bytes : Header → List ℕ
to_bytes h =
    h.type_ver
    ∷ h.extension
    ∷ (u16_to_be_bytes h.conn_id
        ++ (u32_to_be_bytes h.timestamp
            ++ (u32_to_be_bytes h.timestamp_diff
                ++ (u32_to_be_bytes h.wnd_size
                    ++ (u16_to_be_bytes h.seq_nr ++ u16_to_be_bytes h.ack_nr)))))

-- the fields of the first 20 bytes, read behind a test of the length
unfoldable pub fields : List ℕ → Option Header
fields
      (t ∷ e ∷ c0 ∷ c1 ∷ s0 ∷ s1 ∷ s2 ∷ s3 ∷ d0 ∷ d1 ∷ d2 ∷ d3 ∷ w0 ∷ w1 ∷ w2 ∷ w3 ∷ n0 ∷ n1 ∷ a0
        ∷ a1 ∷ _) =
    some (record {
      type_ver = t;
      extension = e;
      conn_id = u16_from_be_bytes c0 c1;
      timestamp = u32_from_be_bytes s0 s1 s2 s3;
      timestamp_diff = u32_from_be_bytes d0 d1 d2 d3;
      wnd_size = u32_from_be_bytes w0 w1 w2 w3;
      seq_nr = u16_from_be_bytes n0 n1;
      ack_nr = u16_from_be_bytes a0 a1;
    })
fields _ = none

-- an index out of range panics
abbrev pub indexed {ℓ} : {A : Type ℓ} → Option A → Outcome A
indexed none = panic
indexed (some a) = ok a

unfoldable pub from_bytes : List ℕ → Outcome Header
unfolding fields
from_bytes buf = if not (length buf == header_len) then err invalid_data else indexed (fields buf)

-- `buf[0] & 0x0F != 1 || PacketType::try_from(buf[0] >> 4).is_err()`
abbrev pub is_foreign : List ℕ → Bool
is_foreign [] = false
is_foreign (t ∷ _) = not (t % 16 == 1) || not (is_some (packet_type_try_from (t / 16)))

unfoldable pub header_try_from : List ℕ → Outcome Header
unfolding fields
header_try_from buf =
    if ltb (length buf) header_len
    then err invalid_data
    else if is_foreign buf
    then err invalid_data
    else indexed (fields buf)

unfoldable pub into_bytes : Packet → List ℕ
unfolding to_bytes
into_bytes p = to_bytes p.header ++ p.payload

-- `Packet::from_bytes`: the slice `data[0..20]` panics where fewer bytes are there
abbrev pub with_payload : List ℕ → Outcome Header → Outcome Packet
with_payload rest (ok h) = ok (record { header = h; payload = rest })
with_payload rest (err e) = err e
with_payload rest panic = panic

unfoldable pub packet_from_bytes : List ℕ → Outcome Packet
unfolding header_try_from
packet_from_bytes bs =
    if ltb (length bs) header_len
    then panic
    else with_payload (drop header_len bs) (header_try_from (take header_len bs))

module _ (o : Buffer) where
  open o use {put_u8, put_u16, put_u32, put_slice}

  -- `as_bytes_mut` of a header and of a packet, on a new buffer
  unfoldable pub put_header : Header → OnBuf (Unit {0})
  put_header h = do
    put_u8 h.type_ver
    put_u8 h.extension
    put_u16 h.conn_id
    put_u32 h.timestamp
    put_u32 h.timestamp_diff
    put_u32 h.wnd_size
    put_u16 h.seq_nr
    put_u16 h.ack_nr

  unfoldable pub as_bytes_mut : Packet → OnBuf (Unit {0})
  unfolding put_header
  as_bytes_mut p = do put_slice (put_header p.header []).1; put_slice p.payload
