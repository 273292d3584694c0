-- ===== src/Utp/Parse.antt =====
-- Writing and parsing headers and packets.
use vincenzo.Prelude.{
  ℕ, zero, suc, ◌≤◌, ◌<◌, ◌≡◌, refl, ap, true, false, Option, none, some, List, [], ◌∷◌, ◌++◌,
  length, take, drop, length-take, Bool-cases, inl, inr, ltb→lt, ltb→le, le→ltb, All, ltb, arith,
}
use vincenzo.Outcome.{Outcome, ok, err, panic}
use vincenzo.Bytes.BigEndian.{IsByte, IsU16, IsU32, u16_from-to, u32_from-to}
use vincenzo.Bytes.Buffer.{Buffer, IsBuffer, eq-plain}
use vincenzo.Utp.Packet.{
  PacketType, packet_type_try_from, version, packet_type, from_packet, Header, Packet, to_bytes,
  fields, from_bytes, header_try_from, into_bytes, packet_from_bytes, put_header, as_bytes_mut,
  is_foreign, indexed, with_payload,
}

abbrev pub HeaderFits : Header → Type 0
HeaderFits h =
    IsByte h.type_ver
    × IsByte h.extension
    × IsU16 h.conn_id
    × IsU32 h.timestamp
    × IsU32 h.timestamp_diff
    × IsU32 h.wnd_size
    × IsU16 h.seq_nr
    × IsU16 h.ack_nr

-- The type of a packet is read back from its byte, which carries the version 1.
pub packet_type-from_packet :
    (p : PacketType)
    → (packet_type (from_packet p) ≡ some p)
      × (version (from_packet p) ≡ 1)
      × (is_foreign (from_packet p ∷ []) ≡ false)
unfolding packet_type from_packet version packet_type_try_from
packet_type-from_packet PacketType.payload = (refl, refl, refl)
packet_type-from_packet PacketType.fin = (refl, refl, refl)
packet_type-from_packet PacketType.state = (refl, refl, refl)
packet_type-from_packet PacketType.reset = (refl, refl, refl)
packet_type-from_packet PacketType.syn = (refl, refl, refl)

fields-to_bytes : (h : Header) (rest : List ℕ) → HeaderFits h → fields (to_bytes h ++ rest) ≡ some h
unfolding fields to_bytes
fields-to_bytes h rest f =
    rw
      (
        u16_from-to h.conn_id f.2,
        u32_from-to h.timestamp f.3,
        u32_from-to h.timestamp_diff f.4,
        u32_from-to h.wnd_size f.5,
        u16_from-to h.seq_nr f.6,
        u16_from-to h.ack_nr f.7,
      )
      refl

abbrev value : Header → Outcome Header → Header
value d (ok h) = h
value d _ = d

abbrev got : Header → Option Header → Header
got d none = d
got d (some h) = h

fields_total : (bs : List ℕ) → 20 ≤ length bs → (h : Header) × (fields bs ≡ some h)
unfolding fields
fields_total
      (t ∷ e ∷ c0 ∷ c1 ∷ s0 ∷ s1 ∷ s2 ∷ s3 ∷ d0 ∷ d1 ∷ d2 ∷ d3 ∷ w0 ∷ w1 ∷ w2 ∷ w3 ∷ n0 ∷ n1 ∷ a0
        ∷ a1 ∷ rest)
      l =
    (_, refl)
fields_total _ l = absurd (omega arith)

-- A header is read back from its 20 bytes, and `as_bytes_mut` writes the same bytes.
pub from_bytes-to_bytes :
    (o : Buffer) (h : Header)
    → IsBuffer o
    → HeaderFits h
    → (from_bytes (to_bytes h) ≡ ok h) × (put_header o h [] ≡ (ok tt, to_bytes h))
unfolding from_bytes to_bytes put_header
from_bytes-to_bytes o h b f = (ap indexed (fields-to_bytes h [] f), rw (eq-plain b) refl)

-- Of bytes, the header that `from_bytes` reads is written back as the same bytes.
pub to_bytes-from_bytes :
    (bs : List ℕ) (h : Header)
    → All IsByte bs
    → from_bytes bs ≡ ok h
    → (to_bytes h ≡ bs) × HeaderFits h
unfolding from_bytes fields to_bytes
to_bytes-from_bytes
      (t ∷ x ∷ c0 ∷ c1 ∷ s0 ∷ s1 ∷ s2 ∷ s3 ∷ d0 ∷ d1 ∷ d2 ∷ d3 ∷ w0 ∷ w1 ∷ w2 ∷ w3 ∷ n0 ∷ n1 ∷ a0
        ∷ a1 ∷ [])
      h b e =
    rw (← ap (value h) e) (ground arith, omega arith)
to_bytes-from_bytes _ h b e = ground arith

-- A packet with a known type and version, whose fields are in their ranges, is read back from its bytes, payload included, and
-- `as_bytes_mut` writes the same bytes.
pub packet_from_bytes-into_bytes :
    (o : Buffer) (p : Packet)
    → IsBuffer o
    → HeaderFits p.header
    → is_foreign (p.header.type_ver ∷ []) ≡ false
    → (packet_from_bytes (into_bytes p) ≡ ok p) × (as_bytes_mut o p [] ≡ (ok tt, into_bytes p))
unfolding packet_from_bytes header_try_from into_bytes to_bytes as_bytes_mut
packet_from_bytes-into_bytes o p b f k = (
  rw (k, le→ltb (length (into_bytes p)) 20 (omega arith))
      (ap (λ r. with_payload p.payload (indexed r)) (fields-to_bytes p.header [] f)),
  rw (eq-plain b) refl,
)

is_foreign-take : (n : ℕ) (bs : List ℕ) → is_foreign (take (suc n) bs) ≡ is_foreign bs
is_foreign-take n [] = refl
is_foreign-take n (t ∷ bs) = refl

-- what any bytes are parsed as
abbrev pub ParsesAs : List ℕ → Outcome Packet → Type 0
ParsesAs bs (ok p) = (20 ≤ length bs) × (is_foreign bs ≡ false) × (p.payload ≡ drop 20 bs)
ParsesAs bs (err e) = (20 ≤ length bs) × (is_foreign bs ≡ true)
ParsesAs bs panic = length bs < 20

-- On any bytes `Packet::from_bytes` gives a packet with what follows the first 20 bytes as its
-- payload, an error where the version is not 1 or the type is unknown, and a panic, not an error,
-- exactly where there are fewer than 20 bytes.
pub packet_from_bytes-ParsesAs : (bs : List ℕ) → ParsesAs bs (packet_from_bytes bs)
unfolding packet_from_bytes header_try_from
packet_from_bytes-ParsesAs bs = elim (Bool-cases (ltb (length bs) 20)) [
  | inl s ↦ rw s (ltb→lt _ _ s)
  | inr l ↦
      rw (l, length-take 20 bs (ltb→le _ _ l), is_foreign-take 19 bs)
        (elim (Bool-cases (is_foreign bs)) [
          | inl k ↦ rw k (ltb→le _ _ l, k)
          | inr k ↦
              let total =
                fields_total (take 20 bs) (omega (arith, length-take 20 bs (ltb→le _ _ l))) in
              rw (k, total.1) (ltb→le _ _ l, k, refl)
        ])
]

fields-HeaderFits : (bs : List ℕ) (h : Header) → All IsByte bs → fields bs ≡ some h → HeaderFits h
unfolding fields
fields-HeaderFits
      (t ∷ x ∷ c0 ∷ c1 ∷ s0 ∷ s1 ∷ s2 ∷ s3 ∷ d0 ∷ d1 ∷ d2 ∷ d3 ∷ w0 ∷ w1 ∷ w2 ∷ w3 ∷ n0 ∷ n1 ∷ a0
        ∷ a1 ∷ rest)
      h b e =
    rw (← ap (got h) e) (omega arith)
fields-HeaderFits _ h b e = ground arith

take-All : (n : ℕ) (bs : List ℕ) → All IsByte bs → All IsByte (take n bs)
take-All zero bs b = tt
take-All (suc n) [] b = tt
take-All (suc n) (x ∷ bs) b = (b.0, take-All n bs b.1)

-- what is parsed fits
abbrev OkFits : Outcome Header → Type 0
OkFits (ok h) = HeaderFits h
OkFits _ = Unit

abbrev pub PacketOkFits : Outcome Packet → Type 0
PacketOkFits (ok p) = HeaderFits p.header
PacketOkFits _ = Unit

indexed-OkFits :
    (bs : List ℕ) (o : Option Header) → All IsByte bs → fields bs ≡ o → OkFits (indexed o)
indexed-OkFits bs none b e = tt
indexed-OkFits bs (some h) b e = fields-HeaderFits bs h b e

try_from-OkFits : (bs : List ℕ) → All IsByte bs → OkFits (header_try_from bs)
unfolding header_try_from
try_from-OkFits bs b = elim (Bool-cases (ltb (length bs) 20)) [
  | inl l ↦ rw l tt
  | inr g ↦ rw g (elim (Bool-cases (is_foreign bs)) [
    | inl f ↦ rw f tt
    | inr k ↦ rw k (indexed-OkFits bs (fields bs) b refl)
  ])
]

with_payload-PacketOkFits :
    (rest : List ℕ) (r : Outcome Header) → OkFits r → PacketOkFits (with_payload rest r)
with_payload-PacketOkFits rest (ok h) f = f
with_payload-PacketOkFits rest (err e) f = tt
with_payload-PacketOkFits rest panic f = tt

-- the header of a packet that was parsed
pub packet_from_bytes-PacketOkFits :
    (bs : List ℕ) → All IsByte bs → PacketOkFits (packet_from_bytes bs)
unfolding packet_from_bytes
packet_from_bytes-PacketOkFits bs b = elim (Bool-cases (ltb (length bs) 20)) [
  | inl l ↦ rw l tt
  | inr g ↦
      rw g
        (with_payload-PacketOkFits (drop 20 bs) _ (try_from-OkFits (take 20 bs) (take-All 20 bs b)))
]
