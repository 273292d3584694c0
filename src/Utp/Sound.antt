-- ===== src/Utp/Sound.antt =====
-- When a stream is sound: what its numbers and the packets it keeps must be.
use vincenzo.Prelude.{
  ℕ, ◌≤◌, ◌≡◌, false, List, [], ◌∷◌, ◌++◌, All, ltb, leb, ◌==◌, Bool-cases, inl, inr, ltb→lt, arith,
}
use vincenzo.Bytes.BigEndian.{IsByte, IsU16, IsU32}
use vincenzo.Utp.Packet.{PacketType, from_packet, Packet, is_foreign}
use vincenzo.Utp.Parse.{HeaderFits, packet_type-from_packet}
use vincenzo.Utp.Connection.{UtpHeader, numbered}
use vincenzo.Utp.Stream.{UtpStream}
use vincenzo.Utp.Queue.{SentPacket, pop_acked, mark_again}

-- numbers in their range, and a packet that is parsed
abbrev pub PacketFits : Packet → Type 0
PacketFits p = HeaderFits p.header × (is_foreign (p.header.type_ver ∷ []) ≡ false)

abbrev pub SentFits : SentPacket → Type 0
SentFits p = PacketFits p.packet × (p.retransmit_count ≤ 10)

abbrev pub NumbersFit : UtpHeader → Type 0
NumbersFit u = IsU16 u.seq_nr × IsU16 u.ack_nr × IsU16 u.last_ack_nr × IsU16 u.conn_id_send

-- the numbers and packets of a stream, with what its congestion control keeps of itself
module _ {C : Type 0} (Good : C → Type 0) where
  abbrev pub IsSound : UtpStream C → Type 0
  IsSound s =
      NumbersFit s.utp_header × All SentFits s.sent_packets × All PacketFits s.write_buf × Good s.cc

pub append-All {ℓ κ} :
    {A : Type ℓ} (P : A → Type κ) (xs ys : List A) → All P xs → All P ys → All P (xs ++ ys)
append-All P [] ys a b = b
append-All P (x ∷ xs) ys a b = (a.0, append-All P xs ys a.1 b)

pub from_packet-IsByte : (t : PacketType) → IsByte (from_packet t)
unfolding from_packet
from_packet-IsByte PacketType.payload = omega arith
from_packet-IsByte PacketType.fin = omega arith
from_packet-IsByte PacketType.state = omega arith
from_packet-IsByte PacketType.reset = omega arith
from_packet-IsByte PacketType.syn = omega arith

pub numbered-fits :
    (t : PacketType) (now window : ℕ) (payload : List ℕ) (u : UtpHeader)
    → NumbersFit u
    → IsU32 now
    → IsU32 window
    → PacketFits (record { header = numbered t u.seq_nr u.ack_nr now window u; payload = payload })
numbered-fits t now window payload u f n w = (
  (from_packet-IsByte t, omega arith, f.3, n, omega arith, w, f.0, f.1),
  (packet_type-from_packet t).2,
)

pub pop_acked-All : (n : ℕ) (ps : List SentPacket) → All SentFits ps → All SentFits (pop_acked n ps)
unfolding pop_acked
pop_acked-All n [] a = tt
pop_acked-All n (p ∷ ps) a = elim (Bool-cases (leb p.packet.header.seq_nr n)) [
  | inl e ↦ rw e (pop_acked-All n ps a.1)
  | inr e ↦ rw e a
]

pub mark_again-All :
    (now window seq : ℕ) (ps : List SentPacket)
    → IsU32 now
    → IsU32 window
    → All SentFits ps
    → All SentFits (mark_again now window seq ps).0
      × All PacketFits (mark_again now window seq ps).1
unfolding mark_again
mark_again-All now window seq [] n w a = (tt, tt)
mark_again-All now window seq (p ∷ ps) n w a =
    let rest = mark_again-All now window seq ps n w a.1 in
    elim (Bool-cases (p.packet.header.seq_nr == seq)) [
      | inl e ↦ rw e (elim (Bool-cases (ltb p.retransmit_count 10)) [
        | inl l ↦ rw l (
            let fits = a.0.0.0 in
            let again : PacketFits (record p.packet {
              header = record p.packet.header { timestamp = now; wnd_size = window };
            }) =
              ((fits.0, fits.1, fits.2, n, fits.4, w, fits.6, fits.7), a.0.0.1) in
            (((again, omega (arith, ltb→lt _ _ l)), a.1), (again, tt)))
        | inr g ↦ rw g (a, tt)
      ])
      | inr e ↦ rw e ((a.0, rest.0), rest.1)
    ]
