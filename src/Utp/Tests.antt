-- ===== src/Utp/Tests.antt =====
-- Runs of packets and streams, and their theorems at concrete inputs.
use vincenzo.Prelude.{
  ℕ, ◌≡◌, refl, false, some, List, [], ◌∷◌, ◌++◌, length, All, arith, ltb, if◌then◌else◌,
}
use vincenzo.Outcome.{ok}
use vincenzo.Bytes.Buffer.{plain, plain-IsBuffer}
use vincenzo.Utp.Packet.{
  packet_type_try_from, PacketType, from_packet, packet_type, version, is_foreign, Header, Packet,
  to_bytes, from_bytes, into_bytes, packet_from_bytes, put_header, as_bytes_mut,
}
use vincenzo.Utp.Parse.{
  HeaderFits, packet_type-from_packet, from_bytes-to_bytes, to_bytes-from_bytes,
  packet_from_bytes-into_bytes, ParsesAs, packet_from_bytes-ParsesAs,
}
use vincenzo.Utp.Connection.{duplicates}
use vincenzo.Utp.Stream.{
  CongestionControl, UtpStream, from_socket, send_syn, process_new_ack, poll_write,
}
use vincenzo.Utp.Queue.{SentPacket, first_send}
use vincenzo.Utp.Flush.{Send, ready, would_block, flush_written}
use vincenzo.Utp.Acks.{sent_after, process_new_ack-eq-sent_after}
use vincenzo.Utp.Delivery.{Interleaved, packets, flush_written_splits}
use vincenzo.Utp.Sound.{IsSound}
use vincenzo.Utp.Steps.{IsControl}
use vincenzo.Utp.Congestion.{Congestion, new_congestion, ledbat}
use vincenzo.Utp.Ledbat.{IsSteady, ledbat-IsControl}
use vincenzo.Utp.CongestionTests.{saturating, saturating-IsFloat}
use vincenzo.Utp.Reach.{Reach, start, next, dial, write, Reach-IsSound, Reach-parses}

-- a fixed window and timeout
abbrev fixed : CongestionControl ℕ
fixed = record {
  window = λ c. 1500;
  timeout = λ c. 500;
  packet_loss = λ now c. c;
  update_rtt = λ now rtt diff c. c;
  update_window = λ now out diff c. c;
}

abbrev a_header : Header
a_header = record {
  type_ver = 1;
  extension = 0;
  conn_id = 12345;
  timestamp = 1000000;
  timestamp_diff = 500000;
  wnd_size = 10000;
  seq_nr = 7;
  ack_nr = 5;
}

abbrev a_packet : Packet
a_packet = record { header = a_header; payload = 9 ∷ 8 ∷ [] }

a_header-HeaderFits : HeaderFits a_header
a_header-HeaderFits = omega arith

-- the test `header_serialization` of header.rs
header_bytes :
    to_bytes a_header
    ≡ 1 ∷ 0 ∷ 48 ∷ 57 ∷ 0 ∷ 15 ∷ 66 ∷ 64 ∷ 0 ∷ 7 ∷ 161 ∷ 32 ∷ 0 ∷ 0 ∷ 39 ∷ 16 ∷ 0 ∷ 7 ∷ 0 ∷ 5 ∷ []
unfolding to_bytes
header_bytes = refl

-- three packets in flight, and one to write
abbrev in_flight : UtpStream ℕ
in_flight = record (from_socket fixed 0) {
  sent_packets = numbered_as 5 ∷ numbered_as 6 ∷ numbered_as 7 ∷ [];
  write_buf = a_packet ∷ [];
  utp_header = record (from_socket fixed 0).utp_header {
    last_ack_nr = 5;
    ack_history = (7, 2) ∷ [];
  };
}
  where
    numbered_as : ℕ → SentPacket
    numbered_as n = first_send (record { header = record a_header { seq_nr = n }; payload = [] })

packet_type-from_packet_example :
    (packet_type (from_packet PacketType.syn) ≡ some PacketType.syn)
    × (version (from_packet PacketType.syn) ≡ 1)
    × (is_foreign (from_packet PacketType.syn ∷ []) ≡ false)
packet_type-from_packet_example = packet_type-from_packet PacketType.syn

from_bytes-to_bytes_example :
    (from_bytes (to_bytes a_header) ≡ ok a_header)
    × (put_header plain a_header [] ≡ (ok tt, to_bytes a_header))
from_bytes-to_bytes_example = from_bytes-to_bytes plain a_header plain-IsBuffer a_header-HeaderFits

to_bytes-from_bytes_example : (to_bytes a_header ≡ to_bytes a_header) × HeaderFits a_header
unfolding to_bytes
to_bytes-from_bytes_example =
    to_bytes-from_bytes (to_bytes a_header) a_header (omega arith) (unfold from_bytes in refl)

packet_from_bytes-into_bytes_example :
    (packet_from_bytes (into_bytes a_packet) ≡ ok a_packet)
    × (as_bytes_mut plain a_packet [] ≡ (ok tt, into_bytes a_packet))
unfolding packet_type_try_from
packet_from_bytes-into_bytes_example =
    packet_from_bytes-into_bytes plain a_packet plain-IsBuffer a_header-HeaderFits refl

packet_from_bytes-ParsesAs_example : ParsesAs (1 ∷ 2 ∷ []) (packet_from_bytes (1 ∷ 2 ∷ []))
packet_from_bytes-ParsesAs_example = packet_from_bytes-ParsesAs (1 ∷ 2 ∷ [])

process_new_ack-eq-sent_after_example :
    ((process_new_ack fixed 6 in_flight).sent_packets ≡ sent_after 6 in_flight.sent_packets)
    × (duplicates 7 (process_new_ack fixed 6 in_flight).utp_header
        ≡ (if ltb 6 7 then duplicates 7 in_flight.utp_header else 0))
process_new_ack-eq-sent_after_example =
    process_new_ack-eq-sent_after fixed 6 7 in_flight (omega arith)

abbrev takes : ℕ → List ℕ → Send
takes i bs = ready (length bs)

abbrev blocked : ℕ → List ℕ → Send
blocked i bs = would_block

flush_written_splits_example :
    (new : List SentPacket) × ((flush_written fixed takes in_flight).0.sent_packets
      ≡ in_flight.sent_packets ++ new)
    × Interleaved
        (packets new)
        (flush_written fixed takes in_flight).0.write_buf
        in_flight.write_buf
flush_written_splits_example = flush_written_splits fixed takes in_flight

-- a call, and data written at once, with the control of the program
abbrev control : CongestionControl Congestion
control = ledbat saturating

abbrev fresh_stream : UtpStream Congestion
fresh_stream = from_socket control (new_congestion 0)

abbrev called : UtpStream Congestion
called = send_syn control 1 65535 fresh_stream

abbrev talking : UtpStream Congestion
talking = (poll_write control 2 (104 ∷ 105 ∷ []) called).0

control-IsControl : IsControl control IsSteady
control-IsControl = ledbat-IsControl saturating saturating-IsFloat

abbrev talking-Reach : Reach control (new_congestion 0) talking
talking-Reach =
    next called talking (next fresh_stream called start (dial 1 65535 (omega arith) (omega arith)))
      (write 2 (104 ∷ 105 ∷ []) (omega arith))

new_congestion-IsSteady : IsSteady (new_congestion 0)
unfolding new_congestion
new_congestion-IsSteady = omega arith

Reach-IsSound_example : IsSound IsSteady talking
Reach-IsSound_example =
    Reach-IsSound control IsSteady control-IsControl (new_congestion 0) talking
      new_congestion-IsSteady talking-Reach

Reach-parses_example : All (λ p. packet_from_bytes (into_bytes p) ≡ ok p) talking.write_buf
Reach-parses_example =
    Reach-parses control IsSteady control-IsControl (new_congestion 0) talking
      new_congestion-IsSteady talking-Reach
