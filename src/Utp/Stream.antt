-- ===== src/Utp/Stream.antt =====
-- `UtpStream` of crates/utp/src/stream.rs: the handlers of packets and the retransmission of lost
-- ones. The congestion control is an interface. `println!` is left out.
use vincenzo.Prelude.{
  ℕ, Bool, not, ◌&&◌, ◌||◌, Option, none, some, List, [], ◌∷◌, ◌++◌, length, ltb, leb, ◌==◌,
  if◌then◌else◌,
}
use vincenzo.Outcome.{Outcome, ok, err, panic, other}
use vincenzo.Utp.Packet.{PacketType, Header, Packet, packet_from_bytes, packet_type}
use vincenzo.Utp.Connection.{
  UtpHeader, next_u16, get_rtt, new_syn, new_fin, new_data, new_state, inc_duplicate_ack,
  zero_duplicate_ack, handle_new_ack,
}
use vincenzo.Utp.Connection
use vincenzo.Utp.Queue.{
  SentPacket, is_empty, first_send, pop_acked, retain_after, mark_again, first_late, outstanding,
  reply, any_payload,
}

pub data ConnectionState : Type 0 where
  syn_sent syn_recv connected closing closed : ConnectionState

-- what a stream uses of its `CongestionControl`, at a time that the clock shows
pub record CongestionControl (C : Type 0) : Type 0 where
  pub window : C → ℕ
  pub timeout : C → ℕ
  pub packet_loss : ℕ → C → C
  pub update_rtt : ℕ → ℕ → ℕ → C → C
  pub update_window : ℕ → ℕ → ℕ → C → C

pub record UtpStream (C : Type 0) : Type 0 where
  pub utp_header : UtpHeader
  pub state : ConnectionState
  pub cc : C
  pub incoming_buf : List (List ℕ)
  pub sent_packets : List SentPacket
  pub write_buf : List Packet

abbrev pub syn_received : ConnectionState → ConnectionState
syn_received ConnectionState.closed = ConnectionState.syn_recv
syn_received st = st

abbrev pub syn_answered : ConnectionState → ConnectionState
syn_answered ConnectionState.syn_sent = ConnectionState.connected
syn_answered st = st

module _ {C : Type 0} (control : CongestionControl C) where
  open control use {window, timeout, packet_loss, update_rtt, update_window}

  unfoldable pub from_socket : C → UtpStream C
  unfolding Connection.new
  from_socket cc = record {
    utp_header = Connection.new;
    state = ConnectionState.closed;
    cc = cc;
    incoming_buf = [];
    sent_packets = [];
    write_buf = [];
  }

  unfoldable pub on_packet_acked : ℕ → ℕ → ℕ → UtpStream C → UtpStream C
  unfolding get_rtt
  on_packet_acked now outstanding_bytes timestamp_diff s = record s {
    cc =
        update_window now outstanding_bytes timestamp_diff
          (update_rtt now (get_rtt now s.utp_header) timestamp_diff s.cc);
  }

  -- `send_syn`, where the socket takes the packet
  unfoldable pub send_syn : ℕ → ℕ → UtpStream C → UtpStream C
  unfolding new_syn
  send_syn now random s =
      let (u, header) = new_syn now random (window s.cc) s.utp_header in
      record s {
        utp_header = u;
        sent_packets =
            s.sent_packets ++ (first_send (record { header = header; payload = [] }) ∷ []);
        state = ConnectionState.syn_sent;
      }

  unfoldable pub handle_syn : ℕ → Header → UtpStream C → UtpStream C
  unfolding Connection.handle_syn
  handle_syn random header s = record s {
    state = syn_received s.state;
    utp_header = Connection.handle_syn random header s.utp_header;
  }

  unfoldable pub send_state : ℕ → UtpStream C → UtpStream C
  unfolding new_state
  send_state now s =
      let (u, header) = new_state now (window s.cc) s.utp_header in
      record s {
        utp_header = u;
        sent_packets =
            s.sent_packets ++ (first_send (record { header = header; payload = [] }) ∷ []);
      }

  unfoldable pub process_new_ack : ℕ → UtpStream C → UtpStream C
  unfolding pop_acked retain_after
  process_new_ack ack_nr s = record s {
    sent_packets = pop_acked ack_nr s.sent_packets;
    utp_header = record s.utp_header { ack_history = retain_after ack_nr s.utp_header.ack_history };
  }

  unfoldable pub retransmit_packet : ℕ → ℕ → UtpStream C → UtpStream C
  unfolding mark_again
  retransmit_packet now seq_nr s =
      let (sent, again) = mark_again now (window s.cc) seq_nr s.sent_packets in
      record s { sent_packets = sent; write_buf = s.write_buf ++ again }

  unfoldable pub handle_packet_loss : ℕ → ℕ → UtpStream C → UtpStream C
  unfolding retransmit_packet zero_duplicate_ack
  handle_packet_loss now seq_nr s =
      let lost = retransmit_packet now seq_nr (record s { cc = packet_loss now s.cc }) in
      record lost { utp_header = zero_duplicate_ack seq_nr lost.utp_header }

  abbrev pub lose : ℕ → Option ℕ → UtpStream C → UtpStream C
  lose now none s = s
  lose now (some seq_nr) s = handle_packet_loss now seq_nr s

  unfoldable pub check_timeouts : ℕ → UtpStream C → UtpStream C
  unfolding first_late
  check_timeouts now s = lose now (first_late now (timeout s.cc) s.sent_packets) s

  unfoldable pub is_new_ack : Header → UtpStream C → Bool
  is_new_ack header s =
      ltb s.utp_header.last_ack_nr header.ack_nr
      || ((header.ack_nr == 0) && (s.utp_header.last_ack_nr == 0))

  -- a duplicate: the third one, and every later one, means that a packet is lost
  unfoldable pub duplicate_ack : ℕ → Header → UtpStream C → UtpStream C
  unfolding inc_duplicate_ack handle_packet_loss
  duplicate_ack now header s =
      let (u, count) = inc_duplicate_ack header.seq_nr s.utp_header in
      let counted = record s { utp_header = u } in
      if leb 3 count then handle_packet_loss now (next_u16 header.ack_nr) counted else counted

  unfoldable pub handle_state : ℕ → Header → UtpStream C → UtpStream C
  unfolding is_new_ack duplicate_ack process_new_ack handle_new_ack
  handle_state now header s =
      let answered = record s { state = syn_answered s.state } in
      if is_new_ack header s
      then process_new_ack header.ack_nr
          (record answered { utp_header = handle_new_ack header s.utp_header })
      else duplicate_ack now header answered

  unfoldable pub push_to_write_buf : ℕ → List ℕ → UtpStream C → UtpStream C
  unfolding new_data
  push_to_write_buf now payload s =
      let (u, header) = new_data now (window s.cc) s.utp_header in
      record s {
        utp_header = u;
        write_buf = s.write_buf ++ (record { header = header; payload = payload } ∷ []);
      }

  unfoldable pub any_packet_to_send : UtpStream C → Bool
  unfolding any_payload
  any_packet_to_send s = not (is_empty s.write_buf) && any_payload s.write_buf

  unfoldable pub handle_data : ℕ → Packet → UtpStream C → UtpStream C
  unfolding process_new_ack send_state any_packet_to_send Connection.handle_data
  handle_data now packet s =
      let acked = process_new_ack packet.header.ack_nr (record s {
        state = ConnectionState.connected;
        utp_header = Connection.handle_data packet.header s.utp_header;
      }) in
      if any_packet_to_send acked then acked else send_state now acked

  -- the match on the type; `handle_fin` and `handle_reset` are `todo!()`, which panics
  unfoldable pub handle_packet :
      ℕ → ℕ → Packet → Option PacketType → UtpStream C → Outcome (UtpStream C)
  unfolding handle_data handle_state handle_syn send_state
  handle_packet now random packet none s = err other
  handle_packet now random packet (some PacketType.payload) s = ok (handle_data now packet s)
  handle_packet now random packet (some PacketType.state) s = ok (handle_state now packet.header s)
  handle_packet now random packet (some PacketType.syn) s =
      ok (send_state now (handle_syn random packet.header s))
  handle_packet now random packet (some PacketType.fin) s = panic
  handle_packet now random packet (some PacketType.reset) s = panic

  -- `poll_write`: it always takes all the bytes
  unfoldable pub poll_write : ℕ → List ℕ → UtpStream C → UtpStream C × ℕ
  unfolding push_to_write_buf check_timeouts
  poll_write now buf s = (check_timeouts now (push_to_write_buf now buf s), length buf)

  abbrev pub answered_with :
      Option PacketType → Outcome (UtpStream C) → Outcome (UtpStream C × List (List ℕ))
  answered_with t (ok s) = ok (s, reply t s.sent_packets)
  answered_with t (err e) = err e
  answered_with t panic = panic

  abbrev pub handle_received :
      ℕ → ℕ → Outcome Packet → UtpStream C → Outcome (UtpStream C × List (List ℕ))
  handle_received now random (ok packet) s =
      let measured =
        on_packet_acked now (outstanding 0 s.sent_packets) packet.header.timestamp_diff s in
      let t = packet_type packet.header.type_ver in
      answered_with t (handle_packet now random packet t measured)
  handle_received now random (err e) s = err e
  handle_received now random panic s = panic

  -- `try_receive_packet`, once the socket has received a datagram: the stream after it, and the
  -- datagrams that are handed to the socket
  unfoldable pub try_receive_packet :
      ℕ → ℕ → List ℕ → UtpStream C → Outcome (UtpStream C × List (List ℕ))
  unfolding on_packet_acked handle_packet
  try_receive_packet now random bytes s = handle_received now random (packet_from_bytes bytes) s
