-- ===== src/Utp/Steps.antt =====
-- The writing, the acknowledgements and the losses of a stream keep it sound.
use vincenzo.Prelude.{ℕ, Option, none, some, List, [], leb, Bool-cases, inl, inr, arith}
use vincenzo.Bytes.BigEndian.{IsU16, IsU32}
use vincenzo.Utp.Packet.{PacketType, Header, Packet}
use vincenzo.Utp.Parse.{HeaderFits, packet_type-from_packet}
use vincenzo.Utp.Connection.{
  UtpHeader, next_u16, numbered, new_syn, new_data, new_state, handle_new_ack, inc_duplicate_ack,
  zero_duplicate_ack,
}
use vincenzo.Utp.Connection
use vincenzo.Utp.Stream.{
  CongestionControl, UtpStream, ConnectionState, lose, syn_answered, send_syn, send_state,
  process_new_ack, retransmit_packet, handle_packet_loss, check_timeouts, duplicate_ack,
  handle_state, is_new_ack, handle_data, any_packet_to_send, push_to_write_buf,
}
use vincenzo.Utp.Sound.{
  IsSound, SentFits, PacketFits, append-All, from_packet-IsByte, numbered-fits, pop_acked-All,
  mark_again-All,
}

-- What a congestion control promises: its calls keep its state good, and the window of a good state is
-- a u32.
pub record IsControl {C : Type 0} (control : CongestionControl C) (Good : C → Type 0) : Type 0 where
  pub window_fits : (c : C) → Good c → IsU32 (control.window c)
  pub loss_keeps : (now : ℕ) (c : C) → Good c → Good (control.packet_loss now c)
  pub rtt_keeps : (now rtt diff : ℕ) (c : C) → Good c → Good (control.update_rtt now rtt diff c)
  pub window_keeps :
      (now outstanding diff : ℕ) (c : C)
      → Good c
      → Good (control.update_window now outstanding diff c)

module _ {C : Type 0} (control : CongestionControl C) (Good : C → Type 0)
    (is_control : IsControl control Good) where
  open control use {window}

  pub queued-IsSound :
      (now : ℕ) (s : UtpStream C)
      → IsSound Good s
      → IsU32 now
      → IsSound Good (send_state control now s)
  unfolding send_state new_state
  queued-IsSound now s i n = (
    (omega arith, i.0.1, i.0.2, i.0.3),
    append-All SentFits s.sent_packets _ i.1 (
      (
        numbered-fits PacketType.state now (window s.cc) [] s.utp_header i.0 n
            (is_control.window_fits s.cc i.3),
        omega arith,
      ),
      tt,
    ),
    i.2,
    i.3,
  )

  acked-IsSound :
      (ack : ℕ) (s : UtpStream C) → IsSound Good s → IsSound Good (process_new_ack control ack s)
  unfolding process_new_ack
  acked-IsSound ack s i = (i.0, pop_acked-All ack s.sent_packets i.1, i.2, i.3)

  lost-IsSound :
      (now seq : ℕ) (s : UtpStream C)
      → IsSound Good s
      → IsU32 now
      → IsSound Good (handle_packet_loss control now seq s)
  unfolding handle_packet_loss retransmit_packet zero_duplicate_ack
  lost-IsSound now seq s i n =
      let good = is_control.loss_keeps now s.cc i.3 in
      let again =
        mark_again-All now (window (control.packet_loss now s.cc)) seq s.sent_packets n
          (is_control.window_fits _ good) i.1 in
      (i.0, again.0, append-All PacketFits s.write_buf _ i.2 again.1, good)

  lose-IsSound :
      (now : ℕ) (late : Option ℕ) (s : UtpStream C)
      → IsSound Good s
      → IsU32 now
      → IsSound Good (lose control now late s)
  lose-IsSound now none s i n = i
  lose-IsSound now (some seq_nr) s i n = lost-IsSound now seq_nr s i n

  pub checked-IsSound :
      (now : ℕ) (s : UtpStream C)
      → IsSound Good s
      → IsU32 now
      → IsSound Good (check_timeouts control now s)
  unfolding check_timeouts
  checked-IsSound now s i n = lose-IsSound now _ s i n

  pub written-IsSound :
      (now : ℕ) (buf : List ℕ) (s : UtpStream C)
      → IsSound Good s
      → IsU32 now
      → IsSound Good (push_to_write_buf control now buf s)
  unfolding push_to_write_buf new_data
  written-IsSound now buf s i n = (
    (omega arith, i.0.1, i.0.2, i.0.3),
    i.1,
    append-All PacketFits s.write_buf _ i.2 (
      numbered-fits PacketType.payload now (window s.cc) buf s.utp_header i.0 n
          (is_control.window_fits s.cc i.3),
      tt,
    ),
    i.3,
  )

  pub dialled-IsSound :
      (now random : ℕ) (s : UtpStream C)
      → IsSound Good s
      → IsU32 now
      → IsU16 random
      → IsSound Good (send_syn control now random s)
  unfolding send_syn new_syn
  dialled-IsSound now random s i n r = (
    (omega arith, i.0.1, i.0.2, omega arith),
    append-All SentFits s.sent_packets _ i.1 (
      (
        (
          (
            from_packet-IsByte PacketType.syn,
            omega arith,
            r,
            n,
            omega arith,
            is_control.window_fits s.cc i.3,
            i.0.0,
            i.0.1,
          ),
          (packet_type-from_packet PacketType.syn).2,
        ),
        omega arith,
      ),
      tt,
    ),
    i.2,
    i.3,
  )

  duplicate-IsSound :
      (now : ℕ) (header : Header) (s : UtpStream C)
      → IsSound Good s
      → IsU32 now
      → IsSound Good (duplicate_ack control now header s)
  unfolding duplicate_ack inc_duplicate_ack
  duplicate-IsSound now header s i n =
      let counted = inc_duplicate_ack header.seq_nr s.utp_header in
      let t = record s { utp_header = counted.0 } in
      elim (Bool-cases (leb 3 counted.1)) [
        | inl e ↦ rw e (lost-IsSound now (next_u16 header.ack_nr) t i n)
        | inr e ↦ rw e i
      ]

  pub state-IsSound :
      (now : ℕ) (header : Header) (s : UtpStream C)
      → IsSound Good s
      → IsU32 now
      → HeaderFits header
      → IsSound Good (handle_state control now header s)
  unfolding handle_state handle_new_ack
  state-IsSound now header s i n h = elim (Bool-cases (is_new_ack control header s)) [
    | inl e ↦ rw e (
        acked-IsSound header.ack_nr
          (record s {
            state = syn_answered s.state;
            utp_header = handle_new_ack header s.utp_header;
          })
          ((i.0.0, h.6, h.7, i.0.3), i.1, i.2, i.3))
    | inr e ↦ rw e (duplicate-IsSound now header (record s { state = syn_answered s.state }) i n)
  ]

  pub data-IsSound :
      (now : ℕ) (packet : Packet) (s : UtpStream C)
      → IsSound Good s
      → IsU32 now
      → HeaderFits packet.header
      → IsSound Good (handle_data control now packet s)
  unfolding handle_data Connection.handle_data
  data-IsSound now packet s i n h =
      let got = record s {
        state = ConnectionState.connected;
        utp_header = Connection.handle_data packet.header s.utp_header;
      } in
      let acked = process_new_ack control packet.header.ack_nr got in
      let sound =
        acked-IsSound packet.header.ack_nr got ((i.0.0, h.6, i.0.2, i.0.3), i.1, i.2, i.3) in
      elim (Bool-cases (any_packet_to_send control acked)) [
        | inl e ↦ rw e sound
        | inr e ↦ rw e (queued-IsSound now acked sound n)
      ]
