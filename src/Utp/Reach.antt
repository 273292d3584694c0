-- ===== src/Utp/Reach.antt =====
-- The calls on a stream as a step relation, and what is sound along them.
use vincenzo.Prelude.{
  length, ℕ, ◌+◌, ◌≡◌, subst, Option, none, some, List, [], ◌∷◌, All, ◌==◌, Bool-cases, inl, inr,
  arith,
}
use vincenzo.Outcome.{Outcome, ok, err, panic}
use vincenzo.Bytes.BigEndian.{IsByte, IsU16, IsU32}
use vincenzo.Utp.Packet.{PacketType, packet_type, Header, Packet, into_bytes, packet_from_bytes}
use vincenzo.Utp.Parse.{
  HeaderFits, PacketOkFits, packet_from_bytes-PacketOkFits, packet_from_bytes-into_bytes,
}
use vincenzo.Utp.Connection.{
  UtpHeader, next_u16, numbered, new_syn, new_data, new_state, handle_new_ack, inc_duplicate_ack,
  zero_duplicate_ack,
}
use vincenzo.Utp.Connection
use vincenzo.Bytes.Buffer.{plain, plain-IsBuffer}
use vincenzo.Utp.Stream.{
  CongestionControl, UtpStream, ConnectionState, from_socket, send_syn, check_timeouts, handle_syn,
  handle_packet, push_to_write_buf, poll_write, on_packet_acked, try_receive_packet,
  handle_received, answered_with,
}
use vincenzo.Utp.Queue.{outstanding, is_empty}
use vincenzo.Utp.Flush.{
  ready, failed, would_block, Send, Flushed, Poll, flush_loop, flush_one, flush_written, poll_flush,
  poll_shutdown, shut,
}
use vincenzo.Utp.Sound.{IsSound, SentFits, PacketFits, append-All}
use vincenzo.Utp.Steps.{
  IsControl, queued-IsSound, checked-IsSound, written-IsSound, dialled-IsSound, state-IsSound,
  data-IsSound,
}

module _ {C : Type 0} (control : CongestionControl C) where
  -- a call on a stream, at a time and with random numbers that fit their types
  pub data Step (s : UtpStream C) : UtpStream C → Type 0 where
    dial : (now random : ℕ) → IsU32 now → IsU16 random → Step s (send_syn control now random s)
    receive :
        (now random : ℕ) (bytes : List ℕ) (t : UtpStream C) (out : List (List ℕ))
        → IsU32 now
        → IsU16 random
        → All IsByte bytes
        → try_receive_packet control now random bytes s ≡ ok (t, out)
        → Step s t
    write : (now : ℕ) (buf : List ℕ) → IsU32 now → Step s (poll_write control now buf s).0
    flush :
        (now : ℕ) (socket : ℕ → List ℕ → Send)
        → IsU32 now
        → Step s (poll_flush control now socket s).0
    shut_down :
        (now : ℕ) (socket : ℕ → List ℕ → Send) (last : Send)
        → IsU32 now
        → Step s (poll_shutdown control now socket last s).0

  pub data Reach (c : C) : UtpStream C → Type 0 where
    start : Reach c (from_socket control c)
    next : (s t : UtpStream C) → Reach c s → Step s t → Reach c t

module _ {C : Type 0} (control : CongestionControl C) (Good : C → Type 0)
    (is_control : IsControl control Good) where
  syn-IsSound :
      (random : ℕ) (header : Header) (s : UtpStream C)
      → IsSound Good s
      → IsU16 random
      → HeaderFits header
      → IsSound Good (handle_syn control random header s)
  unfolding handle_syn Connection.handle_syn
  syn-IsSound random header s i r h = ((r, h.6, i.0.2, h.2), i.1, i.2, i.3)

  abbrev pub OkIsSound : Outcome (UtpStream C) → Type 0
  OkIsSound (ok s) = IsSound Good s
  OkIsSound _ = Unit

  packet-OkIsSound :
      (now random : ℕ) (packet : Packet) (t : Option PacketType) (s : UtpStream C)
      → IsSound Good s
      → IsU32 now
      → IsU16 random
      → HeaderFits packet.header
      → OkIsSound (handle_packet control now random packet t s)
  unfolding handle_packet
  packet-OkIsSound now random packet (some PacketType.payload) s i n r h =
      data-IsSound control Good is_control now packet s i n h
  packet-OkIsSound now random packet (some PacketType.state) s i n r h =
      state-IsSound control Good is_control now packet.header s i n h
  packet-OkIsSound now random packet (some PacketType.syn) s i n r h =
      queued-IsSound control Good is_control now (handle_syn control random packet.header s)
        (syn-IsSound random packet.header s i r h) n
  packet-OkIsSound now random packet none s i n r h = tt
  packet-OkIsSound now random packet (some PacketType.fin) s i n r h = tt
  packet-OkIsSound now random packet (some PacketType.reset) s i n r h = tt

  abbrev pub ReceivedIsSound : Outcome (UtpStream C × List (List ℕ)) → Type 0
  ReceivedIsSound (ok (s, out)) = IsSound Good s
  ReceivedIsSound _ = Unit

  answered-IsSound :
      (t : Option PacketType) (r : Outcome (UtpStream C))
      → OkIsSound r
      → ReceivedIsSound (answered_with control t r)
  answered-IsSound t (ok s) h = h
  answered-IsSound t (err e) h = tt
  answered-IsSound t panic h = tt

  received-IsSound :
      (now random : ℕ) (r : Outcome Packet) (s : UtpStream C)
      → IsSound Good s
      → IsU32 now
      → IsU16 random
      → PacketOkFits r
      → ReceivedIsSound (handle_received control now random r s)
  unfolding on_packet_acked
  received-IsSound now random (ok packet) s i n r h =
      answered-IsSound (packet_type packet.header.type_ver) _ (
        packet-OkIsSound now random packet (packet_type packet.header.type_ver)
          (on_packet_acked control now (outstanding 0 s.sent_packets) packet.header.timestamp_diff
            s)
          (i.0, i.1, i.2, is_control.window_keeps now _ _ _ (is_control.rtt_keeps now _ _ s.cc i.3))
          n r h)
  received-IsSound now random (err e) s i n r h = tt
  received-IsSound now random panic s i n r h = tt

  flush_one-fits :
      (a : Send) (p : Packet) (ps : List Packet) (rest : Flushed)
      → PacketFits p
      → All PacketFits ps
      → All SentFits rest.to_sent × All PacketFits rest.kept
      → All SentFits (flush_one a p ps rest).to_sent × All PacketFits (flush_one a p ps rest).kept
  flush_one-fits (ready n) p ps rest f fs h = elim (Bool-cases (n == length (into_bytes p))) [
    | inl e ↦ rw e (((f, omega arith), h.0), h.1)
    | inr e ↦ rw e (h.0, (f, h.1))
  ]
  flush_one-fits failed p ps rest f fs h = (tt, (f, fs))
  flush_one-fits would_block p ps rest f fs h = (h.0, (f, h.1))

  flush_loop-fits :
      (socket : ℕ → List ℕ → Send) (k : ℕ) (ps : List Packet)
      → All PacketFits ps
      → All SentFits (flush_loop socket k ps).to_sent × All PacketFits (flush_loop socket k ps).kept
  unfolding flush_loop
  flush_loop-fits socket k [] f = (tt, tt)
  flush_loop-fits socket k (p ∷ ps) f =
      flush_one-fits (socket k (into_bytes p)) p ps _ f.0 f.1
        (flush_loop-fits socket (k + 1) ps f.1)

  flushed-IsSound :
      (now : ℕ) (socket : ℕ → List ℕ → Send) (s : UtpStream C)
      → IsSound Good s
      → IsU32 now
      → IsSound Good (poll_flush control now socket s).0
  unfolding poll_flush flush_written
  flushed-IsSound now socket s i n =
      let checked = check_timeouts control now s in
      let sound = checked-IsSound control Good is_control now s i n in
      let loop = flush_loop-fits socket 0 checked.write_buf sound.2 in
      elim (Bool-cases (is_empty checked.write_buf)) [
        | inl e ↦ rw e sound
        | inr e ↦
            rw e
              (sound.0, append-All SentFits checked.sent_packets _ sound.1 loop.0, loop.1, sound.3)
      ]

  shut-IsSound :
      (last : Send) (r : UtpStream C × Poll)
      → IsSound Good r.0
      → IsSound Good (shut control last r).0
  shut-IsSound (ready n) (s, Poll.done) i = i
  shut-IsSound failed (s, Poll.done) i = i
  shut-IsSound would_block (s, Poll.done) i = i
  shut-IsSound last (s, Poll.error) i = i
  shut-IsSound last (s, Poll.pending) i = i

  Step-IsSound : (s t : UtpStream C) → Step control s t → IsSound Good s → IsSound Good t
  unfolding poll_write poll_shutdown try_receive_packet
  Step-IsSound s t (dial now random n r) i =
      dialled-IsSound control Good is_control now random s i n r
  Step-IsSound s t (receive now random bytes u out n r b e) i = subst ReceivedIsSound e (
      received-IsSound now random (packet_from_bytes bytes) s i n r
        (packet_from_bytes-PacketOkFits bytes b))
  Step-IsSound s t (write now buf n) i =
      checked-IsSound control Good is_control now (push_to_write_buf control now buf s)
        (written-IsSound control Good is_control now buf s i n) n
  Step-IsSound s t (flush now socket n) i = flushed-IsSound now socket s i n
  Step-IsSound s t (shut_down now socket last n) i =
      shut-IsSound last _
        (flushed-IsSound now socket (record s { state = ConnectionState.closing }) i n)

  -- With a congestion control that starts in a good state, whose calls keep it good and whose
  -- window is a u32 in every good state (`ledbat` is one): after any calls, whose times, random
  -- numbers and received bytes fit their types, from a new stream on, the numbers of the connection
  -- are u16s, every packet that is kept as sent or is to be sent has fields in their ranges and a
  -- known type and version, no entry of the sent packets counts more than ten retransmissions, and
  -- the control is in a good state still.
  pub Reach-IsSound : (c : C) (s : UtpStream C) → Good c → Reach control c s → IsSound Good s
  unfolding from_socket Connection.new
  Reach-IsSound c s g start = ((omega arith, omega arith, omega arith, omega arith), tt, tt, g)
  Reach-IsSound c t g (next s u r step) = Step-IsSound s u step (Reach-IsSound c s g r)

  packets_parse :
      (ps : List Packet) → All PacketFits ps → All (λ p. packet_from_bytes (into_bytes p) ≡ ok p) ps
  packets_parse [] f = tt
  packets_parse (p ∷ ps) f =
      ((packet_from_bytes-into_bytes plain p plain-IsBuffer f.0.0 f.0.1).0, packets_parse ps f.1)

  -- With a congestion control that starts in a good state, whose calls keep it good and whose
  -- window is a u32 in every good state (`ledbat` is one): after any calls, whose times, random
  -- numbers and received bytes fit their types, from a new stream on, each packet that is to be
  -- written is a datagram that `Packet::from_bytes` of the other side reads as that packet.
  pub Reach-parses :
      (c : C) (s : UtpStream C)
      → Good c
      → Reach control c s
      → All (λ p. packet_from_bytes (into_bytes p) ≡ ok p) s.write_buf
  Reach-parses c s g r = packets_parse s.write_buf (Reach-IsSound c s g r).2
