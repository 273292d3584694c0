-- ===== src/Utp/Delivery.antt =====
-- What `poll_flush` and `poll_shutdown` do with the packets that are to be written.
use vincenzo.Prelude.{
  ℕ, ◌+◌, ◌≡◌, refl, List, [], ◌∷◌, ◌++◌, append-nil, length, ◌==◌, ==_refl, map, Bool-cases, inl,
  inr, arith,
}
use vincenzo.Utp.Packet.{Packet, into_bytes}
use vincenzo.Utp.Stream.{
  CongestionControl, UtpStream, ConnectionState, check_timeouts, handle_packet_loss,
  retransmit_packet,
}
use vincenzo.Utp.Queue.{SentPacket, first_send}
use vincenzo.Utp.Flush.{
  Send, ready, failed, would_block, Poll, done, error, pending, Flushed, flush_loop, flush_one,
  flush_written, poll_flush, poll_shutdown, shut,
}

-- `all` is made of `front` and `back`, each in its own order
pub data Interleaved : List Packet → List Packet → List Packet → Type 0 where
  neither : Interleaved [] [] []
  in_front :
      (p : Packet) {front back all : List Packet}
      → Interleaved front back all
      → Interleaved (p ∷ front) back (p ∷ all)
  in_back :
      (p : Packet) {front back all : List Packet}
      → Interleaved front back all
      → Interleaved front (p ∷ back) (p ∷ all)

only_back : (ps : List Packet) → Interleaved [] ps ps
only_back [] = neither
only_back (p ∷ ps) = in_back p (only_back ps)

abbrev pub packets : List SentPacket → List Packet
packets ps = map (λ p. p.packet) ps

flush_one-Interleaved :
    (a : Send) (p : Packet) (ps : List Packet) (rest : Flushed)
    → Interleaved (packets rest.to_sent) rest.kept ps
    → Interleaved (packets (flush_one a p ps rest).to_sent) (flush_one a p ps rest).kept (p ∷ ps)
flush_one-Interleaved (ready n) p ps rest h = elim (Bool-cases (n == length (into_bytes p))) [
  | inl e ↦ rw e (in_front p h)
  | inr e ↦ rw e (in_back p h)
]
flush_one-Interleaved failed p ps rest h = in_back p (only_back ps)
flush_one-Interleaved would_block p ps rest h = in_back p h

flush_loop-Interleaved :
    (socket : ℕ → List ℕ → Send) (i : ℕ) (ps : List Packet)
    → Interleaved (packets (flush_loop socket i ps).to_sent) (flush_loop socket i ps).kept ps
unfolding flush_loop
flush_loop-Interleaved socket i [] = neither
flush_loop-Interleaved socket i (p ∷ ps) =
    flush_one-Interleaved (socket i (into_bytes p)) p ps _
      (flush_loop-Interleaved socket (i + 1) ps)

-- a socket that takes every datagram, and one that is never ready
abbrev pub TakesAll : (ℕ → List ℕ → Send) → Type 0
TakesAll socket = (i : ℕ) (bs : List ℕ) → socket i bs ≡ ready (length bs)

abbrev pub TakesNone : (ℕ → List ℕ → Send) → Type 0
TakesNone socket = (i : ℕ) (bs : List ℕ) → socket i bs ≡ would_block

flush_loop_all :
    (socket : ℕ → List ℕ → Send) (i : ℕ) (ps : List Packet)
    → TakesAll socket
    → flush_loop socket i ps ≡ record { to_sent = map first_send ps; kept = []; result = done }
unfolding flush_loop
flush_loop_all socket i [] t = refl
flush_loop_all socket i (p ∷ ps) t =
    rw (t i (into_bytes p), ==_refl (length (into_bytes p)), flush_loop_all socket (i + 1) ps t)
      refl

flush_loop_none :
    (socket : ℕ → List ℕ → Send) (i : ℕ) (ps : List Packet)
    → TakesNone socket
    → flush_loop socket i ps ≡ record { to_sent = []; kept = ps; result = done }
unfolding flush_loop
flush_loop_none socket i [] t = refl
flush_loop_none socket i (p ∷ ps) t =
    rw (t i (into_bytes p), flush_loop_none socket (i + 1) ps t) refl

module _ {C : Type 0} (control : CongestionControl C) where
  -- Whatever the socket answers, a flush loses, doubles and reorders no packet: the written ones
  -- are split into those appended to the sent ones and those that stay, both in their order.
  pub flush_written_splits :
      (socket : ℕ → List ℕ → Send) (s : UtpStream C)
      → (new : List SentPacket) × ((flush_written control socket s).0.sent_packets
          ≡ s.sent_packets ++ new)
        × Interleaved (packets new) (flush_written control socket s).0.write_buf s.write_buf
  unfolding flush_written
  flush_written_splits socket s = (_, refl, flush_loop-Interleaved socket 0 s.write_buf)

  -- Where the socket takes every datagram, a flush leaves nothing to write, and all of it is sent
  -- in order; where the socket is never ready, the flush reports success too, and has sent nothing.
  flush_written_all :
      (taking blocked : ℕ → List ℕ → Send) (s : UtpStream C)
      → TakesAll taking
      → TakesNone blocked
      → (flush_written control taking s ≡ (
        record s { sent_packets = s.sent_packets ++ map first_send s.write_buf; write_buf = [] },
        done,
      ))
        × (flush_written control blocked s ≡ (s, done))
  unfolding flush_written
  flush_written_all taking blocked s t b = (
    rw (flush_loop_all taking 0 s.write_buf t) refl,
    rw (flush_loop_none blocked 0 s.write_buf b, append-nil s.sent_packets) refl,
  )

  abbrev pub Closes : UtpStream C × Poll → Type 0
  Closes (s, pending) = s.state ≡ ConnectionState.closing
  Closes (s, done) = s.state ≡ ConnectionState.closed
  Closes (s, error) = s.state ≡ ConnectionState.closed

  check_timeouts_state :
      (now : ℕ) (s : UtpStream C) → (check_timeouts control now s).state ≡ s.state
  unfolding check_timeouts handle_packet_loss retransmit_packet
  check_timeouts_state now s = ground arith

  poll_flush_state :
      (now : ℕ) (socket : ℕ → List ℕ → Send) (s : UtpStream C)
      → (poll_flush control now socket s).0.state ≡ s.state
  unfolding poll_flush flush_written
  poll_flush_state now socket s = ground (arith, check_timeouts_state now s)

  shut-Closes :
      (last : Send) (r : UtpStream C × Poll)
      → r.0.state ≡ ConnectionState.closing
      → Closes (shut control last r)
  shut-Closes (ready n) (s, done) h = refl
  shut-Closes failed (s, done) h = refl
  shut-Closes would_block (s, done) h = h
  shut-Closes last (s, error) h = refl
  shut-Closes last (s, pending) h = h

  -- A shutdown that is over, with or without an error, leaves the stream closed, and one that is
  -- pending leaves it closing, whatever the socket answers.
  poll_shutdown-Closes :
      (now : ℕ) (socket : ℕ → List ℕ → Send) (last : Send) (s : UtpStream C)
      → Closes (poll_shutdown control now socket last s)
  unfolding poll_shutdown
  poll_shutdown-Closes now socket last s =
      shut-Closes last _
        (poll_flush_state now socket (record s { state = ConnectionState.closing }))
