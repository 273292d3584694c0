-- ===== src/Utp/Flush.antt =====
-- `poll_flush` and `poll_shutdown` of `UtpStream`, in crates/utp/src/stream.rs. What the socket
-- answers to each datagram is an argument.
use vincenzo.Prelude.{ℕ, ◌+◌, List, [], ◌∷◌, ◌++◌, length, ◌==◌, if◌then◌else◌}
use vincenzo.Utp.Packet.{Packet, into_bytes}
use vincenzo.Utp.Stream.{CongestionControl, UtpStream, ConnectionState, check_timeouts}
use vincenzo.Utp.Queue.{SentPacket, first_send, is_empty}

-- what `UdpSocket::poll_send` returns: the number of bytes, an error, or that it would block
pub data Send : Type 0 where
  ready : ℕ → Send
  failed would_block : Send

pub data Poll : Type 0 where
  done error pending : Poll

-- what the loop over the write buffer leaves: sent, kept, and whether an error ended it
pub record Flushed : Type 0 where
  pub to_sent : List SentPacket
  pub kept : List Packet
  pub result : Poll

abbrev pub keep : Packet → Flushed → Flushed
keep p f = record f { kept = p ∷ f.kept }

abbrev pub sent : Packet → Flushed → Flushed
sent p f = record f { to_sent = first_send p ∷ f.to_sent }

-- one packet: `rest` is what the loop makes of those behind it
abbrev pub flush_one : Send → Packet → List Packet → Flushed → Flushed
flush_one (ready n) p ps rest = if n == length (into_bytes p) then sent p rest else keep p rest
flush_one failed p ps rest = record { to_sent = []; kept = p ∷ ps; result = Poll.error }
flush_one would_block p ps rest = keep p rest

-- `i` counts the calls of the socket
unfoldable pub flush_loop : (ℕ → List ℕ → Send) → ℕ → List Packet → Flushed
flush_loop socket i [] = record { to_sent = []; kept = []; result = Poll.done }
flush_loop socket i (p ∷ ps) =
    let rest = flush_loop socket (i + 1) ps in flush_one (socket i (into_bytes p)) p ps rest

module _ {C : Type 0} (control : CongestionControl C) where
  unfoldable pub flush_written : (ℕ → List ℕ → Send) → UtpStream C → UtpStream C × Poll
  unfolding flush_loop
  flush_written socket s =
      let f = flush_loop socket 0 s.write_buf in
      (record s { sent_packets = s.sent_packets ++ f.to_sent; write_buf = f.kept }, f.result)

  unfoldable pub poll_flush : ℕ → (ℕ → List ℕ → Send) → UtpStream C → UtpStream C × Poll
  unfolding flush_written
  poll_flush now socket s =
      let checked = check_timeouts control now s in
      if is_empty checked.write_buf then (checked, Poll.done) else flush_written socket checked

  abbrev pub close_with : Send → UtpStream C → UtpStream C × Poll
  close_with (ready n) s = (record s { state = ConnectionState.closed }, Poll.done)
  close_with failed s = (record s { state = ConnectionState.closed }, Poll.error)
  close_with would_block s = (s, Poll.pending)

  abbrev pub shut : Send → UtpStream C × Poll → UtpStream C × Poll
  shut answer (s, Poll.done) = close_with answer s
  shut answer (s, Poll.error) = (record s { state = ConnectionState.closed }, Poll.error)
  shut answer (s, Poll.pending) = (s, Poll.pending)

  -- `last` is what the socket answers to the closing byte
  unfoldable pub poll_shutdown : ℕ → (ℕ → List ℕ → Send) → Send → UtpStream C → UtpStream C × Poll
  unfolding poll_flush
  poll_shutdown now socket last s =
      shut last (poll_flush now socket (record s { state = ConnectionState.closing }))
