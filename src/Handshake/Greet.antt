-- ===== src/Handshake/Greet.antt =====
-- The two sides of a handshake: `outbound_handshake` and `inbound_handshake` of
-- crates/vcz-lib/src/peer/types.rs, up to the change of the codec.
use vincenzo.Prelude.{ℕ, not, Option, none, some, List, ◌==◌, if◌then◌else◌}
use vincenzo.Prelude.Keys.{bytes_discrete}
use vincenzo.Prelude.HashMap.{lookup}
use vincenzo.Outcome.{
  Outcome, ok, err, panic, handshake_invalid, handshake_timeout, peer_closed_socket,
}
use vincenzo.Handshake.Codec.{Extended, Handshake, new, validate}

-- What `socket.next()` gives: a handshake, an error of the codec, or the end of the stream.
pub data Answer (E : Type 0) : Type 0 where
  received : Handshake E → Answer E
  garbled closed : Answer E

-- `if metadata_size == 0 { None } else { Some(metadata_size) }`
abbrev pub known_size : ℕ → Option ℕ
known_size n = if n == 0 then none else some n

module _ {E : Type 0} (x : Extended E) where
  abbrev with_size : ℕ → Handshake E → Option E → Handshake E
  with_size n h none = h
  with_size n h (some e) = record h { ext = some (x.with_metadata_size (known_size n) e) }

  -- the handshake that either side sends
  unfoldable pub own_handshake : List ℕ → List ℕ → ℕ → Handshake E
  unfolding new
  own_handshake info_hash peer_id n = let h = new x info_hash peer_id in with_size n h h.ext

  -- The side that connects has sent its handshake, and takes or refuses that of the peer; `none` is
  -- the timeout.
  unfoldable pub outbound : List ℕ → List ℕ → ℕ → Option (Answer E) → Outcome (Handshake E)
  unfolding own_handshake validate
  outbound info_hash peer_id n (some (received h)) =
      if not (validate h (own_handshake info_hash peer_id n)) then err handshake_invalid else ok h
  outbound info_hash peer_id n (some garbled) = err handshake_invalid
  outbound info_hash peer_id n (some closed) = err peer_closed_socket
  outbound info_hash peer_id n none = err handshake_timeout

  -- `get(..).unwrap()`, behind which the second `get` finds its torrent too
  abbrev pub answer_to : Handshake E → List ℕ → Option ℕ → Outcome (Handshake E)
  answer_to h peer_id none = panic
  answer_to h peer_id (some n) =
      let ours = own_handshake h.info_hash peer_id n in
      if not (validate h ours) then err handshake_invalid else ok ours

  -- The side that is connected to, on its torrents with the sizes of their metadata: the handshake
  -- that it sends back. It waits without a limit.
  unfoldable pub inbound : List (List ℕ × ℕ) → List ℕ → Answer E → Outcome (Handshake E)
  unfolding own_handshake validate
  inbound torrents peer_id (received h) =
      answer_to h peer_id (lookup bytes_discrete h.info_hash torrents)
  inbound torrents peer_id garbled = err handshake_invalid
  inbound torrents peer_id closed = err peer_closed_socket
