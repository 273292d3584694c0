-- ===== src/Utp/Queue.antt =====
-- The lists of packets that `UtpStream` of crates/utp/src/stream.rs keeps, and the loops over them.
use vincenzo.Prelude.{
  ℕ, ◌+◌, ◌-◌, ◌%◌, ◌^◌, Bool, true, false, not, ◌||◌, Option, none, some, List, [], ◌∷◌, length,
  ltb, leb, ◌==◌, if◌then◌else◌,
}
use vincenzo.Utp.Packet.{PacketType, Packet, into_bytes}

pub record SentPacket : Type 0 where
  pub packet : Packet
  pub retransmit_count : ℕ

abbrev pub is_empty {ℓ} : {A : Type ℓ} → List A → Bool
is_empty [] = true
is_empty (_ ∷ _) = false

-- a packet that has not been sent again
abbrev pub first_send : Packet → SentPacket
first_send p = record { packet = p; retransmit_count = 0 }

-- `while let Some(packet) = front()`: the packets up to the first that is not acknowledged go
unfoldable pub pop_acked : ℕ → List SentPacket → List SentPacket
pop_acked ack_nr [] = []
pop_acked ack_nr (p ∷ ps) =
    let rest = pop_acked ack_nr ps in if leb p.packet.header.seq_nr ack_nr then rest else (p ∷ ps)

unfoldable pub retain_after : ℕ → List (ℕ × ℕ) → List (ℕ × ℕ)
retain_after ack_nr [] = []
retain_after ack_nr ((seq, n) ∷ m) =
    let rest = retain_after ack_nr m in if ltb ack_nr seq then ((seq, n) ∷ rest) else rest

-- `find` the packet, mark and update it: the packet that is to be sent again, and the list
unfoldable pub mark_again : ℕ → ℕ → ℕ → List SentPacket → List SentPacket × List Packet
mark_again now window seq_nr [] = ([], [])
mark_again now window seq_nr (p ∷ ps) =
    let (rest, out) = mark_again now window seq_nr ps in
    if p.packet.header.seq_nr == seq_nr
    then if ltb p.retransmit_count 10
      then (let again = record p.packet {
        header = record p.packet.header { timestamp = now; wnd_size = window };
      } in
          (record { packet = again; retransmit_count = p.retransmit_count + 1 } ∷ ps, again ∷ []))
      else (p ∷ ps, [])
    else (p ∷ rest, out)

-- the first packet whose time is over
unfoldable pub first_late : ℕ → ℕ → List SentPacket → Option ℕ
first_late now timeout [] = none
first_late now timeout (p ∷ ps) =
    let rest = first_late now timeout ps in
    if leb timeout (now - p.packet.header.timestamp) then some p.packet.header.seq_nr else rest

-- `fold(0, |acc, v| acc + v.packet.payload.remaining() as u32)`
unfoldable pub outstanding : ℕ → List SentPacket → ℕ
outstanding acc [] = acc
outstanding acc (p ∷ ps) = outstanding ((acc + length p.packet.payload % 2 ^ 32) % 2 ^ 32) ps

-- `iter().last()`
abbrev pub last : List SentPacket → Option SentPacket
last [] = none
last (p ∷ []) = some p
last (_ ∷ p ∷ ps) = last (p ∷ ps)

-- the datagram that answers a packet
abbrev pub datagram : Option SentPacket → List (List ℕ)
datagram none = []
datagram (some p) = into_bytes p.packet ∷ []

-- only after data and a SYN is the last packet sent at once
abbrev pub reply : Option PacketType → List SentPacket → List (List ℕ)
reply (some PacketType.payload) sent = datagram (last sent)
reply (some PacketType.syn) sent = datagram (last sent)
reply _ sent = []

unfoldable pub any_payload : List Packet → Bool
any_payload [] = false
any_payload (p ∷ ps) = not (is_empty p.payload) || any_payload ps
