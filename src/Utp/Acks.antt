-- ===== src/Utp/Acks.antt =====
-- What acknowledgements do to a stream: the packets they remove, and the duplicates that count.
use native.Mathlib.Nat.{mod-eq_of_lt}
use native.Mathlib.Decide.{ℕ_discrete}
use vincenzo.Prelude.{
  ℕ, ◌+◌, ◌^◌, ◌≤◌, ◌<◌, ◌≡◌, ◌≢◌, refl, ap, sym, none, some, List, [], ◌∷◌, ◌++◌, append-nil, map,
  ltb, leb, if◌then◌else◌, Bool-cases, inl, inr, leb→le, leb→lt, lt→ltb, le→ltb, arith,
}
use vincenzo.Prelude.HashMap.{lookup, insert, lookup-insert}
use vincenzo.Utp.Packet.{Header}
use vincenzo.Utp.Connection.{
  or_default, duplicates, inc_duplicate_ack, zero_duplicate_ack, next_u16,
}
use vincenzo.Utp.Stream.{
  CongestionControl, UtpStream, process_new_ack, retransmit_packet, handle_packet_loss, is_new_ack,
  duplicate_ack, handle_state,
}
use vincenzo.Utp.Queue.{SentPacket, pop_acked, retain_after, mark_again}

abbrev pub seq_of : SentPacket → ℕ
seq_of p = p.packet.header.seq_nr

-- the packets behind a number, which is what an acknowledgement is to leave
unfoldable pub sent_after : ℕ → List SentPacket → List SentPacket
sent_after n [] = []
sent_after n (p ∷ ps) = if ltb n (seq_of p) then p ∷ sent_after n ps else sent_after n ps

-- sent in the order of their numbers, which have not wrapped round
abbrev pub IsAscending : List SentPacket → Type 0
IsAscending [] = Unit
IsAscending (p ∷ []) = Unit
IsAscending (p ∷ q ∷ ps) = (seq_of p ≤ seq_of q) × IsAscending (q ∷ ps)

sent_after_all :
    (n : ℕ) (p : SentPacket) (ps : List SentPacket)
    → IsAscending (p ∷ ps)
    → n < seq_of p
    → sent_after n ps ≡ ps
unfolding sent_after
sent_after_all n p [] a l = refl
sent_after_all n p (q ∷ ps) a l =
    rw (lt→ltb n (seq_of q) (omega (arith, a.0)), sent_after_all n q ps a.1 (omega (arith, a.0)))
      refl

IsAscending-tail : (p : SentPacket) (ps : List SentPacket) → IsAscending (p ∷ ps) → IsAscending ps
IsAscending-tail p [] a = tt
IsAscending-tail p (q ∷ ps) a = a.1

pop_acked-eq-sent_after :
    (n : ℕ) (ps : List SentPacket) → IsAscending ps → pop_acked n ps ≡ sent_after n ps
unfolding pop_acked sent_after
pop_acked-eq-sent_after n [] a = refl
pop_acked-eq-sent_after n (p ∷ ps) a = elim (Bool-cases (leb (seq_of p) n)) [
  | inl l ↦
      rw (l, le→ltb n (seq_of p) (leb→le _ _ l))
        (pop_acked-eq-sent_after n ps (IsAscending-tail p ps a))
  | inr g ↦ rw (g, lt→ltb n (seq_of p) (leb→lt _ _ g), sent_after_all n p ps a (leb→lt _ _ g)) refl
]

lookup-retain_after :
    (n k : ℕ) (m : List (ℕ × ℕ))
    → lookup ℕ_discrete k (retain_after n m) ≡ (if ltb n k then lookup ℕ_discrete k m else none)
unfolding retain_after lookup
lookup-retain_after n k [] = ground arith
lookup-retain_after n k ((j, v) ∷ m) = ground (arith, lookup-retain_after n k m)

lookup-insert_same :
    (j w : ℕ) (m : List (ℕ × ℕ)) → lookup ℕ_discrete j (insert ℕ_discrete j w m) ≡ some w
lookup-insert_same j w m = ground (arith, lookup-insert ℕ_discrete j j w m)

lookup-insert_twice :
    (k j v w : ℕ) (m : List (ℕ × ℕ))
    → k ≢ j
    → lookup ℕ_discrete j (insert ℕ_discrete k v (insert ℕ_discrete j w m)) ≡ some w
lookup-insert_twice k j v w m n =
    ground
      (arith, lookup-insert ℕ_discrete k j v (insert ℕ_discrete j w m), lookup-insert_same j w m)

seqs-mark_again :
    (now window seq : ℕ) (ps : List SentPacket)
    → map seq_of (mark_again now window seq ps).0 ≡ map seq_of ps
unfolding mark_again
seqs-mark_again now window seq [] = refl
seqs-mark_again now window seq (p ∷ ps) = ground (arith, seqs-mark_again now window seq ps)

module _ {C : Type 0} (control : CongestionControl C) where
  -- An acknowledgement removes the packets up to its number and keeps the others, in order, while
  -- the numbers ascend; and it forgets the duplicates counted for numbers up to it.
  pub process_new_ack-eq-sent_after :
      (ack k : ℕ) (s : UtpStream C)
      → IsAscending s.sent_packets
      → ((process_new_ack control ack s).sent_packets ≡ sent_after ack s.sent_packets)
        × (duplicates k (process_new_ack control ack s).utp_header
            ≡ (if ltb ack k then duplicates k s.utp_header else 0))
  unfolding process_new_ack duplicates
  process_new_ack-eq-sent_after ack k s a = (
    pop_acked-eq-sent_after ack s.sent_packets a,
    ground (arith, lookup-retain_after ack k s.utp_header.ack_history),
  )

  -- An acknowledgement whose number is not above the last one removes no packet, also when it is
  -- ahead of the last one in the numbering that starts again behind 65535.
  handle_state_keeps :
      (now : ℕ) (header : Header) (s : UtpStream C)
      → header.ack_nr ≤ s.utp_header.last_ack_nr
      → 0 < s.utp_header.last_ack_nr
      → map seq_of (handle_state control now header s).sent_packets ≡ map seq_of s.sent_packets
  unfolding handle_state is_new_ack duplicate_ack inc_duplicate_ack handle_packet_loss
      retransmit_packet
  handle_state_keeps now header s l p = ground (
    arith,
    seqs-mark_again now (control.window (control.packet_loss now s.cc)) (next_u16 header.ack_nr)
        s.sent_packets,
  )

  -- A duplicate acknowledgement is counted under its own sequence number, and from the third on
  -- each one sends the packet behind the acknowledged one again, if it is there and was not sent
  -- again ten times: the count is not reset, since the reset is of another number.
  duplicate_ack_counts :
      (now n : ℕ) (header : Header) (s : UtpStream C)
      → duplicates header.seq_nr s.utp_header ≡ n
      → n + 1 < 2 ^ 32
      → next_u16 header.ack_nr ≢ header.seq_nr
      → (duplicates header.seq_nr (duplicate_ack control now header s).utp_header ≡ n + 1)
        × ((duplicate_ack control now header s).write_buf
            ≡ s.write_buf
              ++ (if leb 3 (n + 1)
                  then (mark_again now
                      (control.window (control.packet_loss now s.cc))
                      (next_u16 header.ack_nr)
                      s.sent_packets).1
                  else []))
  unfolding duplicate_ack inc_duplicate_ack handle_packet_loss retransmit_packet zero_duplicate_ack
      duplicates
  duplicate_ack_counts now n header s d l k =
      rw (d, mod-eq_of_lt l)
        (elim (Bool-cases (leb 3 (n + 1))) [
          | inl t ↦
              rw t
                (ap or_default (lookup-insert_twice _ _ 0 (n + 1) s.utp_header.ack_history k), refl)
          | inr f ↦ rw f (
            ap or_default (lookup-insert_same _ (n + 1) s.utp_header.ack_history),
            sym (append-nil s.write_buf),
          )
        ])
