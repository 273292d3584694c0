-- ===== src/Handshake/Meeting.antt =====
-- Two clients that greet each other, over the bytes that go between them.
use vincenzo.Prelude.{
  ℕ, ◌≡◌, refl, ap, ◌∙◌, Bool, not, true, false, Option, none, some, List, [], ◌++◌, append-nil,
  length, if◌then◌else◌, arith,
}
use vincenzo.Prelude.Keys.{bytes_discrete, same_bytes, same_bytes_refl}
use vincenzo.Prelude.HashMap.{lookup}
use vincenzo.Outcome.{Outcome, ok, err, panic, handshake_invalid}
use vincenzo.Bytes.Buffer.{Buffer, IsBuffer}
use vincenzo.Handshake.Codec.{
  Extended, IsExtended, Handshake, pstr, decode, validate, supports_extended,
}
use vincenzo.Handshake.Greet.{Answer, own_handshake, answer_to, outbound, inbound}
use vincenzo.Handshake.Format.{IsWhole, Bencodes}
use vincenzo.Handshake.Fragments.{encoded, decode-encode_handshake}

if_not : {A : Type 0} (c : Bool) (p q : A) → (if not c then p else q) ≡ (if c then q else p)
if_not true p q = refl
if_not false p q = refl

module _ {E : Type 0} (x : Extended E) where
  -- Of our own handshake everything but the info hash is as it should be.
  validate_own :
      (h : Handshake E) (info_hash peer_id : List ℕ) (n : ℕ)
      → length peer_id ≡ 20
      → validate h (own_handshake x info_hash peer_id n) ≡ same_bytes h.info_hash info_hash
  unfolding validate own_handshake
  validate_own h info_hash peer_id n e = ground (arith, e, same_bytes_refl pstr)

  own-IsWhole :
      (info_hash peer_id : List ℕ) (n : ℕ)
      → length info_hash ≡ 20
      → length peer_id ≡ 20
      → IsWhole x (own_handshake x info_hash peer_id n)
  unfolding own_handshake
  own-IsWhole info_hash peer_id n i p = record {
    pstr_19 = refl;
    reserved_8 = refl;
    info_hash_20 = i;
    peer_id_20 = p;
    pstr_len_19 = refl;
  }

  -- what the side that is connected to does, given the size of the torrent's metadata
  abbrev pub replied : List ℕ → List ℕ → Option ℕ → Outcome (Handshake E)
  replied info_hash peer_id none = panic
  replied info_hash peer_id (some n) = ok (own_handshake x info_hash peer_id n)

  answers :
      (h : Handshake E) (peer_id : List ℕ)
      → length peer_id ≡ 20
      → (t : Option ℕ) → answer_to x h peer_id t ≡ replied h.info_hash peer_id t
  answers h peer_id e none = refl
  answers h peer_id e (some n) =
      rw (validate_own h h.info_hash peer_id n e, same_bytes_refl h.info_hash) refl

  -- `ours` is sent and read as it is, the answer to it is `theirs`, which is sent and read as it is and
  -- taken.
  pub record Meets (o : Buffer) (is_buffer : IsBuffer o) (ours theirs : Handshake E)
      (answer : Answer E → Outcome (Handshake E)) (take : Option (Answer E) → Outcome (Handshake E))
      : Type 0 where
    pub arrives : decode o x (encoded o is_buffer x ours) ≡ (ok (some ours), [])
    pub answers : answer (Answer.received ours) ≡ ok theirs
    pub returns : decode o x (encoded o is_buffer x theirs) ≡ (ok (some theirs), [])
    pub taken : take (some (Answer.received theirs)) ≡ ok theirs
    pub ours_extended : supports_extended ours.reserved ≡ true
    pub theirs_extended : supports_extended theirs.reserved ≡ true

  -- Where our peer id has 20 bytes, either side looks at the info hash of the peer alone, whatever its
  -- protocol string is: the side that connected takes the handshake exactly if that is its own info
  -- hash, and the side that is connected to answers if it has such a torrent, and else panics.
  handshake_by_info_hash :
      (h : Handshake E) (info_hash peer_id : List ℕ) (n : ℕ) (torrents : List (List ℕ × ℕ))
      → length peer_id ≡ 20
      → (outbound x info_hash peer_id n (some (Answer.received h))
          ≡ (if same_bytes h.info_hash info_hash then ok h else err handshake_invalid))
        × (inbound x torrents peer_id (Answer.received h)
            ≡ replied h.info_hash peer_id (lookup bytes_discrete h.info_hash torrents))
  unfolding outbound inbound
  handshake_by_info_hash h info_hash peer_id n torrents e = (
    rw (validate_own h info_hash peer_id n e) (if_not (same_bytes h.info_hash info_hash) _ _),
    answers h peer_id e (lookup bytes_discrete h.info_hash torrents),
  )

  -- Two clients with the same torrent, each with a peer id of 20 bytes and an extended handshake that
  -- can be bencoded and is read back: what the one that connects sends is read by the other as it was,
  -- which answers with its own; that is read as it was too, and taken. Both say that they support
  -- extensions.
  pub handshake_completes :
      (o : Buffer)
      → (is_buffer : IsBuffer o) → IsExtended x
      → (info_hash a b : List ℕ) (n m : ℕ) (torrents : List (List ℕ × ℕ)) (ext_a ext_b : List ℕ)
      → length info_hash ≡ 20
      → length a ≡ 20
      → length b ≡ 20
      → lookup bytes_discrete info_hash torrents ≡ some m
      → Bencodes x (own_handshake x info_hash a n).ext ext_a
      → Bencodes x (own_handshake x info_hash b m).ext ext_b
      → Meets o is_buffer
          (own_handshake x info_hash a n)
          (own_handshake x info_hash b m)
          (inbound x torrents b)
          (outbound x info_hash a n)
  unfolding own_handshake supports_extended
  handshake_completes o is_buffer is_x info_hash a b n m torrents ext_a ext_b i p q found ea eb =
      let ours = own_handshake x info_hash a n in
      let theirs = own_handshake x info_hash b m in
      let (_, replies) = handshake_by_info_hash ours info_hash b n torrents q in
      let (takes, _) = handshake_by_info_hash theirs info_hash a n torrents p in
      record {
        arrives = alone (encoded o is_buffer x ours) (
            decode-encode_handshake o is_buffer x is_x ours ext_a [] (own-IsWhole info_hash a n i p)
              ea tt);
        answers = replies ∙ ap (replied info_hash b) found;
        returns = alone (encoded o is_buffer x theirs) (
            decode-encode_handshake o is_buffer x is_x theirs ext_b []
              (own-IsWhole info_hash b m i q) eb tt);
        taken = rw (same_bytes_refl info_hash) at takes;
        ours_extended = refl;
        theirs_extended = refl;
      }
    where
      alone :
          {r : Outcome (Option (Handshake E)) × List ℕ} (bytes : List ℕ)
          → decode o x (bytes ++ []) ≡ r
          → decode o x bytes ≡ r
      alone bytes e = rw (append-nil bytes) at e
