-- ===== src/Daemon/RoundTrip.antt =====
-- What `decode` makes of the messages that `encode` writes.
use vincenzo.Prelude.{
  ℕ, suc, ◌+◌, ◌≤◌, ◌<◌, ◌≡◌, refl, sym, ap, ◌∙◌, true, false, List, [], ◌∷◌, ◌++◌, append-nil,
  append_assoc, none, some, length, length-append, take-append_self, drop-append_self, arith,
}
use vincenzo.Outcome.{ok}
use vincenzo.Bytes.BigEndian.{IsU32, u32_to_be_bytes, u32_from-to}
use vincenzo.Bytes.Buffer.{Buffer, IsBuffer, plain, eq-plain, peek_u32}
use vincenzo.Bytes.Reads.{peek_u32-append}
use vincenzo.Bytes.Utf8.{from_utf8, is_utf8}
use vincenzo.Daemon.Message.{Message, message_id_try_from, Archive, IsArchive, MagnetUrl}
use vincenzo.Daemon.Codec.{encode, decode, get_known, bit}
use vincenzo.Daemon.Format.{body, wire, Fits, encode-plain}

slice-append : (xs rest : List ℕ) → plain.copy_to_slice (length xs) (xs ++ rest) ≡ (ok xs, rest)
slice-append xs rest =
    ground (arith, length-append xs rest, take-append_self xs rest, drop-append_self xs rest)

pub slice_all : (xs : List ℕ) → plain.copy_to_slice (length xs) xs ≡ (ok xs, [])
slice_all xs = let e = slice-append xs [] in rw (append-nil xs) at e

slice_hash : (h rest : List ℕ) → length h ≡ 20 → plain.copy_to_slice 20 (h ++ rest) ≡ (ok h, rest)
slice_hash h rest e = let p = slice-append h rest in rw (e) at p

-- The messages that a frame is read back as. An `Init` is none of them, and a message with a
-- payload of its own length takes in all that has arrived, so nothing may follow it.
abbrev pub ReadsBack : {Magnet State : Type 0} → Message Magnet State → List ℕ → Type 0
ReadsBack (Message.init b) rest = ⊥
ReadsBack (Message.new_torrent m) rest = rest ≡ []
ReadsBack (Message.torrent_state s) rest = rest ≡ []
ReadsBack (Message.torrent_states ss) rest = rest ≡ []
ReadsBack _ rest = Unit

module _ {Magnet State : Type 0} (url : MagnetUrl Magnet) (one : Archive State)
    (many : Archive (List State)) where
  pub decode-framed :
      (id : ℕ) (payload rest : List ℕ)
      → IsU32 (length payload + 1)
      → decode plain url one many
          (u32_to_be_bytes (suc (length payload)) ++ (id ∷ (payload ++ rest)))
        ≡ get_known plain url one many (message_id_try_from id) (payload ++ rest)
  unfolding decode
  decode-framed id payload rest h =
      ground (arith, u32_from-to (suc (length payload)) (omega arith), length-append payload rest)

  pub decode_whole :
      (id : ℕ) (payload : List ℕ)
      → IsU32 (length payload + 1)
      → decode plain url one many (u32_to_be_bytes (suc (length payload)) ++ (id ∷ payload))
        ≡ get_known plain url one many (message_id_try_from id) payload
  decode_whole id payload h = let e = decode-framed id payload [] h in rw (append-nil payload) at e

  decode-plain :
      IsArchive one
      → IsArchive many
      → (msg : Message Magnet State) (rest : List ℕ) → Fits url one many msg
      → ReadsBack msg rest
      → decode plain url one many (wire url one many msg ++ rest) ≡ (ok (some msg), rest)
  unfolding message_id_try_from from_utf8
  decode-plain p q (Message.init b) rest f r = absurd r
  decode-plain p q Message.quit rest f r =
      decode-framed 6 [] rest (omega arith) ∙ (unfold get_known in refl)
  decode-plain p q Message.frontend_quit rest f r =
      decode-framed 7 [] rest (omega arith) ∙ (unfold get_known in refl)
  decode-plain p q Message.print_torrent_status rest f r =
      decode-framed 5 [] rest (omega arith) ∙ (unfold get_known in refl)
  decode-plain p q (Message.toggle_pause h) rest f r =
      decode-framed 4 h rest (omega arith) ∙ (unfold get_known in rw (slice_hash h rest f) refl)
  decode-plain p q (Message.get_torrent_state h) rest f r =
      decode-framed 3 h rest (omega arith) ∙ (unfold get_known in rw (slice_hash h rest f) refl)
  decode-plain p q (Message.delete_torrent h true) rest f r =
      decode-framed 9 (h ++ (1 ∷ [])) rest (omega (arith, length-append h (1 ∷ []), f))
      ∙ (unfold get_known in rw (append_assoc h (1 ∷ []) rest, slice_hash h (1 ∷ rest) f) refl)
  decode-plain p q (Message.delete_torrent h false) rest f r =
      decode-framed 9 (h ++ (0 ∷ [])) rest (omega (arith, length-append h (0 ∷ []), f))
      ∙ (unfold get_known in rw (append_assoc h (0 ∷ []) rest, slice_hash h (0 ∷ rest) f) refl)
  decode-plain p q (Message.new_torrent m) rest f r =
      rw (r, append-nil (url.to_string m))
        (decode_whole 1 (url.to_string m) f.0
          ∙ (unfold get_known in rw (slice_all (url.to_string m), f.1, f.2) refl))
  decode-plain p q (Message.torrent_state s) rest f r =
      rw (r, f.1, append-nil f.0)
        (decode_whole 2 f.0 f.2 ∙ (unfold get_known in rw (slice_all f.0, p s f.0 f.1) refl))
  decode-plain p q (Message.torrent_states ss) rest f r =
      rw (r, f.1, append-nil f.0)
        (decode_whole 8 f.0 f.2 ∙ (unfold get_known in rw (slice_all f.0, q ss f.0 f.1) refl))

  body_bound :
      (msg : Message Magnet State) → Fits url one many msg → IsU32 (length (body url one many msg))
  body_bound (Message.new_torrent m) f = omega (arith, f.0)
  body_bound (Message.torrent_state s) f = rw (f.1) (omega (arith, f.2))
  body_bound (Message.torrent_states s) f = rw (f.1) (omega (arith, f.2))
  body_bound (Message.toggle_pause h) f = omega (arith, f)
  body_bound (Message.get_torrent_state h) f = omega (arith, f)
  body_bound (Message.delete_torrent h b) f = omega (arith, f, length-append h (bit b ∷ []))
  body_bound _ f = omega arith

  decode-short :
      (buf : List ℕ)
      → (4 ≤ length buf → (0 < peek_u32 buf) × (length buf < 4 + peek_u32 buf))
      → decode plain url one many buf ≡ (ok none, buf)
  unfolding decode
  decode-short (a ∷ b ∷ c ∷ d ∷ buf) h = ground (arith, h (omega arith))
  decode-short [] h = refl
  decode-short (a ∷ []) h = refl
  decode-short (a ∷ b ∷ []) h = refl
  decode-short (a ∷ b ∷ c ∷ []) h = refl

module _ {Magnet State : Type 0} (o : Buffer) (is_buffer : IsBuffer o) (url : MagnetUrl Magnet)
    (one : Archive State) (many : Archive (List State)) where
  abbrev pub encoded : Message Magnet State → List ℕ
  encoded msg = (encode o url one many msg []).1

  -- Of a message that fits its fields `encode` keeps what the buffer holds and appends the format: the
  -- length, the id (which an `Init` lacks) and the payload.
  pub encode-eq-format :
      (msg : Message Magnet State) (buf : List ℕ)
      → Fits url one many msg
      → encode o url one many msg buf ≡ (ok tt, buf ++ wire url one many msg)
  encode-eq-format msg buf f = rw (eq-plain is_buffer) (encode-plain url one many msg buf f)

  -- Where archives and links read back what they write, `decode` reads back every encoded message
  -- that fits its fields but `Init`, and leaves what follows it; behind a
  -- magnet link or torrent states nothing may follow.
  pub decode-encode_message :
      IsArchive one
      → IsArchive many
      → (msg : Message Magnet State) (rest : List ℕ) → Fits url one many msg
      → ReadsBack msg rest
      → decode o url one many (encoded msg ++ rest) ≡ (ok (some msg), rest)
  decode-encode_message p q msg rest f r = rw (eq-plain is_buffer) (
      ap (λ r. decode plain url one many (r.1 ++ rest)) (encode-plain url one many msg [] f)
      ∙ decode-plain url one many p q msg rest f r)

  -- Of a message that fits its fields and has not arrived as a whole nothing is consumed, and `decode` waits.
  decode_partial :
      (msg : Message Magnet State) (x : ℕ) (front back : List ℕ)
      → Fits url one many msg
      → encoded msg ≡ front ++ (x ∷ back)
      → decode o url one many front ≡ (ok none, front)
  decode_partial msg x front back f e =
      rw (eq-plain is_buffer) (decode-short url one many front waits)
    where
      whole : wire url one many msg ≡ front ++ (x ∷ back)
      whole =
          let at_plain = rw (eq-plain is_buffer) at e in
          sym (ap (λ r. r.1) (encode-plain url one many msg [] f)) ∙ at_plain

      some_size : (m : Message Magnet State) → 0 < length (body url one many m)
      some_size (Message.init b) = omega arith
      some_size _ = omega arith

      waits : 4 ≤ length front → (0 < peek_u32 front) × (length front < 4 + peek_u32 front)
      waits h = omega (
        arith,
        peek_u32-append front (x ∷ back) h,
        ap peek_u32 whole,
        u32_from-to (length (body url one many msg)) (body_bound url one many msg f),
        some_size msg,
        ap (length {0}) whole,
        length-append front (x ∷ back),
      )

  -- An encoded `Init` carries no id, so it is read as a message of another kind: `Init(false)` as
  -- an unknown one, at which everything that follows is thrown away, and `Init(true)`, where the
  -- text of a magnet link follows, as `NewTorrent` of that link.
  decode-encode_init :
      (link : Magnet) (rest : List ℕ)
      → is_utf8 [] rest ≡ true
      → url.parse rest ≡ some link
      → (decode o url one many (encoded (Message.init false) ++ rest) ≡ (ok none, []))
        × (decode o url one many (encoded (Message.init true) ++ rest)
            ≡ (ok (some (Message.new_torrent link)), []))
  unfolding get_known message_id_try_from from_utf8
  decode-encode_init link rest p q = rw (eq-plain is_buffer) (
    ap (λ r. decode plain url one many (r.1 ++ rest))
          (encode-plain url one many (Message.init false) [] tt)
        ∙ decode-framed url one many 0 [] rest (omega arith),
    ap (λ r. decode plain url one many (r.1 ++ rest))
          (encode-plain url one many (Message.init true) [] tt)
        ∙ decode-framed url one many 1 [] rest (omega arith)
        ∙ rw (slice_all rest, p, q) refl,
  )
