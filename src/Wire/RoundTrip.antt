-- ===== src/Wire/RoundTrip.antt =====
-- Encoding and decoding of well-formed messages, one at a time, in a stream, and in fragments.
use vincenzo.Prelude.{
  ℕ, zero, suc, ◌+◌, ◌≤◌, ◌<◌, ◌≡◌, refl, sym, ap, List, [], ◌∷◌, ◌++◌, append-nil, append_assoc,
  map, ◌∙◌, Option, none, some, length, length-append, All, arith,
}
use vincenzo.Outcome.{Outcome, ok}
use vincenzo.Bytes.BigEndian.{IsU32, u32_to_be_bytes, u32_from-to}
use vincenzo.Bytes.Buffer.{Buffer, IsBuffer, plain, eq-plain, peek_u32}
use vincenzo.Bytes.Reads.{front-append, peek_u32-append}
use vincenzo.Wire.Message.{BlockInfo, BitVec, IsBitVec, Core, CoreId, id_try_from}
use vincenzo.Wire.Codec.{encode, decode, get_message}
use vincenzo.Wire.Format.{info_bytes, InfoFits, body, wire, Fits, received, encode-plain}

module _ (v : BitVec) where
  open v use {Bitfield, to_bytes, from_bytes_general}

  -- Of a whole message the length prefix and the id are read, and the payload is handed on.
  pub decode-framed :
      (id : ℕ) (payload rest : List ℕ)
      → IsU32 (length payload + 1)
      → decode plain v (u32_to_be_bytes (suc (length payload)) ++ (id ∷ (payload ++ rest)))
        ≡ get_message plain v (id_try_from id) (suc (length payload)) (payload ++ rest)
  unfolding decode
  decode-framed id payload rest h =
      ground (arith, u32_from-to (suc (length payload)) (omega arith), length-append payload rest)

  get_info_reads :
      (b : BlockInfo) (rest : List ℕ)
      → InfoFits b
      → (get_message plain v (some CoreId.request) 13 (info_bytes b ++ rest)
          ≡ (ok (some (Core.request b)), rest))
        × (get_message plain v (some CoreId.cancel) 13 (info_bytes b ++ rest)
            ≡ (ok (some (Core.cancel b)), rest))
  unfolding get_message
  get_info_reads b rest f =
      let index = u32_from-to b.index f.0 in
      let begin = u32_from-to b.begin f.1 in
      let len = u32_from-to b.len f.2 in
      (ground (arith, index, begin, len), ground (arith, index, begin, len))

  decode-plain :
      (msg : Core Bitfield) (rest : List ℕ)
      → Fits v msg
      → decode plain v (wire v msg ++ rest) ≡ (ok (some (received v msg)), rest)
  unfolding id_try_from
  decode-plain Core.keep_alive rest f = unfold decode in ground arith
  decode-plain Core.choke rest f =
      decode-framed 0 [] rest (omega arith) ∙ (unfold get_message in refl)
  decode-plain (Core.have index) rest f =
      decode-framed 4 (u32_to_be_bytes index) rest (omega arith)
      ∙ (unfold get_message in ground (arith, u32_from-to index f))
  decode-plain (Core.request b) rest f =
      decode-framed 6 (info_bytes b) rest (omega arith) ∙ (get_info_reads b rest f).0
  decode-plain (Core.cancel b) rest f =
      decode-framed 8 (info_bytes b) rest (omega arith) ∙ (get_info_reads b rest f).1
  decode-plain (Core.bitfield b) rest f =
      decode-framed 5 (to_bytes b) rest (omega arith)
      ∙ (unfold get_message in ground (arith, front-append (to_bytes b) rest))
  decode-plain (Core.piece b) rest f =
      decode-framed 7 (u32_to_be_bytes b.index ++ (u32_to_be_bytes b.begin ++ b.block)) rest
        (omega arith)
      ∙ (unfold get_message in
          ground
            (arith, u32_from-to b.index f.0, u32_from-to b.begin f.1, front-append b.block rest))
  decode-plain (Core.extended id payload) rest f =
      decode-framed 20 (id ∷ payload) rest (omega arith)
      ∙ (unfold get_message in ground (arith, front-append payload rest))
  decode-plain Core.unchoke rest f =
      decode-framed 1 [] rest (omega arith) ∙ (unfold get_message in refl)
  decode-plain Core.interested rest f =
      decode-framed 2 [] rest (omega arith) ∙ (unfold get_message in refl)
  decode-plain Core.not_interested rest f =
      decode-framed 3 [] rest (omega arith) ∙ (unfold get_message in refl)

  -- A buffer that holds less than the length prefix and what it announces is left alone.
  decode-short :
      (buf : List ℕ)
      → (4 ≤ length buf → (0 < peek_u32 buf) × (length buf < 4 + peek_u32 buf))
      → decode plain v buf ≡ (ok none, buf)
  unfolding decode
  decode-short (a ∷ b ∷ c ∷ d ∷ buf) h = ground (arith, h (omega arith))
  decode-short [] h = refl
  decode-short (a ∷ []) h = refl
  decode-short (a ∷ b ∷ []) h = refl
  decode-short (a ∷ b ∷ c ∷ []) h = refl

  body_bound : (msg : Core Bitfield) → Fits v msg → IsU32 (length (body v msg))
  body_bound (Core.bitfield b) f = omega arith
  body_bound (Core.piece b) f = omega arith
  body_bound (Core.extended id payload) f = omega arith
  body_bound _ f = omega arith

module _ (o : Buffer) (is_buffer : IsBuffer o) (v : BitVec) (is_bitvec : IsBitVec v) where
  open v use {Bitfield}

  -- `encode` keeps what the buffer holds and appends the documented format of a message
  -- whose numbers and length fit their fields.
  pub encode-eq-wire :
      (msg : Core Bitfield) (buf : List ℕ)
      → Fits v msg
      → encode o v msg buf ≡ (ok tt, buf ++ wire v msg)
  encode-eq-wire msg buf f = rw (eq-plain is_buffer) (encode-plain v is_bitvec msg buf f)

  -- `decode` reads back one encoded message whose numbers and length fit their fields, a bitfield
  -- filled up to whole bytes, and leaves what follows it.
  pub decode-encode :
      (msg : Core Bitfield) (rest : List ℕ)
      → Fits v msg
      → decode o v ((encode o v msg []).1 ++ rest) ≡ (ok (some (received v msg)), rest)
  decode-encode msg rest f =
      rw (eq-plain is_buffer, encode-plain v is_bitvec msg [] f) (decode-plain v msg rest f)

  -- Of a message that fits its fields and has not arrived as a whole nothing is consumed, and `decode` waits.
  pub decode_fragment :
      (msg : Core Bitfield) (x : ℕ) (front back : List ℕ)
      → Fits v msg
      → (encode o v msg []).1 ≡ front ++ (x ∷ back)
      → decode o v front ≡ (ok none, front)
  decode_fragment msg x front back f e = rw (eq-plain is_buffer) (decode-short v front waits)
    where
      whole : wire v msg ≡ front ++ (x ∷ back)
      whole = rw (eq-plain is_buffer, encode-plain v is_bitvec msg [] f) at e

      waits : 4 ≤ length front → (0 < peek_u32 front) × (length front < 4 + peek_u32 front)
      waits h = omega (
        arith,
        peek_u32-append front (x ∷ back) h,
        ap peek_u32 whole,
        u32_from-to (length (body v msg)) (body_bound v msg f),
        ap (length {0}) whole,
        length-append front (x ∷ back),
      )

  pub encode_all : List (Core Bitfield) → List ℕ → List ℕ
  encode_all [] buf = buf
  encode_all (msg ∷ msgs) buf = encode_all msgs (encode o v msg buf).1

  -- the messages that so many calls of `decode` return, and the bytes that are left
  pub decode_all : ℕ → List ℕ → List (Outcome (Option (Core Bitfield))) × List ℕ
  decode_all zero buf = ([], buf)
  decode_all (suc n) buf =
      let (r, rest) = decode o v buf in let (rs, end) = decode_all n rest in (r ∷ rs, end)

  wires : List (Core Bitfield) → List ℕ
  wires [] = []
  wires (msg ∷ msgs) = wire v msg ++ wires msgs

  encode_all-wires :
      (msgs : List (Core Bitfield)) (buf : List ℕ)
      → All (Fits v) msgs
      → encode_all msgs buf ≡ buf ++ wires msgs
  unfolding encode_all wires
  encode_all-wires [] buf f = sym (append-nil buf)
  encode_all-wires (msg ∷ msgs) buf f =
      rw (encode-eq-wire msg buf f.0)
        (encode_all-wires msgs (buf ++ wire v msg) f.1 ∙ append_assoc buf (wire v msg) (wires msgs))

  decode-wire :
      (msg : Core Bitfield) (rest : List ℕ)
      → Fits v msg
      → decode o v (wire v msg ++ rest) ≡ (ok (some (received v msg)), rest)
  decode-wire msg rest f = rw (eq-plain is_buffer) (decode-plain v msg rest f)

  decode_all-wires :
      (msgs : List (Core Bitfield)) (rest : List ℕ)
      → All (Fits v) msgs
      → decode_all (length msgs) (wires msgs ++ rest)
        ≡ (map (λ msg. ok (some (received v msg))) msgs, rest)
  unfolding decode_all wires
  decode_all-wires [] rest f = refl
  decode_all-wires (msg ∷ msgs) rest f = rw (
    append_assoc (wire v msg) (wires msgs) rest,
    decode-wire msg _ f.0,
    decode_all-wires msgs rest f.1,
  )

  -- A stream of messages that fit their fields and were encoded one after the other is decoded into those messages, in
  -- their order, and into nothing else.
  pub decode_all-encode_all :
      (msgs : List (Core Bitfield))
      → All (Fits v) msgs
      → decode_all (length msgs) (encode_all msgs [])
        ≡ (map (λ msg. ok (some (received v msg))) msgs, [])
  decode_all-encode_all msgs f =
      rw (encode_all-wires msgs [] f, ← append-nil (wires msgs)) (decode_all-wires msgs [] f)
