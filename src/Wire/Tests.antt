-- ===== src/Wire/Tests.antt =====
-- Runs of the peer codec, and its theorems at concrete inputs.
use vincenzo.Prelude.{ℕ, ◌≡◌, refl, List, [], ◌∷◌, ◌++◌, none, some, length, arith}
use vincenzo.Outcome.{ok}
use vincenzo.Bytes.Buffer.{plain, plain-IsBuffer}
use vincenzo.Wire.Message.{BitVec, IsBitVec, Core, id_try_from, core_len}
use vincenzo.Wire.Codec.{encode, decode}
use vincenzo.Wire.RoundTrip.{
  encode-eq-wire, decode-encode, decode_fragment, encode_all, decode_all, decode_all-encode_all,
}
use vincenzo.Wire.Malformed.{Ends, PanicsOn, decode_ends}

-- a bitfield of whole bytes
abbrev whole_bytes : BitVec
whole_bytes = record {
  Bitfield = List ℕ;
  storage_len = length;
  to_bytes = λ bs. bs;
  from_bytes_general = λ bs. bs;
}

whole_bytes-IsBitVec : IsBitVec whole_bytes
whole_bytes-IsBitVec = record {
  storage_len-eq-length = λ b. refl;
  to_bytes-from_bytes = λ bs. refl;
}

abbrev a_request : Core (List ℕ)
a_request = Core.request (record { index = 1; begin = 16384; len = 300 })

abbrev a_piece : Core (List ℕ)
a_piece = Core.piece (record { index = 2; begin = 1; block = 3 ∷ [] })

-- the tests `extended` and `piece` of codec.rs
encode_extended :
    encode plain whole_bytes (Core.extended 0 []) [] ≡ (ok tt, 0 ∷ 0 ∷ 0 ∷ 2 ∷ 20 ∷ 0 ∷ [])
unfolding encode core_len
encode_extended = refl

encode_piece :
    encode plain whole_bytes a_piece []
    ≡ (ok tt, 0 ∷ 0 ∷ 0 ∷ 10 ∷ 7 ∷ 0 ∷ 0 ∷ 0 ∷ 2 ∷ 0 ∷ 0 ∷ 0 ∷ 1 ∷ 3 ∷ [])
unfolding encode core_len
encode_piece = refl

decode_two :
    decode plain whole_bytes (0 ∷ 0 ∷ 0 ∷ 0 ∷ 0 ∷ 0 ∷ 0 ∷ 1 ∷ 2 ∷ [])
    ≡ (ok (some Core.keep_alive), 0 ∷ 0 ∷ 0 ∷ 1 ∷ 2 ∷ [])
unfolding decode id_try_from
decode_two = refl

encode-eq-wire_example :
    encode plain whole_bytes (Core.have 7) (9 ∷ [])
    ≡ (ok tt, 9 ∷ 0 ∷ 0 ∷ 0 ∷ 5 ∷ 4 ∷ 0 ∷ 0 ∷ 0 ∷ 7 ∷ [])
encode-eq-wire_example =
    encode-eq-wire plain plain-IsBuffer whole_bytes whole_bytes-IsBitVec (Core.have 7) (9 ∷ [])
      (omega arith)

decode-encode_example :
    decode plain whole_bytes ((encode plain whole_bytes a_request []).1 ++ (0 ∷ 0 ∷ []))
    ≡ (ok (some a_request), 0 ∷ 0 ∷ [])
decode-encode_example =
    decode-encode plain plain-IsBuffer whole_bytes whole_bytes-IsBitVec a_request (0 ∷ 0 ∷ [])
      (omega arith)

decode_fragment_example :
    decode plain whole_bytes (0 ∷ 0 ∷ 0 ∷ 10 ∷ 7 ∷ 0 ∷ []) ≡ (ok none, 0 ∷ 0 ∷ 0 ∷ 10 ∷ 7 ∷ 0 ∷ [])
unfolding encode core_len
decode_fragment_example =
    decode_fragment plain plain-IsBuffer whole_bytes whole_bytes-IsBitVec a_piece 0
      (0 ∷ 0 ∷ 0 ∷ 10 ∷ 7 ∷ 0 ∷ []) (0 ∷ 2 ∷ 0 ∷ 0 ∷ 0 ∷ 1 ∷ 3 ∷ []) (omega arith) refl

decode_all-encode_all_example :
    decode_all plain plain-IsBuffer whole_bytes whole_bytes-IsBitVec 3 (
      encode_all plain plain-IsBuffer whole_bytes whole_bytes-IsBitVec
        (a_request ∷ Core.keep_alive ∷ a_piece ∷ [])
        [])
    ≡ (ok (some a_request) ∷ ok (some Core.keep_alive) ∷ ok (some a_piece) ∷ [], [])
decode_all-encode_all_example =
    decode_all-encode_all plain plain-IsBuffer whole_bytes whole_bytes-IsBitVec
      (a_request ∷ Core.keep_alive ∷ a_piece ∷ []) (omega arith)

decode_ends_example :
    Ends
      (decode plain whole_bytes (0 ∷ 0 ∷ 0 ∷ 1 ∷ 20 ∷ 0 ∷ [])).0
      (PanicsOn whole_bytes (0 ∷ 0 ∷ 0 ∷ 1 ∷ 20 ∷ 0 ∷ []))
decode_ends_example = decode_ends plain plain-IsBuffer whole_bytes (0 ∷ 0 ∷ 0 ∷ 1 ∷ 20 ∷ 0 ∷ [])
