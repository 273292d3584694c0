-- ===== src/Handshake/Tests.antt =====
-- Runs of the handshake, and its theorems at concrete inputs.
use vincenzo.Prelude.{ℕ, ◌≡◌, refl, sym, ap, Option, none, some, List, [], ◌∷◌, ◌++◌, arith}
use vincenzo.Prelude.Keys.{bytes_discrete}
use vincenzo.Prelude.HashMap.{lookup}
use vincenzo.Outcome.{ok}
use vincenzo.Bytes.Buffer.{plain, plain-IsBuffer}
use vincenzo.Handshake.Codec.{
  Extended, IsExtended, Handshake, pstr, reserved_supported, encode, decode,
}
use vincenzo.Handshake.Greet.{own_handshake, outbound, inbound}
use vincenzo.Handshake.Format.{IsWhole, head}
use vincenzo.Handshake.Fragments.{encoded, decode-encode_handshake, decode-arrived}
use vincenzo.Handshake.Meeting.{Meets, handshake_completes}

-- an extended handshake that is the size of the metadata, as one byte
abbrev sizes : Extended ℕ
sizes = record {
  supported = known;
  with_metadata_size = λ n e. known n;
  to_bencode = λ e. some (e ∷ []);
  from_bencode = one_byte;
}
  where
    known : Option ℕ → ℕ
    known none = 0
    known (some n) = n

    one_byte : List ℕ → Option ℕ
    one_byte (b ∷ _) = some b
    one_byte [] = none

sizes-IsExtended : IsExtended sizes
sizes-IsExtended e bs p = sym (ap (λ r. elim r [ none ↦ none | some bs ↦ sizes.from_bencode bs ]) p)

abbrev twenty : ℕ → List ℕ
twenty n =
    n ∷ 2 ∷ 3 ∷ 4 ∷ 5 ∷ 6 ∷ 7 ∷ 8 ∷ 9 ∷ 10 ∷ 11 ∷ 12 ∷ 13 ∷ 14 ∷ 15 ∷ 16 ∷ 17 ∷ 18 ∷ 19 ∷ 20 ∷ []

abbrev greeting : Option ℕ → Handshake ℕ
greeting ext = record {
  pstr_len = 19;
  pstr = pstr;
  reserved = reserved_supported;
  info_hash = twenty 1;
  peer_id = twenty 2;
  ext = ext;
}

-- another protocol
abbrev stranger : Handshake ℕ
stranger = record (greeting (some 7)) { pstr = twenty 66; info_hash = twenty 3 }

greeting-IsWhole : (ext : Option ℕ) → IsWhole sizes (greeting ext)
greeting-IsWhole ext = record {
  pstr_19 = refl;
  reserved_8 = refl;
  info_hash_20 = refl;
  peer_id_20 = refl;
  pstr_len_19 = refl;
}

decode-encode_handshake_example :
    decode plain sizes (encoded plain plain-IsBuffer sizes (greeting (some 7)) ++ (9 ∷ []))
    ≡ (ok (some (greeting (some 7))), 9 ∷ [])
decode-encode_handshake_example =
    decode-encode_handshake plain plain-IsBuffer sizes sizes-IsExtended (greeting (some 7)) (7 ∷ [])
      (9 ∷ []) (greeting-IsWhole (some 7)) (refl, omega arith) tt

-- all but the last byte
abbrev first_bytes : List ℕ
first_bytes = head sizes (greeting none) ++ (0 ∷ 0 ∷ 0 ∷ 3 ∷ 20 ∷ 0 ∷ [])

decode-arrived_example : decode plain sizes first_bytes ≡ (ok none, 0 ∷ 0 ∷ 0 ∷ 3 ∷ 20 ∷ 0 ∷ [])
unfolding encode
decode-arrived_example =
    decode-arrived plain plain-IsBuffer sizes (greeting none) 7 (7 ∷ []) first_bytes [] 7
      (greeting-IsWhole none) (refl, omega arith) refl

abbrev torrents : List (List ℕ × ℕ)
torrents = (twenty 1, 5) ∷ (twenty 4, 0) ∷ []

handshake_completes_example :
    Meets sizes plain plain-IsBuffer
      (own_handshake sizes (twenty 1) (twenty 8) 0)
      (own_handshake sizes (twenty 1) (twenty 9) 5)
      (inbound sizes torrents (twenty 9))
      (outbound sizes (twenty 1) (twenty 8) 0)
unfolding lookup bytes_discrete own_handshake
handshake_completes_example =
    handshake_completes sizes plain plain-IsBuffer sizes-IsExtended (twenty 1) (twenty 8) (twenty 9)
      0 5 torrents (0 ∷ []) (5 ∷ []) refl refl refl refl (refl, omega arith) (refl, omega arith)
