-- ===== src/Daemon/Tests.antt =====
-- Runs of the daemon's codec, and its theorems at concrete inputs.
use vincenzo.Prelude.{ℕ, ◌≡◌, refl, sym, ap, true, Option, none, some, List, [], ◌∷◌, ◌++◌, arith}
use vincenzo.Outcome.{ok, err, utf8}
use vincenzo.Bytes.Buffer.{plain, plain-IsBuffer}
use vincenzo.Bytes.Utf8.{is_utf8, from_utf8}
use vincenzo.Daemon.Message.{Message, Archive, IsArchive, MagnetUrl}
use vincenzo.Daemon.Codec.{encode, decode}
use vincenzo.Daemon.RoundTrip.{encoded, encode-eq-format, decode-encode_message}
use vincenzo.Daemon.Malformed.{DaemonEnds, decode-DaemonEnds}

-- a link is its text, and an archive of a number is one byte
abbrev texts : MagnetUrl (List ℕ)
texts = record { to_string = λ m. m; parse = λ m. some m }

abbrev byte_archive : Archive ℕ
byte_archive = record { to_bytes = λ x. some (x ∷ []); from_bytes = one_byte }
  where
    one_byte : List ℕ → Option ℕ
    one_byte (x ∷ _) = some x
    one_byte [] = none

abbrev list_archive : Archive (List ℕ)
list_archive = record { to_bytes = λ x. some x; from_bytes = λ x. some x }

byte_archive-IsArchive : IsArchive byte_archive
byte_archive-IsArchive x bs e =
    sym (ap (λ r. elim r [ none ↦ none | some bs ↦ byte_archive.from_bytes bs ]) e)

list_archive-IsArchive : IsArchive list_archive
list_archive-IsArchive x bs e = sym e

abbrev a_hash : List ℕ
a_hash =
    1 ∷ 2 ∷ 3 ∷ 4 ∷ 5 ∷ 6 ∷ 7 ∷ 8 ∷ 9 ∷ 10 ∷ 11 ∷ 12 ∷ 13 ∷ 14 ∷ 15 ∷ 16 ∷ 17 ∷ 18 ∷ 19 ∷ 20 ∷ []

-- an accented letter and a surrogate
text_accent : from_utf8 (195 ∷ 169 ∷ []) ≡ ok (195 ∷ 169 ∷ [])
unfolding from_utf8 is_utf8
text_accent = refl

text_surrogate : from_utf8 (237 ∷ 160 ∷ 128 ∷ []) ≡ err utf8
unfolding from_utf8 is_utf8
text_surrogate = refl

encode-eq-format_example :
    encode plain texts byte_archive list_archive (Message.new_torrent (109 ∷ [])) (9 ∷ [])
    ≡ (ok tt, 9 ∷ 0 ∷ 0 ∷ 0 ∷ 2 ∷ 1 ∷ 109 ∷ [])
unfolding is_utf8
encode-eq-format_example =
    encode-eq-format plain plain-IsBuffer texts byte_archive list_archive
      (Message.new_torrent (109 ∷ [])) (9 ∷ []) (omega arith, refl, refl)

decode-encode_message_example :
    decode plain texts byte_archive list_archive (
      encoded plain plain-IsBuffer texts byte_archive list_archive
        (Message.delete_torrent a_hash true)
      ++ (0 ∷ []))
    ≡ (ok (some (Message.delete_torrent a_hash true)), 0 ∷ [])
decode-encode_message_example =
    decode-encode_message plain plain-IsBuffer texts byte_archive list_archive
      byte_archive-IsArchive list_archive-IsArchive (Message.delete_torrent a_hash true) (0 ∷ [])
      refl tt

decode-DaemonEnds_example :
    DaemonEnds texts byte_archive list_archive
      (decode plain texts byte_archive list_archive (0 ∷ 0 ∷ 0 ∷ 1 ∷ 8 ∷ [])).0
      (0 ∷ 0 ∷ 0 ∷ 1 ∷ 8 ∷ [])
decode-DaemonEnds_example =
    decode-DaemonEnds plain plain-IsBuffer texts byte_archive list_archive (0 ∷ 0 ∷ 0 ∷ 1 ∷ 8 ∷ [])
