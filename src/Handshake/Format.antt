-- ===== src/Handshake/Format.antt =====
-- The bytes of a handshake, and that `encode` writes them.
use vincenzo.Prelude.{
  ℕ, ◌%◌, ◌^◌, ◌+◌, ◌≡◌, refl, ap, ◌∙◌, Option, none, some, List, [], ◌∷◌, ◌++◌, append-nil,
  append_assoc, length, length-append, arith,
}
use vincenzo.Outcome.{ok}
use vincenzo.Bytes.BigEndian.{IsU32, u32_to_be_bytes}
use vincenzo.Bytes.Buffer.{plain}
use vincenzo.Handshake.Codec.{Extended, Handshake, pstr_len, put_ext, encode}

module _ {E : Type 0} (x : Extended E) where
  -- The arrays have their lengths, and the extended handshake can be bencoded in a u32 of bytes.
  pub record IsWhole (h : Handshake E) : Type 0 where
    pub pstr_19 : length h.pstr ≡ 19
    pub reserved_8 : length h.reserved ≡ 8
    pub info_hash_20 : length h.info_hash ≡ 20
    pub peer_id_20 : length h.peer_id ≡ 20
    pub pstr_len_19 : h.pstr_len ≡ 19

  -- an extended handshake with its bencoding, if there is one
  abbrev pub Bencodes : Option E → List ℕ → Type 0
  Bencodes none bs = bs ≡ []
  Bencodes (some e) bs = (x.to_bencode e ≡ some bs) × IsU32 (length bs + 2)

  -- the handshake, and the extended one behind it
  abbrev pub head : Handshake E → List ℕ
  head h = pstr_len ∷ (h.pstr ++ (h.reserved ++ (h.info_hash ++ h.peer_id)))

  abbrev pub tail : Option E → List ℕ → List ℕ
  tail none bs = []
  tail (some e) bs = u32_to_be_bytes (2 + length bs) ++ (20 ∷ 0 ∷ bs)

  pub length-head : (h : Handshake E) → IsWhole h → length (head h) ≡ 68
  length-head h w = omega (
    arith,
    length-append h.pstr (h.reserved ++ (h.info_hash ++ h.peer_id)),
    length-append h.reserved (h.info_hash ++ h.peer_id),
    length-append h.info_hash h.peer_id,
    w.pstr_19,
    w.reserved_8,
    w.info_hash_20,
    w.peer_id_20,
  )

  put_ext-plain :
      (e : Option E) (bs buf : List ℕ)
      → Bencodes e bs
      → put_ext plain x e buf ≡ (ok tt, buf ++ tail e bs)
  unfolding put_ext
  put_ext-plain none bs buf b = rw (append-nil buf) refl
  put_ext-plain (some e) bs buf b =
      let fits : (2 + length bs % 2 ^ 32) % 2 ^ 32 ≡ 2 + length bs = omega (arith, b.1) in
      rw (b.0, fits) (simp append_assoc)

  -- Of a handshake whose extended handshake can be bencoded `encode` appends the 68 bytes, and behind
  -- them the extended one as a message of its own.
  pub encode-plain :
      (h : Handshake E) (bs buf : List ℕ)
      → Bencodes h.ext bs
      → encode plain x h buf ≡ (ok tt, buf ++ (head h ++ tail h.ext bs))
  unfolding encode
  encode-plain h bs buf b =
      let e : ((((buf ++ (pstr_len ∷ [])) ++ h.pstr) ++ h.reserved) ++ h.info_hash) ++ h.peer_id
          ≡ buf ++ head h =
        simp append_assoc in
      ap (put_ext plain x h.ext) e
      ∙ put_ext-plain h.ext bs (buf ++ head h) b
      ∙ ap (λ r. (ok tt, r)) (append_assoc buf (head h) (tail h.ext bs))
