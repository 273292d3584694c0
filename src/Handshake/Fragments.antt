-- ===== src/Handshake/Fragments.antt =====
-- What `decode` makes of a handshake, of which more or less has arrived.
use vincenzo.Prelude.{
  ℕ, ◌+◌, ◌<◌, ◌≡◌, refl, sym, ap, ◌∙◌, false, Option, none, some, List, [], ◌∷◌, ◌++◌,
  append_assoc, length, length-append, ltb, lt→ltb, le→ltb, ltb→le, Bool-cases, inl, inr, drop,
  drop-append_self, subst, if◌then◌else◌, arith,
}
use vincenzo.Prelude.Slices.{split_behind}
use vincenzo.Outcome.{Outcome, ok}
use vincenzo.Bytes.BigEndian.{u32_from-to}
use vincenzo.Bytes.Buffer.{Buffer, IsBuffer, plain, eq-plain, peek_u32}
use vincenzo.Bytes.Reads.{front-append}
use vincenzo.Handshake.Codec.{
  Extended, IsExtended, Handshake, pstr_len, min_len, get_ext, get_fields, encode, decode,
}
use vincenzo.Handshake.Format.{IsWhole, Bencodes, head, tail, length-head, encode-plain}

slice-append :
    (n : ℕ) (xs rest : List ℕ) → length xs ≡ n → plain.copy_to_slice n (xs ++ rest) ≡ (ok xs, rest)
slice-append n xs rest e = let p = front-append xs rest in rw (e) at p

behind_68 :
    {A : Type 0} (xs mid : List ℕ)
    → length xs ≡ 68
    → (p q r : A)
    → (if ltb (length (xs ++ mid)) 68 then p else if ltb (length (xs ++ mid)) 74 then q else r)
      ≡ (if ltb (length mid) 6 then q else r)
behind_68 xs mid n p q r = ground (arith, n, length-append xs mid)

module _ {E : Type 0} (x : Extended E) where
  -- a handshake without what stands behind its 68 bytes
  abbrev pub bare : Handshake E → Handshake E
  bare h = record h { ext = none }

  get_fields-plain :
      (h : Handshake E) (rest : List ℕ)
      → IsWhole x h
      → get_fields plain x (h.pstr ++ (h.reserved ++ (h.info_hash ++ (h.peer_id ++ rest))))
        ≡ get_ext plain x (record (bare h) { pstr_len = pstr_len }) rest
  unfolding get_fields
  get_fields-plain h rest w =
      let a =
        slice-append 19 h.pstr (h.reserved ++ (h.info_hash ++ (h.peer_id ++ rest))) w.pstr_19 in
      let b = slice-append 8 h.reserved (h.info_hash ++ (h.peer_id ++ rest)) w.reserved_8 in
      let c = slice-append 20 h.info_hash (h.peer_id ++ rest) w.info_hash_20 in
      rw (a, b, c, slice-append 20 h.peer_id rest w.peer_id_20) refl

  -- the 68 bytes are read, and what stands behind them is looked at
  pub decode-head :
      (h : Handshake E) (rest : List ℕ)
      → IsWhole x h
      → decode plain x (head x h ++ rest) ≡ get_ext plain x (bare h) rest
  unfolding decode
  decode-head h rest w =
      let long : ltb (length (head x h ++ rest)) min_len ≡ false =
        le→ltb _ _ (omega (arith, length-append (head x h) rest, length-head x h w)) in
      let flat : h.pstr ++ (h.reserved ++ (h.info_hash ++ h.peer_id)) ++ rest
          ≡ h.pstr ++ (h.reserved ++ (h.info_hash ++ (h.peer_id ++ rest))) =
        simp append_assoc in
      rw long (
        ap (get_fields plain x) flat
        ∙ get_fields-plain h rest w
        ∙ ap (λ n. get_ext plain x (record (bare h) { pstr_len = n }) rest) (sym w.pstr_len_19))

  -- what may follow: behind a handshake without an extended one, too little for one
  abbrev pub Follows : Option E → List ℕ → Type 0
  Follows none rest = length rest < 6
  Follows (some e) rest = Unit {0}

  get_ext-tail :
      IsExtended x
      → (h : Handshake E) (e : E) (bs rest : List ℕ) → Bencodes x (some e) bs
      → get_ext plain x h (tail x (some e) bs ++ rest)
        ≡ (ok (some (record h { ext = some e })), rest)
  unfolding get_ext
  get_ext-tail is_x h e bs rest b = ground (
    arith,
    u32_from-to (2 + length bs) (omega (arith, b.1)),
    length-append bs rest,
    front-append bs rest,
    is_x e bs b.0,
  )

  get_ext-cut :
      (h : Handshake E) (e : E) (bs mid back : List ℕ) (y : ℕ)
      → Bencodes x (some e) bs
      → tail x (some e) bs ≡ mid ++ (y ∷ back)
      → get_ext plain x h mid ≡ (if ltb (length mid) 6 then (ok (some h), mid) else (ok none, mid))
  unfolding get_ext
  get_ext-cut h e bs [] back y b q = refl
  get_ext-cut h e bs (a ∷ []) back y b q = refl
  get_ext-cut h e bs (a ∷ b' ∷ []) back y b q = refl
  get_ext-cut h e bs (a ∷ b' ∷ c ∷ []) back y b q = refl
  get_ext-cut h e bs (a ∷ b' ∷ c ∷ d ∷ []) back y b q = refl
  get_ext-cut h e bs (a ∷ b' ∷ c ∷ d ∷ i ∷ []) back y b q = refl
  get_ext-cut h e bs (a ∷ b' ∷ c ∷ d ∷ i ∷ j ∷ mid) back y b q = ground (
    arith,
    ap peek_u32 q,
    u32_from-to (2 + length bs) (omega (arith, b.1)),
    ap length q,
    length-append mid (y ∷ back),
  )

  get_ext-whole :
      IsExtended x
      → (h : Handshake E) (e : Option E) (bs rest : List ℕ) → Bencodes x e bs
      → Follows e rest
      → get_ext plain x (bare h) (tail x e bs ++ rest) ≡ (ok (some (record h { ext = e })), rest)
  unfolding get_ext
  get_ext-whole is_x h none bs rest b f = rw (lt→ltb (length rest) 6 f) refl
  get_ext-whole is_x h (some e) bs rest b f = get_ext-tail is_x (bare h) e bs rest b

  -- what is returned, and what is left, of the part that has arrived
  abbrev pub arrived : Handshake E → List ℕ → Outcome (Option (Handshake E)) × List ℕ
  arrived h front =
      if ltb (length front) 68
      then (ok none, front)
      else if ltb (length front) 74
      then (ok (some (bare h)), drop 68 front)
      else (ok none, drop 68 front)

  arrived-head :
      (h : Handshake E) (mid : List ℕ)
      → IsWhole x h
      → arrived h (head x h ++ mid)
        ≡ (if ltb (length mid) 6 then (ok (some (bare h)), mid) else (ok none, mid))
  arrived-head h mid w =
      let gone = drop-append_self (head x h) mid in
      let n = length-head x h w in
      let gone68 : drop 68 (head x h ++ mid) ≡ mid =
        subst (λ k. drop k (head x h ++ mid) ≡ mid) n gone in
      rw gone68 (behind_68 (head x h) mid n _ _ _)

module _ {E : Type 0} (o : Buffer) (is_buffer : IsBuffer o) (x : Extended E) where
  abbrev pub encoded : Handshake E → List ℕ
  encoded h = (encode o x h []).1

  encoded-plain :
      (h : Handshake E) (bs : List ℕ)
      → Bencodes x h.ext bs
      → encoded h ≡ head x h ++ tail x h.ext bs
  encoded-plain h bs b = rw (eq-plain is_buffer) (ap (λ r. r.1) (encode-plain x h bs [] b))

  -- A handshake that was encoded is read back, and what follows it is left, where the extended
  -- handshake is read back from its bencoding; without an extended handshake, as long as fewer than
  -- six bytes follow.
  pub decode-encode_handshake :
      IsExtended x
      → (h : Handshake E) (bs rest : List ℕ) → IsWhole x h
      → Bencodes x h.ext bs
      → Follows x h.ext rest
      → decode o x (encoded h ++ rest) ≡ (ok (some h), rest)
  decode-encode_handshake is_x h bs rest w b f =
      ap (λ r. decode o x (r ++ rest)) (encoded-plain h bs b)
      ∙ ap (decode o x) (append_assoc (head x h) (tail x h.ext bs) rest)
      ∙ rw (eq-plain is_buffer)
          (decode-head x h (tail x h.ext bs ++ rest) w ∙ get_ext-whole x is_x h h.ext bs rest b f)

  -- Of a handshake with an extended one of which the last bytes have not arrived: before 68 bytes
  -- nothing is read; up to 73 the handshake is returned without its extended one; from 74 on nothing is
  -- returned and the 68 bytes are gone.
  pub decode-arrived :
      (h : Handshake E) (e : E) (bs front back : List ℕ) (y : ℕ)
      → IsWhole x h
      → Bencodes x (some e) bs
      → encoded (record h { ext = some e }) ≡ front ++ (y ∷ back)
      → decode o x front ≡ arrived x h front
  decode-arrived h e bs front back y w b q = elim (Bool-cases (ltb (length front) 68)) [
    | inl short ↦ rw (eq-plain is_buffer, short) (unfold decode in rw short refl)
    | inr long ↦
        let at_plain = sym (encoded-plain (record h { ext = some e }) bs b) ∙ q in
        let (mid, p, r) =
          split_behind (head x h) (tail x (some e) bs) front (y ∷ back) at_plain
            (omega (arith, length-head x h w, ltb→le (length front) 68 long)) in
        rw (eq-plain is_buffer, p)
          (decode-head x h mid w
            ∙ get_ext-cut x (bare x h) e bs mid back y b r
            ∙ sym (arrived-head x h mid w))
  ]
