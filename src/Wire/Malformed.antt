-- ===== src/Wire/Malformed.antt =====
-- `decode` on any bytes, well formed or not, and the error of `encode`.
use vincenzo.Prelude.{
  ℕ, suc, ◌+◌, ◌^◌, ◌≤◌, ◌<◌, ◌≡◌, refl, List, [], ◌∷◌, ◌++◌, append_assoc, append-nil, Option,
  none, some, length, length-append, drop, length-drop, le→ltb, arith, inl, inr, Bool-cases, ltb→le,
  ltb, ◌==◌, if◌then◌else◌,
}
use vincenzo.Outcome.{Outcome, ok, err, panic, invalid_input}
use vincenzo.Bytes.BigEndian.{IsU32, u32_to_be_bytes, u32_from-to, u32_from_be_bytes}
use vincenzo.Bytes.Buffer.{Buffer, IsBuffer, plain, eq-plain}
use vincenzo.Bytes.Reads.{first_u32-reads}
use vincenzo.Wire.Message.{BitVec, Core, CoreId, id_try_from, core_len}
use vincenzo.Wire.Codec.{encode, decode, get_message}
use vincenzo.Wire.RoundTrip.{decode-framed}

-- The frames whose length prefix is too small for their own fields.
abbrev pub IsTooSmall : CoreId → ℕ → Type 0
IsTooSmall CoreId.piece size = size < 9
IsTooSmall CoreId.extended size = size < 2
IsTooSmall _ size = ⊥

-- It ends with a value, or panics on a frame that is too small.
abbrev pub Ends {ℓ} : {A : Type ℓ} → Outcome A → Type 0 → Type 0
Ends (ok _) P = Unit
Ends (err _) P = ⊥
Ends panic P = P

Ends_mono {ℓ} : {A : Type ℓ} {P Q : Type 0} (r : Outcome A) → (P → Q) → Ends r P → Ends r Q
Ends_mono (ok _) f e = tt
Ends_mono (err _) f e = e
Ends_mono panic f e = f e

drop-suc-append {ℓ} :
    {A : Type ℓ} (xs : List A) (x : A) (ys : List A) → drop (suc (length xs)) (xs ++ (x ∷ ys)) ≡ ys
drop-suc-append [] x ys = refl
drop-suc-append (y ∷ xs) x ys = drop-suc-append xs x ys

module _ (v : BitVec) where
  open v use {Bitfield}

  get_message-ends :
      (id : CoreId) (size : ℕ) (buf : List ℕ)
      → 0 < size
      → size ≤ length buf + 1
      → Ends (get_message plain v (some id) size buf).0 (IsTooSmall id size)
  unfolding get_message
  get_message-ends CoreId.have size buf p h = ground (arith, first_u32-reads buf)
  get_message-ends CoreId.bitfield size buf p h = ground arith
  get_message-ends CoreId.request size buf p h = ground (
    arith,
    first_u32-reads buf,
    first_u32-reads (drop 4 buf),
    first_u32-reads (drop 4 (drop 4 buf)),
    length-drop 4 buf,
    length-drop 4 (drop 4 buf),
  )
  get_message-ends CoreId.piece size buf p h = ground (
    arith,
    first_u32-reads buf,
    first_u32-reads (drop 4 buf),
    length-drop 4 buf,
    length-drop 4 (drop 4 buf),
  )
  get_message-ends CoreId.cancel size buf p h = ground (
    arith,
    first_u32-reads buf,
    first_u32-reads (drop 4 buf),
    first_u32-reads (drop 4 (drop 4 buf)),
    length-drop 4 buf,
    length-drop 4 (drop 4 buf),
  )
  get_message-ends CoreId.extended size buf p h = ground arith
  get_message-ends _ size buf p h = tt

  -- the bytes at which `decode` panics: a whole frame that is too small for its own id
  abbrev pub PanicsOn : List ℕ → Type 0
  PanicsOn (a ∷ b ∷ c ∷ d ∷ id ∷ _) =
      (k : CoreId) × (id_try_from id ≡ some k) × IsTooSmall k (u32_from_be_bytes a b c d)
  PanicsOn _ = ⊥

  get_message_absent-ends : (size : ℕ) (buf : List ℕ) → Ends (get_message plain v none size buf).0 ⊥
  unfolding get_message
  get_message_absent-ends size buf = ground arith

  get_message-PanicsOn :
      (a b c d id : ℕ) (buf : List ℕ) (k : Option CoreId)
      → id_try_from id ≡ k
      → 0 < u32_from_be_bytes a b c d
      → u32_from_be_bytes a b c d ≤ length buf + 1
      → Ends
          (get_message plain v k (u32_from_be_bytes a b c d) buf).0
          (PanicsOn (a ∷ b ∷ c ∷ d ∷ id ∷ buf))
  get_message-PanicsOn a b c d id buf none e p h =
      Ends_mono (get_message plain v none _ buf).0 (λ x. absurd x) (get_message_absent-ends _ buf)
  get_message-PanicsOn a b c d id buf (some k) e p h =
      Ends_mono (get_message plain v (some k) _ buf).0 (λ x. (k, e, x))
        (get_message-ends k _ buf p h)

  decode-head :
      (a b c d id : ℕ) (buf : List ℕ)
      → decode plain v (a ∷ b ∷ c ∷ d ∷ id ∷ buf) ≡ (
          if u32_from_be_bytes a b c d == 0
          then (ok (some Core.keep_alive), id ∷ buf)
          else if ltb (length buf + 1) (u32_from_be_bytes a b c d)
          then (ok none, a ∷ b ∷ c ∷ d ∷ id ∷ buf)
          else get_message plain v (id_try_from id) (u32_from_be_bytes a b c d) buf)
  unfolding decode
  decode-head a b c d id buf = ground arith

  decode-ends-plain : (buf : List ℕ) → Ends (decode plain v buf).0 (PanicsOn buf)
  unfolding decode
  decode-ends-plain (a ∷ b ∷ c ∷ d ∷ id ∷ buf) =
      let size = u32_from_be_bytes a b c d in
      rw (decode-head a b c d id buf) (elim (Bool-cases (size == 0)) [
        | inl e ↦ rw e tt
        | inr n ↦ rw n (elim (Bool-cases (ltb (length buf + 1) size)) [
          | inl e ↦ rw e tt
          | inr m ↦ rw m (get_message-PanicsOn a b c d id buf _ refl (ground arith) (ltb→le _ _ m))
        ])
      ])
  decode-ends-plain (a ∷ b ∷ c ∷ d ∷ []) = ground arith
  decode-ends-plain (a ∷ b ∷ c ∷ []) = tt
  decode-ends-plain (a ∷ b ∷ []) = tt
  decode-ends-plain (a ∷ []) = tt
  decode-ends-plain [] = tt

  piece-panics-plain :
      (size : ℕ) (payload : List ℕ)
      → 0 < size
      → size < 9
      → 8 ≤ length payload
      → (decode plain v (u32_to_be_bytes size ++ (7 ∷ payload))).0 ≡ panic
  unfolding id_try_from
  piece-panics-plain size payload p q h =
      rw (decode-head _ _ _ _ 7 payload, u32_from-to size (omega arith))
        (unfold get_message in
          ground (
            arith,
            first_u32-reads payload,
            first_u32-reads (drop 4 payload),
            length-drop 4 payload,
          ))

  drop_unknown :
      (payload rest : List ℕ)
      → get_message plain v none (suc (length payload)) (payload ++ rest) ≡ (ok none, drop 1 rest)
  unfolding get_message
  drop_unknown payload [] = rw append-nil (ground arith)
  drop_unknown payload (x ∷ rest) =
      ground (arith, length-append payload (x ∷ rest), drop-suc-append payload x rest)

module _ (o : Buffer) (is_buffer : IsBuffer o) (v : BitVec) where
  -- On any bytes `decode` returns a value, never an error, and panics only where a whole frame is
  -- too small for the fields of its own id.
  pub decode_ends : (buf : List ℕ) → Ends (decode o v buf).0 (PanicsOn v buf)
  decode_ends buf = rw (eq-plain is_buffer) (decode-ends-plain v buf)

  -- `decode` panics at every `Piece` frame that announces fewer than 9 bytes, once 8 bytes
  -- have arrived behind the id.
  decode_panics_on_small_piece :
      (size : ℕ) (payload : List ℕ)
      → 0 < size
      → size < 9
      → 8 ≤ length payload
      → (decode o v (u32_to_be_bytes size ++ (7 ∷ payload))).0 ≡ panic
  decode_panics_on_small_piece size payload p q h =
      rw (eq-plain is_buffer) (piece-panics-plain v size payload p q h)

  -- A whole frame with an unknown id is dropped together with the first byte of what follows it.
  decode-unknown_id :
      (id : ℕ) (payload rest : List ℕ)
      → IsU32 (length payload + 1)
      → id_try_from id ≡ none
      → decode o v (u32_to_be_bytes (suc (length payload)) ++ (id ∷ (payload ++ rest)))
        ≡ (ok none, drop 1 rest)
  decode-unknown_id id payload rest f e =
      rw (eq-plain is_buffer, decode-framed v id payload rest f, e) (drop_unknown v payload rest)

  -- A piece index that a u32 cannot hold is refused, behind a prefix and an id already written.
  encode-have_too_large :
      (index : ℕ) (buf : List ℕ)
      → 2 ^ 32 ≤ index
      → encode o v (Core.have index) buf ≡ (err invalid_input, buf ++ (0 ∷ 0 ∷ 0 ∷ 5 ∷ 4 ∷ []))
  unfolding encode core_len
  encode-have_too_large index buf h =
      rw (eq-plain is_buffer, le→ltb index (2 ^ 32) h) (simp append_assoc)
