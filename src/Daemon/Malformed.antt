-- ===== src/Daemon/Malformed.antt =====
-- `decode` of the daemon's messages on any bytes, well formed or not.
use vincenzo.Prelude.{
  ℕ, suc, ◌+◌, ◌<◌, ◌≤◌, ◌≡◌, refl, ap, ◌∙◌, List, [], ◌∷◌, ◌++◌, Option, none, some, length,
  length-drop, ltb, ◌==◌, if◌then◌else◌, inl, inr, Bool-cases, Option-cases, arith,
}
use vincenzo.Outcome.{Outcome, ok, err, panic, utf8, magnet_link, rkyv}
use vincenzo.Bytes.BigEndian.{u32_from_be_bytes, u32_to_be_bytes}
use vincenzo.Bytes.Buffer.{Buffer, IsBuffer, plain, eq-plain}
use vincenzo.Bytes.Utf8.{from_utf8, is_utf8}
use vincenzo.Daemon.Message.{Message, MessageId, message_id_try_from, Archive, MagnetUrl}
use vincenzo.Daemon.Codec.{decode, get_known}
use vincenzo.Daemon.RoundTrip.{decode_whole, slice_all}

-- how many bytes a message of this id reads whatever its length prefix says
abbrev pub fixed_len : MessageId → ℕ
fixed_len MessageId.init = 1
fixed_len MessageId.toggle_pause = 20
fixed_len MessageId.get_torrent_state = 20
fixed_len MessageId.delete_torrent = 21
fixed_len _ = 0

-- A value, or an error of the payload; a panic only where too few bytes are there.
abbrev pub EndsWith {ℓ} : {A : Type ℓ} → Outcome A → MessageId → ℕ → Type 0
EndsWith (ok _) id n = Unit
EndsWith (err utf8) id n = id ≡ MessageId.new_torrent
EndsWith (err magnet_link) id n = id ≡ MessageId.new_torrent
EndsWith (err rkyv) id n = Unit
EndsWith (err _) id n = ⊥
EndsWith panic id n = n < fixed_len id

module _ {Magnet State : Type 0} (url : MagnetUrl Magnet) (one : Archive State)
    (many : Archive (List State)) where
  get_known-EndsWith :
      (id : MessageId) (buf : List ℕ)
      → EndsWith (get_known plain url one many (some id) buf).0 id (length buf)
  unfolding get_known from_utf8
  get_known-EndsWith MessageId.init [] = omega arith
  get_known-EndsWith MessageId.init (x ∷ buf) = tt
  get_known-EndsWith MessageId.new_torrent buf =
      rw (slice_all buf) (elim (Bool-cases (is_utf8 [] buf)) [
        | inl e ↦
            rw e (elim (Option-cases (url.parse buf)) [ inl n ↦ rw n refl | inr m ↦ rw (m.1) tt ])
        | inr e ↦ rw e refl
      ])
  get_known-EndsWith MessageId.torrent_state buf = ground arith
  get_known-EndsWith MessageId.torrent_states buf = ground arith
  get_known-EndsWith MessageId.toggle_pause buf = ground arith
  get_known-EndsWith MessageId.get_torrent_state buf = ground arith
  get_known-EndsWith MessageId.delete_torrent buf = ground (arith, length-drop 20 buf)
  get_known-EndsWith _ buf = tt

  -- what `decode` panics on: a frame that has arrived with all the bytes its length prefix announces,
  -- and whose id needs more than those that have arrived
  abbrev pub DaemonEnds : Outcome (Option (Message Magnet State)) → List ℕ → Type 0
  DaemonEnds panic (a ∷ b ∷ c ∷ d ∷ i ∷ buf) =
      (id : MessageId) × (message_id_try_from i ≡ some id)
      × (length buf < fixed_len id)
      × (0 < u32_from_be_bytes a b c d)
      × (u32_from_be_bytes a b c d ≤ length buf + 1)
  DaemonEnds panic _ = ⊥
  DaemonEnds (err utf8) _ = Unit
  DaemonEnds (err magnet_link) _ = Unit
  DaemonEnds (err rkyv) _ = Unit
  DaemonEnds (err _) _ = ⊥
  DaemonEnds (ok _) _ = Unit

  ends :
      (a b c d i : ℕ) (buf : List ℕ) (id : MessageId) (r : Outcome (Option (Message Magnet State)))
      → message_id_try_from i ≡ some id
      → EndsWith r id (length buf)
      → 0 < u32_from_be_bytes a b c d
      → u32_from_be_bytes a b c d ≤ length buf + 1
      → DaemonEnds r (a ∷ b ∷ c ∷ d ∷ i ∷ buf)
  ends a b c d i buf id (ok _) e h p q = tt
  ends a b c d i buf id (err utf8) e h p q = tt
  ends a b c d i buf id (err magnet_link) e h p q = tt
  ends a b c d i buf id (err rkyv) e h p q = tt
  ends a b c d i buf id (err _) e h p q = absurd h
  ends a b c d i buf id panic e h p q = (id, e, h, p, q)

  known :
      (a b c d i : ℕ) (buf : List ℕ) (k : Option MessageId)
      → message_id_try_from i ≡ k
      → 0 < u32_from_be_bytes a b c d
      → u32_from_be_bytes a b c d ≤ length buf + 1
      → DaemonEnds (get_known plain url one many k buf).0 (a ∷ b ∷ c ∷ d ∷ i ∷ buf)
  known a b c d i buf none e p q = unfold get_known in tt
  known a b c d i buf (some id) e p q = ends a b c d i buf id _ e (get_known-EndsWith id buf) p q

  decode-head :
      (a b c d i : ℕ) (buf : List ℕ)
      → decode plain url one many (a ∷ b ∷ c ∷ d ∷ i ∷ buf) ≡ (
          if u32_from_be_bytes a b c d == 0
          then (ok (some Message.quit), a ∷ b ∷ c ∷ d ∷ i ∷ buf)
          else if ltb (length buf + 1) (u32_from_be_bytes a b c d)
          then (ok none, a ∷ b ∷ c ∷ d ∷ i ∷ buf)
          else get_known plain url one many (message_id_try_from i) buf)
  unfolding decode
  decode-head a b c d i buf = ground arith

  ends-plain : (buf : List ℕ) → DaemonEnds (decode plain url one many buf).0 buf
  ends-plain (a ∷ b ∷ c ∷ d ∷ i ∷ buf) =
      let size = u32_from_be_bytes a b c d in
      rw (decode-head a b c d i buf) (elim (Bool-cases (size == 0)) [
        | inl e ↦ rw e tt
        | inr n ↦ rw n (elim (Bool-cases (ltb (length buf + 1) size)) [
          | inl e ↦ rw e tt
          | inr m ↦ rw m (known a b c d i buf _ refl (ground arith) (ground arith))
        ])
      ])
  ends-plain (a ∷ b ∷ c ∷ d ∷ []) = unfold decode in ground arith
  ends-plain (a ∷ b ∷ c ∷ []) = unfold decode in tt
  ends-plain (a ∷ b ∷ []) = unfold decode in tt
  ends-plain (a ∷ []) = unfold decode in tt
  ends-plain [] = unfold decode in tt

module _ {Magnet State : Type 0} (o : Buffer) (is_buffer : IsBuffer o) (url : MagnetUrl Magnet)
    (one : Archive State) (many : Archive (List State)) where
  -- On any bytes `decode` returns a value or the error of a payload (text, magnet link or archive),
  -- and panics only on a frame that is whole, all the bytes that its length prefix announces being
  -- there and at least one, and whose id needs more bytes than have arrived.
  pub decode-DaemonEnds : (buf : List ℕ) → DaemonEnds url one many (decode o url one many buf).0 buf
  decode-DaemonEnds buf = rw (eq-plain is_buffer) (ends-plain url one many buf)

  -- `decode` panics on a frame that is too short for its message: a `TogglePause` frame that announces fewer than 20 bytes of info hash, and
  -- is all that has arrived, is a panic and not an error.
  decode_panics_on_short_hash :
      (hash : List ℕ)
      → length hash < 20
      → (decode o url one many (u32_to_be_bytes (suc (length hash)) ++ (4 ∷ hash))).0 ≡ panic
  decode_panics_on_short_hash hash h = rw (eq-plain is_buffer) (
      ap (λ r. r.0) (decode_whole url one many 4 hash (omega arith))
      ∙ (unfold get_known message_id_try_from in ground arith))
