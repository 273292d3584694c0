-- ===== src/Daemon/Format.antt =====
-- The format of the daemon's messages as `Message` documents it, and the messages it has room for.
use vincenzo.Prelude.{
  ℕ, suc, ◌+◌, ◌%◌, ◌^◌, ◌≡◌, true, Option, none, some, List, [], ◌∷◌, ◌++◌, append_assoc, length,
  length-append, arith,
}
use vincenzo.Outcome.{ok}
use vincenzo.Bytes.BigEndian.{IsU32, u32_to_be_bytes}
use vincenzo.Bytes.Buffer.{plain}
use vincenzo.Bytes.Utf8.{is_utf8}
use vincenzo.Daemon.Message.{Message, Archive, MagnetUrl}
use vincenzo.Daemon.Codec.{encode, bit}

-- the bytes of an archive, where it can be written
abbrev pub archived : Option (List ℕ) → List ℕ
archived none = []
archived (some bs) = bs

one_more : (n : ℕ) → IsU32 (n + 1) → (1 + n % 2 ^ 32) % 2 ^ 32 ≡ suc n
one_more n h = omega arith

module _ {Magnet State : Type 0} (url : MagnetUrl Magnet) (one : Archive State)
    (many : Archive (List State)) where
  -- the id and the payload
  abbrev pub body : Message Magnet State → List ℕ
  body (Message.init b) = bit b ∷ []
  body Message.quit = 6 ∷ []
  body Message.frontend_quit = 7 ∷ []
  body (Message.new_torrent m) = 1 ∷ url.to_string m
  body (Message.torrent_state s) = 2 ∷ archived (one.to_bytes s)
  body (Message.torrent_states ss) = 8 ∷ archived (many.to_bytes ss)
  body (Message.toggle_pause h) = 4 ∷ h
  body (Message.delete_torrent h b) = 9 ∷ (h ++ (bit b ∷ []))
  body (Message.get_torrent_state h) = 3 ∷ h
  body Message.print_torrent_status = 5 ∷ []

  abbrev pub wire : Message Magnet State → List ℕ
  wire msg = u32_to_be_bytes (length (body msg)) ++ body msg

  -- an info hash has 20 bytes, a payload exists and its length fits its field
  abbrev pub Fits : Message Magnet State → Type 0
  Fits (Message.new_torrent m) =
      IsU32 (length (url.to_string m) + 1)
      × (is_utf8 [] (url.to_string m) ≡ true)
      × (url.parse (url.to_string m) ≡ some m)
  Fits (Message.torrent_state s) =
      (bs : List ℕ) × (one.to_bytes s ≡ some bs) × IsU32 (length bs + 1)
  Fits (Message.torrent_states ss) =
      (bs : List ℕ) × (many.to_bytes ss ≡ some bs) × IsU32 (length bs + 1)
  Fits (Message.toggle_pause h) = length h ≡ 20
  Fits (Message.delete_torrent h b) = length h ≡ 20
  Fits (Message.get_torrent_state h) = length h ≡ 20
  Fits _ = Unit

  pub encode-plain :
      (msg : Message Magnet State) (buf : List ℕ)
      → Fits msg
      → encode plain url one many msg buf ≡ (ok tt, buf ++ wire msg)
  unfolding encode
  encode-plain (Message.new_torrent m) buf f = rw (one_more _ f.0) (simp append_assoc)
  encode-plain (Message.torrent_state s) buf f = rw (f.1, one_more _ f.2) (simp append_assoc)
  encode-plain (Message.torrent_states ss) buf f = rw (f.1, one_more _ f.2) (simp append_assoc)
  encode-plain (Message.toggle_pause h) buf f = rw (f) (simp append_assoc)
  encode-plain (Message.delete_torrent h b) buf f =
      rw (f, length-append h (bit b ∷ []), f) (simp append_assoc)
  encode-plain (Message.get_torrent_state h) buf f = rw (f) (simp append_assoc)
  encode-plain _ buf f = simp append_assoc
