-- ===== src/Wire/Format.antt =====
-- The format of a message as the protocol documents it, and the messages that it has room for.
use native.Mathlib.Nat.{mod-eq_of_lt}
use vincenzo.Prelude.{
  ℕ, ◌+◌, ◌≤◌, ◌≡◌, refl, List, [], ◌∷◌, ◌++◌, append_assoc, length, lt→ltb, arith,
}
use vincenzo.Outcome.{ok}
use vincenzo.Bytes.BigEndian.{IsByte, IsU32, u32_to_be_bytes}
use vincenzo.Bytes.Buffer.{plain}
use vincenzo.Wire.Message.{BlockInfo, BitVec, IsBitVec, Core, core_len}
use vincenzo.Wire.Codec.{encode}

abbrev pub info_bytes : BlockInfo → List ℕ
info_bytes b = u32_to_be_bytes b.index ++ (u32_to_be_bytes b.begin ++ u32_to_be_bytes b.len)

abbrev pub InfoFits : BlockInfo → Type 0
InfoFits b = IsU32 b.index × IsU32 b.begin × IsU32 b.len

module _ (v : BitVec) where
  open v use {Bitfield, to_bytes, from_bytes_general}

  -- the id and the payload
  abbrev pub body : Core Bitfield → List ℕ
  body Core.keep_alive = []
  body Core.choke = 0 ∷ []
  body Core.unchoke = 1 ∷ []
  body Core.interested = 2 ∷ []
  body Core.not_interested = 3 ∷ []
  body (Core.have index) = 4 ∷ u32_to_be_bytes index
  body (Core.bitfield b) = 5 ∷ to_bytes b
  body (Core.request b) = 6 ∷ info_bytes b
  body (Core.piece b) = 7 ∷ (u32_to_be_bytes b.index ++ (u32_to_be_bytes b.begin ++ b.block))
  body (Core.cancel b) = 8 ∷ info_bytes b
  body (Core.extended id payload) = 20 ∷ (id ∷ payload)

  abbrev pub wire : Core Bitfield → List ℕ
  wire msg = u32_to_be_bytes (length (body msg)) ++ body msg

  -- every number fits its field, and a bitfield has a byte
  abbrev pub Fits : Core Bitfield → Type 0
  Fits (Core.have index) = IsU32 index
  Fits (Core.bitfield b) = (1 ≤ length (to_bytes b)) × IsU32 (length (to_bytes b) + 1)
  Fits (Core.request b) = InfoFits b
  Fits (Core.piece b) = IsU32 b.index × IsU32 b.begin × IsU32 (length b.block + 9)
  Fits (Core.cancel b) = InfoFits b
  Fits (Core.extended id payload) = IsByte id × IsU32 (length payload + 2)
  Fits _ = Unit

  -- What arrives of a message: a bitfield comes back filled up to whole bytes.
  abbrev pub received : Core Bitfield → Core Bitfield
  received (Core.bitfield b) = Core.bitfield (from_bytes_general (to_bytes b))
  received msg = msg

  pub core_len-eq-length :
      IsBitVec v → (msg : Core Bitfield) → Fits msg → core_len v msg ≡ length (body msg)
  unfolding core_len
  core_len-eq-length h (Core.bitfield b) f = omega (arith, h.storage_len-eq-length b)
  core_len-eq-length h (Core.piece b) f = omega arith
  core_len-eq-length h (Core.extended id payload) f = omega arith
  core_len-eq-length h _ f = refl

  -- What `encode` writes, for any length that it puts in front.
  encode-head :
      (msg : Core Bitfield) (buf : List ℕ)
      → Fits msg
      → encode plain v msg buf ≡ (ok tt, buf ++ (u32_to_be_bytes (core_len v msg) ++ body msg))
  unfolding encode
  encode-head (Core.have index) buf f = rw (lt→ltb _ _ f) (simp append_assoc)
  encode-head (Core.request b) buf f =
      rw (mod-eq_of_lt f.0, mod-eq_of_lt f.1, mod-eq_of_lt f.2) (simp append_assoc)
  encode-head (Core.cancel b) buf f =
      rw (mod-eq_of_lt f.0, mod-eq_of_lt f.1, mod-eq_of_lt f.2) (simp append_assoc)
  encode-head (Core.piece b) buf f = rw (lt→ltb _ _ f.0, mod-eq_of_lt f.1) (simp append_assoc)
  encode-head Core.keep_alive buf f = refl
  encode-head _ buf f = simp append_assoc

  pub encode-plain :
      IsBitVec v
      → (msg : Core Bitfield) (buf : List ℕ) → Fits msg
      → encode plain v msg buf ≡ (ok tt, buf ++ wire msg)
  encode-plain h msg buf f = rw (encode-head msg buf f, core_len-eq-length h msg f)
