-- ===== src/Bytes/Buffer.antt =====
-- The `bytes` crate, which the program only calls: its operations on the unread bytes of a buffer
-- are a record that the codecs take, with their documented behaviour as laws. A call that would
-- read past the end panics.
use vincenzo.Prelude.{ℕ, ◌≡◌, refl, List, [], ◌∷◌, ◌++◌, length, take, drop, leb, if◌then◌else◌}
use vincenzo.Outcome.{ok, panic, OnBuf}
use vincenzo.Bytes.BigEndian.{u16_to_be_bytes, u32_to_be_bytes, u32_from_be_bytes}

pub record Buffer : Type 0 where
  pub put_u8 : ℕ → OnBuf (Unit {0})
  pub put_u16 : ℕ → OnBuf (Unit {0})
  pub put_u32 : ℕ → OnBuf (Unit {0})
  pub put_slice : List ℕ → OnBuf (Unit {0})
  pub advance : ℕ → OnBuf (Unit {0})
  pub clear : OnBuf (Unit {0})
  pub get_u8 : OnBuf ℕ
  pub get_u32 : OnBuf ℕ
  pub copy_to_bytes : ℕ → OnBuf (List ℕ)
  pub copy_to_slice : ℕ → OnBuf (List ℕ)

-- `u32::from_be_bytes([buf[0], buf[1], buf[2], buf[3]])`, read behind a test of the length.
abbrev pub peek_u32 : List ℕ → ℕ
peek_u32 (a ∷ b ∷ c ∷ d ∷ _) = u32_from_be_bytes a b c d
peek_u32 _ = 0

-- `buf.remaining()`
abbrev pub remaining : OnBuf ℕ
remaining buf = (ok (length buf), buf)

-- `put_u8` and the others append in big-endian order.
abbrev append : List ℕ → OnBuf (Unit {0})
append bs buf = (ok tt, buf ++ bs)

abbrev skip : ℕ → OnBuf (Unit {0})
skip n buf = if leb n (length buf) then (ok tt, drop n buf) else (panic, buf)

abbrev front : ℕ → OnBuf (List ℕ)
front n buf = if leb n (length buf) then (ok (take n buf), drop n buf) else (panic, buf)

abbrev first_u8 : OnBuf ℕ
first_u8 [] = (panic, [])
first_u8 (b ∷ buf) = (ok b, buf)

abbrev first_u32 : OnBuf ℕ
first_u32 (a ∷ b ∷ c ∷ d ∷ buf) = (ok (u32_from_be_bytes a b c d), buf)
first_u32 buf = (panic, buf)

pub record IsBuffer (o : Buffer) : Type 0 where
  pub put_u8_appends : (v : ℕ) (buf : List ℕ) → o.put_u8 v buf ≡ append (v ∷ []) buf
  pub put_u16_appends : (v : ℕ) (buf : List ℕ) → o.put_u16 v buf ≡ append (u16_to_be_bytes v) buf
  pub put_u32_appends : (v : ℕ) (buf : List ℕ) → o.put_u32 v buf ≡ append (u32_to_be_bytes v) buf
  pub put_slice_appends : (bs buf : List ℕ) → o.put_slice bs buf ≡ append bs buf
  pub advance_skips : (n : ℕ) (buf : List ℕ) → o.advance n buf ≡ skip n buf
  pub clear_empties : (buf : List ℕ) → o.clear buf ≡ (ok tt, [])
  pub get_u8_first : (buf : List ℕ) → o.get_u8 buf ≡ first_u8 buf
  pub get_u32_first : (buf : List ℕ) → o.get_u32 buf ≡ first_u32 buf
  pub copy_to_bytes_front : (n : ℕ) (buf : List ℕ) → o.copy_to_bytes n buf ≡ front n buf
  pub copy_to_slice_front : (n : ℕ) (buf : List ℕ) → o.copy_to_slice n buf ≡ front n buf

-- The crate's behaviour as functions, at which a run can be evaluated.
abbrev pub plain : Buffer
plain = record {
  put_u8 = λ v. append (v ∷ []);
  put_u16 = λ v. append (u16_to_be_bytes v);
  put_u32 = λ v. append (u32_to_be_bytes v);
  put_slice = append;
  advance = skip;
  clear = λ buf. (ok tt, []);
  get_u8 = first_u8;
  get_u32 = first_u32;
  copy_to_bytes = front;
  copy_to_slice = front;
}

pub plain-IsBuffer : IsBuffer plain
plain-IsBuffer = record {
  put_u8_appends = λ v buf. refl;
  put_u16_appends = λ v buf. refl;
  put_u32_appends = λ v buf. refl;
  put_slice_appends = λ v buf. refl;
  advance_skips = λ v buf. refl;
  clear_empties = λ buf. refl;
  get_u8_first = λ buf. refl;
  get_u32_first = λ buf. refl;
  copy_to_bytes_front = λ v buf. refl;
  copy_to_slice_front = λ v buf. refl;
}

-- The laws determine the operations, so that what holds at `plain` holds at every such crate.
pub eq-plain : {o : Buffer} → IsBuffer o → o ≡ plain
eq-plain h = λ i. record {
  put_u8 = λ v buf. h.put_u8_appends v buf i;
  put_u16 = λ v buf. h.put_u16_appends v buf i;
  put_u32 = λ v buf. h.put_u32_appends v buf i;
  put_slice = λ bs buf. h.put_slice_appends bs buf i;
  advance = λ n buf. h.advance_skips n buf i;
  clear = λ buf. h.clear_empties buf i;
  get_u8 = λ buf. h.get_u8_first buf i;
  get_u32 = λ buf. h.get_u32_first buf i;
  copy_to_bytes = λ n buf. h.copy_to_bytes_front n buf i;
  copy_to_slice = λ n buf. h.copy_to_slice_front n buf i;
}
