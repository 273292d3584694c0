-- ===== src/Outcome.antt =====
-- How a call ends: a value, an `Err` of crates/vcz-lib/src/error.rs or `std::io`, or a panic.
use vincenzo.Prelude.{ℕ, List}

-- The errors that the modelled code returns.
pub data Error : Type 0 where
  handshake_invalid invalid_input invalid_data response_len utf8 magnet_link rkyv bencode : Error
  handshake_timeout peer_closed_socket torrent_does_not_exist piece_invalid files_missing not_found
        io other :
      Error

pub data Outcome {ℓ} (A : Type ℓ) : Type ℓ where
  ok : A → Outcome A
  err : Error → Outcome A
  panic : Outcome A

-- An action on a buffer of bytes. What it read or wrote before an error stays so.
abbrev pub OnBuf {ℓ} : Type ℓ → Type ℓ
OnBuf A = List ℕ → Outcome A × List ℕ

module _ {ℓ} {A : Type ℓ} where
  abbrev pub pure : A → OnBuf A
  pure a buf = (ok a, buf)

  abbrev pub raise : Error → OnBuf A
  raise e buf = (err e, buf)

  abbrev pub panics : OnBuf A
  panics buf = (panic, buf)

module _ {ℓ κ} {A : Type ℓ} {B : Type κ} where
  abbrev pub and_then : Outcome A → (A → OnBuf B) → OnBuf B
  and_then (ok a) f buf = f a buf
  and_then (err e) f buf = (err e, buf)
  and_then panic f buf = (panic, buf)

  infixl 10 ◌>>=◌ ◌>>◌
  abbrev pub ◌>>=◌ : OnBuf A → (A → OnBuf B) → OnBuf B
  ◌>>=◌ m f buf = let (r, rest) = m buf in and_then r f rest

  abbrev pub ◌>>◌ : OnBuf A → OnBuf B → OnBuf B
  m >> k = m >>= λ _. k
