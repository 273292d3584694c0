-- ===== src/Torrent/Bits.antt =====
-- The `bit_vec` crate, which the program only calls: its operations on a sequence of bits are a
-- record that the code takes, with their documented behaviour as laws; and `safe_set` and `safe_get`
-- of crates/vcz-lib/src/bitfield.rs.
use vincenzo.Prelude.{
  ℕ, zero, suc, ◌+◌, ◌-◌, ◌≡◌, refl, Bool, true, false, not, ◌&&◌, List, [], ◌∷◌, ◌++◌, length,
  take, map, ltb, leb, ◌==◌, if◌then◌else◌,
}
use vincenzo.Outcome.{Outcome, ok, panic}

pub record Bits : Type 0 where
  pub grow : ℕ → Bool → List Bool → List Bool
  pub truncate : ℕ → List Bool → List Bool
  pub set : ℕ → Bool → List Bool → Outcome (List Bool)
  pub get_unchecked : ℕ → List Bool → Bool
  pub negate : List Bool → List Bool
  pub and : List Bool → List Bool → Outcome (List Bool)
  pub count_ones : List Bool → ℕ

abbrev pub repeat : ℕ → Bool → List Bool
repeat zero b = []
repeat (suc n) b = b ∷ repeat n b

-- out of range `set` panics
abbrev pub put : ℕ → Bool → List Bool → List Bool
put i b [] = []
put zero b (x ∷ xs) = b ∷ xs
put (suc i) b (x ∷ xs) = x ∷ put i b xs

abbrev put_or_panic : ℕ → Bool → List Bool → Outcome (List Bool)
put_or_panic i b xs = if ltb i (length xs) then ok (put i b xs) else panic

-- a bit in range; out of range the crate promises nothing
abbrev pub bit_at : ℕ → List Bool → Bool
bit_at i [] = false
bit_at zero (x ∷ xs) = x
bit_at (suc i) (x ∷ xs) = bit_at i xs

abbrev pub both : List Bool → List Bool → List Bool
both [] ys = []
both (x ∷ xs) [] = []
both (x ∷ xs) (y ∷ ys) = (x && y) ∷ both xs ys

-- of two lengths `and` panics
abbrev both_or_panic : List Bool → List Bool → Outcome (List Bool)
both_or_panic xs ys = if length xs == length ys then ok (both xs ys) else panic

abbrev pub ones : List Bool → ℕ
ones [] = 0
ones (true ∷ bs) = suc (ones bs)
ones (false ∷ bs) = ones bs

abbrev pub plain : Bits
plain = record {
  grow = λ n b xs. xs ++ repeat n b;
  truncate = take;
  set = put_or_panic;
  get_unchecked = bit_at;
  negate = λ xs. map not xs;
  and = both_or_panic;
  count_ones = ones;
}

pub record IsBits (o : Bits) : Type 0 where
  pub grow_appends : (n : ℕ) (b : Bool) (xs : List Bool) → o.grow n b xs ≡ xs ++ repeat n b
  pub truncate_takes : (n : ℕ) (xs : List Bool) → o.truncate n xs ≡ take n xs
  pub set_puts : (i : ℕ) (b : Bool) (xs : List Bool) → o.set i b xs ≡ put_or_panic i b xs
  pub get_reads : (i : ℕ) (xs : List Bool) → o.get_unchecked i xs ≡ bit_at i xs
  pub negate_all : (xs : List Bool) → o.negate xs ≡ map not xs
  pub and_pairs : (xs ys : List Bool) → o.and xs ys ≡ both_or_panic xs ys
  pub count_ones_counts : (xs : List Bool) → o.count_ones xs ≡ ones xs

pub plain-IsBits : IsBits plain
plain-IsBits = record {
  grow_appends = λ n b xs. refl;
  truncate_takes = λ n xs. refl;
  set_puts = λ i b xs. refl;
  get_reads = λ i xs. refl;
  negate_all = λ xs. refl;
  and_pairs = λ xs ys. refl;
  count_ones_counts = λ xs. refl;
}

-- The laws determine the operations, so that what holds at `plain` holds at every such crate.
pub eq-plain : {o : Bits} → IsBits o → o ≡ plain
eq-plain h = λ i. record {
  grow = λ n b xs. h.grow_appends n b xs i;
  truncate = λ n xs. h.truncate_takes n xs i;
  set = λ k b xs. h.set_puts k b xs i;
  get_unchecked = λ k xs. h.get_reads k xs i;
  negate = λ xs. h.negate_all xs i;
  and = λ xs ys. h.and_pairs xs ys i;
  count_ones = λ xs. h.count_ones_counts xs i;
}

module _ (o : Bits) where
  -- `if index >= self.len() { self.grow(index + 1 - self.len(), false) }`
  unfoldable pub reach : ℕ → List Bool → List Bool
  reach index xs = if leb (length xs) index then o.grow (index + 1 - length xs) false xs else xs

  unfoldable pub safe_set : ℕ → Bool → List Bool → Outcome (List Bool)
  unfolding reach
  safe_set index val xs = o.set index val (reach index xs)

  -- the bit, and the sequence, which has grown
  unfoldable pub safe_get : ℕ → List Bool → Bool × List Bool
  unfolding reach
  safe_get index xs = (o.get_unchecked index (reach index xs), reach index xs)
