-- ===== src/Torrent/BitLaws.antt =====
-- What growing, setting and pairing bits do to a bit.
use vincenzo.Prelude.{
  ℕ, zero, suc, ◌+◌, ◌-◌, ◌<◌, ◌≡◌, refl, ap, Bool, true, false, not, List, [], ◌∷◌, ◌++◌, length,
  length-append, map, leb, Bool-cases, inl, inr, arith, leb→le, leb→lt,
}
use vincenzo.Torrent.Bits.{plain, reach, bit_at, put, repeat, both}

bit_at-repeat : (n p : ℕ) → bit_at p (repeat n false) ≡ false
bit_at-repeat zero p = refl
bit_at-repeat (suc n) zero = refl
bit_at-repeat (suc n) (suc p) = bit_at-repeat n p

bit_at-append : (xs : List Bool) (n p : ℕ) → bit_at p (xs ++ repeat n false) ≡ bit_at p xs
bit_at-append [] n p = bit_at-repeat n p
bit_at-append (x ∷ xs) n zero = refl
bit_at-append (x ∷ xs) n (suc p) = bit_at-append xs n p

pub bit_at-reach : (i p : ℕ) (xs : List Bool) → bit_at p (reach plain i xs) ≡ bit_at p xs
unfolding reach
bit_at-reach i p xs = elim (Bool-cases (leb (length xs) i)) [
  | inl e ↦ rw e (bit_at-append xs (i + 1 - length xs) p)
  | inr e ↦ rw e refl
]

length-repeat : (n : ℕ) → length (repeat n false) ≡ n
length-repeat zero = refl
length-repeat (suc n) = ap suc (length-repeat n)

pub reach_holds : (i : ℕ) (xs : List Bool) → i < length (reach plain i xs)
unfolding reach
reach_holds i xs = elim (Bool-cases (leb (length xs) i)) [
  | inl e ↦ rw e (
      omega (
        arith,
        leb→le _ _ e,
        length-append xs (repeat (i + 1 - length xs) false),
        length-repeat (i + 1 - length xs),
      ))
  | inr e ↦ rw e (leb→lt _ _ e)
]

pub bit_at-put : (i p : ℕ) (xs : List Bool) → bit_at p xs ≡ true → bit_at p (put i true xs) ≡ true
bit_at-put i p [] h = h
bit_at-put zero zero (x ∷ xs) h = refl
bit_at-put zero (suc p) (x ∷ xs) h = h
bit_at-put (suc i) zero (x ∷ xs) h = h
bit_at-put (suc i) (suc p) (x ∷ xs) h = bit_at-put i p xs h

pub bit_at-put_same : (i : ℕ) (xs : List Bool) → i < length xs → bit_at i (put i true xs) ≡ true
bit_at-put_same i [] h = absurd (omega arith)
bit_at-put_same zero (x ∷ xs) h = refl
bit_at-put_same (suc i) (x ∷ xs) h = bit_at-put_same i xs (omega arith)

pub bit_at-put_other : (i p : ℕ) (xs : List Bool) → i < p → bit_at p (put i true xs) ≡ bit_at p xs
bit_at-put_other i p [] h = refl
bit_at-put_other zero zero (x ∷ xs) h = absurd (omega arith)
bit_at-put_other zero (suc p) (x ∷ xs) h = refl
bit_at-put_other (suc i) zero (x ∷ xs) h = absurd (omega arith)
bit_at-put_other (suc i) (suc p) (x ∷ xs) h = bit_at-put_other i p xs (omega arith)

pub both-bits :
    (p : ℕ) (xs ys : List Bool)
    → bit_at p (both xs (map not ys)) ≡ true
    → (bit_at p xs ≡ true) × (bit_at p ys ≡ false)
both-bits p [] ys h = ground arith
both-bits p (x ∷ xs) [] h = ground arith
both-bits zero (true ∷ xs) (false ∷ ys) h = (refl, refl)
both-bits zero (true ∷ xs) (true ∷ ys) h = ground arith
both-bits zero (false ∷ xs) (y ∷ ys) h = ground arith
both-bits (suc p) (x ∷ xs) (y ∷ ys) h = both-bits p xs ys h

pub not-length : (xs : List Bool) → length (map not xs) ≡ length xs
not-length [] = refl
not-length (x ∷ xs) = ap suc (not-length xs)
