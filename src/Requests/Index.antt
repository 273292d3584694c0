-- ===== src/Requests/Index.antt =====
-- The index as the inverse of the list of requests: what `remove` and the loop behind it do to it.
use mathlib.Core.Logic.{ite}
use vincenzo.Prelude.{
  ℕ, zero, suc, ◌+◌, ◌≡◌, ◌≢◌, refl, ◌∙◌, List, [], ◌∷◌, Option, none, some, length, drop, arith,
}
use vincenzo.Prelude.HashMap.{
  lookup, insert, IsUnique, lookup-insert, insert-IsUnique, length-insert_old,
}
use vincenzo.Prelude.Positions.{position, count, remove_at, IsNodup}
use vincenzo.Requests.Completion.{reindex}

-- a position in what follows the first `p` items, or else the answer `d`
abbrev pub after : ℕ → Option ℕ → Option ℕ → Option ℕ
after p none d = d
after p (some j) d = some (p + j)

module _ {T : Type 0} (dec : Discrete T) where
  pub remove_at_total :
      (r : T) (p : ℕ) (xs : List T)
      → position dec r xs ≡ some p
      → (rest : List T) × (remove_at p xs ≡ some rest)
  unfolding position remove_at
  remove_at_total r p [] h = cc
  remove_at_total r zero (x ∷ xs) h = (xs, refl)
  remove_at_total r (suc p) (x ∷ xs) h =
      let (rest, e) = remove_at_total r p xs (ground arith) in (x ∷ rest, rw e)

  pub length-remove_at :
      (p : ℕ) (xs rest : List T) → remove_at p xs ≡ some rest → length rest + 1 ≡ length xs
  unfolding remove_at
  length-remove_at p [] rest h = cc
  length-remove_at zero (x ∷ xs) rest h = ground arith
  length-remove_at (suc p) (x ∷ xs) [] h = ground arith
  length-remove_at (suc p) (x ∷ xs) (y ∷ rest) h = ground (arith, length-remove_at p xs rest)

  -- an item that is not there before the removal is not there after it
  pub position-remove_at_absent :
      (b : T) (p : ℕ) (xs rest : List T)
      → remove_at p xs ≡ some rest
      → position dec b xs ≡ none
      → (position dec b rest ≡ none) × (position dec b (drop p rest) ≡ none)
  unfolding position remove_at
  position-remove_at_absent b p [] rest h n = cc
  position-remove_at_absent b zero (x ∷ xs) rest h n = ground arith
  position-remove_at_absent b (suc p) (x ∷ xs) [] h n = ground arith
  position-remove_at_absent b (suc p) (x ∷ xs) (y ∷ rest) h n =
      ground (arith, position-remove_at_absent b p xs rest)

  pub remove_at-IsNodup :
      (p : ℕ) (xs rest : List T) → remove_at p xs ≡ some rest → IsNodup dec xs → IsNodup dec rest
  unfolding remove_at
  remove_at-IsNodup p [] rest h u = cc
  remove_at-IsNodup zero (x ∷ xs) rest h u = ground arith
  remove_at-IsNodup (suc p) (x ∷ xs) [] h u = tt
  remove_at-IsNodup (suc p) (x ∷ xs) (y ∷ rest) h u =
      ground (arith, remove_at-IsNodup p xs rest, position-remove_at_absent x p xs rest)

  pub position-remove_at_self :
      (r : T) (p : ℕ) (xs rest : List T)
      → IsNodup dec xs
      → position dec r xs ≡ some p
      → remove_at p xs ≡ some rest
      → position dec r rest ≡ none
  unfolding position remove_at
  position-remove_at_self r p [] rest u h e = cc
  position-remove_at_self r zero (x ∷ xs) rest u h e = ground arith
  position-remove_at_self r (suc p) (x ∷ xs) [] u h e = refl
  position-remove_at_self r (suc p) (x ∷ xs) (y ∷ rest) u h e =
      ground (arith, position-remove_at_self r p xs rest)

  pub position-drop_absent :
      (b : T) (p : ℕ) (xs : List T) → position dec b xs ≡ none → position dec b (drop p xs) ≡ none
  unfolding position
  position-drop_absent b zero xs h = h
  position-drop_absent b (suc p) [] h = refl
  position-drop_absent b (suc p) (x ∷ xs) h = position-drop_absent b p xs (ground arith)

  pub drop-IsNodup : (p : ℕ) (xs : List T) → IsNodup dec xs → IsNodup dec (drop p xs)
  drop-IsNodup zero xs u = u
  drop-IsNodup (suc p) [] u = tt
  drop-IsNodup (suc p) (x ∷ xs) u = drop-IsNodup p xs u.1

  -- Behind the removed item every position falls by one, before it none changes.
  pub position-remove_at :
      (r b : T) (p : ℕ) (xs rest : List T)
      → IsNodup dec xs
      → position dec r xs ≡ some p
      → remove_at p xs ≡ some rest
      → after p (position dec b (drop p rest)) (ite (dec r b) none (position dec b xs))
        ≡ position dec b rest
  unfolding position remove_at
  position-remove_at r b p [] rest u h e = cc
  position-remove_at r b zero (x ∷ xs) rest u h e = ground arith
  position-remove_at r b (suc p) (x ∷ xs) [] u h e =
      ground (arith, length-remove_at p xs [], position-remove_at r b p xs [])
  position-remove_at r b (suc p) (x ∷ xs) (y ∷ rest) u h e =
      ground (arith, position-remove_at r b p xs rest, position-remove_at_absent x p xs rest)

  pub count_of_none : (b : T) (xs : List T) → position dec b xs ≡ none → count dec b xs ≡ 0
  unfolding position count
  count_of_none b [] h = refl
  count_of_none b (x ∷ xs) h = ground (arith, count_of_none b xs)

  pub count-remove_at :
      (r b : T) (p : ℕ) (xs rest : List T)
      → IsNodup dec xs
      → position dec r xs ≡ some p
      → remove_at p xs ≡ some rest
      → count dec b rest ≡ ite (dec b r) 0 (count dec b xs)
  unfolding position count remove_at
  count-remove_at r b p [] rest u h e = cc
  count-remove_at r b zero (x ∷ xs) rest u h e = ground (arith, count_of_none b xs)
  count-remove_at r b (suc p) (x ∷ xs) [] u h e =
      ground (arith, count-remove_at r b p xs [], count_of_none b xs)
  count-remove_at r b (suc p) (x ∷ xs) (y ∷ rest) u h e =
      ground (arith, count-remove_at r b p xs rest, count_of_none b xs)

  pub lookup-reindex :
      (b : T) (p : ℕ) (xs : List T) (m : List (T × ℕ))
      → IsNodup dec xs
      → lookup dec b (reindex dec p xs m) ≡ after p (position dec b xs) (lookup dec b m)
  unfolding position reindex
  lookup-reindex b p [] m u = refl
  lookup-reindex b p (x ∷ xs) m u =
      ground (arith, lookup-reindex b (suc p) xs (insert dec x p m), lookup-insert dec x b p m)

  pub reindex-IsUnique :
      (p : ℕ) (xs : List T) (m : List (T × ℕ)) → IsUnique dec m → IsUnique dec (reindex dec p xs m)
  unfolding reindex
  reindex-IsUnique p [] m u = u
  reindex-IsUnique p (x ∷ xs) m u =
      reindex-IsUnique (suc p) xs (insert dec x p m) (insert-IsUnique dec x p m u)

  -- When every item is in the map already, the loop only overwrites.
  pub length-reindex :
      (p : ℕ) (xs : List T) (m : List (T × ℕ))
      → ((b : T) → position dec b xs ≢ none → lookup dec b m ≢ none)
      → length (reindex dec p xs m) ≡ length m
  unfolding position reindex
  length-reindex p [] m h = refl
  length-reindex p (x ∷ xs) m h =
      length-reindex (suc p) xs (insert dec x p m)
        (λ b hb. ground (arith, h b, lookup-insert dec x b p m))
      ∙ length-insert_old dec x p m (h x (ground arith))
