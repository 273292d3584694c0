-- ===== src/Requests/Pointed.antt =====
-- What stays of the index of a `RequestManager` whatever is unfulfilled: each of its entries is the place
-- of its item in the list of requests.
use vincenzo.Prelude.{
  ℕ, zero, suc, ◌+◌, ◌-◌, ◌==◌, ◌≤◌, ◌<◌, ◌≡◌, ◌≢◌, ◌⊎◌, inl, inr, refl, sym, ◌∙◌, ap, List, [],
  ◌∷◌, ◌++◌, none, some, length, get_elem?, drop, ltb, Bool-cases, arith,
}
use vincenzo.Prelude.HashMap.{
  lookup, insert, remove, IsUnique, lookup-insert, lookup-remove, insert-IsUnique, remove-IsUnique,
}
use vincenzo.Prelude.Positions.{position, remove_at}
use vincenzo.Requests.Completion.{reindex}
use vincenzo.Requests.Index.{reindex-IsUnique}

module _ {T : Type 0} (dec : Discrete T) where
  pub record Pointed (requests : List T) (index : List (T × ℕ)) : Type 0 where
    pub unique : IsUnique dec index
    pub points : (b : T) (p : ℕ) → lookup dec b index ≡ some p → get_elem? requests p ≡ some b

  pub remove_at_in_range :
      (p : ℕ) (b : T) (xs : List T)
      → get_elem? xs p ≡ some b
      → (rest : List T) × (remove_at p xs ≡ some rest)
  unfolding remove_at
  remove_at_in_range p b [] h = cc
  remove_at_in_range zero b (x ∷ xs) h = (xs, refl)
  remove_at_in_range (suc p) b (x ∷ xs) h =
      let (rest, e) = remove_at_in_range p b xs h in (x ∷ rest, rw e)

  get_elem?-append_old :
      (p : ℕ) (b : T) (xs ys : List T) → get_elem? xs p ≡ some b → get_elem? (xs ++ ys) p ≡ some b
  get_elem?-append_old p b [] ys h = cc
  get_elem?-append_old zero b (x ∷ xs) ys h = h
  get_elem?-append_old (suc p) b (x ∷ xs) ys h = get_elem?-append_old p b xs ys h

  get_elem?-append_new : (b : T) (xs : List T) → get_elem? (xs ++ (b ∷ [])) (length xs) ≡ some b
  get_elem?-append_new b [] = refl
  get_elem?-append_new b (x ∷ xs) = get_elem?-append_new b xs

  get_elem?-drop : (p j : ℕ) (xs : List T) → get_elem? (drop p xs) j ≡ get_elem? xs (p + j)
  get_elem?-drop zero j xs = let e : j ≡ zero + j = omega arith in ap (get_elem? xs) e
  get_elem?-drop (suc p) j [] = refl
  get_elem?-drop (suc p) j (x ∷ xs) =
      let e : suc (p + j) ≡ suc p + j = omega arith in
      get_elem?-drop p j xs ∙ ap (get_elem? (x ∷ xs)) e

  get_elem?-remove_at_before :
      (p q : ℕ) (xs rest : List T)
      → remove_at p xs ≡ some rest
      → q < p
      → get_elem? rest q ≡ get_elem? xs q
  unfolding remove_at
  get_elem?-remove_at_before p q [] rest e h = cc
  get_elem?-remove_at_before zero q (x ∷ xs) rest e h = absurd (omega (arith, h))
  get_elem?-remove_at_before (suc p) q (x ∷ xs) [] e h = ground arith
  get_elem?-remove_at_before (suc p) zero (x ∷ xs) (y ∷ rest) e h = ground arith
  get_elem?-remove_at_before (suc p) (suc q) (x ∷ xs) (y ∷ rest) e h =
      get_elem?-remove_at_before p q xs rest (ground arith) (omega arith)

  get_elem?-remove_at_behind :
      (p q : ℕ) (xs rest : List T)
      → remove_at p xs ≡ some rest
      → p ≤ q
      → get_elem? rest q ≡ get_elem? xs (suc q)
  unfolding remove_at
  get_elem?-remove_at_behind p q [] rest e h = cc
  get_elem?-remove_at_behind zero q (x ∷ xs) rest e h = ground arith
  get_elem?-remove_at_behind (suc p) q (x ∷ xs) [] e h = ground arith
  get_elem?-remove_at_behind (suc p) zero (x ∷ xs) (y ∷ rest) e h = absurd (omega (arith, h))
  get_elem?-remove_at_behind (suc p) (suc q) (x ∷ xs) (y ∷ rest) e h =
      get_elem?-remove_at_behind p q xs rest (ground arith) (omega arith)

  get_elem?-absent :
      (b : T) (j : ℕ) (xs : List T) → position dec b xs ≡ none → get_elem? xs j ≢ some b
  unfolding position
  get_elem?-absent b j [] n h = cc
  get_elem?-absent b zero (x ∷ xs) n h = ground arith
  get_elem?-absent b (suc j) (x ∷ xs) n h = get_elem?-absent b j xs (ground arith) h

  -- what the loop of `fulfill_request` answers: a place that it gave, or else the one from before
  FromLoop : T → ℕ → ℕ → List T → List (T × ℕ) → Type 0
  FromLoop b p q xs m =
      ((j : ℕ) × (get_elem? xs j ≡ some b) × (q ≡ p + j))
      ⊎ ((position dec b xs ≡ none) × (lookup dec b m ≡ some q))

  reindex-FromLoop :
      (b : T) (p q : ℕ) (xs : List T) (m : List (T × ℕ))
      → lookup dec b (reindex dec p xs m) ≡ some q
      → FromLoop b p q xs m
  unfolding reindex position FromLoop
  reindex-FromLoop b p q [] m h = inr (refl, h)
  reindex-FromLoop b p q (x ∷ xs) m h =
      elim (reindex-FromLoop b (suc p) q xs (insert dec x p m) h) [
        | inl (j, g, e) ↦ inl (suc j, g, omega (arith, e))
        | inr (n, l) ↦ elim (dec x b) [
          | yes s ↦ inl (zero, ap some s, ground (arith, l, s, lookup-insert dec x b p m))
          | no d ↦ inr (ground (arith, n, d), ground (arith, l, d, lookup-insert dec x b p m))
        ]
      ]

  pub Pointed-empty : Pointed [] []
  Pointed-empty = record { unique = tt; points = λ b p h. absurd (unfold lookup in cc) }

  module _ {requests : List T} {index : List (T × ℕ)} (a : Pointed requests index) where
    pub Pointed-push :
        (x : T) → Pointed (requests ++ (x ∷ [])) (insert dec x (length requests) index)
    Pointed-push x = record {
      unique = insert-IsUnique dec x (length requests) index a.unique;
      points = λ b p h. elim (dec x b) [
        | yes s ↦
            let at : length requests ≡ p =
              ground (arith, h, s, lookup-insert dec x b (length requests) index) in
            ap (get_elem? (requests ++ (x ∷ []))) (sym at)
            ∙ get_elem?-append_new x requests
            ∙ ap some s
        | no d ↦
            get_elem?-append_old p b requests (x ∷ [])
              (a.points b p (ground (arith, h, d, lookup-insert dec x b (length requests) index)))
      ];
    }

    -- an entry is dropped, and its item stays in the list
    pub Pointed-forget : (x : T) → Pointed requests (remove dec x index)
    Pointed-forget x = record {
      unique = remove-IsUnique dec x index a.unique;
      points = λ b p h. a.points b p (ground (arith, h, lookup-remove dec x b index a.unique));
    }

    -- an entry that the loop does not change, behind the removal of item `r` from place `p`
    kept_place :
        (r b : T) (p q : ℕ) (rest : List T)
        → lookup dec r index ≡ some p
        → remove_at p requests ≡ some rest
        → position dec b (drop p rest) ≡ none
        → lookup dec b (remove dec r index) ≡ some q
        → get_elem? rest q ≡ some b
    kept_place r b p q rest found e n l = elim (Bool-cases (ltb q p)) [
      | inl t ↦ get_elem?-remove_at_before p q requests rest e (ground arith) ∙ old
      | inr f ↦ elim (Bool-cases (q == p)) [
        | inl s ↦
            let same : q ≡ p = ground arith in absurd (other (cc (same, a.points r p found, old)))
        | inr ne ↦
            let later : suc (p + (q - suc p)) ≡ q = ground arith in
            absurd (
              get_elem?-absent b (q - suc p) (drop p rest) n (
                get_elem?-drop p (q - suc p) rest
                ∙ get_elem?-remove_at_behind p (p + (q - suc p)) requests rest e (omega arith)
                ∙ ap (get_elem? requests) later
                ∙ old))
      ]
    ]
      where
        other : r ≢ b
        other s = ground (arith, l, s, lookup-remove dec r b index a.unique)

        old : get_elem? requests q ≡ some b
        old = a.points b q (ground (arith, l, other, lookup-remove dec r b index a.unique))

    pub Pointed-remove :
        (r : T) (p : ℕ) (rest : List T)
        → lookup dec r index ≡ some p
        → remove_at p requests ≡ some rest
        → Pointed rest (reindex dec p (drop p rest) (remove dec r index))
    unfolding FromLoop
    Pointed-remove r p rest found e = record {
      unique =
          reindex-IsUnique dec p (drop p rest) (remove dec r index)
            (remove-IsUnique dec r index a.unique);
      points = λ b q h. elim (reindex-FromLoop b p q (drop p rest) (remove dec r index) h) [
        | inl (j, g, s) ↦ ap (get_elem? rest) s ∙ sym (get_elem?-drop p j rest) ∙ g
        | inr (n, l) ↦ kept_place r b p q rest found e n l
      ];
    }
