-- ===== src/Requests/Invariant.antt =====
-- The invariant of `RequestManager` where no item is unfulfilled while it is in flight: its three views of
-- what is in flight agree.
use mathlib.Core.Logic.{ite}
use vincenzo.Prelude.{
  ℕ, ◌≡◌, ◌≢◌, refl, sym, ◌∙◌, Bool, true, false, List, [], ◌∷◌, ◌++◌, map, none, some, length,
  length-append, drop, arith, if◌then◌else◌,
}
use vincenzo.Prelude.HashMap.{
  lookup, insert, remove, IsUnique, lookup-insert, lookup-remove, insert-IsUnique, remove-IsUnique,
  length-insert_new, length-remove,
}
use vincenzo.Prelude.Positions.{
  position, count, remove_at, IsNodup, position-append_one, append_one-IsNodup,
}
use vincenzo.Requests.Manager.{Heap}
use vincenzo.Requests.Completion.{reindex}
use vincenzo.Requests.Index.{
  length-remove_at, remove_at-IsNodup, position-remove_at, position-remove_at_absent,
  position-remove_at_self, position-drop_absent, drop-IsNodup, count-remove_at, lookup-reindex,
  reindex-IsUnique, length-reindex,
}

module _ {T : Type 0} (dec : Discrete T) where
  abbrev pub items : List (ℕ × T) → List T
  items = map (λ e. e.1)

  -- What std documents of a heap: it holds what was pushed, and `retain` keeps what passes.
  pub record IsHeap (h : Heap T) : Type 0 where
    pub push_holds :
        (e : ℕ × T) (l : List (ℕ × T)) (b : T)
        → count dec b (items (h.push e l)) ≡ count dec b (items (e ∷ l))
    pub retain_keeps :
        (p : T → Bool) (l : List (ℕ × T)) (b : T)
        → count dec b (items (h.retain p l)) ≡ (if p b then count dec b (items l) else 0)

  -- The index is the inverse of the list of requests, no item is in flight twice, and each has its
  -- timeout.
  pub record Aligned (requests : List T) (index : List (T × ℕ)) (timeouts : List (ℕ × T))
      : Type 0 where
    pub inverse : (b : T) → lookup dec b index ≡ position dec b requests
    pub nodup : IsNodup dec requests
    pub unique : IsUnique dec index
    pub sizes : length index ≡ length requests
    pub timed : (b : T) → count dec b (items timeouts) ≡ count dec b requests

  count-append_one : (b x : T) (xs : List T) → count dec b (xs ++ (x ∷ [])) ≡ count dec b (x ∷ xs)
  unfolding count
  count-append_one b x [] = refl
  count-append_one b x (y ∷ xs) = ground (arith, count-append_one b x xs)

  pub Aligned-empty : Aligned [] [] []
  Aligned-empty = record {
    inverse = λ b. unfold lookup position in refl;
    nodup = tt;
    unique = tt;
    sizes = refl;
    timed = λ b. refl;
  }

  module _ {requests : List T} {index : List (T × ℕ)} {timeouts : List (ℕ × T)} {h : Heap T}
      (is_heap : IsHeap h) (a : Aligned requests index timeouts) where
    pub Aligned-push :
        (x : T) (deadline : ℕ)
        → lookup dec x index ≡ none
        → Aligned
            (requests ++ (x ∷ []))
            (insert dec x (length requests) index)
            (h.push (deadline, x) timeouts)
    unfolding count
    Aligned-push x deadline fresh = record {
      inverse = λ b. ground (
        arith,
        lookup-insert dec x b (length requests) index,
        a.inverse b,
        position-append_one dec b x requests absent,
      );
      nodup = append_one-IsNodup dec x requests absent a.nodup;
      unique = insert-IsUnique dec x (length requests) index a.unique;
      sizes = omega (
        arith,
        a.sizes,
        length-insert_new dec x (length requests) index fresh,
        length-append requests (x ∷ []),
      );
      timed = λ b.
          is_heap.push_holds (deadline, x) timeouts b
          ∙ ground (arith, count-append_one b x requests, a.timed b);
    }
      where
        absent : position dec x requests ≡ none
        absent = sym (a.inverse x) ∙ fresh

    pub Aligned-remove :
        (r : T) (p : ℕ) (rest : List T)
        → lookup dec r index ≡ some p
        → remove_at p requests ≡ some rest
        → Aligned rest
            (reindex dec p (drop p rest) (remove dec r index))
            (h.retain (λ t. ite (dec t r) false true) timeouts)
    Aligned-remove r p rest found e = record {
      inverse = λ b.
          rw
            (
              lookup-reindex dec b p (drop p rest) (remove dec r index)
                  (drop-IsNodup dec p rest (remove_at-IsNodup dec p requests rest e a.nodup)),
              lookup-remove dec r b index a.unique,
              a.inverse b,
            )
            (position-remove_at dec r b p requests rest a.nodup place e);
      nodup = remove_at-IsNodup dec p requests rest e a.nodup;
      unique =
          reindex-IsUnique dec p (drop p rest) (remove dec r index)
            (remove-IsUnique dec r index a.unique);
      sizes = omega (
        arith,
        length-reindex dec p (drop p rest) (remove dec r index) still_there,
        length-remove dec r index (λ n. cc (n, found)),
        length-remove_at dec p requests rest e,
        a.sizes,
      );
      timed = λ b. ground (
        arith,
        is_heap.retain_keeps (λ t. ite (dec t r) false true) timeouts b,
        count-remove_at dec r b p requests rest a.nodup place e,
        a.timed b,
      );
    }
      where
        place : position dec r requests ≡ some p
        place = sym (a.inverse r) ∙ found

        still_there :
            (b : T) → position dec b (drop p rest) ≢ none → lookup dec b (remove dec r index) ≢ none
        still_there b here gone = ground (
          arith,
          here,
          lookup-remove dec r b index a.unique,
          a.inverse b,
          position-remove_at_absent dec b p requests rest e,
          position-remove_at_self dec r p requests rest a.nodup place e,
          position-drop_absent dec b p rest,
        )
