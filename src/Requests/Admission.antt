-- ===== src/Requests/Admission.antt =====
-- What `add_request` does on each of its branches.
use mathlib.Core.Logic.{ite}
use vincenzo.Prelude.{
  ℕ, ◌+◌, ◌≤◌, ◌≡◌, ◌≢◌, ◌⊎◌, true, false, ◌||◌, List, [], ◌∷◌, ◌++◌, is_some, length, arith,
}
use vincenzo.Prelude.HashMap.{lookup, insert, lookup-insert, length-insert_new}
use vincenzo.Requests.Manager.{
  RequestManager, Base, add_request, in_flight, was_fulfilled, is_full, len,
}

module _ {T F32 F64 : Type 0} (base : Base T F32 F64) where
  open base use {dec}

  in_flight_insert :
      (block c : T) (i : ℕ) (m : List (T × ℕ))
      → is_some (lookup dec c (insert dec block i m))
        ≡ ite (dec block c) true (is_some (lookup dec c m))
  in_flight_insert block c i m = ground (arith, lookup-insert dec block c i m)

  -- An item that is accepted is in flight from then on, takes one of the places within the limit,
  -- and no other item changes.
  pub add_request_accepts :
      (now at : ℕ) (block : T) (m : RequestManager T F32)
      → (add_request base now at block m).1 ≡ true
      → (in_flight base block (add_request base now at block m).0 ≡ true)
        × (len base (add_request base now at block m).0 ≡ len base m + 1)
        × (len base (add_request base now at block m).0 ≤ m.limit)
        × ((c : T)
            → c ≢ block
            → in_flight base c (add_request base now at block m).0 ≡ in_flight base c m)
  unfolding add_request len
  add_request_accepts now at block m h = (
    ground (arith, in_flight_insert block block (length m.requests) m.index),
    ground (arith, length-insert_new dec block (length m.requests) m.index),
    ground (arith, length-insert_new dec block (length m.requests) m.index),
    λ c n. ground (arith, n, in_flight_insert block c (length m.requests) m.index),
  )

  -- An item that is refused is in flight, fulfilled, or put at the end of the queue.
  add_request_refuses :
      (now at : ℕ) (block : T) (m : RequestManager T F32)
      → (add_request base now at block m).1 ≡ false
      → ((in_flight base block m || was_fulfilled base block m ≡ true)
          × ((add_request base now at block m).0 ≡ m))
        ⊎ ((is_full base m ≡ true)
            × ((add_request base now at block m).0 ≡ record m { queue = m.queue ++ (block ∷ []) }))
  unfolding add_request
  add_request_refuses now at block m h = ground arith
