-- ===== src/Requests/Lifecycle.antt =====
-- The life of a request: counted while in flight, and gone when it is fulfilled.
use vincenzo.Prelude.{
  ℕ, ◌+◌, ◌≡◌, ◌≢◌, refl, sym, ap, ◌∙◌, true, false, List, none, some, is_some, Option-cases, inl,
  inr, arith,
}
use vincenzo.Outcome.{ok}
use vincenzo.Prelude.HashMap.{lookup}
use vincenzo.Prelude.Positions.{position, remove_at, length-swap_remove}
use vincenzo.Requests.Manager.{RequestManager, Base, in_flight, was_fulfilled, len, queue_len}
use vincenzo.Requests.Completion.{fulfill_request}
use vincenzo.Requests.Index.{
  remove_at_total, length-remove_at, position-remove_at, position-remove_at_self,
  position-remove_at_absent,
}
use vincenzo.Requests.Invariant.{IsHeap}
use vincenzo.Requests.Steps.{
  IsValid, marked, landed, landed-IsValid, fulfill_in_flight, fulfill_queued, swap_remove_total,
}
use vincenzo.Requests.Fulfilled.{contains-insert, fulfilled_after}
use vincenzo.Requests.Reach.{KeptReach-IsValid}
use vincenzo.Requests.Runs.{KeptReach}

module _ {T F32 F64 : Type 0} (base : Base T F32 F64) where
  open base use {dec, heap}

  landed_frees :
      (now : ℕ) (req : T) (pos : ℕ) (rest : List T) (m : RequestManager T F32)
      → IsHeap dec heap
      → IsValid base m
      → lookup dec req m.index ≡ some pos
      → remove_at pos m.requests ≡ some rest
      → (in_flight base req (landed base now req pos rest m) ≡ false)
        × (len base (landed base now req pos rest m) + 1 ≡ len base m)
        × ((c : T)
            → c ≢ req
            → in_flight base c (landed base now req pos rest m) ≡ in_flight base c m)
  unfolding in_flight len
  landed_frees now req pos rest m hh v found e = (
    ap is_some
        (w.inverse req ∙ position-remove_at_self dec req pos m.requests rest v.nodup place e),
    omega (arith, w.sizes, v.sizes, length-remove_at dec pos m.requests rest e),
    λ c n.
        rw (w.inverse c, v.inverse c)
          (ground (
            arith,
            n,
            position-remove_at dec req c pos m.requests rest v.nodup place e,
            position-remove_at_absent dec c pos m.requests rest e,
          )),
  )
    where
      w : IsValid base (landed base now req pos rest m)
      w = landed-IsValid base hh now req pos rest m v found e

      place : position dec req m.requests ≡ some pos
      place = sym (v.inverse req) ∙ found

  module _ (is_heap : IsHeap dec heap) {m : RequestManager T F32} (reached : KeptReach base m) where
    -- With a heap as std documents it, on every manager that calls make of a new one, as long as
    -- `unfulfill` is never called on an item that is in flight: an item that is in flight and not
    -- queued is so no more when it is fulfilled, the call returns true, its place is free again,
    -- and no other item changes.
    pub fulfill_frees_place :
        (now : ℕ) (req : T)
        → position dec req m.queue ≡ none
        → in_flight base req m ≡ true
        → (n : RequestManager T F32) × (fulfill_request base now req m ≡ ok (n, true))
          × (in_flight base req n ≡ false)
          × (was_fulfilled base req n ≡ true)
          × (len base n + 1 ≡ len base m)
          × ((c : T) → c ≢ req → in_flight base c n ≡ in_flight base c m)
    unfolding in_flight was_fulfilled len
    fulfill_frees_place now req free flying = elim (Option-cases (lookup dec req m.index)) [
      | inl gone ↦ cc
      | inr (pos, found) ↦
          let v = KeptReach-IsValid base is_heap reached in
          let (rest, e) = remove_at_total dec req pos m.requests (sym (v.inverse req) ∙ found) in
          let (gone, places, others) =
            landed_frees now req pos rest (marked base req m) is_heap v found e in
          (
            landed base now req pos rest (marked base req m),
            fulfill_in_flight base now req pos rest m free found e,
            gone,
            fulfilled_after base now req m _ true
                (fulfill_in_flight base now req pos rest m free found e),
            places,
            others,
          )
    ]

    -- An item that is in flight and queued as well leaves only the queue when it is fulfilled: the
    -- call returns true, and the item keeps its place in flight.
    fulfill_queued_keeps_place :
        (now : ℕ) (req : T)
        → is_some (position dec req m.queue) ≡ true
        → in_flight base req m ≡ true
        → (n : RequestManager T F32) × (fulfill_request base now req m ≡ ok (n, true))
          × (in_flight base req n ≡ true)
          × (was_fulfilled base req n ≡ true)
          × (len base n ≡ len base m)
          × (queue_len base n + 1 ≡ queue_len base m)
    unfolding in_flight was_fulfilled len queue_len
    fulfill_queued_keeps_place now req queued flying =
        elim (Option-cases (position dec req m.queue)) [
          | inl gone ↦ cc
          | inr (pos, found) ↦
              let (rest, e) = swap_remove_total base req pos m.queue found in
              (
                record (marked base req m) { queue = rest },
                fulfill_queued base now req pos rest m found e,
                flying,
                contains-insert base req m.fulfilled_index,
                refl,
                length-swap_remove pos m.queue rest e,
              )
        ]
