-- ===== src/Requests/Reach.antt =====
-- The invariants of a `RequestManager` along the calls that are made on a new one.
use vincenzo.Prelude.{
  ℕ, ◌≡◌, refl, subst, Bool, true, false, ◌||◌, List, [], ◌∷◌, none, some, Bool-cases, Option-cases,
  inl, inr, arith,
}
use vincenzo.Outcome.{ok}
use vincenzo.Prelude.HashMap.{lookup, remove}
use vincenzo.Prelude.Positions.{position, remove_at}
use vincenzo.Requests.Manager.{
  RequestManager, Base, new, add_request, set_limit, unfulfill, in_flight, was_fulfilled, is_full,
}
use vincenzo.Requests.Completion.{
  fulfill_request, drain, clear, drain_qnt_queue, get_timeout_blocks_and_update,
}
use vincenzo.Requests.Invariant.{IsHeap, Aligned-empty}
use vincenzo.Requests.Pointed.{
  Pointed, Pointed-empty, Pointed-push, Pointed-forget, Pointed-remove, remove_at_in_range,
}
use vincenzo.Requests.Steps.{
  IsValid, add_request-IsValid, fulfill_request-IsValid, marked, landed, note_response-SameFlight,
  fulfill_queued, fulfill_unknown, fulfill_in_flight, swap_remove_total,
}
use vincenzo.Requests.Runs.{
  Step, add, fulfill, undo, give_back, reset, limit_to, take_queued, time_out, here, next, AnyItem,
  NotInFlight, Reach, KeptReach,
}

module _ {T F32 F64 : Type 0} (base : Base T F32 F64) where
  open base use {dec, heap}

  abbrev pub IsPointed : RequestManager T F32 → Type 0
  IsPointed m = Pointed dec m.requests m.index

  add_request-IsPointed :
      (now start : ℕ) (block : T) (m : RequestManager T F32)
      → IsPointed m
      → IsPointed (add_request base now start block m).0
  unfolding add_request
  add_request-IsPointed now start block m v =
      elim (Bool-cases (in_flight base block m || was_fulfilled base block m)) [
        | inl e ↦ rw e v
        | inr fresh ↦ rw fresh (elim (Bool-cases (is_full base m)) [
          | inl full ↦ rw full v
          | inr room ↦ rw room (Pointed-push dec v block)
        ])
      ]

  landed-IsPointed :
      (now : ℕ) (req : T) (pos : ℕ) (rest : List T) (m : RequestManager T F32)
      → IsPointed m
      → lookup dec req m.index ≡ some pos
      → remove_at pos m.requests ≡ some rest
      → IsPointed (landed base now req pos rest m)
  landed-IsPointed now req pos rest m v found e =
      let s = note_response-SameFlight base now req (record m { index = remove dec req m.index }) in
      rw s.index (Pointed-remove dec v req pos rest found e)

  fulfill_request-IsPointed :
      (now : ℕ) (req : T) (m : RequestManager T F32)
      → IsPointed m
      → (n : RequestManager T F32) × (done : Bool) × (fulfill_request base now req m ≡ ok (n, done))
        × IsPointed n
  fulfill_request-IsPointed now req m v = elim (Option-cases (position dec req m.queue)) [
    | inr (pos, queued) ↦
        let (rest, e) = swap_remove_total base req pos m.queue queued in
        (
          record (marked base req m) { queue = rest },
          true,
          fulfill_queued base now req pos rest m queued e,
          v,
        )
    | inl free ↦ elim (Option-cases (lookup dec req m.index)) [
      | inl gone ↦ (marked base req m, false, fulfill_unknown base now req m free gone, v)
      | inr (pos, found) ↦
          let (rest, e) = remove_at_in_range dec pos req m.requests (v.points req pos found) in
          (
            landed base now req pos rest (marked base req m),
            true,
            fulfill_in_flight base now req pos rest m free found e,
            landed-IsPointed now req pos rest (marked base req m) v found e,
          )
    ]
  ]

  -- a result that is known to hold, of the call that returned
  same_result :
      (P : RequestManager T F32 → Type 0) (now : ℕ) (b : T) (m : RequestManager T F32)
      {n : RequestManager T F32} {done : Bool}
      → ((k : RequestManager T F32) × (r : Bool) × (fulfill_request base now b m ≡ ok (k, r)) × P k)
      → fulfill_request base now b m ≡ ok (n, done)
      → P n
  same_result P now b m {n = n} (k, r, e, v) f = let p : k ≡ n = cc in subst P p v

  Step-IsPointed :
      {m n : RequestManager T F32} → Step base (AnyItem base) Unit m n → IsPointed m → IsPointed n
  Step-IsPointed (add now at b m) v = add_request-IsPointed now at b m v
  Step-IsPointed (fulfill now b m n done e) v =
      same_result IsPointed now b m (fulfill_request-IsPointed now b m v) e
  Step-IsPointed (undo b m h) v = unfold unfulfill in Pointed-forget dec v b
  Step-IsPointed (give_back m) v = unfold drain in Pointed-empty dec
  Step-IsPointed (reset m h) v = unfold clear in Pointed-empty dec
  Step-IsPointed (limit_to n m) v = unfold set_limit in v
  Step-IsPointed (take_queued n m) v = unfold drain_qnt_queue in v
  Step-IsPointed (time_out now m) v = unfold get_timeout_blocks_and_update in v

  -- From a new manager on, whatever the calls and the times, an item that is unfulfilled while it is
  -- in flight included: the index has each item once, and what it has for an item is a position of
  -- that item in the list of requests.
  pub Reach-IsPointed : {m : RequestManager T F32} → Reach base m → IsPointed m
  Reach-IsPointed here = unfold new in Pointed-empty dec
  Reach-IsPointed (next r s) = Step-IsPointed s (Reach-IsPointed r)

  -- On every manager that any calls make of a new one, an item that is unfulfilled while it is in
  -- flight included, `fulfill_request` ends with a result: its removals are never out of range.
  pub fulfill_request_total :
      {m : RequestManager T F32} (now : ℕ) (req : T)
      → Reach base m
      → (n : RequestManager T F32) × (done : Bool) × (fulfill_request base now req m ≡ ok (n, done))
  fulfill_request_total {m} now req r =
      let (n, done, e, _) = fulfill_request-IsPointed now req m (Reach-IsPointed r) in (n, done, e)

  remove_absent : (b : T) (l : List (T × ℕ)) → lookup dec b l ≡ none → remove dec b l ≡ l
  unfolding lookup remove
  remove_absent b [] h = refl
  remove_absent b ((i, w) ∷ l) h = ground (arith, remove_absent b l)

  module _ (is_heap : IsHeap dec heap) where
    Step-IsValid :
        {m n : RequestManager T F32}
        → Step base (NotInFlight base) Unit m n
        → IsValid base m
        → IsValid base n
    Step-IsValid (add now at b m) v = add_request-IsValid base is_heap now at b m v
    Step-IsValid (fulfill now b m n done e) v =
        same_result (IsValid base) now b m (fulfill_request-IsValid base is_heap now b m v) e
    Step-IsValid (undo b m h) v =
        unfold unfulfill in rw (remove_absent b m.index (unfold in_flight in ground arith)) v
    Step-IsValid (give_back m) v = unfold drain in Aligned-empty dec
    Step-IsValid (reset m h) v = unfold clear in Aligned-empty dec
    Step-IsValid (limit_to n m) v = unfold set_limit in v
    Step-IsValid (take_queued n m) v = unfold drain_qnt_queue in v
    Step-IsValid (time_out now m) v = unfold get_timeout_blocks_and_update in v

    -- With a heap as std documents it: from a new manager on, whatever the calls and the times, as
    -- long as `unfulfill` is never called on an item that is in flight, the index is the inverse of
    -- the list of requests, no item is in flight twice, and each has its one timeout.
    pub KeptReach-IsValid : {m : RequestManager T F32} → KeptReach base m → IsValid base m
    KeptReach-IsValid here = unfold new in Aligned-empty dec
    KeptReach-IsValid (next r s) = Step-IsValid s (KeptReach-IsValid r)
