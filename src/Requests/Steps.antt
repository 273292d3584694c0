-- ===== src/Requests/Steps.antt =====
-- The results of `fulfill_request` by its branches, and the invariant of `RequestManager` under
-- `add_request` and `fulfill_request`.
use mathlib.Core.Logic.{ite}
use vincenzo.Prelude.{
  ℕ, zero, suc, ◌≡◌, refl, sym, ap, ◌∙◌, Bool, true, false, ◌||◌, List, [], ◌∷◌, none, some, drop,
  Bool-cases, Option-cases, inl, inr, arith,
}
use vincenzo.Outcome.{ok}
use vincenzo.Prelude.HashMap.{lookup, remove}
use vincenzo.Prelude.Positions.{position, remove_at, swap_remove}
use vincenzo.Requests.Manager.{RequestManager, Base, add_request, in_flight, was_fulfilled, is_full}
use vincenzo.Requests.Completion.{fulfill_request, note_response, leave, fulfilled_insert, reindex}
use vincenzo.Requests.Index.{remove_at_total}
use vincenzo.Requests.Invariant.{IsHeap, Aligned, Aligned-push, Aligned-remove}

module _ {T F32 F64 : Type 0} (base : Base T F32 F64) where
  open base use {dec, heap}

  abbrev pub IsValid : RequestManager T F32 → Type 0
  IsValid m = Aligned dec m.requests m.index m.timeouts

  -- what the response time leaves alone
  pub record SameFlight (m n : RequestManager T F32) : Type 0 where
    pub requests : n.requests ≡ m.requests
    pub index : n.index ≡ m.index
    pub timeouts : n.timeouts ≡ m.timeouts
    pub queue : n.queue ≡ m.queue
    pub fulfilled : n.fulfilled_index ≡ m.fulfilled_index
    pub limit : n.limit ≡ m.limit

  pub note_response-SameFlight :
      (now : ℕ) (req : T) (m : RequestManager T F32) → SameFlight m (note_response base now req m)
  unfolding note_response
  note_response-SameFlight now req m = ground arith

  pub swap_remove_total :
      (r : T) (p : ℕ) (xs : List T)
      → position dec r xs ≡ some p
      → (rest : List T) × (swap_remove p xs ≡ some rest)
  unfolding position swap_remove
  swap_remove_total r p [] h = cc
  swap_remove_total r zero (x ∷ []) h = ([], refl)
  swap_remove_total r zero (x ∷ y ∷ xs) h = (_, refl)
  swap_remove_total r (suc p) (x ∷ xs) h =
      let (rest, e) = swap_remove_total r p xs (ground arith) in (x ∷ rest, rw e)

  pub fresh_index :
      (block : T) (m : RequestManager T F32)
      → in_flight base block m || was_fulfilled base block m ≡ false
      → lookup dec block m.index ≡ none
  unfolding in_flight was_fulfilled
  fresh_index block m h = ground arith

  abbrev pub marked : T → RequestManager T F32 → RequestManager T F32
  marked req m = record m { fulfilled_index = fulfilled_insert base req m.fulfilled_index }

  -- the manager without the item that was in flight at `pos`
  abbrev pub landed : ℕ → T → ℕ → List T → RequestManager T F32 → RequestManager T F32
  landed now req pos rest m =
      let t = note_response base now req (record m { index = remove dec req m.index }) in
      record t {
        requests = rest;
        timeouts = heap.retain (λ b. ite (dec b req) false true) t.timeouts;
        index = reindex dec pos (drop pos rest) t.index;
      }

  pub leave-eq :
      (req : T) (pos : ℕ) (rest : List T) (m : RequestManager T F32)
      → remove_at pos m.requests ≡ some rest
      → position dec req m.queue ≡ none
      → leave base req pos m
        ≡ ok (
          record m {
            requests = rest;
            timeouts = heap.retain (λ b. ite (dec b req) false true) m.timeouts;
            index = reindex dec pos (drop pos rest) m.index;
          },
          true,
        )
  unfolding leave
  leave-eq req pos rest m e free = rw (e, free, leave)

  module _ (now : ℕ) (req : T) where
    pub fulfill_queued :
        (pos : ℕ) (rest : List T) (m : RequestManager T F32)
        → position dec req m.queue ≡ some pos
        → swap_remove pos m.queue ≡ some rest
        → fulfill_request base now req m ≡ ok (record (marked req m) { queue = rest }, true)
    unfolding fulfill_request
    fulfill_queued pos rest m queued e = rw (queued, e, fulfill_request)

    pub fulfill_unknown :
        (m : RequestManager T F32)
        → position dec req m.queue ≡ none
        → lookup dec req m.index ≡ none
        → fulfill_request base now req m ≡ ok (marked req m, false)
    unfolding fulfill_request
    fulfill_unknown m free gone = rw (free, gone, fulfill_request)

    pub fulfill_leaves :
        (pos : ℕ) (m : RequestManager T F32)
        → position dec req m.queue ≡ none
        → lookup dec req m.index ≡ some pos
        → fulfill_request base now req m
          ≡ leave base req pos (
              note_response base now req (record (marked req m) { index = remove dec req m.index }))
    unfolding fulfill_request
    fulfill_leaves pos m free found = rw (free, found, fulfill_request)

    pub fulfill_in_flight :
        (pos : ℕ) (rest : List T) (m : RequestManager T F32)
        → position dec req m.queue ≡ none
        → lookup dec req m.index ≡ some pos
        → remove_at pos m.requests ≡ some rest
        → fulfill_request base now req m ≡ ok (landed now req pos rest (marked req m), true)
    fulfill_in_flight pos rest m free found e =
        let s =
          note_response-SameFlight now req
            (record (marked req m) { index = remove dec req m.index }) in
        fulfill_leaves pos m free found
        ∙ leave-eq req pos rest _ (ap (remove_at pos) s.requests ∙ e)
            (ap (position dec req) s.queue ∙ free)

  module _ (is_heap : IsHeap dec heap) where
    pub add_request-IsValid :
        (now start : ℕ) (block : T) (m : RequestManager T F32)
        → IsValid m
        → IsValid (add_request base now start block m).0
    unfolding add_request
    add_request-IsValid now start block m v =
        elim (Bool-cases (in_flight base block m || was_fulfilled base block m)) [
          | inl e ↦ rw e v
          | inr fresh ↦ rw fresh (elim (Bool-cases (is_full base m)) [
            | inl full ↦ rw full v
            | inr room ↦ rw room (Aligned-push dec is_heap v block _ (fresh_index block m fresh))
          ])
        ]

    pub landed-IsValid :
        (now : ℕ) (req : T) (pos : ℕ) (rest : List T) (m : RequestManager T F32)
        → IsValid m
        → lookup dec req m.index ≡ some pos
        → remove_at pos m.requests ≡ some rest
        → IsValid (landed now req pos rest m)
    landed-IsValid now req pos rest m v found e =
        let s = note_response-SameFlight now req (record m { index = remove dec req m.index }) in
        rw (s.index, s.timeouts) (Aligned-remove dec is_heap v req pos rest found e)

    pub fulfill_request-IsValid :
        (now : ℕ) (req : T) (m : RequestManager T F32)
        → IsValid m
        → (n : RequestManager T F32) × (done : Bool) × (fulfill_request base now req m
            ≡ ok (n, done))
          × IsValid n
    fulfill_request-IsValid now req m v = elim (Option-cases (position dec req m.queue)) [
      | inr (pos, queued) ↦
          let (rest, e) = swap_remove_total req pos m.queue queued in
          (
            record (marked req m) { queue = rest },
            true,
            fulfill_queued now req pos rest m queued e,
            v,
          )
      | inl free ↦ elim (Option-cases (lookup dec req m.index)) [
        | inl gone ↦ (marked req m, false, fulfill_unknown now req m free gone, v)
        | inr (pos, found) ↦
            let (rest, e) = remove_at_total dec req pos m.requests (sym (v.inverse req) ∙ found) in
            (
              landed now req pos rest (marked req m),
              true,
              fulfill_in_flight now req pos rest m free found e,
              landed-IsValid now req pos rest (marked req m) v found e,
            )
      ]
    ]
