-- ===== src/Requests/Completion.antt =====
-- `RequestManager` of crates/vcz-lib/src/peer/request_manager.rs, continued: completed requests,
-- timeouts, and what leaves the manager.
use vincenzo.Prelude.{
  ℕ, suc, ◌-◌, min, Bool, true, false, List, [], ◌∷◌, ◌++◌, Option, none, some, length, take, drop,
  ltb, leb, if◌then◌else◌,
}
use mathlib.Core.Logic.{ite}
use vincenzo.Outcome.{Outcome, ok, panic}
use vincenzo.Prelude.HashMap.{lookup, insert, remove}
use vincenzo.Prelude.Positions.{position, contains, remove_at, swap_remove}
use vincenzo.Requests.Manager.{
  RequestManager, Base, new, update_response_time, get_available_request_len,
}

module _ {T : Type 0} (dec : Discrete T) where
  -- the loop that puts the items from position `pos` on back into the index
  unfoldable pub reindex : ℕ → List T → List (T × ℕ) → List (T × ℕ)
  reindex pos [] index = index
  reindex pos (x ∷ xs) index = reindex (suc pos) xs (insert dec x pos index)

module _ {T F32 F64 : Type 0} (base : Base T F32 F64) where
  open base use {dec, heap}

  -- a set: an item that is there already stays once
  unfoldable pub fulfilled_insert : T → List T → List T
  fulfilled_insert block l = if contains dec block l then l else block ∷ l

  -- the response time is taken if the start of the request is known
  unfoldable pub note_response : ℕ → T → RequestManager T F32 → RequestManager T F32
  unfolding update_response_time
  note_response now req m = elim (lookup dec req m.req_start_times) [
    | none ↦ m
    | some start ↦
        update_response_time base (now - start)
          (record m { req_start_times = remove dec req m.req_start_times })
  ]

  -- the last `if`, which drops the item from the queue too, its later items moving up
  unfoldable pub drop_queued : T → List T → Outcome (List T)
  drop_queued req queue = elim (position dec req queue) [
    | none ↦ ok queue
    | some i ↦ elim (remove_at i queue) [ none ↦ panic | some rest ↦ ok rest ]
  ]

  -- the item leaves position `pos`
  unfoldable pub leave : T → ℕ → RequestManager T F32 → Outcome (RequestManager T F32 × Bool)
  unfolding reindex drop_queued
  leave req pos m = elim (remove_at pos m.requests) [
    | none ↦ panic
    | some rest ↦ elim (drop_queued req m.queue) [
      | ok queue ↦ ok (
        record m {
          requests = rest;
          timeouts = heap.retain (λ t. ite (dec t req) false true) m.timeouts;
          index = reindex dec pos (drop pos rest) m.index;
          queue = queue;
        },
        true,
      )
      | _ ↦ panic
    ]
  ]

  -- `now` is the time at which the item came in. The item counts as fulfilled whether or not it was
  -- requested. `remove` and `swap_remove` of a position out of range would panic.
  unfoldable pub fulfill_request :
      ℕ → T → RequestManager T F32 → Outcome (RequestManager T F32 × Bool)
  unfolding fulfilled_insert note_response leave
  fulfill_request now req m0 =
      let m : RequestManager T F32 = record m0 {
        fulfilled_index = fulfilled_insert req m0.fulfilled_index;
      } in
      elim (position dec req m.queue) [
        | some pos ↦ elim (swap_remove pos m.queue) [
          | none ↦ panic
          | some rest ↦ ok (record m { queue = rest }, true)
        ]
        | none ↦ elim (lookup dec req m.index) [
          | none ↦ ok (m, false)
          | some pos ↦
              leave req pos (note_response now req (record m { index = remove dec req m.index }))
        ]
      ]

  -- `..Default::default()` behind the fields that are kept
  unfoldable pub drain : RequestManager T F32 → RequestManager T F32 × List T
  unfolding new
  drain m = (
    record (new base) {
      limit = m.limit;
      timeout_mult = m.timeout_mult;
      fulfilled_index = m.fulfilled_index;
    },
    m.requests ++ m.queue,
  )

  unfoldable pub clear : RequestManager T F32 → RequestManager T F32
  unfolding new
  clear m = record (new base) { limit = m.limit; timeout_mult = m.timeout_mult }

  -- The earliest deadline.
  unfoldable pub get_last_timestamp : RequestManager T F32 → Option ℕ
  get_last_timestamp m = elim (heap.peek m.timeouts) [ none ↦ none | some e ↦ some e.0 ]

  -- the loop up to the first deadline that is still ahead
  timed_out : ℕ → List (ℕ × T) → List T
  timed_out now [] = []
  timed_out now ((deadline, block) ∷ l) =
      let rest = timed_out now l in if leb deadline now then block ∷ rest else []

  -- The new deadline is assigned to a copy of the entry, so that the heap keeps the old one.
  unfoldable pub get_timeout_blocks_and_update :
      ℕ → RequestManager T F32 → RequestManager T F32 × List T
  unfolding timed_out get_available_request_len
  get_timeout_blocks_and_update now m =
      (m, timed_out now (take (get_available_request_len base m) m.timeouts))

  unfoldable pub drain_qnt_queue : ℕ → RequestManager T F32 → RequestManager T F32 × List T
  drain_qnt_queue qnt m =
      let n = min qnt (length m.queue) in (record m { queue = drop n m.queue }, take n m.queue)

  unfoldable pub clone_requests : RequestManager T F32 → List T
  clone_requests m = m.requests ++ m.queue

  unfoldable pub clone_qnt : ℕ → RequestManager T F32 → List T
  clone_qnt qnt m =
      let result = take qnt m.requests in
      if ltb (length result) qnt then result ++ take (qnt - length result) m.queue else result
