-- ===== src/Requests/Fulfilled.antt =====
-- The set of fulfilled items of a `RequestManager`, and what the calls do to it.
use vincenzo.Prelude.{
  ℕ, ◌≡◌, ◌≢◌, refl, ap, ◌∙◌, Bool, true, false, List, [], ◌∷◌, none, some, Option-cases, inl, inr,
  arith,
}
use vincenzo.Outcome.{ok, panic}
use vincenzo.Prelude.HashMap.{lookup, remove}
use vincenzo.Prelude.Positions.{position, contains, remove_at}
use vincenzo.Requests.Manager.{
  RequestManager, Base, add_request, set_limit, unfulfill, fulfilled_remove,
}
use vincenzo.Requests.Completion.{
  fulfill_request, fulfilled_insert, leave, drain, drain_qnt_queue, get_timeout_blocks_and_update,
}
use vincenzo.Requests.Steps.{
  marked, landed, fulfill_in_flight, fulfill_leaves, fulfill_queued, fulfill_unknown,
  swap_remove_total, note_response-SameFlight,
}
use vincenzo.Requests.Runs.{
  Step, add, fulfill, undo, give_back, reset, limit_to, take_queued, time_out, Run, here, next,
  OtherThan,
}

module _ {T F32 F64 : Type 0} (base : Base T F32 F64) where
  open base use {dec, heap}

  pub contains-insert : (b : T) (l : List T) → contains dec b (fulfilled_insert base b l) ≡ true
  unfolding contains fulfilled_insert
  contains-insert b l = ground arith

  add_of_fulfilled :
      (now at : ℕ) (b : T) (m : RequestManager T F32)
      → contains dec b m.fulfilled_index ≡ true
      → add_request base now at b m ≡ (m, false)
  unfolding add_request
  add_of_fulfilled now at b m h = ground arith

  landed_fulfilled :
      (now : ℕ) (req : T) (pos : ℕ) (rest : List T) (m : RequestManager T F32)
      → (landed base now req pos rest (marked base req m)).fulfilled_index
        ≡ fulfilled_insert base req m.fulfilled_index
  landed_fulfilled now req pos rest m =
      (note_response-SameFlight base now req
        (record (marked base req m) { index = remove dec req m.index })).fulfilled

  -- a panic, where the index is wrong
  fulfill_panics :
      (now : ℕ) (req : T) (pos : ℕ) (m : RequestManager T F32)
      → position dec req m.queue ≡ none
      → lookup dec req m.index ≡ some pos
      → remove_at pos m.requests ≡ none
      → fulfill_request base now req m ≡ panic
  unfolding leave
  fulfill_panics now req pos m free found e =
      let s =
        note_response-SameFlight base now req
          (record (marked base req m) { index = remove dec req m.index }) in
      let gone = ap (remove_at pos) s.requests ∙ e in
      fulfill_leaves base now req pos m free found ∙ rw (gone, leave) refl

  -- a call that returns marks its item, and unmarks none
  fulfill_marks :
      (now : ℕ) (req : T) (m n : RequestManager T F32) (done : Bool)
      → fulfill_request base now req m ≡ ok (n, done)
      → fulfilled_insert base req m.fulfilled_index ≡ n.fulfilled_index
  fulfill_marks now req m n done e = elim (Option-cases (position dec req m.queue)) [
    | inr (pos, queued) ↦
        let (rest, s) = swap_remove_total base req pos m.queue queued in
        cc (e, fulfill_queued base now req pos rest m queued s)
    | inl free ↦ elim (Option-cases (lookup dec req m.index)) [
      | inl gone ↦ cc (e, fulfill_unknown base now req m free gone)
      | inr (pos, found) ↦ elim (Option-cases (remove_at pos m.requests)) [
        | inl out ↦ absurd (cc (e, fulfill_panics now req pos m free found out))
        | inr (rest, r) ↦
            let p : (landed base now req pos rest (marked base req m)).fulfilled_index
                ≡ n.fulfilled_index =
              cc (e, fulfill_in_flight base now req pos rest m free found r) in
            rw (← p, landed_fulfilled now req pos rest m) refl
      ]
    ]
  ]

  pub fulfilled_after :
      (now : ℕ) (req : T) (m n : RequestManager T F32) (done : Bool)
      → fulfill_request base now req m ≡ ok (n, done)
      → contains dec req n.fulfilled_index ≡ true
  fulfilled_after now req m n done e =
      rw (← fulfill_marks now req m n done e) (contains-insert req m.fulfilled_index)

  contains-insert_other :
      (b c : T) (l : List T)
      → contains dec b l ≡ true
      → contains dec b (fulfilled_insert base c l) ≡ true
  unfolding contains fulfilled_insert
  contains-insert_other b c l h = ground arith

  contains-remove_other :
      (b c : T) (l : List T)
      → c ≢ b
      → contains dec b l ≡ true
      → contains dec b (fulfilled_remove base c l) ≡ true
  unfolding contains fulfilled_remove
  contains-remove_other b c [] n h = h
  contains-remove_other b c (x ∷ l) n h = ground (arith, contains-remove_other b c l)

  add_keeps_fulfilled :
      (now at : ℕ) (b : T) (m : RequestManager T F32)
      → (add_request base now at b m).0.fulfilled_index ≡ m.fulfilled_index
  unfolding add_request
  add_keeps_fulfilled now at b m = ground arith

  Step-fulfilled :
      (req : T) {m n : RequestManager T F32}
      → Step base (OtherThan base req) ⊥ m n
      → contains dec req m.fulfilled_index ≡ true
      → contains dec req n.fulfilled_index ≡ true
  Step-fulfilled req (add now at b m) h = rw (add_keeps_fulfilled now at b m) h
  Step-fulfilled req (fulfill now b m n done e) h =
      rw (← fulfill_marks now b m n done e) (contains-insert_other req b m.fulfilled_index h)
  Step-fulfilled req (undo b m o) h =
      unfold unfulfill in contains-remove_other req b m.fulfilled_index o h
  Step-fulfilled req (give_back m) h = unfold drain in h
  Step-fulfilled req (reset m z) h = absurd z
  Step-fulfilled req (limit_to n m) h = unfold set_limit in h
  Step-fulfilled req (take_queued n m) h = unfold drain_qnt_queue in h
  Step-fulfilled req (time_out now m) h = unfold get_timeout_blocks_and_update in h

  Run-fulfilled :
      (req : T) {m n : RequestManager T F32}
      → contains dec req m.fulfilled_index ≡ true
      → Run base (OtherThan base req) ⊥ m n
      → contains dec req n.fulfilled_index ≡ true
  Run-fulfilled req h here = h
  Run-fulfilled req h (next r s) = Step-fulfilled req s (Run-fulfilled req h r)

  -- Once a call of `fulfill_request` on an item has returned, on any manager, no later call of
  -- `add_request` takes the item or changes anything, whatever calls come in between but `clear` and
  -- an `unfulfill` of that item.
  pub add-fulfill :
      (now later at : ℕ) (req : T) (m n : RequestManager T F32) (done : Bool)
      {k : RequestManager T F32}
      → fulfill_request base now req m ≡ ok (n, done)
      → Run base (OtherThan base req) ⊥ n k
      → add_request base later at req k ≡ (k, false)
  add-fulfill now later at req m n done {k} e r =
      add_of_fulfilled later at req k (Run-fulfilled req (fulfilled_after now req m n done e) r)
