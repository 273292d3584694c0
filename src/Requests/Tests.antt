-- ===== src/Requests/Tests.antt =====
-- Runs of the request manager, and its theorems at concrete inputs.
use native.Mathlib.Decide.{ℕ_discrete}
use vincenzo.Prelude.{
  ℕ, ◌+◌, ◌-◌, ◌*◌, ◌/◌, ◌^◌, ◌≤◌, ◌≡◌, ◌≢◌, refl, Bool, true, false, List, [], ◌∷◌, none, ltb,
  if◌then◌else◌, arith,
}
use vincenzo.Prelude.Float.{Float}
use vincenzo.Prelude.HashMap.{lookup, insert, remove}
use vincenzo.Prelude.Positions.{position, contains, count, remove_at}
use vincenzo.Outcome.{Outcome, ok}
use vincenzo.Requests.Manager.{
  Heap, RequestManager, Base, new, add_request, set_limit, in_flight, was_fulfilled, len, unfulfill,
}
use vincenzo.Requests.Completion.{
  fulfill_request, leave, drop_queued, reindex, note_response, fulfilled_insert,
}
use vincenzo.Requests.Invariant.{IsHeap, items, Aligned}
use vincenzo.Requests.Runs.{Reach, KeptReach, here, next, add, fulfill, limit_to, undo}
use vincenzo.Requests.Pointed.{Pointed}
use vincenzo.Requests.Reach.{Reach-IsPointed, KeptReach-IsValid, fulfill_request_total}
use vincenzo.Requests.Fulfilled.{add-fulfill}
use vincenzo.Requests.Lifecycle.{fulfill_frees_place}
use vincenzo.Requests.Admission.{add_request_accepts}

-- whole numbers in place of floats
abbrev whole : Float ℕ
whole = record {
  lit = λ m d. m / 10 ^ d;
  from_nat = λ n. n;
  to_u32 = λ n. n;
  to_u64 = λ n. n;
  plus = λ a b. a + b;
  minus = λ a b. a - b;
  times = λ a b. a * b;
  over = λ a b. a / b;
  abs = λ a. a;
  smaller = λ a b. if ltb a b then a else b;
  larger = λ a b. if ltb a b then b else a;
  sum = λ l. 0;
  gt = λ a b. ltb b a;
}

abbrev keep : (ℕ → Bool) → List (ℕ × ℕ) → List (ℕ × ℕ)
keep p [] = []
keep p (e ∷ l) = if p e.1 then e ∷ keep p l else keep p l

abbrev newest_first : Heap ℕ
newest_first = record { push = λ e l. e ∷ l; retain = keep; peek = λ l. none }

keep-items :
    (p : ℕ → Bool) (l : List (ℕ × ℕ)) (b : ℕ)
    → count ℕ_discrete b (items ℕ_discrete (keep p l))
      ≡ (if p b then count ℕ_discrete b (items ℕ_discrete l) else 0)
unfolding count
keep-items p [] b = ground arith
keep-items p (e ∷ l) b = ground (arith, keep-items p l b)

newest_first-IsHeap : IsHeap ℕ_discrete newest_first
newest_first-IsHeap = record { push_holds = λ e l b. refl; retain_keeps = keep-items }

abbrev numbers : Base ℕ ℕ ℕ
numbers = record {
  dec = ℕ_discrete;
  f32 = whole;
  f64 = whole;
  mul_f32 = λ d x. d * x;
  heap = newest_first;
}

abbrev manager_of : Outcome (RequestManager ℕ ℕ × Bool) → RequestManager ℕ ℕ
manager_of (ok (m, _)) = m
manager_of _ = new numbers

abbrev one_place : RequestManager ℕ ℕ
one_place = set_limit numbers 1 (new numbers)

abbrev with_seven : RequestManager ℕ ℕ
with_seven = (add_request numbers 10 11 7 one_place).0

abbrev with_eight : RequestManager ℕ ℕ
with_eight = (add_request numbers 20 21 8 with_seven).0

abbrev seven_done : RequestManager ℕ ℕ
seven_done = manager_of (fulfill_request numbers 30 7 with_eight)

-- Eight is queued, and in flight too.
abbrev eight_twice : RequestManager ℕ ℕ
eight_twice = (add_request numbers 40 41 8 seven_done).0

seven_lands : fulfill_request numbers 30 7 with_eight ≡ ok (seven_done, true)
unfolding fulfill_request add_request set_limit new position lookup insert remove remove_at contains
    ℕ_discrete
seven_lands = refl

eight_twice-KeptReach : KeptReach numbers eight_twice
eight_twice-KeptReach =
    next
      (next (next (next (next here (limit_to 1 _)) (add 10 11 7 _)) (add 20 21 8 _))
        (fulfill 30 7 _ seven_done true seven_lands))
      (add 40 41 8 _)

with_seven-KeptReach : KeptReach numbers with_seven
with_seven-KeptReach = next (next here (limit_to 1 _)) (add 10 11 7 _)

-- Seven and eight are in flight, then eight is unfulfilled, and asked for again.
abbrev both_fly : RequestManager ℕ ℕ
both_fly = (add_request numbers 20 21 8 (add_request numbers 10 11 7 (new numbers)).0).0

abbrev eight_undone : RequestManager ℕ ℕ
eight_undone = unfulfill numbers 8 both_fly

eight_undone-Reach : Reach numbers eight_undone
eight_undone-Reach = next (next (next here (add 10 11 7 _)) (add 20 21 8 _)) (undo 8 _ tt)

abbrev seven_gone : RequestManager ℕ ℕ
seven_gone = manager_of (fulfill_request numbers 30 7 eight_undone)

-- The loop of `fulfill_request` puts the item that was unfulfilled back into the index: it counts as in
-- flight again, though it is seven that came in.
undone_comes_back :
    (in_flight numbers 8 eight_undone ≡ false) × (in_flight numbers 8 seven_gone ≡ true)
unfolding in_flight unfulfill fulfill_request leave drop_queued reindex note_response
    fulfilled_insert add_request new position lookup insert remove remove_at contains ℕ_discrete
undone_comes_back = (refl, refl)

Reach-IsPointed_example : Pointed ℕ_discrete eight_undone.requests eight_undone.index
Reach-IsPointed_example = Reach-IsPointed numbers eight_undone-Reach

KeptReach-IsValid_example :
    Aligned ℕ_discrete eight_twice.requests eight_twice.index eight_twice.timeouts
KeptReach-IsValid_example = KeptReach-IsValid numbers newest_first-IsHeap eight_twice-KeptReach

fulfill_request_total_example :
    (n : RequestManager ℕ ℕ) × (done : Bool) × (fulfill_request numbers 30 7 eight_undone
      ≡ ok (n, done))
fulfill_request_total_example = fulfill_request_total numbers 30 7 eight_undone-Reach

fulfill_frees_place_example :
    (n : RequestManager ℕ ℕ) × (fulfill_request numbers 30 7 with_seven ≡ ok (n, true))
    × (in_flight numbers 7 n ≡ false)
    × (was_fulfilled numbers 7 n ≡ true)
    × (len numbers n + 1 ≡ len numbers with_seven)
    × ((c : ℕ) → c ≢ 7 → in_flight numbers c n ≡ in_flight numbers c with_seven)
unfolding in_flight add_request set_limit new position lookup insert contains ℕ_discrete
fulfill_frees_place_example =
    fulfill_frees_place numbers newest_first-IsHeap with_seven-KeptReach 30 7 refl refl

-- between the two calls another item is asked for and unfulfilled
add-fulfill_example :
    add_request numbers 60 61 7 (unfulfill numbers 8 eight_twice)
    ≡ (unfulfill numbers 8 eight_twice, false)
add-fulfill_example =
    add-fulfill numbers 30 60 61 7 with_eight seven_done true seven_lands
      (next (next here (add 40 41 8 _)) (undo 8 _ (λ e. omega (arith, e))))

add_request_accepts_example :
    (in_flight numbers 7 with_seven ≡ true)
    × (len numbers with_seven ≡ len numbers one_place + 1)
    × (len numbers with_seven ≤ one_place.limit)
    × ((c : ℕ) → c ≢ 7 → in_flight numbers c with_seven ≡ in_flight numbers c one_place)
unfolding add_request set_limit new lookup contains
add_request_accepts_example = add_request_accepts numbers 10 11 7 one_place refl
