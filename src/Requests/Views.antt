-- ===== src/Requests/Views.antt =====
-- What a `RequestManager` shows and hands over: timeouts, and copies of its items.
use vincenzo.Prelude.{
  ℕ, zero, suc, ◌-◌, ◌≤◌, ◌≡◌, refl, List, [], ◌∷◌, ◌++◌, length, take, ltb, arith, if◌then◌else◌,
}
use vincenzo.Requests.Manager.{RequestManager, Base, get_timeout, from_secs, from_millis}
use vincenzo.Requests.Completion.{clone_requests, clone_qnt}

take-two :
    {A : Type 0} (n : ℕ) (xs ys : List A)
    → (if ltb (length (take n xs)) n
        then take n xs ++ take (n - length (take n xs)) ys
        else take n xs)
      ≡ take n (xs ++ ys)
take-two zero xs ys = refl
take-two (suc n) [] ys = ground arith
take-two (suc n) (x ∷ xs) ys = ground (arith, take-two n xs ys)

module _ {T F32 F64 : Type 0} (base : Base T F32 F64) where
  open base use {dec}

  -- Every timeout is between 3 and 30 seconds, whatever the floats compute.
  get_timeout_bounds :
      (m : RequestManager T F32)
      → (from_millis 3_000 ≤ get_timeout base m) × (get_timeout base m ≤ from_secs 30)
  unfolding get_timeout
  get_timeout_bounds m = ground arith

  -- `clone_qnt` returns the first items of what is in flight followed by what is queued.
  clone_qnt-eq-take :
      (qnt : ℕ) (m : RequestManager T F32) → clone_qnt base qnt m ≡ take qnt (clone_requests base m)
  unfolding clone_qnt clone_requests
  clone_qnt-eq-take qnt m = take-two qnt m.requests m.queue
