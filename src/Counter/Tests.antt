-- ===== src/Counter/Tests.antt =====
-- Runs of the counter, and its theorem at a concrete input.
use vincenzo.Prelude.{refl, arith, ℕ, ◌+◌, ◌-◌, ◌*◌, ◌≡◌, List, [], ◌∷◌, ltb, ◌==◌, min}
use vincenzo.Prelude.Float.{Float}
use vincenzo.Counter.Rates.{Counter, from_total_download}
use vincenzo.Counter.Conserved.{
  Call, Counts, bytes_down, bytes_up, samples, unsampled, run, run_conserves,
}

-- numbers, rounded towards 0
abbrev whole : Float ℕ
whole = record {
  lit = λ m d. m;
  from_nat = λ n. n;
  to_u32 = λ x. x;
  to_u64 = λ x. x;
  plus = ◌+◌;
  minus = ◌-◌;
  times = ◌*◌;
  over = λ x y. x;
  abs = λ x. x;
  smaller = min;
  larger = min;
  sum = λ xs. 0;
  gt = λ x y. ltb y x;
}

abbrev calls : List Call
calls =
    Call.downloaded 700
    ∷ Call.uploaded 5
    ∷ Call.updated 2000
    ∷ Call.downloaded 30
    ∷ Call.updated 2000
    ∷ []

abbrev resumed : Counter ℕ
resumed = from_total_download whole ◌==◌ 1000 1000

run_conserves_example :
    Counts whole ◌==◌ bytes_down calls 1000 1000 0 0
      (run whole ◌==◌ calls resumed).total_downloaded
      (run whole ◌==◌ calls resumed).window_downloaded
      (run whole ◌==◌ calls resumed).ema_download
    × Counts whole ◌==◌ bytes_up calls 1000 0 0 0
        (run whole ◌==◌ calls resumed).total_uploaded
        (run whole ◌==◌ calls resumed).window_uploaded
        (run whole ◌==◌ calls resumed).ema_upload
unfolding from_total_download
run_conserves_example = run_conserves whole ◌==◌ calls resumed (omega arith) (omega arith)

-- The bytes before the first update are one stretch; an update at the same time ends none.
two_stretches : samples bytes_down 1000 0 calls ≡ record { bytes = 700; ms = 1000 } ∷ []
two_stretches = refl

left_open : unsampled bytes_down 1000 0 calls ≡ 30
left_open = refl
