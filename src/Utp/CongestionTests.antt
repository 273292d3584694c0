-- ===== src/Utp/CongestionTests.antt =====
-- Runs of the congestion control, and its theorems at concrete inputs.
use vincenzo.Prelude.{ℕ, ◌+◌, ◌-◌, ◌*◌, ◌/◌, ◌^◌, ◌≡◌, refl, min, ltb, if◌then◌else◌, arith}
use vincenzo.Prelude.Float.{Float}
use vincenzo.Utp.Congestion.{
  Congestion, new_congestion, packet_loss, update_rtt, update_base_delay, pop_old, least_diff,
}
use vincenzo.Utp.Ledbat.{IsFloat, IsSteady, fresh, change, loss, measure, Controls-IsSteady}

-- whole numbers in place of floats, which `as u32` saturates
abbrev pub saturating : Float ℕ
saturating = record {
  lit = λ m d. m / 10 ^ d;
  from_nat = λ n. n;
  to_u32 = λ n. min n (2 ^ 32 - 1);
  to_u64 = λ n. n;
  plus = λ a b. a + b;
  minus = λ a b. a - b;
  times = λ a b. a * b;
  over = λ a b. a / b;
  abs = λ a. a;
  smaller = λ a b. if ltb a b then a else b;
  larger = λ a b. if ltb a b then b else a;
  sum = λ l. 0;
  gt = λ a b. ltb b a;
}

pub saturating-IsFloat : IsFloat saturating
saturating-IsFloat = record {
  to_u32_fits = λ x. omega arith;
  larger_lit = λ x n h. ground arith;
  larger_nat = λ x n h. ground arith;
}

-- the base delay of the test `congestion_control_formula` of congestion_control.rs
base_delay_first : (update_base_delay 7 100_000 (new_congestion 7)).base_delay ≡ 100_000
unfolding update_base_delay pop_old least_diff new_congestion
base_delay_first = refl

abbrev lossy : Congestion
lossy = packet_loss saturating 9 (update_rtt saturating 8 150_000 40 (new_congestion 7))

Controls-IsSteady_example : IsSteady lossy
Controls-IsSteady_example =
    Controls-IsSteady saturating saturating-IsFloat lossy
      (change _ lossy (change _ _ (fresh 7) (measure 8 150_000 40)) (loss 9))
