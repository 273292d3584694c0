-- ===== src/Utp/Ledbat.antt =====
-- The bounds of the congestion control, and the law that a stream asks of its control.
use vincenzo.Prelude.{
  ℕ, ◌+◌, ◌-◌, ◌*◌, ◌%◌, ◌^◌, ◌≤◌, ◌<◌, ◌≡◌, List, [], ◌∷◌, ◌++◌, ltb, leb, ◌==◌, Bool-cases, inl,
  inr, arith,
}
use vincenzo.Prelude.Float.{Float}
use vincenzo.Utp.Congestion.{
  Congestion, ledbat, min_timeout, min_window_size, new_congestion, pop_old, least_diff,
  update_base_delay, update_rtt, packet_loss, apply_window_decay, next_window, update_window,
  base_delay_window,
}
use vincenzo.Utp.Steps.{IsControl}

-- What is used of f32: `as u32` gives a u32, and the larger of two numbers, of which one is a whole
-- number that f32 has, is not rounded below it.
pub record IsFloat {F : Type 0} (f : Float F) : Type 0 where
  pub to_u32_fits : (x : F) → f.to_u32 x < 2 ^ 32
  pub larger_lit : (x : F) (n : ℕ) → n < 2 ^ 24 → n ≤ f.to_u32 (f.larger x (f.lit (n * 10) 1))
  pub larger_nat : (x : F) (n : ℕ) → n < 2 ^ 24 → n ≤ f.to_u32 (f.larger x (f.from_nat n))

abbrev pub IsSteady : Congestion → Type 0
IsSteady c =
    (min_window_size ≤ c.window)
    × (c.window < 2 ^ 32)
    × (min_timeout ≤ c.timeout)
    × (c.timeout < 2 ^ 32)

least_diff-append :
    (history : List (ℕ × ℕ)) (now diff : ℕ) → least_diff (history ++ ((now, diff) ∷ [])) ≤ diff
unfolding least_diff
least_diff-append [] now diff = omega arith
least_diff-append ((t, d) ∷ history) now diff = omega (arith, least_diff-append history now diff)

least_diff-pop_old :
    (history : List (ℕ × ℕ)) (now diff : ℕ)
    → now < 2 ^ 32
    → least_diff (pop_old now (history ++ ((now, diff) ∷ []))) ≤ diff
unfolding pop_old
least_diff-pop_old [] now diff n =
    let none_elapsed : (now + (2 ^ 32 - now)) % 2 ^ 32 ≡ 0 = omega arith in
    rw none_elapsed (least_diff-append [] now diff)
least_diff-pop_old ((t, d) ∷ history) now diff n =
    elim (Bool-cases (ltb base_delay_window ((now + (2 ^ 32 - t)) % 2 ^ 32))) [
      | inl e ↦ rw e (least_diff-pop_old history now diff n)
      | inr e ↦ rw e (least_diff-append ((t, d) ∷ history) now diff)
    ]

-- The base delay is at most each new measurement.
pub update_base_delay_lem :
    (now diff : ℕ) (c : Congestion)
    → now < 2 ^ 32
    → (update_base_delay now diff c).base_delay ≤ diff
unfolding update_base_delay
update_base_delay_lem now diff c n = least_diff-pop_old c.diff_timestamp_history now diff n

module _ {F : Type 0} (f : Float F) where
  -- the calls of a congestion control
  pub data Change (c : Congestion) : Congestion → Type 0 where
    loss : (now : ℕ) → Change c (packet_loss f now c)
    measure : (now packet_rtt diff : ℕ) → Change c (update_rtt f now packet_rtt diff c)
    adapt : (now outstanding diff : ℕ) → Change c (update_window f now outstanding diff c)

  pub data Controls : Congestion → Type 0 where
    fresh : (now : ℕ) → Controls (new_congestion now)
    change : (c d : Congestion) → Controls c → Change c d → Controls d

  module _ (is_float : IsFloat f) where
    loss-IsSteady : (now : ℕ) (c : Congestion) → IsSteady c → IsSteady (packet_loss f now c)
    unfolding packet_loss
    loss-IsSteady now c s =
        (is_float.larger_nat _ 1500 (omega arith), is_float.to_u32_fits _, s.2, s.3)

    decay-IsSteady : (now : ℕ) (c : Congestion) → IsSteady c → IsSteady (apply_window_decay f now c)
    unfolding apply_window_decay
    decay-IsSteady now c s = elim (Bool-cases (leb 500_000 (now - c.last_decay))) [
      | inl e ↦ rw e (loss-IsSteady now c s)
      | inr e ↦ rw e s
    ]

    Change-IsSteady : (c d : Congestion) → Change c d → IsSteady c → IsSteady d
    unfolding update_rtt update_window update_base_delay next_window
    Change-IsSteady c d (loss now) s = loss-IsSteady now c s
    Change-IsSteady c d (measure now packet_rtt diff) s = elim (Bool-cases (packet_rtt == 0)) [
      | inl e ↦ rw e s
      | inr e ↦ rw e (s.0, s.1, is_float.larger_lit _ 500_000 (omega arith), is_float.to_u32_fits _)
    ]
    Change-IsSteady c d (adapt now outstanding diff) s =
        elim (Bool-cases (ltb (now - c.last_window_update) c.rtt)) [
          | inl e ↦ rw e s
          | inr e ↦ rw e (
              decay-IsSteady now _
                (is_float.larger_lit _ 1500 (omega arith), is_float.to_u32_fits _, s.2, s.3))
        ]

    -- After any losses and measurements the window is a u32 of at least one MTU and the timeout a
    -- u32 of at least 500 ms, whatever the floats compute in between.
    pub Controls-IsSteady : (c : Congestion) → Controls c → IsSteady c
    unfolding new_congestion
    Controls-IsSteady c (fresh now) = omega arith
    Controls-IsSteady d (change c e r step) = Change-IsSteady c e step (Controls-IsSteady c r)

    -- the window is a u32, and the calls keep it one: what a stream asks of its control
    pub ledbat-IsControl : IsControl (ledbat f) IsSteady
    ledbat-IsControl = record {
      window_fits = λ c s. s.1;
      loss_keeps = loss-IsSteady;
      rtt_keeps = λ now rtt diff c s. Change-IsSteady c _ (measure now rtt diff) s;
      window_keeps = λ now out diff c s. Change-IsSteady c _ (adapt now out diff) s;
    }
