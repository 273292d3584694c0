-- ===== src/Utp/Congestion.antt =====
-- `CongestionControl` of crates/utp/src/congestion_control.rs, over the f32 of the language. A call
-- reads the clock once; `now - timestamp` on u32 wraps.
use vincenzo.Prelude.{
  ℕ, ◌+◌, ◌-◌, ◌%◌, ◌^◌, List, [], ◌∷◌, ◌++◌, ltb, leb, ◌==◌, min, if◌then◌else◌,
}
use vincenzo.Prelude.Float.{Float}
use vincenzo.Utp.Stream.{CongestionControl}

abbrev pub min_timeout : ℕ
min_timeout = 500_000

abbrev pub min_window_size : ℕ
min_window_size = 1500

abbrev pub max_window_decay : ℕ
max_window_decay = 500_000

abbrev pub base_delay_window : ℕ
base_delay_window = 120_000_000

pub record Congestion : Type 0 where
  pub window : ℕ
  pub rtt : ℕ
  pub rtt_var : ℕ
  pub timeout : ℕ
  pub last_window_update : ℕ
  pub last_decay : ℕ
  pub base_delay : ℕ
  pub diff_timestamp_history : List (ℕ × ℕ)

unfoldable pub new_congestion : ℕ → Congestion
new_congestion now = record {
  window = 65_536;
  rtt = 100_000;
  rtt_var = 0;
  timeout = min_timeout;
  base_delay = 2 ^ 32 - 1;
  last_window_update = now;
  last_decay = now;
  diff_timestamp_history = [];
}

-- `while let Some(&(timestamp, _)) = history.front()`
unfoldable pub pop_old : ℕ → List (ℕ × ℕ) → List (ℕ × ℕ)
pop_old now [] = []
pop_old now ((timestamp, diff) ∷ history) =
    let rest = pop_old now history in
    if ltb base_delay_window ((now + (2 ^ 32 - timestamp)) % 2 ^ 32)
    then rest
    else ((timestamp, diff) ∷ history)

-- `min().unwrap_or(u32::MAX)`; a difference is a u32
unfoldable pub least_diff : List (ℕ × ℕ) → ℕ
least_diff [] = 2 ^ 32 - 1
least_diff ((timestamp, diff) ∷ history) = min diff (least_diff history)

unfoldable pub update_base_delay : ℕ → ℕ → Congestion → Congestion
unfolding pop_old least_diff
update_base_delay now timestamp_diff c =
    let history = pop_old now (c.diff_timestamp_history ++ ((now, timestamp_diff) ∷ [])) in
    record c { diff_timestamp_history = history; base_delay = least_diff history }

module _ {F : Type 0} (f : Float F) where
  open f use {lit, from_nat, to_u32, plus, minus, times, over, abs, larger}

  unfoldable pub update_rtt : ℕ → ℕ → ℕ → Congestion → Congestion
  unfolding update_base_delay
  update_rtt now packet_rtt timestamp_diff c0 =
      let c = update_base_delay now timestamp_diff c0 in
      let rtt = from_nat c.rtt in
      let rtt_var = from_nat c.rtt_var in
      let measured = from_nat packet_rtt in
      let delta = minus rtt measured in
      let new_rtt_var = plus rtt_var (over (minus (abs delta) rtt_var) (lit 40 1)) in
      let new_rtt = plus rtt (over (minus measured rtt) (lit 80 1)) in
      let new_timeout = larger (plus new_rtt (times new_rtt_var (lit 40 1))) (lit 5_000_000 1) in
      if packet_rtt == 0 then c0 else record c {
        rtt = to_u32 new_rtt;
        rtt_var = to_u32 new_rtt_var;
        timeout = to_u32 new_timeout;
      }

  unfoldable pub packet_loss : ℕ → Congestion → Congestion
  packet_loss now c = record c {
    window = to_u32 (larger (times (from_nat c.window) (lit 5 1)) (from_nat min_window_size));
    last_decay = now;
  }

  unfoldable pub apply_window_decay : ℕ → Congestion → Congestion
  unfolding packet_loss
  apply_window_decay now c =
      if leb max_window_decay (now - c.last_decay) then packet_loss now c else c

  -- the window for the bytes that are in flight, once per round trip
  unfoldable pub next_window : ℕ → ℕ → Congestion → ℕ
  next_window outstanding_bytes timestamp_diff c =
      let target = times (lit 1000 1) (lit 10_000 1) in
      let our_delay = minus (from_nat timestamp_diff) (from_nat c.base_delay) in
      let delay_factor = over (minus target our_delay) target in
      let window = from_nat c.window in
      let window_factor = over (from_nat outstanding_bytes) (larger window (lit 10 1)) in
      let most = times (lit 15_000 1) (lit 20 1) in
      let scaled_gain = times (times most delay_factor) window_factor in
      to_u32 (larger (plus window scaled_gain) (lit 15_000 1))

  unfoldable pub update_window : ℕ → ℕ → ℕ → Congestion → Congestion
  unfolding update_base_delay next_window apply_window_decay
  update_window now outstanding_bytes timestamp_diff c0 =
      let c = update_base_delay now timestamp_diff c0 in
      if ltb (now - c.last_window_update) c.rtt
      then c
      else apply_window_decay now (record c {
        window = next_window outstanding_bytes timestamp_diff c;
        last_window_update = now;
      })

  -- what a stream uses of it
  abbrev pub ledbat : CongestionControl Congestion
  ledbat = record {
    window = λ c. c.window;
    timeout = λ c. c.timeout;
    packet_loss = packet_loss;
    update_rtt = update_rtt;
    update_window = update_window;
  }
