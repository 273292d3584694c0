-- ===== src/Requests/Manager.antt =====
-- `RequestManager` of crates/vcz-lib/src/peer/request_manager.rs: the requests in flight, their
-- inverse index, the queue behind them and the timeouts. A `Duration` and an `Instant` are numbers
-- of nanoseconds; each `Instant::now()` is an argument. Capacities have no effect and are left out.
use mathlib.Core.Logic.{ite}
use vincenzo.Prelude.{
  ℕ, ◌+◌, ◌-◌, ◌*◌, ◌/◌, Bool, true, false, ◌||◌, List, [], ◌∷◌, ◌++◌, map, Option, length, drop,
  ltb, leb, ◌==◌, if◌then◌else◌, is_some,
}
use vincenzo.Prelude.HashMap.{lookup, insert, remove}
use vincenzo.Prelude.Positions.{contains}
use vincenzo.Prelude.Float.{Float}

abbrev pub default_request_queue_len : ℕ
default_request_queue_len = 500

-- `BinaryHeap<(Reverse<Instant>, T)>` of std, whose order of elements is not specified: what it
-- holds is a list, and the calls that rearrange it are a parameter.
pub record Heap (T : Type 0) : Type 0 where
  pub push : ℕ × T → List (ℕ × T) → List (ℕ × T)
  pub retain : (T → Bool) → List (ℕ × T) → List (ℕ × T)
  pub peek : List (ℕ × T) → Option (ℕ × T)

pub record RequestManager (T F32 : Type 0) : Type 0 where
  pub queue : List T
  pub timeouts : List (ℕ × T)
  pub requests : List T
  pub index : List (T × ℕ)
  pub fulfilled_index : List T
  pub limit : ℕ
  pub recv_times : List ℕ
  pub avg_recv_time : ℕ
  pub timeout_mult : F32
  pub req_start_times : List (T × ℕ)

abbrev pub from_millis : ℕ → ℕ
from_millis n = n * 1_000_000

abbrev pub from_secs : ℕ → ℕ
from_secs n = n * 1_000_000_000

-- What the manager is built on: equality of items, floats, `Duration::mul_f32` and the heap.
pub record Base (T F32 F64 : Type 0) : Type 0 where
  pub dec : Discrete T
  pub f32 : Float F32
  pub f64 : Float F64
  pub mul_f32 : ℕ → F32 → ℕ
  pub heap : Heap T

module _ {T F32 F64 : Type 0} (base : Base T F32 F64) where
  open base use {dec, f32, f64, mul_f32, heap}

  unfoldable pub new : RequestManager T F32
  new = record {
    queue = [];
    timeouts = [];
    requests = [];
    index = [];
    fulfilled_index = [];
    limit = default_request_queue_len;
    recv_times = [];
    avg_recv_time = 0;
    timeout_mult = f32.lit 30 1;
    req_start_times = [];
  }

  -- `Ord::clamp`
  clamp : ℕ → ℕ → ℕ → ℕ
  clamp lo hi x = if ltb x lo then lo else if ltb hi x then hi else x

  unfoldable pub get_timeout : RequestManager T F32 → ℕ
  unfolding clamp
  get_timeout m =
      if m.avg_recv_time == 0
      then from_secs 5
      else clamp (from_millis 3_000) (from_secs 30) (mul_f32 m.avg_recv_time m.timeout_mult)

  -- the mean of the squared distances from the average, in milliseconds
  variance : List ℕ → ℕ → F64
  variance times avg =
      let a = f64.from_nat (avg / 1_000_000) in
      let square = λ (d : ℕ). let x = f64.minus (f64.from_nat (d / 1_000_000)) a in f64.times x x in
      f64.over (f64.sum (map square times)) (f64.from_nat (length times))

  unfoldable pub adjust_timeout_multiplier : RequestManager T F32 → RequestManager T F32
  unfolding variance
  adjust_timeout_multiplier m =
      if ltb (length m.recv_times) 5
      then m
      else if f64.gt (variance m.recv_times m.avg_recv_time) (f64.lit 1000 1)
      then record m {
        timeout_mult = f32.smaller (f32.times m.timeout_mult (f32.lit 11 1)) (f32.lit 40 1);
      }
      else record m {
        timeout_mult = f32.larger (f32.times m.timeout_mult (f32.lit 9 1)) (f32.lit 20 1);
      }

  -- `pop_front` when ten times are held, then `push_back`
  push_time : ℕ → List ℕ → List ℕ
  push_time t times = (if leb 10 (length times) then drop 1 times else times) ++ (t ∷ [])

  -- the moving average, in microseconds
  next_average : ℕ → ℕ → ℕ
  next_average avg t =
      if avg == 0
      then t
      else let alpha = f64.lit 2 1 in
        let new_part = f64.times alpha (f64.from_nat (t / 1_000)) in
        let old_part = f64.times (f64.minus (f64.lit 10 1) alpha) (f64.from_nat (avg / 1_000)) in
        f64.to_u64 (f64.plus new_part old_part) * 1_000

  unfoldable pub update_response_time : ℕ → RequestManager T F32 → RequestManager T F32
  unfolding push_time next_average adjust_timeout_multiplier
  update_response_time t m = adjust_timeout_multiplier (record m {
    recv_times = push_time t m.recv_times;
    avg_recv_time = next_average m.avg_recv_time t;
  })

  -- How many items are in flight.
  unfoldable pub len : RequestManager T F32 → ℕ
  len m = length m.index

  unfoldable pub is_full : RequestManager T F32 → Bool
  unfolding len
  is_full m = leb m.limit (len m)

  unfoldable pub get_available_request_len : RequestManager T F32 → ℕ
  unfolding len
  get_available_request_len m = m.limit - len m

  unfoldable pub queue_len : RequestManager T F32 → ℕ
  queue_len m = length m.queue

  unfoldable pub len_with_queue : RequestManager T F32 → ℕ
  unfolding len queue_len
  len_with_queue m = len m + queue_len m

  unfoldable pub was_fulfilled : T → RequestManager T F32 → Bool
  was_fulfilled block m = contains dec block m.fulfilled_index

  unfoldable pub in_flight : T → RequestManager T F32 → Bool
  in_flight block m = is_some (lookup dec block m.index)

  unfoldable pub set_limit : ℕ → RequestManager T F32 → RequestManager T F32
  set_limit limit m = record m { limit = limit }

  -- `now` is read for the timeout, `start` a moment later for the start time.
  unfoldable pub add_request : ℕ → ℕ → T → RequestManager T F32 → RequestManager T F32 × Bool
  unfolding is_full in_flight was_fulfilled get_timeout
  add_request now start block m =
      if in_flight block m || was_fulfilled block m
      then (m, false)
      else if is_full m
      then (record m { queue = m.queue ++ (block ∷ []) }, false)
      else (
        record m {
          req_start_times = insert dec block start m.req_start_times;
          requests = m.requests ++ (block ∷ []);
          index = insert dec block (length m.requests) m.index;
          timeouts = heap.push (now + get_timeout m, block) m.timeouts;
        },
        true,
      )

  unfoldable pub fulfilled_remove : T → List T → List T
  fulfilled_remove block [] = []
  fulfilled_remove block (x ∷ l) =
      let rest = fulfilled_remove block l in ite (dec x block) rest (x ∷ rest)

  unfoldable pub unfulfill : T → RequestManager T F32 → RequestManager T F32
  unfolding fulfilled_remove
  unfulfill req m = record m {
    fulfilled_index = fulfilled_remove req m.fulfilled_index;
    index = remove dec req m.index;
  }
