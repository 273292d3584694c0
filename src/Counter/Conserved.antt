-- ===== src/Counter/Conserved.antt =====
-- What is counted and rated, over all calls of a counter (crates/vcz-lib/src/counter.rs).
use vincenzo.Prelude.{
  ℕ, ◌+◌, ◌-◌, ◌^◌, ◌%◌, ◌≡◌, ◌<◌, refl, ap, Bool, true, false, List, [], ◌∷◌, ltb, if◌then◌else◌,
  inl, inr, Bool-cases, arith,
}
use vincenzo.Prelude.Float.{Float}
use vincenzo.Counter.Rates.{Counter, next_ema, record_download, record_upload, update_rates}

pub data Call : Type 0 where
  downloaded uploaded : ℕ → Call
  updated : ℕ → Call

-- the bytes that a call records as downloaded or uploaded
abbrev pub bytes_down : Call → ℕ
bytes_down (Call.downloaded n) = n
bytes_down _ = 0

abbrev pub bytes_up : Call → ℕ
bytes_up (Call.uploaded n) = n
bytes_up _ = 0

abbrev pub total_of : (Call → ℕ) → List Call → ℕ
total_of bytes [] = 0
total_of bytes (call ∷ calls) = bytes call + total_of bytes calls

-- a stretch of time between two updates: the bytes of it, and its milliseconds
pub record Sample : Type 0 where
  pub bytes : ℕ
  pub ms : ℕ

abbrev pub sampled : List Sample → ℕ
sampled [] = 0
sampled (s ∷ ss) = s.bytes + sampled ss

-- the milliseconds since the last update
abbrev since : ℕ → ℕ → ℕ
since last now = (now + (2 ^ 64 - last)) % 2 ^ 64

-- The stretches that the updates of `calls` end, and the bytes since the last of them: told from the
-- calls alone, the time of the last update and the bytes since then.
module _ (bytes : Call → ℕ) where
  abbrev pub samples : ℕ → ℕ → List Call → List Sample
  samples last open_bytes [] = []
  samples last open_bytes (Call.updated now ∷ calls) =
      if ltb (since last now) 1
      then samples last open_bytes calls
      else record { bytes = open_bytes % 2 ^ 64; ms = since last now } ∷ samples now 0 calls
  samples last open_bytes (call ∷ calls) = samples last (open_bytes + bytes call) calls

  abbrev pub unsampled : ℕ → ℕ → List Call → ℕ
  unsampled last open_bytes [] = open_bytes % 2 ^ 64
  unsampled last open_bytes (Call.updated now ∷ calls) =
      if ltb (since last now) 1 then unsampled last open_bytes calls else unsampled now 0 calls
  unsampled last open_bytes (call ∷ calls) = unsampled last (open_bytes + bytes call) calls

  samples_lose_none :
      (calls : List Call) (last open_bytes : ℕ)
      → ((now : ℕ) → bytes (Call.updated now) ≡ 0)
      → (sampled (samples last open_bytes calls) + unsampled last open_bytes calls) % 2 ^ 64
        ≡ (open_bytes + total_of bytes calls) % 2 ^ 64
  samples_lose_none [] last open_bytes z = omega arith
  samples_lose_none (Call.downloaded n ∷ calls) last open_bytes z =
      omega (arith, samples_lose_none calls last (open_bytes + bytes (Call.downloaded n)) z)
  samples_lose_none (Call.uploaded n ∷ calls) last open_bytes z =
      omega (arith, samples_lose_none calls last (open_bytes + bytes (Call.uploaded n)) z)
  samples_lose_none (Call.updated now ∷ calls) last open_bytes z =
      elim (Bool-cases (ltb (since last now) 1)) [
        | inl e ↦ rw (e, z now) (omega (arith, samples_lose_none calls last open_bytes z))
        | inr e ↦ rw (e, z now) (omega (arith, samples_lose_none calls now 0 z))
      ]

module _ {F : Type 0} (o : Float F) (same : F → F → Bool) where
  unfoldable pub step : Call → Counter F → Counter F
  unfolding record_download record_upload update_rates
  step (Call.downloaded n) c = record_download n c
  step (Call.uploaded n) c = record_upload n c
  step (Call.updated now) c = update_rates o same now c

  unfoldable pub run : List Call → Counter F → Counter F
  unfolding step
  run [] c = c
  run (call ∷ calls) c = run calls (step call c)

  -- The bytes per second of a stretch, of which three tenths are taken, and seven tenths of the average
  -- so far; the first rate is taken whole.
  abbrev smoothed : F → Sample → F
  smoothed ema s =
      let per_second = o.over (o.from_nat s.bytes) (o.over (o.from_nat s.ms) (o.lit 1000 0)) in
      if same ema (o.lit 0 0)
      then per_second
      else o.plus (o.times (o.lit 3 1) per_second) (o.times (o.minus (o.lit 1 0) (o.lit 3 1)) ema)

  -- the moving average after the samples, each of them rated once and in order
  abbrev pub averaged : F → List Sample → F
  averaged ema [] = ema
  averaged ema (s ∷ ss) = averaged (smoothed ema s) ss

  -- the counter that an update leaves which is not too soon
  abbrev rate : ℕ → Counter F → Counter F
  rate now c =
      let elapsed = o.over (o.from_nat (since c.last_update now)) (o.lit 1000 0) in
      record c {
        last_update = now;
        window_downloaded = 0;
        window_uploaded = 0;
        ema_download = next_ema o same c.ema_download c.window_downloaded elapsed;
        ema_upload = next_ema o same c.ema_upload c.window_uploaded elapsed;
      }

  run_too_soon :
      (now : ℕ) (calls : List Call) (c : Counter F)
      → ltb (since c.last_update now) 1 ≡ true
      → run (Call.updated now ∷ calls) c ≡ run calls c
  unfolding run
  run_too_soon now calls c e = ap (run calls) (rw e refl)

  run_rates :
      (now : ℕ) (calls : List Call) (c : Counter F)
      → ltb (since c.last_update now) 1 ≡ false
      → run (Call.updated now ∷ calls) c ≡ run calls (rate now c)
  unfolding run
  run_rates now calls c e = ap (run calls) (rw e refl)

  down_holds :
      (calls : List Call) (c : Counter F) (open_bytes : ℕ)
      → c.window_downloaded ≡ open_bytes % 2 ^ 64
      → ((run calls c).ema_download
          ≡ averaged c.ema_download (samples bytes_down c.last_update open_bytes calls))
        × ((run calls c).window_downloaded ≡ unsampled bytes_down c.last_update open_bytes calls)
        × ((run calls c).total_downloaded % 2 ^ 64
            ≡ (c.total_downloaded + total_of bytes_down calls) % 2 ^ 64)
  unfolding run
  down_holds [] c open_bytes h = (refl, h, omega arith)
  down_holds (Call.downloaded n ∷ calls) c open_bytes h =
      let (p, q, r) =
        down_holds calls (step (Call.downloaded n) c) (open_bytes + bytes_down (Call.downloaded n))
          (omega (arith, h)) in
      (p, q, omega (arith, r))
  down_holds (Call.uploaded n ∷ calls) c open_bytes h =
      let (p, q, r) =
        down_holds calls (step (Call.uploaded n) c) (open_bytes + bytes_down (Call.uploaded n))
          (omega (arith, h)) in
      (p, q, omega (arith, r))
  down_holds (Call.updated now ∷ calls) c open_bytes h =
      elim (Bool-cases (ltb (since c.last_update now) 1)) [
        | inl e ↦
            let (p, q, r) = down_holds calls c open_bytes h in
            rw (run_too_soon now calls c e, e) (p, q, omega (arith, r))
        | inr e ↦
            let (p, q, r) = down_holds calls (rate now c) 0 refl in
            rw (run_rates now calls c e, e, ← h) (p, q, omega (arith, r))
      ]

  up_holds :
      (calls : List Call) (c : Counter F) (open_bytes : ℕ)
      → c.window_uploaded ≡ open_bytes % 2 ^ 64
      → ((run calls c).ema_upload
          ≡ averaged c.ema_upload (samples bytes_up c.last_update open_bytes calls))
        × ((run calls c).window_uploaded ≡ unsampled bytes_up c.last_update open_bytes calls)
        × ((run calls c).total_uploaded % 2 ^ 64
            ≡ (c.total_uploaded + total_of bytes_up calls) % 2 ^ 64)
  unfolding run
  up_holds [] c open_bytes h = (refl, h, omega arith)
  up_holds (Call.downloaded n ∷ calls) c open_bytes h =
      let (p, q, r) =
        up_holds calls (step (Call.downloaded n) c) (open_bytes + bytes_up (Call.downloaded n))
          (omega (arith, h)) in
      (p, q, omega (arith, r))
  up_holds (Call.uploaded n ∷ calls) c open_bytes h =
      let (p, q, r) =
        up_holds calls (step (Call.uploaded n) c) (open_bytes + bytes_up (Call.uploaded n))
          (omega (arith, h)) in
      (p, q, omega (arith, r))
  up_holds (Call.updated now ∷ calls) c open_bytes h =
      elim (Bool-cases (ltb (since c.last_update now) 1)) [
        | inl e ↦
            let (p, q, r) = up_holds calls c open_bytes h in
            rw (run_too_soon now calls c e, e) (p, q, omega (arith, r))
        | inr e ↦
            let (p, q, r) = up_holds calls (rate now c) 0 refl in
            rw (run_rates now calls c e, e, ← h) (p, q, omega (arith, r))
      ]

  -- What a counter holds of one direction, after `calls` with these bytes: the total, the average and
  -- the window, from those before.
  pub record Counts (bytes : Call → ℕ) (calls : List Call) (last total window : ℕ) (ema : F)
      (total' window' : ℕ) (ema' : F) : Type 0 where
    pub counted : total' % 2 ^ 64 ≡ (total + total_of bytes calls) % 2 ^ 64
    pub rated : ema' ≡ averaged ema (samples bytes last window calls)
    pub left : window' ≡ unsampled bytes last window calls
    pub lossless :
        (sampled (samples bytes last window calls) + window') % 2 ^ 64
        ≡ (window + total_of bytes calls) % 2 ^ 64

  -- Over any calls on a counter whose windows are u64s, in each direction: the total grows by the
  -- bytes that are recorded. The rate is the moving average of the stretches between the updates,
  -- of each its bytes and its time, as the calls alone tell them. And the bytes of these stretches,
  -- with those of the window that is left, are all the bytes that are recorded: none is lost or
  -- rated twice, up to the wrap-around of a u64.
  pub run_conserves :
      (calls : List Call) (c : Counter F)
      → c.window_downloaded < 2 ^ 64
      → c.window_uploaded < 2 ^ 64
      → Counts bytes_down calls c.last_update c.total_downloaded c.window_downloaded c.ema_download
          (run calls c).total_downloaded
          (run calls c).window_downloaded
          (run calls c).ema_download
        × Counts bytes_up calls c.last_update c.total_uploaded c.window_uploaded c.ema_upload
            (run calls c).total_uploaded
            (run calls c).window_uploaded
            (run calls c).ema_upload
  run_conserves calls c d u =
      let (p, q, r) = down_holds calls c c.window_downloaded (omega arith) in
      let (v, w, x) = up_holds calls c c.window_uploaded (omega arith) in
      (
        record {
          counted = r;
          rated = p;
          left = q;
          lossless =
              rw q
                (samples_lose_none bytes_down calls c.last_update c.window_downloaded (λ n. refl));
        },
        record {
          counted = x;
          rated = v;
          left = w;
          lossless =
              rw w (samples_lose_none bytes_up calls c.last_update c.window_uploaded (λ n. refl));
        },
      )
