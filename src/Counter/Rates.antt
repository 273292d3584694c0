-- ===== src/Counter/Rates.antt =====
-- `Counter` of crates/vcz-lib/src/counter.rs. An atomic u64 is a number, `fetch_add` wraps; the clock is
-- an argument. f64 and its test for equality are parameters.
use vincenzo.Prelude.{ℕ, ◌+◌, ◌-◌, ◌^◌, ◌%◌, Bool, ltb, if◌then◌else◌}
use vincenzo.Prelude.Float.{Float}

pub record Counter (F : Type 0) : Type 0 where
  pub total_downloaded : ℕ
  pub total_uploaded : ℕ
  pub window_downloaded : ℕ
  pub window_uploaded : ℕ
  pub ema_download : F
  pub ema_upload : F
  pub last_update : ℕ

-- `fetch_add`
abbrev pub fetch_add : ℕ → ℕ → ℕ
fetch_add n bytes = (n + bytes) % 2 ^ 64

module _ {F : Type 0} where
  unfoldable pub record_download : ℕ → Counter F → Counter F
  record_download bytes c = record c {
    total_downloaded = fetch_add c.total_downloaded bytes;
    window_downloaded = fetch_add c.window_downloaded bytes;
  }

  unfoldable pub record_upload : ℕ → Counter F → Counter F
  record_upload bytes c = record c {
    total_uploaded = fetch_add c.total_uploaded bytes;
    window_uploaded = fetch_add c.window_uploaded bytes;
  }

module _ {F : Type 0} (o : Float F) (same : F → F → Bool) where
  abbrev pub zero_rate : F
  zero_rate = o.lit 0 0

  -- EMA_ALPHA and EMA_ALPHA_COMPLIMENT
  abbrev ema_alpha : F
  ema_alpha = o.lit 3 1

  abbrev ema_alpha_compliment : F
  ema_alpha_compliment = o.minus (o.lit 1 0) ema_alpha

  unfoldable pub new : ℕ → Counter F
  new now = record {
    total_downloaded = 0;
    total_uploaded = 0;
    window_downloaded = 0;
    window_uploaded = 0;
    ema_download = zero_rate;
    ema_upload = zero_rate;
    last_update = now;
  }

  unfoldable pub from_total_download : ℕ → ℕ → Counter F
  unfolding new
  from_total_download t now = record (new now) { total_downloaded = t }

  -- the next average, of the bytes of a window and its seconds
  abbrev pub next_ema : F → ℕ → F → F
  next_ema ema window elapsed =
      let rate = o.over (o.from_nat window) elapsed in
      if same ema zero_rate
      then rate
      else o.plus (o.times ema_alpha rate) (o.times ema_alpha_compliment ema)

  -- `now - last`, which wraps where overflow is not checked
  abbrev pub elapsed_ms : ℕ → Counter F → ℕ
  elapsed_ms now c = (now + (2 ^ 64 - c.last_update)) % 2 ^ 64

  unfoldable pub update_rates : ℕ → Counter F → Counter F
  update_rates now c =
      let elapsed = o.over (o.from_nat (elapsed_ms now c)) (o.lit 1000 0) in
      if ltb (elapsed_ms now c) 1 then c else record c {
        last_update = now;
        window_downloaded = 0;
        window_uploaded = 0;
        ema_download = next_ema c.ema_download c.window_downloaded elapsed;
        ema_upload = next_ema c.ema_upload c.window_uploaded elapsed;
      }
