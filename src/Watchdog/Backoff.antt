-- ===== src/Watchdog/Backoff.antt =====
-- include/UsbStallWatchdog.h: the wait between two attempts.
use esp_now_midi.Base.{ℕ, zero, suc, ◌-◌, ◌*◌, ◌^◌, ◌≤◌, ◌<◌, ◌≡◌, arith, ltb, if◌then◌else◌, u32}
use esp_now_midi.Watchdog.{Config}
use esp_now_midi.Watchdog.Tick.{backoff_from, backoff_for}
use native.Mathlib.Nat.{pow-suc}

-- The smaller of two waits
abbrev pub smaller : ℕ → ℕ → ℕ
smaller a b = if ltb a b then a else b

times_power : (x k : ℕ) → x ≤ x * 2 ^ k
times_power x zero = omega arith
times_power x (suc k) = omega (arith, times_power x k, double)
  where
    double : x * 2 ^ suc k ≡ x * 2 ^ k * 2
    double = rw pow-suc (omega arith)

twice_power : (x k : ℕ) → x * 2 ^ suc k ≡ x * 2 * 2 ^ k
twice_power x k = rw pow-suc (omega arith)

backoff_from-smaller :
    (cfg : Config) (rounds delay : ℕ)
    → cfg.backoff_max_ms < 2 ^ 32
    → smaller (backoff_from cfg rounds delay) cfg.backoff_max_ms
      ≡ smaller (delay * 2 ^ rounds) cfg.backoff_max_ms
unfolding backoff_from
backoff_from-smaller cfg zero delay h = ground arith
backoff_from-smaller cfg (suc rounds) delay h = ground (
  arith,
  times_power delay (suc rounds),
  times_power (delay * 2) rounds,
  times_power cfg.backoff_max_ms rounds,
  twice_power delay rounds,
  backoff_from-smaller cfg rounds cfg.backoff_max_ms h,
  backoff_from-smaller cfg rounds (u32 (delay * 2)) h,
  wrap,
)
  where
    wrap : delay * 2 < 2 ^ 32 → u32 (delay * 2) ≡ delay * 2
    wrap lt = omega arith

-- The wait before the next attempt is the base wait doubled for each attempt after the first that
-- delivered nothing, cut off at the bound of the configuration. The bound is a 32-bit number.
pub backoff_for-doubles :
    (cfg : Config) (attempts : ℕ)
    → cfg.backoff_max_ms < 2 ^ 32
    → backoff_for cfg attempts
      ≡ smaller (cfg.backoff_base_ms * 2 ^ (attempts - 1)) cfg.backoff_max_ms
unfolding backoff_for
backoff_for-doubles cfg attempts h = backoff_from-smaller cfg (attempts - 1) cfg.backoff_base_ms h
