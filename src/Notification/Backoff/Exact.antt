-- ===== src/Notification/Backoff/Exact.antt =====
-- The backoff in closed form.
use zvonilka.Base.{ℕ, zero, suc, ◌+◌, ◌-◌, ◌*◌, ◌^◌, ◌≤◌, ◌<◌, ◌≡◌, ap, pos_part, arith}
use zvonilka.Notification.Models.{Settings, normalize_settings}
use zvonilka.Notification.Backoff.{double_up, retry_backoff}
use Prim.Native.Nat.{min}
use native.Mathlib.Nat.{pow-suc}

pow_pos : (k : ℕ) → 0 < 2 ^ k
pow_pos zero = omega arith
pow_pos (suc k) = omega (arith, pow-suc 2 k, pow_pos k)

grows : (b p : ℕ) → 0 < p → b ≤ b * p
grows b p h = grind arith

double_up-min :
    (rounds backoff max : ℕ)
    → 0 < backoff
    → double_up rounds backoff max ≡ min max (backoff * 2 ^ rounds)
unfolding double_up
double_up-min zero backoff max p = ground arith
double_up-min (suc rounds) backoff max p =
    let doubled : backoff * 2 ^ suc rounds ≡ backoff * 2 * 2 ^ rounds =
      omega (arith, ap (λ (t : ℕ). backoff * t) (pow-suc 2 rounds)) in
    let more = grows (backoff * 2) (2 ^ rounds) (pow_pos rounds) in
    rw doubled (ground (arith, double_up-min rounds (backoff * 2) max))

normalized :
    (settings : Settings)
    → let s = normalize_settings settings in
      (0 < pos_part s.retry_initial_backoff)
      × (pos_part s.retry_initial_backoff ≤ pos_part s.retry_max_backoff)
unfolding normalize_settings
normalized settings = ground arith

-- For any settings, the backoff before the attempt `n` + 1 is the initial backoff doubled `n` times,
-- or the greatest backoff if that is less, both as the settings are normalized.
pub retry_backoff-min :
    (settings : Settings) (n : ℕ)
    → let s = normalize_settings settings in
      retry_backoff settings (n + 1)
      ≡ min (pos_part s.retry_max_backoff) (pos_part s.retry_initial_backoff * 2 ^ n)
unfolding retry_backoff
retry_backoff-min settings zero = omega (arith, normalized settings)
retry_backoff-min settings (suc n) =
    let s = normalize_settings settings in
    let rounds : suc n + 1 - 1 ≡ suc n = omega arith in
    rw rounds (
      ground (
        arith,
        normalized settings,
        double_up-min (suc n) (pos_part s.retry_initial_backoff) (pos_part s.retry_max_backoff),
      ))
