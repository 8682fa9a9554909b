-- ===== src/Notification/Backoff.antt =====
-- internal/domain/notification/service.go: `retryBackoff`.
pub mod Exact
use zvonilka.Base.{ℕ, zero, suc, ◌*◌, ◌/◌, ◌-◌, pos_part, if◌then◌else◌, ltb, leb}
use zvonilka.Notification.Models.{Settings, normalize_settings}

-- The loop, by the rounds that are left.
unfoldable pub double_up : ℕ → ℕ → ℕ → ℕ
double_up zero backoff max = if ltb max backoff then max else backoff
double_up (suc rounds) backoff max =
    let rest = double_up rounds (backoff * 2) max in
    if leb max backoff then max else if ltb (max / 2) backoff then max else rest

-- In nanoseconds. Normalized settings are positive.
unfoldable pub retry_backoff : Settings → ℕ → ℕ
retry_backoff given attempts =
    let settings = normalize_settings given in
    let initial = pos_part settings.retry_initial_backoff in
    if leb attempts 1
    then initial
    else double_up (attempts - 1) initial (pos_part settings.retry_max_backoff)
