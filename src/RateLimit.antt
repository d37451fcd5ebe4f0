-- ===== src/RateLimit.antt =====
-- internal/httpapi/rate_limit.go: the fixed-window limiter of requests by source address.
--
-- A method that changes the limiter returns the new limiter beside its results. A time is a number
-- of nanoseconds, and the limiter's clock is an argument. `now.Sub(started)` is `now - started`,
-- which stops at 0: the code only asks whether it reaches the window's length, which is above 0.
pub mod Bounds
pub mod Quota
pub mod Retry
mod Tests
use Prim.Native.Nat.{max}
use dynamis_code_apps_templa.Prelude.{
  ℕ, suc, ◌+◌, ◌-◌, ◌*◌, ◌/◌, Bool, true, false, Option, none, some, ◌++◌, [], Text, ascii, Dict,
  lookup, insert, keep, length, ltb, leb, not, if◌then◌else◌,
}
use dynamis_code_apps_templa.Clock.{second}

abbrev pub maximum_rate_limit_sources : ℕ
maximum_rate_limit_sources = 4096

pub record RateWindow : Type 0 where
  pub started : ℕ
  pub count : ℕ

pub record RateLimiter : Type 0 where
  pub windows : Dict RateWindow
  pub ordinary : ℕ
  pub auth : ℕ
  pub window : ℕ

unfoldable pub new_rate_limiter : ℕ → ℕ → RateLimiter
new_rate_limiter ordinary auth = record {
  windows = [];
  ordinary = ordinary;
  auth = auth;
  window = 60 * second;
}

unfoldable pub prefix : Bool → Text
prefix authentication = if authentication then ascii "auth:" else ascii "ordinary:"

unfoldable pub limit_of : RateLimiter → Bool → ℕ
limit_of limiter authentication = if authentication then limiter.auth else limiter.ordinary

unfoldable pub expired : ℕ → ℕ → RateWindow → Bool
expired window now w = leb window (now - w.started)

-- Whole seconds, rounded up, until the window is over: at least 1.
unfoldable pub retry_after : ℕ → ℕ → RateWindow → ℕ
retry_after window now w =
    let retry = (w.started + window - now + (second - 1)) / second in
    if ltb retry 1 then 1 else retry

unfoldable pub remove_expired : RateLimiter → ℕ → RateLimiter
unfolding expired
remove_expired limiter now = record limiter {
  windows = keep (λ w. not (expired limiter.window now w)) limiter.windows;
}

abbrev pub start_window : RateLimiter → Text → ℕ → RateLimiter × Bool × ℕ
start_window limiter key now = (
  record limiter { windows = insert key (record { started = now; count = 1 }) limiter.windows },
  true,
  0,
)

is_full : RateLimiter → Bool
is_full limiter = leb maximum_rate_limit_sources (length limiter.windows)

-- A source that has no window: where the table is full, expired windows are removed first.
admit_source : RateLimiter → Text → ℕ → RateLimiter × Bool × ℕ
unfolding remove_expired is_full
admit_source limiter key now =
    if is_full limiter
    then (let swept = remove_expired limiter now in
        if is_full swept then (swept, false, 1) else start_window swept key now)
    else start_window limiter key now

pub use_window : RateLimiter → Text → ℕ → ℕ → RateWindow → RateLimiter × Bool × ℕ
unfolding expired retry_after
use_window limiter key limit now w =
    if expired limiter.window now w
    then start_window limiter key now
    else if leb limit w.count
    then (limiter, false, retry_after limiter.window now w)
    else (
      record limiter { windows = insert key (record w { count = w.count + 1 }) limiter.windows },
      true,
      0,
    )

allow_key : RateLimiter → Text → ℕ → ℕ → Option RateWindow → RateLimiter × Bool × ℕ
unfolding admit_source use_window
allow_key limiter key limit now none = admit_source limiter key now
allow_key limiter key limit now (some w) = use_window limiter key limit now w

-- Whether the request may go on, and after how many seconds to try again where it may not.
unfoldable pub allow : RateLimiter → Text → Bool → ℕ → RateLimiter × Bool × ℕ
unfolding allow_key limit_of prefix
allow limiter source authentication now =
    let key = prefix authentication ++ source in
    allow_key limiter key (limit_of limiter authentication) now (lookup key limiter.windows)
