-- ===== src/RateLimit/Tests.antt =====
-- Runs of the limiter, and its theorems at concrete limiters.
use dynamis_code_apps_templa.Prelude.{
  ◌+◌, ◌*◌, ◌≤◌, ◌≡◌, refl, true, false, some, [], ◌∷◌, ◌++◌, ascii, arith, lookup, length, text_eq,
}
use dynamis_code_apps_templa.Clock.{second}
use dynamis_code_apps_templa.RateLimit.{
  RateWindow, RateLimiter, maximum_rate_limit_sources, prefix, limit_of, expired, allow,
  new_rate_limiter,
}
use dynamis_code_apps_templa.RateLimit.Bounds.{allow_bound, allow_other}
use dynamis_code_apps_templa.RateLimit.Quota.{Request, served, window_quota}
use dynamis_code_apps_templa.RateLimit.Retry.{after, retry_honoured}

abbrev opened : RateWindow
opened = record { started = 100 * second; count = 2 }

-- One source has used both requests that its class may make.
abbrev busy : RateLimiter
busy = record {
  windows = (ascii "auth:1.2.3.4", opened) ∷ [];
  ordinary = 5;
  auth = 2;
  window = 60 * second;
}

allow_bound_example :
    length (allow busy (ascii "5.6.7.8") false (101 * second)).0.windows
    ≤ maximum_rate_limit_sources
allow_bound_example = allow_bound busy (ascii "5.6.7.8") false (101 * second) (omega arith)

allow_other_example :
    lookup
      (prefix true ++ ascii "1.2.3.4")
      (allow busy (ascii "1.2.3.4") false (101 * second)).0.windows
    ≡ some opened
unfolding lookup prefix text_eq expired
allow_other_example =
    allow_other busy (ascii "1.2.3.4") false (101 * second) (ascii "1.2.3.4") true opened
      (λ e. cc (e.0)) refl refl

abbrev request : Request
request = record { source = ascii "1.2.3.4"; authentication = true; now = 102 * second }

retry_honoured_example :
    (1 ≤ (allow busy (ascii "1.2.3.4") true (101 * second)).2)
    × ((allow
          (after (allow busy (ascii "1.2.3.4") true (101 * second)).0 (request ∷ request ∷ []))
          (ascii "1.2.3.4")
          true
          (160 * second)).1
        ≡ true)
unfolding lookup prefix text_eq allow
retry_honoured_example =
    retry_honoured busy (ascii "1.2.3.4") true (101 * second) (160 * second) opened
      (request ∷ request ∷ []) refl refl (omega arith, (omega arith, tt)) (omega arith)

abbrev idle : RateLimiter
unfolding new_rate_limiter
idle = new_rate_limiter 5 2

window_quota_example :
    1
      + served
          (allow idle (ascii "1.2.3.4") true (100 * second)).0
          (ascii "1.2.3.4")
          true
          (request ∷ request ∷ [])
    ≤ 2
unfolding limit_of lookup allow idle
window_quota_example =
    window_quota idle (ascii "1.2.3.4") true (100 * second) (request ∷ request ∷ []) (omega arith)
      (λ w found. absurd (ground arith)) refl (omega arith, (omega arith, tt))
