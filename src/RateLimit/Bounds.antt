-- ===== src/RateLimit/Bounds.antt =====
-- The table of windows stays within its bound, and sources do not disturb one another.
use dynamis_code_apps_templa.Prelude.{
  ℕ, ◌+◌, ◌≤◌, ◌≡◌, ◌≢◌, refl, Bool, true, false, Option, none, some, ◌++◌, ◌∷◌, [], Text, lookup,
  keep, length, arith, not, lookup-insert, length-insert, length-keep, lookup-keep, text_eq_iff,
  sym, ap,
}
use dynamis_code_apps_templa.RateLimit.{
  RateWindow, RateLimiter, maximum_rate_limit_sources, prefix, expired, remove_expired, allow,
  allow_key,
}

allow_key_bound :
    (limiter : RateLimiter) (key : Text) (limit now : ℕ) (found : Option RateWindow)
    → lookup key limiter.windows ≡ found
    → length limiter.windows ≤ maximum_rate_limit_sources
    → length (allow_key limiter key limit now found).0.windows ≤ maximum_rate_limit_sources
unfolding allow_key remove_expired
allow_key_bound limiter key limit now none e h = ground (
  arith,
  length-keep (λ w. not (expired limiter.window now w)) limiter.windows,
  length-insert key (record { started = now; count = 1 }) limiter.windows,
  length-insert key (record { started = now; count = 1 })
      (keep (λ w. not (expired limiter.window now w)) limiter.windows),
)
allow_key_bound limiter key limit now (some w) e h = ground (
  arith,
  length-insert key (record { started = now; count = 1 }) limiter.windows,
  length-insert key (record w { count = w.count + 1 }) limiter.windows,
)

-- Whatever the request, at most 4096 sources are remembered afterwards if at most so many were.
pub allow_bound :
    (limiter : RateLimiter) (source : Text) (authentication : Bool) (now : ℕ)
    → length limiter.windows ≤ maximum_rate_limit_sources
    → length (allow limiter source authentication now).0.windows ≤ maximum_rate_limit_sources
unfolding allow
allow_bound limiter source authentication now h =
    allow_key_bound limiter _ _ now (lookup _ limiter.windows) refl h

other_key :
    (limiter : RateLimiter) (key : Text) (limit now : ℕ) (found : Option RateWindow) (j : Text)
    (w : RateWindow)
    → key ≢ j
    → lookup j limiter.windows ≡ some w
    → expired limiter.window now w ≡ false
    → lookup j (allow_key limiter key limit now found).0.windows ≡ some w
unfolding allow_key remove_expired
other_key limiter key limit now none j w ne h live =
    let fresh : RateWindow = record { started = now; count = 1 } in
    let live_only : RateWindow → Bool = λ v. not (expired limiter.window now v) in
    ground (
      arith,
      text_eq_iff key j,
      lookup-insert key j fresh limiter.windows,
      lookup-insert key j fresh (keep live_only limiter.windows),
      lookup-keep live_only j limiter.windows w,
    )
other_key limiter key limit now (some v) j w ne h live = ground (
  arith,
  text_eq_iff key j,
  lookup-insert key j (record { started = now; count = 1 }) limiter.windows,
  lookup-insert key j (record v { count = v.count + 1 }) limiter.windows,
)

abbrev first : Text → ℕ
first [] = 0
first (b ∷ s) = b

-- The two classes of requests never share a key.
pub prefix_injective : (a b : Bool) (s t : Text) → prefix a ++ s ≡ prefix b ++ t → (a ≡ b) × (s ≡ t)
unfolding prefix
prefix_injective true true s t h = (refl, cc)
prefix_injective false false s t h = (refl, cc)
prefix_injective true false s t h = absurd (omega (arith, ap first h))
prefix_injective false true s t h = absurd (omega (arith, ap first h))

-- A request of another source, or of the other class, leaves a window that is not over as it is.
pub allow_other :
    (limiter : RateLimiter) (source : Text) (authentication : Bool) (now : ℕ) (other : Text)
    (class : Bool) (w : RateWindow)
    → ¬ ((class ≡ authentication) × (other ≡ source))
    → lookup (prefix class ++ other) limiter.windows ≡ some w
    → expired limiter.window now w ≡ false
    → lookup (prefix class ++ other) (allow limiter source authentication now).0.windows ≡ some w
unfolding allow
allow_other limiter source authentication now other class w ne h live =
    other_key limiter (prefix authentication ++ source) _ now _ (prefix class ++ other) w
      (λ e. ne (prefix_injective class authentication other source (sym e))) h live
