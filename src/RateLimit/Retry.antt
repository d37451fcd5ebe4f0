-- ===== src/RateLimit/Retry.antt =====
-- What a refusal of the limiter promises.
use dynamis_code_apps_templa.Prelude.{
  ℕ, ◌+◌, ◌-◌, ◌*◌, ◌≤◌, ◌<◌, ◌≡◌, refl, ◌∙◌, Bool, true, false, some, List, ◌++◌, ◌∷◌, [], Text,
  lookup, arith, inl, inr, All,
}
use dynamis_code_apps_templa.Clock.{second}
use dynamis_code_apps_templa.RateLimit.{
  RateWindow, RateLimiter, prefix, limit_of, expired, retry_after, allow, use_window,
}
use dynamis_code_apps_templa.RateLimit.Quota.{Request, allow_lem, limits_kept, next}

-- A source that has a window is refused only while the window is open and used up, and nothing changes.
refused_lem :
    (limiter : RateLimiter) (source : Text) (authentication : Bool) (now : ℕ) (w : RateWindow)
    → lookup (prefix authentication ++ source) limiter.windows ≡ some w
    → (allow limiter source authentication now).1 ≡ false
    → (allow limiter source authentication now ≡ (limiter, false, retry_after limiter.window now w))
      × (now - w.started < limiter.window)
      × (limit_of limiter authentication ≤ w.count)
unfolding use_window
refused_lem limiter source authentication now w found refused =
    let same = allow_lem limiter source authentication now w found in
    let kept : (use_window limiter (prefix authentication ++ source)
          (limit_of limiter authentication) now w).1
        ≡ false =
      rw same at refused in
    rw same (ground arith)

retry_after_enough :
    (window now later : ℕ) (w : RateWindow)
    → now + retry_after window now w * second ≤ later
    → expired window later w ≡ true
unfolding retry_after expired
retry_after_enough window now later w h = ground arith

-- The limiter behind some requests.
unfoldable pub after : RateLimiter → List Request → RateLimiter
unfolding allow
after limiter [] = limiter
after limiter (r ∷ rs) = after (allow limiter r.source r.authentication r.now).0 rs

-- A window that is used up stays as it is while it is open.
used_up :
    (limiter : RateLimiter) (source : Text) (authentication : Bool) (w : RateWindow)
    (requests : List Request)
    → lookup (prefix authentication ++ source) limiter.windows ≡ some w
    → limit_of limiter authentication ≤ w.count
    → All (λ r. r.now - w.started < limiter.window) requests
    → (lookup (prefix authentication ++ source) (after limiter requests).windows ≡ some w)
      × ((after limiter requests).window ≡ limiter.window)
unfolding after
used_up limiter source authentication w [] found full open_window = (found, refl)
used_up limiter source authentication w (r ∷ rs) found full open_window =
    let step = allow limiter r.source r.authentication r.now in
    let limits = limits_kept limiter r.source r.authentication r.now authentication in
    elim (next limiter source authentication w r.source r.authentication r.now found
      open_window.0) [
        | inl counted ↦ absurd (omega (arith, counted.2))
        | inr passed ↦
            let (same, window) =
              used_up step.0 source authentication w rs passed.0 (omega (arith, limits.0))
                (rw limits.1 open_window.1) in
            (same, window ∙ limits.1)
      ]

-- A source whose open window is used up is told to come back after at least one second, and a
-- request that it makes when the seconds of the refusal are over is let through, whatever requests, its
-- own or others', come in between while that window is open. Between its end and the request none
-- comes: one could sweep the window away and leave the table full of other sources.
pub retry_honoured :
    (limiter : RateLimiter) (source : Text) (authentication : Bool) (now later : ℕ) (w : RateWindow)
    (requests : List Request)
    → lookup (prefix authentication ++ source) limiter.windows ≡ some w
    → (allow limiter source authentication now).1 ≡ false
    → All (λ r. r.now - w.started < limiter.window) requests
    → now + (allow limiter source authentication now).2 * second ≤ later
    → (1 ≤ (allow limiter source authentication now).2)
      × ((allow
            (after (allow limiter source authentication now).0 requests)
            source
            authentication
            later).1
          ≡ true)
retry_honoured limiter source authentication now later w requests found refused open_window waited =
    let (e, _, full) = refused_lem limiter source authentication now w found refused in
    let late : expired limiter.window later w ≡ true =
      retry_after_enough limiter.window now later w (rw e at waited) in
    let (same, window) = used_up limiter source authentication w requests found full open_window in
    let behind = after limiter requests in
    let late' : expired behind.window later w ≡ true = rw window late in
    (
      rw e (unfold retry_after in ground arith),
      rw (e, allow_lem behind source authentication later w same)
          (unfold use_window in ground (arith, late')),
    )
