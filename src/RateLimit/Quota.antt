-- ===== src/RateLimit/Quota.antt =====
-- How many requests of a source one window lets through.
use dynamis_code_apps_templa.Prelude.{
  ℕ, suc, ◌+◌, ◌-◌, ◌≤◌, ◌<◌, ◌≡◌, refl, Bool, true, false, ◌&&◌, Option, none, some, List, ◌++◌,
  ◌∷◌, [], Text, lookup, arith, lookup-insert, text_eq, text_eq_iff, inl, inr, ◌⊎◌, All,
  if◌then◌else◌, leb, Option-cases, Bool-cases, not, text_eq_refl,
}
use dynamis_code_apps_templa.RateLimit.{
  RateWindow, RateLimiter, prefix, limit_of, expired, allow, allow_key, use_window, admit_source,
  start_window, is_full, remove_expired,
}
use dynamis_code_apps_templa.RateLimit.Bounds.{allow_other}

pub record Request : Type 0 where
  pub source : Text
  pub authentication : Bool
  pub now : ℕ

abbrev pub same_class : Bool → Bool → Bool
same_class true c = c
same_class false c = not c

abbrev pub is_from : Text → Bool → Text → Bool → Bool
is_from source authentication s c = same_class c authentication && text_eq s source

-- How many of the requests of one source and class the limiter lets through.
unfoldable pub served : RateLimiter → Text → Bool → List Request → ℕ
served limiter source authentication [] = 0
served limiter source authentication (r ∷ rs) =
    let step = allow limiter r.source r.authentication r.now in
    let rest = served step.0 source authentication rs in
    if step.1 && is_from source authentication r.source r.authentication then suc rest else rest

record SameLimits (a b : RateLimiter) : Type 0 where
  window : a.window ≡ b.window
  ordinary : a.ordinary ≡ b.ordinary
  auth : a.auth ≡ b.auth

allow_key-SameLimits :
    (limiter : RateLimiter) (key : Text) (limit now : ℕ) (found : Option RateWindow)
    → SameLimits (allow_key limiter key limit now found).0 limiter
unfolding allow_key
allow_key-SameLimits limiter key limit now none = ground arith
allow_key-SameLimits limiter key limit now (some w) = ground arith

allow-SameLimits :
    (limiter : RateLimiter) (source : Text) (authentication : Bool) (now : ℕ)
    → SameLimits (allow limiter source authentication now).0 limiter
unfolding allow
allow-SameLimits limiter source authentication now = allow_key-SameLimits limiter _ _ now _

module _ (limiter : RateLimiter) (source : Text) (authentication : Bool) (now : ℕ) (w : RateWindow)
    (found : lookup (prefix authentication ++ source) limiter.windows ≡ some w) where
  -- A source that has a window uses it.
  pub allow_lem :
      allow limiter source authentication now
      ≡ use_window limiter (prefix authentication ++ source) (limit_of limiter authentication) now w
  unfolding allow
  allow_lem = rw found refl

  -- A request in a window that is not over is counted, or refused where the limit is reached.
  allow_live :
      now - w.started < limiter.window
      → ((allow limiter source authentication now).1 ≡ true)
          × (w.count < limit_of limiter authentication)
          × (lookup
                (prefix authentication ++ source)
                (allow limiter source authentication now).0.windows
              ≡ some (record w { count = w.count + 1 }))
        ⊎ ((allow limiter source authentication now).1 ≡ false)
          × (lookup
                (prefix authentication ++ source)
                (allow limiter source authentication now).0.windows
              ≡ some w)
  unfolding use_window
  allow_live live = rw allow_lem (
      ground (
        arith,
        found,
        lookup-insert (prefix authentication ++ source) (prefix authentication ++ source)
            (record w { count = w.count + 1 }) limiter.windows,
        text_eq_refl (prefix authentication ++ source),
      ))

pub limits_kept :
    (limiter : RateLimiter) (source : Text) (class : Bool) (now : ℕ) (authentication : Bool)
    → (limit_of (allow limiter source class now).0 authentication ≡ limit_of limiter authentication)
      × ((allow limiter source class now).0.window ≡ limiter.window)
unfolding limit_of
limits_kept limiter source class now authentication =
    ground (arith, allow-SameLimits limiter source class now)

-- One request, seen from an open window: it is counted there, or it leaves the window alone.
pub next :
    (limiter : RateLimiter) (source : Text) (authentication : Bool) (w : RateWindow) (s : Text)
    (class : Bool) (now : ℕ)
    → lookup (prefix authentication ++ source) limiter.windows ≡ some w
    → now - w.started < limiter.window
    → (lookup (prefix authentication ++ source) (allow limiter s class now).0.windows
          ≡ some (record w { count = w.count + 1 }))
        × (((allow limiter s class now).1 && is_from source authentication s class) ≡ true)
        × (w.count < limit_of limiter authentication)
      ⊎ (lookup (prefix authentication ++ source) (allow limiter s class now).0.windows ≡ some w)
        × (((allow limiter s class now).1 && is_from source authentication s class) ≡ false)
next limiter source authentication w s class now found live =
    elim (Bool-cases (is_from source authentication s class)) [
      | inl own ↦
          let same_source : s ≡ source = ground (arith, text_eq_iff s source) in
          let same : class ≡ authentication = ground arith in
          rw (same_source, same)
            (ground (
              arith,
              allow_live limiter source authentication now w found live,
              text_eq_refl source,
            ))
      | inr other ↦ inr (
        allow_other limiter s class now source authentication w
            (λ e. ground (arith, text_eq_iff s source, e.0, e.1)) found
            (unfold expired in ground arith),
        rw other (ground arith),
      )
    ]

-- What an open window has left.
window_rest :
    (limiter : RateLimiter) (source : Text) (authentication : Bool) (w : RateWindow)
    (requests : List Request)
    → lookup (prefix authentication ++ source) limiter.windows ≡ some w
    → w.count ≤ limit_of limiter authentication
    → All (λ r. r.now - w.started < limiter.window) requests
    → w.count + served limiter source authentication requests ≤ limit_of limiter authentication
unfolding served
window_rest limiter source authentication w [] found fits open_window = omega arith
window_rest limiter source authentication w (r ∷ rs) found fits open_window =
    let step = allow limiter r.source r.authentication r.now in
    let limits = limits_kept limiter r.source r.authentication r.now authentication in
    elim (next limiter source authentication w r.source r.authentication r.now found
      open_window.0) [
        | inl counted ↦ rw counted.1 (
            omega (
              arith,
              limits.0,
              window_rest step.0 source authentication (record w { count = w.count + 1 }) rs
                  counted.0 (omega (arith, limits.0, counted.2)) (rw limits.1 open_window.1),
            ))
        | inr passed ↦ rw passed.1 (
            omega (
              arith,
              limits.0,
              window_rest step.0 source authentication w rs passed.0 (omega (arith, limits.0))
                  (rw limits.1 open_window.1),
            ))
      ]

-- No window of the source and class is open: it has none, or its last one is over.
abbrev pub HasNoWindow : RateLimiter → Text → Bool → ℕ → Type 0
HasNoWindow limiter source authentication now =
    (w : RateWindow)
    → lookup (prefix authentication ++ source) limiter.windows ≡ some w
    → limiter.window ≤ now - w.started

start_window-lookup :
    (limiter : RateLimiter) (key : Text) (now : ℕ)
    → lookup key (start_window limiter key now).0.windows
      ≡ some (record { started = now; count = 1 })
start_window-lookup limiter key now =
    rw
      (
        lookup-insert key key (record { started = now; count = 1 }) limiter.windows,
        text_eq_refl key,
      )
      refl

-- A request that is let through where no window is open opens one, and is counted in it.
opened :
    (limiter : RateLimiter) (source : Text) (authentication : Bool) (now : ℕ)
    → HasNoWindow limiter source authentication now
    → (allow limiter source authentication now).1 ≡ true
    → lookup (prefix authentication ++ source) (allow limiter source authentication now).0.windows
      ≡ some (record { started = now; count = 1 })
unfolding allow allow_key admit_source use_window expired
opened limiter source authentication now closed let_in =
    let key = prefix authentication ++ source in
    elim (Option-cases (lookup key limiter.windows)) [
      | inl absent ↦ elim (Bool-cases (is_full limiter)) [
        | inr room ↦ rw (absent, room) (start_window-lookup limiter key now)
        | inl full ↦ elim (Bool-cases (is_full (remove_expired limiter now))) [
          | inr room ↦
              rw (absent, full, room) (start_window-lookup (remove_expired limiter now) key now)
          | inl still_full ↦
              let no : false ≡ true = rw (absent, full, still_full) at let_in in cc no
        ]
      ]
      | inr (w, found) ↦
          let over : leb limiter.window (now - w.started) ≡ true = ground (arith, closed w found) in
          rw (found, over) (start_window-lookup limiter key now)
    ]

-- A window lets at most the limit of its class through. Where no window of a source and class is open, a
-- request of it that is let through opens one; that request and those of the source and class that are
-- let through in the window's length from then on, whatever other requests come in between, are together
-- at most the limit, which is at least 1.
pub window_quota :
    (limiter : RateLimiter) (source : Text) (authentication : Bool) (now : ℕ)
    (requests : List Request)
    → 1 ≤ limit_of limiter authentication
    → HasNoWindow limiter source authentication now
    → (allow limiter source authentication now).1 ≡ true
    → All (λ r. r.now - now < limiter.window) requests
    → 1 + served (allow limiter source authentication now).0 source authentication requests
      ≤ limit_of limiter authentication
window_quota limiter source authentication now requests some_limit closed let_in in_time =
    let limits = limits_kept limiter source authentication now authentication in
    omega (
      arith,
      limits.0,
      window_rest (allow limiter source authentication now).0 source authentication
          (record { started = now; count = 1 }) requests
          (opened limiter source authentication now closed let_in) (omega (arith, limits.0))
          (rw limits.1 in_time),
    )
