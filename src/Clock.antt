-- ===== src/Clock.antt =====
-- Points in time and their texts: `timestamp` (internal/identity/service.go), `formatTime`
-- (internal/items/service.go) and `stamp` (internal/jobs/queue.go, internal/sharing/service.go).
--
-- A time is a number of nanoseconds. Of its text, the date and the time of day have a fixed width
-- and are kept as the number of whole seconds; what follows the seconds is kept byte by byte.
pub mod Digits
pub mod Order
pub mod RoundTrip
mod Tests
use dynamis_code_apps_templa.Prelude.{
  ℕ, ◌+◌, ◌*◌, ◌/◌, ◌%◌, ◌≡◌, refl, Bool, ◌&&◌, ◌||◌, Option, none, some, [], ◌∷◌, ◌++◌, Text,
  text_leb, is_nil, ltb, ◌==◌, if◌then◌else◌,
}
use mathlib.Core.Option
use Digits.{digits, strip, parse_digits, is_digit}

abbrev pub second : ℕ
second = 1000000000

pub record Stamp : Type 0 where
  pub sec : ℕ
  pub frac : Text

-- Layout "2006-01-02T15:04:05.000000000Z": nine digits, always.
unfoldable pub timestamp : ℕ → Stamp
timestamp t = record { sec = t / second; frac = b'.' ∷ digits 9 (t % second) ++ b'Z' ∷ [] }

-- Layout time.RFC3339Nano: zeros at the end are dropped, and the point with the last of them.
fraction : Text → Text
fraction [] = b'Z' ∷ []
fraction (d ∷ ds) = b'.' ∷ d ∷ ds ++ b'Z' ∷ []

unfoldable pub stamp : ℕ → Stamp
unfolding fraction
stamp t = record { sec = t / second; frac = fraction (strip (digits 9 (t % second))) }

-- The database compares two such texts byte by byte.
unfoldable pub stamp_leb : Stamp → Stamp → Bool
stamp_leb a b = ltb a.sec b.sec || (a.sec == b.sec && text_leb a.frac b.frac)

-- `time.Parse(time.RFC3339Nano, …)`, behind the seconds.
parse_fraction : Text → Option ℕ
parse_fraction [] = none
parse_fraction (c ∷ []) = if c == b'Z' then some 0 else none
parse_fraction (c ∷ d ∷ s) = if c == b'.' && is_digit d then parse_digits 9 (d ∷ s) else none

unfoldable pub parse_stamp : Stamp → Option ℕ
unfolding parse_fraction
parse_stamp s = Option.map (λ n. s.sec * second + n) (parse_fraction s.frac)
