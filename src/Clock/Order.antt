-- ===== src/Clock/Order.antt =====
-- What the database's comparison of two texts says of the times.
use dynamis_code_apps_templa.Prelude.{
  ℕ, ◌+◌, ◌*◌, ◌/◌, ◌%◌, ◌<◌, ◌≤◌, ◌≡◌, refl, true, false, [], ◌∷◌, ◌++◌, Text, arith, leb,
  text_leb, some, ◌≢◌,
}
use dynamis_code_apps_templa.Clock.{second, timestamp, stamp, fraction, stamp_leb}
use dynamis_code_apps_templa.Clock.Digits.{digits, strip, tens, parse_digits, text_leb-digits}
use dynamis_code_apps_templa.Clock.RoundTrip.{parse_strip-digits}

-- Fixed-width texts compare as the times do.
pub stamp_leb-timestamp : (a b : ℕ) → stamp_leb (timestamp a) (timestamp b) ≡ leb a b
unfolding stamp_leb timestamp tens text_leb
stamp_leb-timestamp a b = ground (arith, text_leb-digits 9 (a % second) (b % second) (b'Z' ∷ []))

-- Trimmed texts compare as the whole seconds do, where these differ.
pub stamp_leb-lt : (a b : ℕ) → stamp_leb (stamp a) (stamp b) ≡ true → a < b + second
unfolding stamp_leb stamp
stamp_leb-lt a b h = ground arith

pub stamp_leb_later : (a b : ℕ) → a + second ≤ b → stamp_leb (stamp a) (stamp b) ≡ true
unfolding stamp_leb stamp
stamp_leb_later a b h = ground arith

-- The order of trimmed texts is right to within a second: a text that is not after another stands for a
-- time less than a second after the other's, and a time at least a second earlier has the smaller text.
pub stamp_leb_bounds :
    (a b : ℕ)
    → (stamp_leb (stamp a) (stamp b) ≡ true → a < b + second)
      × (a + second ≤ b → stamp_leb (stamp a) (stamp b) ≡ true)
stamp_leb_bounds a b = (stamp_leb-lt a b, stamp_leb_later a b)

-- Of a fraction above 0 some digit is left.
strip-ne-nil : (n : ℕ) → n < second → 0 < n → strip (digits 9 n) ≢ []
unfolding parse_digits
strip-ne-nil n h p e =
    let parsed : parse_digits 9 (strip (digits 9 n) ++ b'Z' ∷ []) ≡ some n =
      parse_strip-digits n h in
    ground (arith, rw e at parsed)

fraction-leb : (ds : Text) → ds ≢ [] → text_leb (fraction []) (fraction ds) ≡ false
unfolding text_leb fraction
fraction-leb [] h = absurd (h refl)
fraction-leb (d ∷ ds) h = refl

no_digits : strip (digits 9 0) ≡ []
unfolding strip digits tens
no_digits = refl

-- The text of a whole second sorts behind every later text of the same second.
pub stamp_leb_whole :
    (s n : ℕ) → 0 < n → n < second → stamp_leb (stamp (s * second)) (stamp (s * second + n)) ≡ false
unfolding stamp_leb stamp
stamp_leb_whole s n p h =
    let whole : s * second % second ≡ 0 = omega arith in
    let part : (s * second + n) % second ≡ n = omega arith in
    let same : (s * second + n) / second ≡ s * second / second = omega arith in
    rw (whole, part, same, no_digits)
      (ground (arith, fraction-leb (strip (digits 9 n)) (strip-ne-nil n h p)))
