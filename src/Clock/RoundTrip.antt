-- ===== src/Clock/RoundTrip.antt =====
-- Parsing a time's text gives the time back, for both layouts.
use native.Mathlib.Nat.{div-add-mod'}
use dynamis_code_apps_templa.Prelude.{
  ℕ, ◌+◌, ◌*◌, ◌/◌, ◌%◌, ◌<◌, ◌≡◌, refl, ap, ◌∙◌, true, some, [], ◌∷◌, ◌++◌, Text, arith, All,
  is_nil, inl, inr, Bool-cases, ◌==◌, ◌&&◌, if◌then◌else◌,
}
use dynamis_code_apps_templa.Clock.{second, timestamp, stamp, fraction, parse_fraction, parse_stamp}
use dynamis_code_apps_templa.Clock.Digits.{
  digits, strip, tens, is_digit, parse_digits, parse_digits-digits, parse_digits-strip, digits-All,
}

parse_fraction-fraction :
    (ds : Text)
    → All (λ c. is_digit c ≡ true) ds
    → parse_fraction (fraction ds) ≡ parse_digits 9 (ds ++ b'Z' ∷ [])
unfolding parse_fraction fraction parse_digits
parse_fraction-fraction [] h = refl
parse_fraction-fraction (d ∷ ds) h = ground (arith, h.0)

keep-All :
    (d : ℕ) (rest : Text)
    → is_digit d ≡ true
    → All (λ c. is_digit c ≡ true) rest
    → All (λ c. is_digit c ≡ true) (if is_nil rest && d == 48 then [] else d ∷ rest)
keep-All d [] h k = elim (Bool-cases (d == 48)) [
  | inl zero_digit ↦ rw zero_digit tt
  | inr other ↦ rw other (h, tt)
]
keep-All d (c ∷ rest) h k = (h, k)

strip-All : (s : Text) → All (λ c. is_digit c ≡ true) s → All (λ c. is_digit c ≡ true) (strip s)
unfolding strip
strip-All [] h = tt
strip-All (d ∷ s) h = keep-All d (strip s) h.0 (strip-All s h.1)

pub parse_strip-digits :
    (n : ℕ) → n < second → parse_digits 9 (strip (digits 9 n) ++ b'Z' ∷ []) ≡ some n
unfolding tens
parse_strip-digits n h =
    parse_digits-strip 9 (digits 9 n) (digits-All 9 n h) ∙ parse_digits-digits 9 n h

below : (t : ℕ) → t % second < second
below t = omega arith

with_seconds : (t : ℕ) → some (t / second * second + t % second) ≡ some t
with_seconds t = ap some (div-add-mod' t second)

parse_fraction-digits :
    (n : ℕ) → n < second → parse_fraction (b'.' ∷ digits 9 n ++ b'Z' ∷ []) ≡ some n
unfolding digits fraction tens
parse_fraction-digits n h =
    parse_fraction-fraction (digits 9 n) (digits-All 9 n h) ∙ parse_digits-digits 9 n h

parse_fraction-strip :
    (n : ℕ) → n < second → parse_fraction (fraction (strip (digits 9 n))) ≡ some n
unfolding tens
parse_fraction-strip n h =
    parse_fraction-fraction (strip (digits 9 n)) (strip-All (digits 9 n) (digits-All 9 n h))
    ∙ parse_strip-digits n h

-- A time's fixed-width text is parsed back to the time.
pub parse_stamp-timestamp : (t : ℕ) → parse_stamp (timestamp t) ≡ some t
parse_stamp-timestamp t =
    unfold parse_stamp timestamp in
    rw (parse_fraction-digits (t % second) (below t)) (with_seconds t)

-- A time's trimmed text is parsed back to the time.
pub parse_stamp-stamp : (t : ℕ) → parse_stamp (stamp t) ≡ some t
parse_stamp-stamp t =
    unfold parse_stamp stamp in rw (parse_fraction-strip (t % second) (below t)) (with_seconds t)

-- Parsing the text of a time gives the time back, nanoseconds included, in the fixed-width layout and
-- in the trimmed one.
pub parse_stamp-texts :
    (t : ℕ) → (parse_stamp (timestamp t) ≡ some t) × (parse_stamp (stamp t) ≡ some t)
parse_stamp-texts t = (parse_stamp-timestamp t, parse_stamp-stamp t)
