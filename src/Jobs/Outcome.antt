-- ===== src/Jobs/Outcome.antt =====
-- What a result does to a job: retries with growing delays, the final failure, the stored category.
use dynamis_code_apps_templa.Prelude.{
  ℕ, zero, suc, ◌+◌, ◌*◌, ◌^◌, ◌<◌, ◌≤◌, ◌≡◌, refl, true, false, ◌⊎◌, ◌||◌, ◌&&◌, inl, inr, some,
  [], ◌∷◌, Text, ascii, arith, All, length, all, leb, ltb, ◌==◌, Bool-cases,
}
use dynamis_code_apps_templa.Clock.{second}
use dynamis_code_apps_templa.Clock.Order.{stamp_leb-lt, stamp_leb_later}
use dynamis_code_apps_templa.Schema.{JobRow}
use dynamis_code_apps_templa.Jobs.Table.{
  JobError, failure, other_error, due, end_lease, outcome, retry_delay, failure_category,
  valid_category,
}

-- The delays before the second, third, fourth and fifth attempt.
retry_delay_lem : (a : ℕ) → a < 4 → retry_delay (suc a) ≡ 2 ^ a * second
unfolding retry_delay
retry_delay_lem zero h = refl
retry_delay_lem (suc zero) h = refl
retry_delay_lem (suc (suc zero)) h = refl
retry_delay_lem (suc (suc (suc zero))) h = refl
retry_delay_lem (suc (suc (suc (suc a)))) h = omega arith

-- After the (a + 1)-th failed attempt of at most four the job waits for 2 ^ a seconds, to within the
-- second by which the trimmed texts of times may be out of order; then it is due again.
pub retry_backoff :
    (a : ℕ) (e : JobError) (now t : ℕ) (r : JobRow)
    → a < 4
    → (t + second ≤ now + 2 ^ a * second
        → due t (end_lease (outcome (suc a) (some e) now) now r) ≡ false)
      × (now + 2 ^ a * second + second ≤ t
          → due t (end_lease (outcome (suc a) (some e) now) now r) ≡ true)
unfolding outcome due
retry_backoff a e now t r h = ground (
  arith,
  retry_delay_lem a h,
  stamp_leb-lt (now + 2 ^ a * second) t,
  stamp_leb_later (now + 2 ^ a * second) t,
)

abbrev pub IsCategoryByte : ℕ → Type 0
IsCategoryByte c = (b'a' ≤ c) × (c ≤ b'z') ⊎ (c ≡ b'-')

all_category :
    (s : Text) → all (λ c. (leb b'a' c && leb c b'z') || c == b'-') s ≡ true → All IsCategoryByte s
all_category [] h = tt
all_category (c ∷ s) h = (ground arith, all_category s (ground arith))

handler_error : all (λ c. (leb b'a' c && leb c b'z') || c == b'-') (ascii "handler-error") ≡ true
handler_error = refl

valid_category-safe :
    (c : Text) → valid_category c ≡ true → (0 < length c) × (length c ≤ 64) × All IsCategoryByte c
unfolding valid_category
valid_category-safe [] v = cc
valid_category-safe (b ∷ c) v = elim (Bool-cases (ltb 64 (length (b ∷ c)))) [
  | inl long ↦ let no : false ≡ true = rw long at v in cc no
  | inr short ↦ (omega arith, ground arith, all_category (b ∷ c) (rw short at v))
]

-- Whatever error a handler returns, the stored category has 1 to 64 bytes, each a small letter or a
-- dash.
pub failure_category_safe :
    (e : JobError)
    → (0 < length (failure_category e))
      × (length (failure_category e) ≤ 64)
      × All IsCategoryByte (failure_category e)
unfolding failure_category
failure_category_safe other_error =
    (omega arith, omega arith, all_category (ascii "handler-error") handler_error)
failure_category_safe (failure category) = elim (Bool-cases (valid_category category)) [
  | inl valid ↦ rw valid (valid_category-safe category valid)
  | inr invalid ↦
      rw invalid (omega arith, omega arith, all_category (ascii "handler-error") handler_error)
]
