-- ===== src/Clock/Digits.antt =====
-- Decimal fractions of a second as digits, and back.
use Prim.Native.Nat.{◌-◌}
use mathlib.Core.Option
use native.Mathlib.Nat.{mod-lt, div-add-mod}
use dynamis_code_apps_templa.Prelude.{
  ℕ, zero, suc, ◌+◌, ◌*◌, ◌/◌, ◌%◌, ◌<◌, ◌≡◌, refl, ap, Bool, true, ◌&&◌, Option, none, some, [],
  ◌∷◌, ◌++◌, Text, text_leb, is_nil, leb, ◌==◌, if◌then◌else◌, arith, All, inl, inr, Bool-cases,
  text_leb_refl,
}

unfoldable pub tens : ℕ → ℕ
tens zero = 1
tens (suc k) = 10 * tens k

pub tens-pos : (k : ℕ) → 0 < tens k
unfolding tens
tens-pos zero = omega arith
tens-pos (suc k) = omega (arith, tens-pos k)

-- The k digits of n < tens k, the first one first.
unfoldable pub digits : ℕ → ℕ → Text
digits zero n = []
digits (suc k) n = (48 + n / tens k) ∷ digits k (n % tens k)

abbrev pub is_digit : ℕ → Bool
is_digit c = leb 48 c && leb c 57

-- A text without the zeros at its end.
unfoldable pub strip : Text → Text
strip [] = []
strip (d ∷ ds) = let rest = strip ds in if is_nil rest && d == 48 then [] else d ∷ rest

abbrev weight : ℕ → ℕ
weight zero = 0
weight (suc k) = tens k

-- Digits up to a closing Z. A digit behind the ninth has no weight.
unfoldable pub parse_digits : ℕ → Text → Option ℕ
parse_digits k [] = none
parse_digits k (c ∷ s) =
    let rest = parse_digits (k - 1) s in
    if c == b'Z'
    then (if is_nil s then some 0 else none)
    else if is_digit c
    then Option.map (λ v. (c - 48) * weight k + v) rest
    else none

pub div-tens-lt : (k n : ℕ) → n < tens (suc k) → n / tens k < 10
unfolding tens
div-tens-lt k n h = grind (arith, tens-pos k)

pub parse_digits-digits : (k n : ℕ) → n < tens k → parse_digits k (digits k n ++ b'Z' ∷ []) ≡ some n
unfolding parse_digits digits tens
parse_digits-digits zero n h = ground arith
parse_digits-digits (suc k) n h = ground (
  arith,
  div-tens-lt k n h,
  tens-pos k,
  parse_digits-digits k (n % tens k) (mod-lt _ (tens-pos k)),
)

-- One more digit in front of a text whose stripped form reads alike.
strip_step :
    (k d : ℕ) (rest s : Text)
    → is_digit d ≡ true
    → parse_digits (k - 1) (rest ++ b'Z' ∷ []) ≡ parse_digits (k - 1) (s ++ b'Z' ∷ [])
    → parse_digits k ((if is_nil rest && d == 48 then [] else d ∷ rest) ++ b'Z' ∷ [])
      ≡ parse_digits k (d ∷ s ++ b'Z' ∷ [])
unfolding parse_digits
strip_step k d [] s h e = elim (Bool-cases (d == 48)) [
  | inl zero_digit ↦ rw (zero_digit, ← e) (ground arith)
  | inr other ↦ rw (other, ← e) (ground arith)
]
strip_step k d (c ∷ rest) s h e = rw (← e) (ground arith)

pub parse_digits-strip :
    (k : ℕ) (s : Text)
    → All (λ c. is_digit c ≡ true) s
    → parse_digits k (strip s ++ b'Z' ∷ []) ≡ parse_digits k (s ++ b'Z' ∷ [])
unfolding parse_digits strip
parse_digits-strip k [] h = refl
parse_digits-strip k (d ∷ s) h = strip_step k d (strip s) s h.0 (parse_digits-strip (k - 1) s h.1)

pub digits-All : (k n : ℕ) → n < tens k → All (λ c. is_digit c ≡ true) (digits k n)
unfolding digits
digits-All zero n h = tt
digits-All (suc k) n h =
    (ground (arith, div-tens-lt k n h), digits-All k (n % tens k) (mod-lt _ (tens-pos k)))

lt_of_div_lt : (a b t : ℕ) → 0 < t → a / t < b / t → a < b
lt_of_div_lt a b t p h = grind arith

leb-mod : (a b t : ℕ) → 0 < t → a / t ≡ b / t → leb (a % t) (b % t) ≡ leb a b
leb-mod a b t p e = ground (arith, div-add-mod a t, div-add-mod b t, ap (λ (q : ℕ). t * q) e)

-- Byte order on digits of one length is the order of the numbers.
pub text_leb-digits :
    (k a b : ℕ) (s : Text)
    → a < tens k
    → b < tens k
    → text_leb (digits k a ++ s) (digits k b ++ s) ≡ leb a b
unfolding digits text_leb tens
text_leb-digits zero a b s h g = ground (arith, text_leb_refl s)
text_leb-digits (suc k) a b s h g = ground (
  arith,
  tens-pos k,
  text_leb-digits k (a % tens k) (b % tens k) s,
  mod-lt a (tens-pos k),
  mod-lt b (tens-pos k),
  lt_of_div_lt a b (tens k),
  lt_of_div_lt b a (tens k),
  leb-mod a b (tens k),
)
