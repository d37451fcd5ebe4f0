-- ===== src/Prelude/Counts.antt =====
-- How many rows pass a test, after an update, a deletion or an insertion.
use Prim.Native.Nat.{ℕ, ◌+◌, ◌≤◌}
use mathlib.Core.Path.{◌≡◌, refl}
use mathlib.Core.Logic.{inl, inr}
use mathlib.Core.Bool.{Bool, true, false, not}
use mathlib.Core.Option.{some}
use mathlib.Core.List.{List, [], ◌∷◌, ◌++◌}
use native.Mathlib.Omega.{arith}
use dynamis_code_apps_templa.Prelude.Tests.{Bool-cases}
use dynamis_code_apps_templa.Prelude.Lists.{
  count, any, find, filter, update_where, update_where-none,
}

abbrev pub one : Bool → ℕ
one true = 1
one false = 0

pub one-le : (b : Bool) → one b ≤ 1
one-le true = omega arith
one-le false = omega arith

-- What an update or a deletion of the one row that passes p does to the number of rows that pass q.
module _ {A : Type 0} (p q : A → Bool) where
  pub count-update_where :
      (f : A → A) (xs : List A) {x : A}
      → count p xs ≤ 1
      → find p xs ≡ some x
      → count q (update_where p f xs) + one (q x) ≡ count q xs + one (q (f x))
  count-update_where f [] few h = absurd (ground arith)
  count-update_where f (y ∷ ys) {x} few h = elim (Bool-cases (p y)) [
    | inl hit ↦
        let none_left = update_where-none p f ys (ground arith) in
        let same : y ≡ x = ground arith in rw (hit, none_left, ← same) (ground arith)
    | inr other ↦
        let rest = count-update_where f ys {x = x} (ground arith) (ground arith) in ground arith
  ]

  pub count-filter-none :
      (xs : List A) → count p xs ≡ 0 → count q (filter (λ x. not (p x)) xs) ≡ count q xs
  count-filter-none [] h = refl
  count-filter-none (y ∷ ys) h = ground (arith, count-filter-none ys)

  pub count-filter :
      (xs : List A) {x : A}
      → count p xs ≤ 1
      → find p xs ≡ some x
      → count q (filter (λ y. not (p y)) xs) + one (q x) ≡ count q xs
  count-filter [] few h = absurd (ground arith)
  count-filter (y ∷ ys) {x} few h = elim (Bool-cases (p y)) [
    | inl hit ↦
        let none_left = count-filter-none ys (ground arith) in
        let same : y ≡ x = ground arith in rw (hit, ← same) (ground arith)
    | inr other ↦ let rest = count-filter ys {x = x} (ground arith) (ground arith) in ground arith
  ]

  pub count-append : (xs : List A) (y : A) → count q (xs ++ y ∷ []) ≡ count q xs + one (q y)
  count-append [] y = ground arith
  count-append (x ∷ xs) y = ground (arith, count-append xs y)

  pub count-update_where-same :
      (f : A → A)
      → ((x : A) → q (f x) ≡ q x)
      → (xs : List A) → count q (update_where p f xs) ≡ count q xs
  count-update_where-same f same [] = refl
  count-update_where-same f same (x ∷ xs) =
      ground (arith, same x, count-update_where-same f same xs)

  pub count-filter-le : (xs : List A) → count q (filter p xs) ≤ count q xs
  count-filter-le [] = ground arith
  count-filter-le (x ∷ xs) = ground (arith, count-filter-le xs)

  pub count-any-none : (xs : List A) → any p xs ≡ false → count p xs ≡ 0
  count-any-none [] h = refl
  count-any-none (x ∷ xs) h = ground (arith, count-any-none xs)

  pub count-find : (xs : List A) {x : A} → find p xs ≡ some x → q x ≡ true → 1 ≤ count q xs
  count-find [] h k = absurd (ground arith)
  count-find (y ∷ ys) {x} h k = ground (arith, count-find ys {x = x})

  -- An update leaves the first row that passes q, where no row that passes q is written.
  pub find-update_where :
      (f : A → A)
      → ((x : A) → q x ≡ true → p x ≡ false)
      → ((x : A) → q (f x) ≡ q x)
      → (xs : List A) → find q (update_where p f xs) ≡ find q xs
  find-update_where f apart same [] = refl
  find-update_where f apart same (x ∷ xs) =
      ground (arith, apart x, same x, find-update_where f apart same xs)
