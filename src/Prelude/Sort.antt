-- ===== src/Prelude/Sort.antt =====
-- Sorting by insertion, for a test of order that is total and transitive.
use Prim.Native.Nat.{suc}
use mathlib.Core.Path.{◌≡◌, refl, ap, ◌∙◌}
use mathlib.Core.Logic.{◌⊎◌, inl, inr}
use mathlib.Core.Bool.{Bool, true, false, ◌&&◌, not}
use mathlib.Core.List.{List, [], ◌∷◌, ◌++◌}
use native.Mathlib.Omega.{arith}
use dynamis_code_apps_templa.Prelude.Tests.{if◌then◌else◌, Bool-cases}
use dynamis_code_apps_templa.Prelude.Lists.{filter, length, All, All-map}

module _ {A : Type 0} (before : A → A → Bool) where
  unfoldable pub insert : A → List A → List A
  insert x [] = x ∷ []
  insert x (d ∷ ds) = let rest = insert x ds in if before x d then x ∷ d ∷ ds else d ∷ rest

  unfoldable pub sort : List A → List A
  unfolding insert
  sort [] = []
  sort (x ∷ xs) = insert x (sort xs)

  -- Each element stands strictly before those behind it.
  abbrev pub Strict : List A → Type 0
  Strict [] = Unit
  Strict (x ∷ xs) = All (λ y. before y x ≡ false) xs × Strict xs

  -- No two elements stand before each other.
  abbrev pub Distinct : List A → Type 0
  Distinct [] = Unit
  Distinct (x ∷ xs) = All (λ y. (before x y && before y x) ≡ false) xs × Distinct xs

pub All-filter :
    {A : Type 0} (P : A → Type 0) (p : A → Bool) (xs : List A) → All P xs → All P (filter p xs)
All-filter P p [] h = tt
All-filter P p (x ∷ xs) h = elim (Bool-cases (p x)) [
  | inl taken ↦ rw taken (h.0, All-filter P p xs h.1)
  | inr left ↦ rw left (All-filter P p xs h.1)
]

module _ {A : Type 0} (before : A → A → Bool) where
  pub Distinct-filter :
      (p : A → Bool) (xs : List A) → Distinct before xs → Distinct before (filter p xs)
  Distinct-filter p [] h = tt
  Distinct-filter p (x ∷ xs) h = elim (Bool-cases (p x)) [
    | inl taken ↦ rw taken (All-filter _ p xs h.0, Distinct-filter p xs h.1)
    | inr left ↦ rw left (Distinct-filter p xs h.1)
  ]

  All-insert : (P : A → Type 0) (x : A) (xs : List A) → P x → All P xs → All P (insert before x xs)
  unfolding insert
  All-insert P x [] h k = (h, tt)
  All-insert P x (d ∷ ds) h k = elim (Bool-cases (before x d)) [
    | inl front ↦ rw front (h, k)
    | inr later ↦ rw later (k.0, All-insert P x ds h k.1)
  ]

  pub All-sort : (P : A → Type 0) (xs : List A) → All P xs → All P (sort before xs)
  unfolding sort
  All-sort P [] h = tt
  All-sort P (x ∷ xs) h = All-insert P x (sort before xs) h.0 (All-sort P xs h.1)

  insert_front :
      (x : A) (xs : List A) → All (λ y. before x y ≡ true) xs → insert before x xs ≡ x ∷ xs
  unfolding insert
  insert_front x [] h = refl
  insert_front x (d ∷ ds) h = rw h.0 refl

module _ {A : Type 0} (before : A → A → Bool)
    (total : (x y : A) → (before x y ≡ true) ⊎ (before y x ≡ true))
    (transitive : (x y z : A) → before x y ≡ true → before y z ≡ true → before x z ≡ true) where
  insert-Strict :
      (x : A) (xs : List A)
      → All (λ y. (before x y && before y x) ≡ false) xs
      → Strict before xs
      → Strict before (insert before x xs)
  unfolding insert
  insert-Strict x [] h k = (tt, tt)
  insert-Strict x (d ∷ ds) h k = elim (Bool-cases (before x d)) [
    | inl front ↦ rw front (
      (ground (arith, h.0), All-map _ _ ds (λ y behind. ground (arith, transitive y x d)) k.0),
      k,
    )
    | inr later ↦
        rw later
          (All-insert before (λ y. before y d ≡ false) x ds later k.0, insert-Strict x ds h.1 k.1)
  ]

  pub sort-Strict : (xs : List A) → Distinct before xs → Strict before (sort before xs)
  unfolding sort
  sort-Strict [] h = tt
  sort-Strict (x ∷ xs) h =
      insert-Strict x (sort before xs) (All-sort before _ xs h.0) (sort-Strict xs h.1)

  -- What stands before an element stands before those behind it.
  behind :
      (x d : A) (ds : List A)
      → before x d ≡ true
      → All (λ y. before y d ≡ false) ds
      → All (λ y. before x y ≡ true) ds
  behind x d ds front h = All-map _ _ ds (λ y later. ground (arith, total y d, transitive x d y)) h

  filter-insert :
      (p : A → Bool) (x : A) (xs : List A)
      → Strict before xs
      → filter p (insert before x xs) ≡ (if p x then insert before x (filter p xs) else filter p xs)
  unfolding insert
  filter-insert p x [] h = refl
  filter-insert p x (d ∷ ds) h = elim (Bool-cases (before x d)) [
    | inl front ↦
        let skipped =
          insert_front before x (filter p ds) (All-filter _ p ds (behind x d ds front h.0)) in
        ground arith
    | inr later ↦ let rest = filter-insert p x ds h.1 in ground arith
  ]

  -- The order of the elements that pass a test does not depend on the others.
  pub filter-sort :
      (p : A → Bool) (xs : List A)
      → Distinct before xs
      → filter p (sort before xs) ≡ sort before (filter p xs)
  unfolding sort
  filter-sort p [] h = refl
  filter-sort p (x ∷ xs) h =
      let rest = filter-sort p xs h.1 in
      let here = filter-insert p x (sort before xs) (sort-Strict xs h.1) in ground arith

  filter-none : (p : A → Bool) (xs : List A) → All (λ y. p y ≡ false) xs → filter p xs ≡ []
  filter-none p [] h = refl
  filter-none p (x ∷ xs) h = rw (h.0, filter-none p xs h.1) refl

  pub filter-all : (p : A → Bool) (xs : List A) → All (λ y. p y ≡ true) xs → filter p xs ≡ xs
  filter-all p [] h = refl
  filter-all p (x ∷ xs) h = rw (h.0, filter-all p xs h.1) refl

  -- What stands strictly behind an element of a sorted list is the rest of the list.
  pub filter-behind :
      (xs : List A) (c : A) (ys : List A)
      → Strict before (xs ++ c ∷ ys)
      → filter (λ y. not (before y c)) (xs ++ c ∷ ys) ≡ ys
  filter-behind [] c ys h =
      let self : before c c ≡ true = ground (arith, total c c) in
      rw self (filter-all _ ys (All-map _ _ ys (λ y later. rw later refl) h.0))
  filter-behind (x ∷ xs) c ys h =
      let earlier : before x c ≡ true = ground (arith, total x c, middle xs h.0) in
      rw earlier (filter-behind xs c ys h.1)
    where
      middle : (zs : List A) → All (λ y. before y x ≡ false) (zs ++ c ∷ ys) → before c x ≡ false
      middle [] k = k.0
      middle (z ∷ zs) k = middle zs k.1

pub filter-same :
    {A : Type 0} (p q : A → Bool) (xs : List A) → ((x : A) → p x ≡ q x) → filter p xs ≡ filter q xs
filter-same p q [] h = refl
filter-same p q (x ∷ xs) h = let rest = filter-same p q xs h in ground (arith, h x)

pub filter-and :
    {A : Type 0} (p q : A → Bool) (xs : List A)
    → filter (λ x. p x && q x) xs ≡ filter q (filter p xs)
filter-and p q [] = refl
filter-and p q (x ∷ xs) = let rest = filter-and p q xs in ground arith

length-insert :
    {A : Type 0} (before : A → A → Bool) (x : A) (xs : List A)
    → length (insert before x xs) ≡ suc (length xs)
unfolding insert
length-insert before x [] = refl
length-insert before x (d ∷ ds) = ground (arith, length-insert before x ds)

pub length-sort :
    {A : Type 0} (before : A → A → Bool) (xs : List A) → length (sort before xs) ≡ length xs
unfolding sort
length-sort before [] = refl
length-sort before (x ∷ xs) =
    length-insert before x (sort before xs) ∙ ap suc (length-sort before xs)

module _ {A : Type 0} where
  pub All-passed : (p : A → Bool) (xs : List A) → All (λ x. p x ≡ true) (filter p xs)
  All-passed p [] = tt
  All-passed p (x ∷ xs) = elim (Bool-cases (p x)) [
    | inl taken ↦ rw taken (taken, All-passed p xs)
    | inr left ↦ rw left (All-passed p xs)
  ]

  pub Strict-filter :
      (before : A → A → Bool) (p : A → Bool) (xs : List A)
      → Strict before xs
      → Strict before (filter p xs)
  Strict-filter before p [] h = tt
  Strict-filter before p (x ∷ xs) h = elim (Bool-cases (p x)) [
    | inl taken ↦ rw taken (All-filter _ p xs h.0, Strict-filter before p xs h.1)
    | inr left ↦ rw left (Strict-filter before p xs h.1)
  ]

  -- A test that is the narrower one of two may look at what the wider one leaves.
  pub filter-narrow :
      (p q : A → Bool) (xs : List A)
      → ((x : A) → q x ≡ true → p x ≡ true)
      → filter q xs ≡ filter q (filter p xs)
  filter-narrow p q [] h = refl
  filter-narrow p q (x ∷ xs) h = let rest = filter-narrow p q xs h in ground (arith, h x)
