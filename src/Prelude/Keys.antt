-- ===== src/Prelude/Keys.antt =====
-- Types with a test for equality, and tables with a unique key.
use mathlib.Core.Path.{◌≡◌, refl, sym, ap, subst, ◌∙◌}
use mathlib.Core.Logic.{◌↔◌, ◌≢◌, inl, inr}
use mathlib.Core.Bool.{Bool, true, false, ◌&&◌}
use mathlib.Core.List.{List, [], ◌∷◌, ◌++◌}
use native.Mathlib.Omega.{arith}
use dynamis_code_apps_templa.Prelude.Tests.{Bool-cases, if◌then◌else◌}
use dynamis_code_apps_templa.Prelude.Lists.{
  filter, count, any, update_where, In, All, All-map, All-In,
}
use dynamis_code_apps_templa.Prelude.Bytes.{Text, text_eq, text_eq_iff}

pub record Eq (K : Type 0) : Type 0 where
  pub beq : K → K → Bool
  pub beq_iff : (a b : K) → (beq a b ≡ true) ↔ (a ≡ b)

instance abbrev pub text_key : Eq Text
text_key = record { beq = text_eq; beq_iff = text_eq_iff }

abbrev pub Triple : Type 0
Triple = Text × Text × Text

abbrev pub triple_eq : Triple → Triple → Bool
triple_eq s t = text_eq s.0 t.0 && text_eq s.1 t.1 && text_eq s.2 t.2

pub triple_eq_iff : (s t : Triple) → (triple_eq s t ≡ true) ↔ (s ≡ t)
triple_eq_iff s t = ground (arith, text_eq_iff s.0 t.0, text_eq_iff s.1 t.1, text_eq_iff s.2 t.2)

instance abbrev pub triple_key : Eq Triple
triple_key = record { beq = triple_eq; beq_iff = triple_eq_iff }

module _ {A K : Type 0} ⦃e : Eq K⦄ (key : A → K) where
  abbrev pub has_key : K → A → Bool
  has_key k x = e.beq (key x) k

  -- No two rows have one key.
  abbrev pub UniqueBy : List A → Type 0
  UniqueBy [] = Unit
  UniqueBy (x ∷ xs) = (any (has_key (key x)) xs ≡ false) × UniqueBy xs

  any-key : (k : K) (c : A) (xs : List A) → In c xs → key c ≡ k → any (has_key k) xs ≡ true
  any-key k c [] m p = absurd m
  any-key k c (x ∷ xs) (inl p) q = ground (arith, e.beq_iff (key x) k, ap key p, q)
  any-key k c (x ∷ xs) (inr m) q = ground (arith, any-key k c xs m q)

  count_other :
      (k : K) (q : A → Bool) (xs : List A)
      → any (has_key k) xs ≡ false
      → count (λ r. has_key k r && q r) xs ≡ 0
  count_other k q [] h = refl
  count_other k q (x ∷ xs) h = ground (arith, count_other k q xs)

  -- A row that passes a test is the only one with its key that does.
  pub count_unique :
      (q : A → Bool) (c : A) (xs : List A)
      → UniqueBy xs
      → In c xs
      → q c ≡ true
      → count (λ r. has_key (key c) r && q r) xs ≡ 1
  count_unique q c [] u m h = absurd m
  count_unique q c (x ∷ xs) u (inl p) h =
      let same : key x ≡ key c = ap key p in
      let passes : q x ≡ true = subst (λ y. q y ≡ true) (sym p) h in
      ground (arith, e.beq_iff (key x) (key c), count_other (key c) q xs (rw (← same) u.0))
  count_unique q c (x ∷ xs) u (inr m) h = ground (
    arith,
    e.beq_iff (key x) (key c),
    λ (same : key c ≡ key x). any-key (key x) c xs m same,
    count_unique q c xs u.1 m h,
  )

  any-update_where :
      (k : K) (p : A → Bool) (f : A → A) (xs : List A)
      → ((x : A) → key (f x) ≡ key x)
      → any (has_key k) (update_where p f xs) ≡ any (has_key k) xs
  any-update_where k p f [] same = refl
  any-update_where k p f (x ∷ xs) same = ground (arith, same x, any-update_where k p f xs same)

  key-if :
      (b : Bool) (f : A → A) (x : A)
      → ((x : A) → key (f x) ≡ key x)
      → key (if b then f x else x) ≡ key x
  key-if true f x same = same x
  key-if false f x same = refl

  -- An update that leaves the keys alone keeps them unique.
  pub UniqueBy-update_where :
      (p : A → Bool) (f : A → A) (xs : List A)
      → ((x : A) → key (f x) ≡ key x)
      → UniqueBy xs
      → UniqueBy (update_where p f xs)
  UniqueBy-update_where p f [] same u = tt
  UniqueBy-update_where p f (x ∷ xs) same u = (
    rw (key-if (p x) f x same, any-update_where (key x) p f xs same) u.0,
    UniqueBy-update_where p f xs same u.1,
  )

  any-append :
      (k : K) (x : A) (xs : List A)
      → any (has_key k) xs ≡ false
      → e.beq (key x) k ≡ false
      → any (has_key k) (xs ++ x ∷ []) ≡ false
  any-append k x [] h miss = rw miss
  any-append k x (y ∷ ys) h miss = ground (arith, any-append k x ys)

  -- So does a new row at the end with a new key.
  pub UniqueBy-append :
      (x : A) (xs : List A)
      → UniqueBy xs
      → any (has_key (key x)) xs ≡ false
      → UniqueBy (xs ++ x ∷ [])
  UniqueBy-append x [] u h = (refl, tt)
  UniqueBy-append x (y ∷ ys) u h = (
    any-append (key y) x ys u.0
        (ground (arith, e.beq_iff (key x) (key y), e.beq_iff (key y) (key x))),
    UniqueBy-append x ys u.1 (ground arith),
  )

  any-filter :
      (k : K) (p : A → Bool) (xs : List A)
      → any (has_key k) xs ≡ false
      → any (has_key k) (filter p xs) ≡ false
  any-filter k p [] h = refl
  any-filter k p (x ∷ xs) h = elim (Bool-cases (p x)) [
    | inl taken ↦ rw taken (ground (arith, any-filter k p xs))
    | inr left ↦ rw left (any-filter k p xs (ground arith))
  ]

  -- Nor does a deletion bring a key twice.
  pub UniqueBy-filter : (p : A → Bool) (xs : List A) → UniqueBy xs → UniqueBy (filter p xs)
  UniqueBy-filter p [] u = tt
  UniqueBy-filter p (x ∷ xs) u = elim (Bool-cases (p x)) [
    | inl taken ↦ rw taken (any-filter (key x) p xs u.0, UniqueBy-filter p xs u.1)
    | inr left ↦ rw left (UniqueBy-filter p xs u.1)
  ]

  none_with : (k : K) (xs : List A) → any (has_key k) xs ≡ false → All (λ x. key x ≢ k) xs
  none_with k [] h = tt
  none_with k (x ∷ xs) h =
      (λ same. ground (arith, e.beq_iff (key x) k), none_with k xs (ground arith))

  -- The row with a key is the row that is known to have it.
  pub unique_row :
      (c : A) (xs : List A) → UniqueBy xs → In c xs → All (λ x. key x ≡ key c → x ≡ c) xs
  unique_row c [] u m = tt
  unique_row c (x ∷ xs) u (inl p) = (
    λ _. p,
    All-map _ _ xs (λ y miss same. absurd (miss (same ∙ sym (ap key p))))
        (none_with (key x) xs u.0),
  )
  unique_row c (x ∷ xs) u (inr m) = (
    λ same. absurd (All-In _ c xs (none_with (key x) xs u.0) m (sym same)),
    unique_row c xs u.1 m,
  )
