-- ===== src/Exec/Keeps.antt =====
-- Properties of the database that actions keep, whatever they return.
use dynamis_code_apps_templa.Prelude.{◌≡◌, refl, arith, inl, inr, Bool, true, false}
use dynamis_code_apps_templa.Schema.{Database}
use dynamis_code_apps_templa.Exec.{
  Error, Result, Result-cases, ok, err, World, Exec, End, pure, commit, continue, ◌>>=◌, ◌>>◌,
  guard, transact,
}
use dynamis_code_apps_templa.Exec.Atomic.{transact-unchanged, transact-ok}

module _ (P : Database → Type 0) where
  abbrev pub Keeps : {A : Type 0} → Exec A → Type 0
  Keeps m = (w : World) → P w.db → P (m w).1.db

  module _ {A B : Type 0} where
    continue-Keeps :
        (r : Result A) (f : A → Exec B) (w : World)
        → ((a : A) → Keeps (f a))
        → P w.db
        → P (continue r f w).1.db
    continue-Keeps (ok a) f w h p = h a w p
    continue-Keeps (err e) f w h p = p

    -- The rest of an action keeps what its first step leaves.
    pub Keeps_rest :
        (m : Exec A) (f : A → Exec B) (w : World)
        → P (m w).1.db
        → ((a : A) → Keeps (f a))
        → P ((m >>= f) w).1.db
    Keeps_rest m f w p k = continue-Keeps (m w).0 f (m w).1 k p

    pub Keeps-bind :
        (m : Exec A) (f : A → Exec B) → Keeps m → ((a : A) → Keeps (f a)) → Keeps (m >>= f)
    Keeps-bind m f h k w p = continue-Keeps (m w).0 f (m w).1 k (h w p)

    pub Keeps-then : (m : Exec A) (n : Exec B) → Keeps m → Keeps n → Keeps (m >> n)
    Keeps-then m n h k w p = continue-Keeps (m w).0 (λ _. n) (m w).1 (λ _. k) (h w p)

  module _ {A : Type 0} where
    pub Keeps-same : (m : Exec A) → ((w : World) → (m w).1.db ≡ w.db) → Keeps m
    Keeps-same m same w p = rw (same w) p

    -- A transaction keeps what its body keeps where it does not fail.
    pub Keeps-transact :
        (body : Exec (End A))
        → ((v : World) (e : End A) → (body v).0 ≡ ok e → P v.db → P (body v).1.db)
        → Keeps (transact body)
    Keeps-transact body kept w p = elim (Result-cases (transact body w).0) [
      | inr (e, failed) ↦ rw (transact-unchanged body w failed) p
      | inl (a, done) ↦
          let (v, same, now, ended) = transact-ok body w {a = a} done in
          elim ended [
            | inl (committed, left) ↦ rw left (kept v (commit a) committed (rw same p))
            | inr (rolled, left) ↦ rw left p
          ]
    ]

  pub guard-Keeps : (b : Bool) (e : Error) → Keeps (guard b e)
  guard-Keeps true e w p = p
  guard-Keeps false e w p = p

-- An action fails at its first step, or is the rest of it from there.
pub step-cases :
    {A B : Type 0} (Q : Result B × World → Type 0) (m : Exec A) (f : A → Exec B) (w : World)
    → ((e : Error) → Q (err e, (m w).1))
    → ((a : A) → Q (f a (m w).1))
    → Q ((m >>= f) w)
step-cases Q m f w failed went = go (m w).0
  where
    go : (r : Result _) → Q (continue r f (m w).1)
    go (ok a) = went a
    go (err e) = failed e

pub guard-same : (b : Bool) (e : Error) (w : World) → (guard b e w).1 ≡ w
guard-same true e w = refl
guard-same false e w = refl

-- An action that gives one result where it succeeds.
abbrev pub Yields : {A : Type 0} → Exec A → A → Type 0
Yields m a = (w : World) (b : _) → (m w).0 ≡ ok b → b ≡ a

pub Yields-then : {A B : Type 0} (m : Exec A) (n : Exec B) {b : B} → Yields n b → Yields (m >> n) b
Yields-then m n h w b done = elim (Result-cases (m w).0) [
  | inl (a, first) ↦ h (m w).1 b (ground arith)
  | inr (e, failed) ↦ absurd (ground arith)
]

pub Yields-pure : {A : Type 0} (a : A) → Yields (pure a) a
Yields-pure a w b h = ground arith
