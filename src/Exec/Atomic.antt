-- ===== src/Exec/Atomic.antt =====
-- Transactions are atomic, whatever their body does and wherever the database fails.
use dynamis_code_apps_templa.Prelude.{◌≡◌, refl, arith, ◌⊎◌, inl, inr, Bool-cases}
use dynamis_code_apps_templa.Schema.{Database}
use dynamis_code_apps_templa.Exec.{
  Error, Result, ok, err, World, Exec, End, commit, rollback, close, begun, refused, behind,
  statement, transact,
}

module _ {A : Type 0} where
  close-unchanged :
      (before : Database) (r : Result (End A)) (w : World) {e : Error}
      → (close before r w).0 ≡ err e
      → (close before r w).1.db ≡ before
  unfolding close
  close-unchanged before (err e) w h = refl
  close-unchanged before (ok (rollback a)) w h = refl
  close-unchanged before (ok (commit a)) w {e} h = ground arith

  -- A transaction that reports an error has left the database as it was.
  pub transact-unchanged :
      (body : Exec (End A)) (w : World) {e : Error}
      → (transact body w).0 ≡ err e
      → (transact body w).1.db ≡ w.db
  unfolding transact
  transact-unchanged body w h = let (r, w') = begun body w in close-unchanged w.db r w' h

  close_commit :
      (before : Database) (a : A) (w : World) {b : A}
      → (close before (ok (commit a)) w).0 ≡ ok b
      → (close before (ok (commit a)) w).1.db ≡ w.db
  unfolding close statement
  close_commit before a w h = ground arith

  close-ok :
      (before : Database) (r : Result (End A)) (w : World) {a : A}
      → (close before r w).0 ≡ ok a
      → ((r ≡ ok (commit a)) × ((close before r w).1.db ≡ w.db))
        ⊎ ((r ≡ ok (rollback a)) × ((close before r w).1.db ≡ before))
  unfolding close
  close-ok before (err e) w h = absurd (ground arith)
  close-ok before (ok (rollback a)) w h = inr (ground arith, refl)
  close-ok before (ok (commit b)) w {a = a} h =
      inl (ground arith, close_commit before b w {b = a} h)

  -- A transaction that reports a result has run its body on the database that it found; what it
  -- commits is what the body leaves.
  pub transact-ok :
      (body : Exec (End A)) (w : World) {a : A}
      → (transact body w).0 ≡ ok a
      → (v : World) × (v.db ≡ w.db)
        × (v.now ≡ w.now)
        × ((((body v).0 ≡ ok (commit a)) × ((transact body w).1.db ≡ (body v).1.db))
            ⊎ (((body v).0 ≡ ok (rollback a)) × ((transact body w).1.db ≡ w.db)))
  unfolding transact
  transact-ok body w h =
      let v = record w { faults = behind w.faults } in
      elim (Bool-cases (refused w.faults)) [
        | inl bad ↦ absurd (ground arith)
        | inr good ↦ (v, refl, refl, rw good (close-ok w.db (body v).0 (body v).1 (ground arith)))
      ]

  -- What holds of every run of the body at the transaction's time, between the database it finds, how
  -- it ends and the database it leaves, holds of a transaction that reports a result.
  pub transact_post_at :
      (P : Database → End A → Database → Type 0) (body : Exec (End A)) (w : World)
      → ((v : World) (e : End A) → v.now ≡ w.now → (body v).0 ≡ ok e → P v.db e (body v).1.db)
      → {a : A} → (transact body w).0 ≡ ok a
      → P w.db (commit a) (transact body w).1.db
        ⊎ (((transact body w).1.db ≡ w.db) × (after : Database) × P w.db (rollback a) after)
  transact_post_at P body w holds {a} h =
      let (v, same, now, ended) = transact-ok body w {a = a} h in
      elim ended [
        | inl (committed, left) ↦ inl (rw (left, ← same) (holds v (commit a) now committed))
        | inr (left, kept) ↦ inr (kept, (body v).1.db, rw (← same) (holds v (rollback a) now left))
      ]

  pub transact_post :
      (P : Database → End A → Database → Type 0) (body : Exec (End A))
      → ((v : World) (e : End A) → (body v).0 ≡ ok e → P v.db e (body v).1.db)
      → (w : World) {a : A} → (transact body w).0 ≡ ok a
      → P w.db (commit a) (transact body w).1.db
        ⊎ (((transact body w).1.db ≡ w.db) × (after : Database) × P w.db (rollback a) after)
  transact_post P body holds w {a} h =
      transact_post_at P body w (λ v e now k. holds v e k) {a = a} h
