-- ===== src/Items/Create/Failures.antt =====
-- internal/items/service.go: a `Create` that reports an error.
use dynamis_code_apps_templa.Prelude.{
  ◌≡◌, refl, Bool, true, false, Text, arith, inl, inr, Bool-cases, Option-cases,
}
use dynamis_code_apps_templa.Schema.{AuditContext}
use dynamis_code_apps_templa.Exec.{Error, Result-cases, ok, err, World}
use dynamis_code_apps_templa.Exec.Atomic.{transact-unchanged}
use dynamis_code_apps_templa.Identity.{permit, Principal}
use dynamis_code_apps_templa.Identity.Policy.{resources_write}
use dynamis_code_apps_templa.Items.{Service}
use dynamis_code_apps_templa.Items.Input.{validate_title, valid_idempotency_key}
use dynamis_code_apps_templa.Items.Frame.{KeepsItems}
use dynamis_code_apps_templa.Identity.Authorize.{permit-db}
use dynamis_code_apps_templa.Items.Create.{
  Created, created, replayed, again, create_body, attempt, after_first, answer, create_twice,
  permitted_create, create_titled, create,
}
use dynamis_code_apps_templa.Items.Create.Outcomes.{IsMade}
use dynamis_code_apps_templa.Items.Create.Attempts.{IsAttempt, attempt-ok}

module _ (s : Service) (keeps : KeepsItems s) (actor : Principal)
    (workspace_id title idempotency_key : Text) (context : AuditContext) where
  pub attempt-unchanged :
      (retry : Bool) (w : World) {e : Error}
      → (attempt s actor workspace_id title idempotency_key context retry w).0 ≡ err e
      → (attempt s actor workspace_id title idempotency_key context retry w).1.db ≡ w.db
  unfolding attempt
  attempt-unchanged retry w {e} h =
      transact-unchanged
        (create_body s actor workspace_id title idempotency_key context retry w.now) w {e = e} h

  -- The second attempt reports no lost race, so an error of it is an error of its transaction, or of
  -- a race that the transaction itself has seen.
  second-unchanged :
      (w : World) (e : Error)
      → (after_first s actor workspace_id title idempotency_key context again w).0 ≡ err e
      → (after_first s actor workspace_id title idempotency_key context again w).1.db ≡ w.db
  unfolding after_first answer IsAttempt IsMade
  second-unchanged w e h =
      elim (Result-cases (attempt s actor workspace_id title idempotency_key context false w).0) [
        | inr (f, failed) ↦ let kept = attempt-unchanged false w {e = f} failed in rw failed kept
        | inl (created item, ended) ↦ absurd (ground arith)
        | inl (replayed item, ended) ↦ absurd (ground arith)
        | inl (again, ended) ↦
            elim (attempt-ok s keeps actor workspace_id title idempotency_key context false w
              {c = again} ended) [
                | inl (kept, lost, never, old) ↦ absurd (ground arith)
                | inr (inl (kept, q, found', valid', same, never)) ↦ absurd (ground arith)
                | inr (inr (cleared, old, x, y, inl (never, z))) ↦ absurd (ground arith)
                | inr (inr (cleared, old, x, y, inr (item_id, room, never, i, j))) ↦
                    absurd (ground arith)
              ]
      ]

  after_first-unchanged :
      (c : Created) (w : World) (e : Error)
      → (after_first s actor workspace_id title idempotency_key context c w).0 ≡ err e
      → (after_first s actor workspace_id title idempotency_key context c w).1.db ≡ w.db
  unfolding after_first answer
  after_first-unchanged (created item) w e h = refl
  after_first-unchanged (replayed item) w e h = refl
  after_first-unchanged again w e h = second-unchanged w e h

  not_created :
      {c : Created} {e : Error} (w : World)
      → (after_first s actor workspace_id title idempotency_key context c w).0 ≡ err e
      → c ≡ again
  unfolding after_first answer
  not_created {c = created item} w h = absurd (ground arith)
  not_created {c = replayed item} w h = absurd (ground arith)
  not_created {c = again} w h = refl

  -- An attempt that reports a lost race has rolled back.
  pub again-unchanged :
      (w : World)
      → (attempt s actor workspace_id title idempotency_key context true w).0 ≡ ok again
      → (attempt s actor workspace_id title idempotency_key context true w).1.db ≡ w.db
  unfolding IsAttempt IsMade
  again-unchanged w ended =
      elim (attempt-ok s keeps actor workspace_id title idempotency_key context true w {c = again}
        ended) [
          | inl (kept, lost, first, old) ↦ kept
          | inr (inl (kept, q, found', valid', same, never)) ↦ kept
          | inr (inr (cleared, old, x, y, inl (never, z))) ↦ absurd (ground arith)
          | inr (inr (cleared, old, x, y, inr (item_id, room, never, i, j))) ↦ absurd (ground arith)
        ]

  create_twice-unchanged :
      (w : World) (e : Error)
      → (create_twice s actor workspace_id title idempotency_key context w).0 ≡ err e
      → (create_twice s actor workspace_id title idempotency_key context w).1.db ≡ w.db
  unfolding create_twice
  create_twice-unchanged w e h =
      elim (Result-cases (attempt s actor workspace_id title idempotency_key context true w).0) [
        | inr (f, failed) ↦ let kept = attempt-unchanged true w {e = f} failed in rw failed kept
        | inl (c, ended) ↦
            let v = (attempt s actor workspace_id title idempotency_key context true w).1 in
            let lost = not_created {c = c} {e = e} v (ground arith) in
            let rest = after_first-unchanged c v e (ground arith) in
            let first = again-unchanged w (rw (← lost) ended) in ground arith
      ]

  permitted_create-unchanged :
      (w : World) (e : Error)
      → (permitted_create s actor workspace_id title idempotency_key context w).0 ≡ err e
      → (permitted_create s actor workspace_id title idempotency_key context w).1.db ≡ w.db
  unfolding permitted_create
  permitted_create-unchanged w e h =
      let here = permit-db actor workspace_id resources_write w in
      elim (Result-cases (permit actor workspace_id resources_write w).0) [
        | inr (f, may_not) ↦ rw may_not here
        | inl (u, may) ↦
            let kept =
              create_twice-unchanged (permit actor workspace_id resources_write w).1 e
                (ground arith) in
            ground arith
      ]

-- A creation that fails, in its first attempt or in the retry behind a lost race, leaves the database
-- as it was, where the publisher leaves the items and the idempotency records alone.
pub create_atomic :
    (s : Service) (keeps : KeepsItems s) (actor : Principal)
    (workspace_id raw_title idempotency_key : Text) (context : AuditContext) (w : World) (e : Error)
    → (create s actor workspace_id raw_title idempotency_key context w).0 ≡ err e
    → (create s actor workspace_id raw_title idempotency_key context w).1.db ≡ w.db
unfolding create create_titled
create_atomic s keeps actor workspace_id raw_title idempotency_key context w e h =
    elim (Option-cases (validate_title raw_title)) [
      | inl bad ↦ rw bad refl
      | inr (title, good) ↦ elim (Bool-cases (valid_idempotency_key idempotency_key)) [
        | inr bad ↦ rw (good, bad) refl
        | inl fine ↦
            rw (good, fine)
              (permitted_create-unchanged s keeps actor workspace_id title idempotency_key context w
                e (ground arith))
      ]
    ]
