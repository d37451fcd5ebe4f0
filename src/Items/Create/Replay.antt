-- ===== src/Items/Create/Replay.antt =====
-- internal/items/service.go: what `Create` promises to a caller who repeats a request.
use dynamis_code_apps_templa.Prelude.{
  ◌<◌, ◌≡◌, refl, Bool, true, some, Text, arith, find, inl, inr, Bool-cases,
}
use dynamis_code_apps_templa.Schema.{IdempotencyRecord, AuditContext}
use dynamis_code_apps_templa.Exec.{Result-cases, ok, World}
use dynamis_code_apps_templa.Identity.{permit, Principal}
use dynamis_code_apps_templa.Identity.Policy.{resources_write}
use dynamis_code_apps_templa.Items.{Service, CreateResult}
use dynamis_code_apps_templa.Items.Input.{validate_title, valid_idempotency_key}
use dynamis_code_apps_templa.Items.Frame.{KeepsItems}
use dynamis_code_apps_templa.Identity.Authorize.{permit-db}
use dynamis_code_apps_templa.Items.Create.{
  Created, replayed, attempt, after_first, answer, create_twice, permitted_create, create_titled,
  create,
}
use dynamis_code_apps_templa.Items.Create.Attempts.{own, NoneValid, IsAttempt, attempt-ok}
use dynamis_code_apps_templa.Identity.Authorize.{permit-now}
use dynamis_code_apps_templa.Items.Create.Failures.{attempt-unchanged}

module _ (s : Service) (keeps : KeepsItems s) (actor : Principal)
    (workspace_id title idempotency_key : Text) (context : AuditContext) where
  -- Where a valid record of the request is stored, an attempt answers from it or fails.
  attempt_replays :
      (retry : Bool) (w : World) (r : IdempotencyRecord) {c : Created}
      → find (own s keeps actor workspace_id title idempotency_key context) w.db.idempotency
        ≡ some r
      → w.now < r.expires_at
      → (attempt s actor workspace_id title idempotency_key context retry w).0 ≡ ok c
      → ((attempt s actor workspace_id title idempotency_key context retry w).1.db ≡ w.db)
        × (c ≡ replayed r.result)
        × (r.request_hash ≡ s.hash title)
  unfolding IsAttempt NoneValid
  attempt_replays retry w r {c} found valid h =
      elim (attempt-ok s keeps actor workspace_id title idempotency_key context retry w {c = c} h) [
        | inl (kept, lost, first, old) ↦ absurd (let late = old r found in omega arith)
        | inr (inl (kept, q, found', valid', same, told)) ↦ (kept, ground arith, ground arith)
        | inr (inr (cleared, old, x, y, z)) ↦ absurd (let late = old r found in omega arith)
      ]

  create_twice_replays :
      (w : World) (r : IdempotencyRecord)
      → find (own s keeps actor workspace_id title idempotency_key context) w.db.idempotency
        ≡ some r
      → w.now < r.expires_at
      → ((create_twice s actor workspace_id title idempotency_key context w).1.db ≡ w.db)
        × ((x : CreateResult)
            → (create_twice s actor workspace_id title idempotency_key context w).0 ≡ ok x
            → (x.replay ≡ true) × (x.item ≡ r.result) × (r.request_hash ≡ s.hash title))
  unfolding create_twice after_first answer
  create_twice_replays w r found valid =
      elim (Result-cases (attempt s actor workspace_id title idempotency_key context true w).0) [
        | inr (e, failed) ↦
            let kept =
              attempt-unchanged s keeps actor workspace_id title idempotency_key context true w
                {e = e} failed in
            (rw failed kept, λ x h. absurd (ground arith))
        | inl (c, done) ↦
            let (kept, told, same) = attempt_replays true w r {c = c} found valid done in
            (rw (done, told) kept, λ x h. (ground arith, ground arith, same))
      ]

  permitted_create_replays :
      (w : World) (r : IdempotencyRecord)
      → find (own s keeps actor workspace_id title idempotency_key context) w.db.idempotency
        ≡ some r
      → (permit actor workspace_id resources_write w).1.now < r.expires_at
      → ((permitted_create s actor workspace_id title idempotency_key context w).1.db ≡ w.db)
        × ((x : CreateResult)
            → (permitted_create s actor workspace_id title idempotency_key context w).0 ≡ ok x
            → (x.replay ≡ true) × (x.item ≡ r.result) × (r.request_hash ≡ s.hash title))
  unfolding permitted_create
  permitted_create_replays w r found valid =
      let here = permit-db actor workspace_id resources_write w in
      elim (Result-cases (permit actor workspace_id resources_write w).0) [
        | inr (e, may_not) ↦ (rw may_not here, λ x h. absurd (ground arith))
        | inl (u, may) ↦
            let (kept, told) =
              create_twice_replays (permit actor workspace_id resources_write w).1 r (rw here found)
                valid in
            (ground arith, λ x h. told x (ground arith))
      ]

-- Where a record of the request is stored and has not expired, a repeated `Create` changes nothing;
-- if it succeeds, it returns the stored item as a replay, and the title is the one of the first request,
-- up to the hash.
pub create_replays :
    (s : Service) (keeps : KeepsItems s) (actor : Principal)
    (workspace_id raw_title title idempotency_key : Text) (context : AuditContext) (w : World)
    (r : IdempotencyRecord)
    → validate_title raw_title ≡ some title
    → find (own s keeps actor workspace_id title idempotency_key context) w.db.idempotency ≡ some r
    → w.now < r.expires_at
    → ((create s actor workspace_id raw_title idempotency_key context w).1.db ≡ w.db)
      × ((x : CreateResult)
          → (create s actor workspace_id raw_title idempotency_key context w).0 ≡ ok x
          → (x.replay ≡ true) × (x.item ≡ r.result) × (r.request_hash ≡ s.hash title))
unfolding create create_titled
create_replays s keeps actor workspace_id raw_title title idempotency_key context w r good found
      valid =
    elim (Bool-cases (valid_idempotency_key idempotency_key)) [
      | inr bad ↦ (rw (good, bad) refl, λ x h. absurd (ground arith))
      | inl fine ↦
          let (kept, told) =
            permitted_create_replays s keeps actor workspace_id title idempotency_key context w r
              found (rw (permit-now actor workspace_id resources_write w) valid) in
          (rw (good, fine) kept, λ x h. told x (ground arith))
    ]
