-- ===== src/Items/Create/Attempts.antt =====
-- internal/items/service.go: the attempts of `create`, with the look-up of the record.
use dynamis_code_apps_templa.Prelude.{
  ℕ, ◌<◌, ◌≤◌, ◌≡◌, refl, Bool, true, false, not, Option, none, some, List, [], ◌∷◌, Text, arith,
  find, filter, text_eq, text_eq_iff, ltb, ◌⊎◌, inl, inr, Bool-cases,
}
use dynamis_code_apps_templa.Schema.{IdempotencyRecord, Database, AuditContext}
use dynamis_code_apps_templa.Exec.{Result-cases, ok, World, End, commit, rollback}
use dynamis_code_apps_templa.Exec.Atomic.{transact_post}
use dynamis_code_apps_templa.Identity.{permit, Principal}
use dynamis_code_apps_templa.Identity.Policy.{resources_write}
use dynamis_code_apps_templa.Items.{Service}
use dynamis_code_apps_templa.Items.Frame.{KeepsItems}
use dynamis_code_apps_templa.Identity.Authorize.{permit-db}
use dynamis_code_apps_templa.Items.Create.{
  Created, replayed, again, is_own_record, delete_record, replay, look_up, use_record, create_body,
  attempt,
}
use dynamis_code_apps_templa.Items.Create.Outcomes.{IsMade, create_item-ok}

find-filter : {A : Type 0} (p : A → Bool) (xs : List A) → find p (filter (λ x. not (p x)) xs) ≡ none
find-filter p [] = refl
find-filter p (x ∷ xs) = elim (Bool-cases (p x)) [
  | inl own ↦ rw own (find-filter p xs)
  | inr other ↦ rw (other, other) (find-filter p xs)
]

some_or_none : {A : Type 0} {m : Option A} {x : A} → m ≡ none → m ≡ some x → ⊥
some_or_none h k = ground arith

late :
    {m : Option IdempotencyRecord} {r q : IdempotencyRecord} {now : ℕ}
    → m ≡ some r
    → m ≡ some q
    → ltb now r.expires_at ≡ false
    → q.expires_at ≤ now
late h k expired = ground arith

module _ (s : Service) (keeps : KeepsItems s) (actor : Principal)
    (workspace_id title idempotency_key : Text) (context : AuditContext) where
  unfoldable pub own : IdempotencyRecord → Bool
  own = is_own_record s actor workspace_id title idempotency_key context

  -- No stored record of the request is valid at the time.
  unfoldable pub NoneValid : ℕ → Database → Type 0
  NoneValid now db = (r : IdempotencyRecord) → find own db.idempotency ≡ some r → r.expires_at ≤ now

  -- How a transaction of `create` ends. It answers from the stored record of the request, which has
  -- not expired and has the same request; or there is no such record left, and a new item is made.
  IsEnded : Bool → ℕ → Database → End Created → Database → Type 0
  IsEnded retry now before e after =
      ((r : IdempotencyRecord) × (find own before.idempotency ≡ some r)
        × (now < r.expires_at)
        × (r.request_hash ≡ s.hash title)
        × (e ≡ rollback (replayed r.result)))
      ⊎ ((cleared : Database) × NoneValid now before
          × (cleared.items ≡ before.items)
          × (find own cleared.idempotency ≡ none)
          × IsMade s keeps actor workspace_id title idempotency_key context retry now cleared e
              after)

  replay-ok :
      (r : IdempotencyRecord) (w : World) {e : End Created}
      → (replay s actor workspace_id title idempotency_key context r w).0 ≡ ok e
      → (r.request_hash ≡ s.hash title) × (e ≡ rollback (replayed r.result))
  unfolding replay
  replay-ok r w h = elim (Bool-cases (text_eq r.request_hash (s.hash title))) [
    | inl same ↦ ((text_eq_iff r.request_hash (s.hash title)).0 same, ground arith)
    | inr other ↦ absurd (ground arith)
  ]

  delete_record-ok :
      (w : World) {n : ℕ}
      → (delete_record s actor workspace_id title idempotency_key context w).0 ≡ ok n
      → ((delete_record s actor workspace_id title idempotency_key context w).1.db.items
          ≡ w.db.items)
        × ((delete_record s actor workspace_id title idempotency_key context w).1.db.idempotency
            ≡ filter (λ r. not (own r)) w.db.idempotency)
  unfolding delete_record own
  delete_record-ok w h = (ground arith, ground arith)

  use_record-ok :
      (retry : Bool) (now : ℕ) (row : Option IdempotencyRecord) (w : World) {e : End Created}
      → find own w.db.idempotency ≡ row
      → (use_record s actor workspace_id title idempotency_key context retry now row w).0 ≡ ok e
      → IsEnded retry now w.db e
          (use_record s actor workspace_id title idempotency_key context retry now row w).1.db
  unfolding use_record IsEnded NoneValid
  use_record-ok retry now none w {e} found h = inr (
    w.db,
    (λ q h'. absurd (some_or_none found h')),
    refl,
    found,
    create_item-ok s keeps actor workspace_id title idempotency_key context retry now w {e = e} h,
  )
  use_record-ok retry now (some r) w {e} found h = elim (Bool-cases (ltb now r.expires_at)) [
    | inl valid ↦
        let (same, ended) = replay-ok r w {e = e} (ground arith) in
        inl (r, found, ground arith, same, ended)
    | inr expired ↦
        elim (Result-cases (delete_record s actor workspace_id title idempotency_key context w).0) [
          | inr (f, failed) ↦ absurd (ground arith)
          | inl (n, deleted) ↦
              let v = (delete_record s actor workspace_id title idempotency_key context w).1 in
              let (items, idempotency) = delete_record-ok w deleted in
              inr (
                v.db,
                (λ q h'. late found h' expired),
                items,
                rw idempotency (find-filter own w.db.idempotency),
                rw (expired, deleted)
                    (create_item-ok s keeps actor workspace_id title idempotency_key context retry
                      now v {e = e} (ground arith)),
              )
        ]
  ]

  look_up-ok :
      (w : World) {row : Option IdempotencyRecord}
      → (look_up s actor workspace_id title idempotency_key context w).0 ≡ ok row
      → (find own w.db.idempotency ≡ row)
        × ((look_up s actor workspace_id title idempotency_key context w).1.db ≡ w.db)
  unfolding look_up own
  look_up-ok w h = (ground arith, ground arith)

  IsEnded-from :
      (retry : Bool) (now : ℕ) (before start : Database) (e : End Created) (after : Database)
      → before ≡ start
      → IsEnded retry now before e after
      → IsEnded retry now start e after
  IsEnded-from retry now before start e after same h = rw (← same) h

  create_body-ok :
      (retry : Bool) (now : ℕ) (w : World) (e : End Created)
      → (create_body s actor workspace_id title idempotency_key context retry now w).0 ≡ ok e
      → IsEnded retry now w.db e
          (create_body s actor workspace_id title idempotency_key context retry now w).1.db
  unfolding create_body
  create_body-ok retry now w e h =
      elim (Result-cases (permit actor workspace_id resources_write w).0) [
        | inr (f, may_not) ↦ absurd (ground arith)
        | inl (u, may) ↦
            let v = (permit actor workspace_id resources_write w).1 in
            let here = permit-db actor workspace_id resources_write w in
            elim (Result-cases (look_up s actor workspace_id title idempotency_key context v).0) [
              | inr (f, failed) ↦ absurd (ground arith)
              | inl (row, found) ↦
                  let x = (look_up s actor workspace_id title idempotency_key context v).1 in
                  let (stored, same) = look_up-ok v found in
                  rw (may, found)
                    (IsEnded-from retry now x.db w.db e _ (ground arith)
                      (use_record-ok retry now row x {e = e} (ground arith) (ground arith)))
            ]
      ]

  -- What a run of the transaction reports, and what it leaves.
  unfoldable pub IsAttempt : Bool → ℕ → Database → Created → Database → Type 0
  IsAttempt retry now before c after =
      ((after ≡ before) × (c ≡ again) × (retry ≡ true) × NoneValid now before)
      ⊎ (((after ≡ before)
            × (r : IdempotencyRecord) × (find own before.idempotency ≡ some r)
            × (now < r.expires_at)
            × (r.request_hash ≡ s.hash title)
            × (c ≡ replayed r.result))
          ⊎ ((cleared : Database) × NoneValid now before
              × (cleared.items ≡ before.items)
              × (find own cleared.idempotency ≡ none)
              × IsMade s keeps actor workspace_id title idempotency_key context retry now cleared
                  (commit c) after))

  pub attempt-ok :
      (retry : Bool) (w : World) {c : Created}
      → (attempt s actor workspace_id title idempotency_key context retry w).0 ≡ ok c
      → IsAttempt retry w.now w.db c
          (attempt s actor workspace_id title idempotency_key context retry w).1.db
  unfolding attempt IsAttempt IsEnded IsMade
  attempt-ok retry w {c} h =
      elim (transact_post (IsEnded retry w.now)
        (create_body s actor workspace_id title idempotency_key context retry w.now)
        (create_body-ok retry w.now) w {a = c} h) [
          | inl (inl (r, found, valid, same, never)) ↦ absurd (ground arith)
          | inl (inr (cleared, old, items, none_left, inl (never, x))) ↦ absurd (ground arith)
          | inl (inr (cleared, old, items, none_left, inr m)) ↦
              inr (inr (cleared, old, items, none_left, inr m))
          | inr (kept, after, inl (r, found, valid, same, told)) ↦
              inr (inl (kept, r, found, valid, same, ground arith))
          | inr (kept, after, inr (cleared, old, items, none_left, inl (lost, x))) ↦
              inl (kept, ground arith, x, old)
          | inr
                (
                  kept,
                  after,
                  inr (cleared, old, items, none_left, inr (item_id, room, never, x, y)),
                ) ↦
              absurd (ground arith)
        ]
