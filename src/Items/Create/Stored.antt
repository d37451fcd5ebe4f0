-- ===== src/Items/Create/Stored.antt =====
-- internal/items/service.go: what a `Create` that makes an item stores.
use dynamis_code_apps_templa.Prelude.{
  ◌∙◌, ℕ, ◌+◌, ◌*◌, ◌<◌, ◌⊎◌, ascii, trim_space, ◌≡◌, refl, Bool, true, false, none, some, List, [],
  ◌∷◌, ◌++◌, Text, arith, count, find, text_eq, text_eq_refl, inl, inr, Bool-cases, Option-cases,
}
use dynamis_code_apps_templa.Schema.{Item, IdempotencyRecord, Database, AuditContext}
use dynamis_code_apps_templa.Exec.{Result-cases, ok, World}
use dynamis_code_apps_templa.Identity.{permit, Principal}
use dynamis_code_apps_templa.Identity.Policy.{resources_write}
use dynamis_code_apps_templa.Items.{Service, CreateResult, principal_id}
use dynamis_code_apps_templa.Items.Input.{validate_title, valid_idempotency_key}
use dynamis_code_apps_templa.Items.Frame.{KeepsItems}
use dynamis_code_apps_templa.Identity.Authorize.{permit-db, permit-now}
use dynamis_code_apps_templa.Items.Create.{
  created, replayed, again, is_record, is_own_record, new_item, new_record, attempt, after_first,
  answer, create_twice, permitted_create, create_titled, create,
}
use dynamis_code_apps_templa.Items.Create.Outcomes.{IsMade}
use dynamis_code_apps_templa.Items.Create.Attempts.{own, IsAttempt, attempt-ok}
use dynamis_code_apps_templa.Items.Create.Failures.{again-unchanged}

find-append :
    {A : Type 0} (p : A → Bool) (xs : List A) (y : A)
    → find p xs ≡ none
    → p y ≡ true
    → find p (xs ++ y ∷ []) ≡ some y
find-append p [] y h k = rw k refl
find-append p (x ∷ xs) y h k = ground (arith, find-append p xs y)

began : {P : Type 0} {a b now : ℕ} → a ≡ b → (now ≡ a) ⊎ P → (now ≡ b) ⊎ P
began same (inl e) = inl (e ∙ same)
began same (inr p) = inr p

module _ (s : Service) (keeps : KeepsItems s) (actor : Principal)
    (workspace_id title idempotency_key : Text) (context : AuditContext) where
  -- There was room; the item is new, active and at version 1, and is the one item that is added; and
  -- the record of the request is the one that a repeated request finds, made at the same time and valid
  -- for 24 hours.
  pub record IsNew (now : ℕ) (before : Database) (item : Item) (after : Database) : Type 0 where
    pub room : count (λ i. text_eq i.workspace_id workspace_id) before.items < s.max_items
    pub title_of : item.title ≡ title
    pub workspace_of : item.workspace_id ≡ workspace_id
    pub creator_of : item.created_by_user_id ≡ some actor.user_id
    pub status_of : item.status ≡ ascii "active"
    pub version_of : item.version ≡ 1
    pub times_of : (item.created_at ≡ now) × (item.updated_at ≡ now)
    pub items_left : after.items ≡ before.items ++ item ∷ []
    pub row : IdempotencyRecord
    pub stored :
        find (own s keeps actor workspace_id title idempotency_key context) after.idempotency
        ≡ some row
    pub result_of : row.result ≡ item
    pub request_of : row.request_hash ≡ s.hash title
    pub made_at : row.created_at ≡ now
    pub lasts : row.expires_at ≡ now + 24 * 3600 * 1000000000

  -- When an attempt of `create` begins: with the call, or behind a first attempt that has lost the race
  -- for the key.
  pub Begins : ℕ → World → Type 0
  Begins now w =
      (now ≡ w.now)
      ⊎ (((attempt s actor workspace_id title idempotency_key context true w).0 ≡ ok again)
          × (now ≡ (attempt s actor workspace_id title idempotency_key context true w).1.now))

  moved :
      (now : ℕ) (before start : Database) (item : Item) (after : Database)
      → before ≡ start
      → IsNew now before item after
      → IsNew now start item after
  moved now before start item after same h = rw (← same) h

  own_new :
      (item : Item) (now : ℕ)
      → own s keeps actor workspace_id title idempotency_key context
          (new_record s actor workspace_id title idempotency_key context item now)
        ≡ true
  unfolding own is_own_record is_record new_record text_eq
  own_new item now =
      rw
        (
          text_eq_refl (s.hash idempotency_key),
          text_eq_refl (principal_id actor),
          text_eq_refl workspace_id,
        )
        refl

  attempt-IsNew :
      (retry : Bool) (w : World) (item : Item)
      → (attempt s actor workspace_id title idempotency_key context retry w).0 ≡ ok (created item)
      → IsNew w.now w.db item
          (attempt s actor workspace_id title idempotency_key context retry w).1.db
  unfolding IsAttempt IsMade new_item
  attempt-IsNew retry w item h =
      elim (attempt-ok s keeps actor workspace_id title idempotency_key context retry w
        {c = created item} h) [
          | inl (kept, lost, first, old) ↦ absurd (ground arith)
          | inr (inl (kept, q, found', valid', same, never)) ↦ absurd (ground arith)
          | inr (inr (cleared, old, x, y, inl (never, z))) ↦ absurd (ground arith)
          | inr (inr (cleared, old, same, nothing, inr (item_id, room, made, items, records))) ↦
              let fresh : item
                  ≡ new_item s actor workspace_id title idempotency_key context item_id w.now =
                ground arith in
              let row = new_record s actor workspace_id title idempotency_key context item w.now in
              record {
                room = rw (← same) room;
                title_of = rw fresh refl;
                workspace_of = rw fresh refl;
                creator_of = rw fresh refl;
                status_of = rw fresh refl;
                version_of = rw fresh refl;
                times_of = rw fresh (refl, refl);
                items_left = cc;
                row = row;
                stored =
                    rw (records, ← fresh)
                      (find-append (own s keeps actor workspace_id title idempotency_key context)
                        cleared.idempotency row nothing (own_new item w.now));
                result_of = unfold new_record in refl;
                request_of = unfold new_record in refl;
                made_at = unfold new_record in refl;
                lasts = unfold new_record in refl;
              }
        ]

  create_twice-IsNew :
      (w : World) (x : CreateResult)
      → (create_twice s actor workspace_id title idempotency_key context w).0 ≡ ok x
      → x.replay ≡ false
      → (now : ℕ) × Begins now w
        × IsNew now w.db x.item
            (create_twice s actor workspace_id title idempotency_key context w).1.db
  unfolding create_twice after_first answer Begins
  create_twice-IsNew w x h new =
      elim (Result-cases (attempt s actor workspace_id title idempotency_key context true w).0) [
        | inr (f, failed) ↦ absurd (ground arith)
        | inl (created item, ended) ↦
            let made = attempt-IsNew true w item ended in
            let same : x.item ≡ item = ground arith in (w.now, inl refl, rw (ended, same) made)
        | inl (replayed item, ended) ↦ absurd (ground arith)
        | inl (again, ended) ↦
            let v = (attempt s actor workspace_id title idempotency_key context true w).1 in
            let back =
              again-unchanged s keeps actor workspace_id title idempotency_key context w ended in
            elim (Result-cases
              (attempt s actor workspace_id title idempotency_key context false v).0) [
                | inr (f, failed) ↦ absurd (ground arith)
                | inl (created item, ended') ↦
                    let made = attempt-IsNew false v item ended' in
                    let same : x.item ≡ item = ground arith in
                    (
                      v.now,
                      inr (ended, refl),
                      rw (ended, ended', same) (moved v.now v.db w.db item _ back made),
                    )
                | inl (replayed item, ended') ↦ absurd (ground arith)
                | inl (again, ended') ↦ absurd (ground arith)
              ]
      ]

  permitted_create-IsNew :
      (w : World) (x : CreateResult)
      → (permitted_create s actor workspace_id title idempotency_key context w).0 ≡ ok x
      → x.replay ≡ false
      → (now : ℕ) × Begins now (permit actor workspace_id resources_write w).1
        × IsNew now w.db x.item
            (permitted_create s actor workspace_id title idempotency_key context w).1.db
  unfolding permitted_create
  permitted_create-IsNew w x h new =
      elim (Result-cases (permit actor workspace_id resources_write w).0) [
        | inr (f, may_not) ↦ absurd (ground arith)
        | inl (u, may) ↦
            let v = (permit actor workspace_id resources_write w).1 in
            let (now, begins, made) = create_twice-IsNew v x (ground arith) new in
            (
              now,
              begins,
              rw may (
                  moved now v.db w.db x.item _ (permit-db actor workspace_id resources_write w)
                    made),
            )
      ]

-- A creation that succeeds and is no replay found fewer items in the workspace than the limit, adds
-- one item and no other, at version 1, active, with the trimmed title, created by the actor, and stores
-- the record by which a repeated request finds this item. The item and the record are of the time at
-- which the attempt that made them began, which is the time of the call or that at which a first attempt
-- ended by losing the race for the key, and the record expires 24 hours after it. The publisher is taken
-- to leave the items and the idempotency records alone.
pub create-IsNew :
    (s : Service) (keeps : KeepsItems s) (actor : Principal)
    (workspace_id raw_title idempotency_key : Text) (context : AuditContext) (w : World)
    (x : CreateResult)
    → (create s actor workspace_id raw_title idempotency_key context w).0 ≡ ok x
    → x.replay ≡ false
    → (title : Text) × (validate_title raw_title ≡ some title)
      × (title ≡ trim_space raw_title)
      × (now : ℕ) × ((now ≡ w.now)
          ⊎ (((attempt s actor workspace_id title idempotency_key context true
                  (permit actor workspace_id resources_write w).1).0
                ≡ ok again)
              × (now
                  ≡ (attempt s actor workspace_id title idempotency_key context true
                      (permit actor workspace_id resources_write w).1).1.now)))
      × IsNew s keeps actor workspace_id title idempotency_key context now w.db x.item
          (create s actor workspace_id raw_title idempotency_key context w).1.db
unfolding create create_titled Begins validate_title
create-IsNew s keeps actor workspace_id raw_title idempotency_key context w x h new =
    elim (Option-cases (validate_title raw_title)) [
      | inl bad ↦ absurd (ground arith)
      | inr (title, good) ↦ elim (Bool-cases (valid_idempotency_key idempotency_key)) [
        | inr bad ↦ absurd (ground arith)
        | inl fine ↦
            let (now, begins, made) =
              permitted_create-IsNew s keeps actor workspace_id title idempotency_key context w x
                (ground arith) new in
            (
              title,
              good,
              ground arith,
              now,
              began (permit-now actor workspace_id resources_write w) begins,
              rw (good, fine) made,
            )
      ]
    ]
