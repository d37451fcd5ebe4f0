-- ===== src/Items/Create/Outcomes.antt =====
-- internal/items/service.go: how a transaction of `create` ends, and what it leaves.
use dynamis_code_apps_templa.Prelude.{
  ℕ, ◌<◌, ◌≡◌, Bool, true, [], ◌∷◌, ◌++◌, Text, ascii, arith, count, text_eq, ltb, ◌==◌, ◌⊎◌, inl,
  inr, Bool-cases,
}
use dynamis_code_apps_templa.Schema.{Item, IdempotencyRecord, Database, AuditContext, empty}
use dynamis_code_apps_templa.Exec.{Result-cases, ok, World, End, commit, rollback, fresh}
use dynamis_code_apps_templa.Identity.{Principal}
use dynamis_code_apps_templa.Items.{Service, publish}
use dynamis_code_apps_templa.Items.Changes.{record_change}
use dynamis_code_apps_templa.Items.Frame.{
  SameItems, KeepsItems, record_change-SameItems, publish-SameItems, audit_item-SameItems,
}
use dynamis_code_apps_templa.Items.Create.{
  Created, created, again, insert_item, count_items, insert_record, new_item, new_record,
  finish_create, lost_race, after_record, record_create, write_create, create_item,
}

insert_item-ok :
    (item : Item) (w : World) {u : Unit {0}}
    → (insert_item item w).0 ≡ ok u
    → ((insert_item item w).1.db.items ≡ w.db.items ++ item ∷ [])
      × ((insert_item item w).1.db.idempotency ≡ w.db.idempotency)
unfolding insert_item
insert_item-ok item w h = (ground arith, ground arith)

insert_record-ok :
    (r : IdempotencyRecord) (w : World) {n : ℕ}
    → (insert_record r w).0 ≡ ok n
    → n ≡ 1
    → ((insert_record r w).1.db.items ≡ w.db.items)
      × ((insert_record r w).1.db.idempotency ≡ w.db.idempotency ++ r ∷ [])
unfolding insert_record
insert_record-ok r w h one = (ground arith, ground arith)

count_items-ok :
    (workspace_id : Text) (w : World) {n : ℕ}
    → (count_items workspace_id w).0 ≡ ok n
    → (n ≡ count (λ i. text_eq i.workspace_id workspace_id) w.db.items)
      × ((count_items workspace_id w).1.db ≡ w.db)
unfolding count_items
count_items-ok workspace_id w h = (ground arith, ground arith)

room_left : {n total limit : ℕ} → n ≡ total → ltb n limit ≡ true → total < limit
room_left same room = ground arith

module _ (s : Service) (keeps : KeepsItems s) (actor : Principal)
    (workspace_id title idempotency_key : Text) (context : AuditContext) where
  -- The writes of a new item and of the record of its request.
  IsStored : Bool → ℕ → Item → Database → End Created → Database → Type 0
  IsStored retry now item before e after =
      ((e ≡ rollback again) × (retry ≡ true))
      ⊎ ((e ≡ commit (created item))
          × (after.items ≡ before.items ++ item ∷ [])
          × (after.idempotency
              ≡ before.idempotency
                ++ new_record s actor workspace_id title idempotency_key context item now ∷ []))

  finish_create-ok :
      (now : ℕ) (item : Item) (w : World) {e : End Created}
      → (finish_create s actor workspace_id title idempotency_key context now item w).0 ≡ ok e
      → (e ≡ commit (created item))
        × SameItems
            (finish_create s actor workspace_id title idempotency_key context now item w).1.db
            w.db
  unfolding finish_create
  finish_create-ok now item w h =
      let kept =
        audit_item-SameItems (ascii "item.created") (ascii "item.create") actor workspace_id item.id
          empty context now w in
      (ground arith, (ground arith, ground arith))

  after_record-ok :
      (retry : Bool) (now : ℕ) (item : Item) (n : ℕ) (w : World) {e : End Created}
      → (after_record s actor workspace_id title idempotency_key context retry now item n w).0
        ≡ ok e
      → ((e ≡ rollback again) × (retry ≡ true))
        ⊎ ((n ≡ 1)
            × (e ≡ commit (created item))
            × SameItems
                (after_record s actor workspace_id title idempotency_key context retry now item n
                  w).1.db
                w.db)
  unfolding after_record lost_race
  after_record-ok retry now item n w {e} h = elim (Bool-cases (n == 1)) [
    | inr lost ↦ inl (ground arith, ground arith)
    | inl one ↦
        let (ended, same) = finish_create-ok now item w {e = e} (ground arith) in
        inr (ground arith, ended, rw one same)
  ]

  record_create-ok :
      (retry : Bool) (now : ℕ) (item : Item) (w : World) {e : End Created}
      → (record_create s actor workspace_id title idempotency_key context retry now item w).0 ≡ ok e
      → ((e ≡ rollback again) × (retry ≡ true))
        ⊎ ((e ≡ commit (created item))
            × ((record_create s actor workspace_id title idempotency_key context retry now item
                  w).1.db.items
                ≡ w.db.items)
            × ((record_create s actor workspace_id title idempotency_key context retry now item
                  w).1.db.idempotency
                ≡ w.db.idempotency
                  ++ new_record s actor workspace_id title idempotency_key context item now ∷ []))
  unfolding record_create
  record_create-ok retry now item w {e} h =
      let r = new_record s actor workspace_id title idempotency_key context item now in
      elim (Result-cases (insert_record r w).0) [
        | inr (f, failed) ↦ absurd (ground arith)
        | inl (n, wrote) ↦
            elim (after_record-ok retry now item n (insert_record r w).1 {e = e} (ground arith)) [
              | inl lost ↦ inl lost
              | inr (one, ended, same) ↦
                  let (items, idempotency) = insert_record-ok r w wrote one in
                  inr (ended, rw (wrote, same.0) items, rw (wrote, same.1) idempotency)
            ]
      ]

  write_create-ok :
      (retry : Bool) (now : ℕ) (item : Item) (w : World) {e : End Created}
      → (write_create s actor workspace_id title idempotency_key context retry now item w).0 ≡ ok e
      → IsStored retry now item w.db e
          (write_create s actor workspace_id title idempotency_key context retry now item w).1.db
  unfolding write_create IsStored
  write_create-ok retry now item w {e} h = elim (Result-cases (insert_item item w).0) [
    | inr (f, failed) ↦ absurd (ground arith)
    | inl (u, wrote) ↦
        let (items, idempotency) = insert_item-ok item w wrote in
        let stored = (insert_item item w).1 in
        let changed =
          record_change workspace_id item.id (ascii "created") item.version now stored in
        let sent = publish s workspace_id (ascii "item.created") item now changed.1 in
        let one =
          record_change-SameItems workspace_id item.id (ascii "created") item.version now stored in
        let two =
          publish-SameItems s keeps workspace_id (ascii "item.created") item now changed.1 in
        elim (record_create-ok retry now item sent.1 {e = e} (ground arith)) [
          | inl lost ↦ inl lost
          | inr (ended, items', idempotency') ↦ inr (ended, ground arith, ground arith)
        ]
  ]

  -- A run behind the look-up of the key: the race is lost, or there was room, and a new item and the
  -- record of its request are stored.
  unfoldable pub IsMade : Bool → ℕ → Database → End Created → Database → Type 0
  IsMade retry now before e after =
      ((e ≡ rollback again) × (retry ≡ true))
      ⊎ ((item_id : Text) × (count (λ i. text_eq i.workspace_id workspace_id) before.items
            < s.max_items)
          × (e
              ≡ commit (
                  created
                    (new_item s actor workspace_id title idempotency_key context item_id now)))
          × (after.items
              ≡ before.items
                ++ new_item s actor workspace_id title idempotency_key context item_id now ∷ [])
          × (after.idempotency
              ≡ before.idempotency
                ++ new_record s actor workspace_id title idempotency_key context
                    (new_item s actor workspace_id title idempotency_key context item_id now) now
                  ∷ []))

  made :
      (retry : Bool) (now : ℕ) (item_id : Text) (start before : Database) (e : End Created)
      (after : Database)
      → before ≡ start
      → count (λ i. text_eq i.workspace_id workspace_id) start.items < s.max_items
      → IsStored retry now
          (new_item s actor workspace_id title idempotency_key context item_id now)
          before
          e
          after
      → IsMade retry now start e after
  unfolding IsStored IsMade
  made retry now item_id start before e after same room (inl lost) = inl lost
  made retry now item_id start before e after same room (inr (ended, items, idempotency)) =
      inr (item_id, room, ended, rw (← same) items, rw (← same) idempotency)

  pub create_item-ok :
      (retry : Bool) (now : ℕ) (w : World) {e : End Created}
      → (create_item s actor workspace_id title idempotency_key context retry now w).0 ≡ ok e
      → IsMade retry now w.db e
          (create_item s actor workspace_id title idempotency_key context retry now w).1.db
  unfolding create_item
  create_item-ok retry now w {e} h = elim (Result-cases (count_items workspace_id w).0) [
    | inr (f, failed) ↦ absurd (ground arith)
    | inl (n, counted) ↦ elim (Bool-cases (ltb n s.max_items)) [
      | inr full ↦ absurd (ground arith)
      | inl room ↦
          let v = (count_items workspace_id w).1 in
          let (total, same) = count_items-ok workspace_id w counted in
          elim (Result-cases (fresh v).0) [
            | inr (f, failed) ↦ absurd (ground arith)
            | inl (item_id, drawn) ↦
                let stored =
                  write_create-ok retry now
                    (new_item s actor workspace_id title idempotency_key context item_id now)
                    (fresh v).1 {e = e} (ground arith) in
                rw (counted, room, drawn)
                  (made retry now item_id w.db (fresh v).1.db e _ same (room_left total room)
                    stored)
          ]
    ]
  ]
