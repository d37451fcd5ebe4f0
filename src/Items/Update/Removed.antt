-- ===== src/Items/Update/Removed.antt =====
-- internal/items/service.go: what a successful `Delete` has read and removed.
use dynamis_code_apps_templa.Prelude.{
  ℕ, ◌+◌, ◌≡◌, not, some, Text, ascii, arith, find, filter, ltb, ◌==◌, inl, inr, Bool-cases,
}
use dynamis_code_apps_templa.Schema.{Item, Database, AuditContext, permanent}
use dynamis_code_apps_templa.Exec.{Result-cases, ok, World, End, commit}
use dynamis_code_apps_templa.Exec.Atomic.{transact_post}
use dynamis_code_apps_templa.Identity.{permit, Principal}
use dynamis_code_apps_templa.Identity.Policy.{resources_write}
use dynamis_code_apps_templa.Items.{Service, publish, get_row, is_item}
use dynamis_code_apps_templa.Items.Changes.{record_change}
use dynamis_code_apps_templa.Items.Frame.{
  get_row-ok, KeepsItems, record_change-SameItems, audit_item-SameItems, publish-SameItems,
}
use dynamis_code_apps_templa.Identity.Authorize.{permit-db}
use dynamis_code_apps_templa.Items.Update.{
  at_version, delete_item, finish_delete, write_delete, compare_delete, delete_body, delete_checked,
  delete,
}

-- The item was stored at the version that the caller named, and the rows of the item at this version
-- are the ones that are gone.
pub IsRemoved : Text → Text → ℕ → Database → Database → Type 0
IsRemoved workspace_id item_id version before after =
    (old : Item) × (find (is_item workspace_id item_id) before.items ≡ some old)
    × (old.version ≡ version)
    × (after.items ≡ filter (λ i. not (at_version workspace_id item_id version i)) before.items)

delete_item-ok :
    (workspace_id item_id : Text) (version : ℕ) (w : World) {n : ℕ}
    → (delete_item workspace_id item_id version w).0 ≡ ok n
    → (delete_item workspace_id item_id version w).1.db.items
      ≡ filter (λ i. not (at_version workspace_id item_id version i)) w.db.items
unfolding delete_item
delete_item-ok workspace_id item_id version w h = ground arith

module _ (s : Service) (keeps : KeepsItems s) (actor : Principal) (workspace_id item_id : Text)
    (version : ℕ) (context : AuditContext) (now : ℕ) where
  finish_delete-ok :
      (item : Item) (w : World) {e : End (Unit {0})}
      → (finish_delete s actor workspace_id context now item w).0 ≡ ok e
      → (e ≡ commit tt)
        × ((finish_delete s actor workspace_id context now item w).1.db.items ≡ w.db.items)
  unfolding finish_delete
  finish_delete-ok item w h =
      let changed = record_change workspace_id item.id (ascii "deleted") (item.version + 1) now w in
      let sent = publish s workspace_id (ascii "item.deleted") item now changed.1 in
      let one =
        record_change-SameItems workspace_id item.id (ascii "deleted") (item.version + 1) now w in
      let two = publish-SameItems s keeps workspace_id (ascii "item.deleted") item now changed.1 in
      let three =
        audit_item-SameItems (ascii "item.deleted") (ascii "item.delete") actor workspace_id item.id
          (permanent item.version) context now sent.1 in
      (ground arith, ground arith)

  write_delete-ok :
      (item : Item) (w : World) {e : End (Unit {0})}
      → (write_delete s actor workspace_id item_id version context now item w).0 ≡ ok e
      → (e ≡ commit tt)
        × ((write_delete s actor workspace_id item_id version context now item w).1.db.items
            ≡ filter (λ i. not (at_version workspace_id item_id version i)) w.db.items)
  unfolding write_delete
  write_delete-ok item w {e} h =
      elim (Result-cases (delete_item workspace_id item_id version w).0) [
        | inl (n, wrote) ↦
            let there = delete_item-ok workspace_id item_id version w wrote in
            let (ended, kept) =
              finish_delete-ok item (delete_item workspace_id item_id version w).1 {e = e}
                (ground arith) in
            (ended, ground arith)
        | inr (f, failed) ↦ absurd (ground arith)
      ]

  compare_delete-ok :
      (item : Item) (w : World) {e : End (Unit {0})}
      → (compare_delete s actor workspace_id item_id version context now item w).0 ≡ ok e
      → (e ≡ commit tt)
        × (item.version ≡ version)
        × ((compare_delete s actor workspace_id item_id version context now item w).1.db.items
            ≡ filter (λ i. not (at_version workspace_id item_id version i)) w.db.items)
  unfolding compare_delete
  compare_delete-ok item w {e} h = elim (Bool-cases (item.version == version)) [
    | inl current ↦
        let (ended, there) = write_delete-ok item w {e = e} (ground arith) in
        (ended, ground arith, rw current there)
    | inr stale ↦ absurd (ground arith)
  ]

  delete_body-IsRemoved :
      (w : World) (e : End (Unit {0}))
      → (delete_body s actor workspace_id item_id version context now w).0 ≡ ok e
      → (e ≡ commit tt)
        × IsRemoved workspace_id item_id version w.db
            (delete_body s actor workspace_id item_id version context now w).1.db
  unfolding delete_body IsRemoved
  delete_body-IsRemoved w e h =
      let v = (permit actor workspace_id resources_write w).1 in
      let here = permit-db actor workspace_id resources_write w in
      elim (Result-cases (get_row workspace_id item_id v).0) [
        | inl (old, o) ↦
            let (stored, same) = get_row-ok workspace_id item_id v o in
            let (ended, current, there) =
              compare_delete-ok old (get_row workspace_id item_id v).1 {e = e} (ground arith) in
            (ended, (old, rw (← here) stored, current, ground arith))
        | inr (f, missing) ↦ absurd (ground arith)
      ]

  delete_checked-IsRemoved :
      (w : World)
      → (delete_checked s actor workspace_id item_id version context now w).0 ≡ ok tt
      → IsRemoved workspace_id item_id version w.db
          (delete_checked s actor workspace_id item_id version context now w).1.db
  unfolding delete_checked
  delete_checked-IsRemoved w h =
      elim (Result-cases (permit actor workspace_id resources_write w).0) [
        | inl (u, may) ↦
            let v = (permit actor workspace_id resources_write w).1 in
            elim (transact_post
              (λ before e after.
                (e ≡ commit tt) × IsRemoved workspace_id item_id version before after)
              (delete_body s actor workspace_id item_id version context now) delete_body-IsRemoved v
              {a = tt} (ground arith)) [
                | inl (ended, gone) ↦
                    rw may (from v.db w.db _ (permit-db actor workspace_id resources_write w) gone)
                | inr (kept, after, (never, gone)) ↦ absurd (ground arith)
              ]
        | inr (f, may_not) ↦ absurd (ground arith)
      ]
    where
      from :
          (before start after : Database)
          → before ≡ start
          → IsRemoved workspace_id item_id version before after
          → IsRemoved workspace_id item_id version start after
      from before start after same h = rw (← same) h

-- A deletion that succeeds has found the item at the version that its caller named, and removes the
-- rows of the item at this version and no other item, where the publisher leaves the items alone.
pub delete-IsRemoved :
    (s : Service) (keeps : KeepsItems s) (actor : Principal) (workspace_id item_id : Text)
    (version : ℕ) (context : AuditContext) (w : World)
    → (delete s actor workspace_id item_id version context w).0 ≡ ok tt
    → IsRemoved workspace_id item_id version w.db
        (delete s actor workspace_id item_id version context w).1.db
unfolding delete
delete-IsRemoved s keeps actor workspace_id item_id version context w h =
    elim (Bool-cases (ltb version 1)) [
      | inl bad ↦ absurd (ground arith)
      | inr good ↦ rw good (
          delete_checked-IsRemoved s keeps actor workspace_id item_id version context w.now w
            (ground arith))
    ]
