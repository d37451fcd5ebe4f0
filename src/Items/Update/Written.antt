-- ===== src/Items/Update/Written.antt =====
-- internal/items/service.go: what the transaction of `Update` reads and writes.
use dynamis_code_apps_templa.Prelude.{
  ℕ, ◌≡◌, Option, some, Text, ascii, arith, find, update_where, ◌==◌, inl, inr, Bool-cases,
}
use dynamis_code_apps_templa.Schema.{Item, Database, AuditContext, item_version}
use dynamis_code_apps_templa.Exec.{Result-cases, ok, World, End, commit, transact}
use dynamis_code_apps_templa.Exec.Atomic.{transact_post}
use dynamis_code_apps_templa.Identity.{permit, Principal}
use dynamis_code_apps_templa.Identity.Policy.{resources_write}
use dynamis_code_apps_templa.Items.{Service, publish, get_row, is_item}
use dynamis_code_apps_templa.Items.Changes.{record_change}
use dynamis_code_apps_templa.Items.Update.{
  at_version, stamped, update_item, updated, finish_update, write_update, compare_update,
  update_body,
}
use dynamis_code_apps_templa.Items.Frame.{
  get_row-ok, KeepsItems, record_change-SameItems, audit_item-SameItems, publish-SameItems,
}
use dynamis_code_apps_templa.Identity.Authorize.{permit-db}

module _ (s : Service) (keeps : KeepsItems s) (actor : Principal) (workspace_id : Text)
    (context : AuditContext) where
  finish_update-ok :
      (now : ℕ) (item : Item) (w : World) {e : End Item}
      → (finish_update s actor workspace_id context now item w).0 ≡ ok e
      → (e ≡ commit item)
        × ((finish_update s actor workspace_id context now item w).1.db.items ≡ w.db.items)
  unfolding finish_update
  finish_update-ok now item w h =
      let changed = record_change workspace_id item.id (ascii "updated") item.version now w in
      let sent = publish s workspace_id (ascii "item.updated") item now changed.1 in
      let one = record_change-SameItems workspace_id item.id (ascii "updated") item.version now w in
      let two = publish-SameItems s keeps workspace_id (ascii "item.updated") item now changed.1 in
      let three =
        audit_item-SameItems (ascii "item.updated") (ascii "item.update") actor workspace_id item.id
          (item_version item.version) context now sent.1 in
      (ground arith, ground arith)

  update_item-ok :
      (item_id : Text) (version : ℕ) (item : Item) (w : World) {n : ℕ}
      → (update_item workspace_id item_id version item w).0 ≡ ok n
      → (update_item workspace_id item_id version item w).1.db.items
        ≡ update_where (at_version workspace_id item_id version) (stamped item) w.db.items
  unfolding update_item
  update_item-ok item_id version item w h = ground arith

  write_update-ok :
      (item_id : Text) (version now : ℕ) (item : Item) (w : World) {e : End Item}
      → (write_update s actor workspace_id item_id version context now item w).0 ≡ ok e
      → (e ≡ commit item)
        × ((write_update s actor workspace_id item_id version context now item w).1.db.items
            ≡ update_where (at_version workspace_id item_id version) (stamped item) w.db.items)
  unfolding write_update
  write_update-ok item_id version now item w {e} h =
      elim (Result-cases (update_item workspace_id item_id version item w).0) [
        | inl (n, wrote) ↦
            let after = (update_item workspace_id item_id version item w).1 in
            let there = update_item-ok item_id version item w wrote in
            let (written, kept) = finish_update-ok now item after {e = e} (ground arith) in
            (written, ground arith)
        | inr (f, failed) ↦ absurd (ground arith)
      ]

  compare_update-ok :
      (item_id : Text) (version : ℕ) (title status : Option Text) (now : ℕ) (old : Item) (w : World)
      {e : End Item}
      → (compare_update s actor workspace_id item_id version title status context now old w).0
        ≡ ok e
      → (old.version ≡ version)
        × (e ≡ commit (updated title status now old))
        × ((compare_update s actor workspace_id item_id version title status context now old
              w).1.db.items
            ≡ update_where
                (at_version workspace_id item_id version)
                (stamped (updated title status now old))
                w.db.items)
  unfolding compare_update
  compare_update-ok item_id version title status now old w {e} h =
      elim (Bool-cases (old.version == version)) [
        | inl current ↦
            let (written, there) =
              write_update-ok item_id version now (updated title status now old) w {e = e}
                (ground arith) in
            (ground arith, written, rw current there)
        | inr stale ↦ absurd (ground arith)
      ]

  -- What a transaction of `Update` reads, how it ends and what it leaves.
  unfoldable pub IsWritten :
      Text → ℕ → Option Text → Option Text → ℕ → Database → End Item → Database → Type 0
  IsWritten item_id version title status now before e after =
      (old : Item) × (find (is_item workspace_id item_id) before.items ≡ some old)
      × (old.version ≡ version)
      × (e ≡ commit (updated title status now old))
      × (after.items
          ≡ update_where (at_version workspace_id item_id version)
              (stamped (updated title status now old)) before.items)

  update_body-ok :
      (item_id : Text) (version : ℕ) (title status : Option Text) (now : ℕ) (w : World)
      {e : End Item}
      → (update_body s actor workspace_id item_id version title status context now w).0 ≡ ok e
      → (old : Item) × (find (is_item workspace_id item_id) w.db.items ≡ some old)
        × (old.version ≡ version)
        × (e ≡ commit (updated title status now old))
        × ((update_body s actor workspace_id item_id version title status context now w).1.db.items
            ≡ update_where
                (at_version workspace_id item_id version)
                (stamped (updated title status now old))
                w.db.items)
  unfolding update_body
  update_body-ok item_id version title status now w {e} h =
      let v = (permit actor workspace_id resources_write w).1 in
      let here = permit-db actor workspace_id resources_write w in
      elim (Result-cases (get_row workspace_id item_id v).0) [
        | inl (old, o) ↦
            let (stored, same) = get_row-ok workspace_id item_id v o in
            let (current, written, there) =
              compare_update-ok item_id version title status now old
                (get_row workspace_id item_id v).1 {e = e} (ground arith) in
            (old, rw (← here) stored, current, written, ground arith)
        | inr (f, missing) ↦ absurd (ground arith)
      ]

  pub transact_update-ok :
      (item_id : Text) (version : ℕ) (title status : Option Text) (now : ℕ) (w : World)
      {item : Item}
      → (transact (update_body s actor workspace_id item_id version title status context now) w).0
        ≡ ok item
      → IsWritten item_id version title status now w.db
          (commit item)
          (transact
            (update_body s actor workspace_id item_id version title status context now)
            w).1.db
  unfolding IsWritten
  transact_update-ok item_id version title status now w {item} h =
      elim (transact_post (IsWritten item_id version title status now)
        (update_body s actor workspace_id item_id version title status context now)
        (λ v e. update_body-ok item_id version title status now v {e = e}) w {a = item} h) [
          | inl written ↦ written
          | inr (kept, after, (old, stored, current, rolled_back, left)) ↦ absurd (ground arith)
        ]
