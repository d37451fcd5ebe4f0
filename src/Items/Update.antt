-- ===== src/Items/Update.antt =====
-- internal/items/service.go: `Update` and `Delete`, which compare versions.
pub mod Written
pub mod Versions
pub mod Failures
pub mod Race
pub mod Removed
mod Tests
use Prim.Native.Nat.{◌-◌}
use dynamis_code_apps_templa.Prelude.{
  ℕ, suc, ◌+◌, ◌*◌, Bool, true, false, ◌&&◌, ◌||◌, not, Option, none, some, List, [], ◌∷◌, ◌++◌,
  Text, ascii, length, leb, ltb, ◌==◌, text_eq, text_leb, any, count, filter, find, take,
  update_where, is_nil, is_none, if◌then◌else◌,
}
use dynamis_code_apps_templa.Clock.{second}
use dynamis_code_apps_templa.Schema.{
  Item, Change, IdempotencyRecord, LinkRow, AuditEvent, AuditContext, Metadata, empty, item_version,
  permanent, Database,
}
use dynamis_code_apps_templa.Exec.{
  Error, database_failure, forbidden, invalid_input, not_found, precondition_failed, limit_reached,
  idempotency_conflict, Result, ok, err, World, Exec, continue, pure, raise, guard, ◌>>=◌, ◌>>◌,
  statement, query, execute, fresh, End, commit, rollback, transact,
}
use dynamis_code_apps_templa.Identity.{permit, Principal, authorize_principal, audit, masked}
use dynamis_code_apps_templa.Identity.Policy.{resources_read, resources_write, workspace_update}
use dynamis_code_apps_templa.Items.Input.{
  active, validate_title, valid_idempotency_key, valid_status, ImportItem, normalize_import_item,
}
use dynamis_code_apps_templa.Items.{
  Service, CreateResult, UpdateInput, principal_id, publish, is_item, audit_item, get_row,
}
use dynamis_code_apps_templa.Items.Changes.{record_change}

abbrev or_default : Option Text → Text → Text
or_default none t = t
or_default (some u) t = u

abbrev pub at_version : Text → Text → ℕ → Item → Bool
at_version workspace_id item_id version i = is_item workspace_id item_id i && i.version == version

-- SET title = ?, status = ?, version = ?, updated_at = ?
abbrev pub stamped : Item → Item → Item
stamped item row = record row {
  title = item.title;
  status = item.status;
  version = item.version;
  updated_at = item.updated_at;
}

-- UPDATE items … WHERE workspace_id = ? AND id = ? AND version = ?
update_item : Text → Text → ℕ → Item → Exec ℕ
unfolding execute
update_item workspace_id item_id version item = execute (λ db. (
  record db {
    items = update_where (at_version workspace_id item_id version) (stamped item) db.items;
  },
  count (at_version workspace_id item_id version) db.items,
))

-- The trimmed title of `Update`, where the caller sends one.
unfoldable pub accepted_title : Option Text → Result (Option Text)
accepted_title none = ok none
accepted_title (some raw) = elim (validate_title raw) [
  | none ↦ err invalid_input
  | some t ↦ ok (some t)
]

abbrev status_ok : Option Text → Bool
status_ok none = true
status_ok (some st) = valid_status st

-- The item that `Update` writes and returns.
unfoldable pub updated : Option Text → Option Text → ℕ → Item → Item
updated title status now old = record old {
  title = or_default title old.title;
  status = or_default status old.status;
  version = old.version + 1;
  updated_at = now;
}

-- The writes of `Update` behind the one of the item.
finish_update : Service → Principal → Text → AuditContext → ℕ → Item → Exec (End Item)
unfolding record_change publish audit_item
finish_update s actor workspace_id context now item = do
  record_change workspace_id item.id (ascii "updated") item.version now
  publish s workspace_id (ascii "item.updated") item now
  audit_item (ascii "item.updated") (ascii "item.update") actor workspace_id item.id
      (item_version item.version) context now
  pure (commit item)

write_update : Service → Principal → Text → Text → ℕ → AuditContext → ℕ → Item → Exec (End Item)
unfolding update_item finish_update
write_update s actor workspace_id item_id version context now item = do
  changed ← update_item workspace_id item_id version item
  guard (changed == 1) precondition_failed
  finish_update s actor workspace_id context now item

compare_update :
    Service
    → Principal
    → Text
    → Text
    → ℕ
    → Option Text
    → Option Text
    → AuditContext
    → ℕ
    → Item
    → Exec (End Item)
unfolding updated write_update
compare_update s actor workspace_id item_id version title status context now old =
    guard (old.version == version) precondition_failed
    >> write_update s actor workspace_id item_id version context now (updated title status now old)

pub update_body :
    Service
    → Principal
    → Text
    → Text
    → ℕ
    → Option Text
    → Option Text
    → AuditContext
    → ℕ
    → Exec (End Item)
unfolding permit get_row compare_update
update_body s actor workspace_id item_id version title status context now = do
  permit actor workspace_id resources_write
  old ← get_row workspace_id item_id
  compare_update s actor workspace_id item_id version title status context now old

permitted_update :
    Service → Principal → Text → Text → ℕ → UpdateInput → AuditContext → ℕ → Option Text → Exec Item
unfolding permit update_body transact
permitted_update s actor workspace_id item_id version input context now title =
    permit actor workspace_id resources_write
    >> transact (update_body s actor workspace_id item_id version title input.status context now)

-- `Update`, behind the check of the title.
update_titled :
    Service → Principal → Text → Text → ℕ → UpdateInput → AuditContext → ℕ → Option Text → Exec Item
unfolding permitted_update
update_titled s actor workspace_id item_id version input context now title w =
    if status_ok input.status
    then permitted_update s actor workspace_id item_id version input context now title w
    else raise invalid_input w

update_checked : Service → Principal → Text → Text → ℕ → UpdateInput → AuditContext → ℕ → Exec Item
unfolding accepted_title update_titled
update_checked s actor workspace_id item_id version input context now =
    continue (accepted_title input.title)
      (update_titled s actor workspace_id item_id version input context now)

-- `Update`.
unfoldable pub update :
    Service → Principal → Text → Text → ℕ → UpdateInput → AuditContext → Exec Item
unfolding update_checked
update s actor workspace_id item_id version input context w =
    if ltb version 1 || (is_none input.title && is_none input.status)
    then raise invalid_input w
    else update_checked s actor workspace_id item_id version input context w.now w

-- DELETE FROM items …, which deletes the public links of the item too (ON DELETE CASCADE).
delete_item : Text → Text → ℕ → Exec ℕ
unfolding execute
delete_item workspace_id item_id version = execute (λ db.
    let deleted = count (at_version workspace_id item_id version) db.items in
    (
      record db {
        items = filter (λ i. not (at_version workspace_id item_id version i)) db.items;
        links =
            if deleted == 0
            then db.links
            else filter (λ l. not (text_eq l.item_id item_id)) db.links;
      },
      deleted,
    ))

finish_delete : Service → Principal → Text → AuditContext → ℕ → Item → Exec (End (Unit {0}))
unfolding record_change publish audit_item
finish_delete s actor workspace_id context now item = do
  record_change workspace_id item.id (ascii "deleted") (item.version + 1) now
  publish s workspace_id (ascii "item.deleted") item now
  audit_item (ascii "item.deleted") (ascii "item.delete") actor workspace_id item.id
      (permanent item.version) context now
  pure (commit tt)

write_delete :
    Service → Principal → Text → Text → ℕ → AuditContext → ℕ → Item → Exec (End (Unit {0}))
unfolding delete_item finish_delete
write_delete s actor workspace_id item_id version context now item = do
  changed ← delete_item workspace_id item_id version
  guard (changed == 1) precondition_failed
  finish_delete s actor workspace_id context now item

compare_delete :
    Service → Principal → Text → Text → ℕ → AuditContext → ℕ → Item → Exec (End (Unit {0}))
unfolding write_delete
compare_delete s actor workspace_id item_id version context now item =
    guard (item.version == version) precondition_failed
    >> write_delete s actor workspace_id item_id version context now item

pub delete_body : Service → Principal → Text → Text → ℕ → AuditContext → ℕ → Exec (End (Unit {0}))
unfolding permit get_row compare_delete
delete_body s actor workspace_id item_id version context now = do
  permit actor workspace_id resources_write
  item ← get_row workspace_id item_id
  compare_delete s actor workspace_id item_id version context now item

delete_checked : Service → Principal → Text → Text → ℕ → AuditContext → ℕ → Exec (Unit {0})
unfolding permit delete_body transact
delete_checked s actor workspace_id item_id version context now =
    permit actor workspace_id resources_write
    >> transact (delete_body s actor workspace_id item_id version context now)

-- `Delete`.
unfoldable pub delete : Service → Principal → Text → Text → ℕ → AuditContext → Exec (Unit {0})
unfolding delete_checked
delete s actor workspace_id item_id version context w =
    if ltb version 1
    then raise invalid_input w
    else delete_checked s actor workspace_id item_id version context w.now w
