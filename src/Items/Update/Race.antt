-- ===== src/Items/Update/Race.antt =====
-- internal/items/service.go: two callers of `Update` that have seen the same version.
use dynamis_code_apps_templa.Prelude.{
  ℕ, ◌+◌, ◌≡◌, some, List, [], ◌∷◌, Text, arith, find, update_where, ◌==◌, inl, inr, Bool-cases,
}
use dynamis_code_apps_templa.Schema.{Item, AuditContext}
use dynamis_code_apps_templa.Exec.{Error, Result-cases, ok, err, World}
use dynamis_code_apps_templa.Identity.{Principal}
use dynamis_code_apps_templa.Items.{Service, UpdateInput, is_item}
use dynamis_code_apps_templa.Items.Frame.{KeepsItems}
use dynamis_code_apps_templa.Items.Update.{at_version, stamped, update}
use dynamis_code_apps_templa.Items.Update.Versions.{update-IsUpdated}
use dynamis_code_apps_templa.Items.Update.Failures.{update_atomic}

-- Behind an UPDATE that moves a version on, no row of the item has the version.
find-update_where :
    (workspace_id item_id : Text) (version : ℕ) (item : Item) (rows : List Item) (row : Item)
    → item.version ≡ version + 1
    → find
        (is_item workspace_id item_id)
        (update_where (at_version workspace_id item_id version) (stamped item) rows)
      ≡ some row
    → row.version ≡ version
    → ⊥
find-update_where workspace_id item_id version item [] row next found same = absurd (ground arith)
find-update_where workspace_id item_id version item (r ∷ rows) row next found same =
    elim (Bool-cases (is_item workspace_id item_id r)) [
      | inl here ↦ elim (Bool-cases (r.version == version)) [
        | inl current ↦ ground arith
        | inr stale ↦ ground arith
      ]
      | inr elsewhere ↦
          find-update_where workspace_id item_id version item rows row next (ground arith) same
    ]

-- Of two updates that name the same version of an item, where the second finds the items that the
-- first left and the publisher leaves the items alone, at most one succeeds: the second reports an
-- error and leaves the database as it was.
pub lost_update :
    (s : Service) (keeps : KeepsItems s) (first second : Principal) (workspace_id item_id : Text)
    (version : ℕ) (one two : UpdateInput) (context : AuditContext) (w v : World) {item : Item}
    → (update s first workspace_id item_id version one context w).0 ≡ ok item
    → v.db.items ≡ (update s first workspace_id item_id version one context w).1.db.items
    → (e : Error) × ((update s second workspace_id item_id version two context v).0 ≡ err e)
      × ((update s second workspace_id item_id version two context v).1.db ≡ v.db)
lost_update s keeps first second workspace_id item_id version one two context w v {item} h between =
    elim (Result-cases (update s second workspace_id item_id version two context v).0) [
      | inr (e, failed) ↦ (
        e,
        failed,
        update_atomic s second workspace_id item_id version context two v {e = e} failed,
      )
      | inl (other, h') ↦
          let (_, a) =
            update-IsUpdated s keeps first workspace_id context item_id version one w {item = item}
              h in
          let (_, b) =
            update-IsUpdated s keeps second workspace_id context item_id version two v
              {item = other} h' in
          absurd (
            find-update_where workspace_id item_id version item w.db.items b.old a.version_of
              (rw (← a.left, ← between) b.stored) b.current)
    ]
