-- ===== src/Items/Update/Failures.antt =====
-- internal/items/service.go: `Update` and `Delete` that report an error.
use dynamis_code_apps_templa.Prelude.{
  ℕ, ◌≡◌, refl, Option, Text, arith, is_none, ◌||◌, ◌&&◌, ltb, inl, inr, Bool-cases,
}
use dynamis_code_apps_templa.Schema.{AuditContext}
use dynamis_code_apps_templa.Exec.{Error, Result-cases, err, World}
use dynamis_code_apps_templa.Exec.Atomic.{transact-unchanged}
use dynamis_code_apps_templa.Identity.{permit, Principal}
use dynamis_code_apps_templa.Identity.Policy.{resources_write}
use dynamis_code_apps_templa.Items.{Service, UpdateInput}
use dynamis_code_apps_templa.Identity.Authorize.{permit-db}
use dynamis_code_apps_templa.Items.Update.{
  permitted_update, update_titled, update_checked, update_body, update, delete, delete_body,
  delete_checked, accepted_title, status_ok,
}

module _ (s : Service) (actor : Principal) (workspace_id item_id : Text) (version : ℕ)
    (context : AuditContext) where
  permitted_update-unchanged :
      (input : UpdateInput) (now : ℕ) (title : Option Text) (w : World) {e : Error}
      → (permitted_update s actor workspace_id item_id version input context now title w).0 ≡ err e
      → (permitted_update s actor workspace_id item_id version input context now title w).1.db
        ≡ w.db
  unfolding permitted_update
  permitted_update-unchanged input now title w {e} h =
      let here = permit-db actor workspace_id resources_write w in
      elim (Result-cases (permit actor workspace_id resources_write w).0) [
        | inl (u, may) ↦
            let same =
              transact-unchanged
                (update_body s actor workspace_id item_id version title input.status context now)
                (permit actor workspace_id resources_write w).1 {e = e} (ground arith) in
            ground arith
        | inr (f, may_not) ↦ ground arith
      ]

  update_titled-unchanged :
      (input : UpdateInput) (now : ℕ) (title : Option Text) (w : World) {e : Error}
      → (update_titled s actor workspace_id item_id version input context now title w).0 ≡ err e
      → (update_titled s actor workspace_id item_id version input context now title w).1.db ≡ w.db
  unfolding update_titled
  update_titled-unchanged input now title w {e} h = elim (Bool-cases (status_ok input.status)) [
    | inl fine ↦ rw fine (permitted_update-unchanged input now title w {e = e} (ground arith))
    | inr bad ↦ rw bad refl
  ]

  update_checked-unchanged :
      (input : UpdateInput) (now : ℕ) (w : World) {e : Error}
      → (update_checked s actor workspace_id item_id version input context now w).0 ≡ err e
      → (update_checked s actor workspace_id item_id version input context now w).1.db ≡ w.db
  unfolding update_checked
  update_checked-unchanged input now w {e} h = elim (Result-cases (accepted_title input.title)) [
    | inl (title, fine) ↦ rw fine (update_titled-unchanged input now title w {e = e} (ground arith))
    | inr (f, bad) ↦ rw bad refl
  ]

  -- An update that fails, wherever it fails, leaves the database as it was.
  pub update_atomic :
      (input : UpdateInput) (w : World) {e : Error}
      → (update s actor workspace_id item_id version input context w).0 ≡ err e
      → (update s actor workspace_id item_id version input context w).1.db ≡ w.db
  unfolding update
  update_atomic input w {e} h =
      elim (Bool-cases (ltb version 1 || (is_none input.title && is_none input.status))) [
        | inl bad ↦ rw bad refl
        | inr fine ↦ rw fine (update_checked-unchanged input w.now w {e = e} (ground arith))
      ]

  delete_checked-unchanged :
      (now : ℕ) (w : World) {e : Error}
      → (delete_checked s actor workspace_id item_id version context now w).0 ≡ err e
      → (delete_checked s actor workspace_id item_id version context now w).1.db ≡ w.db
  unfolding delete_checked
  delete_checked-unchanged now w {e} h =
      let here = permit-db actor workspace_id resources_write w in
      elim (Result-cases (permit actor workspace_id resources_write w).0) [
        | inl (u, may) ↦
            let same =
              transact-unchanged (delete_body s actor workspace_id item_id version context now)
                (permit actor workspace_id resources_write w).1 {e = e} (ground arith) in
            ground arith
        | inr (f, may_not) ↦ ground arith
      ]

  -- A deletion that fails, wherever it fails, leaves the database as it was.
  pub delete_atomic :
      (w : World) {e : Error}
      → (delete s actor workspace_id item_id version context w).0 ≡ err e
      → (delete s actor workspace_id item_id version context w).1.db ≡ w.db
  unfolding delete
  delete_atomic w {e} h = elim (Bool-cases (ltb version 1)) [
    | inl bad ↦ rw bad refl
    | inr fine ↦ rw fine (delete_checked-unchanged w.now w {e = e} (ground arith))
  ]
