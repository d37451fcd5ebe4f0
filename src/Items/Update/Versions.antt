-- ===== src/Items/Update/Versions.antt =====
-- internal/items/service.go: what a successful `Update` has read and written.
use dynamis_code_apps_templa.Prelude.{
  ℕ, ◌+◌, ◌≤◌, ◌≡◌, refl, ap, true, none, ◌⊎◌, ascii, is_nil, text_eq_iff, trim_space, valid_utf8,
  rune_count, Bool, false, Option, some, Text, arith, find, update_where, is_none, ◌||◌, ◌&&◌, ltb,
  inl, inr, Bool-cases,
}
use dynamis_code_apps_templa.Schema.{Item, Database, AuditContext}
use dynamis_code_apps_templa.Exec.{Result-cases, ok, World, commit}
use dynamis_code_apps_templa.Identity.{permit, Principal}
use dynamis_code_apps_templa.Identity.Policy.{resources_write}
use dynamis_code_apps_templa.Items.Input.{validate_title, too_long}
use dynamis_code_apps_templa.Items.{Service, UpdateInput, is_item}
use dynamis_code_apps_templa.Items.Update.{
  at_version, updated, permitted_update, update_titled, update_checked, update, accepted_title,
  status_ok,
}
use dynamis_code_apps_templa.Items.Frame.{KeepsItems}
use dynamis_code_apps_templa.Identity.Authorize.{permit-db}
use dynamis_code_apps_templa.Items.Update.Written.{IsWritten, transact_update-ok}

-- The title that an update gives: the trimmed text of the caller, which has 1 to 200 characters of valid
-- UTF-8, or the old title where the caller sends none.
abbrev pub HasTitle : Option Text → Item → Item → Type 0
HasTitle none old item = item.title ≡ old.title
HasTitle (some raw) old item =
    (item.title ≡ trim_space raw)
    × (is_nil (trim_space raw) ≡ false)
    × (valid_utf8 (trim_space raw) ≡ true)
    × (rune_count (trim_space raw) ≤ 200)

-- The status that an update gives: the caller's, which is a known one, or the old.
abbrev pub HasStatus : Option Text → Item → Item → Type 0
HasStatus none old item = item.status ≡ old.status
HasStatus (some status) old item =
    (item.status ≡ status) × ((status ≡ ascii "active") ⊎ (status ≡ ascii "complete"))

accepted_title-HasTitle :
    (given title status : Option Text) (now : ℕ) (old : Item)
    → accepted_title given ≡ ok title
    → HasTitle given old (updated title status now old)
unfolding accepted_title validate_title updated
accepted_title-HasTitle none title status now old h =
    let kept : title ≡ none = ground arith in rw kept refl
accepted_title-HasTitle (some raw) title status now old h =
    elim (Bool-cases (is_nil (trim_space raw) || too_long 200 (trim_space raw))) [
      | inl bad ↦ absurd (ground arith)
      | inr fine ↦
          let given : title ≡ some (trim_space raw) = ground arith in
          rw given (refl, ground arith, ground arith, ground arith)
    ]

status_ok-HasStatus :
    (status title : Option Text) (now : ℕ) (old : Item)
    → status_ok status ≡ true
    → HasStatus status old (updated title status now old)
unfolding updated
status_ok-HasStatus none title now old h = refl
status_ok-HasStatus (some status) title now old h = (
  refl,
  ground (arith, text_eq_iff status (ascii "active"), text_eq_iff status (ascii "complete")),
)

-- What an update that returns `item` has found in `before` and left in `after`: the item was stored
-- at the version that the caller named; the returned item is the stored one with the title
-- and the status of the caller, the next version and the time of the update; of the items, the one row
-- of the item at that version is written, with these four fields of the item.
pub record IsUpdated (workspace_id item_id : Text) (version : ℕ) (input : UpdateInput) (now : ℕ)
    (before after : Database) (item : Item) : Type 0 where
  pub old : Item
  pub stored : find (is_item workspace_id item_id) before.items ≡ some old
  pub current : old.version ≡ version
  pub title_of : HasTitle input.title old item
  pub status_of : HasStatus input.status old item
  pub version_of : item.version ≡ version + 1
  pub updated_at : item.updated_at ≡ now
  pub kept :
      (item.id ≡ old.id)
      × (item.workspace_id ≡ old.workspace_id)
      × (item.created_by_user_id ≡ old.created_by_user_id)
      × (item.created_at ≡ old.created_at)
  pub left :
      after.items
      ≡ update_where
          (at_version workspace_id item_id version)
          (λ row. record row {
            title = item.title;
            status = item.status;
            version = item.version;
            updated_at = item.updated_at;
          })
          before.items

positive : (version : ℕ) (nothing : Bool) → (ltb version 1 || nothing) ≡ false → 1 ≤ version
positive version nothing h = ground arith

module _ (s : Service) (keeps : KeepsItems s) (actor : Principal) (workspace_id : Text)
    (context : AuditContext) where
  concluded :
      {item_id : Text} {version : ℕ} {input : UpdateInput} {title : Option Text} {now : ℕ}
      {start before after : Database} {item : Item}
      → accepted_title input.title ≡ ok title
      → status_ok input.status ≡ true
      → before ≡ start
      → IsWritten s keeps actor workspace_id context item_id version title input.status now before
          (commit item)
          after
      → IsUpdated workspace_id item_id version input now start after item
  unfolding IsWritten updated
  concluded {version = version} {input = input} {title = title} {now = now} {item = item} accepted
        fine same (old, stored, current, written, left) =
      let returned : item ≡ updated title input.status now old = ground arith in
      record {
        old = old;
        stored = rw (← same) stored;
        current = current;
        title_of =
            rw returned (accepted_title-HasTitle input.title title input.status now old accepted);
        status_of = rw returned (status_ok-HasStatus input.status title now old fine);
        version_of = rw returned (ap (λ n. n + 1) current);
        updated_at = rw returned refl;
        kept = rw returned (refl, refl, refl, refl);
        left = rw (returned, ← same) left;
      }

  permitted_update-ok :
      (item_id : Text) (version : ℕ) (input : UpdateInput) (title : Option Text) (now : ℕ)
      (w : World) {item : Item}
      → accepted_title input.title ≡ ok title
      → status_ok input.status ≡ true
      → (permitted_update s actor workspace_id item_id version input context now title w).0
        ≡ ok item
      → IsUpdated workspace_id item_id version input now w.db
          (permitted_update s actor workspace_id item_id version input context now title w).1.db
          item
  unfolding permitted_update
  permitted_update-ok item_id version input title now w {item} accepted fine h =
      elim (Result-cases (permit actor workspace_id resources_write w).0) [
        | inl (x, may) ↦ rw may (
            concluded accepted fine (permit-db actor workspace_id resources_write w) (
              transact_update-ok s keeps actor workspace_id context item_id version title
                input.status now (permit actor workspace_id resources_write w).1 {item = item}
                (ground arith)))
        | inr (f, may_not) ↦ absurd (ground arith)
      ]

  update_checked-ok :
      (item_id : Text) (version : ℕ) (input : UpdateInput) (now : ℕ) (w : World) {item : Item}
      → (update_checked s actor workspace_id item_id version input context now w).0 ≡ ok item
      → IsUpdated workspace_id item_id version input now w.db
          (update_checked s actor workspace_id item_id version input context now w).1.db
          item
  unfolding update_checked update_titled
  update_checked-ok item_id version input now w {item} h =
      elim (Result-cases (accepted_title input.title)) [
        | inl (title, accepted) ↦ elim (Bool-cases (status_ok input.status)) [
          | inl fine ↦
              rw (accepted, fine)
                (permitted_update-ok item_id version input title now w {item = item} accepted fine
                  (ground arith))
          | inr bad ↦ absurd (ground arith)
        ]
        | inr (f, refused) ↦ absurd (ground arith)
      ]

  -- An update that succeeds has found the item at the version that its caller named, and a version from
  -- 1 on; it returns that item with the trimmed title and the status of the caller, where they are given
  -- and which are valid, the next version and the time of the update, all else kept, and writes this one
  -- row and no other item, where the publisher leaves the items alone.
  pub update-IsUpdated :
      (item_id : Text) (version : ℕ) (input : UpdateInput) (w : World) {item : Item}
      → (update s actor workspace_id item_id version input context w).0 ≡ ok item
      → (1 ≤ version)
        × IsUpdated workspace_id item_id version input w.now w.db
            (update s actor workspace_id item_id version input context w).1.db
            item
  unfolding update
  update-IsUpdated item_id version input w {item} h =
      elim (Bool-cases (ltb version 1 || (is_none input.title && is_none input.status))) [
        | inl bad ↦ absurd (ground arith)
        | inr good ↦ (
          positive version (is_none input.title && is_none input.status) good,
          rw good (update_checked-ok item_id version input w.now w {item = item} (ground arith)),
        )
      ]
