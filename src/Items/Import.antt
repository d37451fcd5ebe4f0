-- ===== src/Items/Import.antt =====
-- internal/items/service.go: `ImportInTx`, the items of an import, inside the caller's transaction.
pub mod Stored
mod Tests
use dynamis_code_apps_templa.Prelude.{
  ℕ, ◌+◌, Bool, not, Option, none, some, List, [], ◌∷◌, ◌++◌, Text, ascii, length, leb, is_nil,
}
use dynamis_code_apps_templa.Schema.{Item}
use dynamis_code_apps_templa.Exec.{
  invalid_input, limit_reached, Exec, pure, raise, guard, ◌>>=◌, ◌>>◌, fresh,
}
use dynamis_code_apps_templa.Identity.{Principal, permit}
use dynamis_code_apps_templa.Identity.Policy.{workspace_update}
use dynamis_code_apps_templa.Items.{Service}
use dynamis_code_apps_templa.Items.Input.{ImportItem, normalize_import_item}
use dynamis_code_apps_templa.Items.Changes.{record_change}
use dynamis_code_apps_templa.Items.Create.{insert_item, count_items}

module _ (actor : Principal) (workspace_id : Text) (now : ℕ) where
  unfoldable pub imported_item : Text → ImportItem → Item
  imported_item item_id value = record {
    id = item_id;
    workspace_id = workspace_id;
    created_by_user_id = some actor.user_id;
    title = value.title;
    status = value.status;
    version = 1;
    created_at = now;
    updated_at = now;
  }

  unfoldable pub write_item : Item → Exec Item
  unfolding insert_item record_change
  write_item item = do
    insert_item item
    record_change workspace_id item.id (ascii "created") item.version now
    pure item

  unfoldable pub import_normalized : Option ImportItem → Exec Item
  unfolding imported_item write_item fresh
  import_normalized none = raise invalid_input
  import_normalized (some value) = do item_id ← fresh; write_item (imported_item item_id value)

  -- The loop over the input.
  unfoldable pub import_items : List ImportItem → Exec (List Item)
  unfolding import_normalized normalize_import_item
  import_items [] = pure []
  import_items (value ∷ input) = do
    item ← import_normalized (normalize_import_item value)
    rest ← import_items input
    pure (item ∷ rest)

-- `ImportInTx`. The integers compare the count with `maxItems - len(input)`, which may be below 0:
-- here the sum stands on the other side.
unfoldable pub import_in_tx : Service → Principal → Text → List ImportItem → ℕ → Exec (List Item)
unfolding permit count_items import_items
import_in_tx s actor workspace_id input now = do
  guard (not (is_nil input)) invalid_input
  permit actor workspace_id workspace_update
  item_count ← count_items workspace_id
  guard (leb (item_count + length input) s.max_items) limit_reached
  import_items actor workspace_id now input
