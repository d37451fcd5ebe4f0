-- ===== src/Items/Import/Tests.antt =====
-- An import into a concrete workspace.
use dynamis_code_apps_templa.Prelude.{
  ◌≡◌, ◌≤◌, refl, false, some, none, List, [], ◌∷◌, ◌++◌, Text, ascii, count, is_nil, text_eq,
  trim_space, skip_space, valid_utf8, rune_count,
}
use dynamis_code_apps_templa.Schema.{empty_database, Item}
use dynamis_code_apps_templa.Exec.{ok, World, query, execute, statement, fresh}
use dynamis_code_apps_templa.Identity.{
  permit, Principal, as_actor, authorize, authorize_principal, granted, is_member,
}
use dynamis_code_apps_templa.Identity.Policy.{
  permissions_for_role, role_permissions, contains, owner,
}
use dynamis_code_apps_templa.Items.{Service}
use dynamis_code_apps_templa.Items.Input.{
  ImportItem, active, complete, normalize_import_item, validate_title,
}
use dynamis_code_apps_templa.Items.Changes.{record_change, insert_event, trim_changes}
use dynamis_code_apps_templa.Items.Create.{insert_item, count_items}
use dynamis_code_apps_templa.Items.Import.{
  imported_item, write_item, import_normalized, import_items, import_in_tx,
}
use dynamis_code_apps_templa.Items.Import.Stored.{in_workspace, Imported, import_in_tx-Imported}

abbrev service : Service
service = record { max_items = 2; publisher = none; hash = λ t. t }

abbrev alice : Principal
unfolding permissions_for_role role_permissions
alice = record {
  user_id = ascii "alice";
  workspace_id = ascii "w";
  role = owner;
  permissions = permissions_for_role owner;
  auth_method = ascii "session";
  token_id = [];
  auth_level = 1;
}

abbrev world : World
world = record {
  db = record empty_database {
    members =
        record { workspace_id = ascii "w"; user_id = ascii "alice"; role = owner; created_at = 0 }
        ∷ [];
  };
  now = 7;
  faults = [];
  entropy = some (ascii "a") ∷ some (ascii "e1") ∷ some (ascii "b") ∷ some (ascii "e2") ∷ [];
}

abbrev input : List ImportItem
input =
    record { title = ascii " Task "; status = [] }
    ∷ record { title = ascii "Done"; status = complete }
    ∷ []

abbrev task : Text → Text → Text → Item
task id title status = record {
  id = id;
  workspace_id = ascii "w";
  created_by_user_id = some (ascii "alice");
  title = title;
  status = status;
  version = 1;
  created_at = 7;
  updated_at = 7;
}

abbrev tasks : List Item
tasks = task (ascii "a") (ascii "Task") active ∷ task (ascii "b") (ascii "Done") complete ∷ []

imports : (import_in_tx service alice (ascii "w") input 7 world).0 ≡ ok tasks
unfolding import_in_tx import_items import_normalized write_item imported_item insert_item
    count_items record_change insert_event trim_changes permit as_actor authorize
    authorize_principal granted is_member text_eq query execute statement fresh permissions_for_role
    role_permissions contains alice normalize_import_item validate_title trim_space skip_space
    valid_utf8 rune_count
imports = refl

import_in_tx-Imported_example :
    (is_nil input ≡ false)
    × Imported alice (ascii "w") 7 input tasks
    × ((import_in_tx service alice (ascii "w") input 7 world).1.db.items ≡ world.db.items ++ tasks)
    × (count (in_workspace (ascii "w")) (world.db.items ++ tasks) ≤ service.max_items)
import_in_tx-Imported_example =
    import_in_tx-Imported service alice (ascii "w") input 7 world tasks imports
