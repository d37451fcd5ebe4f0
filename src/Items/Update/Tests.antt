-- ===== src/Items/Update/Tests.antt =====
-- Runs of `Update` and `Delete`, and their theorems at concrete items.
use dynamis_code_apps_templa.Prelude.{◌≤◌, ◌≡◌, refl, none, some, [], ◌∷◌, ascii, arith, text_eq}
use dynamis_code_apps_templa.Schema.{empty_database, Item, AuditContext}
use dynamis_code_apps_templa.Exec.{
  Error, precondition_failed, not_found, ok, err, World, query, execute, statement, fresh, close,
  begun, transact,
}
use dynamis_code_apps_templa.Identity.{
  permit, Principal, as_actor, authorize, authorize_principal, granted, is_member, audit,
}
use dynamis_code_apps_templa.Identity.Policy.{
  permissions_for_role, role_permissions, contains, owner,
}
use dynamis_code_apps_templa.Items.{Service, UpdateInput, publish, audit_item, get_row}
use dynamis_code_apps_templa.Items.Changes.{record_change, insert_event, trim_changes}
use dynamis_code_apps_templa.Items.Input.{complete}
use dynamis_code_apps_templa.Items.Frame.{KeepsItems}
use dynamis_code_apps_templa.Items.Update.{
  accepted_title, updated, update_item, finish_update, write_update, compare_update, update_body,
  permitted_update, update_titled, update_checked, update, delete_item, finish_delete, write_delete,
  compare_delete, delete_body, delete_checked, delete,
}
use dynamis_code_apps_templa.Items.Update.Versions.{IsUpdated, update-IsUpdated}
use dynamis_code_apps_templa.Items.Update.Failures.{update_atomic}
use dynamis_code_apps_templa.Items.Update.Removed.{IsRemoved, delete-IsRemoved}
use dynamis_code_apps_templa.Items.Update.Race.{lost_update}

abbrev service : Service
service = record { max_items = 10; publisher = none; hash = λ t. t }

abbrev alice : Principal
unfolding permissions_for_role role_permissions
alice = record {
  user_id = ascii "alice";
  workspace_id = ascii "w";
  role = owner;
  permissions = permissions_for_role owner;
  auth_method = ascii "session";
  token_id = [];
  auth_level = 1;
}

abbrev task : Item
task = record {
  id = ascii "i";
  workspace_id = ascii "w";
  created_by_user_id = some (ascii "alice");
  title = ascii "Task";
  status = ascii "active";
  version = 3;
  created_at = 0;
  updated_at = 0;
}

abbrev context : AuditContext
context = record { request_id = ascii "r"; source_address = ascii "::1" }

abbrev world : World
world = record {
  db = record empty_database {
    members =
        record { workspace_id = ascii "w"; user_id = ascii "alice"; role = owner; created_at = 0 }
        ∷ [];
    items = task ∷ [];
  };
  now = 7;
  faults = [];
  entropy = some (ascii "e1") ∷ some (ascii "e2") ∷ [];
}

abbrev done : UpdateInput
done = record { title = none; status = some complete }

abbrev done_task : Item
done_task = record task { status = complete; version = 4; updated_at = 7 }

service-KeepsItems : KeepsItems service
unfolding KeepsItems
service-KeepsItems send e workspace_id event_type item now w = absurd (ground arith)

updates : (update service alice (ascii "w") (ascii "i") 3 done context world).0 ≡ ok done_task
unfolding update update_checked accepted_title update_titled permitted_update update_body
    compare_update write_update finish_update update_item updated permit publish audit_item get_row
    record_change insert_event trim_changes as_actor authorize authorize_principal granted is_member
    audit text_eq query execute statement fresh close begun transact permissions_for_role
    role_permissions contains
updates = refl

stale :
    (update service alice (ascii "w") (ascii "i") 2 done context world).0 ≡ err precondition_failed
unfolding update update_checked accepted_title update_titled permitted_update update_body
    compare_update write_update finish_update update_item updated permit publish audit_item get_row
    record_change insert_event trim_changes as_actor authorize authorize_principal granted is_member
    audit text_eq query execute statement fresh close begun transact permissions_for_role
    role_permissions contains
stale = refl

removes : (delete service alice (ascii "w") (ascii "i") 3 context world).0 ≡ ok tt
unfolding delete delete_checked delete_body compare_delete write_delete finish_delete delete_item
    permit publish audit_item get_row record_change insert_event trim_changes as_actor authorize
    authorize_principal granted is_member audit text_eq query execute statement fresh close begun
    transact permissions_for_role role_permissions contains
removes = refl

missing : (delete service alice (ascii "w") (ascii "j") 3 context world).0 ≡ err not_found
unfolding delete delete_checked delete_body permit get_row as_actor authorize authorize_principal
    granted is_member text_eq query statement close begun transact permissions_for_role
    role_permissions contains
missing = refl

update-IsUpdated_example :
    (1 ≤ 3)
    × IsUpdated
        (ascii "w")
        (ascii "i")
        3
        done
        7
        world.db
        (update service alice (ascii "w") (ascii "i") 3 done context world).1.db
        done_task
update-IsUpdated_example =
    update-IsUpdated service service-KeepsItems alice (ascii "w") context (ascii "i") 3 done world
      updates

update_atomic_example :
    (update service alice (ascii "w") (ascii "i") 2 done context world).1.db ≡ world.db
update_atomic_example =
    update_atomic service alice (ascii "w") (ascii "i") 2 context done world stale

abbrev after_update : World
after_update = (update service alice (ascii "w") (ascii "i") 3 done context world).1

lost_update_example :
    (e : Error) × ((update service alice (ascii "w") (ascii "i") 3 done context after_update).0
      ≡ err e)
    × ((update service alice (ascii "w") (ascii "i") 3 done context after_update).1.db
        ≡ after_update.db)
lost_update_example =
    lost_update service service-KeepsItems alice alice (ascii "w") (ascii "i") 3 done done context
      world after_update updates refl

delete-IsRemoved_example :
    IsRemoved
      (ascii "w")
      (ascii "i")
      3
      world.db
      (delete service alice (ascii "w") (ascii "i") 3 context world).1.db
delete-IsRemoved_example =
    delete-IsRemoved service service-KeepsItems alice (ascii "w") (ascii "i") 3 context world
      removes
