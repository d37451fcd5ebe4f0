-- ===== src/Items/Create/Tests.antt =====
-- Runs of `Create`, and its theorems at a concrete workspace.
use dynamis_code_apps_templa.Prelude.{
  ℕ, ◌⊎◌, ◌≡◌, refl, true, false, none, some, [], ◌∷◌, Text, ascii, arith, find, text_eq,
  trim_space, valid_utf8, rune_count,
}
use dynamis_code_apps_templa.Schema.{empty_database, Item, IdempotencyRecord, AuditContext}
use dynamis_code_apps_templa.Exec.{
  limit_reached, ok, err, World, query, execute, statement, fresh, close, begun, transact,
}
use dynamis_code_apps_templa.Identity.{
  permit, Principal, as_actor, authorize, authorize_principal, granted, is_member, audit,
}
use dynamis_code_apps_templa.Identity.Policy.{
  permissions_for_role, role_permissions, contains, owner, resources_write,
}
use dynamis_code_apps_templa.Items.{Service, CreateResult, publish, principal_id, audit_item}
use dynamis_code_apps_templa.Items.Changes.{record_change, insert_event, trim_changes}
use dynamis_code_apps_templa.Items.Input.{active, validate_title, valid_idempotency_key}
use dynamis_code_apps_templa.Items.Frame.{KeepsItems}
use dynamis_code_apps_templa.Items.Create.{
  again, new_item, new_record, insert_item, count_items, insert_record, is_record, finish_create,
  after_record, record_create, write_create, create_item, is_own_record, use_record, look_up,
  create_body, attempt, answer, after_first, create_twice, permitted_create, create_titled, create,
}
use dynamis_code_apps_templa.Items.Create.Attempts.{own}
use dynamis_code_apps_templa.Items.Create.Failures.{create_atomic}
use dynamis_code_apps_templa.Items.Create.Replay.{create_replays}
use dynamis_code_apps_templa.Items.Create.Stored.{IsNew, create-IsNew}

abbrev roomy : Service
roomy = record { max_items = 1; publisher = none; hash = λ t. t }

abbrev full : Service
full = record { max_items = 0; publisher = none; hash = λ t. t }

abbrev alice : Principal
unfolding permissions_for_role role_permissions
alice = record {
  user_id = ascii "alice";
  workspace_id = ascii "w";
  role = owner;
  permissions = permissions_for_role owner;
  auth_method = ascii "session";
  token_id = [];
  auth_level = 1;
}

abbrev context : AuditContext
context = record { request_id = ascii "r"; source_address = ascii "::1" }

abbrev world : World
world = record {
  db = record empty_database {
    members =
        record { workspace_id = ascii "w"; user_id = ascii "alice"; role = owner; created_at = 0 }
        ∷ [];
  };
  now = 7;
  faults = [];
  entropy = some (ascii "i") ∷ some (ascii "e1") ∷ some (ascii "e2") ∷ [];
}

abbrev task : Item
task = record {
  id = ascii "i";
  workspace_id = ascii "w";
  created_by_user_id = some (ascii "alice");
  title = ascii "Task";
  status = active;
  version = 1;
  created_at = 7;
  updated_at = 7;
}

abbrev stored_record : IdempotencyRecord
unfolding principal_id
stored_record = record {
  key_hash = ascii "key";
  principal_id = principal_id alice;
  workspace_id = ascii "w";
  operation = ascii "items.create";
  request_hash = ascii "Task";
  result = task;
  created_at = 7;
  expires_at = 9;
}

abbrev repeated : World
repeated = record world { db = record world.db { idempotency = stored_record ∷ [] } }

roomy-KeepsItems : KeepsItems roomy
unfolding KeepsItems
roomy-KeepsItems send e workspace_id event_type item now w = absurd (ground arith)

full-KeepsItems : KeepsItems full
unfolding KeepsItems
full-KeepsItems send e workspace_id event_type item now w = absurd (ground arith)

title_is_valid : validate_title (ascii " Task ") ≡ some (ascii "Task")
unfolding validate_title trim_space valid_utf8 rune_count
title_is_valid = refl

creates :
    (create roomy alice (ascii "w") (ascii " Task ") (ascii "key") context world).0
    ≡ ok (record { item = task; replay = false })
unfolding create create_titled permitted_create create_twice after_first answer attempt create_body
    look_up use_record create_item write_create record_create after_record finish_create
    insert_record insert_item count_items new_item new_record is_own_record is_record validate_title
    valid_idempotency_key trim_space valid_utf8 rune_count permit principal_id publish audit_item
    record_change insert_event trim_changes as_actor authorize authorize_principal granted is_member
    audit text_eq query execute statement fresh close begun transact permissions_for_role
    role_permissions contains
creates = refl

is_full :
    (create full alice (ascii "w") (ascii " Task ") (ascii "key") context world).0
    ≡ err limit_reached
unfolding create create_titled permitted_create create_twice after_first answer attempt create_body
    look_up use_record create_item write_create record_create after_record finish_create
    insert_record insert_item count_items new_item new_record is_own_record is_record validate_title
    valid_idempotency_key trim_space valid_utf8 rune_count permit principal_id publish audit_item
    record_change insert_event trim_changes as_actor authorize authorize_principal granted is_member
    audit text_eq query execute statement fresh close begun transact permissions_for_role
    role_permissions contains
is_full = refl

record_found :
    find
      (own roomy roomy-KeepsItems alice (ascii "w") (ascii "Task") (ascii "key") context)
      repeated.db.idempotency
    ≡ some stored_record
unfolding own is_own_record is_record principal_id text_eq alice
record_found = refl

create-IsNew_example :
    (title : Text) × (validate_title (ascii " Task ") ≡ some title)
    × (title ≡ trim_space (ascii " Task "))
    × (now : ℕ) × ((now ≡ world.now)
        ⊎ (((attempt roomy alice
                (ascii "w")
                title
                (ascii "key")
                context
                true
                (permit alice (ascii "w") resources_write world).1).0
              ≡ ok again)
            × (now
                ≡ (attempt roomy alice
                    (ascii "w")
                    title
                    (ascii "key")
                    context
                    true
                    (permit alice (ascii "w") resources_write world).1).1.now)))
    × IsNew roomy roomy-KeepsItems alice
        (ascii "w")
        title
        (ascii "key")
        context
        now
        world.db
        task
        (create roomy alice (ascii "w") (ascii " Task ") (ascii "key") context world).1.db
create-IsNew_example =
    create-IsNew roomy roomy-KeepsItems alice (ascii "w") (ascii " Task ") (ascii "key") context
      world (record { item = task; replay = false }) creates refl

create_atomic_example :
    (create full alice (ascii "w") (ascii " Task ") (ascii "key") context world).1.db ≡ world.db
create_atomic_example =
    create_atomic full full-KeepsItems alice (ascii "w") (ascii " Task ") (ascii "key") context
      world limit_reached is_full

create_replays_example :
    ((create roomy alice (ascii "w") (ascii " Task ") (ascii "key") context repeated).1.db
      ≡ repeated.db)
    × ((x : CreateResult)
        → (create roomy alice (ascii "w") (ascii " Task ") (ascii "key") context repeated).0 ≡ ok x
        → (x.replay ≡ true) × (x.item ≡ task) × (ascii "Task" ≡ ascii "Task"))
unfolding stored_record
create_replays_example =
    create_replays roomy roomy-KeepsItems alice (ascii "w") (ascii " Task ") (ascii "Task")
      (ascii "key") context repeated stored_record title_is_valid record_found (omega arith)
