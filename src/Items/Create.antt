-- ===== src/Items/Create.antt =====
-- internal/items/service.go: `Create` and `create`, with their idempotency records.
pub mod Outcomes
pub mod Attempts
pub mod Failures
pub mod Replay
pub mod Stored
mod Tests
use dynamis_code_apps_templa.Prelude.{
  ℕ, ◌+◌, ◌*◌, Bool, true, false, ◌&&◌, not, Option, none, some, [], ◌∷◌, ◌++◌, Text, ascii, ltb,
  ◌==◌, text_eq, any, count, filter, find, if◌then◌else◌,
}
use dynamis_code_apps_templa.Clock.{second}
use dynamis_code_apps_templa.Schema.{Item, IdempotencyRecord, AuditContext, empty}
use dynamis_code_apps_templa.Exec.{
  database_failure, invalid_input, limit_reached, idempotency_conflict, ok, err, Exec, pure, raise,
  guard, ◌>>=◌, ◌>>◌, statement, query, execute, fresh, End, commit, rollback, transact,
}
use dynamis_code_apps_templa.Identity.{permit, Principal}
use dynamis_code_apps_templa.Identity.Policy.{resources_write}
use dynamis_code_apps_templa.Items.Input.{active, validate_title, valid_idempotency_key}
use dynamis_code_apps_templa.Items.{Service, CreateResult, principal_id, publish, audit_item}
use dynamis_code_apps_templa.Items.Changes.{record_change}

abbrev pub idempotency_retention : ℕ
idempotency_retention = 86400 * second

-- INSERT INTO items, whose id is a primary key.
unfoldable pub insert_item : Item → Exec (Unit {0})
unfolding statement
insert_item item = statement (λ db.
    if any (λ i. text_eq i.id item.id) db.items
    then (err database_failure, db)
    else (ok tt, record db { items = db.items ++ item ∷ [] }))

unfoldable pub count_items : Text → Exec ℕ
unfolding query
count_items workspace_id = query (λ db. count (λ i. text_eq i.workspace_id workspace_id) db.items)

-- How a transaction of `create` ends: a new item, the stored result of an earlier request, or a lost
-- race for the idempotency key, after which the transaction is run once more.
pub data Created : Type 0 where
  created replayed : Item → Created
  again : Created

is_record : Text → Text → Text → IdempotencyRecord → Bool
is_record key_hash principal workspace_id r =
    text_eq r.key_hash key_hash
    && text_eq r.principal_id principal
    && text_eq r.workspace_id workspace_id
    && text_eq r.operation (ascii "items.create")

-- INSERT INTO idempotency_records … ON CONFLICT DO NOTHING, with the number of new rows.
insert_record : IdempotencyRecord → Exec ℕ
unfolding execute is_record
insert_record r = execute (λ db.
    if any (is_record r.key_hash r.principal_id r.workspace_id) db.idempotency
    then (db, 0)
    else (record db { idempotency = db.idempotency ++ r ∷ [] }, 1))

module _ (s : Service) (actor : Principal) (workspace_id title idempotency_key : Text)
    (context : AuditContext) where
  -- The item under the drawn id, and the record of its request.
  pub new_item : Text → ℕ → Item
  new_item item_id now = record {
    id = item_id;
    workspace_id = workspace_id;
    created_by_user_id = some actor.user_id;
    title = title;
    status = active;
    version = 1;
    created_at = now;
    updated_at = now;
  }

  pub new_record : Item → ℕ → IdempotencyRecord
  new_record item now = record {
    key_hash = s.hash idempotency_key;
    principal_id = principal_id actor;
    workspace_id = workspace_id;
    operation = ascii "items.create";
    request_hash = s.hash title;
    result = item;
    created_at = now;
    expires_at = now + idempotency_retention;
  }

  finish_create : ℕ → Item → Exec (End Created)
  unfolding audit_item
  finish_create now item = do
    audit_item (ascii "item.created") (ascii "item.create") actor workspace_id item.id empty context
        now
    pure (commit (created item))

  -- Another request has stored its record first.
  lost_race : Bool → Exec (End Created)
  lost_race retry = if retry then pure (rollback again) else raise idempotency_conflict

  after_record : Bool → ℕ → Item → ℕ → Exec (End Created)
  unfolding finish_create lost_race
  after_record retry now item changed =
      if changed == 1 then finish_create now item else lost_race retry

  record_create : Bool → ℕ → Item → Exec (End Created)
  unfolding insert_record new_record after_record
  record_create retry now item = insert_record (new_record item now) >>= after_record retry now item

  write_create : Bool → ℕ → Item → Exec (End Created)
  unfolding insert_item record_change publish record_create
  write_create retry now item = do
    insert_item item
    record_change workspace_id item.id (ascii "created") item.version now
    publish s workspace_id (ascii "item.created") item now
    record_create retry now item

  -- The transaction behind the look-up of the key: the limit, the item, its change, its event, the
  -- record of the key and the audit event.
  pub create_item : Bool → ℕ → Exec (End Created)
  unfolding count_items new_item write_create
  create_item retry now = do
    item_count ← count_items workspace_id
    guard (ltb item_count s.max_items) limit_reached
    item_id ← fresh
    write_create retry now (new_item item_id now)

  pub is_own_record : IdempotencyRecord → Bool
  unfolding is_record
  is_own_record r = is_record (s.hash idempotency_key) (principal_id actor) workspace_id r

  delete_record : Exec ℕ
  unfolding execute is_own_record
  delete_record =
      execute
        (λ db. (record db { idempotency = filter (λ r. not (is_own_record r)) db.idempotency }, 1))

  replay : IdempotencyRecord → Exec (End Created)
  replay r =
      if text_eq r.request_hash (s.hash title)
      then pure (rollback (replayed r.result))
      else raise idempotency_conflict

  -- A stored record that has not expired answers the request; an expired one is deleted.
  use_record : Bool → ℕ → Option IdempotencyRecord → Exec (End Created)
  unfolding create_item delete_record replay
  use_record retry now none = create_item retry now
  use_record retry now (some r) =
      if ltb now r.expires_at then replay r else delete_record >> create_item retry now

  look_up : Exec (Option IdempotencyRecord)
  unfolding is_own_record query
  look_up = query (λ db. find is_own_record db.idempotency)

  pub create_body : Bool → ℕ → Exec (End Created)
  unfolding permit use_record look_up
  create_body retry now = do
    permit actor workspace_id resources_write
    row ← look_up
    use_record retry now row

  -- One run of the transaction, at the time of its start.
  pub attempt : Bool → Exec Created
  unfolding create_body transact
  attempt retry w = transact (create_body retry w.now) w

  pub answer : Created → Exec CreateResult
  answer (created item) = pure (record { item = item; replay = false })
  answer (replayed item) = pure (record { item = item; replay = true })
  answer again = raise idempotency_conflict

  pub after_first : Created → Exec CreateResult
  unfolding answer attempt
  after_first (created item) = answer (created item)
  after_first (replayed item) = answer (replayed item)
  after_first again = attempt false >>= answer

  -- `create`, with its one retry.
  pub create_twice : Exec CreateResult
  unfolding attempt after_first
  create_twice = attempt true >>= after_first

  pub permitted_create : Exec CreateResult
  unfolding permit create_twice
  permitted_create = permit actor workspace_id resources_write >> create_twice

create_titled : Service → Principal → Text → Option Text → Text → AuditContext → Exec CreateResult
unfolding permitted_create
create_titled s actor workspace_id none idempotency_key context w = raise invalid_input w
create_titled s actor workspace_id (some title) idempotency_key context w =
    if valid_idempotency_key idempotency_key
    then permitted_create s actor workspace_id title idempotency_key context w
    else raise invalid_input w

-- `Create`.
unfoldable pub create : Service → Principal → Text → Text → Text → AuditContext → Exec CreateResult
unfolding create_titled
create s actor workspace_id raw_title idempotency_key context =
    create_titled s actor workspace_id (validate_title raw_title) idempotency_key context
