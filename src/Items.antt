-- ===== src/Items.antt =====
-- internal/items: the items of a workspace (service.go) and their change feed (events.go).
--
-- SHA-256 (`hash`) and the publisher of events are the service's fields. JSON texts are kept as the
-- values that they encode. Times are read from the clock of the world once, where the code reads them.
pub mod Input
pub mod Search
mod Tests
pub mod Frame
pub mod Changes
pub mod Create
pub mod Update
pub mod Listing
pub mod Import
pub mod Feed
use Prim.Native.Nat.{◌-◌}
use dynamis_code_apps_templa.Prelude.{
  ℕ, suc, ◌+◌, ◌*◌, Bool, true, false, ◌&&◌, ◌||◌, not, Option, none, some, List, [], ◌∷◌, ◌++◌,
  Text, ascii, length, leb, ltb, ◌==◌, text_eq, text_leb, any, count, filter, find, take,
  update_where, is_nil, is_none, if◌then◌else◌,
}
use dynamis_code_apps_templa.Clock.{second}
use dynamis_code_apps_templa.Schema.{
  Item, Change, IdempotencyRecord, LinkRow, AuditEvent, AuditContext, Metadata, empty, item_version,
  permanent, Database,
}
use dynamis_code_apps_templa.Exec.{
  Error, database_failure, forbidden, invalid_input, not_found, precondition_failed, limit_reached,
  idempotency_conflict, Result, ok, err, World, Exec, pure, raise, guard, ◌>>=◌, ◌>>◌, statement,
  query, execute, fresh, End, commit, rollback, transact,
}
use dynamis_code_apps_templa.Identity.{Principal, permit, audit}
use dynamis_code_apps_templa.Identity.Policy.{resources_read, resources_write, workspace_update}

-- PublishInTx: workspace, type of the event, item and time.
abbrev pub Publisher : Type 0
Publisher = Text → Text → Item → ℕ → Exec (Unit {0})

pub record Service : Type 0 where
  pub max_items : ℕ
  pub publisher : Option Publisher
  pub hash : Text → Text

pub record CreateResult : Type 0 where
  pub item : Item
  pub replay : Bool

pub record UpdateInput : Type 0 where
  pub title : Option Text
  pub status : Option Text

unfoldable pub principal_id : Principal → Text
principal_id actor =
    if is_nil actor.token_id
    then ascii "user:" ++ actor.user_id
    else ascii "token:" ++ actor.token_id

unfoldable pub publish : Service → Text → Text → Item → ℕ → Exec (Unit {0})
publish s workspace_id event_type item now = elim s.publisher [
  | none ↦ pure tt
  | some send ↦ send workspace_id event_type item now
]

abbrev pub is_item : Text → Text → Item → Bool
is_item workspace_id item_id i = text_eq i.workspace_id workspace_id && text_eq i.id item_id

unfoldable pub audit_item :
    Text → Text → Principal → Text → Text → Metadata → AuditContext → ℕ → Exec (Unit {0})
unfolding audit
audit_item event_type action actor workspace_id item_id metadata context now = audit (record {
  event_type = event_type;
  actor_user_id = actor.user_id;
  auth_method = actor.auth_method;
  workspace_id = workspace_id;
  target_type = ascii "item";
  target_id = item_id;
  action = action;
  outcome = ascii "success";
  request_id = context.request_id;
  source_address = context.source_address;
  metadata = metadata;
  created_at = now;
})

-- `get`.
abbrev pub found : Option Item → Exec Item
found none = raise not_found
found (some item) = pure item

unfoldable pub get_row : Text → Text → Exec Item
unfolding query
get_row workspace_id item_id = do
  row ← query (λ db. find (is_item workspace_id item_id) db.items)
  found row

-- `Get`.
unfoldable pub get : Principal → Text → Text → Exec Item
unfolding permit get_row transact
get actor workspace_id item_id = transact (do
  permit actor workspace_id resources_read
  item ← get_row workspace_id item_id
  pure (commit item))
