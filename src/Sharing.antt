-- ===== src/Sharing.antt =====
-- internal/sharing/service.go: public links to the items of a workspace.
--
-- `hash` is identity.SecretHash (SHA-256 in hexadecimal digits). A link is stored with the trimmed
-- texts of its times. RevokedAt of a Link is never set. The random source answers for the id, the token and the ids of audit events.
pub mod Listing
pub mod Board
pub mod Created
pub mod Revoked
pub mod Resolved
mod Tests
use dynamis_code_apps_templa.Prelude.{
  ℕ, ◌*◌, ◌+◌, Bool, true, false, ◌&&◌, ◌||◌, not, Option, none, some, List, [], ◌∷◌, ◌++◌, Text,
  ascii, ltb, leb, ◌==◌, text_eq, text_leb, any, count, find, filter, update_where, is_none,
  is_some, if◌then◌else◌, lex,
}
use dynamis_code_apps_templa.Prelude.Int.{ℤ, pos, negsuc}
use dynamis_code_apps_templa.Clock.{Stamp, second, stamp, stamp_leb, parse_stamp}
use dynamis_code_apps_templa.Schema.{
  Item, LinkRow, AuditEvent, AuditContext, Metadata, item, Database,
}
use dynamis_code_apps_templa.Exec.{
  Error, database_failure, bad_timestamp, invalid_input, not_found, unavailable, Result, ok, err,
  World, Exec, continue, pure, raise, guard, ◌>>=◌, ◌>>◌, statement, query, execute, clock, lift,
  fresh, End, commit, rollback, transact,
}
use dynamis_code_apps_templa.Identity.{Principal, permit, audit}
use dynamis_code_apps_templa.Identity.Policy.{resources_write}
use dynamis_code_apps_templa.Items.{is_item}

abbrev pub default_lifetime : ℕ
default_lifetime = 7 * 24 * 3600 * second

abbrev pub maximum_lifetime : ℕ
maximum_lifetime = 30 * 24 * 3600 * second

pub record Service : Type 0 where
  pub hash : Text → Text

pub record Link : Type 0 where
  pub id : Text
  pub workspace_id : Text
  pub item_id : Text
  pub created_at : ℕ
  pub expires_at : ℕ
  pub token : Text

pub record PublicItem : Type 0 where
  pub title : Text
  pub status : Text

-- `normalizeLifetime`.
unfoldable pub normalize_lifetime : ℤ → Result ℕ
normalize_lifetime (negsuc n) = err invalid_input
normalize_lifetime (pos n) =
    if n == 0
    then ok default_lifetime
    else if ltb n (60 * second) || ltb maximum_lifetime n
    then err invalid_input
    else ok n

-- The event of a change that an actor makes.
unfoldable pub audit_link :
    Text → Text → Principal → Text → Text → Text → AuditContext → ℕ → Exec (Unit {0})
unfolding audit
audit_link event_type action actor workspace_id link_id item_id context now = audit (record {
  event_type = event_type;
  actor_user_id = actor.user_id;
  auth_method = actor.auth_method;
  workspace_id = workspace_id;
  target_type = ascii "public_share";
  target_id = link_id;
  action = action;
  outcome = ascii "success";
  request_id = context.request_id;
  source_address = context.source_address;
  metadata = item item_id;
  created_at = now;
})

-- SELECT 1 FROM items WHERE workspace_id = ? AND id = ?
unfoldable pub require_item : Text → Text → Exec (Unit {0})
unfolding query
require_item workspace_id item_id = do
  row ← query (λ db. find (is_item workspace_id item_id) db.items)
  guard (is_some row) not_found

-- INSERT INTO public_links: the id is the primary key and the hash of the token is unique.
abbrev pub clashes : LinkRow → LinkRow → Bool
clashes new l = text_eq l.id new.id || text_eq l.token_hash new.token_hash

unfoldable pub insert_link : LinkRow → Exec (Unit {0})
unfolding statement
insert_link new = statement (λ db.
    if any (clashes new) db.links
    then (err database_failure, db)
    else (ok tt, record db { links = db.links ++ new ∷ [] }))

module _ (s : Service) (actor : Principal) (workspace_id item_id : Text)
    (context : AuditContext) where
  unfoldable pub new_link : Text → Text → ℕ → ℕ → Link
  new_link link_id token now lifetime = record {
    id = link_id;
    workspace_id = workspace_id;
    item_id = item_id;
    created_at = now;
    expires_at = now + lifetime;
    token = token;
  }

  unfoldable pub link_row : Link → LinkRow
  link_row link = record {
    id = link.id;
    workspace_id = link.workspace_id;
    item_id = link.item_id;
    token_hash = s.hash link.token;
    created_at = stamp link.created_at;
    expires_at = stamp link.expires_at;
    revoked_at = none;
  }

  unfoldable pub store_link : Link → Exec (End Link)
  unfolding insert_link link_row audit_link
  store_link link = do
    insert_link (link_row link)
    audit_link (ascii "public_share.created") (ascii "public_share.create") actor workspace_id
        link.id item_id context link.created_at
    pure (commit link)

  unfoldable pub draw_link : ℕ → Exec (End Link)
  unfolding fresh store_link new_link
  draw_link lifetime = do
    link_id ← fresh
    token ← fresh
    now ← clock
    store_link (new_link link_id token now lifetime)

  unfoldable pub create_body : ℕ → Exec (End Link)
  unfolding permit require_item draw_link
  create_body lifetime = do
    permit actor workspace_id resources_write
    require_item workspace_id item_id
    draw_link lifetime

  unfoldable pub create_link : ℕ → Exec Link
  unfolding create_body transact
  create_link lifetime = transact (create_body lifetime)

-- `Create`.
unfoldable pub create : Service → Principal → Text → Text → ℤ → AuditContext → Exec Link
unfolding normalize_lifetime create_link
create s actor workspace_id item_id lifetime context =
    continue (normalize_lifetime lifetime) (create_link s actor workspace_id item_id context)

-- WHERE id = ? AND workspace_id = ? AND item_id = ? AND revoked_at IS NULL
abbrev pub is_revocable : Text → Text → Text → LinkRow → Bool
is_revocable workspace_id item_id link_id l =
    text_eq l.id link_id
    && text_eq l.workspace_id workspace_id
    && text_eq l.item_id item_id
    && is_none l.revoked_at

abbrev pub revoked : ℕ → LinkRow → LinkRow
revoked now l = record l { revoked_at = some (stamp now) }

unfoldable pub revoke_row : Text → Text → Text → ℕ → Exec ℕ
unfolding execute
revoke_row workspace_id item_id link_id now = execute (λ db. (
  record db {
    links = update_where (is_revocable workspace_id item_id link_id) (revoked now) db.links;
  },
  count (is_revocable workspace_id item_id link_id) db.links,
))

module _ (actor : Principal) (workspace_id item_id link_id : Text) (context : AuditContext) where
  unfoldable pub after_revoke : ℕ → ℕ → Exec (End (Unit {0}))
  unfolding audit_link
  after_revoke now changed = do
    guard (changed == 1) not_found
    audit_link (ascii "public_share.revoked") (ascii "public_share.revoke") actor workspace_id
        link_id item_id context now
    pure (commit tt)

  unfoldable pub revoke_body : Exec (End (Unit {0}))
  unfolding permit revoke_row after_revoke
  revoke_body = do
    permit actor workspace_id resources_write
    now ← clock
    changed ← revoke_row workspace_id item_id link_id now
    after_revoke now changed

  -- `Revoke`.
  unfoldable pub revoke : Exec (Unit {0})
  unfolding revoke_body transact
  revoke = transact revoke_body

-- public_links p JOIN items i ON i.id = p.item_id AND i.workspace_id = p.workspace_id
-- WHERE p.token_hash = ?
unfoldable pub joined : List Item → Text → List LinkRow → Option (LinkRow × Item)
joined items hash [] = none
joined items hash (l ∷ ls) =
    let rest = joined items hash ls in
    if text_eq l.token_hash hash
    then elim (find (is_item l.workspace_id l.item_id) items) [ none ↦ rest | some i ↦ some (l, i) ]
    else rest

pub data Outcome : Type 0 where
  missing revoked_link expired : Outcome
  success : Item → Outcome

abbrev outcome_word : Outcome → Text
outcome_word missing = ascii "not_found"
outcome_word revoked_link = ascii "revoked"
outcome_word expired = ascii "expired"
outcome_word (success i) = ascii "success"

abbrev lapsed : ℕ → Item → Option ℕ → Result Outcome
lapsed now i none = err bad_timestamp
lapsed now i (some expiry) = ok (if ltb now expiry then success i else expired)

unfoldable pub outcome_of : ℕ → Option (LinkRow × Item) → Result Outcome
unfolding parse_stamp
outcome_of now none = ok missing
outcome_of now (some (l, i)) =
    if is_some l.revoked_at then ok revoked_link else lapsed now i (parse_stamp l.expires_at)

-- The texts of the row for the audit event, empty where there is no row.
abbrev workspace_of : Option (LinkRow × Item) → Text
workspace_of none = []
workspace_of (some (l, i)) = l.workspace_id

abbrev link_of : Option (LinkRow × Item) → Text
link_of none = []
link_of (some (l, i)) = l.id

abbrev item_of : Option (LinkRow × Item) → Text
item_of none = []
item_of (some (l, i)) = l.item_id

unfoldable pub access_event : Option (LinkRow × Item) → Outcome → AuditContext → ℕ → AuditEvent
access_event row outcome context now = record {
  event_type = ascii "public_share.accessed";
  actor_user_id = [];
  auth_method = ascii "public";
  workspace_id = workspace_of row;
  target_type = ascii "public_share";
  target_id = link_of row;
  action = ascii "public_share.access";
  outcome = outcome_word outcome;
  request_id = context.request_id;
  source_address = context.source_address;
  metadata = item (item_of row);
  created_at = now;
}

module _ (s : Service) (token : Text) (context : AuditContext) where
  unfoldable pub record_access : ℕ → Option (LinkRow × Item) → Outcome → Exec (End Outcome)
  unfolding audit access_event
  record_access now row outcome =
      audit (access_event row outcome context now) >> pure (commit outcome)

  unfoldable pub judge : Option (LinkRow × Item) → Exec (End Outcome)
  unfolding outcome_of record_access
  judge row = do now ← clock; outcome ← lift (outcome_of now row); record_access now row outcome

  unfoldable pub resolve_body : Exec (End Outcome)
  unfolding query joined judge
  resolve_body = query (λ db. joined db.items (s.hash token) db.links) >>= judge

  unfoldable pub answer : Outcome → Exec PublicItem
  answer (success i) = pure (record { title = i.title; status = i.status })
  answer missing = raise unavailable
  answer revoked_link = raise unavailable
  answer expired = raise unavailable

  -- `Resolve`: the access is recorded whatever its outcome.
  unfoldable pub resolve : Exec PublicItem
  unfolding resolve_body transact answer
  resolve = transact resolve_body >>= answer
