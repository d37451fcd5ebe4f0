-- ===== src/Sharing/Tests.antt =====
-- Runs of public links, and their theorems at a concrete workspace.
use mathlib.Core.Option
use dynamis_code_apps_templa.Prelude.{
  ℕ, ◌+◌, ◌≡◌, refl, ◌∙◌, true, none, some, [], ◌∷◌, Text, ascii, ap, find, count, text_eq,
  if◌then◌else◌,
}
use dynamis_code_apps_templa.Prelude.Int.{pos}
use dynamis_code_apps_templa.Clock.{stamp}
use dynamis_code_apps_templa.Clock.RoundTrip.{parse_stamp-stamp}
use dynamis_code_apps_templa.Schema.{empty_database, Item, LinkRow, AuditContext}
use dynamis_code_apps_templa.Exec.{
  ok, World, query, execute, statement, fresh, close, begun, transact,
}
use dynamis_code_apps_templa.Identity.{
  permit, Principal, as_actor, authorize, authorize_principal, granted, is_member, audit,
}
use dynamis_code_apps_templa.Identity.Policy.{
  permissions_for_role, role_permissions, contains, owner,
}
use dynamis_code_apps_templa.Items.{is_item}
use dynamis_code_apps_templa.Sharing.{
  Service, Link, default_lifetime, is_revocable, audit_link, require_item, insert_link,
  normalize_lifetime, new_link, link_row, store_link, draw_link, create_body, create_link, create,
  revoke_row, after_revoke, revoke_body, revoke, joined, resolve,
}
use dynamis_code_apps_templa.Sharing.Board.{Share, board, show, withdraw}
use dynamis_code_apps_templa.Sharing.Created.{new_share, create-board}
use dynamis_code_apps_templa.Sharing.Revoked.{revoke-board}
use dynamis_code_apps_templa.Sharing.Resolved.{reply, IsReadable, resolve-reply}

abbrev sharing : Service
sharing = record { hash = λ t. t }

abbrev alice : Principal
unfolding permissions_for_role role_permissions
alice = record {
  user_id = ascii "alice";
  workspace_id = ascii "w";
  role = owner;
  permissions = permissions_for_role owner;
  auth_method = ascii "session";
  token_id = [];
  auth_level = 1;
}

abbrev context : AuditContext
context = record { request_id = ascii "r"; source_address = ascii "::1" }

abbrev task : Item
task = record {
  id = ascii "i";
  workspace_id = ascii "w";
  created_by_user_id = some (ascii "alice");
  title = ascii "Task";
  status = ascii "active";
  version = 1;
  created_at = 7;
  updated_at = 7;
}

abbrev world : World
world = record {
  db = record empty_database {
    members =
        record { workspace_id = ascii "w"; user_id = ascii "alice"; role = owner; created_at = 0 }
        ∷ [];
    items = task ∷ [];
  };
  now = 7;
  faults = [];
  entropy = some (ascii "l") ∷ some (ascii "secret") ∷ some (ascii "e1") ∷ [];
}

abbrev made : Link
made = record {
  id = ascii "l";
  workspace_id = ascii "w";
  item_id = ascii "i";
  created_at = 7;
  expires_at = 7 + default_lifetime;
  token = ascii "secret";
}

creates : (create sharing alice (ascii "w") (ascii "i") (pos 0) context world).0 ≡ ok made
unfolding create normalize_lifetime create_link create_body require_item draw_link new_link
    store_link insert_link link_row audit_link permit as_actor authorize authorize_principal granted
    is_member audit text_eq query execute statement fresh close begun transact permissions_for_role
    role_permissions contains alice
creates = refl

create-board_example :
    (n : ℕ) × (i : Item) × (normalize_lifetime (pos 0) ≡ ok n)
    × (find (is_item (ascii "w") (ascii "i")) world.db.items ≡ some i)
    × (made.expires_at ≡ world.now + n)
    × ((hash : Text)
        → board (create sharing alice (ascii "w") (ascii "i") (pos 0) context world).1.db hash ≡ (
            if text_eq (sharing.hash made.token) hash
            then some (new_share sharing alice (ascii "w") (ascii "i") context made i)
            else board world.db hash))
create-board_example =
    create-board sharing alice (ascii "w") (ascii "i") (pos 0) context world made creates

abbrev link : LinkRow
link = record {
  id = ascii "l";
  workspace_id = ascii "w";
  item_id = ascii "i";
  token_hash = ascii "secret";
  created_at = stamp 7;
  expires_at = stamp 100;
  revoked_at = none;
}

abbrev shared : World
shared = record world { db = record world.db { links = link ∷ [] } }

revokes : (revoke alice (ascii "w") (ascii "i") (ascii "l") context shared).0 ≡ ok tt
unfolding revoke revoke_body revoke_row after_revoke audit_link permit as_actor authorize
    authorize_principal granted is_member audit text_eq query execute statement fresh close begun
    transact permissions_for_role role_permissions contains alice
revokes = refl

revoke-board_example :
    (count (is_revocable (ascii "w") (ascii "i") (ascii "l")) shared.db.links ≡ 1)
    × ((hash : Text)
        → board (revoke alice (ascii "w") (ascii "i") (ascii "l") context shared).1.db hash
          ≡ Option.map (withdraw (ascii "w") (ascii "i") (ascii "l")) (board shared.db hash))
revoke-board_example = revoke-board alice (ascii "w") (ascii "i") (ascii "l") context shared revokes

abbrev the_share : Share
the_share = record {
  link_id = ascii "l";
  workspace_id = ascii "w";
  item_id = ascii "i";
  until = some 100;
  live = true;
  shown = record { title = ascii "Task"; status = ascii "active" };
}

stands : board shared.db (sharing.hash (ascii "secret")) ≡ some the_share
unfolding board joined text_eq
stands = ap (λ u. some (record the_share { until = u })) (parse_stamp-stamp 100)

readable : IsReadable (board shared.db (sharing.hash (ascii "secret")))
unfolding IsReadable
readable = rw stands (100, refl)

shows : show shared.now (board shared.db (sharing.hash (ascii "secret"))) ≡ some the_share.shown
unfolding show
shows = rw stands refl

resolve-reply_example :
    (resolve sharing (ascii "secret") context shared).0
    ≡ reply (show shared.now (board shared.db (sharing.hash (ascii "secret"))))
resolve-reply_example =
    resolve-reply sharing (ascii "secret") context shared (ascii "l")
      (some (ascii "secret") ∷ some (ascii "e1") ∷ []) refl refl readable

resolves : (resolve sharing (ascii "secret") context shared).0 ≡ ok the_share.shown
resolves = resolve-reply_example ∙ ap reply shows
