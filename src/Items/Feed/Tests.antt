-- ===== src/Items/Feed/Tests.antt =====
-- A page of a concrete change feed.
use dynamis_code_apps_templa.Prelude.{
  ℕ, ◌≡◌, refl, false, some, [], ◌∷◌, Text, ascii, take, drop, text_eq, text_leb,
}
use dynamis_code_apps_templa.Prelude.Int.{pos}
use dynamis_code_apps_templa.Prelude.Sort.{sort, insert}
use dynamis_code_apps_templa.Schema.{empty_database, Change}
use dynamis_code_apps_templa.Exec.{ok, World, query, statement}
use dynamis_code_apps_templa.Identity.{
  permit, Principal, as_actor, authorize, authorize_principal, granted, is_member,
}
use dynamis_code_apps_templa.Identity.Policy.{
  permissions_for_role, role_permissions, contains, owner,
}
use dynamis_code_apps_templa.Items.Input.{valid_cursor_id}
use dynamis_code_apps_templa.Items.Listing.{page_size}
use dynamis_code_apps_templa.Items.Feed.{
  ChangePage, change_leb, change_rows, latest_change_id, read_changes, read_behind, read_after,
  changes,
}
use dynamis_code_apps_templa.Items.Feed.Complete.{unseen, changes-unseen}

abbrev alice : Principal
unfolding permissions_for_role role_permissions
alice = record {
  user_id = ascii "alice";
  workspace_id = ascii "w";
  role = owner;
  permissions = permissions_for_role owner;
  auth_method = ascii "session";
  token_id = [];
  auth_level = 1;
}

abbrev id_a : Text
id_a = ascii "aaaaaaaaaaaaaaaaaaaaaaaaaaaaaaaa"

abbrev id_b : Text
id_b = ascii "bbbbbbbbbbbbbbbbbbbbbbbbbbbbbbbb"

abbrev id_c : Text
id_c = ascii "cccccccccccccccccccccccccccccccc"

abbrev change : Text → ℕ → Change
change id at = record {
  id = id;
  workspace_id = ascii "w";
  item_id = ascii "i";
  action = ascii "updated";
  item_version = 2;
  occurred_at = at;
}

abbrev world : World
world = record {
  db = record empty_database {
    members =
        record { workspace_id = ascii "w"; user_id = ascii "alice"; role = owner; created_at = 0 }
        ∷ [];
    changes = change id_c 9 ∷ change id_b 7 ∷ change id_a 7 ∷ [];
  };
  now = 9;
  faults = [];
  entropy = [];
}

abbrev page : ChangePage
page = record { changes = change id_b 7 ∷ []; next = id_b; resync = false }

pages : (changes alice (ascii "w") id_a (pos 1) world).0 ≡ ok page
unfolding changes latest_change_id read_after read_behind read_changes change_rows change_leb sort
    insert permit as_actor authorize authorize_principal granted is_member text_eq text_leb query
    statement permissions_for_role role_permissions contains alice
pages = refl

changes-unseen_example :
    (n : ℕ) × (page_size (pos 1) ≡ some n)
    × (page.changes ≡ take n (unseen (ascii "w") world.db.changes id_a))
    × (unseen (ascii "w") world.db.changes page.next
        ≡ drop n (unseen (ascii "w") world.db.changes id_a))
unfolding valid_cursor_id text_eq
changes-unseen_example =
    changes-unseen alice (ascii "w") id_a (pos 1) world page (refl, (refl, (refl, tt)))
      (refl, (refl, (refl, tt))) pages refl
