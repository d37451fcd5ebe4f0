-- ===== src/Identity/Members/Tests.antt =====
-- A bootstrap, a transfer of the ownership, and the theorems on owners at concrete instances.
use dynamis_code_apps_templa.Prelude.{
  ◌≡◌, arith, refl, some, List, [], ◌∷◌, ascii, text_eq, trim_space,
}
use dynamis_code_apps_templa.Schema.{Member, empty_database, AuditContext}
use dynamis_code_apps_templa.Exec.{
  Error, ok, err, last_owner, World, query, execute, statement, fresh, close, begun, transact,
}
use dynamis_code_apps_templa.Identity.{
  Principal, as_actor, authorize, authorize_principal, granted, is_member, permit, require, audit,
}
use dynamis_code_apps_templa.Identity.Policy.{
  permissions_for_role, role_permissions, contains, valid_role, owner, admin, member,
}
use dynamis_code_apps_templa.Identity.Scim.{
  bump_group, bump_from, bump_group_versions, update_scim_user, insert_scim_user, bump_changed,
  ensure_found, ensure_membership, insert_group, audit_group, ensure_group, ensure_each,
  ensure_groups,
}
use dynamis_code_apps_templa.Identity.Members.{
  audit_member, is_refused, insert_member, set_role, member_of, write_transfer, actor_found,
  transfer_body, transfer_ownership, remove_member, remove_body, remove_found,
}
use dynamis_code_apps_templa.Identity.Members.Owners.{OneOwner}
use dynamis_code_apps_templa.Identity.Members.Steps.{bootstraps, started, next, Reach-OneOwner}
use dynamis_code_apps_templa.Identity.Workspaces.{
  validate_workspace_name, default_locale, insert_workspace,
}
use dynamis_code_apps_templa.Identity.Bootstrap.{
  Codec, BootstrapInput, BootstrapResult, normalize_email, hash_password, claim_bootstrap,
  insert_user, insert_admin, audit_bootstrap, install_owner, bootstrap_body, bootstrap_first_owner,
}
use dynamis_code_apps_templa.Identity.Bootstrap.Once.{IsFirst, bootstrap_once}

abbrev codec : Codec
codec = record {
  lower = λ t. t;
  parse_address = some;
  version = ascii "19";
  id_key = λ p s. s;
  base64 = λ t. t;
}

abbrev input : BootstrapInput
input = record {
  email = ascii "a@b";
  password = ascii "correct horse";
  workspace_name = ascii "Home";
  workspace_locale = [];
}

abbrev context : AuditContext
context = record { request_id = ascii "r"; source_address = ascii "::1" }

abbrev bare : World
bare = record {
  db = empty_database;
  now = 7;
  faults = [];
  entropy =
      some (ascii "salt")
      ∷ some (ascii "alice")
      ∷ some (ascii "w")
      ∷ some (ascii "e1")
      ∷ some (ascii "e2")
      ∷ some (ascii "e3")
      ∷ some (ascii "e4")
      ∷ [];
}

abbrev done : BootstrapResult
done = record { user_id = ascii "alice"; workspace_id = ascii "w" }

bootstraps_once : (bootstrap_first_owner context codec input bare).0 ≡ ok done
unfolding bootstrap_first_owner bootstrap_body install_owner claim_bootstrap insert_user
    insert_admin audit_bootstrap normalize_email hash_password validate_workspace_name
    default_locale insert_workspace insert_member is_refused valid_role bump_group bump_from
    bump_group_versions insert_scim_user ensure_found ensure_membership insert_group audit_group
    ensure_group ensure_each ensure_groups is_member audit contains role_permissions text_eq
    trim_space query execute statement fresh close begun transact
bootstraps_once = refl

bootstrap_once_example :
    IsFirst context codec input bare (bootstrap_first_owner context codec input bare).1.db
    × ((context' : AuditContext) (c' : Codec) (input' : BootstrapInput) (v : World)
        → v.db.bootstrapped ≡ (bootstrap_first_owner context codec input bare).1.db.bootstrapped
        → (e : Error) × ((bootstrap_first_owner context' c' input' v).0 ≡ err e)
          × ((bootstrap_first_owner context' c' input' v).1.db ≡ v.db))
bootstrap_once_example = bootstrap_once context codec input bare done bootstraps_once

nobody : OneOwner bare.db
nobody = record { owners = λ v. refl; memberships = λ v u. ground arith; ids = λ v. ground arith }

Reach-OneOwner_example : OneOwner (bootstrap_first_owner context codec input bare).1.db
Reach-OneOwner_example =
    Reach-OneOwner bare (bootstrap_first_owner context codec input bare).1
      (next started (bootstraps context codec input bare)) nobody

abbrev alice : Principal
unfolding permissions_for_role role_permissions
alice = record {
  user_id = ascii "alice";
  workspace_id = ascii "w";
  role = owner;
  permissions = permissions_for_role owner;
  auth_method = ascii "session";
  token_id = [];
  auth_level = 1;
}

abbrev two : List Member
two =
    record { workspace_id = ascii "w"; user_id = ascii "alice"; role = owner; created_at = 0 }
    ∷ record { workspace_id = ascii "w"; user_id = ascii "bob"; role = member; created_at = 0 }
    ∷ []

abbrev shared : World
shared = record {
  db = record empty_database { members = two };
  now = 7;
  faults = [];
  entropy = some (ascii "e1") ∷ [];
}

transfers_roles :
    (transfer_ownership alice (ascii "bob") context shared).1.db.members
    ≡ record { workspace_id = ascii "w"; user_id = ascii "alice"; role = admin; created_at = 0 }
      ∷ record { workspace_id = ascii "w"; user_id = ascii "bob"; role = owner; created_at = 0 }
      ∷ []
unfolding transfer_ownership transfer_body actor_found write_transfer member_of set_role
    audit_member require permit as_actor authorize authorize_principal granted is_member audit
    contains permissions_for_role role_permissions bump_group bump_from bump_group_versions
    update_scim_user insert_scim_user bump_changed ensure_found ensure_membership text_eq query
    execute statement fresh close begun transact alice
transfers_roles = refl

owner_stays : (remove_member alice (ascii "alice") context shared).0 ≡ err last_owner
unfolding remove_member remove_body remove_found member_of require permit as_actor authorize
    authorize_principal granted is_member contains permissions_for_role role_permissions text_eq
    query statement close begun transact alice
owner_stays = refl
