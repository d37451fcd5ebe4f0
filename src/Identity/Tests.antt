-- ===== src/Identity/Tests.antt =====
-- Roles, scopes and authorizations, and their theorems at concrete principals.
use dynamis_code_apps_templa.Prelude.{
  ◌≡◌, refl, List, [], ◌∷◌, ascii, text_eq, text_key, true, false, Text, is_nil, All, UniqueBy, ◌↔◌,
}
use dynamis_code_apps_templa.Schema.{empty_database}
use dynamis_code_apps_templa.Exec.{ok, err, forbidden, World, query, statement}
use dynamis_code_apps_templa.Identity.Policy.{
  permissions_for_role, role_permissions, contains, viewer, resources_read, resources_write,
  valid_scopes,
}
use dynamis_code_apps_templa.Identity.{
  Principal, as_actor, authorize, authorize_principal, granted, is_member,
}
use dynamis_code_apps_templa.Identity.Roles.{valid_scopes_iff}
use dynamis_code_apps_templa.Identity.Authorize.{IsAuthorized, authorize_principal-IsAuthorized}

abbrev alice : Principal
alice = record {
  user_id = ascii "alice";
  workspace_id = ascii "w";
  role = viewer;
  permissions = resources_read ∷ [];
  auth_method = ascii "api_token";
  token_id = ascii "t";
  auth_level = 1;
}

abbrev world : World
world = record {
  db = record empty_database {
    members =
        record { workspace_id = ascii "w"; user_id = ascii "alice"; role = viewer; created_at = 0 }
        ∷ [];
  };
  now = 7;
  faults = [];
  entropy = [];
}

abbrev two_scopes : List Text
two_scopes = resources_read ∷ resources_write ∷ []

valid_scopes_iff_example : (valid_scopes two_scopes two_scopes ≡ true) ↔ (
    (is_nil two_scopes ≡ false)
    × All (λ s. contains s two_scopes ≡ true) two_scopes
    × UniqueBy (λ (s : Text). s) two_scopes)
valid_scopes_iff_example = valid_scopes_iff two_scopes two_scopes

abbrev as_viewer : Principal
as_viewer = record alice { auth_level = 0 }

may_read : (authorize_principal alice (ascii "w") resources_read world).0 ≡ ok as_viewer
unfolding as_actor authorize authorize_principal granted is_member query statement
    permissions_for_role role_permissions contains text_eq
may_read = refl

may_not_write : (authorize_principal alice (ascii "w") resources_write world).0 ≡ err forbidden
unfolding authorize_principal contains text_eq
may_not_write = refl

authorize_principal-IsAuthorized_example :
    IsAuthorized alice (ascii "w") resources_read world.db as_viewer
authorize_principal-IsAuthorized_example =
    authorize_principal-IsAuthorized alice (ascii "w") resources_read world may_read
