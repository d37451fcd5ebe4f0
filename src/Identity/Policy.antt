-- ===== src/Identity/Policy.antt =====
-- internal/identity/policy.go: the permissions of the roles, and the checks of scopes.
use dynamis_code_apps_templa.Prelude.{
  Bool, true, false, ◌||◌, not, Option, none, some, List, [], ◌∷◌, Text, ascii, Dict, lookup,
  is_some, is_nil, text_eq, text_leb, if◌then◌else◌,
}

abbrev pub owner : Text
owner = ascii "owner"

abbrev pub admin : Text
admin = ascii "admin"

abbrev pub member : Text
member = ascii "member"

abbrev pub viewer : Text
viewer = ascii "viewer"

abbrev pub workspace_read : Text
workspace_read = ascii "workspace:read"

abbrev pub workspace_update : Text
workspace_update = ascii "workspace:update"

abbrev pub workspace_delete : Text
workspace_delete = ascii "workspace:delete"

abbrev pub workspace_export : Text
workspace_export = ascii "workspace:export"

abbrev pub ownership_transfer : Text
ownership_transfer = ascii "ownership:transfer"

abbrev pub members_read : Text
members_read = ascii "members:read"

abbrev pub members_manage : Text
members_manage = ascii "members:manage"

abbrev pub invitations_manage : Text
invitations_manage = ascii "invitations:manage"

abbrev pub webhooks_read : Text
webhooks_read = ascii "webhooks:read"

abbrev pub webhooks_manage : Text
webhooks_manage = ascii "webhooks:manage"

abbrev pub resources_read : Text
resources_read = ascii "resources:read"

abbrev pub resources_write : Text
resources_write = ascii "resources:write"

abbrev pub scim_manage : Text
scim_manage = ascii "scim:manage"

unfoldable pub role_permissions : Dict (List Text)
role_permissions =
    (
      owner,
      workspace_read ∷ workspace_update ∷ workspace_delete ∷ workspace_export ∷ ownership_transfer
          ∷ members_read ∷ members_manage ∷ invitations_manage ∷ webhooks_read ∷ webhooks_manage
          ∷ resources_read ∷ resources_write ∷ scim_manage ∷ [],
    )
    ∷ (
      admin,
      workspace_read ∷ workspace_update ∷ workspace_export ∷ members_read ∷ members_manage
          ∷ invitations_manage ∷ webhooks_read ∷ webhooks_manage ∷ resources_read ∷ resources_write
          ∷ scim_manage ∷ [],
    )
    ∷ (member, workspace_read ∷ members_read ∷ resources_read ∷ resources_write ∷ [])
    ∷ (viewer, workspace_read ∷ members_read ∷ resources_read ∷ [])
    ∷ []

unfoldable pub contains : Text → List Text → Bool
contains p [] = false
contains p (q ∷ qs) = text_eq q p || contains p qs

abbrev or_empty : Option (List Text) → List Text
or_empty none = []
or_empty (some ps) = ps

unfoldable pub permissions_for_role : Text → List Text
unfolding role_permissions lookup
permissions_for_role role = or_empty (lookup role role_permissions)

unfoldable pub valid_role : Text → Bool
unfolding role_permissions lookup
valid_role role = is_some (lookup role role_permissions)

unfoldable pub valid_invitation_role : Text → Bool
valid_invitation_role role = text_eq role admin || text_eq role member || text_eq role viewer

-- The loop of `validScopes`, with the scopes that it has seen.
unfoldable pub scopes_from : List Text → List Text → List Text → Bool
unfolding contains
scopes_from seen allowed [] = true
scopes_from seen allowed (s ∷ ss) =
    let rest = scopes_from (s ∷ seen) allowed ss in
    if contains s seen || not (contains s allowed) then false else rest

unfoldable pub valid_scopes : List Text → List Text → Bool
unfolding scopes_from
valid_scopes scopes allowed = if is_nil scopes then false else scopes_from [] allowed scopes

-- `slices.Sort`, by insertion.
insert_sorted : Text → List Text → List Text
insert_sorted s [] = s ∷ []
insert_sorted s (t ∷ ts) =
    let rest = insert_sorted s ts in if text_leb s t then s ∷ t ∷ ts else t ∷ rest

unfoldable pub normalize_scopes : List Text → List Text
unfolding insert_sorted
normalize_scopes [] = []
normalize_scopes (s ∷ ss) = insert_sorted s (normalize_scopes ss)
