-- ===== src/Identity.antt =====
-- internal/identity: roles and permissions (policy.go), principals (model.go), and the part of the
-- service that other components call (service.go): authorization and the audit trail.
--
-- A permission is a text; a principal's map of permissions is the list of those that are true.
pub mod Policy
pub mod Roles
pub mod Authorize
pub mod Audit
pub mod Scim
pub mod Mfa
pub mod Members
pub mod Workspaces
pub mod Bootstrap
pub mod Sessions
pub mod Tokens
pub mod Invitations
mod Tests
use dynamis_code_apps_templa.Prelude.{
  ℕ, Bool, true, false, ◌&&◌, not, Option, none, some, List, [], ◌∷◌, ◌++◌, Text, ascii, text_eq,
  find, if◌then◌else◌,
}
use dynamis_code_apps_templa.Schema.{Member, AuditEvent, AuditContext, Database}
use dynamis_code_apps_templa.Exec.{
  Error, forbidden, Result, ok, err, World, Exec, pure, raise, ◌>>=◌, ◌>>◌, query, execute, fresh,
}
use Policy.{contains, permissions_for_role}

pub record Principal : Type 0 where
  pub user_id : Text
  pub workspace_id : Text
  pub role : Text
  pub permissions : List Text
  pub auth_method : Text
  pub token_id : Text
  pub auth_level : ℕ

-- Any error of the action becomes the given one.
abbrev pub masked : {A : Type 0} → Error → Result A × World → Result A × World
masked e (ok a, w) = (ok a, w)
masked e (err _, w) = (err e, w)

unfoldable pub is_member : Text → Text → Member → Bool
is_member workspace_id user_id m = text_eq m.workspace_id workspace_id && text_eq m.user_id user_id

unfoldable pub granted : Text → Text → Text → Option Member → Exec Principal
granted user_id workspace_id permission none = raise forbidden
granted user_id workspace_id permission (some m) =
    if contains permission (permissions_for_role m.role)
    then pure (record {
      user_id = user_id;
      workspace_id = workspace_id;
      role = m.role;
      permissions = permissions_for_role m.role;
      auth_method = ascii "session";
      token_id = [];
      auth_level = 0;
    })
    else raise forbidden

-- `authorize`: the role that the database has now decides.
unfoldable pub authorize : Text → Text → Text → Exec Principal
unfolding granted query is_member
authorize user_id workspace_id permission w = masked forbidden (
    (do
      row ← query (λ db. find (is_member workspace_id user_id) db.members)
      granted user_id workspace_id permission row)
      w)

unfoldable pub as_actor : Principal → Principal → Principal
as_actor actor current = record current {
  auth_method = actor.auth_method;
  token_id = actor.token_id;
  permissions =
      if text_eq actor.auth_method (ascii "api_token")
      then actor.permissions
      else current.permissions;
}

-- `authorizePrincipal`, which AuthorizePrincipal and AuthorizePrincipalInTx call.
unfoldable pub authorize_principal : Principal → Text → Text → Exec Principal
unfolding as_actor
authorize_principal actor workspace_id permission =
    if text_eq actor.workspace_id workspace_id && contains permission actor.permissions
    then (do
      current ← authorize actor.user_id workspace_id permission
      pure (as_actor actor current))
    else raise forbidden

-- Any error of an authorization is ErrForbidden.
abbrev permitted : Result Principal × World → Result (Unit {0}) × World
permitted (ok _, w) = (ok tt, w)
permitted (err _, w) = (err forbidden, w)

unfoldable pub permit : Principal → Text → Text → Exec (Unit {0})
unfolding authorize_principal
permit actor workspace_id permission w =
    permitted (authorize_principal actor workspace_id permission w)

-- `require` and `requireTx`.
unfoldable pub require : Principal → Text → Exec (Unit {0})
unfolding permit
require actor permission = permit actor actor.workspace_id permission

-- `audit`: one more event, under a fresh id.
unfoldable pub audit : AuditEvent → Exec (Unit {0})
unfolding fresh execute
audit event = do
  event_id ← fresh
  execute (λ db. (record db { audits = db.audits ++ (event_id, event) ∷ [] }, 1))
  pure tt
