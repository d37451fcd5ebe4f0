-- ===== src/Identity/Workspaces.antt =====
-- internal/identity/service.go and internal/identity/locale.go: new workspaces and their locale.
--
-- `lower` is strings.ToLower.
use dynamis_code_apps_templa.Prelude.{
  ℕ, Bool, true, false, ◌&&◌, ◌||◌, not, Option, none, some, [], ◌∷◌, ◌++◌, Text, ascii, length,
  trim_space, is_nil, text_eq, any, count, update_where, ltb, if◌then◌else◌,
}
use dynamis_code_apps_templa.Schema.{WorkspaceRow, AuditContext, empty, locale}
use dynamis_code_apps_templa.Exec.{
  database_failure, forbidden, invalid_input, no_rows, mfa_required, Result, ok, err, Exec, pure,
  guard, lift, ◌>>=◌, ◌>>◌, statement, query, execute, fresh, clock, End, commit, transact,
}
use dynamis_code_apps_templa.Identity.{Principal, masked, require, audit}
use dynamis_code_apps_templa.Identity.Policy.{owner, workspace_update}
use dynamis_code_apps_templa.Identity.Scim.{ensure_membership, ensure_groups}
use dynamis_code_apps_templa.Identity.Mfa.{MfaConfig, auth_level_mfa, mfa_required_for_role}
use dynamis_code_apps_templa.Identity.Members.{is_user, is_workspace, insert_member}

-- `validateWorkspaceName`.
unfoldable pub validate_workspace_name : Text → Result Text
validate_workspace_name raw =
    let name = trim_space raw in
    if is_nil name || ltb 120 (length name) then err invalid_input else ok name

abbrev pub english : Text
english = ascii "en"

abbrev pub spanish : Text
spanish = ascii "es"

module _ (lower : Text → Text) where
  -- i18n.ParseLocale
  unfoldable pub parse_locale : Text → Option Text
  parse_locale raw =
      let tag = lower (trim_space raw) in
      if text_eq tag english
      then some english
      else if text_eq tag spanish
      then some spanish
      else none

  -- `normalizeLocale`.
  unfoldable pub normalize_locale : Text → Bool → Result Text
  unfolding parse_locale
  normalize_locale raw allow_automatic =
      if is_nil raw && allow_automatic
      then ok []
      else elim (parse_locale raw) [ none ↦ err invalid_input | some tag ↦ ok tag ]

  -- `defaultLocale`.
  unfoldable pub default_locale : Text → Result Text
  unfolding normalize_locale
  default_locale raw = if is_nil raw then ok english else normalize_locale raw false

-- INSERT INTO workspaces: the id is the primary key.
unfoldable pub insert_workspace : WorkspaceRow → Exec (Unit {0})
unfolding statement
insert_workspace new = statement (λ db.
    if any (is_workspace new.id) db.workspaces
    then (err database_failure, db)
    else (ok tt, record db { workspaces = db.workspaces ++ new ∷ [] }))

-- SELECT 1 FROM users WHERE id = ?: any error is ErrForbidden.
unfoldable pub require_user : Text → Exec (Unit {0})
unfolding query
require_user user_id w =
    masked forbidden
      ((query (λ db. any (is_user user_id) db.users) >>= λ there. guard there no_rows) w)

module _ (actor : Principal) (context : AuditContext) where
  unfoldable pub audit_workspace : Text → ℕ → Exec (Unit {0})
  unfolding audit
  audit_workspace workspace_id now = audit (record {
    event_type = ascii "workspace.created";
    actor_user_id = actor.user_id;
    auth_method = actor.auth_method;
    workspace_id = workspace_id;
    target_type = ascii "workspace";
    target_id = workspace_id;
    action = ascii "workspace.create";
    outcome = ascii "success";
    request_id = context.request_id;
    source_address = context.source_address;
    metadata = empty;
    created_at = now;
  })

  unfoldable pub workspace_body : WorkspaceRow → Exec (End Text)
  unfolding insert_workspace insert_member ensure_membership ensure_groups audit_workspace
  workspace_body new = do
    insert_workspace new
    insert_member (record {
      workspace_id = new.id;
      user_id = actor.user_id;
      role = owner;
      created_at = new.created_at;
    })
    ensure_membership new.id actor.user_id owner true new.created_at
    ensure_groups new.id actor context
    audit_workspace new.id new.created_at
    pure (commit new.id)

  unfoldable pub require_factor : MfaConfig → Exec (Unit {0})
  unfolding mfa_required_for_role
  require_factor config =
      if ltb actor.auth_level auth_level_mfa
      then mfa_required_for_role config actor.user_id owner
        >>= (λ required. guard (not required) mfa_required)
      else pure tt

  -- `CreateWorkspace`.
  unfoldable pub create_workspace : (Text → Text) → MfaConfig → Text → Text → Exec Text
  unfolding require_factor validate_workspace_name default_locale require_user fresh transact
      workspace_body
  create_workspace lower config raw_name raw_locale = do
    guard (not (is_nil actor.user_id) && not (is_nil actor.auth_method)) forbidden
    require_factor config
    name ← lift (validate_workspace_name raw_name)
    workspace_locale ← lift (default_locale lower raw_locale)
    require_user actor.user_id
    workspace_id ← fresh
    now ← clock
    transact (
        workspace_body
          (record { id = workspace_id; name = name; locale = workspace_locale; created_at = now }))

  unfoldable pub locale_body : Text → Exec (End (Unit {0}))
  unfolding require execute audit
  locale_body normalized = do
    require actor workspace_update
    changed ← execute (λ db. (
      record db {
        workspaces =
            update_where (is_workspace actor.workspace_id) (λ r. record r { locale = normalized })
              db.workspaces;
      },
      count (is_workspace actor.workspace_id) db.workspaces,
    ))
    now ← clock
    audit (record {
      event_type = ascii "workspace.locale.updated";
      actor_user_id = actor.user_id;
      auth_method = actor.auth_method;
      workspace_id = actor.workspace_id;
      target_type = ascii "workspace";
      target_id = actor.workspace_id;
      action = ascii "workspace.locale.update";
      outcome = ascii "success";
      request_id = context.request_id;
      source_address = context.source_address;
      metadata = locale normalized;
      created_at = now;
    })
    pure (commit tt)

  -- `UpdateWorkspaceLocale`.
  unfoldable pub update_workspace_locale : (Text → Text) → Text → Exec (Unit {0})
  unfolding default_locale require transact locale_body
  update_workspace_locale lower raw = do
    normalized ← lift (default_locale lower raw)
    require actor workspace_update
    transact (locale_body normalized)
