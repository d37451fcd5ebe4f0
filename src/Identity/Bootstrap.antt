-- ===== src/Identity/Bootstrap.antt =====
-- internal/identity/service.go and internal/identity/password.go: the first owner of an instance.
--
-- `Codec` holds what the code calls of the standard library and of argon2; the salt is an answer of
-- the random source.
pub mod Body
pub mod Once
use dynamis_code_apps_templa.Prelude.{
  ℕ, Bool, true, false, ◌&&◌, ◌||◌, not, Option, none, some, List, [], ◌∷◌, ◌++◌, Text, ascii,
  length, trim_space, is_nil, text_eq, any, ltb, is_some, if◌then◌else◌,
}
use dynamis_code_apps_templa.Schema.{UserRow, WorkspaceRow, AuditContext, instance_admin, Database}
use dynamis_code_apps_templa.Exec.{
  Error, database_failure, invalid_input, already_bootstrapped, Result, ok, err, World, Exec,
  continue, pure, raise, guard, lift, ◌>>=◌, ◌>>◌, statement, query, fresh, clock, End, commit,
  rollback, transact,
}
use dynamis_code_apps_templa.Identity.{Principal, masked, audit}
use dynamis_code_apps_templa.Identity.Policy.{owner}
use dynamis_code_apps_templa.Identity.Scim.{ensure_membership, ensure_groups}
use dynamis_code_apps_templa.Identity.Members.{is_user, insert_member}
use dynamis_code_apps_templa.Identity.Workspaces.{
  validate_workspace_name, default_locale, insert_workspace,
}

pub record Codec : Type 0 where
  pub lower : Text → Text
  pub parse_address : Text → Option Text
  pub version : Text
  pub id_key : Text → Text → Text
  pub base64 : Text → Text

pub record BootstrapInput : Type 0 where
  pub email : Text
  pub password : Text
  pub workspace_name : Text
  pub workspace_locale : Text

pub record BootstrapResult : Type 0 where
  pub user_id : Text
  pub workspace_id : Text

module _ (c : Codec) where
  -- `normalizeEmail`.
  unfoldable pub normalize_email : Text → Result Text
  normalize_email raw =
      let value = c.lower (trim_space raw) in
      if is_nil value || ltb 320 (length value)
      then err invalid_input
      else elim (c.parse_address value) [
        | none ↦ err invalid_input
        | some address ↦ if text_eq address value then ok value else err invalid_input
      ]

  -- `hashPassword` with `defaultPasswordParams`.
  unfoldable pub hash_password : Text → Exec Text
  unfolding fresh
  hash_password password = do
    guard (not (is_nil password)) invalid_input
    salt ← fresh
    pure (
        ascii "$argon2id$v="
        ++ c.version
        ++ ascii "$m=19456,t=2,p=1$"
        ++ c.base64 salt
        ++ ascii "$"
        ++ c.base64 (c.id_key password salt))

-- INSERT INTO bootstrap_state (id, completed_at) VALUES (1, ?): any error is ErrAlreadyBootstrapped.
unfoldable pub claim_bootstrap : ℕ → Exec (Unit {0})
unfolding statement
claim_bootstrap now w = masked already_bootstrapped (
    statement
      (λ db.
        if is_some db.bootstrapped
        then (err database_failure, db)
        else (ok tt, record db { bootstrapped = some now }))
      w)

-- INSERT INTO users: the id is the primary key and the email is unique.
abbrev user_clashes : UserRow → UserRow → Bool
user_clashes new u = text_eq u.id new.id || text_eq u.email new.email

unfoldable pub insert_user : UserRow → Exec (Unit {0})
unfolding statement
insert_user new = statement (λ db.
    if any (user_clashes new) db.users
    then (err database_failure, db)
    else (ok tt, record db { users = db.users ++ new ∷ [] }))

-- INSERT INTO instance_admins: the user is the primary key.
unfoldable pub insert_admin : Text → Exec (Unit {0})
unfolding statement
insert_admin user_id = statement (λ db.
    if any (text_eq user_id) db.instance_admins
    then (err database_failure, db)
    else (ok tt, record db { instance_admins = db.instance_admins ++ user_id ∷ [] }))

module _ (context : AuditContext) where
  abbrev pub bootstrapper : Text → Text → Principal
  bootstrapper user_id workspace_id = record {
    user_id = user_id;
    workspace_id = workspace_id;
    role = [];
    permissions = [];
    auth_method = ascii "bootstrap";
    token_id = [];
    auth_level = 0;
  }

  unfoldable pub audit_bootstrap : Text → Text → ℕ → Exec (Unit {0})
  unfolding audit
  audit_bootstrap user_id workspace_id now = audit (record {
    event_type = ascii "identity.bootstrap.completed";
    actor_user_id = user_id;
    auth_method = ascii "bootstrap";
    workspace_id = workspace_id;
    target_type = ascii "workspace";
    target_id = workspace_id;
    action = ascii "bootstrap";
    outcome = ascii "success";
    request_id = context.request_id;
    source_address = context.source_address;
    metadata = instance_admin;
    created_at = now;
  })

  -- What follows the two rows of the instance: the rights of its first owner.
  unfoldable pub install_owner : UserRow → WorkspaceRow → ℕ → Exec (End BootstrapResult)
  unfolding ensure_membership ensure_groups insert_admin audit_bootstrap
  install_owner user new now = do
    ensure_membership new.id user.id owner true now
    ensure_groups new.id (bootstrapper user.id new.id) context
    insert_admin user.id
    audit_bootstrap user.id new.id now
    pure (commit (record { user_id = user.id; workspace_id = new.id }))

  unfoldable pub bootstrap_body : UserRow → WorkspaceRow → ℕ → Exec (End BootstrapResult)
  unfolding claim_bootstrap insert_user insert_workspace insert_member install_owner
  bootstrap_body user new now = do
    claim_bootstrap now
    insert_user user
    insert_workspace new
    insert_member
        (record { workspace_id = new.id; user_id = user.id; role = owner; created_at = now })
    install_owner user new now

  -- `BootstrapFirstOwner`.
  unfoldable pub bootstrap_first_owner : Codec → BootstrapInput → Exec BootstrapResult
  unfolding normalize_email validate_workspace_name default_locale hash_password fresh
      bootstrap_body transact
  bootstrap_first_owner c input = do
    email ← lift (normalize_email c input.email)
    name ← lift (validate_workspace_name input.workspace_name)
    workspace_locale ← lift (default_locale c.lower input.workspace_locale)
    guard (not (ltb (length input.password) 12 || ltb 1024 (length input.password))) invalid_input
    password_hash ← hash_password c input.password
    user_id ← fresh
    workspace_id ← fresh
    now ← clock
    transact (
        bootstrap_body
          (record {
            id = user_id;
            email = email;
            password_hash = some password_hash;
            email_verified_at = some now;
            created_at = now;
          })
          (record { id = workspace_id; name = name; locale = workspace_locale; created_at = now })
          now)

-- `IsBootstrapped`.
unfoldable pub is_bootstrapped : Exec Bool
unfolding query
is_bootstrapped = query (λ db. is_some db.bootstrapped)
