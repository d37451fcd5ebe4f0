-- ===== src/Identity/Tokens.antt =====
-- internal/identity/token.go: API tokens and their scopes.
pub mod Scopes
pub mod Used
pub mod Manage
mod Tests
use dynamis_code_apps_templa.Prelude.{
  ℕ, ◌==◌, Bool, true, false, ◌&&◌, ◌||◌, not, Option, none, some, List, [], ◌∷◌, ◌++◌, Text, ascii,
  length, trim_space, is_nil, is_none, is_some, text_eq, any, count, find, update_where, ltb,
  if◌then◌else◌,
}
use dynamis_code_apps_templa.Schema.{
  Member, TokenRow, AuditContext, Metadata, empty, scope_list, null_scopes, Database,
}
use dynamis_code_apps_templa.Exec.{
  Error, database_failure, forbidden, invalid_input, invalid_credentials, no_rows, mfa_required,
  Result, ok, err, World, Exec, continue, pure, raise, guard, ◌>>=◌, ◌>>◌, statement, query,
  execute, fresh, clock, End, commit, rollback, transact,
}
use dynamis_code_apps_templa.Identity.{Principal, masked, is_member, require, audit}
use dynamis_code_apps_templa.Identity.Policy.{
  contains, permissions_for_role, valid_scopes, normalize_scopes, workspace_read,
}
use dynamis_code_apps_templa.Identity.Mfa.{MfaConfig, mfa_required_for_role}
use dynamis_code_apps_templa.Identity.Sessions.{Digest, hash_secret}
use Scopes.{encode_scopes, decode_scopes}

pub record ApiToken : Type 0 where
  pub id : Text
  pub user_id : Text
  pub workspace_id : Text
  pub name : Text
  pub scopes : List Text
  pub created_at : ℕ
  pub expires_at : Option ℕ
  pub last_used_at : Option ℕ
  pub revoked_at : Option ℕ

pub record NewApiToken : Type 0 where
  pub token : ApiToken
  pub secret : Text

-- `scopesAllowed` and `scopesAllowedTx`: the actor may do now what each scope says.
unfoldable pub scopes_allowed : Principal → List Text → Exec (Unit {0})
unfolding require
scopes_allowed actor [] = pure tt
scopes_allowed actor (s ∷ ss) = require actor s >> scopes_allowed actor ss

unfoldable pub audit_token : Principal → Text → Text → Metadata → AuditContext → ℕ → Exec (Unit {0})
unfolding audit
audit_token actor token_id action metadata context now = audit (record {
  event_type = ascii "api_token." ++ action;
  actor_user_id = actor.user_id;
  auth_method = actor.auth_method;
  workspace_id = actor.workspace_id;
  target_type = ascii "api_token";
  target_id = token_id;
  action = ascii "api_token." ++ action;
  outcome = ascii "success";
  request_id = context.request_id;
  source_address = context.source_address;
  metadata = metadata;
  created_at = now;
})

-- A time that is given lies in the future.
unfoldable pub valid_expiry : ℕ → Option ℕ → Bool
valid_expiry now none = true
valid_expiry now (some t) = ltb now t

-- `isExpired`.
unfoldable pub is_expired : ℕ → Option ℕ → Bool
is_expired now none = false
is_expired now (some t) = not (ltb now t)

-- INSERT INTO api_tokens: the id is the primary key and the hash of the secret is unique.
abbrev token_clashes : TokenRow → TokenRow → Bool
token_clashes new t = text_eq t.id new.id || text_eq t.secret_hash new.secret_hash

unfoldable pub insert_token : TokenRow → Exec (Unit {0})
unfolding statement
insert_token new = statement (λ db.
    if any (token_clashes new) db.api_tokens
    then (err database_failure, db)
    else (ok tt, record db { api_tokens = db.api_tokens ++ new ∷ [] }))

module _ (d : Digest) (actor : Principal) (context : AuditContext) where
  unfoldable pub token_row : NewApiToken → TokenRow
  unfolding hash_secret encode_scopes
  token_row t = record {
    id = t.token.id;
    user_id = t.token.user_id;
    workspace_id = t.token.workspace_id;
    name = t.token.name;
    secret_hash = hash_secret d t.secret;
    scopes = encode_scopes t.token.scopes;
    created_at = t.token.created_at;
    expires_at = t.token.expires_at;
    last_used_at = none;
    revoked_at = none;
  }

  unfoldable pub token_body : NewApiToken → Exec (End NewApiToken)
  unfolding scopes_allowed insert_token token_row audit_token
  token_body t = do
    scopes_allowed actor t.token.scopes
    insert_token (token_row t)
    audit_token actor t.token.id (ascii "created") (scope_list t.token.scopes) context
        t.token.created_at
    pure (commit t)

  -- `CreateAPIToken`.
  unfoldable pub create_api_token : Text → List Text → Option ℕ → Exec NewApiToken
  unfolding valid_scopes scopes_allowed valid_expiry fresh normalize_scopes token_body transact
  create_api_token raw_name scopes expires_at = do
    guard (not (is_nil (trim_space raw_name)) && not (ltb 100 (length (trim_space raw_name))))
        invalid_input
    guard (valid_scopes scopes actor.permissions) forbidden
    scopes_allowed actor scopes
    now ← clock
    guard (valid_expiry now expires_at) invalid_input
    secret ← fresh
    token_id ← fresh
    transact (
        token_body (record {
          token = record {
            id = token_id;
            user_id = actor.user_id;
            workspace_id = actor.workspace_id;
            name = trim_space raw_name;
            scopes = normalize_scopes scopes;
            created_at = now;
            expires_at = expires_at;
            last_used_at = none;
            revoked_at = none;
          };
          secret = secret;
        }))

-- The permissions of a token: its scopes that the role still grants.
unfoldable pub effective : List Text → List Text → List Text
unfolding contains
effective allowed [] = []
effective allowed (s ∷ ss) =
    let rest = effective allowed ss in
    if contains s allowed && not (contains s rest) then s ∷ rest else rest

-- How `AuthenticateAPIToken` ends when it commits.
pub data TokenUse : Type 0 where
  used : Principal → TokenUse
  needs_factor : TokenUse

abbrev pub has_token_secret : Text → TokenRow → Bool
has_token_secret hash t = text_eq t.secret_hash hash

-- Not revoked and not expired.
unfoldable pub is_valid_token : ℕ → TokenRow → Bool
unfolding is_expired
is_valid_token now t = is_none t.revoked_at && not (is_expired now t.expires_at)

abbrev valid_row : ℕ → Option TokenRow → Exec TokenRow
valid_row now none = raise invalid_credentials
valid_row now (some t) = if is_valid_token now t then pure t else raise invalid_credentials

-- ErrInvalidToken is `invalid_credentials`.
unfoldable pub find_token : Digest → Text → ℕ → Exec TokenRow
unfolding hash_secret query is_valid_token
find_token d secret now w = masked invalid_credentials (
    (query (λ db. find (has_token_secret (hash_secret d secret)) db.api_tokens) >>= valid_row now)
      w)

abbrev token_holder : Option Member → Exec Member
token_holder none = raise no_rows
token_holder (some m) = pure m

unfoldable pub find_holder : TokenRow → Exec Member
unfolding query is_member
find_holder t w =
    masked invalid_credentials
      ((query (λ db. find (is_member t.workspace_id t.user_id) db.members) >>= token_holder) w)

-- WHERE id = ? AND revoked_at IS NULL AND (expires_at IS NULL OR expires_at > ?)
unfoldable pub is_usable : Text → ℕ → TokenRow → Bool
unfolding is_valid_token
is_usable id now t = text_eq t.id id && is_valid_token now t

abbrev touched : ℕ → TokenRow → TokenRow
touched now t = record t { last_used_at = some now }

unfoldable pub touch_token : Text → ℕ → Exec ℕ
unfolding execute is_usable
touch_token id now = execute (λ db. (
  record db { api_tokens = update_where (is_usable id now) (touched now) db.api_tokens },
  count (is_usable id now) db.api_tokens,
))

unfoldable pub token_principal : TokenRow → Text → List Text → Principal
token_principal t role permissions = record {
  user_id = t.user_id;
  workspace_id = t.workspace_id;
  role = role;
  permissions = permissions;
  auth_method = ascii "api_token";
  token_id = t.id;
  auth_level = 0;
}

module _ (context : AuditContext) where
  unfoldable pub audit_policy : TokenRow → ℕ → Exec (Unit {0})
  unfolding audit
  audit_policy t now = audit (record {
    event_type = ascii "mfa.policy.enforced";
    actor_user_id = t.user_id;
    auth_method = ascii "policy";
    workspace_id = t.workspace_id;
    target_type = ascii "user";
    target_id = t.user_id;
    action = ascii "mfa.policy.enforce";
    outcome = ascii "success";
    request_id = context.request_id;
    source_address = context.source_address;
    metadata = empty;
    created_at = now;
  })

  unfoldable pub use_token : Text → ℕ → TokenRow → Text → List Text → Exec (End TokenUse)
  unfolding touch_token token_principal normalize_scopes audit_token
  use_token needed now t role permissions = do
    guard (is_nil needed || contains needed permissions) forbidden
    changed ← touch_token t.id now
    guard (changed == 1) invalid_credentials
    audit_token (token_principal t role permissions) t.id (ascii "used")
        (scope_list (if is_nil needed then normalize_scopes permissions else needed ∷ [])) context
        now
    pure (commit (used (token_principal t role permissions)))

  unfoldable pub enforce_policy : TokenRow → ℕ → Exec (End TokenUse)
  unfolding audit_policy
  enforce_policy t now = audit_policy t now >> pure (commit needs_factor)

  unfoldable pub authenticate_body : Digest → MfaConfig → Text → Text → ℕ → Exec (End TokenUse)
  unfolding find_token find_holder mfa_required_for_role enforce_policy effective decode_scopes
      permissions_for_role use_token
  authenticate_body d config secret needed now = do
    t ← find_token d secret now
    m ← find_holder t
    required ← mfa_required_for_role config t.user_id m.role
    (if required
        then enforce_policy t now
        else use_token needed now t m.role
            (effective (permissions_for_role m.role) (decode_scopes t.scopes)))

  unfoldable pub token_answer : TokenUse → Exec Principal
  token_answer (used p) = pure p
  token_answer needs_factor = raise mfa_required

  -- `AuthenticateAPIToken`.
  unfoldable pub authenticate_api_token : Digest → MfaConfig → Text → Text → Exec Principal
  unfolding authenticate_body transact token_answer
  authenticate_api_token d config secret needed = do
    now ← clock
    outcome ← transact (authenticate_body d config secret needed now)
    token_answer outcome
