-- ===== src/Identity/Tokens/Manage.antt =====
-- internal/identity/token.go: `UpdateAPITokenScopes`, `RevokeAPIToken` and
-- `ListAPITokens`.
use dynamis_code_apps_templa.Prelude.{
  map, filter, lex, leb, text_leb, [], ◌∷◌, if◌then◌else◌, ℕ, ◌==◌, Bool, ◌&&◌, some, List, Text,
  ascii, is_none, text_eq, count, update_where,
}
use dynamis_code_apps_templa.Schema.{TokenRow, AuditContext, scope_list, null_scopes}
use dynamis_code_apps_templa.Exec.{
  forbidden, invalid_credentials, Exec, pure, guard, ◌>>=◌, ◌>>◌, query, execute, clock, End,
  commit, transact,
}
use dynamis_code_apps_templa.Identity.{Principal, require}
use dynamis_code_apps_templa.Identity.Policy.{valid_scopes, normalize_scopes, workspace_read}
use dynamis_code_apps_templa.Identity.Tokens.Scopes.{encode_scopes, decode_scopes}
use dynamis_code_apps_templa.Identity.Tokens.{ApiToken, scopes_allowed, audit_token, is_valid_token}

-- WHERE id = ? AND user_id = ? AND workspace_id = ?
abbrev pub is_own_token : Principal → Text → TokenRow → Bool
is_own_token actor token_id t =
    text_eq t.id token_id
    && text_eq t.user_id actor.user_id
    && text_eq t.workspace_id actor.workspace_id

module _ (actor : Principal) (token_id : Text) (context : AuditContext) where
  unfoldable pub update_scopes : List Text → ℕ → Exec ℕ
  unfolding execute is_valid_token encode_scopes
  update_scopes scopes now = execute (λ db. (
    record db {
      api_tokens =
          update_where (λ t. is_own_token actor token_id t && is_valid_token now t)
            (λ t. record t { scopes = encode_scopes scopes }) db.api_tokens;
    },
    count (λ t. is_own_token actor token_id t && is_valid_token now t) db.api_tokens,
  ))

  unfoldable pub scopes_body : List Text → ℕ → Exec (End (Unit {0}))
  unfolding scopes_allowed update_scopes audit_token
  scopes_body scopes now = do
    scopes_allowed actor scopes
    changed ← update_scopes scopes now
    guard (changed == 1) invalid_credentials
    audit_token actor token_id (ascii "scopes_changed") (scope_list scopes) context now
    pure (commit tt)

  -- `UpdateAPITokenScopes`.
  unfoldable pub update_api_token_scopes : List Text → Exec (Unit {0})
  unfolding valid_scopes scopes_allowed normalize_scopes scopes_body transact
  update_api_token_scopes scopes = do
    guard (valid_scopes scopes actor.permissions) forbidden
    scopes_allowed actor scopes
    now ← clock
    transact (scopes_body (normalize_scopes scopes) now)

  unfoldable pub end_token : ℕ → Exec ℕ
  unfolding execute
  end_token now = execute (λ db. (
    record db {
      api_tokens =
          update_where (λ t. is_own_token actor token_id t && is_none t.revoked_at)
            (λ t. record t { revoked_at = some now }) db.api_tokens;
    },
    count (λ t. is_own_token actor token_id t && is_none t.revoked_at) db.api_tokens,
  ))

  unfoldable pub revoke_token_body : ℕ → Exec (End (Unit {0}))
  unfolding require end_token audit_token
  revoke_token_body now = do
    require actor workspace_read
    changed ← end_token now
    guard (changed == 1) invalid_credentials
    audit_token actor token_id (ascii "revoked") null_scopes context now
    pure (commit tt)

  -- `RevokeAPIToken`.
  unfoldable pub revoke_api_token : Exec (Unit {0})
  unfolding require revoke_token_body transact
  revoke_api_token = do require actor workspace_read; now ← clock; transact (revoke_token_body now)

-- ORDER BY created_at DESC, id DESC
unfoldable pub newer_token : TokenRow → TokenRow → Bool
newer_token t u =
    lex (leb u.created_at t.created_at) (leb t.created_at u.created_at) (text_leb u.id t.id)

unfoldable pub insert_token_sorted : TokenRow → List TokenRow → List TokenRow
unfolding newer_token
insert_token_sorted t [] = t ∷ []
insert_token_sorted t (u ∷ us) =
    let rest = insert_token_sorted t us in if newer_token t u then t ∷ u ∷ us else u ∷ rest

unfoldable pub newest_tokens : List TokenRow → List TokenRow
unfolding insert_token_sorted
newest_tokens [] = []
newest_tokens (t ∷ ts) = insert_token_sorted t (newest_tokens ts)

unfoldable pub scanned_token : TokenRow → ApiToken
unfolding decode_scopes
scanned_token t = record {
  id = t.id;
  user_id = t.user_id;
  workspace_id = t.workspace_id;
  name = t.name;
  scopes = decode_scopes t.scopes;
  created_at = t.created_at;
  expires_at = t.expires_at;
  last_used_at = t.last_used_at;
  revoked_at = t.revoked_at;
}

abbrev listed_for : Principal → TokenRow → Bool
listed_for actor t = text_eq t.user_id actor.user_id && text_eq t.workspace_id actor.workspace_id

unfoldable pub tokens_body : Principal → Exec (End (List ApiToken))
unfolding require query newest_tokens scanned_token
tokens_body actor = do
  require actor workspace_read
  rows ← query (λ db. newest_tokens (filter (listed_for actor) db.api_tokens))
  pure (commit (map scanned_token rows))

-- `ListAPITokens`.
unfoldable pub list_api_tokens : Principal → Exec (List ApiToken)
unfolding require tokens_body transact
list_api_tokens actor = do require actor workspace_read; transact (tokens_body actor)
