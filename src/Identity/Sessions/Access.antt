-- ===== src/Identity/Sessions/Access.antt =====
-- internal/identity/session.go: the use, the list and the end of sessions.
use dynamis_code_apps_templa.Prelude.{
  ℕ, ◌==◌, Bool, false, ◌&&◌, not, Option, none, some, List, Text, ascii, map, is_none, text_eq,
  count, find, filter, update_where, ltb, if◌then◌else◌,
}
use dynamis_code_apps_templa.Schema.{SessionRow, AuditContext}
use dynamis_code_apps_templa.Exec.{
  no_rows, invalid_session, mfa_required as second_factor, Result, ok, err, World, Exec, pure,
  raise, guard, ◌>>=◌, ◌>>◌, query, execute, clock, End, commit, transact,
}
use dynamis_code_apps_templa.Identity.{Principal, masked, authorize}
use dynamis_code_apps_templa.Identity.Mfa.{MfaConfig, auth_level_mfa, mfa_required}
use dynamis_code_apps_templa.Identity.Sessions.{
  Digest, hash_secret, equal_secret_hash, Session, latest_first, has_id, ended, audit_session,
}

abbrev pub has_secret : Text → SessionRow → Bool
has_secret hash s = text_eq s.secret_hash hash

abbrev pub scanned : SessionRow → Session
scanned r = record {
  id = r.id;
  user_id = r.user_id;
  auth_method = r.auth_method;
  auth_level = r.auth_level;
  oidc_provider_id = r.oidc_provider_id;
  created_at = r.created_at;
  expires_at = r.expires_at;
  revoked_at = r.revoked_at;
}

-- A session is used before its end, and not once it is revoked.
unfoldable pub usable : ℕ → SessionRow → Bool
usable now r = ltb now r.expires_at && is_none r.revoked_at

unfoldable pub use_row : Option SessionRow → Exec Session
unfolding usable
use_row none = raise invalid_session
use_row (some r) = clock >>= λ now. if usable now r then pure (scanned r) else raise invalid_session

-- `AuthenticateSession`: any error is ErrInvalidSession.
unfoldable pub authenticate_session : Digest → Text → Exec Session
unfolding hash_secret query use_row
authenticate_session d secret w =
    masked invalid_session
      ((query (λ db. find (has_secret (hash_secret d secret)) db.sessions) >>= use_row) w)

abbrev pub as_session : Session → Principal → Principal
as_session s p = record p { auth_method = s.auth_method; auth_level = s.auth_level }

-- `AuthenticateSessionForWorkspace`.
unfoldable pub authenticate_session_for_workspace :
    Digest → MfaConfig → Text → Text → Text → Exec Principal
unfolding authenticate_session authorize mfa_required
authenticate_session_for_workspace d config secret workspace_id permission = do
  session ← authenticate_session d secret
  principal ← authorize session.user_id workspace_id permission
  required ← mfa_required config session.user_id
  guard (not (required && ltb session.auth_level auth_level_mfa)) second_factor
  pure (as_session session principal)

abbrev verified : Digest → Text → Result (Option SessionRow) × World → Bool × World
verified d csrf_secret (ok (some r), w) = (
  is_none r.revoked_at && equal_secret_hash d csrf_secret r.csrf_hash && ltb w.now r.expires_at,
  w,
)
verified d csrf_secret (ok none, w) = (false, w)
verified d csrf_secret (err e, w) = (false, w)

-- `VerifyCSRF`.
unfoldable pub verify_csrf : Digest → Text → Text → World → Bool × World
unfolding query equal_secret_hash
verify_csrf d id csrf_secret w =
    verified d csrf_secret (query (λ db. find (has_id id) db.sessions) w)

-- WHERE id = ? AND user_id = ? AND revoked_at IS NULL
abbrev pub is_open : Text → Text → SessionRow → Bool
is_open id user_id r = text_eq r.id id && text_eq r.user_id user_id && is_none r.revoked_at

-- Any error of the SELECT is ErrInvalidSession.
abbrev one_row : Option SessionRow → Exec SessionRow
one_row none = raise no_rows
one_row (some r) = pure r

unfoldable pub open_session : Text → Text → Exec SessionRow
unfolding query
open_session id user_id w =
    masked invalid_session ((query (λ db. find (is_open id user_id) db.sessions) >>= one_row) w)

unfoldable pub revoke_open : Text → Text → ℕ → Exec ℕ
unfolding execute
revoke_open id user_id now = execute (λ db. (
  record db { sessions = update_where (is_open id user_id) (ended now) db.sessions },
  count (is_open id user_id) db.sessions,
))

module _ (user_id id : Text) (context : AuditContext) where
  unfoldable pub write_revocation : ℕ → SessionRow → Exec (End Text)
  unfolding revoke_open audit_session
  write_revocation now r = do
    changed ← revoke_open id user_id now
    guard (changed == 1) invalid_session
    audit_session (ascii "session.revoked") (ascii "session.revoke") user_id r.auth_method id
        context now
    pure (commit r.oidc_provider_id)

  -- `RevokeSession`.
  unfoldable pub revoke_session : Exec Text
  unfolding open_session write_revocation transact
  revoke_session = clock >>= λ now. transact (open_session id user_id >>= write_revocation now)

-- `ListSessions`.
unfoldable pub list_sessions : Text → Exec (List Session)
unfolding query latest_first
list_sessions user_id = do
  rows ←
      query
        (λ db. latest_first (filter (λ (r : SessionRow). text_eq r.user_id user_id) db.sessions))
  pure (map scanned rows)
