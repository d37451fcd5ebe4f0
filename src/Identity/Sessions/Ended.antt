-- ===== src/Identity/Sessions/Ended.antt =====
-- internal/identity/session.go: a session that is revoked is not used again.
use dynamis_code_apps_templa.Prelude.{
  ℕ, ◌≡◌, ◌==◌, true, false, ◌&&◌, some, List, [], ◌∷◌, Text, ascii, arith, All, All-find, find,
  is_none, update_where, text_eq, inl, inr, Bool-cases, Option-cases,
}
use dynamis_code_apps_templa.Schema.{SessionRow, AuditContext, Database}
use dynamis_code_apps_templa.Exec.{
  Result-cases, ok, World, End, commit, query, execute, statement, refused, ◌>>=◌,
}
use dynamis_code_apps_templa.Exec.Atomic.{transact_post}
use dynamis_code_apps_templa.Identity.Sessions.{Digest, hash_secret, Session, ended}
use dynamis_code_apps_templa.Identity.Sessions.Limit.{audit_session-sessions}
use dynamis_code_apps_templa.Identity.Sessions.Access.{
  has_secret, scanned, usable, use_row, authenticate_session, is_open, open_session, revoke_open,
  write_revocation, revoke_session,
}

-- Every row of one id and user is revoked.
abbrev Closed : Text → Text → SessionRow → Type 0
Closed id user_id r = (text_eq r.id id && text_eq r.user_id user_id && is_none r.revoked_at) ≡ false

update_where-Closed :
    (id user_id : Text) (now : ℕ) (rows : List SessionRow)
    → All (Closed id user_id) (update_where (is_open id user_id) (ended now) rows)
update_where-Closed id user_id now [] = tt
update_where-Closed id user_id now (r ∷ rs) = (ground arith, update_where-Closed id user_id now rs)

-- A session that is authenticated is a stored row that is not revoked and not over.
pub authenticate_session-ok :
    (d : Digest) (secret : Text) (w : World) (s : Session)
    → (authenticate_session d secret w).0 ≡ ok s
    → (r : SessionRow) × (find (has_secret (hash_secret d secret)) w.db.sessions ≡ some r)
      × (usable w.now r ≡ true)
      × (s ≡ scanned r)
unfolding authenticate_session use_row query statement
authenticate_session-ok d secret w s h = elim (Bool-cases (refused w.faults)) [
  | inl bad ↦ absurd (ground arith)
  | inr good ↦ elim (Option-cases (find (has_secret (hash_secret d secret)) w.db.sessions)) [
    | inl missing ↦ absurd (ground arith)
    | inr (r, found) ↦ elim (Bool-cases (usable w.now r)) [
      | inr over ↦ absurd (ground arith)
      | inl live ↦ (r, found, live, ground arith)
    ]
  ]
]

revoke_open-ok :
    (id user_id : Text) (now : ℕ) (w : World) {n : ℕ}
    → (revoke_open id user_id now w).0 ≡ ok n
    → (revoke_open id user_id now w).1.db.sessions
      ≡ update_where (is_open id user_id) (ended now) w.db.sessions
unfolding revoke_open execute statement
revoke_open-ok id user_id now w h = ground arith

open_session-db : (id user_id : Text) (w : World) → (open_session id user_id w).1.db ≡ w.db
unfolding open_session query statement
open_session-db id user_id w = elim (Option-cases (find (is_open id user_id) w.db.sessions)) [
  | inl missing ↦ ground arith
  | inr (r, found) ↦ ground arith
]

module _ (user_id id : Text) (context : AuditContext) where
  write_revocation-ok :
      (now : ℕ) (r : SessionRow) (w : World) {e : End Text}
      → (write_revocation user_id id context now r w).0 ≡ ok e
      → (e ≡ commit r.oidc_provider_id)
        × ((write_revocation user_id id context now r w).1.db.sessions
            ≡ update_where (is_open id user_id) (ended now) w.db.sessions)
  unfolding write_revocation
  write_revocation-ok now r w h = elim (Result-cases (revoke_open id user_id now w).0) [
    | inr (e, failed) ↦ absurd (ground arith)
    | inl (n, wrote) ↦ elim (Bool-cases (n == 1)) [
      | inr other ↦ absurd (ground arith)
      | inl single ↦
          let rows = revoke_open-ok id user_id now w wrote in
          let same =
            audit_session-sessions (ascii "session.revoked") (ascii "session.revoke") user_id
              r.auth_method id context now (revoke_open id user_id now w).1 in
          (ground arith, ground arith)
    ]
  ]

  -- How a transaction of `RevokeSession` ends.
  IsEnded : Database → End Text → Database → Type 0
  IsEnded before e after =
      (now : ℕ) × (provider_id : Text) × (e ≡ commit provider_id)
      × (after.sessions ≡ update_where (is_open id user_id) (ended now) before.sessions)

  revoke_body-ok :
      (now : ℕ) (w : World) (e : End Text)
      → ((open_session id user_id >>= write_revocation user_id id context now) w).0 ≡ ok e
      → IsEnded w.db e
          ((open_session id user_id >>= write_revocation user_id id context now) w).1.db
  unfolding IsEnded
  revoke_body-ok now w e h =
      let same = open_session-db id user_id w in
      elim (Result-cases (open_session id user_id w).0) [
        | inr (f, failed) ↦ absurd (ground arith)
        | inl (r, found) ↦
            let (ends, rows) =
              write_revocation-ok now r (open_session id user_id w).1 {e = e} (ground arith) in
            (now, r.oidc_provider_id, ends, ground arith)
      ]

-- After a revocation that succeeds, no secret authenticates the session of that id and user: not in any
-- state that has the sessions it left, at whatever time.
pub revoked_session :
    (d : Digest) (user_id id : Text) (context : AuditContext) (w : World) (provider_id : Text)
    → (revoke_session user_id id context w).0 ≡ ok provider_id
    → (v : World) (secret : Text) (s : Session)
    → v.db.sessions ≡ (revoke_session user_id id context w).1.db.sessions
    → (authenticate_session d secret v).0 ≡ ok s
    → (text_eq s.id id && text_eq s.user_id user_id) ≡ false
unfolding revoke_session IsEnded usable
revoked_session d user_id id context w provider_id h v secret s same accepted =
    elim (transact_post (IsEnded user_id id context)
      (open_session id user_id >>= write_revocation user_id id context w.now)
      (revoke_body-ok user_id id context w.now) w {a = provider_id} h) [
        | inr (kept, after, (now, x, never, rows)) ↦ absurd (ground arith)
        | inl (now, x, ends, rows) ↦
            let (r, found, live, scanned_r) = authenticate_session-ok d secret v s accepted in
            let closed =
              All-find (Closed id user_id) (has_secret (hash_secret d secret)) v.db.sessions {x = r}
                (rw (same, rows) (update_where-Closed id user_id now w.db.sessions)) found in
            rw scanned_r (ground arith)
      ]
