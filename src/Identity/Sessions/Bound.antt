-- ===== src/Identity/Sessions/Bound.antt =====
-- internal/identity/session.go: the sessions that a new session leaves active.
use dynamis_code_apps_templa.Prelude.{
  ℕ, ◌+◌, ◌≤◌, ◌≡◌, refl, none, List, [], ◌∷◌, ◌++◌, Text, ascii, arith, count, inl, inr,
  Bool-cases,
}
use dynamis_code_apps_templa.Prelude.Counts.{count-append, one-le}
use dynamis_code_apps_templa.Prelude.Int.{ℤ}
use dynamis_code_apps_templa.Schema.{SessionRow, AuditContext, Database}
use dynamis_code_apps_templa.Exec.{Result-cases, ok, World, End, commit, fresh, statement}
use dynamis_code_apps_templa.Exec.Atomic.{transact_post_at}
use dynamis_code_apps_templa.Identity.Sessions.{
  Digest, NewSession, is_active, enforce_session_limit, insert_session, session_row, store_session,
  draw_session, valid_method, session_lifetime, session_body, create_session_with_level,
}
use dynamis_code_apps_templa.Identity.Sessions.Limit.{
  enforce_session_limit-ok, audit_session-sessions,
}

insert_session-ok :
    (new : SessionRow) (w : World) {u : Unit {0}}
    → (insert_session new w).0 ≡ ok u
    → (insert_session new w).1.db.sessions ≡ w.db.sessions ++ new ∷ []
unfolding insert_session statement
insert_session-ok new w h = ground arith

module _ (d : Digest) (context : AuditContext) where
  -- A session is added behind at most nine active ones of its user.
  IsLimited : Text → ℕ → NewSession → Database → Type 0
  IsLimited user_id now s after =
      (kept : List SessionRow) × (count (is_active user_id now) kept ≤ 9)
      × (after.sessions ≡ kept ++ session_row d context s ∷ [])

  store_session-ok :
      (s : NewSession) (w : World) {e : End NewSession}
      → (store_session d context s w).0 ≡ ok e
      → (e ≡ commit s)
        × IsLimited s.session.user_id s.session.created_at s (store_session d context s w).1.db
  unfolding store_session IsLimited
  store_session-ok s w {e} h =
      let now = s.session.created_at in
      let v = (enforce_session_limit s.session.user_id context now w).1 in
      let row = session_row d context s in
      elim (Result-cases (enforce_session_limit s.session.user_id context now w).0) [
        | inr (f, failed) ↦ absurd (ground arith)
        | inl (u, limited) ↦ elim (Result-cases (insert_session row v).0) [
          | inr (f, failed) ↦ absurd (ground arith)
          | inl (u', stored) ↦
              let few = enforce_session_limit-ok s.session.user_id context now w limited in
              let rows = insert_session-ok row v stored in
              let same =
                audit_session-sessions (ascii "session.created") (ascii "session.create")
                  s.session.user_id s.session.auth_method s.session.id context now
                  (insert_session row v).1 in
              (ground arith, (v.db.sessions, few, ground arith))
        ]
      ]

  -- How a transaction of `CreateSession` ends.
  IsOpened : Text → ℕ → End NewSession → Database → Type 0
  IsOpened user_id now e after =
      (s : NewSession) × (e ≡ commit s)
      × (s.session.user_id ≡ user_id)
      × (s.session.created_at ≡ now)
      × IsLimited user_id now s after

  draw_session-ok :
      (user_id auth_method provider_id : Text) (auth_level lifetime : ℕ) (w : World)
      {e : End NewSession}
      → (draw_session d context user_id auth_method provider_id auth_level lifetime w).0 ≡ ok e
      → IsOpened user_id w.now e
          (draw_session d context user_id auth_method provider_id auth_level lifetime w).1.db
  unfolding draw_session IsOpened fresh
  draw_session-ok user_id auth_method provider_id auth_level lifetime w {e} h =
      elim (Result-cases (fresh w).0) [
        | inr (f, failed) ↦ absurd (ground arith)
        | inl (secret, drawn) ↦ elim (Result-cases (fresh (fresh w).1).0) [
          | inr (f, failed) ↦ absurd (ground arith)
          | inl (csrf_secret, drawn') ↦ elim (Result-cases (fresh (fresh (fresh w).1).1).0) [
            | inr (f, failed) ↦ absurd (ground arith)
            | inl (id, drawn'') ↦
                let s : NewSession = record {
                  session = record {
                    id = id;
                    user_id = user_id;
                    auth_method = auth_method;
                    auth_level = auth_level;
                    oidc_provider_id = provider_id;
                    created_at = w.now;
                    expires_at = w.now + lifetime;
                    revoked_at = none;
                  };
                  secret = secret;
                  csrf_secret = csrf_secret;
                } in
                let (ends, limited) =
                  store_session-ok s (fresh (fresh (fresh w).1).1).1 {e = e}
                    (rw (drawn, drawn', drawn'') at h) in
                (s, ends, refl, refl, rw (drawn, drawn', drawn'') limited)
          ]
        ]
      ]

  session_body-ok :
      (user_id auth_method provider_id : Text) (lifetime : ℤ) (auth_level now : ℕ) (w : World)
      (e : End NewSession)
      → w.now ≡ now
      → (session_body d context user_id auth_method provider_id lifetime auth_level w).0 ≡ ok e
      → IsOpened user_id now e
          (session_body d context user_id auth_method provider_id lifetime auth_level w).1.db
  unfolding session_body
  session_body-ok user_id auth_method provider_id lifetime auth_level now w e time h =
      elim (Bool-cases (valid_method auth_method provider_id)) [
        | inr bad ↦ absurd (ground arith)
        | inl good ↦ elim (Result-cases (session_lifetime lifetime)) [
          | inr (f, failed) ↦ absurd (ground arith)
          | inl (n, allowed) ↦
              rw (good, allowed, ← time)
                (draw_session-ok user_id auth_method provider_id auth_level n w {e = e}
                  (rw (good, allowed) at h))
        ]
      ]

-- A session that is created belongs to the user and begins at that time, and leaves the user at most ten
-- active sessions, however many there were before; the row of the new one is stored behind all others.
pub create_session_limit :
    (d : Digest) (context : AuditContext) (user_id auth_method provider_id : Text) (lifetime : ℤ)
    (auth_level : ℕ) (w : World) (s : NewSession)
    → (create_session_with_level d context user_id auth_method provider_id lifetime auth_level w).0
      ≡ ok s
    → (s.session.user_id ≡ user_id)
      × (s.session.created_at ≡ w.now)
      × (count
            (is_active user_id w.now)
            (create_session_with_level d context user_id auth_method provider_id lifetime auth_level
              w).1.db.sessions
          ≤ 10)
      × (kept : List SessionRow) × ((create_session_with_level d context user_id auth_method
            provider_id lifetime auth_level w).1.db.sessions
          ≡ kept ++ session_row d context s ∷ [])
unfolding create_session_with_level IsOpened IsLimited
create_session_limit d context user_id auth_method provider_id lifetime auth_level w s h =
    let body = session_body d context user_id auth_method provider_id lifetime auth_level in
    elim (transact_post_at (λ before e after. IsOpened d context user_id w.now e after) body w
      (λ v e time done.
        session_body-ok d context user_id auth_method provider_id lifetime auth_level w.now v e time
          done)
      {a = s} h) [
        | inr (same, after, (x, never, _, _, _)) ↦ absurd (ground arith)
        | inl (x, made, of_user, begun, (kept, few, rows)) ↦
            let same : s ≡ x = ground arith in
            let total =
              count-append (is_active user_id w.now) (is_active user_id w.now) kept
                (session_row d context x) in
            let least = one-le (is_active user_id w.now (session_row d context x)) in
            rw same (of_user, begun, rw rows (omega (arith, total, least, few)), kept, rows)
      ]
