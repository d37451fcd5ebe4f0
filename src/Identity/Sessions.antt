-- ===== src/Identity/Sessions.antt =====
-- internal/identity/session.go and internal/identity/crypto.go: the sessions of users.
--
-- `Digest` holds SHA-256 and the hexadecimal texts of the standard library. A secret is an answer of
-- the random source.
pub mod Limit
pub mod Bound
pub mod Access
pub mod Ended
mod Tests
use dynamis_code_apps_templa.Prelude.{
  ℕ, ◌*◌, ◌+◌, ◌-◌, ◌==◌, Bool, true, false, ◌&&◌, ◌||◌, not, Option, none, some, List, [], ◌∷◌,
  ◌++◌, Text, ascii, length, drop, map, is_nil, is_none, is_some, text_eq, text_leb, any, count,
  find, filter, update_where, ltb, leb, lex, if◌then◌else◌,
}
use dynamis_code_apps_templa.Prelude.Int.{ℤ, pos, negsuc}
use dynamis_code_apps_templa.Schema.{SessionRow, AuditContext, empty, Database}
use dynamis_code_apps_templa.Exec.{
  Error, database_failure, invalid_input, no_rows, invalid_session, Result, ok, err, World, Exec,
  continue, pure, raise, guard, lift, ◌>>=◌, ◌>>◌, statement, query, execute, fresh, clock, End,
  commit, rollback, transact,
}
use dynamis_code_apps_templa.Identity.{Principal, masked, authorize, audit}
use dynamis_code_apps_templa.Identity.Members.{is_user}

abbrev pub max_active_sessions_per_user : ℕ
max_active_sessions_per_user = 10

abbrev second : ℕ
second = 1000000000

abbrev pub default_session_lifetime : ℕ
default_session_lifetime = 24 * 3600 * second

abbrev pub auth_level_password : ℕ
auth_level_password = 1

pub record Digest : Type 0 where
  pub sha256 : Text → Text
  pub hex_encode : Text → Text
  pub hex_decode : Text → Option Text

unfoldable pub hash_secret : Digest → Text → Text
hash_secret d value = d.hex_encode (d.sha256 value)

unfoldable pub equal_secret_hash : Digest → Text → Text → Bool
equal_secret_hash d value encoded_hash = elim (d.hex_decode encoded_hash) [
  | none ↦ false
  | some want ↦ text_eq (d.sha256 value) want
]

pub record Session : Type 0 where
  pub id : Text
  pub user_id : Text
  pub auth_method : Text
  pub auth_level : ℕ
  pub oidc_provider_id : Text
  pub created_at : ℕ
  pub expires_at : ℕ
  pub revoked_at : Option ℕ

pub record NewSession : Type 0 where
  pub session : Session
  pub secret : Text
  pub csrf_secret : Text

-- The checks of the authentication method.
unfoldable pub valid_method : Text → Text → Bool
valid_method auth_method provider_id =
    (text_eq auth_method (ascii "local") && is_nil provider_id)
    || (text_eq auth_method (ascii "oidc") && not (is_nil provider_id))

unfoldable pub session_lifetime : ℤ → Result ℕ
session_lifetime (negsuc n) = err invalid_input
session_lifetime (pos n) =
    if n == 0
    then ok default_session_lifetime
    else if ltb n (60 * second) || ltb (30 * 24 * 3600 * second) n
    then err invalid_input
    else ok n

-- WHERE user_id = ? AND revoked_at IS NULL AND expires_at > ?
abbrev pub is_active : Text → ℕ → SessionRow → Bool
is_active user_id now s = text_eq s.user_id user_id && is_none s.revoked_at && ltb now s.expires_at

-- ORDER BY created_at DESC, id DESC
unfoldable pub later : SessionRow → SessionRow → Bool
later s t = lex (leb t.created_at s.created_at) (leb s.created_at t.created_at) (text_leb t.id s.id)

unfoldable pub insert_session_sorted : SessionRow → List SessionRow → List SessionRow
unfolding later
insert_session_sorted s [] = s ∷ []
insert_session_sorted s (t ∷ ts) =
    let rest = insert_session_sorted s ts in if later s t then s ∷ t ∷ ts else t ∷ rest

unfoldable pub latest_first : List SessionRow → List SessionRow
unfolding insert_session_sorted
latest_first [] = []
latest_first (s ∷ ss) = insert_session_sorted s (latest_first ss)

abbrev pub session_id : SessionRow → Text
session_id s = s.id

abbrev pub has_id : Text → SessionRow → Bool
has_id id s = text_eq s.id id

abbrev pub ended : ℕ → SessionRow → SessionRow
ended now s = record s { revoked_at = some now }

unfoldable pub end_session : ℕ → Text → Exec ℕ
unfolding execute
end_session now id = execute (λ db. (
  record db { sessions = update_where (has_id id) (ended now) db.sessions },
  count (has_id id) db.sessions,
))

unfoldable pub audit_session : Text → Text → Text → Text → Text → AuditContext → ℕ → Exec (Unit {0})
unfolding audit
audit_session event_type action user_id auth_method id context now = audit (record {
  event_type = event_type;
  actor_user_id = user_id;
  auth_method = auth_method;
  workspace_id = [];
  target_type = ascii "session";
  target_id = id;
  action = action;
  outcome = ascii "success";
  request_id = context.request_id;
  source_address = context.source_address;
  metadata = empty;
  created_at = now;
})

module _ (user_id : Text) (context : AuditContext) (now : ℕ) where
  -- The loop of `enforceSessionLimit`.
  unfoldable pub end_each : List Text → Exec (Unit {0})
  unfolding end_session audit_session
  end_each [] = pure tt
  end_each (id ∷ ids) =
      end_session now id
      >> (audit_session (ascii "session.limit_revoked") (ascii "session.revoke") user_id
            (ascii "system") id context now
          >> end_each ids)

  unfoldable pub end_oldest : List SessionRow → Exec (Unit {0})
  unfolding end_each
  end_oldest active =
      if ltb (length active) max_active_sessions_per_user
      then pure tt
      else end_each (map session_id (drop (max_active_sessions_per_user - 1) active))

  -- `enforceSessionLimit`.
  unfoldable pub enforce_session_limit : Exec (Unit {0})
  unfolding query latest_first end_oldest
  enforce_session_limit = do
    there ← query (λ db. any (is_user user_id) db.users)
    guard there no_rows
    active ← query (λ db. latest_first (filter (is_active user_id now) db.sessions))
    end_oldest active

-- INSERT INTO sessions: the id is the primary key and the hash of the secret is unique.
abbrev session_clashes : SessionRow → SessionRow → Bool
session_clashes new s = text_eq s.id new.id || text_eq s.secret_hash new.secret_hash

unfoldable pub insert_session : SessionRow → Exec (Unit {0})
unfolding statement
insert_session new = statement (λ db.
    if any (session_clashes new) db.sessions
    then (err database_failure, db)
    else (ok tt, record db { sessions = db.sessions ++ new ∷ [] }))

module _ (d : Digest) (context : AuditContext) where
  unfoldable pub session_row : NewSession → SessionRow
  unfolding hash_secret
  session_row s = record {
    id = s.session.id;
    user_id = s.session.user_id;
    secret_hash = hash_secret d s.secret;
    csrf_hash = hash_secret d s.csrf_secret;
    auth_method = s.session.auth_method;
    oidc_provider_id = s.session.oidc_provider_id;
    auth_level = s.session.auth_level;
    fresh_at = some s.session.created_at;
    created_at = s.session.created_at;
    expires_at = s.session.expires_at;
    revoked_at = none;
  }

  unfoldable pub store_session : NewSession → Exec (End NewSession)
  unfolding enforce_session_limit insert_session session_row audit_session
  store_session s = do
    enforce_session_limit s.session.user_id context s.session.created_at
    insert_session (session_row s)
    audit_session (ascii "session.created") (ascii "session.create") s.session.user_id
        s.session.auth_method s.session.id context s.session.created_at
    pure (commit s)

  unfoldable pub draw_session : Text → Text → Text → ℕ → ℕ → Exec (End NewSession)
  unfolding fresh store_session
  draw_session user_id auth_method provider_id auth_level lifetime = do
    secret ← fresh
    csrf_secret ← fresh
    session_id ← fresh
    now ← clock
    store_session (record {
      session = record {
        id = session_id;
        user_id = user_id;
        auth_method = auth_method;
        auth_level = auth_level;
        oidc_provider_id = provider_id;
        created_at = now;
        expires_at = now + lifetime;
        revoked_at = none;
      };
      secret = secret;
      csrf_secret = csrf_secret;
    })

  -- `createSessionWithLevelTx`.
  unfoldable pub session_body : Text → Text → Text → ℤ → ℕ → Exec (End NewSession)
  unfolding valid_method session_lifetime draw_session
  session_body user_id auth_method provider_id lifetime auth_level = do
    guard (valid_method auth_method provider_id) invalid_input
    n ← lift (session_lifetime lifetime)
    draw_session user_id auth_method provider_id auth_level n

  -- `createSessionWithLevel`.
  unfoldable pub create_session_with_level : Text → Text → Text → ℤ → ℕ → Exec NewSession
  unfolding session_body transact
  create_session_with_level user_id auth_method provider_id lifetime auth_level =
      transact (session_body user_id auth_method provider_id lifetime auth_level)

  -- `CreateSession`.
  unfoldable pub create_session : Text → Text → Text → ℤ → Exec NewSession
  unfolding create_session_with_level
  create_session user_id auth_method provider_id lifetime =
      create_session_with_level user_id auth_method provider_id lifetime auth_level_password
