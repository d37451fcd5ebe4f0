-- ===== src/Identity/Sessions/Tests.antt =====
-- Sessions at a concrete instance.
use dynamis_code_apps_templa.Prelude.{
  ℕ, ◌+◌, ◌≤◌, ◌≡◌, refl, false, ◌&&◌, none, some, List, [], ◌∷◌, ◌++◌, ascii, count, text_eq,
  text_leb,
}
use dynamis_code_apps_templa.Prelude.Int.{pos}
use dynamis_code_apps_templa.Schema.{SessionRow, empty_database, AuditContext}
use dynamis_code_apps_templa.Exec.{
  ok, World, query, execute, statement, fresh, close, begun, transact,
}
use dynamis_code_apps_templa.Identity.{audit}
use dynamis_code_apps_templa.Identity.Sessions.{
  Digest, Session, NewSession, hash_secret, default_session_lifetime, is_active, later,
  insert_session_sorted, latest_first, end_session, end_each, end_oldest, audit_session,
  enforce_session_limit, insert_session, session_row, store_session, draw_session, valid_method,
  session_lifetime, session_body, create_session_with_level,
}
use dynamis_code_apps_templa.Identity.Sessions.Bound.{create_session_limit}
use dynamis_code_apps_templa.Identity.Sessions.Access.{
  usable, use_row, authenticate_session, open_session, revoke_open, write_revocation,
  revoke_session,
}
use dynamis_code_apps_templa.Identity.Sessions.Ended.{revoked_session}

abbrev digest : Digest
digest = record { sha256 = λ t. t; hex_encode = λ t. t; hex_decode = some }

abbrev context : AuditContext
context = record { request_id = ascii "r"; source_address = ascii "::1" }

abbrev session_of : ℕ → SessionRow
session_of n = record {
  id = n ∷ [];
  user_id = ascii "alice";
  secret_hash = n ∷ [];
  csrf_hash = [];
  auth_method = ascii "local";
  oidc_provider_id = [];
  auth_level = 1;
  fresh_at = none;
  created_at = n;
  expires_at = 100;
  revoked_at = none;
}

abbrev full : List SessionRow
full =
    session_of 3
    ∷ session_of 1
    ∷ session_of 2
    ∷ session_of 4
    ∷ session_of 5
    ∷ session_of 6
    ∷ session_of 7
    ∷ session_of 8
    ∷ session_of 9
    ∷ session_of 10
    ∷ session_of 11
    ∷ []

abbrev busy : World
busy = record {
  db = record empty_database {
    users =
        record {
          id = ascii "alice";
          email = ascii "a@b";
          password_hash = none;
          email_verified_at = none;
          created_at = 0;
        }
        ∷ [];
    sessions = full;
  };
  now = 20;
  faults = [];
  entropy =
      some (ascii "secret")
      ∷ some (ascii "csrf")
      ∷ some (ascii "s")
      ∷ some (ascii "e1")
      ∷ some (ascii "e2")
      ∷ some (ascii "e3")
      ∷ [];
}

abbrev opened : NewSession
opened = record {
  session = record {
    id = ascii "s";
    user_id = ascii "alice";
    auth_method = ascii "local";
    auth_level = 1;
    oidc_provider_id = [];
    created_at = 20;
    expires_at = 20 + default_session_lifetime;
    revoked_at = none;
  };
  secret = ascii "secret";
  csrf_secret = ascii "csrf";
}

opens :
    (create_session_with_level digest context (ascii "alice") (ascii "local") [] (pos 0) 1 busy).0
    ≡ ok opened
unfolding create_session_with_level session_body draw_session store_session insert_session
    session_row enforce_session_limit end_oldest end_each end_session audit_session latest_first
    insert_session_sorted later valid_method session_lifetime hash_secret audit text_eq text_leb
    query execute statement fresh close begun transact
opens = refl

create_session_limit_example :
    (opened.session.user_id ≡ ascii "alice")
    × (opened.session.created_at ≡ busy.now)
    × (count
          (is_active (ascii "alice") busy.now)
          (create_session_with_level digest context
            (ascii "alice")
            (ascii "local")
            []
            (pos 0)
            1
            busy).1.db.sessions
        ≤ 10)
    × (kept : List SessionRow) × ((create_session_with_level digest context
          (ascii "alice")
          (ascii "local")
          []
          (pos 0)
          1
          busy).1.db.sessions
        ≡ kept ++ session_row digest context opened ∷ [])
create_session_limit_example =
    create_session_limit digest context (ascii "alice") (ascii "local") [] (pos 0) 1 busy opened
      opens

revokes : (revoke_session (ascii "alice") (3 ∷ []) context busy).0 ≡ ok []
unfolding revoke_session write_revocation revoke_open open_session audit_session audit text_eq query
    execute statement fresh close begun transact
revokes = refl

abbrev after : World
after = record {
  db = (revoke_session (ascii "alice") (3 ∷ []) context busy).1.db;
  now = 21;
  faults = [];
  entropy = [];
}

abbrev another : Session
another = record {
  id = 4 ∷ [];
  user_id = ascii "alice";
  auth_method = ascii "local";
  auth_level = 1;
  oidc_provider_id = [];
  created_at = 4;
  expires_at = 100;
  revoked_at = none;
}

still_open : (authenticate_session digest (4 ∷ []) after).0 ≡ ok another
unfolding authenticate_session use_row usable hash_secret revoke_session write_revocation
    revoke_open open_session audit_session audit text_eq query execute statement fresh close begun
    transact
still_open = refl

revoked_session_example :
    (text_eq another.id (3 ∷ []) && text_eq another.user_id (ascii "alice")) ≡ false
revoked_session_example =
    revoked_session digest (ascii "alice") (3 ∷ []) context busy [] revokes after (4 ∷ []) another
      refl still_open
