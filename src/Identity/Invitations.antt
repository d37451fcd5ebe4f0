-- ===== src/Identity/Invitations.antt =====
-- internal/identity/invitation.go: invitations into a workspace, and how they end.
--
-- `Codec` and `Digest` hold what the code calls of the standard library. Times are columns that the
-- code itself writes in the fixed-width layout, so reading them does not fail.
pub mod Manage
pub mod Use
pub mod Settled
pub mod Kept
pub mod Joined
pub mod Steps
pub mod Loaded
pub mod Accepted
pub mod Owners
pub mod Registered
pub mod Once
mod Tests
use dynamis_code_apps_templa.Prelude.{
  ℕ, ◌+◌, ◌*◌, ◌==◌, Bool, true, false, ◌&&◌, ◌||◌, not, Option, none, some, List, [], ◌∷◌, ◌++◌,
  Text, ascii, length, leb, ltb, map, text_eq, text_leb, any, count, filter, find, update_where,
  is_none, is_some, lex, if◌then◌else◌,
}
use dynamis_code_apps_templa.Prelude.Int.{ℤ, pos, negsuc}
use dynamis_code_apps_templa.Prelude.Sort.{sort}
use dynamis_code_apps_templa.Clock.{second}
use dynamis_code_apps_templa.Schema.{
  InvitationRow, Member, UserRow, AuditContext, Metadata, empty, role, Database,
}
use dynamis_code_apps_templa.Exec.{
  Error, database_failure, invalid_invitation, active_invitation, forbidden, invalid_input, Result,
  ok, err, World, Exec, pure, raise, guard, lift, ◌>>=◌, ◌>>◌, statement, query, execute, fresh,
  clock, End, commit, rollback, transact,
}
use dynamis_code_apps_templa.Identity.{Principal, masked, require, audit}
use dynamis_code_apps_templa.Identity.Policy.{invitations_manage, valid_invitation_role}
use dynamis_code_apps_templa.Identity.Scim.{ensure_membership}
use dynamis_code_apps_templa.Identity.Members.{insert_member, is_user, is_workspace}
use dynamis_code_apps_templa.Identity.Bootstrap.{Codec, normalize_email, hash_password, insert_user}
use dynamis_code_apps_templa.Identity.Sessions.{Digest, hash_secret}

-- `defaultInvitationLifetime`.
abbrev pub default_invitation_lifetime : ℕ
default_invitation_lifetime = 7 * 24 * 3600 * second

-- accepted_at IS NULL AND expired_at IS NULL AND revoked_at IS NULL
abbrev pub is_open : InvitationRow → Bool
is_open i = is_none i.accepted_at && is_none i.expired_at && is_none i.revoked_at

abbrev pub has_id : Text → InvitationRow → Bool
has_id invitation_id i = text_eq i.id invitation_id

-- WHERE id = ? AND … IS NULL
abbrev pub is_open_id : Text → InvitationRow → Bool
is_open_id invitation_id i = has_id invitation_id i && is_open i

abbrev pub invited_to : Text → Text → InvitationRow → Bool
invited_to workspace_id invitation_id i =
    has_id invitation_id i && text_eq i.workspace_id workspace_id

unfoldable pub audit_invitation :
    Text → Text → Text → Text → Text → Text → Metadata → AuditContext → ℕ → Exec (Unit {0})
unfolding audit
audit_invitation event_type action user_id auth_method workspace_id invitation_id metadata context
      now =
    audit (record {
      event_type = event_type;
      actor_user_id = user_id;
      auth_method = auth_method;
      workspace_id = workspace_id;
      target_type = ascii "invitation";
      target_id = invitation_id;
      action = action;
      outcome = ascii "success";
      request_id = context.request_id;
      source_address = context.source_address;
      metadata = metadata;
      created_at = now;
    })

-- UPDATE invitations, with the number of changed rows.
unfoldable pub update_rows : (InvitationRow → Bool) → (InvitationRow → InvitationRow) → Exec ℕ
unfolding execute
update_rows p f =
    execute
      (λ db. (record db { invitations = update_where p f db.invitations }, count p db.invitations))

abbrev pub expired : ℕ → InvitationRow → InvitationRow
expired now i = record i { active_email = none; expired_at = some now }

abbrev pub is_over : Text → Text → ℕ → InvitationRow → Bool
is_over workspace_id invitation_id now i =
    invited_to workspace_id invitation_id i && is_open i && leb i.expires_at now

-- `markInvitationExpired`: whether the row was marked.
unfoldable pub mark_expired : Text → Text → ℕ → Exec Bool
unfolding update_rows audit_invitation
mark_expired workspace_id invitation_id now = do
  changed ← update_rows (is_over workspace_id invitation_id now) (expired now)
  (if changed == 1
      then audit_invitation (ascii "invitation.expired") (ascii "invitation.expire") []
          (ascii "system") workspace_id invitation_id empty
          (record { request_id = []; source_address = [] }) now
        >> pure true
      else pure false)

-- A mark that does not change its row is ErrInvalidInvitation.
unfoldable pub mark_or_fail : Text → Text → ℕ → Exec (Unit {0})
unfolding mark_expired
mark_or_fail workspace_id invitation_id now = do
  marked ← mark_expired workspace_id invitation_id now
  guard marked invalid_invitation

-- The loops over invitations whose time is over.
unfoldable pub mark_each : Text → ℕ → List Text → Exec (Unit {0})
unfolding mark_or_fail
mark_each workspace_id now [] = pure tt
mark_each workspace_id now (invitation_id ∷ ids) =
    mark_or_fail workspace_id invitation_id now >> mark_each workspace_id now ids

abbrev row_id : InvitationRow → Text
row_id i = i.id

abbrev active_is : Text → Option Text → Bool
active_is email none = false
active_is email (some active) = text_eq active email

-- active_email = ?
abbrev pub has_active : Text → InvitationRow → Bool
has_active email i = active_is email i.active_email

-- `expireInvitations`.
unfoldable pub expire_invitations : Text → Text → ℕ → Exec (Unit {0})
unfolding query mark_each
expire_invitations workspace_id email now = do
  ids ← query (λ db. map row_id (
      filter
        (λ i.
          text_eq i.workspace_id workspace_id
          && has_active email i
          && is_none i.expired_at
          && leb i.expires_at now)
        db.invitations))
  mark_each workspace_id now ids

-- The lifetime of an invitation, 1 minute to 30 days.
unfoldable pub invitation_lifetime : Error → ℤ → Result ℕ
invitation_lifetime e (negsuc n) = err e
invitation_lifetime e (pos n) =
    if n == 0
    then ok default_invitation_lifetime
    else if ltb n (60 * second) || ltb (30 * 24 * 3600 * second) n
    then err e
    else ok n

-- INSERT INTO invitations: the primary key, the unique columns and the CHECK of the role.
abbrev invitation_clashes : InvitationRow → InvitationRow → Bool
invitation_clashes new i =
    has_id new.id i
    || text_eq i.secret_hash new.secret_hash
    || (text_eq i.workspace_id new.workspace_id && has_active new.email i)

unfoldable pub insert_invitation : InvitationRow → Exec (Unit {0})
unfolding statement valid_invitation_role
insert_invitation new = statement (λ db.
    if any (invitation_clashes new) db.invitations || not (valid_invitation_role new.role)
    then (err database_failure, db)
    else (ok tt, record db { invitations = db.invitations ++ new ∷ [] }))

-- A member of the workspace whose account has the email.
abbrev is_invited_member : Text → Text → List UserRow → Member → Bool
is_invited_member workspace_id email users m =
    text_eq m.workspace_id workspace_id
    && any (λ u. is_user m.user_id u && text_eq u.email email) users

-- `auditInvitation`.
unfoldable pub audit_own : Principal → AuditContext → Text → Text → Text → ℕ → Exec (Unit {0})
unfolding audit_invitation
audit_own actor context action invitation_id r now =
    audit_invitation action action actor.user_id actor.auth_method actor.workspace_id invitation_id
      (role r) context now

module _ (c : Codec) (d : Digest) (actor : Principal) (context : AuditContext) where
  unfoldable pub create_invitation_body : InvitationRow → Exec (End InvitationRow)
  unfolding require expire_invitations query insert_invitation audit_own
  create_invitation_body new = do
    require actor invitations_manage
    expire_invitations actor.workspace_id new.email new.created_at
    invited ← query (λ db.
        any (λ i. text_eq i.workspace_id actor.workspace_id && has_active new.email i)
          db.invitations)
    guard (not invited) active_invitation
    joined ← query (λ db. any (is_invited_member actor.workspace_id new.email db.users) db.members)
    guard (not joined) active_invitation
    insert_invitation new
    audit_own actor context (ascii "invitation.created") new.id new.role new.created_at
    pure (commit new)

  unfoldable pub new_invitation : Text → Text → Text → Text → ℕ → ℕ → InvitationRow
  unfolding hash_secret
  new_invitation invitation_id secret email r now lifetime = record {
    id = invitation_id;
    workspace_id = actor.workspace_id;
    invited_by_user_id = actor.user_id;
    email = email;
    active_email = some email;
    role = r;
    secret_hash = hash_secret d secret;
    created_at = now;
    expires_at = now + lifetime;
    accepted_at = none;
    expired_at = none;
    revoked_at = none;
  }

  unfoldable pub store_invitation : Text → InvitationRow → Exec (InvitationRow × Text)
  unfolding create_invitation_body transact
  store_invitation secret new = do
    stored ← transact (create_invitation_body new)
    pure (stored, secret)

  -- `CreateInvitation`: the stored invitation and its secret.
  unfoldable pub create_invitation : Text → Text → ℤ → Exec (InvitationRow × Text)
  unfolding require valid_invitation_role normalize_email invitation_lifetime fresh new_invitation
      store_invitation
  create_invitation raw_email r lifetime = do
    require actor invitations_manage
    guard (valid_invitation_role r) forbidden
    email ← lift (normalize_email c raw_email)
    n ← lift (invitation_lifetime invalid_input lifetime)
    secret ← fresh
    invitation_id ← fresh
    now ← clock
    store_invitation secret (new_invitation invitation_id secret email r now n)
