-- ===== src/Identity/Invitations/Manage.antt =====
-- internal/identity/invitation.go: resending, revoking and listing invitations.
use dynamis_code_apps_templa.Prelude.{
  ℕ, ◌+◌, ◌==◌, Bool, true, false, ◌&&◌, ◌||◌, not, Option, none, some, List, Text, ascii, leb, ltb,
  map, text_eq, text_leb, any, count, filter, find, update_where, is_none, is_some, if◌then◌else◌,
}
use dynamis_code_apps_templa.Prelude.Int.{ℤ}
use dynamis_code_apps_templa.Prelude.Sort.{sort}
use dynamis_code_apps_templa.Schema.{InvitationRow, AuditContext, Database}
use dynamis_code_apps_templa.Exec.{
  database_failure, statement, invalid_invitation, ok, err, Exec, pure, raise, guard, lift, ◌>>=◌,
  ◌>>◌, query, fresh, clock, End, commit, rollback, transact,
}
use dynamis_code_apps_templa.Identity.{Principal, masked, require}
use dynamis_code_apps_templa.Identity.Policy.{invitations_manage}
use dynamis_code_apps_templa.Identity.Sessions.{Digest, hash_secret}
use dynamis_code_apps_templa.Identity.Invitations.{
  has_active, is_open, is_open_id, has_id, invited_to, audit_own, update_rows, mark_or_fail,
  mark_each, invitation_lifetime,
}

abbrev pub row_or_invalid : Option InvitationRow → Exec InvitationRow
row_or_invalid none = raise invalid_invitation
row_or_invalid (some i) = pure i

-- The first invitation that passes: any error is ErrInvalidInvitation.
unfoldable pub find_row : (Database → InvitationRow → Bool) → Exec InvitationRow
unfolding query
find_row p w =
    masked invalid_invitation ((query (λ db. find (p db) db.invitations) >>= row_or_invalid) w)

module _ (d : Digest) (actor : Principal) (invitation_id : Text) (context : AuditContext) where
  abbrev pub is_resendable : InvitationRow → Bool
  is_resendable i = has_id invitation_id i && is_none i.accepted_at && is_none i.revoked_at

  abbrev pub resent : Text → ℕ → InvitationRow → InvitationRow → InvitationRow
  resent secret until read i = record i {
    secret_hash = hash_secret d secret;
    active_email = some read.email;
    expires_at = until;
    expired_at = none;
  }

  -- A row that the unique columns of the resent invitation would repeat.
  abbrev pub repeats : Text → InvitationRow → InvitationRow → Bool
  repeats secret read i =
      not (has_id invitation_id i)
      && (text_eq i.secret_hash (hash_secret d secret)
          || (text_eq i.workspace_id read.workspace_id && has_active read.email i))

  unfoldable pub update_resent : Text → ℕ → InvitationRow → Exec ℕ
  unfolding statement hash_secret
  update_resent secret until read = statement (λ db.
      if any (repeats secret read) db.invitations then (err database_failure, db) else (
        ok (count is_resendable db.invitations),
        record db {
          invitations = update_where is_resendable (resent secret until read) db.invitations;
        },
      ))

  -- The UPDATE: any error is ErrInvalidInvitation.
  unfoldable pub write_resent : Text → ℕ → InvitationRow → Exec ℕ
  unfolding update_resent
  write_resent secret until read w = masked invalid_invitation (update_resent secret until read w)

  -- That the invitation has expired is written before it is resent.
  unfoldable pub expire_first : ℕ → InvitationRow → Exec (Unit {0})
  unfolding mark_or_fail
  expire_first now i =
      if is_none i.expired_at && leb i.expires_at now
      then mark_or_fail actor.workspace_id invitation_id now
      else pure tt

  unfoldable pub finish_resend : Text → ℕ → InvitationRow → ℕ → Exec (End Text)
  unfolding audit_own
  finish_resend secret now i changed = do
    guard (changed == 1) invalid_invitation
    audit_own actor context (ascii "invitation.resent") invitation_id i.role now
    pure (commit secret)

  unfoldable pub resend_found : Text → ℕ → ℕ → InvitationRow → Exec (End Text)
  unfolding expire_first write_resent finish_resend
  resend_found secret now lifetime i = do
    guard (is_none i.accepted_at && is_none i.revoked_at) invalid_invitation
    expire_first now i
    changed ← write_resent secret (now + lifetime) i
    finish_resend secret now i changed

  unfoldable pub resend_body : Text → ℕ → ℕ → Exec (End Text)
  unfolding require find_row resend_found
  resend_body secret lifetime now = do
    require actor invitations_manage
    i ← find_row (λ db. invited_to actor.workspace_id invitation_id)
    resend_found secret now lifetime i

  -- `ResendInvitation`: the new secret.
  unfoldable pub resend_invitation : ℤ → Exec Text
  unfolding require invitation_lifetime fresh resend_body transact
  resend_invitation lifetime = do
    require actor invitations_manage
    n ← lift (invitation_lifetime invalid_invitation lifetime)
    secret ← fresh
    now ← clock
    transact (resend_body secret n now)

  abbrev pub revoked : ℕ → InvitationRow → InvitationRow
  revoked now i = record i { active_email = none; revoked_at = some now }

  abbrev pub is_revocable : InvitationRow → Bool
  is_revocable i =
      invited_to actor.workspace_id invitation_id i && is_none i.accepted_at && is_none i.revoked_at

  unfoldable pub revoke_open : ℕ → InvitationRow → Exec (End Bool)
  unfolding update_rows audit_own
  revoke_open now i = do
    changed ← update_rows (is_open_id invitation_id) (revoked now)
    guard (changed == 1) invalid_invitation
    audit_own actor context (ascii "invitation.revoked") invitation_id i.role now
    pure (commit true)

  -- An invitation whose time is over is not revoked. That it has expired is written, and committed.
  unfoldable pub revoke_found : ℕ → InvitationRow → Exec (End Bool)
  unfolding mark_or_fail revoke_open
  revoke_found now i =
      if is_some i.expired_at
      then pure (rollback false)
      else if ltb now i.expires_at
      then revoke_open now i
      else mark_or_fail actor.workspace_id invitation_id now >> pure (commit false)

  unfoldable pub revoke_body : ℕ → Exec (End Bool)
  unfolding require find_row revoke_found
  revoke_body now = do
    require actor invitations_manage
    i ← find_row (λ db. is_revocable)
    revoke_found now i

  unfoldable pub revoke_at : ℕ → Exec (Unit {0})
  unfolding revoke_body transact
  revoke_at now = do done ← transact (revoke_body now); guard done invalid_invitation

  -- `RevokeInvitation`.
  unfoldable pub revoke_invitation : Exec (Unit {0})
  unfolding require revoke_at
  revoke_invitation = do require actor invitations_manage; now ← clock; revoke_at now

-- ORDER BY created_at DESC, id DESC
abbrev newer_row : InvitationRow → InvitationRow → Bool
newer_row i j =
    ltb j.created_at i.created_at || (i.created_at == j.created_at && text_leb j.id i.id)

abbrev newly_expired : ℕ → InvitationRow → Bool
newly_expired now i = is_open i && leb i.expires_at now

abbrev shown : ℕ → InvitationRow → InvitationRow
shown now i = if newly_expired now i then record i { expired_at = some now } else i

abbrev id_of : InvitationRow → Text
id_of i = i.id

unfoldable pub mark_listed : Principal → List InvitationRow → ℕ → Exec (End (List InvitationRow))
unfolding mark_each
mark_listed actor rows now = do
  mark_each actor.workspace_id now (map id_of (filter (newly_expired now) rows))
  pure (commit (map (shown now) rows))

-- `ListInvitations`: what has expired is shown, and written, as such.
unfoldable pub list_invitations : Principal → Exec (List InvitationRow)
unfolding require query sort mark_listed transact
list_invitations actor = do
  require actor invitations_manage
  transact (do
    require actor invitations_manage
    rows ← query (λ db.
        sort newer_row (filter (λ i. text_eq i.workspace_id actor.workspace_id) db.invitations))
    now ← clock
    mark_listed actor rows now)
