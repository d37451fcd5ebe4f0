-- ===== src/Identity/Invitations/Use.antt =====
-- internal/identity/invitation.go: looking invitations up and accepting them.
use dynamis_code_apps_templa.Prelude.{
  ℕ, ◌==◌, Bool, true, ◌&&◌, ◌||◌, not, Option, none, some, Text, ascii, length, is_nil, ltb,
  text_eq, any, find, if◌then◌else◌,
}
use dynamis_code_apps_templa.Schema.{InvitationRow, UserRow, AuditContext, role, Database}
use dynamis_code_apps_templa.Exec.{
  invalid_invitation, err, Exec, pure, raise, guard, ◌>>=◌, ◌>>◌, query, fresh, clock, End, commit,
  transact,
}
use dynamis_code_apps_templa.Identity.{masked}
use dynamis_code_apps_templa.Identity.Scim.{ensure_membership}
use dynamis_code_apps_templa.Identity.Members.{insert_member, is_user, is_workspace}
use dynamis_code_apps_templa.Identity.Bootstrap.{Codec, hash_password, insert_user}
use dynamis_code_apps_templa.Identity.Sessions.{Digest, hash_secret}
use dynamis_code_apps_templa.Identity.Invitations.{
  is_open, is_open_id, audit_invitation, update_rows, mark_or_fail,
}
use dynamis_code_apps_templa.Identity.Invitations.Manage.{find_row}

module _ (d : Digest) where
  -- SELECT … FROM invitations i JOIN workspaces w … WHERE i.secret_hash = ?
  abbrev pub has_secret : Text → Database → InvitationRow → Bool
  has_secret secret db i =
      text_eq i.secret_hash (hash_secret d secret)
      && any (is_workspace i.workspace_id) db.workspaces

  unfoldable pub open_now : InvitationRow → Exec (Option InvitationRow)
  unfolding mark_or_fail
  open_now i = do
    guard (is_open i) invalid_invitation
    now ← clock
    (if ltb now i.expires_at
        then pure (some i)
        else mark_or_fail i.workspace_id i.id now >> pure none)

  -- `findInvitation`; none is errInvitationExpired.
  unfoldable pub find_invitation : Text → Exec (Option InvitationRow)
  unfolding find_row hash_secret open_now
  find_invitation secret = find_row (has_secret secret) >>= open_now

  abbrev pub usable : Option InvitationRow → Exec (End InvitationRow)
  usable none = raise invalid_invitation
  usable (some i) = pure (commit i)

  -- `InvitationForSecret`. Where the time is over the mark is rolled back.
  unfoldable pub invitation_for_secret : Text → Exec InvitationRow
  unfolding find_invitation transact
  invitation_for_secret secret w =
      if is_nil secret
      then (err invalid_invitation, w)
      else transact (λ v. masked invalid_invitation ((find_invitation secret >>= usable) v)) w

  abbrev pub is_acceptable : Text → ℕ → InvitationRow → Bool
  is_acceptable invitation_id now i = is_open_id invitation_id i && ltb now i.expires_at

  abbrev pub accepted : ℕ → InvitationRow → InvitationRow
  accepted now i = record i { active_email = none; accepted_at = some now }

  unfoldable pub join_workspace : InvitationRow → Text → ℕ → Exec (Unit {0})
  unfolding insert_member ensure_membership
  join_workspace i user_id now w = masked invalid_invitation (
      (insert_member (record {
        workspace_id = i.workspace_id;
        user_id = user_id;
        role = i.role;
        created_at = now;
      })
          >> ensure_membership i.workspace_id user_id i.role true now)
        w)

  unfoldable pub write_acceptance : InvitationRow → ℕ → Exec (Unit {0})
  unfolding update_rows
  write_acceptance i now w = masked invalid_invitation (
      (do
        changed ← update_rows (is_acceptable i.id now) (accepted now)
        guard (changed == 1) invalid_invitation)
        w)

  -- `acceptLoadedInvitation`.
  unfoldable pub accept_loaded : InvitationRow → Text → AuditContext → ℕ → Exec Text
  unfolding join_workspace write_acceptance audit_invitation
  accept_loaded i user_id context now = do
    join_workspace i user_id now
    write_acceptance i now
    audit_invitation (ascii "invitation.accepted") (ascii "invitation.accepted") user_id
        (ascii "invitation") i.workspace_id i.id (role i.role) context now
    pure i.workspace_id

  abbrev pub email_or_invalid : Option UserRow → Exec Text
  email_or_invalid none = raise invalid_invitation
  email_or_invalid (some u) = pure u.email

  unfoldable pub email_of : Text → Exec Text
  unfolding query
  email_of user_id w =
      masked invalid_invitation
        ((query (λ db. find (is_user user_id) db.users) >>= email_or_invalid) w)

  -- Behind `findInvitation`: an expiry is committed, and answered with ErrInvalidInvitation.
  unfoldable pub accept_found :
      Text → Text → AuditContext → Option InvitationRow → Exec (End (Option Text))
  unfolding accept_loaded
  accept_found user_id email context none = pure (commit none)
  accept_found user_id email context (some i) = do
    guard (text_eq i.email email) invalid_invitation
    now ← clock
    workspace_id ← accept_loaded i user_id context now
    pure (commit (some workspace_id))

  unfoldable pub accept_body : Text → Text → AuditContext → Exec (End (Option Text))
  unfolding email_of find_invitation accept_found
  accept_body secret user_id context = do
    email ← email_of user_id
    found ← λ w. masked invalid_invitation (find_invitation secret w)
    accept_found user_id email context found

  abbrev pub answer : {A : Type 0} → Option A → Exec A
  answer none = raise invalid_invitation
  answer (some a) = pure a

  -- `AcceptInvitation`: the workspace.
  unfoldable pub accept_invitation : Text → Text → AuditContext → Exec Text
  unfolding accept_body transact
  accept_invitation secret user_id context =
      transact (accept_body secret user_id context) >>= answer

  -- The new account, whose email is the invitation's, and its membership.
  unfoldable pub join_new :
      Text → AuditContext → InvitationRow → Text → ℕ → Exec (End (Option (Text × Text)))
  unfolding insert_user accept_loaded
  join_new password_hash context i user_id now = do
    (λ w. masked invalid_invitation (
        insert_user
          (record {
            id = user_id;
            email = i.email;
            password_hash = some password_hash;
            email_verified_at = some now;
            created_at = now;
          })
          w))
    workspace_id ← accept_loaded i user_id context now
    pure (commit (some (user_id, workspace_id)))

  unfoldable pub join_found :
      Text → AuditContext → Option InvitationRow → Exec (End (Option (Text × Text)))
  unfolding query fresh join_new
  join_found password_hash context none = pure (commit none)
  join_found password_hash context (some i) = do
    there ← query (λ db. any (λ u. text_eq u.email i.email) db.users)
    guard (not there) invalid_invitation
    user_id ← fresh
    now ← clock
    join_new password_hash context i user_id now

  -- `CreateInvitedLocalUser`: the new user and the workspace.
  unfoldable pub create_invited_local_user : Codec → Text → Text → AuditContext → Exec (Text × Text)
  unfolding hash_password find_invitation join_found transact
  create_invited_local_user c secret password context = do
    guard (not (ltb (length password) 12 || ltb 1024 (length password))) invalid_invitation
    password_hash ← λ w. masked invalid_invitation (hash_password c password w)
    joined ← transact (find_invitation secret >>= join_found password_hash context)
    answer joined
