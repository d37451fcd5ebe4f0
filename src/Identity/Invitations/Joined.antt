-- ===== src/Identity/Invitations/Joined.antt =====
-- internal/identity/invitation.go: looking an invitation up and accepting it keeps the invitations settled.
use dynamis_code_apps_templa.Prelude.{
  ℕ, ◌==◌, ◌≡◌, true, not, Option, none, some, Text, length, is_nil, ltb, text_eq, arith, inl, inr,
  Bool-cases, ap, ◌||◌,
}
use dynamis_code_apps_templa.Schema.{InvitationRow, UserRow, AuditContext, Database}
use dynamis_code_apps_templa.Exec.{
  invalid_invitation, World, Exec, pure, guard, ◌>>=◌, ◌>>◌, statement, query, fresh, transact,
}
use dynamis_code_apps_templa.Identity.{masked}
use dynamis_code_apps_templa.Identity.Scim.{ensure_membership}
use dynamis_code_apps_templa.Identity.Members.{insert_member}
use dynamis_code_apps_templa.Identity.Bootstrap.{Codec, hash_password, insert_user}
use dynamis_code_apps_templa.Identity.Bootstrap.Once.{hash_password-calm}
use dynamis_code_apps_templa.Identity.Sessions.{Digest}
use dynamis_code_apps_templa.Identity.Invitations.{
  audit_invitation, is_open, update_rows, mark_or_fail,
}
use dynamis_code_apps_templa.Identity.Invitations.Manage.{find_row}
use dynamis_code_apps_templa.Identity.Invitations.Use.{
  usable, is_acceptable, answer, email_or_invalid, open_now, find_invitation, has_secret,
  invitation_for_secret, join_workspace, write_acceptance, accepted, accept_loaded, email_of,
  accept_found, accept_body, accept_invitation, join_new, join_found, create_invited_local_user,
}
use dynamis_code_apps_templa.Identity.Invitations.Settled.{
  Settles, Settles-same, Settles-masked, query-Settles, audit_invitation-Settles, fresh-Settles,
  update_rows-Settles, Settles-if, accepted-IsSettled, mark_or_fail-Settles, insert_member-Settles,
  ensure_membership-Settles, Settles-transact,
}
use dynamis_code_apps_templa.Identity.Invitations.Kept.{
  guard-Settles, Settles-bind, find_row-Settles, Settles-clock,
}

Settles-option :
    {A B : Type 0} (f : Option A → Exec B)
    → Settles (f none)
    → ((a : A) → Settles (f (some a)))
    → (o : Option A) → Settles (f o)
Settles-option f h k none = h
Settles-option f h k (some a) = k a

module _ (d : Digest) where
  open_now-Settles : (i : InvitationRow) → Settles (open_now d i)
  unfolding open_now
  open_now-Settles i =
      Settles-bind (guard (is_open i) invalid_invitation) _ (guard-Settles _ _) λ u w p.
        Settles-if (ltb w.now i.expires_at) (pure (some i)) _ (λ v q. q)
          (Settles-bind (mark_or_fail i.workspace_id i.id w.now) _
            (mark_or_fail-Settles i.workspace_id i.id w.now) λ u v q. q)
          w p

  find_invitation-Settles : (secret : Text) → Settles (find_invitation d secret)
  unfolding find_invitation
  find_invitation-Settles secret =
      Settles-bind (find_row (has_secret d secret)) (open_now d)
        (find_row-Settles (has_secret d secret)) open_now-Settles

  usable-Settles : (found : Option InvitationRow) → Settles (usable d found)
  usable-Settles = Settles-option (usable d) (λ w p. p) λ i w p. p

  pub invitation_for_secret-Settles : (secret : Text) → Settles (invitation_for_secret d secret)
  unfolding invitation_for_secret
  invitation_for_secret-Settles secret w p =
      let body =
        λ (v : World). masked invalid_invitation ((find_invitation d secret >>= usable d) v) in
      elim (Bool-cases (is_nil secret)) [
        | inl blank ↦ rw blank p
        | inr given ↦ rw given (
            Settles-transact body
              (Settles-masked invalid_invitation (find_invitation d secret >>= usable d) (
                Settles-bind (find_invitation d secret) (usable d) (find_invitation-Settles secret)
                  usable-Settles))
              w p)
      ]

  join_workspace-Settles :
      (i : InvitationRow) (user_id : Text) (now : ℕ) → Settles (join_workspace d i user_id now)
  unfolding join_workspace
  join_workspace-Settles i user_id now =
      Settles-masked invalid_invitation
        (insert_member _ >> ensure_membership i.workspace_id user_id i.role true now)
        (Settles-bind (insert_member _) _ (insert_member-Settles _)
          λ u. ensure_membership-Settles i.workspace_id user_id i.role true now)

  write_acceptance-Settles : (i : InvitationRow) (now : ℕ) → Settles (write_acceptance d i now)
  unfolding write_acceptance
  write_acceptance-Settles i now =
      Settles-masked invalid_invitation
        (update_rows (is_acceptable d i.id now) (accepted d now) >>= λ changed.
          guard (changed == 1) invalid_invitation)
        (Settles-bind (update_rows (is_acceptable d i.id now) (accepted d now)) _
          (update_rows-Settles _ _ (λ j settled live. accepted-IsSettled now j (ground arith)))
          λ changed. guard-Settles _ _)

  accept_loaded-Settles :
      (i : InvitationRow) (user_id : Text) (context : AuditContext) (now : ℕ)
      → Settles (accept_loaded d i user_id context now)
  unfolding accept_loaded
  accept_loaded-Settles i user_id context now =
      Settles-bind (join_workspace d i user_id now) _ (join_workspace-Settles i user_id now) λ u.
        Settles-bind (write_acceptance d i now) _ (write_acceptance-Settles i now) λ u.
          Settles-bind (audit_invitation _ _ user_id _ i.workspace_id i.id _ context now) _
            (audit_invitation-Settles _ _ user_id _ i.workspace_id i.id _ context now) λ u w p. p

  email_of-Settles : (user_id : Text) → Settles (email_of d user_id)
  unfolding email_of
  email_of-Settles user_id =
      Settles-masked invalid_invitation (query _ >>= email_or_invalid d)
        (Settles-bind (query _) (email_or_invalid d) (query-Settles _) email_or_invalid-Settles)
    where
      email_or_invalid-Settles : (found : Option UserRow) → Settles (email_or_invalid d found)
      email_or_invalid-Settles = Settles-option (email_or_invalid d) (λ w p. p) λ u w p. p

  accept_found-Settles :
      (user_id email : Text) (context : AuditContext) (found : Option InvitationRow)
      → Settles (accept_found d user_id email context found)
  unfolding accept_found
  accept_found-Settles user_id email context =
      Settles-option (accept_found d user_id email context) (λ w p. p)
        λ i.
          Settles-bind (guard (text_eq i.email email) invalid_invitation) _ (guard-Settles _ _)
            λ u w p.
              Settles-bind (accept_loaded d i user_id context w.now) _
                (accept_loaded-Settles i user_id context w.now) (λ workspace_id v q. q) w p

  answer-Settles : {A : Type 0} (o : Option A) → Settles (answer d o)
  answer-Settles = Settles-option (answer d) (λ w p. p) λ a w p. p

  pub accept_invitation-Settles :
      (secret user_id : Text) (context : AuditContext)
      → Settles (accept_invitation d secret user_id context)
  unfolding accept_invitation accept_body
  accept_invitation-Settles secret user_id context =
      Settles-bind (transact (accept_body d secret user_id context)) (answer d)
        (Settles-transact (accept_body d secret user_id context) (
          Settles-bind (email_of d user_id) _ (email_of-Settles user_id) λ email.
            Settles-bind (λ w. masked invalid_invitation (find_invitation d secret w))
              (accept_found d user_id email context)
              (Settles-masked invalid_invitation (find_invitation d secret)
                (find_invitation-Settles secret))
              (accept_found-Settles user_id email context)))
        answer-Settles

  insert_user-Settles : (new : UserRow) → Settles (insert_user new)
  insert_user-Settles new = Settles-same (insert_user new) (λ w. same new w)
    where
      same : (new : UserRow) (w : World) → (insert_user new w).1.db.invitations ≡ w.db.invitations
      same new w = unfold insert_user statement in ground arith

  join_new-Settles :
      (password_hash : Text) (context : AuditContext) (i : InvitationRow) (user_id : Text) (now : ℕ)
      → Settles (join_new d password_hash context i user_id now)
  unfolding join_new
  join_new-Settles password_hash context i user_id now =
      Settles-bind (λ w. masked invalid_invitation (insert_user _ w)) _
        (Settles-masked invalid_invitation (insert_user _) (insert_user-Settles _))
        λ u.
          Settles-bind (accept_loaded d i user_id context now) _
            (accept_loaded-Settles i user_id context now) λ workspace_id w p. p

  join_found-Settles :
      (password_hash : Text) (context : AuditContext) (found : Option InvitationRow)
      → Settles (join_found d password_hash context found)
  unfolding join_found
  join_found-Settles password_hash context =
      Settles-option (join_found d password_hash context) (λ w p. p)
        λ i. Settles-bind (query _) _ (query-Settles _) λ there.
          Settles-bind (guard (not there) invalid_invitation) _ (guard-Settles _ _) λ u.
            Settles-bind fresh _ fresh-Settles λ user_id.
              Settles-clock (join_new d password_hash context i user_id)
                (join_new-Settles password_hash context i user_id)

  hash_password-Settles : (c : Codec) (password : Text) → Settles (hash_password c password)
  hash_password-Settles c password =
      Settles-same (hash_password c password)
        (λ w. ap (λ (db : Database). db.invitations) (hash_password-calm c password w).0)

  pub create_invited_local_user-Settles :
      (c : Codec) (secret password : Text) (context : AuditContext)
      → Settles (create_invited_local_user d c secret password context)
  unfolding create_invited_local_user
  create_invited_local_user-Settles c secret password context =
      Settles-bind (guard _ invalid_invitation) _
        (guard-Settles (not (ltb (length password) 12 || ltb 1024 (length password)))
          invalid_invitation)
        λ u.
          Settles-bind (λ w. masked invalid_invitation (hash_password c password w)) _
            (Settles-masked invalid_invitation (hash_password c password)
              (hash_password-Settles c password))
            λ password_hash.
              Settles-bind
                (transact (find_invitation d secret >>= join_found d password_hash context))
                (answer d)
                (Settles-transact (find_invitation d secret >>= join_found d password_hash context)
                  (Settles-bind (find_invitation d secret) _ (find_invitation-Settles secret)
                    (join_found-Settles password_hash context)))
                answer-Settles
