-- ===== src/Identity/Invitations/Kept.antt =====
-- internal/identity/invitation.go: each operation keeps the invitations settled.
use dynamis_code_apps_templa.Prelude.{
  ℕ, ◌==◌, ◌≡◌, refl, Bool, true, ◌&&◌, not, Option, none, some, List, Text, ltb, leb, update_where,
  is_none, is_some, arith, All-update_where, ◌⊎◌, inl, inr,
}
use dynamis_code_apps_templa.Prelude.Int.{ℤ}
use dynamis_code_apps_templa.Schema.{InvitationRow, AuditContext, Database}
use dynamis_code_apps_templa.Exec.{
  Error, invalid_invitation, invalid_input, active_invitation, forbidden, World, Exec, guard, ◌>>=◌,
  statement, query, fresh, clock, lift, transact,
}
use dynamis_code_apps_templa.Exec.Keeps.{Keeps-bind, guard-Keeps}
use dynamis_code_apps_templa.Identity.{Principal, require}
use dynamis_code_apps_templa.Identity.Policy.{invitations_manage}
use dynamis_code_apps_templa.Identity.Bootstrap.{Codec, normalize_email}
use dynamis_code_apps_templa.Identity.Sessions.{Digest}
use dynamis_code_apps_templa.Identity.Invitations.{
  is_open_id, update_rows, mark_or_fail, mark_each, audit_own, store_invitation,
  create_invitation_body, create_invitation, new_invitation, insert_invitation, expire_invitations,
  invitation_lifetime,
}
use dynamis_code_apps_templa.Identity.Invitations.Manage.{
  is_resendable, row_or_invalid, find_row, write_resent, update_resent, mark_listed, resent,
  resend_body, revoke_body, revoke_at, expire_first, finish_resend, resend_found, resend_invitation,
  revoke_open, revoked, revoke_found, revoke_invitation, list_invitations,
}
use dynamis_code_apps_templa.Identity.Invitations.Settled.{
  some-none, IsSettled, AllSettled, Settles, Settles-masked, query-Settles, require-Settles,
  audit_own-Settles, fresh-Settles, update_rows-Settles, Settles-if, revoked-IsSettled,
  mark_or_fail-Settles, mark_each-Settles, expire_invitations-Settles, insert_invitation-Settles,
  Settles-transact,
}

pub guard-Settles : (b : Bool) (e : Error) → Settles (guard b e)
guard-Settles b e = guard-Keeps AllSettled b e

-- The rest of an action, behind a step that leaves the invitations settled.
pub Settles-bind :
    {A B : Type 0} (m : Exec A) (f : A → Exec B)
    → Settles m
    → ((a : A) → Settles (f a))
    → Settles (m >>= f)
Settles-bind m f h k = Keeps-bind AllSettled m f h k

pub Settles-clock :
    {B : Type 0} (f : ℕ → Exec B) → ((now : ℕ) → Settles (f now)) → Settles (clock >>= f)
Settles-clock f h = Settles-bind clock f (λ w p. p) h

row_or_invalid-Settles : (found : Option InvitationRow) → Settles (row_or_invalid found)
row_or_invalid-Settles none w p = p
row_or_invalid-Settles (some i) w p = p

pub find_row-Settles : (p : Database → InvitationRow → Bool) → Settles (find_row p)
unfolding find_row
find_row-Settles p =
    Settles-masked invalid_invitation (query _ >>= row_or_invalid)
      (Settles-bind (query _) row_or_invalid (query-Settles _) row_or_invalid-Settles)

module _ (c : Codec) (d : Digest) (actor : Principal) (context : AuditContext) where
  create_invitation_body-Settles :
      (new : InvitationRow) → IsSettled new → Settles (create_invitation_body c d actor context new)
  unfolding create_invitation_body
  create_invitation_body-Settles new settled =
      Settles-bind (require actor invitations_manage) _ (require-Settles actor invitations_manage)
        λ u.
          Settles-bind (expire_invitations actor.workspace_id new.email new.created_at) _
            (expire_invitations-Settles actor.workspace_id new.email new.created_at)
            λ u. Settles-bind (query _) _ (query-Settles _) λ invited.
              Settles-bind (guard (not invited) active_invitation) _ (guard-Settles _ _) λ u.
                Settles-bind (query _) _ (query-Settles _) λ joined.
                  Settles-bind (guard (not joined) active_invitation) _ (guard-Settles _ _) λ u.
                    Settles-bind (insert_invitation new) _ (insert_invitation-Settles new settled)
                      λ u.
                        Settles-bind (audit_own actor context _ new.id new.role new.created_at) _
                          (audit_own-Settles actor context _ new.id new.role new.created_at)
                          λ u. λ w p. p

  new-IsSettled :
      (id secret email r : Text) (now n : ℕ)
      → IsSettled (new_invitation c d actor context id secret email r now n)
  unfolding IsSettled new_invitation
  new-IsSettled id secret email r now n = (omega arith, refl)

  store_invitation-Settles :
      (secret : Text) (new : InvitationRow)
      → IsSettled new
      → Settles (store_invitation c d actor context secret new)
  unfolding store_invitation
  store_invitation-Settles secret new settled =
      Settles-bind (transact (create_invitation_body c d actor context new)) _
        (Settles-transact _ (create_invitation_body-Settles new settled)) λ stored w p. p

  pub create_invitation-Settles :
      (raw_email r : Text) (lifetime : ℤ)
      → Settles (create_invitation c d actor context raw_email r lifetime)
  unfolding create_invitation new_invitation
  create_invitation-Settles raw_email r lifetime =
      Settles-bind (require actor invitations_manage) _ (require-Settles actor invitations_manage)
        λ u. Settles-bind (guard _ forbidden) _ (guard-Settles _ _) λ u.
          Settles-bind (lift (normalize_email c raw_email)) _ (λ w p. p)
            λ email.
              Settles-bind (lift (invitation_lifetime invalid_input lifetime)) _ (λ w p. p)
                λ n. Settles-bind fresh _ fresh-Settles λ secret.
                  Settles-bind fresh _ fresh-Settles λ id.
                    Settles-clock
                      (λ now.
                        store_invitation c d actor context secret
                          (new_invitation c d actor context id secret email r now n))
                      λ now.
                        store_invitation-Settles secret _ (new-IsSettled id secret email r now n)

module _ (d : Digest) (actor : Principal) (invitation_id : Text) (context : AuditContext) where
  resent-IsSettled :
      (secret : Text) (until : ℕ) (read i : InvitationRow)
      → is_resendable d actor invitation_id context i ≡ true
      → IsSettled (resent d actor invitation_id context secret until read i)
  unfolding IsSettled
  resent-IsSettled secret until read i h = (
    let a = some-none i.accepted_at in let b = some-none i.revoked_at in ground arith,
    ground arith,
  )

  update_resent-rows :
      (secret : Text) (until : ℕ) (read : InvitationRow) (w : World)
      → ((update_resent d actor invitation_id context secret until read w).1.db.invitations
          ≡ w.db.invitations)
        ⊎ ((update_resent d actor invitation_id context secret until read w).1.db.invitations
            ≡ update_where
                (is_resendable d actor invitation_id context)
                (resent d actor invitation_id context secret until read)
                w.db.invitations)
  unfolding update_resent statement
  update_resent-rows secret until read w = ground arith

  write_resent-Settles :
      (secret : Text) (until : ℕ) (read : InvitationRow)
      → Settles (write_resent d actor invitation_id context secret until read)
  unfolding write_resent
  write_resent-Settles secret until read =
      Settles-masked invalid_invitation
        (update_resent d actor invitation_id context secret until read)
        (λ w h. elim (update_resent-rows secret until read w) [
          | inl same ↦ rw same h
          | inr written ↦ rw written (
              All-update_where IsSettled _ _ w.db.invitations
                (λ i settled. resent-IsSettled secret until read i) h)
        ])

  expire_first-Settles :
      (now : ℕ) (i : InvitationRow) → Settles (expire_first d actor invitation_id context now i)
  unfolding expire_first
  expire_first-Settles now i =
      Settles-if (is_none i.expired_at && leb i.expires_at now)
        (mark_or_fail actor.workspace_id invitation_id now) _
        (mark_or_fail-Settles actor.workspace_id invitation_id now) λ w p. p

  finish_resend-Settles :
      (secret : Text) (now : ℕ) (i : InvitationRow) (changed : ℕ)
      → Settles (finish_resend d actor invitation_id context secret now i changed)
  unfolding finish_resend
  finish_resend-Settles secret now i changed =
      Settles-bind (guard (changed == 1) invalid_invitation) _ (guard-Settles _ _) λ u.
        Settles-bind (audit_own actor context _ invitation_id i.role now) _
          (audit_own-Settles actor context _ invitation_id i.role now) λ u w p. p

  resend_found-Settles :
      (secret : Text) (now n : ℕ) (i : InvitationRow)
      → Settles (resend_found d actor invitation_id context secret now n i)
  unfolding resend_found
  resend_found-Settles secret now n i =
      Settles-bind (guard (is_none i.accepted_at && is_none i.revoked_at) invalid_invitation) _
        (guard-Settles _ _)
        λ u.
          Settles-bind (expire_first d actor invitation_id context now i) _
            (expire_first-Settles now i)
            λ u.
              Settles-bind (write_resent d actor invitation_id context secret _ i) _
                (write_resent-Settles secret _ i) (finish_resend-Settles secret now i)

  resend_body-Settles :
      (secret : Text) (n now : ℕ) → Settles (resend_body d actor invitation_id context secret n now)
  unfolding resend_body
  resend_body-Settles secret n now =
      Settles-bind (require actor invitations_manage) _ (require-Settles actor invitations_manage)
        λ u.
          Settles-bind (find_row _) _ (find_row-Settles _) λ i. resend_found-Settles secret now n i

  pub resend_invitation-Settles :
      (lifetime : ℤ) → Settles (resend_invitation d actor invitation_id context lifetime)
  unfolding resend_invitation
  resend_invitation-Settles lifetime =
      Settles-bind (require actor invitations_manage) _ (require-Settles actor invitations_manage)
        λ u.
          Settles-bind (lift (invitation_lifetime invalid_invitation lifetime)) _ (λ w p. p)
            λ n. Settles-bind fresh _ fresh-Settles λ secret.
              Settles-clock
                (λ now. transact (resend_body d actor invitation_id context secret n now))
                λ now. Settles-transact _ (resend_body-Settles secret n now)

  revoke_open-Settles :
      (now : ℕ) (i : InvitationRow) → Settles (revoke_open d actor invitation_id context now i)
  unfolding revoke_open
  revoke_open-Settles now i =
      Settles-bind
        (update_rows (is_open_id invitation_id) (revoked d actor invitation_id context now)) _
        (update_rows-Settles _ _ (λ j settled live. revoked-IsSettled now j (ground arith)))
        λ changed. Settles-bind (guard (changed == 1) invalid_invitation) _ (guard-Settles _ _) λ u.
          Settles-bind (audit_own actor context _ invitation_id i.role now) _
            (audit_own-Settles actor context _ invitation_id i.role now) λ u. λ w p. p

  revoke_found-Settles :
      (now : ℕ) (i : InvitationRow) → Settles (revoke_found d actor invitation_id context now i)
  unfolding revoke_found
  revoke_found-Settles now i =
      Settles-if (is_some i.expired_at) _ _ (λ w p. p)
        (Settles-if (ltb now i.expires_at) _ _ (revoke_open-Settles now i) (
          Settles-bind (mark_or_fail actor.workspace_id invitation_id now) _
            (mark_or_fail-Settles actor.workspace_id invitation_id now) λ u. λ w p. p))

  revoke_at-Settles : (now : ℕ) → Settles (revoke_at d actor invitation_id context now)
  unfolding revoke_at revoke_body
  revoke_at-Settles now =
      Settles-bind (transact (revoke_body d actor invitation_id context now)) _
        (Settles-transact (revoke_body d actor invitation_id context now) (
          Settles-bind (require actor invitations_manage) _
            (require-Settles actor invitations_manage)
            λ u. Settles-bind (find_row _) _ (find_row-Settles _) λ i. revoke_found-Settles now i))
        λ done. guard-Settles done invalid_invitation

  pub revoke_invitation-Settles : Settles (revoke_invitation d actor invitation_id context)
  unfolding revoke_invitation
  revoke_invitation-Settles =
      Settles-bind (require actor invitations_manage) _ (require-Settles actor invitations_manage)
        λ u. Settles-clock (revoke_at d actor invitation_id context) revoke_at-Settles

mark_listed-Settles :
    (actor : Principal) (rows : List InvitationRow) (now : ℕ) → Settles (mark_listed actor rows now)
unfolding mark_listed
mark_listed-Settles actor rows now =
    Settles-bind (mark_each actor.workspace_id now _) _ (mark_each-Settles actor.workspace_id now _)
      λ u w p. p

pub list_invitations-Settles : (actor : Principal) → Settles (list_invitations actor)
unfolding list_invitations
list_invitations-Settles actor =
    Settles-bind (require actor invitations_manage) _ (require-Settles actor invitations_manage)
      λ u. Settles-transact _ (
        Settles-bind (require actor invitations_manage) _ (require-Settles actor invitations_manage)
          λ u.
            Settles-bind (query _) _ (query-Settles _)
              λ rows. Settles-clock (mark_listed actor rows) (mark_listed-Settles actor rows))
