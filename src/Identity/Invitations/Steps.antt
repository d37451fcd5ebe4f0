-- ===== src/Identity/Invitations/Steps.antt =====
-- internal/identity/invitation.go: the operations on invitations in any order.
use dynamis_code_apps_templa.Prelude.{◌≡◌, Text}
use dynamis_code_apps_templa.Prelude.Int.{ℤ}
use dynamis_code_apps_templa.Schema.{AuditContext}
use dynamis_code_apps_templa.Exec.{World}
use dynamis_code_apps_templa.Identity.{Principal}
use dynamis_code_apps_templa.Identity.Bootstrap.{Codec}
use dynamis_code_apps_templa.Identity.Sessions.{Digest}
use dynamis_code_apps_templa.Identity.Invitations.{create_invitation}
use dynamis_code_apps_templa.Identity.Invitations.Manage.{
  resend_invitation, revoke_invitation, list_invitations,
}
use dynamis_code_apps_templa.Identity.Invitations.Use.{
  invitation_for_secret, accept_invitation, create_invited_local_user,
}
use dynamis_code_apps_templa.Identity.Invitations.Settled.{AllSettled}
use dynamis_code_apps_templa.Identity.Invitations.Kept.{
  create_invitation-Settles, resend_invitation-Settles, revoke_invitation-Settles,
  list_invitations-Settles,
}
use dynamis_code_apps_templa.Identity.Invitations.Joined.{
  invitation_for_secret-Settles, accept_invitation-Settles, create_invited_local_user-Settles,
}

-- One operation of `invitation.go`, with whatever arguments and result, or anything that leaves the
-- table of invitations alone: another component, or the clock.
pub data Step (c : Codec) (d : Digest) : World → World → Type 0 where
  creates :
      {w : World} (actor : Principal) (context : AuditContext) (email r : Text) (lifetime : ℤ)
      → Step c d w (create_invitation c d actor context email r lifetime w).1
  resends :
      {w : World} (actor : Principal) (id : Text) (context : AuditContext) (lifetime : ℤ)
      → Step c d w (resend_invitation d actor id context lifetime w).1
  revokes :
      {w : World} (actor : Principal) (id : Text) (context : AuditContext)
      → Step c d w (revoke_invitation d actor id context w).1
  lists : {w : World} (actor : Principal) → Step c d w (list_invitations actor w).1
  looks_up : {w : World} (secret : Text) → Step c d w (invitation_for_secret d secret w).1
  accepts :
      {w : World} (secret user_id : Text) (context : AuditContext)
      → Step c d w (accept_invitation d secret user_id context w).1
  joins :
      {w : World} (secret password : Text) (context : AuditContext)
      → Step c d w (create_invited_local_user d c secret password context w).1
  elsewhere : {w v : World} → v.db.invitations ≡ w.db.invitations → Step c d w v

pub data Reach (c : Codec) (d : Digest) : World → World → Type 0 where
  here : {w : World} → Reach c d w w
  further : {w v u : World} → Reach c d w v → Step c d v u → Reach c d w u

Step-AllSettled :
    (c : Codec) (d : Digest) {w v : World} → Step c d w v → AllSettled w.db → AllSettled v.db
Step-AllSettled c d (creates actor context email r lifetime) h =
    create_invitation-Settles c d actor context email r lifetime _ h
Step-AllSettled c d (resends actor id context lifetime) h =
    resend_invitation-Settles d actor id context lifetime _ h
Step-AllSettled c d (revokes actor id context) h = revoke_invitation-Settles d actor id context _ h
Step-AllSettled c d (lists actor) h = list_invitations-Settles actor _ h
Step-AllSettled c d (looks_up secret) h = invitation_for_secret-Settles d secret _ h
Step-AllSettled c d (accepts secret user_id context) h =
    accept_invitation-Settles d secret user_id context _ h
Step-AllSettled c d (joins secret password context) h =
    create_invited_local_user-Settles d c secret password context _ h
Step-AllSettled c d (elsewhere same) h = rw same h

-- In every state that operations on invitations reach, in any order, whatever fails in them and whatever
-- happens elsewhere in between, from a state in which it holds: an invitation has at most one end
-- (accepted, expired or revoked), and it holds its email exactly as long as it has none.
pub Reach-AllSettled :
    (c : Codec) (d : Digest) {w v : World} → Reach c d w v → AllSettled w.db → AllSettled v.db
Reach-AllSettled c d here h = h
Reach-AllSettled c d (further before step) h =
    Step-AllSettled c d step (Reach-AllSettled c d before h)
