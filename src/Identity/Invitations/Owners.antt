-- ===== src/Identity/Invitations/Owners.antt =====
-- internal/identity/invitation.go: what AcceptInvitation does to the owners of workspaces.
use dynamis_code_apps_templa.Prelude.{
  ℕ, ◌==◌, ◌≡◌, refl, sym, subst, Bool, true, false, Option, none, some, Text, ltb, text_eq, arith,
  All, All-find, All-update_where, inl, inr, Bool-cases, Option-cases, find, if◌then◌else◌,
}
use dynamis_code_apps_templa.Schema.{
  InvitationRow, Member, Metadata, AuditEvent, AuditContext, Database,
}
use dynamis_code_apps_templa.Exec.{
  Error, invalid_invitation, Result, ok, err, World, Exec, continue, pure, guard, ◌>>=◌, ◌>>◌,
  statement, query, execute, refused, transact,
}
use dynamis_code_apps_templa.Exec.Keeps.{
  Keeps, Keeps-bind, Keeps-then, Keeps-same, Keeps-transact, guard-Keeps,
}
use dynamis_code_apps_templa.Identity.{masked, audit}
use dynamis_code_apps_templa.Identity.Policy.{owner}
use dynamis_code_apps_templa.Identity.Scim.{ensure_membership}
use dynamis_code_apps_templa.Identity.Members.{insert_member}
use dynamis_code_apps_templa.Identity.Members.Frame.{
  SameOwners, audit-SameOwners, ensure_membership-SameOwners,
}
use dynamis_code_apps_templa.Identity.Members.Owners.{
  OneOwner, OneOwner-same, OneOwner-SameOwners, OneOwner-added,
}
use dynamis_code_apps_templa.Identity.Members.Single.{insert_member-db}
use dynamis_code_apps_templa.Identity.Sessions.{Digest}
use dynamis_code_apps_templa.Identity.Invitations.{
  is_open, audit_invitation, update_rows, is_over, expired, mark_expired, mark_or_fail,
}
use dynamis_code_apps_templa.Identity.Invitations.Manage.{find_row}
use dynamis_code_apps_templa.Identity.Invitations.Use.{
  has_secret, open_now, find_invitation, is_acceptable, accepted, join_workspace, write_acceptance,
  accept_loaded, email_of, accept_found, accept_body, accept_invitation, answer,
}
use dynamis_code_apps_templa.Identity.Invitations.Settled.{masked-world}
use dynamis_code_apps_templa.Identity.Invitations.Accepted.{email_of-db}
use dynamis_code_apps_templa.Identity.Invitations.Loaded.{
  find_invitation-ok, masked-ok, insert_member-same, joining_member,
}

-- The CHECK of the column: no invitation is for an owner.
abbrev pub LowRole : InvitationRow → Type 0
LowRole i = text_eq i.role owner ≡ false

abbrev Guarded : Database → Type 0
Guarded db = OneOwner db × All LowRole db.invitations

abbrev Guards : {A : Type 0} → Exec A → Type 0
Guards m = Keeps Guarded m

-- Actions that leave the tables of the invariant alone.
Guards-same : {A : Type 0} (m : Exec A) → ((w : World) → SameOwners (m w).1.db w.db) → Guards m
unfolding SameOwners
Guards-same m same w (h, low) =
    let (_, _, _, rows) = same w in (OneOwner-SameOwners (m w).1.db w.db (same w) h, rw rows low)

Guards-masked : {A : Type 0} (e : Error) (m : Exec A) → Guards m → Guards (λ w. masked e (m w))
Guards-masked e m h w p = subst (λ (v : World). Guarded v.db) (sym (masked-world e (m w))) (h w p)

-- The rest of an action, where the result of its first step is known.
Guards-known :
    {A B : Type 0} (m : Exec A) (f : A → Exec B) (w : World)
    → Guarded (m w).1.db
    → ((a : A) → (m w).0 ≡ ok a → Guarded (f a (m w).1).1.db)
    → Guarded ((m >>= f) w).1.db
Guards-known m f w h k = go (m w).0 refl
  where
    go : (r : Result _) → (m w).0 ≡ r → Guarded (continue r f (m w).1).1.db
    go (ok a) e = k a e
    go (err x) e = h

update_rows-Guards :
    (p : InvitationRow → Bool) (f : InvitationRow → InvitationRow)
    → ((i : InvitationRow) → (f i).role ≡ i.role)
    → Guards (update_rows p f)
unfolding update_rows execute statement
update_rows-Guards p f kept w (h, low) = elim (Bool-cases (refused w.faults)) [
  | inl bad ↦ rw bad (h, low)
  | inr good ↦ rw good (
    OneOwner-same _ w.db refl refl h,
    All-update_where LowRole p f w.db.invitations (λ i below _. rw (kept i) below) low,
  )
]

audit-Guards : (event : AuditEvent) → Guards (audit event)
audit-Guards event = Guards-same (audit event) (audit-SameOwners event)

audit_invitation-Guards :
    (event_type action user_id auth_method workspace_id invitation_id : Text) (m : Metadata)
    (context : AuditContext) (now : ℕ)
    → Guards (
        audit_invitation event_type action user_id auth_method workspace_id invitation_id m context
          now)
unfolding audit_invitation
audit_invitation-Guards event_type action user_id auth_method workspace_id invitation_id m context
      now =
    audit-Guards _

insert_member-Guards : (m : Member) → text_eq m.role owner ≡ false → Guards (insert_member m)
insert_member-Guards m below w (h, low) = (
  elim (insert_member-db m w) [
    | inl (failed, same) ↦ rw same h
    | inr (workspaces, members, absent) ↦ OneOwner-added _ w.db m members workspaces absent below h
  ],
  rw (insert_member-same m w) low,
)

Guards-if :
    {A : Type 0} (b : Bool) (m n : Exec A) → Guards m → Guards n → Guards (if b then m else n)
Guards-if true m n h k = h
Guards-if false m n h k = k

find_row-db : (p : Database → InvitationRow → Bool) (w : World) → (find_row p w).1.db ≡ w.db
unfolding find_row query statement
find_row-db p w = elim (Option-cases (find (p w.db) w.db.invitations)) [
  | inl missing ↦ ground arith
  | inr (i, found) ↦ ground arith
]

mark_or_fail-Guards :
    (workspace_id invitation_id : Text) (now : ℕ)
    → Guards (mark_or_fail workspace_id invitation_id now)
unfolding mark_or_fail mark_expired
mark_or_fail-Guards workspace_id invitation_id now =
    Keeps-bind Guarded (mark_expired workspace_id invitation_id now) _
      (Keeps-bind Guarded (update_rows (is_over workspace_id invitation_id now) (expired now)) _
        (update_rows-Guards _ _ (λ i. refl))
        (λ changed.
          Guards-if (changed == 1) _ _
            (Keeps-then Guarded _ (pure true) (audit_invitation-Guards _ _ _ _ _ _ _ _ _)
              (λ w p. p))
            (λ w p. p)))
      (λ marked. guard-Keeps Guarded marked invalid_invitation)

module _ (d : Digest) where
  open_now-Guards : (i : InvitationRow) → Guards (open_now d i)
  unfolding open_now
  open_now-Guards i =
      Keeps-bind Guarded (guard (is_open i) invalid_invitation) _ (guard-Keeps Guarded _ _) λ u w p.
        Guards-if (ltb w.now i.expires_at) (pure (some i)) _ (λ v q. q)
          (Keeps-bind Guarded (mark_or_fail i.workspace_id i.id w.now) _
            (mark_or_fail-Guards i.workspace_id i.id w.now) λ u v q. q)
          w p

  find_row-Guards : (p : Database → InvitationRow → Bool) → Guards (find_row p)
  find_row-Guards p = Keeps-same Guarded (find_row p) (find_row-db p)

  find_invitation-Guards : (secret : Text) → Guards (find_invitation d secret)
  unfolding find_invitation
  find_invitation-Guards secret =
      Keeps-bind Guarded (find_row (has_secret d secret)) (open_now d)
        (find_row-Guards (has_secret d secret)) open_now-Guards

  -- An invitation that is found is for no owner.
  find_invitation-LowRole :
      (secret : Text) (w : World) {i : InvitationRow}
      → Guarded w.db
      → (find_invitation d secret w).0 ≡ ok (some i)
      → LowRole i
  find_invitation-LowRole secret w {i} (h, low) found =
      let ((stored, _, _), _, _) = find_invitation-ok d secret w {i = i} found in
      All-find LowRole (has_secret d secret w.db) w.db.invitations {x = i} low stored

  join_workspace-Guards :
      (i : InvitationRow) (user_id : Text) (now : ℕ)
      → LowRole i
      → Guards (join_workspace d i user_id now)
  unfolding join_workspace
  join_workspace-Guards i user_id now below =
      Guards-masked invalid_invitation
        (insert_member (joining_member i user_id now)
          >> ensure_membership i.workspace_id user_id i.role true now)
        (Keeps-then Guarded (insert_member (joining_member i user_id now)) _
          (insert_member-Guards (joining_member i user_id now) below)
          (Guards-same (ensure_membership i.workspace_id user_id i.role true now)
            (ensure_membership-SameOwners i.workspace_id user_id i.role true now)))

  write_acceptance-Guards : (i : InvitationRow) (now : ℕ) → Guards (write_acceptance d i now)
  unfolding write_acceptance
  write_acceptance-Guards i now =
      Guards-masked invalid_invitation
        (update_rows (is_acceptable d i.id now) (accepted d now) >>= λ changed.
          guard (changed == 1) invalid_invitation)
        (Keeps-bind Guarded (update_rows (is_acceptable d i.id now) (accepted d now)) _
          (update_rows-Guards _ _ (λ i. refl)) λ changed. guard-Keeps Guarded _ _)

  accept_loaded-Guards :
      (i : InvitationRow) (user_id : Text) (context : AuditContext) (now : ℕ)
      → LowRole i
      → Guards (accept_loaded d i user_id context now)
  unfolding accept_loaded
  accept_loaded-Guards i user_id context now below =
      Keeps-bind Guarded (join_workspace d i user_id now) _
        (join_workspace-Guards i user_id now below)
        λ u. Keeps-bind Guarded (write_acceptance d i now) _ (write_acceptance-Guards i now) λ u.
          Keeps-bind Guarded (audit_invitation _ _ user_id _ i.workspace_id i.id _ context now) _
            (audit_invitation-Guards _ _ user_id _ i.workspace_id i.id _ context now) λ u w p. p

  accept_found-Guards :
      (user_id email : Text) (context : AuditContext) (i : InvitationRow)
      → LowRole i
      → Guards (accept_found d user_id email context (some i))
  unfolding accept_found
  accept_found-Guards user_id email context i below =
      Keeps-bind Guarded (guard (text_eq i.email email) invalid_invitation) _
        (guard-Keeps Guarded _ _)
        λ u w p.
          Keeps-bind Guarded (accept_loaded d i user_id context w.now) _
            (accept_loaded-Guards i user_id context w.now below) (λ workspace_id v q. q) w p

  -- Behind the search of an invitation.
  found-Guards :
      {B : Type 0} (m : Exec (Option InvitationRow)) (f : Option InvitationRow → Exec B)
      → Guards m
      → ((w : World) (i : InvitationRow) → Guarded w.db → (m w).0 ≡ ok (some i) → LowRole i)
      → Guards (f none)
      → ((i : InvitationRow) → LowRole i → Guards (f (some i)))
      → Guards (m >>= f)
  found-Guards m f h known missing met w p = Guards-known m f w (h w p) (λ a e. go a e)
    where
      go : (a : Option InvitationRow) → (m w).0 ≡ ok a → Guarded (f a (m w).1).1.db
      go none e = missing (m w).1 (h w p)
      go (some i) e = met i (known w i p e) (m w).1 (h w p)

  accept_body-Guards :
      (secret user_id : Text) (context : AuditContext)
      → Guards (accept_body d secret user_id context)
  unfolding accept_body
  accept_body-Guards secret user_id context =
      Keeps-bind Guarded (email_of d user_id) _
        (Keeps-same Guarded (email_of d user_id) (email_of-db d user_id))
        λ email.
          found-Guards (λ w. masked invalid_invitation (find_invitation d secret w))
            (accept_found d user_id email context)
            (Guards-masked invalid_invitation (find_invitation d secret)
              (find_invitation-Guards secret))
            (λ w i p e.
              find_invitation-LowRole secret w {i = i} p
                (masked-ok invalid_invitation (find_invitation d secret w) {a = some i} e).0)
            (λ w p. p) (accept_found-Guards user_id email context)

  accept_invitation-Guards :
      (secret user_id : Text) (context : AuditContext)
      → Guards (accept_invitation d secret user_id context)
  unfolding accept_invitation accept_found
  accept_invitation-Guards secret user_id context =
      Keeps-bind Guarded (transact (accept_body d secret user_id context)) (answer d)
        (Keeps-transact Guarded (accept_body d secret user_id context)
          (λ v e done. accept_body-Guards secret user_id context v))
        (λ found w p. answered found w p)
    where
      answered : (found : Option Text) (w : World) → Guarded w.db → Guarded (answer d found w).1.db
      answered none w p = p
      answered (some t) w p = p

-- Whatever the faults of the database and whether it succeeds or not, `AcceptInvitation` keeps the
-- invariant of the memberships: where each workspace has one owner, ids of workspaces and the
-- memberships of a user in a workspace are unique, and no stored invitation is for an owner, as the
-- column's CHECK demands, the same holds of the database that it leaves.
pub accept_invitation-OneOwner :
    (d : Digest) (secret user_id : Text) (context : AuditContext) (w : World)
    → OneOwner w.db
    → All LowRole w.db.invitations
    → OneOwner (accept_invitation d secret user_id context w).1.db
      × All LowRole (accept_invitation d secret user_id context w).1.db.invitations
accept_invitation-OneOwner d secret user_id context w one low =
    accept_invitation-Guards d secret user_id context w (one, low)
