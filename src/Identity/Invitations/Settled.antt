-- ===== src/Identity/Invitations/Settled.antt =====
-- internal/identity/invitation.go: what every operation on invitations keeps.
use dynamis_code_apps_templa.Prelude.{
  ℕ, ◌+◌, ◌==◌, ◌≤◌, ◌≡◌, refl, sym, subst, Bool, true, false, not, Option, none, some, List, [],
  ◌∷◌, ◌++◌, Text, is_none, is_some, arith, All, All-append, All-update_where, ◌⊎◌, inl, inr,
  Bool-cases, if◌then◌else◌,
}
use dynamis_code_apps_templa.Prelude.Counts.{one}
use dynamis_code_apps_templa.Schema.{
  InvitationRow, Member, AuditContext, AuditEvent, Metadata, Database,
}
use dynamis_code_apps_templa.Exec.{
  Error, invalid_invitation, Result, ok, err, World, Exec, pure, statement, query, execute, fresh,
  End, transact, refused,
}
use dynamis_code_apps_templa.Exec.Keeps.{
  Keeps, Keeps-bind, Keeps-then, Keeps-same, Keeps-transact, guard-Keeps,
}
use dynamis_code_apps_templa.Identity.{Principal, masked, require, audit}
use dynamis_code_apps_templa.Identity.Members.{insert_member}
use dynamis_code_apps_templa.Identity.Members.Frame.{
  SameOwners, require-db, audit-SameOwners, ensure_membership-SameOwners,
}
use dynamis_code_apps_templa.Identity.Scim.{ensure_membership}
use dynamis_code_apps_templa.Identity.Invitations.{
  is_open, expired, is_over, update_rows, audit_invitation, mark_expired, mark_or_fail, mark_each,
  expire_invitations, insert_invitation, audit_own,
}

-- An invitation has at most one end: accepted, expired or revoked. It holds its email as long as it has
-- none.
unfoldable pub IsSettled : InvitationRow → Type 0
IsSettled i =
    (one (is_some i.accepted_at) + one (is_some i.expired_at) + one (is_some i.revoked_at) ≤ 1)
    × (is_some i.active_email ≡ is_open i)

abbrev pub AllSettled : Database → Type 0
AllSettled db = All IsSettled db.invitations

-- An action that keeps the invitations settled.
abbrev pub Settles : {A : Type 0} → Exec A → Type 0
Settles m = Keeps AllSettled m

-- Actions that leave the invitations alone.
pub Settles-same :
    {A : Type 0} (m : Exec A)
    → ((w : World) → (m w).1.db.invitations ≡ w.db.invitations)
    → Settles m
Settles-same m same w h = rw (same w) h

pub masked-world : {A : Type 0} (e : Error) (r : Result A × World) → (masked e r).1 ≡ r.1
masked-world e (ok a, w) = refl
masked-world e (err f, w) = refl

pub Settles-masked :
    {A : Type 0} (e : Error) (m : Exec A) → Settles m → Settles (λ w. masked e (m w))
Settles-masked e m h w p =
    subst (λ (v : World). AllSettled v.db) (sym (masked-world e (m w))) (h w p)

pub query-Settles : {A : Type 0} (read : Database → A) → Settles (query read)
query-Settles read = Settles-same (query read) (λ w. same read w)
  where
    same :
        {A : Type 0} (read : Database → A) (w : World)
        → (query read w).1.db.invitations ≡ w.db.invitations
    same read w = unfold query statement in ground arith

pub require-Settles : (actor : Principal) (permission : Text) → Settles (require actor permission)
require-Settles actor permission =
    Keeps-same AllSettled (require actor permission) (require-db actor permission)

audit-Settles : (event : AuditEvent) → Settles (audit event)
unfolding SameOwners
audit-Settles event =
    Settles-same (audit event) (λ w. let (_, _, _, same) = audit-SameOwners event w in same)

pub audit_invitation-Settles :
    (event_type action user_id auth_method workspace_id invitation_id : Text) (m : Metadata)
    (context : AuditContext) (now : ℕ)
    → Settles (
        audit_invitation event_type action user_id auth_method workspace_id invitation_id m context
          now)
unfolding audit_invitation
audit_invitation-Settles event_type action user_id auth_method workspace_id invitation_id m context
      now =
    audit-Settles _

pub audit_own-Settles :
    (actor : Principal) (context : AuditContext) (action invitation_id r : Text) (now : ℕ)
    → Settles (audit_own actor context action invitation_id r now)
unfolding audit_own
audit_own-Settles actor context action invitation_id r now =
    audit_invitation-Settles _ _ _ _ _ _ _ _ _

pub fresh-Settles : Settles fresh
fresh-Settles = Settles-same fresh (λ w. unfold fresh in refl)

pub update_rows-Settles :
    (p : InvitationRow → Bool) (f : InvitationRow → InvitationRow)
    → ((i : InvitationRow) → IsSettled i → p i ≡ true → IsSettled (f i))
    → Settles (update_rows p f)
unfolding update_rows execute statement
update_rows-Settles p f keep w h = elim (Bool-cases (refused w.faults)) [
  | inl bad ↦ rw bad h
  | inr good ↦ rw good (All-update_where IsSettled p f w.db.invitations keep h)
]

pub Settles-if :
    {A : Type 0} (b : Bool) (m n : Exec A) → Settles m → Settles n → Settles (if b then m else n)
Settles-if true m n h k = h
Settles-if false m n h k = k

pub some-none : {A : Type 0} (o : Option A) → is_some o ≡ not (is_none o)
some-none none = refl
some-none (some a) = refl

-- The ends of an open invitation.
pub expired-IsSettled : (now : ℕ) (i : InvitationRow) → is_open i ≡ true → IsSettled (expired now i)
unfolding IsSettled
expired-IsSettled now i h =
    let a = some-none i.accepted_at in
    let b = some-none i.revoked_at in (ground arith, ground arith)

pub revoked-IsSettled :
    (now : ℕ) (i : InvitationRow)
    → is_open i ≡ true
    → IsSettled (record i { active_email = none; revoked_at = some now })
unfolding IsSettled
revoked-IsSettled now i h =
    let a = some-none i.accepted_at in
    let b = some-none i.expired_at in (ground arith, ground arith)

pub accepted-IsSettled :
    (now : ℕ) (i : InvitationRow)
    → is_open i ≡ true
    → IsSettled (record i { active_email = none; accepted_at = some now })
unfolding IsSettled
accepted-IsSettled now i h =
    let a = some-none i.revoked_at in let b = some-none i.expired_at in (ground arith, ground arith)

mark_expired-Settles :
    (workspace_id invitation_id : Text) (now : ℕ)
    → Settles (mark_expired workspace_id invitation_id now)
unfolding mark_expired
mark_expired-Settles workspace_id invitation_id now =
    Keeps-bind AllSettled (update_rows (is_over workspace_id invitation_id now) (expired now)) _
      (update_rows-Settles (is_over workspace_id invitation_id now) (expired now)
        (λ i settled over. expired-IsSettled now i (ground arith)))
      (λ n.
        Settles-if (n == 1) _ (pure false)
          (Keeps-then AllSettled _ (pure true) (audit_invitation-Settles _ _ _ _ _ _ _ _ _)
            (λ w p. p))
          (λ w p. p))

pub mark_or_fail-Settles :
    (workspace_id invitation_id : Text) (now : ℕ)
    → Settles (mark_or_fail workspace_id invitation_id now)
unfolding mark_or_fail
mark_or_fail-Settles workspace_id invitation_id now =
    Keeps-bind AllSettled (mark_expired workspace_id invitation_id now) _
      (mark_expired-Settles workspace_id invitation_id now)
      (λ marked. guard-Keeps AllSettled marked invalid_invitation)

pub mark_each-Settles :
    (workspace_id : Text) (now : ℕ) (ids : List Text) → Settles (mark_each workspace_id now ids)
unfolding mark_each
mark_each-Settles workspace_id now [] = λ w p. p
mark_each-Settles workspace_id now (id ∷ ids) =
    Keeps-then AllSettled (mark_or_fail workspace_id id now) (mark_each workspace_id now ids)
      (mark_or_fail-Settles workspace_id id now) (mark_each-Settles workspace_id now ids)

pub expire_invitations-Settles :
    (workspace_id email : Text) (now : ℕ) → Settles (expire_invitations workspace_id email now)
unfolding expire_invitations
expire_invitations-Settles workspace_id email now =
    Keeps-bind AllSettled (query _) (mark_each workspace_id now) (query-Settles _)
      (mark_each-Settles workspace_id now)

insert_invitation-rows :
    (new : InvitationRow) (w : World)
    → ((insert_invitation new w).1.db.invitations ≡ w.db.invitations)
      ⊎ ((insert_invitation new w).1.db.invitations ≡ w.db.invitations ++ new ∷ [])
unfolding insert_invitation statement
insert_invitation-rows new w = ground arith

pub insert_invitation-Settles :
    (new : InvitationRow) → IsSettled new → Settles (insert_invitation new)
insert_invitation-Settles new settled w h = elim (insert_invitation-rows new w) [
  | inl same ↦ rw same h
  | inr added ↦ rw added (All-append IsSettled w.db.invitations (new ∷ []) h (settled, tt))
]

pub insert_member-Settles : (m : Member) → Settles (insert_member m)
insert_member-Settles m = Settles-same (insert_member m) (λ w. same m w)
  where
    same : (m : Member) (w : World) → (insert_member m w).1.db.invitations ≡ w.db.invitations
    same m w = unfold insert_member statement in ground arith

pub ensure_membership-Settles :
    (workspace_id user_id r : Text) (active : Bool) (now : ℕ)
    → Settles (ensure_membership workspace_id user_id r active now)
unfolding SameOwners
ensure_membership-Settles workspace_id user_id r active now =
    Settles-same (ensure_membership workspace_id user_id r active now) (λ w.
      let (_, _, _, same) = ensure_membership-SameOwners workspace_id user_id r active now w in
      same)

-- A transaction keeps what its body keeps.
pub Settles-transact : {A : Type 0} (body : Exec (End A)) → Settles body → Settles (transact body)
Settles-transact body h = Keeps-transact AllSettled body (λ v e done p. h v p)
