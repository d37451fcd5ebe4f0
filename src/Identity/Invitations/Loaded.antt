-- ===== src/Identity/Invitations/Loaded.antt =====
-- internal/identity/invitation.go: what finding and accepting an invitation do, step by step.
use dynamis_code_apps_templa.Prelude.{
  ℕ, ◌==◌, ◌≡◌, refl, sym, ap, subst, ◌∙◌, Bool, true, some, List, Text, ltb, text_key, ascii,
  count, find, update_where, arith, inl, inr, Bool-cases, Option-cases,
}
use dynamis_code_apps_templa.Schema.{InvitationRow, Member, Metadata, role, AuditContext, Database}
use dynamis_code_apps_templa.Exec.{
  Error, invalid_invitation, Result, Result-cases, ok, err, World, Exec, continue-ok, pure, ◌>>=◌,
  query, execute, fresh, refused, statement,
}
use dynamis_code_apps_templa.Exec.Keeps.{Keeps-bind}
use dynamis_code_apps_templa.Identity.Scim.{ensure_membership}
use dynamis_code_apps_templa.Identity.{masked, audit}
use dynamis_code_apps_templa.Identity.Members.{insert_member}
use dynamis_code_apps_templa.Identity.Members.Frame.{SameOwners, ensure_membership-SameOwners}
use dynamis_code_apps_templa.Identity.Sessions.{Digest}
use dynamis_code_apps_templa.Identity.Invitations.{
  is_open, audit_invitation, mark_or_fail, update_rows,
}
use dynamis_code_apps_templa.Identity.Invitations.Manage.{find_row}
use dynamis_code_apps_templa.Identity.Invitations.Settled.{masked-world}
use dynamis_code_apps_templa.Identity.Invitations.Use.{
  has_secret, open_now, find_invitation, is_acceptable, accepted, join_workspace, write_acceptance,
  accept_loaded,
}

pub masked-ok :
    {A : Type 0} (e : Error) (r : Result A × World) {a : A}
    → (masked e r).0 ≡ ok a
    → (r.0 ≡ ok a) × ((masked e r).1 ≡ r.1)
masked-ok e (ok b, w) h = (h, refl)
masked-ok e (err f, w) h = absurd (ground arith)

abbrev pub joining_member : InvitationRow → Text → ℕ → Member
joining_member i user_id now = record {
  workspace_id = i.workspace_id;
  user_id = user_id;
  role = i.role;
  created_at = now;
}

pub insert_member-same :
    (m : Member) (w : World) → (insert_member m w).1.db.invitations ≡ w.db.invitations
unfolding insert_member statement
insert_member-same m w = ground arith

audit_invitation-same :
    (event_type action user_id auth_method workspace_id invitation_id : Text) (m : Metadata)
    (context : AuditContext) (now : ℕ) (w : World)
    → (audit_invitation event_type action user_id auth_method workspace_id invitation_id m context
        now w).1.db.invitations
      ≡ w.db.invitations
unfolding audit_invitation audit execute statement fresh
audit_invitation-same event_type action user_id auth_method workspace_id invitation_id m context now
      w =
    ground arith

module _ (d : Digest) where
  pub find_row-ok :
      (p : Database → InvitationRow → Bool) (w : World) {i : InvitationRow}
      → (find_row p w).0 ≡ ok i
      → (find (p w.db) w.db.invitations ≡ some i)
        × ((find_row p w).1.db ≡ w.db)
        × ((find_row p w).1.now ≡ w.now)
  unfolding find_row query statement
  find_row-ok p w {i} h = elim (Option-cases (find (p w.db) w.db.invitations)) [
    | inl missing ↦ absurd (ground arith)
    | inr (j, found) ↦ (ground arith, ground arith, ground arith)
  ]

  -- An invitation that can be accepted at a time.
  abbrev pub Usable : Text → ℕ → Database → InvitationRow → Type 0
  Usable secret now db i =
      (find (has_secret d secret db) db.invitations ≡ some i)
      × (is_open i ≡ true)
      × (ltb now i.expires_at ≡ true)

  open_now-ok :
      (j : InvitationRow) (w : World) {i : InvitationRow}
      → (open_now d j w).0 ≡ ok (some i)
      → (j ≡ i) × (is_open j ≡ true) × (ltb w.now j.expires_at ≡ true) × ((open_now d j w).1 ≡ w)
  unfolding open_now
  open_now-ok j w {i} h = elim (Bool-cases (is_open j)) [
    | inr closed ↦ absurd (ground arith)
    | inl live ↦ elim (Bool-cases (ltb w.now j.expires_at)) [
      | inl early ↦ (ground arith, live, early, ground arith)
      | inr over ↦ elim (Result-cases (mark_or_fail j.workspace_id j.id w.now w).0) [
        | inl (u, marked) ↦ absurd (ground arith)
        | inr (e, failed) ↦ absurd (ground arith)
      ]
    ]
  ]

  pub find_invitation-ok :
      (secret : Text) (w : World) {i : InvitationRow}
      → (find_invitation d secret w).0 ≡ ok (some i)
      → Usable secret w.now w.db i
        × ((find_invitation d secret w).1.db ≡ w.db)
        × ((find_invitation d secret w).1.now ≡ w.now)
  unfolding find_invitation
  find_invitation-ok secret w {i} h =
      let v = (find_row (has_secret d secret) w).1 in
      elim (Result-cases (find_row (has_secret d secret) w).0) [
        | inr (e, failed) ↦ absurd (ground arith)
        | inl (j, found) ↦
            let (stored, db, time) = find_row-ok (has_secret d secret) w {i = j} found in
            let (same, live, early, left) = open_now-ok j v {i = i} (ground arith) in
            let at_end : (find_invitation d secret w).1 ≡ v = ground arith in
            (
              (
                stored ∙ ap some same,
                subst (λ x. is_open x ≡ true) same live,
                subst (λ x. ltb w.now x.expires_at ≡ true) same
                    (subst (λ t. ltb t j.expires_at ≡ true) time early),
              ),
              ap (λ (x : World). x.db) at_end ∙ db,
              ap (λ (x : World). x.now) at_end ∙ time,
            )
      ]

  join_workspace-same :
      (i : InvitationRow) (user_id : Text) (now : ℕ) (w : World)
      → (join_workspace d i user_id now w).1.db.invitations ≡ w.db.invitations
  unfolding join_workspace SameOwners
  join_workspace-same i user_id now w =
      let rows = λ (db : Database). db.invitations ≡ w.db.invitations in
      let ensured = ensure_membership i.workspace_id user_id i.role true now in
      let joining = insert_member (joining_member i user_id now) >>= λ (u : Unit {0}). ensured in
      ap (λ (v : World). v.db.invitations) (masked-world invalid_invitation (joining w))
      ∙ Keeps-bind rows (insert_member (joining_member i user_id now)) (λ u. ensured)
          (λ v e. insert_member-same (joining_member i user_id now) v ∙ e)
          (λ u v e.
            let (_, _, _, same) =
              ensure_membership-SameOwners i.workspace_id user_id i.role true now v in
            same ∙ e)
          w refl

  write_acceptance-ok :
      (i : InvitationRow) (now : ℕ) (w : World) {u : Unit {0}}
      → (write_acceptance d i now w).0 ≡ ok u
      → (write_acceptance d i now w).1.db.invitations
        ≡ update_where (is_acceptable d i.id now) (accepted d now) w.db.invitations
  unfolding write_acceptance update_rows execute statement
  write_acceptance-ok i now w {u} h = elim (Bool-cases (refused w.faults)) [
    | inl bad ↦ absurd (ground arith)
    | inr good ↦ elim (Bool-cases (count (is_acceptable d i.id now) w.db.invitations == 1)) [
      | inl single ↦ rw (good, single) refl
      | inr other ↦ absurd (ground arith)
    ]
  ]

  pub accept_loaded-ok :
      (i : InvitationRow) (user_id : Text) (context : AuditContext) (now : ℕ) (w : World) {t : Text}
      → (accept_loaded d i user_id context now w).0 ≡ ok t
      → (accept_loaded d i user_id context now w).1.db.invitations
        ≡ update_where (is_acceptable d i.id now) (accepted d now) w.db.invitations
  unfolding accept_loaded
  accept_loaded-ok i user_id context now w {t} h =
      let told : Exec (Unit {0}) =
        audit_invitation (ascii "invitation.accepted") (ascii "invitation.accepted") user_id
          (ascii "invitation") i.workspace_id i.id (role i.role) context now in
      let third : Unit {0} → Exec Text = λ u. pure i.workspace_id in
      let second : Unit {0} → Exec Text = λ u. told >>= third in
      let first : Unit {0} → Exec Text = λ u. write_acceptance d i now >>= second in
      let rows : Result Text × World → List InvitationRow = λ r. r.1.db.invitations in
      let v = (join_workspace d i user_id now w).1 in
      let x = (write_acceptance d i now v).1 in
      let (u, _, run_first) = continue-ok (join_workspace d i user_id now w).0 first v {b = t} h in
      let h' = ap (λ (r : Result Text × World). r.0) (sym run_first) ∙ h in
      let (u', wrote, run_second) =
        continue-ok (write_acceptance d i now v).0 second x {b = t} h' in
      let h'' = ap (λ (r : Result Text × World). r.0) (sym run_second) ∙ h' in
      let (u'', _, run_third) = continue-ok (told x).0 third (told x).1 {b = t} h'' in
      ap rows (run_first ∙ run_second ∙ run_third)
      ∙ audit_invitation-same _ _ user_id _ i.workspace_id i.id _ context now x
      ∙ write_acceptance-ok i now v {u = u'} wrote
      ∙ ap (update_where (is_acceptable d i.id now) (accepted d now))
          (join_workspace-same i user_id now w)
