-- ===== src/Identity/Bootstrap/Body.antt =====
-- internal/identity/service.go: what the transaction of `BootstrapFirstOwner` leaves.
use dynamis_code_apps_templa.Prelude.{
  ℕ, ◌≡◌, refl, true, none, some, Text, arith, inl, inr, Bool-cases, Option-cases, ◌∙◌,
}
use dynamis_code_apps_templa.Schema.{Member, UserRow, WorkspaceRow, AuditContext, Database}
use dynamis_code_apps_templa.Exec.{
  already_bootstrapped, Result-cases, ok, err, World, Exec, End, commit, ◌>>◌, pure, statement,
  refused,
}
use dynamis_code_apps_templa.Exec.Keeps.{Keeps, Keeps-then, Yields, Yields-then, Yields-pure}
use dynamis_code_apps_templa.Identity.Policy.{owner}
use dynamis_code_apps_templa.Identity.Scim.{ensure_membership, ensure_groups}
use dynamis_code_apps_templa.Identity.Members.{insert_member}
use dynamis_code_apps_templa.Identity.Members.Frame.{
  SameOwners, ensure_membership-SameOwners, ensure_groups-SameOwners, audit-SameOwners,
}
use dynamis_code_apps_templa.Identity.Members.Owners.{OneOwner, OneOwner-same}
use dynamis_code_apps_templa.Identity.Members.Single.{quiet}
use dynamis_code_apps_templa.Identity.Members.Transfer.{open-Single, owner_high}
use dynamis_code_apps_templa.Identity.Workspaces.{insert_workspace}
use dynamis_code_apps_templa.Identity.Bootstrap.{
  BootstrapResult, claim_bootstrap, insert_user, insert_admin, bootstrapper, audit_bootstrap,
  install_owner, bootstrap_body,
}

-- Actions that leave the state of the bootstrap.
abbrev Claimed : ℕ → {A : Type 0} → Exec A → Type 0
Claimed now m = Keeps (λ db. db.bootstrapped ≡ some now) m

-- Actions that leave the owners as they are.
abbrev Quiet : {A : Type 0} → Exec A → Type 0
Quiet m = (w : World) → SameOwners (m w).1.db w.db

claimed : (now : ℕ) {A : Type 0} (m : Exec A) → Quiet m → Claimed now m
unfolding SameOwners
claimed now m same w h = let (_, _, kept, _) = same w in kept ∙ h

claim_bootstrap-ok :
    (now : ℕ) (w : World) {u : Unit {0}}
    → (claim_bootstrap now w).0 ≡ ok u
    → (w.db.bootstrapped ≡ none)
      × ((claim_bootstrap now w).1.db.bootstrapped ≡ some now)
      × ((claim_bootstrap now w).1.db.members ≡ w.db.members)
      × ((claim_bootstrap now w).1.db.workspaces ≡ w.db.workspaces)
unfolding claim_bootstrap statement
claim_bootstrap-ok now w h = elim (Bool-cases (refused w.faults)) [
  | inl bad ↦ absurd (ground arith)
  | inr good ↦ elim (Option-cases w.db.bootstrapped) [
    | inr (t, taken) ↦ absurd (ground arith)
    | inl free ↦ (free, ground arith, ground arith, ground arith)
  ]
]

insert_user-SameOwners : (new : UserRow) → Quiet (insert_user new)
unfolding SameOwners insert_user statement
insert_user-SameOwners new w = (ground arith, ground arith, ground arith, ground arith)

insert_admin-SameOwners : (user_id : Text) → Quiet (insert_admin user_id)
unfolding SameOwners insert_admin statement
insert_admin-SameOwners user_id w = (ground arith, ground arith, ground arith, ground arith)

insert_workspace-Claimed : (now : ℕ) (new : WorkspaceRow) → Claimed now (insert_workspace new)
unfolding insert_workspace statement
insert_workspace-Claimed now new w h = ground arith

insert_member-Claimed : (now : ℕ) (m : Member) → Claimed now (insert_member m)
unfolding insert_member statement
insert_member-Claimed now m w h = ground arith

module _ (context : AuditContext) (user : UserRow) (new : WorkspaceRow) (now : ℕ) where
  audit_bootstrap-SameOwners : Quiet (audit_bootstrap context user.id new.id now)
  unfolding audit_bootstrap
  audit_bootstrap-SameOwners w = audit-SameOwners _ w

  -- What leaves the owners as they are at every step keeps what no step can change.
  install_owner-Keeps :
      (P : Database → Type 0)
      → ((A : Type 0) (m : Exec A) → Quiet m → Keeps P m)
      → Keeps P (install_owner context user new now)
  unfolding install_owner
  install_owner-Keeps P calm =
      Keeps-then P (ensure_membership new.id user.id owner true now) _
        (calm _ (ensure_membership new.id user.id owner true now)
          (ensure_membership-SameOwners new.id user.id owner true now))
        (Keeps-then P (ensure_groups new.id (bootstrapper context user.id new.id) context) _
          (calm _ (ensure_groups new.id (bootstrapper context user.id new.id) context)
            (ensure_groups-SameOwners new.id (bootstrapper context user.id new.id) context))
          (Keeps-then P (insert_admin user.id) _
            (calm _ (insert_admin user.id) (insert_admin-SameOwners user.id))
            (Keeps-then P (audit_bootstrap context user.id new.id now)
              (pure (commit (record { user_id = user.id; workspace_id = new.id })))
              (calm _ (audit_bootstrap context user.id new.id now) audit_bootstrap-SameOwners)
              (λ w h. h))))

  abbrev pub result : BootstrapResult
  result = record { user_id = user.id; workspace_id = new.id }

  install_owner-Yields : Yields (install_owner context user new now) (commit result)
  unfolding install_owner
  install_owner-Yields = Yields-then (ensure_membership new.id user.id owner true now) _ (
      Yields-then (ensure_groups new.id (bootstrapper context user.id new.id) context) _ (
        Yields-then (insert_admin user.id) _ (
          Yields-then (audit_bootstrap context user.id new.id now) _
            (Yields-pure (commit result)))))

  abbrev owning : Member
  owning = record { workspace_id = new.id; user_id = user.id; role = owner; created_at = now }

  abbrev opened : Exec (End BootstrapResult)
  opened = insert_workspace new >> (insert_member owning >> install_owner context user new now)

  opened-Yields : Yields opened (commit result)
  opened-Yields =
      Yields-then (insert_workspace new) _
        (Yields-then (insert_member owning) _ install_owner-Yields)

  opened-Claimed : Claimed now opened
  opened-Claimed =
      Keeps-then (λ db. db.bootstrapped ≡ some now) (insert_workspace new) _
        (insert_workspace-Claimed now new)
        (Keeps-then (λ db. db.bootstrapped ≡ some now) (insert_member owning) _
          (insert_member-Claimed now owning)
          (install_owner-Keeps (λ db. db.bootstrapped ≡ some now) (λ A m same. claimed now m same)))

  pub bootstrap_body-ok :
      (w : World) (e : End BootstrapResult)
      → (bootstrap_body context user new now w).0 ≡ ok e
      → (e ≡ commit result)
        × (w.db.bootstrapped ≡ none)
        × ((bootstrap_body context user new now w).1.db.bootstrapped ≡ some now)
        × (OneOwner w.db → OneOwner (bootstrap_body context user new now w).1.db)
  unfolding bootstrap_body SameOwners
  bootstrap_body-ok w e done =
      let v = (claim_bootstrap now w).1 in
      let x = (insert_user user v).1 in
      elim (Result-cases (claim_bootstrap now w).0) [
        | inr (f, failed) ↦ absurd (ground arith)
        | inl (u, free) ↦ elim (Result-cases (insert_user user v).0) [
          | inr (f, failed) ↦ absurd (ground arith)
          | inl (u', made) ↦
              let (before, after, members, workspaces) = claim_bootstrap-ok now w free in
              let (members', workspaces', kept, _) = insert_user-SameOwners user v in
              let rest : (opened x).0 ≡ ok e = ground arith in
              (
                opened-Yields x e rest,
                before,
                rw (free, made) (opened-Claimed x (kept ∙ after)),
                λ h.
                    rw (free, made)
                      (open-Single new owning (install_owner context user new now) refl owner_high
                        (install_owner-Keeps OneOwner (λ A m same. quiet m same)) x e
                        (OneOwner-same x.db w.db (members' ∙ members) (workspaces' ∙ workspaces) h)
                        rest),
              )
        ]
      ]

  -- An instance that is bootstrapped is not bootstrapped again.
  pub bootstrap_body-claimed :
      (w : World) {t : ℕ}
      → w.db.bootstrapped ≡ some t
      → (bootstrap_body context user new now w).0 ≡ err already_bootstrapped
  unfolding bootstrap_body claim_bootstrap statement
  bootstrap_body-claimed w h = ground arith
