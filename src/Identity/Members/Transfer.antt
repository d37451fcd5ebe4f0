-- ===== src/Identity/Members/Transfer.antt =====
-- internal/identity/service.go: `TransferOwnership` and `CreateWorkspace` keep one owner for each
-- workspace, though neither does at each of its statements.
use dynamis_code_apps_templa.Prelude.{
  ℕ, ◌≡◌, refl, Bool, true, false, some, [], ◌∷◌, ◌++◌, Text, ascii, arith, ap, subst, ◌∙◌, any,
  find, update_where, text_eq, inl, inr, Bool-cases,
}
use dynamis_code_apps_templa.Schema.{Member, WorkspaceRow, AuditContext, previous_role}
use dynamis_code_apps_templa.Exec.{
  Result-cases, ok, World, Exec, End, commit, ◌>>◌, pure, statement,
}
use dynamis_code_apps_templa.Exec.Keeps.{Keeps-then}
use dynamis_code_apps_templa.Identity.{Principal, is_member}
use dynamis_code_apps_templa.Identity.Policy.{owner, admin}
use dynamis_code_apps_templa.Identity.Scim.{ensure_membership, ensure_groups}
use dynamis_code_apps_templa.Identity.Members.{
  with_role, is_workspace, insert_member, set_role, member_of, write_transfer, actor_found,
  transfer_body,
}
use dynamis_code_apps_templa.Identity.Members.Frame.{
  ensure_membership-SameOwners, ensure_groups-SameOwners, audit-SameOwners,
}
use dynamis_code_apps_templa.Identity.Members.Owners.{OneOwner, OneOwner-created}
use dynamis_code_apps_templa.Identity.Members.Exchange.{OneOwner-transferred}
use dynamis_code_apps_templa.Identity.Members.Single.{
  Single, quiet, member_of-ok, set_role-db, insert_member-db, told, told-Single,
}
use dynamis_code_apps_templa.Identity.Workspaces.{insert_workspace, audit_workspace, workspace_body}

admin_low : text_eq admin owner ≡ false
unfolding text_eq
admin_low = refl

pub owner_high : text_eq owner owner ≡ true
unfolding text_eq
owner_high = refl

pub ensure-Single :
    (workspace_id user_id r : Text) (active : Bool) (now : ℕ)
    → Single (ensure_membership workspace_id user_id r active now)
ensure-Single workspace_id user_id r active now =
    quiet (ensure_membership workspace_id user_id r active now)
      (ensure_membership-SameOwners workspace_id user_id r active now)

module _ (actor : Principal) (user_id : Text) (context : AuditContext) where
  abbrev exchanged_at : Member → ℕ → Exec (End (Unit {0}))
  exchanged_at target now =
      ensure_membership actor.workspace_id user_id owner true now
      >> (ensure_membership actor.workspace_id actor.user_id admin true now
          >> told actor (ascii "workspace.ownership.transferred") (ascii "ownership.transfer")
              context user_id (previous_role target.role) now)

  exchanged-Single : (target : Member) (now : ℕ) → Single (exchanged_at target now)
  exchanged-Single target now =
      Keeps-then OneOwner (ensure_membership actor.workspace_id user_id owner true now) _
        (ensure-Single actor.workspace_id user_id owner true now)
        (Keeps-then OneOwner (ensure_membership actor.workspace_id actor.user_id admin true now) _
          (ensure-Single actor.workspace_id actor.user_id admin true now)
          (told-Single actor (ascii "workspace.ownership.transferred") (ascii "ownership.transfer")
            context user_id (previous_role target.role) now))

  write_transfer-Single :
      (m target : Member) (w : World) (e : End (Unit {0}))
      → find (is_member actor.workspace_id actor.user_id) w.db.members ≡ some m
      → find (is_member actor.workspace_id user_id) w.db.members ≡ some target
      → text_eq m.role owner ≡ true
      → text_eq actor.user_id user_id ≡ false
      → OneOwner w.db
      → (write_transfer actor user_id context target w).0 ≡ ok e
      → OneOwner (write_transfer actor user_id context target w).1.db
  unfolding write_transfer
  write_transfer-Single m target w e found found' high apart h done =
      let v = (set_role actor.workspace_id user_id owner w).1 in
      let x = (set_role actor.workspace_id actor.user_id admin v).1 in
      elim (Result-cases (set_role actor.workspace_id user_id owner w).0) [
        | inr (f, failed) ↦ absurd (ground arith)
        | inl (n, raised) ↦
            elim (Result-cases (set_role actor.workspace_id actor.user_id admin v).0) [
              | inr (f, failed) ↦ absurd (ground arith)
              | inl (k, lowered) ↦ elim (set_role-db actor.workspace_id user_id owner w) [
                | inl (failed, same) ↦ absurd (ground arith)
                | inr (workspaces, members) ↦
                    elim (set_role-db actor.workspace_id actor.user_id admin v) [
                      | inl (failed, same) ↦ absurd (ground arith)
                      | inr (workspaces', members') ↦
                          let one : OneOwner x.db =
                            OneOwner-transferred x.db w.db actor.workspace_id actor.user_id user_id
                              admin m target
                              (members'
                                ∙ ap
                                    (update_where (is_member actor.workspace_id actor.user_id)
                                      (with_role admin))
                                    members)
                              (workspaces' ∙ workspaces) found found' high apart admin_low h in
                          rw (raised, lowered) (exchanged-Single target x.now x one)
                    ]
              ]
            ]
      ]

  actor_found-Single :
      (m : Member) (w : World) (e : End (Unit {0}))
      → find (is_member actor.workspace_id actor.user_id) w.db.members ≡ some m
      → text_eq actor.user_id user_id ≡ false
      → OneOwner w.db
      → (actor_found actor user_id context m w).0 ≡ ok e
      → OneOwner (actor_found actor user_id context m w).1.db
  unfolding actor_found
  actor_found-Single m w e found apart h done =
      let (same, found_at) = member_of-ok actor.workspace_id user_id w in
      elim (Bool-cases (text_eq m.role owner)) [
        | inr low ↦ absurd (ground arith)
        | inl high ↦ elim (Result-cases (member_of actor.workspace_id user_id w).0) [
          | inr (f, failed) ↦ absurd (ground arith)
          | inl (target, there) ↦
              rw (high, there)
                (write_transfer-Single m target (member_of actor.workspace_id user_id w).1 e
                  (rw same found) (rw same (found_at target there)) high apart (rw same h)
                  (ground arith))
        ]
      ]

  pub transfer_body-Single :
      (w : World) (e : End (Unit {0}))
      → text_eq actor.user_id user_id ≡ false
      → OneOwner w.db
      → (transfer_body actor user_id context w).0 ≡ ok e
      → OneOwner (transfer_body actor user_id context w).1.db
  unfolding transfer_body
  transfer_body-Single w e apart h done =
      let (same, found_at) = member_of-ok actor.workspace_id actor.user_id w in
      elim (Result-cases (member_of actor.workspace_id actor.user_id w).0) [
        | inr (f, failed) ↦ absurd (ground arith)
        | inl (m, there) ↦ rw there (
            actor_found-Single m (member_of actor.workspace_id actor.user_id w).1 e
              (rw same (found_at m there)) apart (rw same h) (ground arith))
      ]

insert_workspace-ok :
    (new : WorkspaceRow) (w : World) {u : Unit {0}}
    → (insert_workspace new w).0 ≡ ok u
    → ((insert_workspace new w).1.db.workspaces ≡ w.db.workspaces ++ new ∷ [])
      × ((insert_workspace new w).1.db.members ≡ w.db.members)
      × (any (is_workspace new.id) w.db.workspaces ≡ false)
unfolding insert_workspace statement
insert_workspace-ok new w h = (ground arith, ground arith, ground arith)

-- A workspace and its owner, and what follows them.
pub open-Single :
    {A : Type 0} (new : WorkspaceRow) (m : Member) (tail : Exec A)
    → m.workspace_id ≡ new.id
    → text_eq m.role owner ≡ true
    → Single tail
    → (w : World) (a : A) → OneOwner w.db
    → ((insert_workspace new >> (insert_member m >> tail)) w).0 ≡ ok a
    → OneOwner ((insert_workspace new >> (insert_member m >> tail)) w).1.db
open-Single new m tail of_workspace high kept w a h done =
    let v = (insert_workspace new w).1 in
    elim (Result-cases (insert_workspace new w).0) [
      | inr (f, failed) ↦ absurd (ground arith)
      | inl (u, made) ↦ elim (Result-cases (insert_member m v).0) [
        | inr (f, failed) ↦ absurd (ground arith)
        | inl (u', joined) ↦
            let (workspaces, members, new_id) = insert_workspace-ok new w made in
            elim (insert_member-db m v) [
              | inl (failed, same) ↦ absurd (ground arith)
              | inr (workspaces', members', absent) ↦
                  let x = (insert_member m v).1 in
                  let one : OneOwner x.db =
                    OneOwner-created x.db w.db m new (members' ∙ ap (λ ms. ms ++ m ∷ []) members)
                      (workspaces' ∙ workspaces)
                      (subst (λ ms. any (is_member m.workspace_id m.user_id) ms ≡ false) members
                        absent)
                      new_id of_workspace high h in
                  rw (made, joined) (kept x one)
            ]
      ]
    ]

module _ (actor : Principal) (context : AuditContext) where
  abbrev pub first_member : WorkspaceRow → Member
  first_member new = record {
    workspace_id = new.id;
    user_id = actor.user_id;
    role = owner;
    created_at = new.created_at;
  }

  abbrev opened : WorkspaceRow → Exec (End Text)
  opened new =
      ensure_membership new.id actor.user_id owner true new.created_at
      >> (ensure_groups new.id actor context
          >> (audit_workspace actor context new.id new.created_at >> pure (commit new.id)))

  opened-Single : (new : WorkspaceRow) → Single (opened new)
  unfolding audit_workspace
  opened-Single new =
      Keeps-then OneOwner (ensure_membership new.id actor.user_id owner true new.created_at) _
        (ensure-Single new.id actor.user_id owner true new.created_at)
        (Keeps-then OneOwner (ensure_groups new.id actor context) _
          (quiet (ensure_groups new.id actor context)
            (ensure_groups-SameOwners new.id actor context))
          (Keeps-then OneOwner (audit_workspace actor context new.id new.created_at)
            (pure (commit new.id))
            (quiet (audit_workspace actor context new.id new.created_at)
              (λ w. audit-SameOwners _ w))
            (λ w h. h)))

  pub workspace_body-Single :
      (new : WorkspaceRow) (w : World) (e : End Text)
      → OneOwner w.db
      → (workspace_body actor context new w).0 ≡ ok e
      → OneOwner (workspace_body actor context new w).1.db
  unfolding workspace_body
  workspace_body-Single new w e h done =
      open-Single new (first_member new) (opened new) refl owner_high (opened-Single new) w e h done
