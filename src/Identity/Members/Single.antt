-- ===== src/Identity/Members/Single.antt =====
-- internal/identity/service.go: every operation on memberships keeps one owner for each workspace.
use dynamis_code_apps_templa.Prelude.{
  ℕ, ◌≡◌, refl, true, false, some, [], ◌∷◌, ◌++◌, Text, ascii, arith, any, find, update_where,
  text_eq, inl, inr, ◌⊎◌, Bool-cases, Option-cases,
}
use dynamis_code_apps_templa.Schema.{Member, AuditContext, Metadata, role, roles, empty}
use dynamis_code_apps_templa.Exec.{
  database_failure, refused, Result-cases, ok, err, World, Exec, End, commit, ◌>>=◌, ◌>>◌, pure,
  statement, query, execute,
}
use dynamis_code_apps_templa.Exec.Keeps.{Keeps, Keeps-bind, Keeps_rest, Keeps-then, Keeps-same}
use dynamis_code_apps_templa.Identity.{Principal, is_member, require}
use dynamis_code_apps_templa.Identity.Policy.{owner, members_manage}
use dynamis_code_apps_templa.Identity.Scim.{ensure_membership, sync_membership}
use dynamis_code_apps_templa.Identity.Members.{
  audit_member, is_refused, insert_member, with_role, set_role, member_of, added, add_body,
  write_role, change_found, change_body, delete_member, delete_preferences, write_removal,
  remove_found, remove_body,
}
use dynamis_code_apps_templa.Identity.Members.Frame.{
  SameOwners, require-db, audit_member-SameOwners, ensure_membership-SameOwners,
  sync_membership-SameOwners,
}
use dynamis_code_apps_templa.Identity.Members.Owners.{
  OneOwner, OneOwner-SameOwners, OneOwner-role, OneOwner-removed, OneOwner-added,
}

abbrev pub Single : {A : Type 0} → Exec A → Type 0
Single m = Keeps OneOwner m

pub quiet : {A : Type 0} (m : Exec A) → ((w : World) → SameOwners (m w).1.db w.db) → Single m
quiet m same w h = OneOwner-SameOwners (m w).1.db w.db (same w) h

pub require-Single : (actor : Principal) (permission : Text) → Single (require actor permission)
require-Single actor permission =
    Keeps-same OneOwner (require actor permission) (require-db actor permission)

pub member_of-ok :
    (workspace_id user_id : Text) (w : World)
    → ((member_of workspace_id user_id w).1.db ≡ w.db)
      × ((m : Member)
          → (member_of workspace_id user_id w).0 ≡ ok m
          → find (is_member workspace_id user_id) w.db.members ≡ some m)
unfolding member_of query statement
member_of-ok workspace_id user_id w =
    elim (Option-cases (find (is_member workspace_id user_id) w.db.members)) [
      | inl missing ↦ (ground arith, λ n h. absurd (ground arith))
      | inr (m, found) ↦ (ground arith, λ n h. ground arith)
    ]

-- What a membership that was found decides.
pub found-Single :
    {A : Type 0} (workspace_id user_id : Text) (f : Member → Exec A)
    → ((m : Member) (w : World)
        → find (is_member workspace_id user_id) w.db.members ≡ some m
        → OneOwner w.db
        → OneOwner (f m w).1.db)
    → Single (member_of workspace_id user_id >>= f)
found-Single workspace_id user_id f kept w h =
    let (same, found) = member_of-ok workspace_id user_id w in
    elim (Result-cases (member_of workspace_id user_id w).0) [
      | inr (e, failed) ↦ rw failed (rw same h)
      | inl (m, done) ↦
          rw done (kept m (member_of workspace_id user_id w).1 (rw same (found m done)) (rw same h))
    ]

pub set_role-db :
    (workspace_id user_id r : Text) (w : World)
    → (((set_role workspace_id user_id r w).0 ≡ err database_failure)
        × ((set_role workspace_id user_id r w).1.db ≡ w.db))
      ⊎ (((set_role workspace_id user_id r w).1.db.workspaces ≡ w.db.workspaces)
          × ((set_role workspace_id user_id r w).1.db.members
              ≡ update_where (is_member workspace_id user_id) (with_role r) w.db.members))
unfolding set_role execute statement
set_role-db workspace_id user_id r w = elim (Bool-cases (refused w.faults)) [
  | inl bad ↦ inl (ground arith, ground arith)
  | inr good ↦ inr (ground arith, ground arith)
]

pub insert_member-db :
    (m : Member) (w : World)
    → (((insert_member m w).0 ≡ err database_failure) × ((insert_member m w).1.db ≡ w.db))
      ⊎ (((insert_member m w).1.db.workspaces ≡ w.db.workspaces)
          × ((insert_member m w).1.db.members ≡ w.db.members ++ m ∷ [])
          × (any (is_member m.workspace_id m.user_id) w.db.members ≡ false))
unfolding insert_member statement is_refused
insert_member-db m w = elim (Bool-cases (refused w.faults)) [
  | inl bad ↦ inl (ground arith, ground arith)
  | inr good ↦ elim (Bool-cases (is_refused m w.db)) [
    | inl clash ↦ inl (ground arith, ground arith)
    | inr free ↦ inr (ground arith, ground arith, ground arith)
  ]
]

-- What follows the change of a membership: the provisioning rows and the audit trail.
module _ (actor : Principal) (event_type action : Text) (context : AuditContext) where
  abbrev pub told : Text → Metadata → ℕ → Exec (End (Unit {0}))
  told user_id metadata now =
      audit_member event_type action actor user_id metadata context now >> pure (commit tt)

  pub told-Single :
      (user_id : Text) (metadata : Metadata) (now : ℕ) → Single (told user_id metadata now)
  told-Single user_id metadata now =
      Keeps-then OneOwner (audit_member event_type action actor user_id metadata context now)
        (pure (commit tt))
        (quiet (audit_member event_type action actor user_id metadata context now)
          (audit_member-SameOwners event_type action actor user_id metadata context now))
        (λ w h. h)

  abbrev pub settled : Text → Text → Metadata → ℕ → Exec (End (Unit {0}))
  settled user_id r metadata now =
      ensure_membership actor.workspace_id user_id r true now >> told user_id metadata now

  pub settled-Single :
      (user_id r : Text) (metadata : Metadata) (now : ℕ) → Single (settled user_id r metadata now)
  settled-Single user_id r metadata now =
      Keeps-then OneOwner (ensure_membership actor.workspace_id user_id r true now)
        (told user_id metadata now)
        (quiet (ensure_membership actor.workspace_id user_id r true now)
          (ensure_membership-SameOwners actor.workspace_id user_id r true now))
        (told-Single user_id metadata now)

module _ (actor : Principal) (user_id r : Text) (context : AuditContext)
    (low : text_eq r owner ≡ false) where
  insert-Single : (now : ℕ) → Single (insert_member (added actor user_id r context now))
  insert-Single now w h = elim (insert_member-db (added actor user_id r context now) w) [
    | inl (failed, same) ↦ rw same h
    | inr (workspaces, members, absent) ↦
        OneOwner-added _ w.db (added actor user_id r context now) members workspaces absent low h
  ]

  pub add_body-Single : (now : ℕ) → Single (add_body actor user_id r context now)
  unfolding add_body
  add_body-Single now =
      Keeps-then OneOwner (require actor members_manage) _ (require-Single actor members_manage) (
        Keeps-then OneOwner (insert_member (added actor user_id r context now)) _
          (insert-Single now)
          (settled-Single actor (ascii "workspace.member.added") (ascii "member.add") context
            user_id r (role r) now))

  set_role-Single :
      (m : Member) (w : World)
      → find (is_member actor.workspace_id user_id) w.db.members ≡ some m
      → text_eq m.role owner ≡ false
      → OneOwner w.db
      → OneOwner (set_role actor.workspace_id user_id r w).1.db
  set_role-Single m w found low' h = elim (set_role-db actor.workspace_id user_id r w) [
    | inl (failed, same) ↦ rw same h
    | inr (workspaces, members) ↦
        OneOwner-role _ w.db actor.workspace_id user_id m r members workspaces found low' low h
  ]

  change_found-Single :
      (now : ℕ) (m : Member) (w : World)
      → find (is_member actor.workspace_id user_id) w.db.members ≡ some m
      → OneOwner w.db
      → OneOwner (change_found actor user_id r context now m w).1.db
  unfolding change_found write_role
  change_found-Single now m w found h = elim (Bool-cases (text_eq m.role owner)) [
    | inl high ↦ rw high h
    | inr low' ↦ rw low' (
        Keeps_rest OneOwner (set_role actor.workspace_id user_id r) _ w
          (set_role-Single m w found low' h)
          (λ n.
            settled-Single actor (ascii "workspace.member.role_changed")
              (ascii "member.role.change") context user_id r (roles m.role r) now))
  ]

  pub change_body-Single : (now : ℕ) → Single (change_body actor user_id r context now)
  unfolding change_body change_found
  change_body-Single now =
      Keeps-then OneOwner (require actor members_manage) _ (require-Single actor members_manage) (
        found-Single actor.workspace_id user_id (change_found actor user_id r context now)
          (change_found-Single now))

module _ (actor : Principal) (user_id : Text) (context : AuditContext) where
  delete_member-Single :
      (m : Member) (w : World)
      → find (is_member actor.workspace_id user_id) w.db.members ≡ some m
      → text_eq m.role owner ≡ false
      → OneOwner w.db
      → OneOwner (delete_member actor user_id context w).1.db
  unfolding delete_member execute statement
  delete_member-Single m w found low h = elim (Bool-cases (refused w.faults)) [
    | inl bad ↦ rw bad h
    | inr good ↦
        rw good (OneOwner-removed _ w.db actor.workspace_id user_id m refl refl found low h)
  ]

  delete_preferences-SameOwners :
      (w : World) → SameOwners (delete_preferences actor user_id context w).1.db w.db
  unfolding SameOwners delete_preferences execute statement
  delete_preferences-SameOwners w = (ground arith, ground arith, ground arith, ground arith)

  delete_preferences-Single : Single (delete_preferences actor user_id context)
  delete_preferences-Single =
      quiet (delete_preferences actor user_id context) delete_preferences-SameOwners

  removal-Single :
      (now : ℕ) (old_role : Text)
      → Single (
          delete_preferences actor user_id context >>= λ (n : ℕ).
          sync_membership actor.workspace_id user_id old_role false now
          >> told actor
              (ascii "workspace.member.removed")
              (ascii "member.remove")
              context
              user_id
              empty
              now)
  removal-Single now old_role =
      Keeps-bind OneOwner (delete_preferences actor user_id context) _ delete_preferences-Single
        (λ n.
          Keeps-then OneOwner (sync_membership actor.workspace_id user_id old_role false now) _
            (quiet (sync_membership actor.workspace_id user_id old_role false now)
              (sync_membership-SameOwners actor.workspace_id user_id old_role false now))
            (told-Single actor (ascii "workspace.member.removed") (ascii "member.remove") context
              user_id empty now))

  remove_found-Single :
      (now : ℕ) (m : Member) (w : World)
      → find (is_member actor.workspace_id user_id) w.db.members ≡ some m
      → OneOwner w.db
      → OneOwner (remove_found actor user_id context now m w).1.db
  unfolding remove_found write_removal
  remove_found-Single now m w found h = elim (Bool-cases (text_eq m.role owner)) [
    | inl high ↦ rw high h
    | inr low ↦ rw low (
        Keeps_rest OneOwner (delete_member actor user_id context) _ w
          (delete_member-Single m w found low h) (λ n. removal-Single now m.role))
  ]

  pub remove_body-Single : (now : ℕ) → Single (remove_body actor user_id context now)
  unfolding remove_body
  remove_body-Single now =
      Keeps-then OneOwner (require actor members_manage) _ (require-Single actor members_manage) (
        found-Single actor.workspace_id user_id (remove_found actor user_id context now)
          (remove_found-Single now))
