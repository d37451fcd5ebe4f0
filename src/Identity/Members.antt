-- ===== src/Identity/Members.antt =====
-- internal/identity/service.go: the memberships of a workspace and its ownership.
pub mod Frame
pub mod Owners
pub mod Exchange
pub mod Single
pub mod Transfer
pub mod Steps
mod Tests
use dynamis_code_apps_templa.Prelude.{
  ℕ, Bool, true, false, ◌&&◌, ◌||◌, not, Option, none, some, List, [], ◌∷◌, ◌++◌, Text, ascii,
  text_eq, any, count, find, filter, update_where, if◌then◌else◌,
}
use dynamis_code_apps_templa.Schema.{
  Member, UserRow, WorkspaceRow, Preference, AuditContext, Metadata, empty, role, roles,
  previous_role, Database,
}
use dynamis_code_apps_templa.Exec.{
  Error, database_failure, forbidden, last_owner, Result, ok, err, World, Exec, continue, pure,
  raise, guard, ◌>>=◌, ◌>>◌, statement, query, execute, clock, End, commit, rollback, transact,
}
use dynamis_code_apps_templa.Identity.{Principal, masked, is_member, require, audit}
use dynamis_code_apps_templa.Identity.Policy.{
  owner, admin, valid_role, members_manage, ownership_transfer,
}
use dynamis_code_apps_templa.Identity.Scim.{ensure_membership, sync_membership}

-- The event of a change of a membership.
unfoldable pub audit_member :
    Text → Text → Principal → Text → Metadata → AuditContext → ℕ → Exec (Unit {0})
unfolding audit
audit_member event_type action actor user_id metadata context now = audit (record {
  event_type = event_type;
  actor_user_id = actor.user_id;
  auth_method = actor.auth_method;
  workspace_id = actor.workspace_id;
  target_type = ascii "user";
  target_id = user_id;
  action = action;
  outcome = ascii "success";
  request_id = context.request_id;
  source_address = context.source_address;
  metadata = metadata;
  created_at = now;
})

abbrev pub is_user : Text → UserRow → Bool
is_user user_id u = text_eq u.id user_id

abbrev pub is_workspace : Text → WorkspaceRow → Bool
is_workspace workspace_id r = text_eq r.id workspace_id

-- INSERT INTO workspace_members: the primary key, the CHECK of the role and the foreign keys.
unfoldable pub is_refused : Member → Database → Bool
unfolding is_member valid_role
is_refused m db =
    any (is_member m.workspace_id m.user_id) db.members
    || not (valid_role m.role)
    || not (any (is_user m.user_id) db.users)
    || not (any (is_workspace m.workspace_id) db.workspaces)

unfoldable pub insert_member : Member → Exec (Unit {0})
unfolding statement is_refused
insert_member m = statement (λ db.
    if is_refused m db
    then (err database_failure, db)
    else (ok tt, record db { members = db.members ++ m ∷ [] }))

abbrev pub with_role : Text → Member → Member
with_role r m = record m { role = r }

unfoldable pub set_role : Text → Text → Text → Exec ℕ
unfolding execute
set_role workspace_id user_id r = execute (λ db. (
  record db { members = update_where (is_member workspace_id user_id) (with_role r) db.members },
  count (is_member workspace_id user_id) db.members,
))

abbrev found_or_forbidden : Option Member → Exec Member
found_or_forbidden none = raise forbidden
found_or_forbidden (some m) = pure m

-- SELECT role FROM workspace_members: any error is ErrForbidden.
unfoldable pub member_of : Text → Text → Exec Member
unfolding query
member_of workspace_id user_id w =
    masked forbidden
      ((query (λ db. find (is_member workspace_id user_id) db.members) >>= found_or_forbidden) w)

module _ (actor : Principal) (user_id new_role : Text) (context : AuditContext) where
  abbrev added : ℕ → Member
  added now = record {
    workspace_id = actor.workspace_id;
    user_id = user_id;
    role = new_role;
    created_at = now;
  }

  unfoldable pub add_body : ℕ → Exec (End (Unit {0}))
  unfolding require insert_member ensure_membership audit_member
  add_body now = do
    require actor members_manage
    insert_member (added now)
    ensure_membership actor.workspace_id user_id new_role true now
    audit_member (ascii "workspace.member.added") (ascii "member.add") actor user_id (role new_role)
        context now
    pure (commit tt)

  -- `AddMember`.
  unfoldable pub add_member : Exec (Unit {0})
  unfolding require valid_role add_body transact
  add_member = do
    require actor members_manage
    guard (valid_role new_role && not (text_eq new_role owner)) forbidden
    now ← clock
    transact (add_body now)

  unfoldable pub write_role : ℕ → Text → Exec (End (Unit {0}))
  unfolding set_role ensure_membership audit_member
  write_role now current = do
    changed ← set_role actor.workspace_id user_id new_role
    ensure_membership actor.workspace_id user_id new_role true now
    audit_member (ascii "workspace.member.role_changed") (ascii "member.role.change") actor user_id
        (roles current new_role) context now
    pure (commit tt)

  unfoldable pub change_found : ℕ → Member → Exec (End (Unit {0}))
  unfolding write_role
  change_found now m = if text_eq m.role owner then raise last_owner else write_role now m.role

  unfoldable pub change_body : ℕ → Exec (End (Unit {0}))
  unfolding require member_of change_found
  change_body now = do
    require actor members_manage
    current ← member_of actor.workspace_id user_id
    change_found now current

  -- `ChangeMemberRole`.
  unfoldable pub change_member_role : Exec (Unit {0})
  unfolding require valid_role change_body transact
  change_member_role = do
    require actor members_manage
    guard (valid_role new_role && not (text_eq new_role owner)) forbidden
    now ← clock
    transact (change_body now)

module _ (actor : Principal) (user_id : Text) (context : AuditContext) where
  unfoldable pub write_transfer : Member → Exec (End (Unit {0}))
  unfolding set_role ensure_membership audit_member
  write_transfer target = do
    raised ← set_role actor.workspace_id user_id owner
    lowered ← set_role actor.workspace_id actor.user_id admin
    now ← clock
    ensure_membership actor.workspace_id user_id owner true now
    ensure_membership actor.workspace_id actor.user_id admin true now
    audit_member (ascii "workspace.ownership.transferred") (ascii "ownership.transfer") actor
        user_id (previous_role target.role) context now
    pure (commit tt)

  unfoldable pub actor_found : Member → Exec (End (Unit {0}))
  unfolding member_of write_transfer
  actor_found m =
      if text_eq m.role owner
      then member_of actor.workspace_id user_id >>= write_transfer
      else raise forbidden

  unfoldable pub transfer_body : Exec (End (Unit {0}))
  unfolding member_of actor_found
  transfer_body = do m ← member_of actor.workspace_id actor.user_id; actor_found m

  -- `TransferOwnership`.
  unfoldable pub transfer_ownership : Exec (Unit {0})
  unfolding require transfer_body transact
  transfer_ownership = do
    require actor ownership_transfer
    guard (not (text_eq actor.user_id user_id)) forbidden
    transact transfer_body

  unfoldable pub delete_member : Exec ℕ
  unfolding execute
  delete_member = execute (λ db. (
    record db { members = filter (λ m. not (is_member actor.workspace_id user_id m)) db.members },
    count (is_member actor.workspace_id user_id) db.members,
  ))

  abbrev is_preference : Preference → Bool
  is_preference p = text_eq p.workspace_id actor.workspace_id && text_eq p.user_id user_id

  unfoldable pub delete_preferences : Exec ℕ
  unfolding execute
  delete_preferences = execute (λ db. (
    record db { preferences = filter (λ p. not (is_preference p)) db.preferences },
    count is_preference db.preferences,
  ))

  unfoldable pub write_removal : ℕ → Text → Exec (End (Unit {0}))
  unfolding delete_member delete_preferences sync_membership audit_member
  write_removal now old_role = do
    deleted ← delete_member
    forgotten ← delete_preferences
    sync_membership actor.workspace_id user_id old_role false now
    audit_member (ascii "workspace.member.removed") (ascii "member.remove") actor user_id empty
        context now
    pure (commit tt)

  unfoldable pub remove_found : ℕ → Member → Exec (End (Unit {0}))
  unfolding write_removal
  remove_found now m = if text_eq m.role owner then raise last_owner else write_removal now m.role

  unfoldable pub remove_body : ℕ → Exec (End (Unit {0}))
  unfolding require member_of remove_found
  remove_body now = do
    require actor members_manage
    m ← member_of actor.workspace_id user_id
    remove_found now m

  -- `RemoveMember`.
  unfoldable pub remove_member : Exec (Unit {0})
  unfolding require remove_body transact
  remove_member = do require actor members_manage; now ← clock; transact (remove_body now)
