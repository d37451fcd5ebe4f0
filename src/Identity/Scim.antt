-- ===== src/Identity/Scim.antt =====
-- internal/identity/scim.go: the provisioning rows that follow the memberships of a workspace.
use dynamis_code_apps_templa.Prelude.{
  ℕ, ◌+◌, ◌==◌, Bool, true, false, ◌&&◌, ◌||◌, not, Option, none, some, List, [], ◌∷◌, ◌++◌, Text,
  ascii, text_eq, any, count, find, update_where, if◌then◌else◌,
}
use dynamis_code_apps_templa.Schema.{ScimUser, ScimGroup, AuditContext, empty}
use dynamis_code_apps_templa.Exec.{
  database_failure, ok, err, Exec, pure, ◌>>=◌, ◌>>◌, statement, query, execute, clock,
}
use dynamis_code_apps_templa.Identity.{Principal, audit}
use dynamis_code_apps_templa.Identity.Policy.{admin, member, viewer, contains}

abbrev pub bool_eq : Bool → Bool → Bool
bool_eq true b = b
bool_eq false b = not b

-- WHERE workspace_id = ? AND user_id = ?
abbrev pub is_scim_user : Text → Text → ScimUser → Bool
is_scim_user workspace_id user_id s =
    text_eq s.workspace_id workspace_id && text_eq s.user_id user_id

-- WHERE workspace_id = ? AND role = ?
abbrev pub is_group : Text → Text → ScimGroup → Bool
is_group workspace_id role g = text_eq g.workspace_id workspace_id && text_eq g.role role

abbrev pub has_group : Text → Bool
has_group role = text_eq role admin || text_eq role member || text_eq role viewer

abbrev next_version : ScimGroup → ScimGroup
next_version g = record g { version = g.version + 1 }

unfoldable pub bump_group : Text → Text → Exec ℕ
unfolding execute
bump_group workspace_id role = execute (λ db. (
  record db { scim_groups = update_where (is_group workspace_id role) next_version db.scim_groups },
  count (is_group workspace_id role) db.scim_groups,
))

-- The loop of `bumpSCIMGroupVersions`, with the roles that it has seen.
unfoldable pub bump_from : List Text → Text → List Text → Exec (Unit {0})
unfolding bump_group contains
bump_from seen workspace_id [] = pure tt
bump_from seen workspace_id (role ∷ roles) =
    let skip = bump_from seen workspace_id roles in
    let rest = bump_from (role ∷ seen) workspace_id roles in
    if not (has_group role) || contains role seen
    then skip
    else bump_group workspace_id role >> rest

-- `bumpSCIMGroupVersions`.
unfoldable pub bump_group_versions : Text → List Text → Exec (Unit {0})
unfolding bump_from
bump_group_versions workspace_id roles = bump_from [] workspace_id roles

-- UPDATE scim_users SET role = ?, active = ?, version = version + 1, updated_at = ?
abbrev pub provisioned : Text → Bool → ℕ → ScimUser → ScimUser
provisioned role active now s = record s {
  role = role;
  active = active;
  version = s.version + 1;
  updated_at = now;
}

unfoldable pub update_scim_user : Text → Text → Text → Bool → ℕ → Exec ℕ
unfolding execute
update_scim_user workspace_id user_id role active now = execute (λ db. (
  record db {
    scim_users =
        update_where (is_scim_user workspace_id user_id) (provisioned role active now)
          db.scim_users;
  },
  count (is_scim_user workspace_id user_id) db.scim_users,
))

abbrev new_scim_user : Text → Text → Text → Bool → ℕ → ScimUser
new_scim_user workspace_id user_id role active now = record {
  workspace_id = workspace_id;
  external_id = user_id;
  user_id = user_id;
  role = role;
  active = active;
  version = 1;
  created_at = now;
  updated_at = now;
}

-- PRIMARY KEY (workspace_id, external_id), UNIQUE (workspace_id, user_id)
abbrev scim_clashes : ScimUser → ScimUser → Bool
scim_clashes new s =
    text_eq s.workspace_id new.workspace_id
    && (text_eq s.external_id new.external_id || text_eq s.user_id new.user_id)

unfoldable pub insert_scim_user : ScimUser → Exec (Unit {0})
unfolding statement
insert_scim_user new = statement (λ db.
    if any (scim_clashes new) db.scim_users
    then (err database_failure, db)
    else (ok tt, record db { scim_users = db.scim_users ++ new ∷ [] }))

-- Whether the groups of the old and the new role change.
abbrev is_changed : ScimUser → Text → Bool → Bool
is_changed s role active = not (text_eq s.role role) || not (bool_eq s.active active)

unfoldable pub bump_changed : Text → ScimUser → Text → Bool → Exec (Unit {0})
unfolding bump_group_versions
bump_changed workspace_id s role active =
    if is_changed s role active
    then bump_group_versions workspace_id (s.role ∷ role ∷ [])
    else pure tt

module _ (workspace_id user_id role : Text) (active : Bool) (now : ℕ) where
  unfoldable pub ensure_found : Option ScimUser → Exec (Unit {0})
  unfolding update_scim_user bump_changed insert_scim_user bump_group_versions
  ensure_found (some s) =
      update_scim_user workspace_id user_id role active now
      >> bump_changed workspace_id s role active
  ensure_found none =
      insert_scim_user (new_scim_user workspace_id user_id role active now)
      >> bump_group_versions workspace_id (role ∷ [])

  -- `ensureSCIMMembership`.
  unfoldable pub ensure_membership : Exec (Unit {0})
  unfolding query ensure_found
  ensure_membership =
      query (λ db. find (is_scim_user workspace_id user_id) db.scim_users) >>= ensure_found

  unfoldable pub sync_found : Option ScimUser → Exec (Unit {0})
  unfolding update_scim_user bump_changed
  sync_found none = pure tt
  sync_found (some s) = do
    changed ← update_scim_user workspace_id user_id role active now
    (if changed == 0 then pure tt else bump_changed workspace_id s role active)

  -- `syncSCIMMembership`.
  unfoldable pub sync_membership : Exec (Unit {0})
  unfolding query sync_found
  sync_membership =
      query (λ db. find (is_scim_user workspace_id user_id) db.scim_users) >>= sync_found

-- INSERT INTO scim_groups … WHERE NOT EXISTS …
unfoldable pub insert_group : Text → Text → ℕ → Exec ℕ
unfolding execute
insert_group workspace_id role now = execute (λ db.
    if any (is_group workspace_id role) db.scim_groups then (db, 0) else (
      record db {
        scim_groups =
            db.scim_groups
            ++ (record { workspace_id = workspace_id; role = role; version = 1; created_at = now })
              ∷ [];
      },
      1,
    ))

module _ (workspace_id : Text) (actor : Principal) (context : AuditContext) where
  unfoldable pub audit_group : Text → ℕ → Exec (Unit {0})
  unfolding audit
  audit_group role now = audit (record {
    event_type = ascii "scim.group.created";
    actor_user_id = actor.user_id;
    auth_method = actor.auth_method;
    workspace_id = workspace_id;
    target_type = ascii "scim_group";
    target_id = role;
    action = ascii "scim.group.create";
    outcome = ascii "success";
    request_id = context.request_id;
    source_address = context.source_address;
    metadata = empty;
    created_at = now;
  })

  unfoldable pub ensure_group : Text → ℕ → Exec (Unit {0})
  unfolding insert_group audit_group
  ensure_group role now = do
    changed ← insert_group workspace_id role now
    (if changed == 0 then pure tt else audit_group role now)

  -- The loop of `ensureSCIMGroups`.
  unfoldable pub ensure_each : ℕ → List Text → Exec (Unit {0})
  unfolding ensure_group
  ensure_each now [] = pure tt
  ensure_each now (role ∷ roles) = ensure_group role now >> ensure_each now roles

  -- `ensureSCIMGroups`.
  unfoldable pub ensure_groups : Exec (Unit {0})
  unfolding ensure_each
  ensure_groups = clock >>= λ now. ensure_each now (admin ∷ member ∷ viewer ∷ [])
