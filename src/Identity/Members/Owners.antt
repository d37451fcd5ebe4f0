-- ===== src/Identity/Members/Owners.antt =====
-- internal/identity/service.go: every workspace keeps one owner.
use dynamis_code_apps_templa.Prelude.{
  ◌≤◌, ◌≡◌, refl, Bool, true, false, ◌&&◌, not, some, List, [], ◌∷◌, ◌++◌, Text, arith, ap, any,
  count, find, filter, update_where, text_eq, text_eq_iff, inl, inr, Bool-cases,
}
use dynamis_code_apps_templa.Prelude.Counts.{
  count-update_where, count-filter, count-append, count-update_where-same, count-filter-le,
  count-any-none,
}
use dynamis_code_apps_templa.Schema.{Member, WorkspaceRow, Database}
use dynamis_code_apps_templa.Identity.{is_member}
use dynamis_code_apps_templa.Identity.Policy.{owner}
use dynamis_code_apps_templa.Identity.Members.{with_role, is_workspace}
use dynamis_code_apps_templa.Identity.Members.Frame.{SameOwners}

abbrev pub is_owner : Text → Member → Bool
is_owner workspace_id m = text_eq m.workspace_id workspace_id && text_eq m.role owner

-- The primary keys of the two tables hold, and a workspace has one owner; what is no workspace has none.
pub record OneOwner (db : Database) : Type 0 where
  pub owners :
      (workspace_id : Text)
      → count (is_owner workspace_id) db.members ≡ count (is_workspace workspace_id) db.workspaces
  pub memberships :
      (workspace_id user_id : Text) → count (is_member workspace_id user_id) db.members ≤ 1
  pub ids : (workspace_id : Text) → count (is_workspace workspace_id) db.workspaces ≤ 1

pub OneOwner-same :
    (after before : Database)
    → after.members ≡ before.members
    → after.workspaces ≡ before.workspaces
    → OneOwner before
    → OneOwner after
OneOwner-same after before members workspaces h = record {
  owners = λ v. rw (members, workspaces) (h.owners v);
  memberships = λ v u. rw members (h.memberships v u);
  ids = λ v. rw workspaces (h.ids v);
}

pub OneOwner-SameOwners :
    (after before : Database) → SameOwners after before → OneOwner before → OneOwner after
unfolding SameOwners
OneOwner-SameOwners after before (members, workspaces, _, _) h =
    OneOwner-same after before members workspaces h

-- Another role leaves the keys of a table.
pub key_kept :
    (workspace_id user_id r : Text) (m : Member)
    → is_member workspace_id user_id (with_role r m) ≡ is_member workspace_id user_id m
unfolding is_member
key_kept workspace_id user_id r m = refl

module _ (after before : Database) (workspace_id user_id : Text) (m : Member) where
  -- A member that is no owner may change to a role that is not the owner's.
  pub OneOwner-role :
      (r : Text)
      → after.members ≡ update_where (is_member workspace_id user_id) (with_role r) before.members
      → after.workspaces ≡ before.workspaces
      → find (is_member workspace_id user_id) before.members ≡ some m
      → text_eq m.role owner ≡ false
      → text_eq r owner ≡ false
      → OneOwner before
      → OneOwner after
  OneOwner-role r members workspaces found low low' h = record {
    owners = λ v.
        let counted =
          count-update_where (is_member workspace_id user_id) (is_owner v) (with_role r)
            before.members (h.memberships workspace_id user_id) found in
        let total = h.owners v in rw (members, workspaces) (ground arith);
    memberships = λ v u.
        let few = h.memberships v u in
        let same =
          count-update_where-same (is_member workspace_id user_id) (is_member v u) (with_role r)
            (key_kept v u r) before.members in
        rw members (ground arith);
    ids = λ v. rw workspaces (h.ids v);
  }

  -- A member that is no owner may leave.
  pub OneOwner-removed :
      after.members ≡ filter (λ x. not (is_member workspace_id user_id x)) before.members
      → after.workspaces ≡ before.workspaces
      → find (is_member workspace_id user_id) before.members ≡ some m
      → text_eq m.role owner ≡ false
      → OneOwner before
      → OneOwner after
  OneOwner-removed members workspaces found low h = record {
    owners = λ v.
        let counted =
          count-filter (is_member workspace_id user_id) (is_owner v) before.members
            (h.memberships workspace_id user_id) found in
        let total = h.owners v in rw (members, workspaces) (ground arith);
    memberships = λ v u.
        let few = h.memberships v u in
        let fewer =
          count-filter-le (λ x. not (is_member workspace_id user_id x)) (is_member v u)
            before.members in
        rw members (ground arith);
    ids = λ v. rw workspaces (h.ids v);
  }

-- A membership that no row has the key of leaves the keys unique.
unique_append :
    (members : List Member) (m : Member)
    → any (is_member m.workspace_id m.user_id) members ≡ false
    → ((v u : Text) → count (is_member v u) members ≤ 1)
    → (v u : Text) → count (is_member v u) (members ++ m ∷ []) ≤ 1
unfolding is_member
unique_append members m absent h v u =
    let longer = count-append (is_member v u) (is_member v u) members m in
    let few = h v u in
    let nobody =
      count-any-none (is_member m.workspace_id m.user_id) (is_member m.workspace_id m.user_id)
        members absent in
    elim (Bool-cases (text_eq m.workspace_id v)) [
      | inr elsewhere ↦ ground arith
      | inl here ↦ elim (Bool-cases (text_eq m.user_id u)) [
        | inr another ↦ ground arith
        | inl same ↦
            let nobody' =
              rw ((text_eq_iff m.workspace_id v).0 here, (text_eq_iff m.user_id u).0 same) at
                nobody in
            ground arith
      ]
    ]

module _ (after before : Database) (m : Member) where
  -- A new member that is no owner may join.
  pub OneOwner-added :
      after.members ≡ before.members ++ m ∷ []
      → after.workspaces ≡ before.workspaces
      → any (is_member m.workspace_id m.user_id) before.members ≡ false
      → text_eq m.role owner ≡ false
      → OneOwner before
      → OneOwner after
  OneOwner-added members workspaces absent low h = record {
    owners = λ v.
        let longer = count-append (is_owner v) (is_owner v) before.members m in
        let total = h.owners v in rw (members, workspaces) (ground arith);
    memberships = rw members (unique_append before.members m absent h.memberships);
    ids = λ v. rw workspaces (h.ids v);
  }

  -- A new workspace comes with its owner.
  pub OneOwner-created :
      (r : WorkspaceRow)
      → after.members ≡ before.members ++ m ∷ []
      → after.workspaces ≡ before.workspaces ++ r ∷ []
      → any (is_member m.workspace_id m.user_id) before.members ≡ false
      → any (is_workspace r.id) before.workspaces ≡ false
      → m.workspace_id ≡ r.id
      → text_eq m.role owner ≡ true
      → OneOwner before
      → OneOwner after
  OneOwner-created r members workspaces absent new same high h = record {
    owners = λ v.
        let longer = count-append (is_owner v) (is_owner v) before.members m in
        let longer' = count-append (is_workspace v) (is_workspace v) before.workspaces r in
        let total = h.owners v in
        let key = ap (λ t. text_eq t v) same in rw (members, workspaces) (ground arith);
    memberships = rw members (unique_append before.members m absent h.memberships);
    ids = λ v.
        let longer' = count-append (is_workspace v) (is_workspace v) before.workspaces r in
        let few = h.ids v in
        let nobody = count-any-none (is_workspace r.id) (is_workspace r.id) before.workspaces new in
        rw workspaces (elim (Bool-cases (text_eq r.id v)) [
          | inr elsewhere ↦ ground arith
          | inl here ↦ let nobody' = rw ((text_eq_iff r.id v).0 here) at nobody in ground arith
        ]);
  }
