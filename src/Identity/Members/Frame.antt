-- ===== src/Identity/Members/Frame.antt =====
-- What leaves the memberships, the workspaces and the invitations as they are: authorization, the audit trail and the
-- provisioning rows.
use dynamis_code_apps_templa.Prelude.{
  ℕ, ◌≡◌, refl, Bool, Option, none, some, List, [], ◌∷◌, Text, arith, ap, find, if◌then◌else◌, ◌==◌,
  inl, inr,
}
use dynamis_code_apps_templa.Schema.{ScimUser, AuditEvent, AuditContext, Metadata, Database}
use dynamis_code_apps_templa.Exec.{
  Result, Result-cases, ok, err, World, Exec, continue, statement, query, execute,
}
use dynamis_code_apps_templa.Identity.{Principal, require, audit}
use dynamis_code_apps_templa.Identity.Policy.{admin, member, viewer}
use dynamis_code_apps_templa.Identity.Authorize.{permit-db}
use dynamis_code_apps_templa.Identity.Audit.{audit-db}
use dynamis_code_apps_templa.Identity.Scim.{
  is_scim_user, bump_group, bump_from, bump_group_versions, update_scim_user, insert_scim_user,
  bump_changed, ensure_found, ensure_membership, sync_found, sync_membership, insert_group,
  audit_group, ensure_group, ensure_each, ensure_groups,
}
use dynamis_code_apps_templa.Identity.Members.{audit_member}

-- The two databases agree on the memberships, the workspaces, the state of the bootstrap and the invitations.
unfoldable pub SameOwners : Database → Database → Type 0
SameOwners after before =
    (after.members ≡ before.members)
    × (after.workspaces ≡ before.workspaces)
    × (after.bootstrapped ≡ before.bootstrapped)
    × (after.invitations ≡ before.invitations)

pub SameOwners-trans : (c b a : Database) → SameOwners c b → SameOwners b a → SameOwners c a
unfolding SameOwners
SameOwners-trans c b a h k = (ground arith, ground arith, ground arith, ground arith)

pub require-db :
    (actor : Principal) (permission : Text) (w : World) → (require actor permission w).1.db ≡ w.db
unfolding require
require-db actor permission w = permit-db actor actor.workspace_id permission w

pub audit-SameOwners : (event : AuditEvent) (w : World) → SameOwners (audit event w).1.db w.db
unfolding SameOwners
audit-SameOwners event w = (
  ap (λ (d : Database). d.members) (audit-db event w),
  ap (λ (d : Database). d.workspaces) (audit-db event w),
  ap (λ (d : Database). d.bootstrapped) (audit-db event w),
  ap (λ (d : Database). d.invitations) (audit-db event w),
)

pub audit_member-SameOwners :
    (event_type action : Text) (actor : Principal) (user_id : Text) (m : Metadata)
    (context : AuditContext) (now : ℕ) (w : World)
    → SameOwners (audit_member event_type action actor user_id m context now w).1.db w.db
unfolding audit_member
audit_member-SameOwners event_type action actor user_id m context now w = audit-SameOwners _ w

bump_group-SameOwners :
    (workspace_id r : Text) (w : World) → SameOwners (bump_group workspace_id r w).1.db w.db
unfolding SameOwners bump_group execute statement
bump_group-SameOwners workspace_id r w = (ground arith, ground arith, ground arith, ground arith)

bump_from-SameOwners :
    (seen : List Text) (workspace_id : Text) (roles : List Text) (w : World)
    → SameOwners (bump_from seen workspace_id roles w).1.db w.db
unfolding SameOwners bump_from
bump_from-SameOwners seen workspace_id [] w = (refl, refl, refl, refl)
bump_from-SameOwners seen workspace_id (r ∷ rs) w =
    let skip = bump_from-SameOwners seen workspace_id rs w in
    let bump = bump_group-SameOwners workspace_id r w in
    let rest = bump_from-SameOwners (r ∷ seen) workspace_id rs (bump_group workspace_id r w).1 in
    elim (Result-cases (bump_group workspace_id r w).0) [
      | inl (n, done) ↦ (ground arith, ground arith, ground arith, ground arith)
      | inr (e, failed) ↦ (ground arith, ground arith, ground arith, ground arith)
    ]

update_scim_user-SameOwners :
    (workspace_id user_id r : Text) (active : Bool) (now : ℕ) (w : World)
    → SameOwners (update_scim_user workspace_id user_id r active now w).1.db w.db
unfolding SameOwners update_scim_user execute statement
update_scim_user-SameOwners workspace_id user_id r active now w =
    (ground arith, ground arith, ground arith, ground arith)

insert_scim_user-SameOwners :
    (new : ScimUser) (w : World) → SameOwners (insert_scim_user new w).1.db w.db
unfolding SameOwners insert_scim_user statement
insert_scim_user-SameOwners new w = (ground arith, ground arith, ground arith, ground arith)

bump_changed-SameOwners :
    (workspace_id : Text) (s : ScimUser) (r : Text) (active : Bool) (w : World)
    → SameOwners (bump_changed workspace_id s r active w).1.db w.db
unfolding SameOwners bump_changed bump_group_versions
bump_changed-SameOwners workspace_id s r active w =
    let bump = bump_from-SameOwners [] workspace_id (s.role ∷ r ∷ []) w in
    (ground arith, ground arith, ground arith, ground arith)

-- What keeps the owners at each of two steps keeps them at both.
module _ {A B : Type 0} where
  continue-SameOwners :
      (r : Result A) (f : A → Exec B) (w : World)
      → ((a : A) → SameOwners (f a w).1.db w.db)
      → SameOwners (continue r f w).1.db w.db
  unfolding SameOwners
  continue-SameOwners (ok a) f w h = h a
  continue-SameOwners (err e) f w h = (refl, refl, refl, refl)

  bind-SameOwners :
      (m : Exec A) (f : A → Exec B) (w : World)
      → SameOwners (m w).1.db w.db
      → ((a : A) (v : World) → SameOwners (f a v).1.db v.db)
      → SameOwners (continue (m w).0 f (m w).1).1.db w.db
  bind-SameOwners m f w h k =
      SameOwners-trans _ (m w).1.db w.db (continue-SameOwners (m w).0 f (m w).1 (λ a. k a (m w).1))
        h

query-SameOwners :
    {A : Type 0} (read : Database → A) (w : World) → SameOwners (query read w).1.db w.db
unfolding SameOwners query statement
query-SameOwners read w = (ground arith, ground arith, ground arith, ground arith)

module _ (workspace_id user_id r : Text) (active : Bool) (now : ℕ) where
  ensure_found-SameOwners :
      (found : Option ScimUser) (w : World)
      → SameOwners (ensure_found workspace_id user_id r active now found w).1.db w.db
  unfolding ensure_found bump_group_versions
  ensure_found-SameOwners none w =
      bind-SameOwners (insert_scim_user _) (λ u. bump_from [] workspace_id (r ∷ [])) w
        (insert_scim_user-SameOwners _ w) (λ u v. bump_from-SameOwners [] workspace_id (r ∷ []) v)
  ensure_found-SameOwners (some s) w =
      bind-SameOwners (update_scim_user workspace_id user_id r active now)
        (λ n. bump_changed workspace_id s r active) w
        (update_scim_user-SameOwners workspace_id user_id r active now w)
        (λ n v. bump_changed-SameOwners workspace_id s r active v)

  pub ensure_membership-SameOwners :
      (w : World) → SameOwners (ensure_membership workspace_id user_id r active now w).1.db w.db
  unfolding ensure_membership
  ensure_membership-SameOwners w =
      bind-SameOwners (query (λ db. find (is_scim_user workspace_id user_id) db.scim_users))
        (ensure_found workspace_id user_id r active now) w
        (query-SameOwners (λ db. find (is_scim_user workspace_id user_id) db.scim_users) w)
        ensure_found-SameOwners

  abbrev sync_changed : ScimUser → ℕ → Exec (Unit {0})
  sync_changed s n = if n == 0 then (λ v. (ok tt, v)) else bump_changed workspace_id s r active

  sync_changed-SameOwners :
      (s : ScimUser) (n : ℕ) (w : World) → SameOwners (sync_changed s n w).1.db w.db
  unfolding SameOwners
  sync_changed-SameOwners s n w =
      let bump = bump_changed-SameOwners workspace_id s r active w in
      (ground arith, ground arith, ground arith, ground arith)

  sync_found-SameOwners :
      (found : Option ScimUser) (w : World)
      → SameOwners (sync_found workspace_id user_id r active now found w).1.db w.db
  unfolding sync_found SameOwners
  sync_found-SameOwners none w = (refl, refl, refl, refl)
  sync_found-SameOwners (some s) w =
      bind-SameOwners (update_scim_user workspace_id user_id r active now) (sync_changed s) w
        (update_scim_user-SameOwners workspace_id user_id r active now w)
        (sync_changed-SameOwners s)

  pub sync_membership-SameOwners :
      (w : World) → SameOwners (sync_membership workspace_id user_id r active now w).1.db w.db
  unfolding sync_membership
  sync_membership-SameOwners w =
      bind-SameOwners (query (λ db. find (is_scim_user workspace_id user_id) db.scim_users))
        (sync_found workspace_id user_id r active now) w
        (query-SameOwners (λ db. find (is_scim_user workspace_id user_id) db.scim_users) w)
        sync_found-SameOwners

insert_group-SameOwners :
    (workspace_id r : Text) (now : ℕ) (w : World)
    → SameOwners (insert_group workspace_id r now w).1.db w.db
unfolding SameOwners insert_group execute statement
insert_group-SameOwners workspace_id r now w =
    (ground arith, ground arith, ground arith, ground arith)

module _ (workspace_id : Text) (actor : Principal) (context : AuditContext) where
  audit_group-SameOwners :
      (r : Text) (now : ℕ) (w : World)
      → SameOwners (audit_group workspace_id actor context r now w).1.db w.db
  unfolding audit_group
  audit_group-SameOwners r now w = audit-SameOwners _ w

  abbrev after_group : Text → ℕ → ℕ → Exec (Unit {0})
  after_group r now n =
      if n == 0 then (λ v. (ok tt, v)) else audit_group workspace_id actor context r now

  after_group-SameOwners :
      (r : Text) (now n : ℕ) (w : World) → SameOwners (after_group r now n w).1.db w.db
  unfolding SameOwners
  after_group-SameOwners r now n w =
      let told = audit_group-SameOwners r now w in
      (ground arith, ground arith, ground arith, ground arith)

  ensure_group-SameOwners :
      (r : Text) (now : ℕ) (w : World)
      → SameOwners (ensure_group workspace_id actor context r now w).1.db w.db
  unfolding ensure_group
  ensure_group-SameOwners r now w =
      bind-SameOwners (insert_group workspace_id r now) (after_group r now) w
        (insert_group-SameOwners workspace_id r now w) (after_group-SameOwners r now)

  ensure_each-SameOwners :
      (now : ℕ) (roles : List Text) (w : World)
      → SameOwners (ensure_each workspace_id actor context now roles w).1.db w.db
  unfolding ensure_each SameOwners
  ensure_each-SameOwners now [] w = (refl, refl, refl, refl)
  ensure_each-SameOwners now (r ∷ rs) w =
      bind-SameOwners (ensure_group workspace_id actor context r now)
        (λ u. ensure_each workspace_id actor context now rs) w (ensure_group-SameOwners r now w)
        (λ u v. ensure_each-SameOwners now rs v)

  pub ensure_groups-SameOwners :
      (w : World) → SameOwners (ensure_groups workspace_id actor context w).1.db w.db
  unfolding ensure_groups
  ensure_groups-SameOwners w = ensure_each-SameOwners w.now (admin ∷ member ∷ viewer ∷ []) w
