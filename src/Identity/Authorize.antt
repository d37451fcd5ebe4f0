-- ===== src/Identity/Authorize.antt =====
-- Authorization: who may act, and with which rights.
use dynamis_code_apps_templa.Prelude.{
  ◌≡◌, true, some, Text, ascii, arith, find, text_eq, text_eq_iff, Option-cases, Bool-cases, inl,
  inr,
}
use dynamis_code_apps_templa.Schema.{Member, Database}
use dynamis_code_apps_templa.Exec.{query, statement, Error, forbidden, Result-cases, ok, err, World}
use dynamis_code_apps_templa.Identity.Policy.{contains, permissions_for_role}
use dynamis_code_apps_templa.Identity.{
  permit, Principal, is_member, authorize, as_actor, authorize_principal,
}

-- What a successful authorization rests on: the actor is bound to the workspace and holds the
-- permission, and the database has a membership whose role grants the permission.
pub record IsAuthorized (actor : Principal) (workspace_id permission : Text) (db : Database)
    (p : Principal) : Type 0 where
  pub bound : actor.workspace_id ≡ workspace_id
  pub held : contains permission actor.permissions ≡ true
  pub row : Member
  pub stored : find (is_member workspace_id actor.user_id) db.members ≡ some row
  pub grants : contains permission (permissions_for_role row.role) ≡ true
  pub user : p.user_id ≡ actor.user_id
  pub workspace : p.workspace_id ≡ workspace_id
  pub role : p.role ≡ row.role
  pub can : contains permission p.permissions ≡ true

authorize-ok :
    (user_id workspace_id permission : Text) (w : World) {p : Principal}
    → (authorize user_id workspace_id permission w).0 ≡ ok p
    → (row : Member) × (find (is_member workspace_id user_id) w.db.members ≡ some row)
      × (contains permission (permissions_for_role row.role) ≡ true)
      × (p.user_id ≡ user_id)
      × (p.workspace_id ≡ workspace_id)
      × (p.role ≡ row.role)
      × (p.permissions ≡ permissions_for_role row.role)
unfolding authorize
authorize-ok user_id workspace_id permission w {p} h =
    elim (Option-cases (find (is_member workspace_id user_id) w.db.members)) [
      | inl missing ↦ absurd (ground arith)
      | inr (row, stored) ↦
          (row, stored, ground arith, ground arith, ground arith, ground arith, ground arith)
    ]

-- Inversion of a successful authorization of a principal.
inverted :
    (actor : Principal) (workspace_id permission : Text) (w : World) {p : Principal}
    → (authorize_principal actor workspace_id permission w).0 ≡ ok p
    → (q : Principal) × ((authorize actor.user_id workspace_id permission w).0 ≡ ok q)
      × (p ≡ as_actor actor q)
      × (text_eq actor.workspace_id workspace_id ≡ true)
      × (contains permission actor.permissions ≡ true)
unfolding authorize_principal
inverted actor workspace_id permission w {p} h =
    elim (Result-cases (authorize actor.user_id workspace_id permission w).0) [
      | inl (q, granted_q) ↦ (q, granted_q, ground arith, ground arith, ground arith)
      | inr (e, refused_e) ↦ absurd (ground arith)
    ]

kept_permission :
    (actor q : Principal) (permission : Text)
    → contains permission actor.permissions ≡ true
    → contains permission q.permissions ≡ true
    → contains permission (as_actor actor q).permissions ≡ true
unfolding as_actor
kept_permission actor q permission h k =
    elim (Bool-cases (text_eq actor.auth_method (ascii "api_token"))) [
      | inl token ↦ rw token h
      | inr session ↦ rw session k
    ]

-- Whatever the faults of the database, an authorization that succeeds rests on a membership that the
-- database has at that moment, whose role grants the permission, and the principal that it returns is
-- the actor in that workspace with that role and holds the permission.
pub authorize_principal-IsAuthorized :
    (actor : Principal) (workspace_id permission : Text) (w : World) {p : Principal}
    → (authorize_principal actor workspace_id permission w).0 ≡ ok p
    → IsAuthorized actor workspace_id permission w.db p
authorize_principal-IsAuthorized actor workspace_id permission w {p} h =
    let (q, granted_q, same, bound, held) = inverted actor workspace_id permission w h in
    let (row, stored, grants, user, workspace, role, permissions) =
      authorize-ok actor.user_id workspace_id permission w granted_q in
    record {
      bound = (text_eq_iff actor.workspace_id workspace_id).0 bound;
      held = held;
      row = row;
      stored = stored;
      grants = grants;
      user = rw same (unfold as_actor in user);
      workspace = rw same (unfold as_actor in workspace);
      role = rw same (unfold as_actor in role);
      can = rw same (kept_permission actor q permission held (rw permissions grants));
    }

-- An authorization changes nothing in the database, and it fails with no error but forbidden: neither
-- a missing row nor a failure of the database shows.
pub authorize_principal_quiet :
    (actor : Principal) (workspace_id permission : Text) (w : World)
    → ((authorize_principal actor workspace_id permission w).1.db ≡ w.db)
      × ((e : Error)
          → (authorize_principal actor workspace_id permission w).0 ≡ err e
          → e ≡ forbidden)
unfolding authorize_principal authorize
authorize_principal_quiet actor workspace_id permission w = (ground arith, λ e h. ground arith)

pub permit-db :
    (actor : Principal) (workspace_id permission : Text) (w : World)
    → (permit actor workspace_id permission w).1.db ≡ w.db
unfolding permit
permit-db actor workspace_id permission w =
    let (same, _) = authorize_principal_quiet actor workspace_id permission w in ground arith

pub permit-now :
    (actor : Principal) (workspace_id permission : Text) (w : World)
    → (permit actor workspace_id permission w).1.now ≡ w.now
unfolding permit authorize_principal authorize query statement
permit-now actor workspace_id permission w = ground arith
