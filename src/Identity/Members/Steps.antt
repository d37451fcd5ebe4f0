-- ===== src/Identity/Members/Steps.antt =====
-- The life of an instance: runs of the operations on workspaces and memberships, in any order, each
-- with any faults, at any time.
use dynamis_code_apps_templa.Prelude.{
  ◌≡◌, false, ◌&&◌, ◌||◌, not, Text, arith, ltb, is_nil, text_eq, inl, inr, Bool-cases,
}
use dynamis_code_apps_templa.Schema.{AuditContext, Database}
use dynamis_code_apps_templa.Exec.{
  forbidden, mfa_required, World, Exec, guard, lift, fresh, query, statement, ◌>>◌,
}
use dynamis_code_apps_templa.Exec.Keeps.{
  Keeps-bind, Keeps-then, Keeps-same, Keeps-transact, guard-Keeps,
}
use dynamis_code_apps_templa.Identity.{Principal, require}
use dynamis_code_apps_templa.Identity.Policy.{owner, valid_role, members_manage, ownership_transfer}
use dynamis_code_apps_templa.Identity.Mfa.{
  MfaConfig, MfaStatus, auth_level_mfa, mfa_status, required_by, mfa_required_for_role,
}
use dynamis_code_apps_templa.Identity.Members.{
  add_body, add_member, change_body, change_member_role, transfer_body, transfer_ownership,
  remove_body, remove_member,
}
use dynamis_code_apps_templa.Identity.Members.Owners.{OneOwner}
use dynamis_code_apps_templa.Identity.Members.Single.{
  Single, require-Single, add_body-Single, change_body-Single, remove_body-Single,
}
use dynamis_code_apps_templa.Identity.Members.Transfer.{transfer_body-Single, workspace_body-Single}
use dynamis_code_apps_templa.Identity.Workspaces.{
  validate_workspace_name, default_locale, require_user, require_factor, workspace_body,
  create_workspace,
}
use dynamis_code_apps_templa.Identity.Bootstrap.{Codec, BootstrapInput, bootstrap_first_owner}
use dynamis_code_apps_templa.Identity.Bootstrap.Once.{bootstrap-Single}

module _ (actor : Principal) (user_id r : Text) (context : AuditContext) where
  -- What follows the check of the new role, which is not the owner's.
  checked-Single :
      {A : Type 0} (n : Exec A)
      → (text_eq r owner ≡ false → Single n)
      → Single (guard (valid_role r && not (text_eq r owner)) forbidden >> n)
  checked-Single n h w p = elim (Bool-cases (valid_role r && not (text_eq r owner))) [
    | inr bad ↦ rw bad p
    | inl good ↦ rw good (h (ground arith) w p)
  ]

  add_member-Single : Single (add_member actor user_id r context)
  unfolding add_member
  add_member-Single =
      Keeps-then OneOwner (require actor members_manage) _ (require-Single actor members_manage) (
        checked-Single _ (λ low w.
          Keeps-transact OneOwner (add_body actor user_id r context w.now)
            (λ v e done. add_body-Single actor user_id r context low w.now v) w))

  change_member_role-Single : Single (change_member_role actor user_id r context)
  unfolding change_member_role
  change_member_role-Single =
      Keeps-then OneOwner (require actor members_manage) _ (require-Single actor members_manage) (
        checked-Single _ (λ low w.
          Keeps-transact OneOwner (change_body actor user_id r context w.now)
            (λ v e done. change_body-Single actor user_id r context low w.now v) w))

module _ (actor : Principal) (user_id : Text) (context : AuditContext) where
  apart-Single :
      {A : Type 0} (n : Exec A)
      → (text_eq actor.user_id user_id ≡ false → Single n)
      → Single (guard (not (text_eq actor.user_id user_id)) forbidden >> n)
  apart-Single n h w p = elim (Bool-cases (text_eq actor.user_id user_id)) [
    | inl same ↦ rw same p
    | inr apart ↦ rw apart (h apart w p)
  ]

  transfer_ownership-Single : Single (transfer_ownership actor user_id context)
  unfolding transfer_ownership
  transfer_ownership-Single =
      Keeps-then OneOwner (require actor ownership_transfer) _
        (require-Single actor ownership_transfer)
        (apart-Single _ (λ apart.
          Keeps-transact OneOwner (transfer_body actor user_id context)
            (λ v e done p. transfer_body-Single actor user_id context v e apart p done)))

  remove_member-Single : Single (remove_member actor user_id context)
  unfolding remove_member
  remove_member-Single =
      Keeps-then OneOwner (require actor members_manage) _ (require-Single actor members_manage)
        (λ w.
          Keeps-transact OneOwner (remove_body actor user_id context w.now)
            (λ v e done. remove_body-Single actor user_id context w.now v) w)

query-db : {A : Type 0} (read : Database → A) (w : World) → (query read w).1.db ≡ w.db
unfolding query statement
query-db read w = ground arith

mfa_status-Single : (config : MfaConfig) (user_id : Text) → Single (mfa_status config user_id)
unfolding mfa_status query statement
mfa_status-Single config user_id =
    Keeps-same OneOwner (mfa_status config user_id) (λ w. ground arith)

required_by-Single :
    (config : MfaConfig) (user_id target : Text) (status : MfaStatus)
    → Single (required_by config user_id target status)
unfolding required_by query statement
required_by-Single config user_id target status =
    Keeps-same OneOwner (required_by config user_id target status) (λ w. ground arith)

mfa_required_for_role-Single :
    (config : MfaConfig) (user_id target : Text)
    → Single (mfa_required_for_role config user_id target)
unfolding mfa_required_for_role
mfa_required_for_role-Single config user_id target w p =
    elim (Bool-cases (not config.enabled || not config.require_for_admins)) [
      | inl off ↦ rw off p
      | inr on ↦ rw on (
          Keeps-bind OneOwner (mfa_status config user_id) _ (mfa_status-Single config user_id)
            (required_by-Single config user_id target) w p)
    ]

require_factor-Single :
    (actor : Principal) (context : AuditContext) (config : MfaConfig)
    → Single (require_factor actor context config)
unfolding require_factor
require_factor-Single actor context config w p =
    elim (Bool-cases (ltb actor.auth_level auth_level_mfa)) [
      | inr done ↦ rw done p
      | inl low ↦ rw low (
          Keeps-bind OneOwner (mfa_required_for_role config actor.user_id owner) _
            (mfa_required_for_role-Single config actor.user_id owner)
            (λ required. guard-Keeps OneOwner (not required) mfa_required) w p)
    ]

require_user-Single : (user_id : Text) → Single (require_user user_id)
unfolding require_user query statement
require_user-Single user_id = Keeps-same OneOwner (require_user user_id) (λ w. ground arith)

create_workspace-Single :
    (actor : Principal) (context : AuditContext) (lower : Text → Text) (config : MfaConfig)
    (name tag : Text)
    → Single (create_workspace actor context lower config name tag)
unfolding create_workspace fresh
create_workspace-Single actor context lower config name tag =
    Keeps-then OneOwner
      (guard (not (is_nil actor.user_id) && not (is_nil actor.auth_method)) forbidden) _
      (guard-Keeps OneOwner (not (is_nil actor.user_id) && not (is_nil actor.auth_method))
        forbidden)
      (Keeps-then OneOwner (require_factor actor context config) _
        (require_factor-Single actor context config)
        (Keeps-bind OneOwner (lift (validate_workspace_name name)) _ (λ w p. p)
          (λ name'.
            Keeps-bind OneOwner (lift (default_locale lower tag)) _ (λ w p. p)
              (λ tag'.
                Keeps-then OneOwner (require_user actor.user_id) _
                  (require_user-Single actor.user_id)
                  (Keeps-bind OneOwner fresh _ (λ w p. p)
                    (λ workspace_id w.
                      Keeps-transact OneOwner
                        (workspace_body actor context (record {
                          id = workspace_id;
                          name = name';
                          locale = tag';
                          created_at = w.now;
                        }))
                        (λ v e done p.
                          workspace_body-Single actor context
                            (record {
                              id = workspace_id;
                              name = name';
                              locale = tag';
                              created_at = w.now;
                            })
                            v e p done)
                        w))))))

-- One operation, or any change of the clock, the faults and the random source.
pub data Step : World → World → Type 0 where
  bootstraps :
      (context : AuditContext) (c : Codec) (input : BootstrapInput) (w : World)
      → Step w (bootstrap_first_owner context c input w).1
  creates :
      (actor : Principal) (context : AuditContext) (lower : Text → Text) (config : MfaConfig)
      (name tag : Text) (w : World)
      → Step w (create_workspace actor context lower config name tag w).1
  adds :
      (actor : Principal) (user_id r : Text) (context : AuditContext) (w : World)
      → Step w (add_member actor user_id r context w).1
  changes :
      (actor : Principal) (user_id r : Text) (context : AuditContext) (w : World)
      → Step w (change_member_role actor user_id r context w).1
  transfers :
      (actor : Principal) (user_id : Text) (context : AuditContext) (w : World)
      → Step w (transfer_ownership actor user_id context w).1
  removes :
      (actor : Principal) (user_id : Text) (context : AuditContext) (w : World)
      → Step w (remove_member actor user_id context w).1
  waits : (w v : World) → v.db ≡ w.db → Step w v

pub data Reach (start : World) : World → Type 0 where
  started : Reach start start
  next : {w v : World} → Reach start w → Step w v → Reach start v

Step-OneOwner : {w v : World} → Step w v → OneOwner w.db → OneOwner v.db
Step-OneOwner (bootstraps context c input w) h = bootstrap-Single context c input w h
Step-OneOwner (creates actor context lower config name tag w) h =
    create_workspace-Single actor context lower config name tag w h
Step-OneOwner (adds actor user_id r context w) h = add_member-Single actor user_id r context w h
Step-OneOwner (changes actor user_id r context w) h =
    change_member_role-Single actor user_id r context w h
Step-OneOwner (transfers actor user_id context w) h =
    transfer_ownership-Single actor user_id context w h
Step-OneOwner (removes actor user_id context w) h = remove_member-Single actor user_id context w h
Step-OneOwner (waits w v same) h = rw same h

-- After any run of `BootstrapFirstOwner`, `CreateWorkspace`, `AddMember`, `ChangeMemberRole`,
-- `TransferOwnership` and `RemoveMember` with any faults, each workspace has exactly as many owners as it
-- has rows, which is at most one, if that held at the start; and a user has at most one membership in it.
pub Reach-OneOwner : (w v : World) → Reach w v → OneOwner w.db → OneOwner v.db
Reach-OneOwner w v started h = h
Reach-OneOwner w v (next run step) h = Step-OneOwner step (Reach-OneOwner w _ run h)
