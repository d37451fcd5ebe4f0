-- ===== src/Identity/Invitations/Tests.antt =====
-- Invitations of a concrete workspace.
use dynamis_code_apps_templa.Prelude.{◌≡◌, refl, none, some, [], ◌∷◌, ascii, text_eq, All, arith}
use dynamis_code_apps_templa.Schema.{empty_database, InvitationRow, AuditContext}
use dynamis_code_apps_templa.Exec.{
  ok, World, query, execute, statement, fresh, close, begun, transact,
}
use dynamis_code_apps_templa.Identity.{audit, is_member}
use dynamis_code_apps_templa.Identity.Policy.{owner, valid_role, member, contains}
use dynamis_code_apps_templa.Identity.Scim.{
  ensure_membership, ensure_found, insert_scim_user, bump_group_versions, bump_from, bump_group,
}
use dynamis_code_apps_templa.Identity.Members.{insert_member, is_refused}
use dynamis_code_apps_templa.Identity.Members.Owners.{OneOwner}
use dynamis_code_apps_templa.Identity.Bootstrap.{Codec}
use dynamis_code_apps_templa.Identity.Sessions.{Digest, hash_secret}
use dynamis_code_apps_templa.Identity.Invitations.{audit_invitation, update_rows}
use dynamis_code_apps_templa.Identity.Invitations.Manage.{find_row}
use dynamis_code_apps_templa.Identity.Invitations.Use.{
  open_now, find_invitation, join_workspace, write_acceptance, accept_loaded, email_of,
  accept_found, accept_body, accept_invitation,
}
use dynamis_code_apps_templa.Identity.Invitations.Settled.{IsSettled, AllSettled}
use dynamis_code_apps_templa.Identity.Invitations.Once.{
  accepting, registering, accept_by, Succeeds, accepted_once,
}
use dynamis_code_apps_templa.Identity.Invitations.Owners.{accept_invitation-OneOwner, LowRole}
use dynamis_code_apps_templa.Identity.Invitations.Steps.{accepts, here, further, Reach-AllSettled}

abbrev digest : Digest
digest = record { sha256 = λ t. t; hex_encode = λ t. t; hex_decode = λ t. some t }

abbrev codec : Codec
codec = record {
  lower = λ t. t;
  parse_address = λ t. some t;
  version = ascii "19";
  id_key = λ password salt. password;
  base64 = λ t. t;
}

abbrev context : AuditContext
context = record { request_id = ascii "r"; source_address = ascii "::1" }

abbrev invitation : InvitationRow
invitation = record {
  id = ascii "i";
  workspace_id = ascii "w";
  invited_by_user_id = ascii "alice";
  email = ascii "bob@x";
  active_email = some (ascii "bob@x");
  role = member;
  secret_hash = ascii "secret";
  created_at = 1;
  expires_at = 9;
  accepted_at = none;
  expired_at = none;
  revoked_at = none;
}

abbrev world : World
world = record {
  db = record empty_database {
    users =
        record {
          id = ascii "bob";
          email = ascii "bob@x";
          password_hash = none;
          email_verified_at = none;
          created_at = 0;
        }
        ∷ [];
    workspaces =
        record { id = ascii "w"; name = ascii "W"; locale = ascii "en"; created_at = 0 } ∷ [];
    invitations = invitation ∷ [];
  };
  now = 7;
  faults = [];
  entropy = some (ascii "e") ∷ [];
}

accepts_bob :
    (accept_invitation digest (ascii "secret") (ascii "bob") context world).0 ≡ ok (ascii "w")
unfolding accept_invitation accept_body accept_found accept_loaded email_of find_invitation find_row
    open_now join_workspace write_acceptance audit_invitation update_rows hash_secret insert_member
    is_refused valid_role ensure_membership ensure_found insert_scim_user bump_group_versions
    bump_from bump_group contains is_member audit text_eq query execute statement fresh close begun
    transact
accepts_bob = refl

abbrev afterwards : World
afterwards = (accept_invitation digest (ascii "secret") (ascii "bob") context world).1

accepted_once_example : ¬ (
    Succeeds digest
      (ascii "secret")
      (registering codec (ascii "a long password") context)
      afterwards)
unfolding Succeeds accept_by
accepted_once_example =
    accepted_once digest (ascii "secret") (accepting (ascii "bob") context) world (refl, tt)
      (ascii "w", accepts_bob) afterwards (registering codec (ascii "a long password") context) refl

world-AllSettled : AllSettled world.db
unfolding IsSettled
world-AllSettled = ((omega arith, refl), tt)

Reach-AllSettled_example :
    AllSettled (accept_invitation digest (ascii "secret") (ascii "bob") context world).1.db
Reach-AllSettled_example =
    Reach-AllSettled codec digest (further here (accepts (ascii "secret") (ascii "bob") context))
      world-AllSettled

-- The same workspace with its owner.
abbrev owned : World
owned = record world {
  db = record world.db {
    members =
        record { workspace_id = ascii "w"; user_id = ascii "alice"; role = owner; created_at = 0 }
        ∷ [];
  };
}

owned-OneOwner : OneOwner owned.db
unfolding is_member text_eq
owned-OneOwner = record {
  owners = λ v. ground arith;
  memberships = λ v u. ground arith;
  ids = λ v. ground arith;
}

accept_invitation-OneOwner_example :
    OneOwner (accept_invitation digest (ascii "secret") (ascii "bob") context owned).1.db
    × All LowRole
        (accept_invitation digest (ascii "secret") (ascii "bob") context owned).1.db.invitations
unfolding text_eq
accept_invitation-OneOwner_example =
    accept_invitation-OneOwner digest (ascii "secret") (ascii "bob") context owned owned-OneOwner
      (refl, tt)
