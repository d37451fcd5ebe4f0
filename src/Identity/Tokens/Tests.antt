-- ===== src/Identity/Tokens/Tests.antt =====
-- A token at a concrete instance, and the text of two scopes.
use dynamis_code_apps_templa.Prelude.{
  space_width, false, ◌≡◌, refl, none, some, List, [], ◌∷◌, Text, ascii, text_eq,
}
use dynamis_code_apps_templa.Schema.{TokenRow, empty_database, AuditContext}
use dynamis_code_apps_templa.Exec.{
  ok, err, forbidden, World, query, execute, statement, fresh, close, begun, transact,
}
use dynamis_code_apps_templa.Identity.{Principal, is_member, audit}
use dynamis_code_apps_templa.Identity.Policy.{
  contains, permissions_for_role, role_permissions, member, resources_read, members_manage,
}
use dynamis_code_apps_templa.Identity.Mfa.{MfaConfig, mfa_required_for_role}
use dynamis_code_apps_templa.Identity.Sessions.{Digest, hash_secret}
use dynamis_code_apps_templa.Identity.Tokens.Scopes.{
  IsScope, encode_scopes, decode_scopes, fields_from, decode_scopes-encode_scopes,
}
use dynamis_code_apps_templa.Identity.Tokens.{
  effective, is_expired, is_valid_token, is_usable, find_token, find_holder, touch_token,
  token_principal, audit_token, use_token, authenticate_body, token_answer, authenticate_api_token,
}
use dynamis_code_apps_templa.Identity.Tokens.Used.{IsUsed, authenticate_api_token-IsUsed}

abbrev digest : Digest
digest = record { sha256 = λ t. t; hex_encode = λ t. t; hex_decode = some }

abbrev context : AuditContext
context = record { request_id = ascii "r"; source_address = ascii "::1" }

abbrev config : MfaConfig
config = record { enabled = false; require_for_admins = false }

abbrev two_scopes : List Text
two_scopes = resources_read ∷ members_manage ∷ []

decode_scopes-encode_scopes_example : decode_scopes (encode_scopes two_scopes) ≡ two_scopes
unfolding IsScope
decode_scopes-encode_scopes_example =
    decode_scopes-encode_scopes two_scopes ((refl, refl), ((refl, refl), tt))

abbrev stored : TokenRow
stored = record {
  id = ascii "t";
  user_id = ascii "alice";
  workspace_id = ascii "w";
  name = ascii "ci";
  secret_hash = ascii "secret";
  scopes = ascii "resources:read members:manage";
  created_at = 0;
  expires_at = some 9;
  last_used_at = none;
  revoked_at = none;
}

abbrev world : World
world = record {
  db = record empty_database {
    members =
        record { workspace_id = ascii "w"; user_id = ascii "alice"; role = member; created_at = 0 }
        ∷ [];
    api_tokens = stored ∷ [];
  };
  now = 7;
  faults = [];
  entropy = some (ascii "e1") ∷ [];
}

-- The role grants one of the two scopes.
abbrev reader : Principal
reader = record {
  user_id = ascii "alice";
  workspace_id = ascii "w";
  role = member;
  permissions = resources_read ∷ [];
  auth_method = ascii "api_token";
  token_id = ascii "t";
  auth_level = 0;
}

reads :
    (authenticate_api_token context digest config (ascii "secret") resources_read world).0
    ≡ ok reader
unfolding authenticate_api_token token_answer authenticate_body use_token audit_token
    token_principal touch_token find_holder find_token is_usable is_valid_token is_expired effective
    mfa_required_for_role hash_secret decode_scopes fields_from space_width is_member audit contains
    permissions_for_role role_permissions text_eq query execute statement fresh close begun transact
reads = refl

may_not_manage :
    (authenticate_api_token context digest config (ascii "secret") members_manage world).0
    ≡ err forbidden
unfolding authenticate_api_token token_answer authenticate_body use_token find_holder find_token
    is_valid_token is_expired effective mfa_required_for_role hash_secret decode_scopes fields_from
    space_width is_member contains permissions_for_role role_permissions text_eq query statement
    close begun transact
may_not_manage = refl

authenticate_api_token-IsUsed_example :
    IsUsed digest (ascii "secret") resources_read world.now world.db reader
authenticate_api_token-IsUsed_example =
    authenticate_api_token-IsUsed context digest config (ascii "secret") resources_read world reader
      reads
