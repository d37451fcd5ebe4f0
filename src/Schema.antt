-- ===== src/Schema.antt =====
-- The tables of internal/platform/database/migrations that the modelled components read and write,
-- as lists of rows, and the records that the components share (internal/identity/model.go,
-- internal/items/service.go, internal/items/events.go).
--
-- A nullable column is an Option. A time that a component writes in the fixed-width layout is kept
-- as the time, which compares as its text does (Clock.Order); jobs and public links are written in
-- the trimmed layout and keep the text. The JSON text of an audit event's metadata is kept as the
-- value that it encodes.
use dynamis_code_apps_templa.Prelude.{ℕ, Bool, Option, none, List, [], Text}
use dynamis_code_apps_templa.Clock.{Stamp}

pub data JobStatus : Type 0 where
  pending running succeeded failed : JobStatus

-- background_jobs
pub record JobRow : Type 0 where
  pub id : Text
  pub workspace_id : Text
  pub kind : Text
  pub deduplication_key : Text
  pub payload : Text
  pub status : JobStatus
  pub attempt_count : ℕ
  pub available_at : Stamp
  pub lease_token : Option Text
  pub leased_until : Option Stamp
  pub started_at : Option Stamp
  pub completed_at : Option Stamp
  pub last_error : Option Text
  pub created_at : Stamp

-- workspace_members
pub record Member : Type 0 where
  pub workspace_id : Text
  pub user_id : Text
  pub role : Text
  pub created_at : ℕ

-- items. The status is a text: the column's CHECK admits "active" and "complete".
pub record Item : Type 0 where
  pub id : Text
  pub workspace_id : Text
  pub created_by_user_id : Option Text
  pub title : Text
  pub status : Text
  pub version : ℕ
  pub created_at : ℕ
  pub updated_at : ℕ

-- item_events
pub record Change : Type 0 where
  pub id : Text
  pub workspace_id : Text
  pub item_id : Text
  pub action : Text
  pub item_version : ℕ
  pub occurred_at : ℕ

-- idempotency_records. The JSON text of the result is kept as the item that it encodes.
pub record IdempotencyRecord : Type 0 where
  pub key_hash : Text
  pub principal_id : Text
  pub workspace_id : Text
  pub operation : Text
  pub request_hash : Text
  pub result : Item
  pub created_at : ℕ
  pub expires_at : ℕ

-- public_links
pub record LinkRow : Type 0 where
  pub id : Text
  pub workspace_id : Text
  pub item_id : Text
  pub token_hash : Text
  pub created_at : Stamp
  pub expires_at : Stamp
  pub revoked_at : Option Stamp

-- users. An account without a password has none.
pub record UserRow : Type 0 where
  pub id : Text
  pub email : Text
  pub password_hash : Option Text
  pub email_verified_at : Option ℕ
  pub created_at : ℕ

-- workspaces
pub record WorkspaceRow : Type 0 where
  pub id : Text
  pub name : Text
  pub locale : Text
  pub created_at : ℕ

-- sessions. A session without an OIDC provider has the empty text.
pub record SessionRow : Type 0 where
  pub id : Text
  pub user_id : Text
  pub secret_hash : Text
  pub csrf_hash : Text
  pub auth_method : Text
  pub oidc_provider_id : Text
  pub auth_level : ℕ
  pub fresh_at : Option ℕ
  pub created_at : ℕ
  pub expires_at : ℕ
  pub revoked_at : Option ℕ

-- api_tokens. The scopes are one text, with spaces between them.
pub record TokenRow : Type 0 where
  pub id : Text
  pub user_id : Text
  pub workspace_id : Text
  pub name : Text
  pub secret_hash : Text
  pub scopes : Text
  pub created_at : ℕ
  pub expires_at : Option ℕ
  pub last_used_at : Option ℕ
  pub revoked_at : Option ℕ

-- invitations. The role is one of three: the column's CHECK refuses others.
pub record InvitationRow : Type 0 where
  pub id : Text
  pub workspace_id : Text
  pub invited_by_user_id : Text
  pub email : Text
  pub active_email : Option Text
  pub role : Text
  pub secret_hash : Text
  pub created_at : ℕ
  pub expires_at : ℕ
  pub accepted_at : Option ℕ
  pub expired_at : Option ℕ
  pub revoked_at : Option ℕ

-- scim_users
pub record ScimUser : Type 0 where
  pub workspace_id : Text
  pub external_id : Text
  pub user_id : Text
  pub role : Text
  pub active : Bool
  pub version : ℕ
  pub created_at : ℕ
  pub updated_at : ℕ

-- scim_groups
pub record ScimGroup : Type 0 where
  pub workspace_id : Text
  pub role : Text
  pub version : ℕ
  pub created_at : ℕ

-- workspace_notification_preferences
pub record Preference : Type 0 where
  pub workspace_id : Text
  pub user_id : Text
  pub notification_type : Text
  pub enabled : Bool

-- mfa_passkeys
pub record PasskeyRow : Type 0 where
  pub user_id : Text
  pub revoked_at : Option ℕ

-- mfa_recovery_codes
pub record RecoveryRow : Type 0 where
  pub user_id : Text
  pub used_at : Option ℕ

pub data Metadata : Type 0 where
  empty : Metadata
  item_version : ℕ → Metadata
  permanent : ℕ → Metadata
  item : Text → Metadata
  role : Text → Metadata
  roles : Text → Text → Metadata
  previous_role : Text → Metadata
  locale : Text → Metadata
  instance_admin : Metadata
  scope_list : List Text → Metadata
  null_scopes : Metadata

-- audit_events, behind the id that `audit` draws.
pub record AuditEvent : Type 0 where
  pub event_type : Text
  pub actor_user_id : Text
  pub auth_method : Text
  pub workspace_id : Text
  pub target_type : Text
  pub target_id : Text
  pub action : Text
  pub outcome : Text
  pub request_id : Text
  pub source_address : Text
  pub metadata : Metadata
  pub created_at : ℕ

pub record AuditContext : Type 0 where
  pub request_id : Text
  pub source_address : Text

pub record Database : Type 0 where
  pub members : List Member
  pub items : List Item
  pub changes : List Change
  pub idempotency : List IdempotencyRecord
  pub links : List LinkRow
  pub jobs : List JobRow
  pub audits : List (Text × AuditEvent)
  pub users : List UserRow
  pub workspaces : List WorkspaceRow
  pub sessions : List SessionRow
  pub api_tokens : List TokenRow
  pub scim_users : List ScimUser
  pub scim_groups : List ScimGroup
  pub preferences : List Preference
  pub instance_admins : List Text
  pub bootstrapped : Option ℕ
  pub mfa_totp : List Text
  pub mfa_passkeys : List PasskeyRow
  pub mfa_recovery_codes : List RecoveryRow
  pub invitations : List InvitationRow

abbrev pub empty_database : Database
empty_database = record {
  members = [];
  items = [];
  changes = [];
  idempotency = [];
  links = [];
  jobs = [];
  audits = [];
  users = [];
  workspaces = [];
  sessions = [];
  api_tokens = [];
  scim_users = [];
  scim_groups = [];
  preferences = [];
  instance_admins = [];
  bootstrapped = none;
  mfa_totp = [];
  mfa_passkeys = [];
  mfa_recovery_codes = [];
  invitations = [];
}
