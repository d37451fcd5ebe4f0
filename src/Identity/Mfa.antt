-- ===== src/Identity/Mfa.antt =====
-- internal/identity/mfa.go: the second factors that an account has, and whether it must use one.
use dynamis_code_apps_templa.Prelude.{
  ℕ, ◌==◌, Bool, true, false, ◌&&◌, ◌||◌, not, [], Text, text_eq, count, ltb, is_none,
  if◌then◌else◌,
}
use dynamis_code_apps_templa.Schema.{Member, PasskeyRow, RecoveryRow}
use dynamis_code_apps_templa.Exec.{Exec, pure, ◌>>=◌, query}
use dynamis_code_apps_templa.Identity.Policy.{owner, admin}

abbrev pub auth_level_mfa : ℕ
auth_level_mfa = 2

pub record MfaConfig : Type 0 where
  pub enabled : Bool
  pub require_for_admins : Bool

pub record MfaStatus : Type 0 where
  pub enabled : Bool
  pub totp_enabled : Bool
  pub passkey_count : ℕ
  pub recovery_remain : ℕ

abbrev no_status : MfaStatus
no_status = record { enabled = false; totp_enabled = false; passkey_count = 0; recovery_remain = 0 }

module _ (config : MfaConfig) (user_id : Text) where
  -- `mfaStatusQuery`.
  unfoldable pub mfa_status : Exec MfaStatus
  unfolding query
  mfa_status = if not config.enabled then pure no_status else (do
    totp ← query (λ db. count (λ t. text_eq t user_id) db.mfa_totp)
    passkeys ← query (λ db.
        count (λ (p : PasskeyRow). text_eq p.user_id user_id && is_none p.revoked_at)
          db.mfa_passkeys)
    recovery ← query (λ db.
        count (λ (r : RecoveryRow). text_eq r.user_id user_id && is_none r.used_at)
          db.mfa_recovery_codes)
    pure (record {
      enabled = true;
      totp_enabled = totp == 1;
      passkey_count = passkeys;
      recovery_remain = recovery;
    }))

  abbrev is_privileged : Member → Bool
  is_privileged m = text_eq m.user_id user_id && (text_eq m.role owner || text_eq m.role admin)

  unfoldable pub required_by : Text → MfaStatus → Exec Bool
  unfolding query
  required_by target_role status =
      if not status.totp_enabled && status.passkey_count == 0
      then pure false
      else if text_eq target_role owner || text_eq target_role admin
      then pure true
      else (do admins ← query (λ db. count is_privileged db.members); pure (ltb 0 admins))

  -- `mfaRequiredForRoleQuery`.
  unfoldable pub mfa_required_for_role : Text → Exec Bool
  unfolding mfa_status required_by
  mfa_required_for_role target_role =
      if not config.enabled || not config.require_for_admins
      then pure false
      else mfa_status >>= required_by target_role

  -- `MFARequired`.
  unfoldable pub mfa_required : Exec Bool
  unfolding mfa_required_for_role
  mfa_required = mfa_required_for_role []
