-- ===== src/Identity/Audit.antt =====
-- internal/identity/service.go: an audit event is added to the trail, and to nothing else.
use dynamis_code_apps_templa.Prelude.{◌≡◌, [], ◌∷◌, ◌++◌, Text, arith, inl, inr}
use dynamis_code_apps_templa.Schema.{AuditEvent}
use dynamis_code_apps_templa.Exec.{Result-cases, fresh, ok, World}
use dynamis_code_apps_templa.Identity.{audit}

pub audit-db :
    (event : AuditEvent) (w : World) → record (audit event w).1.db { audits = w.db.audits } ≡ w.db
unfolding audit
audit-db event w = ground arith

pub audit-now : (event : AuditEvent) (w : World) → (audit event w).1.now ≡ w.now
unfolding audit
audit-now event w = ground arith

-- An event that is recorded stands at the end of the trail.
pub audit-ok :
    (event : AuditEvent) (w : World) {u : Unit {0}}
    → (audit event w).0 ≡ ok u
    → (event_id : Text) × ((audit event w).1.db.audits ≡ w.db.audits ++ (event_id, event) ∷ [])
unfolding audit
audit-ok event w h = elim (Result-cases (fresh w).0) [
  | inl (event_id, drawn) ↦ (event_id, ground arith)
  | inr (e, failed) ↦ absurd (ground arith)
]
