-- ===== src/Items/Frame.antt =====
-- internal/items: what the steps of the item transactions leave alone.
use dynamis_code_apps_templa.Prelude.{ℕ, ◌≡◌, some, Text, arith, find, inl, inr, Option-cases}
use dynamis_code_apps_templa.Schema.{Item, Database, AuditContext, AuditEvent, Metadata}
use dynamis_code_apps_templa.Exec.{ok, World}
use dynamis_code_apps_templa.Identity.{Principal, audit}
use dynamis_code_apps_templa.Items.{Service, Publisher, publish, audit_item, get_row, is_item}
use dynamis_code_apps_templa.Items.Changes.{record_change}

pub get_row-ok :
    (workspace_id item_id : Text) (w : World) {item : Item}
    → (get_row workspace_id item_id w).0 ≡ ok item
    → (find (is_item workspace_id item_id) w.db.items ≡ some item)
      × ((get_row workspace_id item_id w).1.db ≡ w.db)
unfolding get_row
get_row-ok workspace_id item_id w h = (ground arith, ground arith)

-- Two databases with the same items and the same idempotency records.
abbrev pub SameItems : Database → Database → Type 0
SameItems a b = (a.items ≡ b.items) × (a.idempotency ≡ b.idempotency)

-- The publisher writes to other tables.
unfoldable pub KeepsItems : Service → Type 0
KeepsItems s =
    (send : Publisher)
    → s.publisher ≡ some send
    → (workspace_id event_type : Text) (item : Item) (now : ℕ) (w : World)
    → SameItems (send workspace_id event_type item now w).1.db w.db

pub record_change-SameItems :
    (workspace_id item_id action : Text) (version now : ℕ) (w : World)
    → SameItems (record_change workspace_id item_id action version now w).1.db w.db
unfolding record_change
record_change-SameItems workspace_id item_id action version now w = (ground arith, ground arith)

audit-SameItems : (event : AuditEvent) (w : World) → SameItems (audit event w).1.db w.db
unfolding audit
audit-SameItems event w = (ground arith, ground arith)

pub audit_item-SameItems :
    (event_type action : Text) (actor : Principal) (workspace_id item_id : Text)
    (metadata : Metadata) (context : AuditContext) (now : ℕ) (w : World)
    → SameItems
        (audit_item event_type action actor workspace_id item_id metadata context now w).1.db
        w.db
unfolding audit_item
audit_item-SameItems event_type action actor workspace_id item_id metadata context now w =
    audit-SameItems _ w

pub publish-SameItems :
    (s : Service)
    → KeepsItems s
    → (workspace_id event_type : Text) (item : Item) (now : ℕ) (w : World)
    → SameItems (publish s workspace_id event_type item now w).1.db w.db
unfolding publish KeepsItems
publish-SameItems s keeps workspace_id event_type item now w = elim (Option-cases s.publisher) [
  | inl silent ↦ (ground arith, ground arith)
  | inr (send, e) ↦ let kept = keeps send e workspace_id event_type item now w in rw e kept
]
