-- ===== src/Items/Changes.antt =====
-- internal/items/events.go: the change feed of a workspace, which keeps the newest 1,000 changes.
use Prim.Native.Nat.{◌-◌}
use dynamis_code_apps_templa.Prelude.{
  ℕ, Bool, ◌&&◌, ◌||◌, not, List, [], ◌∷◌, ◌++◌, Text, ltb, ◌==◌, text_eq, text_leb, any, filter,
  take, if◌then◌else◌,
}
use dynamis_code_apps_templa.Schema.{Change}
use dynamis_code_apps_templa.Exec.{
  database_failure, ok, err, Exec, ◌>>=◌, ◌>>◌, statement, execute, fresh,
}

abbrev pub maximum_retained_changes : ℕ
maximum_retained_changes = 1000

-- ORDER BY occurred_at DESC, id DESC
abbrev newer : Change → Change → Bool
newer a b =
    ltb b.occurred_at a.occurred_at || (a.occurred_at == b.occurred_at && text_leb b.id a.id)

insert_change : Change → List Change → List Change
insert_change c [] = c ∷ []
insert_change c (d ∷ ds) =
    let rest = insert_change c ds in if newer c d then c ∷ d ∷ ds else d ∷ rest

newest_first : List Change → List Change
unfolding insert_change
newest_first [] = []
newest_first (c ∷ cs) = insert_change c (newest_first cs)

abbrev pub in_workspace : Text → Change → Bool
in_workspace workspace_id c = text_eq c.workspace_id workspace_id

-- The changes of a workspace that the DELETE of `recordChange` leaves: the 999 newest.
retained : Text → List Change → List Change
unfolding newest_first
retained workspace_id changes =
    take (maximum_retained_changes - 1) (newest_first (filter (in_workspace workspace_id) changes))

unfoldable pub trim_changes : Text → List Change → List Change
unfolding retained
trim_changes workspace_id changes =
    filter
      (λ c.
        not (in_workspace workspace_id c)
        || any (λ d. text_eq d.id c.id) (retained workspace_id changes))
      changes

-- INSERT INTO item_events, whose id is a primary key.
unfoldable pub insert_event : Change → Exec (Unit {0})
unfolding statement
insert_event c = statement (λ db.
    if any (λ d. text_eq d.id c.id) db.changes
    then (err database_failure, db)
    else (ok tt, record db { changes = db.changes ++ c ∷ [] }))

-- `recordChange`.
unfoldable pub record_change : Text → Text → Text → ℕ → ℕ → Exec (Unit {0})
unfolding trim_changes execute fresh insert_event
record_change workspace_id item_id action version now = do
  execute (λ db. (record db { changes = trim_changes workspace_id db.changes }, 0))
  event_id ← fresh
  insert_event (record {
    id = event_id;
    workspace_id = workspace_id;
    item_id = item_id;
    action = action;
    item_version = version;
    occurred_at = now;
  })
