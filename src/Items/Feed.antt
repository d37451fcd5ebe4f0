-- ===== src/Items/Feed.antt =====
-- internal/items/events.go: `Changes`, the pages of a workspace's change feed. Each statement reads the
-- database by itself: there is no transaction. The schema version of a change is 1, always.
pub mod Later
pub mod Complete
mod Tests
use dynamis_code_apps_templa.Prelude.{
  ℕ, Bool, true, false, ◌&&◌, ◌||◌, not, Option, none, some, List, [], ◌∷◌, Text, ascii, ltb, ◌==◌,
  text_eq, text_leb, filter, find, take, is_nil, if◌then◌else◌,
}
use dynamis_code_apps_templa.Prelude.Int.{ℤ}
use dynamis_code_apps_templa.Prelude.Sort.{sort}
use dynamis_code_apps_templa.Schema.{Change}
use dynamis_code_apps_templa.Exec.{invalid_input, Exec, pure, raise, ◌>>=◌, ◌>>◌, query}
use dynamis_code_apps_templa.Identity.{Principal, permit}
use dynamis_code_apps_templa.Identity.Policy.{resources_read}
use dynamis_code_apps_templa.Items.Changes.{in_workspace}
use dynamis_code_apps_templa.Items.Listing.{page_size, text_lt}

pub record ChangePage : Type 0 where
  pub changes : List Change
  pub next : Text
  pub resync : Bool

abbrev pub change_origin_cursor : Text
change_origin_cursor = ascii "0"

-- ORDER BY occurred_at, id, and both DESC.
unfoldable pub change_leb : Change → Change → Bool
change_leb a b =
    ltb a.occurred_at b.occurred_at || (a.occurred_at == b.occurred_at && text_leb a.id b.id)

abbrev pub change_geb : Change → Change → Bool
change_geb a b = change_leb b a

abbrev first_id : List Change → Text
first_id [] = []
first_id (c ∷ cs) = c.id

-- `latestChangeID`.
unfoldable pub latest_change_id : Text → Exec Text
unfolding query sort change_leb
latest_change_id workspace_id =
    query (λ db. first_id (sort change_geb (filter (in_workspace workspace_id) db.changes)))

abbrev pub is_change : Text → Text → Change → Bool
is_change workspace_id change_id c = in_workspace workspace_id c && text_eq c.id change_id

-- occurred_at > ? OR (occurred_at = ? AND id > ?), behind the change of the cursor; every change is
-- behind the origin.
abbrev pub later_than : Option Change → Change → Bool
later_than none d = true
later_than (some c) d =
    ltb c.occurred_at d.occurred_at || (c.occurred_at == d.occurred_at && text_lt c.id d.id)

unfoldable pub change_rows : Text → ℕ → Option Change → List Change → List Change
unfolding sort change_leb
change_rows workspace_id limit position changes =
    take limit
      (sort change_leb (filter (λ c. in_workspace workspace_id c && later_than position c) changes))

-- The id of the last change, or the cursor that the caller sent.
abbrev pub last_id : Text → List Change → Text
last_id after [] = after
last_id after (c ∷ cs) = last_id c.id cs

unfoldable pub read_changes : Text → Text → ℕ → Option Change → Exec ChangePage
unfolding query change_rows
read_changes workspace_id after limit position = do
  rows ← query (λ db. change_rows workspace_id limit position db.changes)
  pure (record { changes = rows; next = last_id after rows; resync = false })

abbrev pub resync_at : Text → ChangePage
resync_at latest = record {
  changes = [];
  next = if is_nil latest then change_origin_cursor else latest;
  resync = true;
}

unfoldable pub read_behind : Text → Text → ℕ → Text → Option Change → Exec ChangePage
unfolding read_changes
read_behind workspace_id after limit latest none = pure (resync_at latest)
read_behind workspace_id after limit latest (some c) =
    read_changes workspace_id after limit (some c)

unfoldable pub read_after : Text → Text → ℕ → Text → Exec ChangePage
unfolding read_changes read_behind query
read_after workspace_id after limit latest =
    if is_nil after
    then pure (resync_at latest)
    else if text_eq after change_origin_cursor
    then read_changes workspace_id after limit none
    else query (λ db. find (is_change workspace_id after) db.changes)
      >>= read_behind workspace_id after limit latest

abbrev pub changes_sized : Principal → Text → Text → Option ℕ → Exec ChangePage
changes_sized actor workspace_id after none = raise invalid_input
changes_sized actor workspace_id after (some limit) = do
  permit actor workspace_id resources_read
  latest ← latest_change_id workspace_id
  read_after workspace_id after limit latest

-- `Changes`.
unfoldable pub changes : Principal → Text → Text → ℤ → Exec ChangePage
unfolding permit latest_change_id read_after
changes actor workspace_id after limit = changes_sized actor workspace_id after (page_size limit)
