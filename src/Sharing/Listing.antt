-- ===== src/Sharing/Listing.antt =====
-- internal/sharing/service.go: `List`.
use dynamis_code_apps_templa.Prelude.{
  ℕ, Bool, ◌&&◌, not, none, some, List, [], ◌∷◌, Text, text_eq, text_leb, filter, is_none,
  if◌then◌else◌, lex,
}
use dynamis_code_apps_templa.Clock.{Stamp, stamp, stamp_leb, parse_stamp}
use dynamis_code_apps_templa.Schema.{LinkRow}
use dynamis_code_apps_templa.Exec.{
  bad_timestamp, Result, ok, err, Exec, pure, ◌>>=◌, ◌>>◌, query, clock, lift,
}
use dynamis_code_apps_templa.Identity.{Principal, permit}
use dynamis_code_apps_templa.Identity.Policy.{resources_write}
use dynamis_code_apps_templa.Sharing.{Link}

-- revoked_at IS NULL AND expires_at > ?, on texts.
abbrev pub is_listed : Text → ℕ → LinkRow → Bool
is_listed workspace_id now l =
    text_eq l.workspace_id workspace_id
    && is_none l.revoked_at
    && not (stamp_leb l.expires_at (stamp now))

-- ORDER BY created_at, id
unfoldable pub link_leb : LinkRow → LinkRow → Bool
link_leb l m =
    lex (stamp_leb l.created_at m.created_at) (stamp_leb m.created_at l.created_at)
      (text_leb l.id m.id)

unfoldable pub insert_sorted : LinkRow → List LinkRow → List LinkRow
insert_sorted l [] = l ∷ []
insert_sorted l (m ∷ ms) =
    let rest = insert_sorted l ms in if link_leb l m then l ∷ m ∷ ms else m ∷ rest

unfoldable pub sort_links : List LinkRow → List LinkRow
unfolding insert_sorted link_leb
sort_links [] = []
sort_links (l ∷ ls) = insert_sorted l (sort_links ls)

parsed : Stamp → Result ℕ
unfolding parse_stamp
parsed s = elim (parse_stamp s) [ none ↦ err bad_timestamp | some t ↦ ok t ]

-- The row of a list: no token is known any more.
unfoldable pub scan_link : LinkRow → Exec Link
unfolding parsed
scan_link l = do
  created_at ← lift (parsed l.created_at)
  expires_at ← lift (parsed l.expires_at)
  pure (record {
    id = l.id;
    workspace_id = l.workspace_id;
    item_id = l.item_id;
    created_at = created_at;
    expires_at = expires_at;
    token = [];
  })

unfoldable pub scan_links : List LinkRow → Exec (List Link)
unfolding scan_link
scan_links [] = pure []
scan_links (l ∷ ls) = do link ← scan_link l; links ← scan_links ls; pure (link ∷ links)

-- `List`.
unfoldable pub list : Principal → Text → Exec (List Link)
unfolding permit query sort_links scan_links
list actor workspace_id = do
  permit actor workspace_id resources_write
  now ← clock
  rows ← query (λ db. sort_links (filter (is_listed workspace_id now) db.links))
  scan_links rows
