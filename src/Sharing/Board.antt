-- ===== src/Sharing/Board.antt =====
-- What a public link promises: the abstract view of the table of links.
--
-- Behind the hash of a token stands a share or nothing. A share is live until it is withdrawn, and
-- shows its item until its time is over.
use mathlib.Core.Option
use dynamis_code_apps_templa.Prelude.{
  ℕ, ◌≡◌, refl, Bool, false, ◌&&◌, Option, none, some, List, [], ◌∷◌, ◌++◌, Text, arith, ltb,
  text_eq, text_eq_iff, any, find, is_none, update_where, if◌then◌else◌,
}
use dynamis_code_apps_templa.Clock.{parse_stamp}
use dynamis_code_apps_templa.Schema.{Item, LinkRow, Database}
use dynamis_code_apps_templa.Items.{is_item}
use dynamis_code_apps_templa.Sharing.{PublicItem, clashes, is_revocable, revoked, joined}

pub record Share : Type 0 where
  pub link_id : Text
  pub workspace_id : Text
  pub item_id : Text
  pub until : Option ℕ
  pub live : Bool
  pub shown : PublicItem

abbrev pub share : LinkRow × Item → Share
share (l, i) = record {
  link_id = l.id;
  workspace_id = l.workspace_id;
  item_id = l.item_id;
  until = parse_stamp l.expires_at;
  live = is_none l.revoked_at;
  shown = record { title = i.title; status = i.status };
}

-- The share behind the hash of a token.
unfoldable pub board : Database → Text → Option Share
board db hash = Option.map share (joined db.items hash db.links)

abbrev before_end : ℕ → Option ℕ → Bool
before_end now none = false
before_end now (some end) = ltb now end

-- What the holder of a token may see at a time.
unfoldable pub show : ℕ → Option Share → Option PublicItem
show now none = none
show now (some sh) = if sh.live && before_end now sh.until then some sh.shown else none

-- A revocation ends the share of one link.
unfoldable pub withdraw : Text → Text → Text → Share → Share
withdraw workspace_id item_id link_id sh =
    if text_eq sh.link_id link_id
      && text_eq sh.workspace_id workspace_id
      && text_eq sh.item_id item_id
    then record sh { live = false }
    else sh

joined_row : List Item → LinkRow → Option (LinkRow × Item)
joined_row items l = elim (find (is_item l.workspace_id l.item_id) items) [
  | none ↦ none
  | some i ↦ some (l, i)
]

pub joined-append :
    (items : List Item) (hash : Text) (links : List LinkRow) (new : LinkRow) (i : Item)
    → any (clashes new) links ≡ false
    → find (is_item new.workspace_id new.item_id) items ≡ some i
    → joined items hash (links ++ new ∷ [])
      ≡ (if text_eq new.token_hash hash then some (new, i) else joined items hash links)
unfolding joined
joined-append items hash [] new i unique found = ground arith
joined-append items hash (l ∷ ls) new i unique found = ground (
  arith,
  joined-append items hash ls new i,
  text_eq_iff l.token_hash hash,
  text_eq_iff new.token_hash hash,
  text_eq_iff l.token_hash new.token_hash,
)

pub joined-update_where :
    (items : List Item) (hash workspace_id item_id link_id : Text) (now : ℕ) (links : List LinkRow)
    → Option.map share (
        joined items hash
          (update_where (is_revocable workspace_id item_id link_id) (revoked now) links))
      ≡ Option.map
          (withdraw workspace_id item_id link_id)
          (Option.map share (joined items hash links))
unfolding joined withdraw
joined-update_where items hash workspace_id item_id link_id now [] = refl
joined-update_where items hash workspace_id item_id link_id now (l ∷ ls) =
    ground (arith, joined-update_where items hash workspace_id item_id link_id now ls)
