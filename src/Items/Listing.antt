-- ===== src/Items/Listing.antt =====
-- internal/items/service.go: `List`, the pages of a workspace's items and the cursors between them.
--
-- encoding/json, encoding/base64 and SQL's LIKE are parameters (`Library`). A cursor's `createdAt`
-- is kept as the text's seconds and fraction; `unmarshal` answers none for a text that has no date and
-- time of day in UTC too, which `decodeCursor` refuses with the same error.
pub mod Order
pub mod Laws
pub mod Pages
pub mod Walk
mod Tests
use Prim.Native.Nat.{◌-◌}
use dynamis_code_apps_templa.Prelude.{
  ℕ, zero, suc, Bool, true, false, ◌&&◌, ◌||◌, not, Option, none, some, List, [], ◌∷◌, Text, ascii,
  length, leb, ltb, ◌==◌, text_eq, text_leb, filter, take, is_nil, if◌then◌else◌,
}
use dynamis_code_apps_templa.Prelude.Int.{ℤ, pos, negsuc}
use dynamis_code_apps_templa.Prelude.Sort.{sort}
use dynamis_code_apps_templa.Clock.{Stamp, timestamp, parse_stamp, stamp_leb}
use dynamis_code_apps_templa.Schema.{Item}
use dynamis_code_apps_templa.Exec.{
  invalid_input, invalid_cursor, invalid_json, Result, ok, err, Exec, pure, raise, ◌>>=◌, ◌>>◌,
  query, commit, End, transact, lift,
}
use dynamis_code_apps_templa.Identity.{Principal, permit}
use dynamis_code_apps_templa.Identity.Policy.{resources_read}
use dynamis_code_apps_templa.Items.Input.{
  validate_search, valid_cursor_id, valid_status, search_pattern,
}

pub record ListInput : Type 0 where
  pub status : Text
  pub search : Text
  pub sort : Text
  pub limit : ℤ
  pub cursor : Text

pub record Page : Type 0 where
  pub items : List Item
  pub next_cursor : Text

pub record Cursor : Type 0 where
  pub status : Text
  pub search : Text
  pub sort : Text
  pub created_at : Stamp
  pub id : Text

-- json.Marshal and json.Unmarshal of a cursor, base64.RawURLEncoding (strict where it decodes), and
-- `LOWER(title) LIKE LOWER(pattern) ESCAPE '\'`.
pub record Library : Type 0 where
  pub marshal : Cursor → Option Text
  pub unmarshal : Text → Option Cursor
  pub encode : Text → Text
  pub decode : Text → Option Text
  pub like : Text → Text → Bool

abbrev pub ascending : Text
ascending = ascii "created_at"

abbrev pub descending : Text
descending = ascii "-created_at"

abbrev pub maximum_cursor_length : ℕ
maximum_cursor_length = 512

abbrev pub cursor_of : ListInput → Item → Cursor
cursor_of input item = record {
  status = input.status;
  search = input.search;
  sort = input.sort;
  created_at = timestamp item.created_at;
  id = item.id;
}

abbrev pub encoded : Library → Option Text → Result Text
encoded lib none = err invalid_json
encoded lib (some raw) = ok (lib.encode raw)

-- `encodeCursor`.
unfoldable pub encode_cursor : Library → ListInput → Item → Result Text
encode_cursor lib input item = encoded lib (lib.marshal (cursor_of input item))

abbrev belongs : ListInput → Cursor → Bool
belongs input value =
    text_eq value.status input.status
    && text_eq value.search input.search
    && text_eq value.sort input.sort
    && valid_cursor_id value.id

abbrev timed : Cursor → Option ℕ → Result (Option Cursor)
timed value none = err invalid_cursor
timed value (some t) = ok (some value)

abbrev read_cursor : ListInput → Option Cursor → Result (Option Cursor)
read_cursor input none = err invalid_cursor
read_cursor input (some value) =
    if belongs input value then timed value (parse_stamp value.created_at) else err invalid_cursor

abbrev read_raw : Library → ListInput → Option Text → Result (Option Cursor)
read_raw lib input none = err invalid_cursor
read_raw lib input (some raw) =
    if ltb maximum_cursor_length (length raw)
    then err invalid_cursor
    else read_cursor input (lib.unmarshal raw)

-- `decodeCursor`. No cursor is the position before the first item.
unfoldable pub decode_cursor : Library → Text → ListInput → Result (Option Cursor)
decode_cursor lib encoded input =
    if is_nil encoded then ok none else read_raw lib input (lib.decode encoded)

-- The comparisons of texts of time that SQL makes.
abbrev pub stamp_eq : Stamp → Stamp → Bool
stamp_eq a b = a.sec == b.sec && text_eq a.frac b.frac

abbrev pub stamp_ltb : Stamp → Stamp → Bool
stamp_ltb a b = not (stamp_leb b a)

abbrev pub text_lt : Text → Text → Bool
text_lt s t = not (text_leb t s)

-- created_at > ? OR (created_at = ? AND id > ?), with `<` in the descending order.
unfoldable pub beyond : Text → Cursor → Item → Bool
beyond order p i =
    let at = timestamp i.created_at in
    if text_eq order descending
    then stamp_ltb at p.created_at || (stamp_eq at p.created_at && text_lt i.id p.id)
    else stamp_ltb p.created_at at || (stamp_eq at p.created_at && text_lt p.id i.id)

abbrev pub past : Text → Option Cursor → Item → Bool
past order none i = true
past order (some p) i = beyond order p i

-- The conditions that do not depend on the cursor.
unfoldable pub selects : Library → Text → ListInput → Item → Bool
selects lib workspace_id input i =
    text_eq i.workspace_id workspace_id
    && (is_nil input.status || text_eq i.status input.status)
    && (is_nil input.search || lib.like i.title (search_pattern input.search))

-- ORDER BY created_at, id
unfoldable pub item_leb : Item → Item → Bool
item_leb a b = ltb a.created_at b.created_at || (a.created_at == b.created_at && text_leb a.id b.id)

-- … or both DESC.
unfoldable pub in_order : Text → Item → Item → Bool
in_order order a b = if text_eq order descending then item_leb b a else item_leb a b

unfoldable pub page_rows : Library → Text → ListInput → ℕ → Option Cursor → List Item → List Item
unfolding in_order selects beyond item_leb sort
page_rows lib workspace_id input size position items = take (suc size) (
    sort (in_order input.sort)
      (filter (λ i. selects lib workspace_id input i && past input.sort position i) items))

abbrev pub get_elem? : List Item → ℕ → Option Item
get_elem? [] n = none
get_elem? (i ∷ is) zero = some i
get_elem? (i ∷ is) (suc n) = get_elem? is n

abbrev pub with_next : ℕ → List Item → Result Text → Result Page
with_next size rows (err e) = err e
with_next size rows (ok t) = ok (record { items = take size rows; next_cursor = t })

abbrev pub page_to : Library → ListInput → ℕ → List Item → Option Item → Result Page
page_to lib input size rows none = ok (record { items = rows; next_cursor = [] })
page_to lib input size rows (some last) = with_next size rows (encode_cursor lib input last)

-- One row more than the page holds says that there is a next page; `last` is items[limit - 1].
unfoldable pub page_of : Library → ListInput → ℕ → List Item → Result Page
unfolding encode_cursor
page_of lib input size rows =
    page_to lib input size rows (if ltb size (length rows) then get_elem? rows (size - 1) else none)

-- The limit, where it lies between 1 and 100.
abbrev pub page_size : ℤ → Option ℕ
page_size (negsuc n) = none
page_size (pos n) = if leb 1 n && leb n 100 then some n else none

abbrev pub has_options : ListInput → Bool
has_options input =
    (is_nil input.status || valid_status input.status)
    && (text_eq input.sort ascending || text_eq input.sort descending)

abbrev sized : ListInput → Option ℕ → Option (ListInput × ℕ)
sized input none = none
sized input (some size) = if has_options input then some (input, size) else none

-- The input with its search trimmed, and the size of a page, or none for ErrInvalidInput.
unfoldable pub checked : ListInput → Option (ListInput × ℕ)
unfolding validate_search
checked input = elim (validate_search input.search) [
  | none ↦ none
  | some search ↦ sized (record input { search = search }) (page_size input.limit)
]

unfoldable pub list_at :
    Library → Principal → Text → ListInput → ℕ → Option Cursor → Exec (End Page)
unfolding permit query page_rows page_of
list_at lib actor workspace_id input size position = do
  permit actor workspace_id resources_read
  rows ← query (λ db. page_rows lib workspace_id input size position db.items)
  page ← lift (page_of lib input size rows)
  pure (commit page)

unfoldable pub list_checked : Library → Principal → Text → Option (ListInput × ℕ) → Exec Page
unfolding decode_cursor list_at transact
list_checked lib actor workspace_id none = raise invalid_input
list_checked lib actor workspace_id (some (input, size)) =
    elim (decode_cursor lib input.cursor input) [
      | err e ↦ raise e
      | ok position ↦ transact (list_at lib actor workspace_id input size position)
    ]

-- `List`.
unfoldable pub list : Library → Principal → Text → ListInput → Exec Page
unfolding checked list_checked
list lib actor workspace_id input = list_checked lib actor workspace_id (checked input)
