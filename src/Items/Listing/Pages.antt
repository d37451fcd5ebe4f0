-- ===== src/Items/Listing/Pages.antt =====
-- internal/items/service.go: following the cursors of `List` from page to page.
use mathlib.Core.Option
use dynamis_code_apps_templa.Prelude.{
  ℕ, zero, suc, ◌≡◌, refl, sym, ap, ◌∙◌, ◌≤◌, ◌<◌, Option, none, some, List, [], ◌∷◌, ◌++◌, Text,
  length, take, filter, ltb, is_nil, UniqueBy, text_key, arith, if◌then◌else◌,
}
use dynamis_code_apps_templa.Prelude.Sort.{sort, Distinct-filter, filter-sort, filter-and}
use dynamis_code_apps_templa.Schema.{Item}
use dynamis_code_apps_templa.Exec.{Result, ok, err, World, transact, close, begun, statement, query}
use dynamis_code_apps_templa.Identity.{Principal, permit, authorize, authorize_principal}
use dynamis_code_apps_templa.Identity.Policy.{resources_read}
use dynamis_code_apps_templa.Items.Listing.{
  Library, ListInput, Page, Cursor, list, list_checked, list_at, checked, decode_cursor, page_rows,
  page_of, get_elem?, selects, past, in_order,
}
use dynamis_code_apps_templa.Items.Listing.Order.{in_order_total, in_order_trans, items-Distinct}

-- A database that refuses no statement.
abbrev pub calm : World → World
calm w = record w { faults = [] }

-- What a client does with a page: it asks for the next one, if there is one.
abbrev pub follow : (Text → World → Option (List Item)) → Result Page → World → Option (List Item)
follow ask (err e) w = none
follow ask (ok page) w =
    if is_nil page.next_cursor
    then some page.items
    else Option.map (λ rest. page.items ++ rest) (ask page.next_cursor w)

-- A client that follows the cursors for n pages at most: the items of all pages, or none when a page
-- fails or pages are left.
unfoldable pub walk : Library → Principal → Text → ListInput → ℕ → World → Option (List Item)
walk lib actor workspace_id input zero w = none
walk lib actor workspace_id input (suc n) w =
    let (r, w') = list lib actor workspace_id input w in
    follow (λ t v. walk lib actor workspace_id (record input { cursor = t }) n v) r w'

-- The items that a listing selects, in its order.
abbrev pub selected : Library → Text → ListInput → List Item → List Item
selected lib workspace_id input items =
    sort (in_order input.sort) (filter (selects lib workspace_id input) items)

pub permit-calm :
    (actor : Principal) (workspace_id permission : Text) (w : World)
    → (permit actor workspace_id permission (calm w)).1 ≡ calm w
unfolding permit authorize_principal authorize query statement
permit-calm actor workspace_id permission w = ground arith

pub page_rows-selected :
    (lib : Library) (workspace_id : Text) (input : ListInput) (size : ℕ) (position : Option Cursor)
    (items : List Item)
    → UniqueBy (λ i. i.id) items
    → page_rows lib workspace_id input size position items
      ≡ take (suc size) (filter (past input.sort position) (selected lib workspace_id input items))
unfolding page_rows
page_rows-selected lib workspace_id input size position items unique =
    let order = in_order input.sort in
    let these = selects lib workspace_id input in
    let distinct = Distinct-filter order these items (items-Distinct input.sort items unique) in
    ap (take (suc size)) (
      ap (sort order) (filter-and these (past input.sort position) items)
      ∙ sym (
          filter-sort order (in_order_total input.sort) (in_order_trans input.sort)
            (past input.sort position) (filter these items) distinct))

-- A list cut behind its element n.
pub record Cut (n : ℕ) (xs : List Item) : Type 0 where
  pub front : List Item
  pub last : Item
  pub rest : List Item
  pub whole : xs ≡ front ++ last ∷ rest
  pub kept : take (suc n) xs ≡ front ++ last ∷ []
  pub found : get_elem? (take (suc (suc n)) xs) n ≡ some last

pub cut : (n : ℕ) (xs : List Item) → n < length xs → Cut n xs
cut n [] h = absurd (omega arith)
cut zero (x ∷ xs) h = record {
  front = [];
  last = x;
  rest = xs;
  whole = refl;
  kept = refl;
  found = refl;
}
cut (suc n) (x ∷ xs) h =
    let c = cut n xs (omega arith) in
    record {
      front = x ∷ c.front;
      last = c.last;
      rest = c.rest;
      whole = ap (λ l. x ∷ l) c.whole;
      kept = ap (λ l. x ∷ l) c.kept;
      found = c.found;
    }

pub ltb-take : (n : ℕ) (xs : List Item) → ltb n (length (take (suc n) xs)) ≡ ltb n (length xs)
ltb-take zero [] = refl
ltb-take zero (x ∷ xs) = ground arith
ltb-take (suc n) [] = refl
ltb-take (suc n) (x ∷ xs) = ground (arith, ltb-take n xs)

pub take-whole : (n : ℕ) (xs : List Item) → length xs ≤ n → take n xs ≡ xs
take-whole zero [] h = refl
take-whole zero (x ∷ xs) h = absurd (omega arith)
take-whole (suc n) [] h = refl
take-whole (suc n) (x ∷ xs) h = ap (λ l. x ∷ l) (take-whole n xs (omega arith))

-- A page in a database that refuses nothing.
pub list_run :
    (lib : Library) (actor : Principal) (workspace_id : Text) (input trimmed : ListInput) (size : ℕ)
    (position : Option Cursor) (w : World)
    → checked input ≡ some (trimmed, size)
    → decode_cursor lib trimmed.cursor trimmed ≡ ok position
    → (permit actor workspace_id resources_read (calm w)).0 ≡ ok tt
    → list lib actor workspace_id input (calm w) ≡ (
      page_of lib trimmed size (page_rows lib workspace_id trimmed size position w.db.items),
      calm w,
    )
unfolding list list_checked list_at transact close begun statement query
list_run lib actor workspace_id input trimmed size position w fits decoded granted =
    ground (arith, permit-calm actor workspace_id resources_read w)

pub take-take : (n : ℕ) (xs : List Item) → take n (take (suc n) xs) ≡ take n xs
take-take zero xs = refl
take-take (suc n) [] = refl
take-take (suc n) (x ∷ xs) = ap (λ l. x ∷ l) (take-take n xs)
