-- ===== src/Items/Listing/Walk.antt =====
-- internal/items/service.go: the pages of a listing together.
use mathlib.Core.Option
use Prim.Native.Nat.{◌-◌}
use mathlib.Core.List.{append_assoc}
use dynamis_code_apps_templa.Prelude.{
  ℕ, zero, suc, ◌+◌, ◌≡◌, refl, sym, ap, subst, ◌∙◌, ◌≤◌, ◌<◌, inl, inr, true, false, Option, none,
  some, List, [], ◌∷◌, ◌++◌, Text, length, length-append, take, filter, ltb, is_nil, All, UniqueBy,
  text_key, arith, Bool-cases, if◌then◌else◌, length-filter-le,
}
use dynamis_code_apps_templa.Prelude.Sort.{
  Strict, Distinct-filter, sort-Strict, filter-behind, filter-same, All-filter, All-sort,
  length-sort,
}
use dynamis_code_apps_templa.Schema.{Item}
use dynamis_code_apps_templa.Exec.{Result, ok, World}
use dynamis_code_apps_templa.Identity.{Principal, permit}
use dynamis_code_apps_templa.Identity.Policy.{resources_read}
use dynamis_code_apps_templa.Items.Input.{valid_cursor_id}
use dynamis_code_apps_templa.Items.Listing.{
  Library, ListInput, Page, Cursor, list, checked, decode_cursor, encode_cursor, cursor_of,
  page_rows, page_of, page_to, with_next, get_elem?, selects, past, in_order,
}
use dynamis_code_apps_templa.Items.Listing.Order.{
  in_order_total, in_order_trans, items-Distinct, beyond-in_order,
}
use dynamis_code_apps_templa.Items.Listing.Laws.{IsLibrary, checked-IsChecked, decode-encode_cursor}
use dynamis_code_apps_templa.Items.Listing.Pages.{
  calm, walk, follow, selected, page_rows-selected, Cut, cut, ltb-take, take-take, take-whole,
  list_run,
}

-- The last page: the rows fit.
page_of-last :
    (lib : Library) (input : ListInput) (size : ℕ) (rows : List Item)
    → length rows ≤ size
    → page_of lib input size (take (suc size) rows) ≡ ok (record { items = rows; next_cursor = [] })
unfolding page_of
page_of-last lib input size rows h =
    let whole = take-whole (suc size) rows (omega arith) in ground arith

-- A page with another one behind it.
page_of-more :
    (lib : Library) (input : ListInput) (n : ℕ) (rows : List Item) (c : Cut n rows) {t : Text}
    → suc n < length rows
    → encode_cursor lib input c.last ≡ ok t
    → page_of lib input (suc n) (take (suc (suc n)) rows)
      ≡ ok (record { items = c.front ++ c.last ∷ []; next_cursor = t })
unfolding page_of
page_of-more lib input n rows c {t} h written =
    let longer = ltb-take (suc n) rows in
    let cut_short : ltb (suc n) (length (take (suc (suc n)) rows)) ≡ true = ground arith in
    let items : take (suc n) (take (suc (suc n)) rows) ≡ c.front ++ c.last ∷ [] =
      take-take (suc n) rows ∙ c.kept in
    let here : suc n - 1 ≡ n = omega arith in
    let chosen : (if ltb (suc n) (length (take (suc (suc n)) rows))
          then get_elem? (take (suc (suc n)) rows) (suc n - 1)
          else none)
        ≡ some c.last =
      rw (cut_short, here) c.found in
    ap (page_to lib input (suc n) (take (suc (suc n)) rows)) chosen
    ∙ ap (with_next (suc n) (take (suc (suc n)) rows)) written
    ∙ ap (λ l. ok (record { items = l; next_cursor = t })) items

-- The items behind the last item of a page.
past-rest :
    (order : Text) (input : ListInput) (front : List Item) (c : Item) (rest : List Item)
    → Strict (in_order order) (front ++ c ∷ rest)
    → filter (past order (some (cursor_of input c))) (front ++ c ∷ rest) ≡ rest
past-rest order input front c rest strict =
    filter-same _ _ (front ++ c ∷ rest)
      (λ i. beyond-in_order order (cursor_of input c) c i refl refl)
    ∙ filter-behind (in_order order) (in_order_total order) (in_order_trans order) front c rest
        strict

-- One page of a walk.
walk-last :
    (lib : Library) (actor : Principal) (workspace_id : Text) (input : ListInput) (n : ℕ)
    (w : World) {page : Page}
    → list lib actor workspace_id input w ≡ (ok page, w)
    → page.next_cursor ≡ []
    → walk lib actor workspace_id input (suc n) w ≡ some page.items
unfolding walk
walk-last lib actor workspace_id input n w {page} h k =
    let ask =
      λ (t : Text) (v : World). walk lib actor workspace_id (record input { cursor = t }) n v in
    ap (λ (p : Result Page × World). follow ask p.0 p.1) h ∙ ground arith

walk-more :
    (lib : Library) (actor : Principal) (workspace_id : Text) (input : ListInput) (n : ℕ)
    (w : World) {items : List Item} {t : Text}
    → list lib actor workspace_id input w ≡ (ok (record { items = items; next_cursor = t }), w)
    → is_nil t ≡ false
    → walk lib actor workspace_id input (suc n) w
      ≡ Option.map
          (λ rest. items ++ rest)
          (walk lib actor workspace_id (record input { cursor = t }) n w)
unfolding walk
walk-more lib actor workspace_id input n w {items} {t} h k =
    let ask =
      λ (t : Text) (v : World). walk lib actor workspace_id (record input { cursor = t }) n v in
    ap (λ (p : Result Page × World). follow ask p.0 p.1) h ∙ rw k refl

All-middle :
    (P : Item → Type 0) (front : List Item) (c : Item) (rest : List Item)
    → All P (front ++ c ∷ rest)
    → P c × All P rest
All-middle P [] c rest h = h
All-middle P (i ∷ front) c rest h = All-middle P front c rest h.1

abbrev HasId : Item → Type 0
HasId i = valid_cursor_id i.id ≡ true

-- A walk, from a position of the listing on.
module _ (lib : Library) (laws : IsLibrary lib) (actor : Principal) (workspace_id : Text)
    (input trimmed : ListInput) (n : ℕ) (w : World) (fits : checked input ≡ some (trimmed, suc n))
    (short : length trimmed.search ≤ 62)
    (granted : (permit actor workspace_id resources_read (calm w)).0 ≡ ok tt)
    (unique : UniqueBy (λ i. i.id) w.db.items) where
  abbrev at : Text → ListInput
  at t = record input { cursor = t }

  abbrev all : List Item
  all = selected lib workspace_id trimmed w.db.items

  all-Strict : Strict (in_order trimmed.sort) all
  all-Strict =
      sort-Strict (in_order trimmed.sort) (in_order_total trimmed.sort)
        (in_order_trans trimmed.sort) _
        (Distinct-filter (in_order trimmed.sort) (selects lib workspace_id trimmed) w.db.items
          (items-Distinct trimmed.sort w.db.items unique))

  -- Neither the rows of a page nor its next cursor depend on the cursor of the input.
  decode_cursor-with :
      (t : Text) (position : Option Cursor)
      → decode_cursor lib t trimmed ≡ ok position
      → decode_cursor lib t (record trimmed { cursor = t }) ≡ ok position
  unfolding decode_cursor
  decode_cursor-with t position h = h

  page_of-with :
      (t : Text) (size : ℕ) (rows : List Item)
      → page_of lib (record trimmed { cursor = t }) size rows ≡ page_of lib trimmed size rows
  unfolding page_of encode_cursor
  page_of-with t size rows = refl

  page_rows-with :
      (t : Text) (position : Option Cursor)
      → page_rows lib workspace_id (record trimmed { cursor = t }) (suc n) position w.db.items
        ≡ page_rows lib workspace_id trimmed (suc n) position w.db.items
  unfolding page_rows selects
  page_rows-with t position = refl

  page_at :
      (t : Text) (position : Option Cursor) (post : List Item)
      → decode_cursor lib t trimmed ≡ ok position
      → filter (past trimmed.sort position) all ≡ post
      → list lib actor workspace_id (at t) (calm w)
        ≡ (page_of lib trimmed (suc n) (take (suc (suc n)) post), calm w)
  page_at t position post decoded behind =
      let h = checked-IsChecked input {trimmed = trimmed} {size = suc n} fits in
      list_run lib actor workspace_id (at t) (record trimmed { cursor = t }) (suc n) position w
        (h.again t) (decode_cursor-with t position decoded) granted
      ∙ ap (λ r. (r, calm w))
          (page_of-with t (suc n) _
            ∙ ap (page_of lib trimmed (suc n)) (
                page_rows-with t position
                ∙ page_rows-selected lib workspace_id trimmed (suc n) position w.db.items unique
                ∙ ap (take (suc (suc n))) behind))

  walk_from :
      (fuel : ℕ) (t : Text) (position : Option Cursor) (pre post : List Item)
      → decode_cursor lib t trimmed ≡ ok position
      → all ≡ pre ++ post
      → filter (past trimmed.sort position) all ≡ post
      → All HasId post
      → length post < fuel
      → walk lib actor workspace_id (at t) fuel (calm w) ≡ some post
  walk_from zero t position pre post decoded whole behind ids enough = absurd (omega arith)
  walk_from (suc fuel) t position pre post decoded whole behind ids enough =
      elim (Bool-cases (ltb (suc n) (length post))) [
        | inr all_here ↦
            walk-last lib actor workspace_id (at t) fuel (calm w)
              (page_at t position post decoded behind
                ∙ ap (λ r. (r, calm w)) (page_of-last lib trimmed (suc n) post (ground arith)))
              refl
        | inl longer ↦
            let more : suc n < length post = ground arith in
            let c = cut n post (omega arith) in
            let (good, good_rest) =
              All-middle HasId c.front c.last c.rest (subst (All HasId) c.whole ids) in
            let (t', written, shown, back) =
              decode-encode_cursor lib input trimmed (suc n) c.last laws fits short good in
            let first =
              walk-more lib actor workspace_id (at t) fuel (calm w)
                (page_at t position post decoded behind
                  ∙ ap (λ r. (r, calm w)) (page_of-more lib trimmed n post c more written))
                shown in
            let split : all ≡ (pre ++ c.front) ++ c.last ∷ c.rest =
              whole ∙ ap (λ l. pre ++ l) c.whole ∙ sym (append_assoc pre c.front _) in
            let behind' : filter (past trimmed.sort (some (cursor_of trimmed c.last))) all
                ≡ c.rest =
              subst (λ l. filter (past trimmed.sort (some (cursor_of trimmed c.last))) l ≡ c.rest)
                (sym split)
                (past-rest trimmed.sort trimmed (pre ++ c.front) c.last c.rest
                  (subst (Strict (in_order trimmed.sort)) split all-Strict)) in
            let shorter : length post ≡ length c.front + suc (length c.rest) =
              ap length c.whole ∙ length-append c.front (c.last ∷ c.rest) in
            let others =
              walk_from fuel t' (some (cursor_of trimmed c.last)) ((pre ++ c.front) ++ c.last ∷ [])
                c.rest back (split ∙ sym (append_assoc (pre ++ c.front) (c.last ∷ []) c.rest))
                behind' good_rest (omega arith) in
            first
            ∙ ap (Option.map (λ rest. (c.front ++ c.last ∷ []) ++ rest)) others
            ∙ ap some (append_assoc c.front (c.last ∷ []) c.rest ∙ sym c.whole)
      ]

decode_cursor-nil : (lib : Library) (input : ListInput) → decode_cursor lib [] input ≡ ok none
unfolding decode_cursor
decode_cursor-nil lib input = refl

filter-every : (items : List Item) → filter (λ i. true) items ≡ items
filter-every [] = refl
filter-every (i ∷ items) = ap (λ l. i ∷ l) (filter-every items)

-- The pages of a listing together, where the database refuses no statement, the actor may read the
-- workspace, the libraries do as they say, ids are unique and have the form of the service's own, the
-- input passes the checks, starts at the first page and has a search of at most 62 bytes: a client
-- that follows the cursors is done after at most one page more than there are items, no page fails, and
-- it has seen exactly the selected items, each once, in the order asked for.
pub walk-selected :
    (lib : Library) (actor : Principal) (workspace_id : Text) (input trimmed : ListInput) (size : ℕ)
    (w : World)
    → IsLibrary lib
    → checked input ≡ some (trimmed, size)
    → input.cursor ≡ []
    → length trimmed.search ≤ 62
    → (permit actor workspace_id resources_read (calm w)).0 ≡ ok tt
    → UniqueBy (λ i. i.id) w.db.items
    → All HasId w.db.items
    → walk lib actor workspace_id input (suc (length w.db.items)) (calm w)
      ≡ some (selected lib workspace_id trimmed w.db.items)
walk-selected lib actor workspace_id input trimmed zero w laws fits start short granted unique ids =
    absurd (omega (arith, (checked-IsChecked input {trimmed = trimmed} {size = 0} fits).positive))
walk-selected lib actor workspace_id input trimmed (suc n) w laws fits start short granted unique
      ids =
    let items = selected lib workspace_id trimmed w.db.items in
    let chosen = filter (selects lib workspace_id trimmed) w.db.items in
    let order = in_order trimmed.sort in
    ap
      (λ t.
        walk lib actor workspace_id (record input { cursor = t }) (suc (length w.db.items))
          (calm w))
      start
    ∙ walk_from lib laws actor workspace_id input trimmed n w fits short granted unique
        (suc (length w.db.items)) [] none [] items (decode_cursor-nil lib trimmed) refl
        (filter-every items) (All-sort order HasId chosen (All-filter HasId _ w.db.items ids))
        (omega (
          arith,
          length-sort order chosen,
          length-filter-le (selects lib workspace_id trimmed) w.db.items,
        ))
