-- ===== src/Items/Listing/Laws.antt =====
-- internal/items/service.go: what `List` relies on in the libraries, and the cursors that it writes.
use dynamis_code_apps_templa.Prelude.{
  ℕ, ◌≡◌, refl, ◌+◌, ◌*◌, ◌≤◌, ◌<◌, true, false, ◌&&◌, ◌||◌, none, some, Text, length, arith,
  is_nil, not, ap, subst, trim_space, text_eq, text_eq_refl, valid_utf8, if◌then◌else◌, [], ◌∷◌,
}
use dynamis_code_apps_templa.Clock.{timestamp}
use dynamis_code_apps_templa.Clock.RoundTrip.{parse_stamp-timestamp}
use dynamis_code_apps_templa.Schema.{Item}
use dynamis_code_apps_templa.Exec.{ok}
use dynamis_code_apps_templa.Items.Input.{
  validate_search, too_long, maximum_search_length, valid_cursor_id, valid_status,
}
use dynamis_code_apps_templa.Items.Listing.{
  Library, Cursor, ListInput, ascending, descending, has_options, checked, encode_cursor, encoded,
  cursor_of, decode_cursor,
}

-- The cursors that `encodeCursor` writes.
pub record IsWritten (c : Cursor) : Type 0 where
  pub status : (is_nil c.status || valid_status c.status) ≡ true
  pub search : valid_utf8 c.search ≡ true
  pub sort : (text_eq c.sort ascending || text_eq c.sort descending) ≡ true
  pub time : (t : ℕ) × (c.created_at ≡ timestamp t)
  pub id : valid_cursor_id c.id ≡ true

-- encoding/json reads a cursor of valid UTF-8 back, and writes at most six bytes for one byte of its
-- search: an escape such as `<` takes. encoding/base64 reads every text back.
pub record IsLibrary (lib : Library) : Type 0 where
  pub cursors :
      (c : Cursor)
      → IsWritten c
      → (raw : Text) × (lib.marshal c ≡ some raw)
        × (lib.unmarshal raw ≡ some c)
        × (0 < length raw)
        × (length raw ≤ 139 + 6 * length c.search)
  pub texts :
      (raw : Text)
      → 0 < length raw
      → (lib.decode (lib.encode raw) ≡ some raw) × (is_nil (lib.encode raw) ≡ false)

-- What a checked input is: the input with its search trimmed, and a size of at least 1.
pub record IsChecked (input trimmed : ListInput) (size : ℕ) : Type 0 where
  pub same : trimmed ≡ record input { search = trimmed.search }
  pub search : valid_utf8 trimmed.search ≡ true
  pub positive : 0 < size
  pub options : has_options trimmed ≡ true
  pub again :
      (t : Text)
      → checked (record input { cursor = t }) ≡ some (record trimmed { cursor = t }, size)

valid_utf8-nil : valid_utf8 [] ≡ true
unfolding valid_utf8
valid_utf8-nil = refl

shown-valid_utf8 :
    (value : Text) {s : Text}
    → (if not (is_nil value) && too_long maximum_search_length value then none else some value)
      ≡ some s
    → valid_utf8 s ≡ true
shown-valid_utf8 [] {s} h =
    let e : [] ≡ s = ground arith in subst (λ v. valid_utf8 v ≡ true) e valid_utf8-nil
shown-valid_utf8 (b ∷ value) {s} h = ground arith

validate_search-valid_utf8 :
    (raw : Text) {s : Text} → validate_search raw ≡ some s → valid_utf8 s ≡ true
unfolding validate_search
validate_search-valid_utf8 raw {s} h = shown-valid_utf8 (trim_space raw) {s = s} h

pub checked-IsChecked :
    (input : ListInput) {trimmed : ListInput} {size : ℕ}
    → checked input ≡ some (trimmed, size)
    → IsChecked input trimmed size
unfolding checked
checked-IsChecked input {trimmed} {size} h = record {
  same = ground arith;
  search = validate_search-valid_utf8 input.search {s = trimmed.search} (ground arith);
  positive = ground arith;
  options = ground arith;
  again = λ t. ground arith;
}

-- Decoding the cursor that `encodeCursor` writes after an item gives the item's position back, where the
-- libraries do as they say, the input passes the checks of `List`, its search has at most 62 bytes and
-- the item's id is one that the service draws.
pub decode-encode_cursor :
    (lib : Library) (input trimmed : ListInput) (size : ℕ) (item : Item)
    → IsLibrary lib
    → checked input ≡ some (trimmed, size)
    → length trimmed.search ≤ 62
    → valid_cursor_id item.id ≡ true
    → (t : Text) × (encode_cursor lib trimmed item ≡ ok t)
      × (is_nil t ≡ false)
      × (decode_cursor lib t trimmed ≡ ok (some (cursor_of trimmed item)))
unfolding encode_cursor decode_cursor
decode-encode_cursor lib input trimmed size item laws fits short good =
    let h = checked-IsChecked input {trimmed = trimmed} {size = size} fits in
    let (raw, written, unmarshalled, full, bound) = laws.cursors (cursor_of trimmed item) (record {
      status = ground (arith, h.options);
      search = h.search;
      sort = ground (arith, h.options);
      time = (item.created_at, refl);
      id = good;
    }) in
    let (back, shown) = laws.texts raw full in
    (
      lib.encode raw,
      ap (encoded lib) written,
      shown,
      ground (
        arith,
        back,
        unmarshalled,
        bound,
        text_eq_refl trimmed.status,
        text_eq_refl trimmed.search,
        text_eq_refl trimmed.sort,
        parse_stamp-timestamp item.created_at,
      ),
    )
