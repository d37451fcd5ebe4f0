-- ===== src/Items/Input.antt =====
-- internal/items/service.go: the checks of what a caller sends.
use dynamis_code_apps_templa.Prelude.{
  ℕ, Bool, false, ◌&&◌, ◌||◌, not, Option, none, some, [], ◌∷◌, ◌++◌, Text, ascii, length, all,
  is_nil, leb, ltb, ◌==◌, text_eq, trim_space, valid_utf8, rune_count, if◌then◌else◌,
}

abbrev pub active : Text
active = ascii "active"

abbrev pub complete : Text
complete = ascii "complete"

abbrev pub maximum_search_length : ℕ
maximum_search_length = 100

abbrev pub too_long : ℕ → Text → Bool
too_long limit value = not (valid_utf8 value) || ltb limit (rune_count value)

-- The trimmed title, or none for ErrInvalidInput.
unfoldable pub validate_title : Text → Option Text
validate_title raw =
    let value = trim_space raw in if is_nil value || too_long 200 value then none else some value

unfoldable pub validate_search : Text → Option Text
validate_search raw =
    let value = trim_space raw in
    if not (is_nil value) && too_long maximum_search_length value then none else some value

abbrev is_key_byte : ℕ → Bool
is_key_byte c = leb 0x21 c && leb c 0x7e

unfoldable pub valid_idempotency_key : Text → Bool
valid_idempotency_key value =
    if ltb (length value) 1 || ltb 255 (length value) then false else all is_key_byte value

-- 32 small hexadecimal digits: `hex.DecodeString` of a text without capitals.
abbrev is_hex_byte : ℕ → Bool
is_hex_byte c = (leb b'0' c && leb c b'9') || (leb b'a' c && leb c b'f')

unfoldable pub valid_cursor_id : Text → Bool
valid_cursor_id value = length value == 32 && all is_hex_byte value

abbrev pub valid_status : Text → Bool
valid_status s = text_eq s active || text_eq s complete

pub record ImportItem : Type 0 where
  pub title : Text
  pub status : Text

-- `NormalizeImportItem`.
unfoldable pub normalize_import_item : ImportItem → Option ImportItem
unfolding validate_title
normalize_import_item value =
    let status = if is_nil value.status then active else value.status in
    elim (validate_title value.title) [
      | none ↦ none
      | some title ↦
          if valid_status status then some (record { title = title; status = status }) else none
    ]

abbrev pub backslash : ℕ
backslash = 92

-- `strings.NewReplacer` of `searchPattern`.
unfoldable pub escape : Text → Text
escape [] = []
escape (c ∷ s) =
    let rest = escape s in
    if c == backslash || c == b'%' || c == b'_' then backslash ∷ c ∷ rest else c ∷ rest

unfoldable pub search_pattern : Text → Text
unfolding escape
search_pattern value = b'%' ∷ escape value ++ b'%' ∷ []
