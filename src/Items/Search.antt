-- ===== src/Items/Search.antt =====
-- internal/items/service.go: the pattern of a search, read as SQL reads `LIKE … ESCAPE '\'`.
use dynamis_code_apps_templa.Prelude.{
  ℕ, ◌≡◌, refl, Bool, true, false, Option, none, some, List, [], ◌∷◌, ◌++◌, Text, map, ap, ◌==◌,
  inl, inr, Bool-cases, if◌then◌else◌,
}
use dynamis_code_apps_templa.Items.Input.{backslash, escape, search_pattern}

-- What a pattern asks for: any text, any one character, or a given character.
pub data Token : Type 0 where
  any_text any_character : Token
  literal : ℕ → Token

-- The token of a byte, where an escape may stand before it, and whether the byte is itself an escape.
abbrev plain_token : ℕ → Token
plain_token c = if c == b'%' then any_text else if c == b'_' then any_character else literal c

abbrev token_of : Bool → ℕ → Option Token × Bool
token_of true c = (some (literal c), false)
token_of false c = if c == backslash then (none, true) else (some (plain_token c), false)

abbrev prepend : Option Token → List Token → List Token
prepend none ts = ts
prepend (some t) ts = t ∷ ts

unfoldable pub tokens_from : Bool → Text → List Token
tokens_from escaped [] = []
tokens_from escaped (c ∷ s) =
    let (t, escaped') = token_of escaped c in let rest = tokens_from escaped' s in prepend t rest

tokens-escape :
    (s rest : Text) → tokens_from false (escape s ++ rest) ≡ map literal s ++ tokens_from false rest
unfolding tokens_from escape
tokens-escape [] rest = refl
tokens-escape (c ∷ s) rest =
    let below = tokens-escape s rest in
    elim (Bool-cases (c == backslash)) [
      | inl one ↦ rw one (ap (λ ts. literal c ∷ ts) below)
      | inr not_escape ↦ elim (Bool-cases (c == b'%')) [
        | inl two ↦ rw (not_escape, two) (ap (λ ts. literal c ∷ ts) below)
        | inr not_any ↦ elim (Bool-cases (c == b'_')) [
          | inl three ↦ rw (not_escape, not_any, three) (ap (λ ts. literal c ∷ ts) below)
          | inr not_one ↦
              rw (not_escape, not_any, not_one, not_escape, not_any, not_one)
                (ap (λ ts. literal c ∷ ts) below)
        ]
      ]
    ]

-- A search asks for its text as it stands, with any text before and behind it: no character of the
-- text acts as a wildcard.
pub search_pattern_literal :
    (value : Text)
    → tokens_from false (search_pattern value) ≡ any_text ∷ map literal value ++ any_text ∷ []
unfolding search_pattern tokens_from
search_pattern_literal value = ap (λ ts. any_text ∷ ts) (tokens-escape value (b'%' ∷ []))
