-- ===== src/Identity/Tokens/Scopes.antt =====
-- internal/identity/token.go: the text of a list of scopes.
--
-- strings.Fields splits at the white space of Unicode, whose bytes no other character has inside.
use mathlib.Core.List.{append-nil, append_assoc}
use dynamis_code_apps_templa.Prelude.{
  ℕ, ◌≡◌, refl, sym, ap, ◌∙◌, Bool, false, ◌&&◌, List, [], ◌∷◌, ◌++◌, Text, is_nil, leb, zero, suc,
  all, true, space_width, space_width-visible, All, arith, if◌then◌else◌,
}

-- `encodeScopes`: strings.Join with a space.
unfoldable pub encode_scopes : List Text → Text
encode_scopes [] = []
encode_scopes (s ∷ []) = s
encode_scopes (s ∷ t ∷ ts) = s ++ 32 ∷ encode_scopes (t ∷ ts)

abbrev close_field : Text → List Text → List Text
close_field word rest = if is_nil word then rest else word ∷ rest

-- The loop of strings.Fields: how many bytes of a white space are still to be skipped, and the bytes of
-- the field that it reads.
unfoldable pub fields_from : ℕ → Text → Text → List Text
unfolding space_width
fields_from skip word [] = close_field word []
fields_from (suc n) word (c ∷ cs) = fields_from n word cs
fields_from zero word (c ∷ cs) = elim (space_width (c ∷ cs)) [
  | zero ↦ fields_from zero (word ++ c ∷ []) cs
  | suc n ↦ close_field word (fields_from n [] cs)
]

-- `decodeScopes`.
unfoldable pub decode_scopes : Text → List Text
unfolding fields_from
decode_scopes encoded = fields_from 0 [] encoded

abbrev pub is_visible : ℕ → Bool
is_visible c = leb 33 c && leb c 126

-- A scope is not empty, and has visible ASCII bytes only.
unfoldable pub IsScope : Text → Type 0
IsScope s = (is_nil s ≡ false) × (all is_visible s ≡ true)

-- The loop reads a word of visible bytes as one field.
fields_word :
    (word s rest : Text)
    → all is_visible s ≡ true
    → fields_from 0 word (s ++ rest) ≡ fields_from 0 (word ++ s) rest
unfolding fields_from
fields_word word [] rest h = ap (λ t. fields_from 0 t rest) (sym (append-nil word))
fields_word word (c ∷ s) rest h =
    let plain : space_width (c ∷ (s ++ rest)) ≡ 0 =
      space_width-visible c (s ++ rest) (ground arith) in
    rw (fields_from, plain)
      (fields_word (word ++ c ∷ []) s rest (ground arith)
        ∙ ap (λ t. fields_from 0 t rest) (append_assoc word (c ∷ []) s))

field_closed : (s rest : Text) → IsScope s → fields_from 0 s (32 ∷ rest) ≡ s ∷ fields_from 0 [] rest
unfolding fields_from IsScope space_width
field_closed [] rest (full, plain) = absurd (ground arith)
field_closed (c ∷ s) rest h = refl

-- A list of scopes is read back from the text that is stored for it, where each scope is not empty and
-- has visible ASCII bytes only.
pub decode_scopes-encode_scopes :
    (ss : List Text) → All IsScope ss → decode_scopes (encode_scopes ss) ≡ ss
unfolding decode_scopes encode_scopes fields_from IsScope
decode_scopes-encode_scopes [] h = refl
decode_scopes-encode_scopes ([] ∷ []) h = absurd (ground arith)
decode_scopes-encode_scopes ((c ∷ s) ∷ []) h =
    ap (fields_from 0 []) (sym (append-nil (c ∷ s))) ∙ fields_word [] (c ∷ s) [] h.0.1
decode_scopes-encode_scopes (s ∷ t ∷ ts) h =
    fields_word [] s (32 ∷ encode_scopes (t ∷ ts)) h.0.1
    ∙ field_closed s (encode_scopes (t ∷ ts)) h.0
    ∙ ap (λ us. s ∷ us) (decode_scopes-encode_scopes (t ∷ ts) h.1)
