-- ===== src/Items/Tests.antt =====
-- Searches at a concrete text.
use dynamis_code_apps_templa.Prelude.{◌≡◌, refl, false, [], ◌∷◌, Text}
use dynamis_code_apps_templa.Items.Input.{backslash}
use dynamis_code_apps_templa.Items.Search.{any_text, any_character, literal, tokens_from}

abbrev wildcards : Text
wildcards = b'5' ∷ b'%' ∷ b'_' ∷ backslash ∷ []

-- The unescaped text has other tokens.
unescaped : tokens_from false wildcards ≡ literal b'5' ∷ any_text ∷ any_character ∷ []
unfolding tokens_from
unescaped = refl
