-- ===== src/Prelude/Bytes.antt =====
-- Go strings: lists of bytes. Equality, byte order, ASCII literals, UTF-8 and `strings.TrimSpace`.
use Prim.Native.Nat.{ℕ, zero, suc}
use Prim.Native.Char.{code}
use Prim.Native.String.{String}
use mathlib.Core.Path.{◌≡◌, refl}
use mathlib.Core.Logic.{◌↔◌, ◌⊎◌, inl, inr}
use mathlib.Core.Bool.{Bool, true, false, ◌&&◌, ◌||◌, not}
use mathlib.Core.List.{List, [], ◌∷◌, reverse}
use native.Mathlib.Omega.{arith}
use dynamis_code_apps_templa.Prelude.Tests.{ltb, leb, ◌==◌, if◌then◌else◌}
use dynamis_code_apps_templa.Prelude.Lists.{count}

abbrev pub Text : Type 0
Text = List ℕ

-- The bytes of an ASCII literal.
abbrev pub ascii : String → Text
ascii String.[] = []
ascii (String.◌∷◌ c s) = code c ∷ ascii s

unfoldable pub text_eq : Text → Text → Bool
text_eq [] [] = true
text_eq [] (b ∷ t) = false
text_eq (a ∷ s) [] = false
text_eq (a ∷ s) (b ∷ t) = a == b && text_eq s t

pub text_eq→ : (s t : Text) → text_eq s t ≡ true → s ≡ t
unfolding text_eq
text_eq→ [] [] h = refl
text_eq→ [] (b ∷ t) h = cc
text_eq→ (a ∷ s) [] h = cc
text_eq→ (a ∷ s) (b ∷ t) h = ground (arith, text_eq→ s t)

pub text_eq_refl : (s : Text) → text_eq s s ≡ true
unfolding text_eq
text_eq_refl [] = refl
text_eq_refl (a ∷ s) = ground (arith, text_eq_refl s)

pub text_eq_iff : (s t : Text) → (text_eq s t ≡ true) ↔ (s ≡ t)
text_eq_iff s t = (text_eq→ s t, λ e. rw e (text_eq_refl t))

-- Byte order, as the database's binary collation compares texts.
unfoldable pub text_leb : Text → Text → Bool
text_leb [] t = true
text_leb (a ∷ s) [] = false
text_leb (a ∷ s) (b ∷ t) = ltb a b || (a == b && text_leb s t)

abbrev pub text_ltb : Text → Text → Bool
text_ltb s t = text_leb s t && not (text_eq s t)

pub text_leb_refl : (s : Text) → text_leb s s ≡ true
unfolding text_leb
text_leb_refl [] = refl
text_leb_refl (a ∷ s) = ground (arith, text_leb_refl s)

pub text_leb_total : (s t : Text) → (text_leb s t ≡ true) ⊎ (text_leb t s ≡ true)
unfolding text_leb
text_leb_total [] t = inl refl
text_leb_total (a ∷ s) [] = inr refl
text_leb_total (a ∷ s) (b ∷ t) = ground (arith, text_leb_total s t)

pub text_leb_trans :
    (s t u : Text) → text_leb s t ≡ true → text_leb t u ≡ true → text_leb s u ≡ true
unfolding text_leb
text_leb_trans [] t u h k = refl
text_leb_trans (a ∷ s) [] u h k = cc
text_leb_trans (a ∷ s) (b ∷ t) [] h k = cc
text_leb_trans (a ∷ s) (b ∷ t) (c ∷ u) h k = ground (arith, text_leb_trans s t u)

pub text_leb_antisym : (s t : Text) → text_leb s t ≡ true → text_leb t s ≡ true → s ≡ t
unfolding text_leb
text_leb_antisym [] [] h k = refl
text_leb_antisym [] (b ∷ t) h k = cc
text_leb_antisym (a ∷ s) [] h k = cc
text_leb_antisym (a ∷ s) (b ∷ t) h k = ground (arith, text_leb_antisym s t)

-- `utf8.ValidString`: a fold over the bytes. `tail k lo hi`: the next byte must lie in lo..hi, and
-- k continuation bytes follow it.
pub data Utf8State : Type 0 where
  boundary invalid : Utf8State
  tail : ℕ → ℕ → ℕ → Utf8State

abbrev lead : ℕ → Utf8State
lead b =
    if ltb b 0x80
    then boundary
    else if ltb b 0xc2
    then invalid
    else if ltb b 0xe0
    then tail 0 0x80 0xbf
    else if b == 0xe0
    then tail 1 0xa0 0xbf
    else if b == 0xed
    then tail 1 0x80 0x9f
    else if ltb b 0xf0
    then tail 1 0x80 0xbf
    else if b == 0xf0
    then tail 2 0x90 0xbf
    else if ltb b 0xf4
    then tail 2 0x80 0xbf
    else if b == 0xf4
    then tail 2 0x80 0x8f
    else invalid

abbrev utf8_next : Utf8State → ℕ → Utf8State
utf8_next boundary b = lead b
utf8_next invalid b = invalid
utf8_next (tail zero lo hi) b = if leb lo b && leb b hi then boundary else invalid
utf8_next (tail (suc k) lo hi) b = if leb lo b && leb b hi then tail k 0x80 0xbf else invalid

utf8_run : Utf8State → Text → Bool
utf8_run boundary [] = true
utf8_run invalid [] = false
utf8_run (tail k lo hi) [] = false
utf8_run st (b ∷ s) = utf8_run (utf8_next st b) s

unfoldable pub valid_utf8 : Text → Bool
unfolding utf8_run
valid_utf8 s = utf8_run boundary s

-- `utf8.RuneCountInString` of a valid text: the bytes that start a character.
unfoldable pub rune_count : Text → ℕ
rune_count s = count (λ b. ltb b 0x80 || leb 0xc0 b) s

-- `unicode.IsSpace`: how many bytes the white space at the front of a text takes.
abbrev ascii_space : ℕ → Bool
ascii_space b = b == 32 || (leb 9 b && leb b 13)

abbrev wide_space : ℕ → ℕ → Bool
wide_space b c =
    (b == 0x80 && (leb 0x80 c && leb c 0x8a || c == 0xa8 || c == 0xa9 || c == 0xaf))
    || (b == 0x81 && c == 0x9f)

abbrev space_3 : ℕ → ℕ → ℕ → Bool
space_3 a b c =
    (a == 0xe1 && b == 0x9a && c == 0x80)
    || (a == 0xe2 && wide_space b c)
    || (a == 0xe3 && b == 0x80 && c == 0x80)

abbrev space_2 : ℕ → ℕ → Bool
space_2 a b = a == 0xc2 && (b == 0x85 || b == 0xa0)

space_wide : ℕ → Text → ℕ
space_wide a [] = 0
space_wide a (b ∷ []) = if space_2 a b then 2 else 0
space_wide a (b ∷ c ∷ s) = if space_2 a b then 2 else if space_3 a b c then 3 else 0

unfoldable pub space_width : Text → ℕ
unfolding space_wide
space_width [] = 0
space_width (a ∷ s) = if ascii_space a then 1 else space_wide a s

-- A visible ASCII byte begins no white space.
pub space_width-visible :
    (c : ℕ) (s : Text) → (leb 33 c && leb c 126) ≡ true → space_width (c ∷ s) ≡ 0
unfolding space_width space_wide
space_width-visible c [] h = ground arith
space_width-visible c (b ∷ []) h = ground arith
space_width-visible c (b ∷ d ∷ s) h = ground arith

-- The text behind its white space. `mirrored` reads each character's bytes from last to first.
unfoldable pub skip_space : Bool → Text → Text
skip_space mirrored [] = []
skip_space mirrored (a ∷ []) = if ascii_space a then [] else a ∷ []
skip_space mirrored (a ∷ b ∷ []) =
    if ascii_space a
    then skip_space mirrored (b ∷ [])
    else if (if mirrored then space_2 b a else space_2 a b)
    then []
    else a ∷ b ∷ []
skip_space mirrored (a ∷ b ∷ c ∷ s) = elim (ascii_space a) [
  | true ↦ skip_space mirrored (b ∷ c ∷ s)
  | false ↦ elim (if mirrored then space_2 b a else space_2 a b) [
    | true ↦ skip_space mirrored (c ∷ s)
    | false ↦ elim (if mirrored then space_3 c b a else space_3 a b c) [
      | true ↦ skip_space mirrored s
      | false ↦ a ∷ b ∷ c ∷ s
    ]
  ]
]

-- `strings.TrimSpace`.
unfoldable pub trim_space : Text → Text
unfolding skip_space
trim_space s = reverse (skip_space true (reverse (skip_space false s)))
