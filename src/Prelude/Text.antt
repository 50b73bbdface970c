-- ===== src/Prelude/Text.antt =====
-- Texts as the source's strings: their length in UTF-16 units, `trim`, `replaceAll` of a character,
-- `join`, and a test for a prefix that ignores the case of ASCII letters.
use Prim.Native.Nat.{ℕ, ◌+◌}
use Prim.Native.Char.{Char, code}
use Prim.Native.String.{String, ◌++◌}
use mathlib.Core.Bool.{Bool, true, false, ◌&&◌, ◌||◌}
use mathlib.Core.List.{List, [], ◌∷◌}
use grok_bot_v.Prelude.Tests.{if◌then◌else◌, leb, ltb, ◌==◌}

-- White space and line terminators of the language.
abbrev pub is_space : ℕ → Bool
is_space c =
    leb 9 c && leb c 13
    || c == 32
    || c == 160
    || c == 0x1680
    || leb 0x2000 c && leb c 0x200a
    || c == 0x2028
    || c == 0x2029
    || c == 0x202f
    || c == 0x205f
    || c == 0x3000
    || c == 0xfeff

abbrev pub is_empty : String → Bool
is_empty String.[] = true
is_empty (String.◌∷◌ c s) = false

abbrev pub trim_start : String → String
trim_start String.[] = ""
trim_start (String.◌∷◌ c s) = if is_space (code c) then trim_start s else String.◌∷◌ c s

-- The character before a text whose end is trimmed.
abbrev pub cons_trimmed : Char → String → String
cons_trimmed c rest = if is_empty rest && is_space (code c) then "" else String.◌∷◌ c rest

abbrev pub trim_end : String → String
trim_end String.[] = ""
trim_end (String.◌∷◌ c s) = cons_trimmed c (trim_end s)

abbrev pub trim : String → String
trim s = trim_end (trim_start s)

abbrev pub text_length : String → ℕ
text_length String.[] = 0
text_length (String.◌∷◌ c s) = (if ltb 0xffff (code c) then 2 else 1) + text_length s

abbrev pub replace_all : ℕ → String → String → String
replace_all c by String.[] = ""
replace_all c by (String.◌∷◌ d s) =
    (if code d == c then by else String.◌∷◌ d "") ++ replace_all c by s

abbrev pub lower : ℕ → ℕ
lower c = if leb b'A' c && leb c b'Z' then c + 32 else c

abbrev pub starts_with_ignoring_case : String → String → Bool
starts_with_ignoring_case s String.[] = true
starts_with_ignoring_case String.[] (String.◌∷◌ p prefix) = false
starts_with_ignoring_case (String.◌∷◌ c s) (String.◌∷◌ p prefix) =
    lower (code c) == lower (code p) && starts_with_ignoring_case s prefix

abbrev pub join : String → List String → String
join separator [] = ""
join separator (s ∷ []) = s
join separator (s ∷ t ∷ rest) = s ++ separator ++ join separator (t ∷ rest)
