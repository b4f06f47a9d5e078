-- ===== src/Text.antt =====
-- The functions of Go's package strings that the program calls. A text is the list of its code
-- points; the case of letters is that of ASCII, the alphabet of the names that the program folds.
pub mod Split
pub mod Trim
pub mod Cut
use traefik.Prelude.{
  ℕ, ◌+◌, ◌-◌, Bool, true, false, not, ◌&&◌, ◌||◌, List, [], ◌∷◌, ◌++◌, map, Option, none, some,
  Str, str_eq, ltb, leb, ◌==◌, if◌then◌else◌, is_empty, is_some, keep,
}
use mathlib.Core.Option

-- The bytes of a character in UTF-8.
abbrev pub width : ℕ → ℕ
width c = if ltb c 0x80 then 1 else if ltb c 0x800 then 2 else if ltb c 0x10000 then 3 else 4

-- `len` of a string
abbrev pub byte_length : Str → ℕ
byte_length [] = 0
byte_length (c ∷ s) = width c + byte_length s

-- A character is put in front of the first part.
abbrev pub attach : ℕ → List Str → List Str
attach c [] = (c ∷ []) ∷ []
attach c (w ∷ ws) = (c ∷ w) ∷ ws

-- The parts of a text between the characters that pass a test, the empty parts included.
unfoldable pub split_by : (ℕ → Bool) → Str → List Str
split_by p [] = [] ∷ []
split_by p (c ∷ s) = let rest = split_by p s in if p c then [] ∷ rest else attach c rest

-- The test for one character.
abbrev pub is : ℕ → ℕ → Bool
is c x = x == c

-- strings.Split at a separator of one character.
unfoldable pub split : ℕ → Str → List Str
split c s = split_by (is c) s

-- strings.FieldsFunc
unfoldable pub fields_func : (ℕ → Bool) → Str → List Str
fields_func p s = keep (λ w. not (is_empty w)) (split_by p s)

-- strings.Join
unfoldable pub join : Str → List Str → Str
join sep [] = []
join sep (w ∷ []) = w
join sep (w ∷ v ∷ ws) = w ++ (sep ++ join sep (v ∷ ws))

-- unicode.IsSpace
abbrev pub is_space : ℕ → Bool
is_space c =
    (leb 9 c && leb c 13)
    || c == 32
    || c == 0x85
    || c == 0xa0
    || c == 0x1680
    || (leb 0x2000 c && leb c 0x200a)
    || c == 0x2028
    || c == 0x2029
    || c == 0x202f
    || c == 0x205f
    || c == 0x3000

unfoldable pub trim_left : Str → Str
trim_left [] = []
trim_left (c ∷ s) = let rest = trim_left s in if is_space c then rest else c ∷ s

-- A character is kept, unless it is a space and nothing is kept behind it.
abbrev pub keep_before : ℕ → Str → Str
keep_before c [] = if is_space c then [] else c ∷ []
keep_before c (d ∷ s) = c ∷ d ∷ s

unfoldable pub trim_right : Str → Str
trim_right [] = []
trim_right (c ∷ s) = keep_before c (trim_right s)

-- strings.TrimSpace
unfoldable pub trim_space : Str → Str
unfolding trim_left trim_right
trim_space s = trim_right (trim_left s)

abbrev pub lower : ℕ → ℕ
lower c = if leb b'A' c && leb c b'Z' then c + 32 else c

-- strings.ToLower
unfoldable pub to_lower : Str → Str
to_lower s = map lower s

-- strings.EqualFold
unfoldable pub equal_fold : Str → Str → Bool
unfolding to_lower
equal_fold s t = str_eq (to_lower s) (to_lower t)

-- What follows a prefix of a text; `none` if the text does not begin with it.
unfoldable pub after_prefix : Str → Str → Option Str
after_prefix [] s = some s
after_prefix (p ∷ ps) [] = none
after_prefix (p ∷ ps) (c ∷ s) = if p == c then after_prefix ps s else none

-- strings.TrimPrefix
unfoldable pub trim_prefix : Str → Str → Str
trim_prefix s prefix = elim (after_prefix prefix s) [ none ↦ s | some rest ↦ rest ]

abbrev pub push_left : ℕ → Str × Str → Str × Str
push_left c (a, b) = (c ∷ a, b)

-- What stands before and behind the first occurrence of a separator.
unfoldable pub cut : Str → Str → Option (Str × Str)
cut sep [] = Option.map (λ rest. ([], rest)) (after_prefix sep [])
cut sep (c ∷ s) =
    let later = Option.map (push_left c) (cut sep s) in
    elim (after_prefix sep (c ∷ s)) [ some rest ↦ some ([], rest) | none ↦ later ]

-- strings.Contains
unfoldable pub contains : Str → Str → Bool
contains s sub = is_some (cut sub s)
