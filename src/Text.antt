-- ===== src/Text.antt =====
-- The part of Go's `strings` package that the gateway uses. A Go string is its list of bytes.
-- `TrimSpace` knows every Unicode space in UTF-8; the case functions act on ASCII letters, the only
-- ones that header names, methods and provider types hold.
pub mod Equality
pub mod Case
pub mod Split
use Prim.Native.Char.{code}
use Prim.Native.String.{String}
use mathlib.Core.List.{reverse}
use gem_gate.Prelude.{
  ℕ, zero, suc, ◌+◌, ◌-◌, Bool, true, false, not, ◌&&◌, ◌||◌, Option, none, some, List, [], ◌∷◌,
  ◌++◌, map, leb, ltb, ◌==◌, if◌then◌else◌, length, drop,
}

abbrev pub Text : Type 0
Text = List ℕ

-- The bytes of an ASCII literal.
abbrev pub codes : String → Text
codes String.[] = []
codes (String.◌∷◌ c s) = code c ∷ codes s

unfoldable pub text_eq : Text → Text → Bool
text_eq [] [] = true
text_eq (a ∷ s) (b ∷ t) = a == b && text_eq s t
text_eq _ _ = false

abbrev pub is_empty : Text → Bool
is_empty [] = true
is_empty (c ∷ s) = false

-- `_, ok := set[s]`, for a set of texts
unfoldable pub contains : List Text → Text → Bool
contains [] s = false
contains (t ∷ ts) s = text_eq t s || contains ts s

-- The white space of `unicode.IsSpace`, by the length of its UTF-8 form.
abbrev space_one : ℕ → Bool
space_one a = (leb 9 a && leb a 13) || a == 32

abbrev space_two : ℕ → ℕ → Bool
space_two a b = a == 0xC2 && (b == 0x85 || b == 0xA0)

abbrev space_three : ℕ → ℕ → ℕ → Bool
space_three a b c =
    (a == 0xE1 && b == 0x9A && c == 0x80)
    || (a == 0xE2
        && b == 0x80
        && ((leb 0x80 c && leb c 0x8A) || c == 0xA8 || c == 0xA9 || c == 0xAF))
    || (a == 0xE2 && b == 0x81 && c == 0x9F)
    || (a == 0xE3 && b == 0x80 && c == 0x80)

-- The text without the spaces at its front.
trim_left : Text → Text
trim_left [] = []
trim_left (a ∷ []) = if space_one a then [] else a ∷ []
trim_left (a ∷ b ∷ []) =
    let one = trim_left (b ∷ []) in
    if space_one a then one else if space_two a b then [] else a ∷ b ∷ []
trim_left (a ∷ b ∷ c ∷ s) =
    let one = trim_left (b ∷ c ∷ s) in
    let two = trim_left (c ∷ s) in
    let three = trim_left s in
    if space_one a
    then one
    else if space_two a b
    then two
    else if space_three a b c
    then three
    else a ∷ b ∷ c ∷ s

-- The same from the back, on the reversed text.
trim_reversed : Text → Text
trim_reversed [] = []
trim_reversed (c ∷ []) = if space_one c then [] else c ∷ []
trim_reversed (c ∷ b ∷ []) =
    let one = trim_reversed (b ∷ []) in
    if space_one c then one else if space_two b c then [] else c ∷ b ∷ []
trim_reversed (c ∷ b ∷ a ∷ s) =
    let one = trim_reversed (b ∷ a ∷ s) in
    let two = trim_reversed (a ∷ s) in
    let three = trim_reversed s in
    if space_one c
    then one
    else if space_two b c
    then two
    else if space_three a b c
    then three
    else c ∷ b ∷ a ∷ s

unfoldable pub trim_space : Text → Text
unfolding trim_left trim_reversed
trim_space s = reverse (trim_reversed (reverse (trim_left s)))

unfoldable pub lower_byte : ℕ → ℕ
lower_byte c = if leb b'A' c && leb c b'Z' then c + 32 else c

unfoldable pub upper_byte : ℕ → ℕ
upper_byte c = if leb b'a' c && leb c b'z' then c - 32 else c

unfoldable pub to_lower : Text → Text
unfolding lower_byte
to_lower s = map lower_byte s

unfoldable pub to_upper : Text → Text
unfolding upper_byte
to_upper s = map upper_byte s

unfoldable pub equal_fold : Text → Text → Bool
unfolding to_lower text_eq
equal_fold s t = text_eq (to_lower s) (to_lower t)

-- `some rest` if the text starts with the prefix.
unfoldable pub cut_prefix : Text → Text → Option Text
cut_prefix [] s = some s
cut_prefix (p ∷ ps) [] = none
cut_prefix (p ∷ ps) (c ∷ s) = let rest = cut_prefix ps s in if p == c then rest else none

unfoldable pub has_prefix : Text → Text → Bool
unfolding cut_prefix
has_prefix s p = elim (cut_prefix p s) [ none ↦ false | some rest ↦ true ]

unfoldable pub trim_prefix : Text → Text → Text
unfolding cut_prefix
trim_prefix s p = elim (cut_prefix p s) [ none ↦ s | some rest ↦ rest ]

unfoldable pub has_suffix : Text → Text → Bool
unfolding has_prefix
has_suffix s p = has_prefix (reverse s) (reverse p)

unfoldable pub trim_suffix : Text → Text → Text
unfolding trim_prefix
trim_suffix s p = reverse (trim_prefix (reverse s) (reverse p))

-- `strings.TrimLeft` of one byte, and `strings.TrimRight`.
unfoldable pub drop_byte : ℕ → Text → Text
drop_byte sep [] = []
drop_byte sep (c ∷ s) = let rest = drop_byte sep s in if c == sep then rest else c ∷ s

unfoldable pub trim_right : Text → ℕ → Text
unfolding drop_byte
trim_right s sep = reverse (drop_byte sep (reverse s))

-- The text before the first `sep` and the text after it, if there is one.
unfoldable pub cut : ℕ → Text → Option (Text × Text)
cut sep [] = none
cut sep (c ∷ s) =
    let rest = cut sep s in
    if c == sep
    then some ([], s)
    else elim rest [ none ↦ none | some (before, after) ↦ some (c ∷ before, after) ]

add_first : ℕ → List Text → List Text
add_first c [] = (c ∷ []) ∷ []
add_first c (part ∷ parts) = (c ∷ part) ∷ parts

-- `strings.Split` at one byte.
unfoldable pub split : ℕ → Text → List Text
unfolding add_first
split sep [] = [] ∷ []
split sep (c ∷ s) = let parts = split sep s in if c == sep then [] ∷ parts else add_first c parts

-- `strings.Join`
unfoldable pub join : Text → List Text → Text
join sep [] = []
join sep (part ∷ []) = part
join sep (part ∷ next ∷ parts) = part ++ (sep ++ join sep (next ∷ parts))

-- `strings.Contains`
unfoldable pub has_infix : Text → Text → Bool
unfolding has_prefix
has_infix [] p = has_prefix [] p
has_infix (c ∷ s) p = has_prefix (c ∷ s) p || has_infix s p
