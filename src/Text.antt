-- ===== src/Text.antt =====
-- Rust's `str` as the list of its code points, and the standard library's string functions that
-- the service uses. `to_lowercase` needs the Unicode tables: it is the field of `Unicode`.
pub mod Laws
pub mod Split
pub mod Trim
pub mod Words
pub mod Contains
pub mod Distinct
use Prim.Native.Char.{code}
use Prim.Native.String
use Prim.Native.String.{String}
use eir.Prelude.{
  ℕ, ◌+◌, Bool, true, false, ◌&&◌, ◌||◌, not, Option, none, some, List, [], ◌∷◌, ◌++◌, reverse, any,
  filter, leb, ltb, ◌==◌, if◌then◌else◌, is_some,
}

abbrev pub Text : Type 0
Text = List ℕ

-- The code points of a literal.
unfoldable pub codes : String → Text
codes String.[] = []
codes (String.◌∷◌ c s) = code c ∷ codes s

-- `char::to_lowercase` and `str::to_lowercase` follow the Unicode tables.
pub record Unicode : Type 0 where
  pub to_lowercase : Text → Text

-- a == b
unfoldable pub text_eq : Text → Text → Bool
text_eq [] [] = true
text_eq (a ∷ s) (b ∷ t) = a == b && text_eq s t
text_eq _ _ = false

-- ["..", ..].contains(&s), or .iter().any(|x| x == s)
unfoldable pub member : Text → List Text → Bool
unfolding any text_eq
member s ts = any (λ t. text_eq t s) ts

unfoldable pub is_empty : Text → Bool
is_empty [] = true
is_empty (_ ∷ _) = false

-- char::is_whitespace (the White_Space property)
unfoldable pub is_whitespace : ℕ → Bool
is_whitespace c =
    (leb 0x09 c && leb c 0x0d)
    || c == 0x20
    || c == 0x85
    || c == 0xa0
    || c == 0x1680
    || (leb 0x2000 c && leb c 0x200a)
    || c == 0x2028
    || c == 0x2029
    || c == 0x202f
    || c == 0x205f
    || c == 0x3000

unfoldable pub is_ascii_digit : ℕ → Bool
is_ascii_digit c = leb b'0' c && leb c b'9'

unfoldable pub to_ascii_lower : ℕ → ℕ
to_ascii_lower c = if leb b'A' c && leb c b'Z' then c + 32 else c

unfoldable pub to_ascii_lowercase : Text → Text
unfolding to_ascii_lower
to_ascii_lowercase [] = []
to_ascii_lowercase (c ∷ s) = to_ascii_lower c ∷ to_ascii_lowercase s

unfoldable pub eq_ignore_ascii_case : Text → Text → Bool
unfolding text_eq to_ascii_lowercase
eq_ignore_ascii_case s t = text_eq (to_ascii_lowercase s) (to_ascii_lowercase t)

unfoldable pub trim_start_matches : (ℕ → Bool) → Text → Text
trim_start_matches p [] = []
trim_start_matches p (c ∷ s) = let rest = trim_start_matches p s in if p c then rest else c ∷ s

unfoldable pub trim_end_matches : (ℕ → Bool) → Text → Text
unfolding trim_start_matches
trim_end_matches p s = reverse (trim_start_matches p (reverse s))

unfoldable pub trim_start : Text → Text
unfolding trim_start_matches is_whitespace
trim_start s = trim_start_matches is_whitespace s

unfoldable pub trim : Text → Text
unfolding trim_start trim_end_matches
trim s = trim_end_matches is_whitespace (trim_start s)

-- s.strip_prefix(p)
unfoldable pub strip_prefix : Text → Text → Option Text
strip_prefix [] s = some s
strip_prefix (a ∷ p) [] = none
strip_prefix (a ∷ p) (c ∷ s) = if a == c then strip_prefix p s else none

unfoldable pub starts_with : Text → Text → Bool
unfolding strip_prefix
starts_with s p = is_some (strip_prefix p s)

-- s.strip_suffix(p)
unfoldable pub strip_suffix : Text → Text → Option Text
unfolding strip_prefix
strip_suffix p s = elim (strip_prefix (reverse p) (reverse s)) [
  | none ↦ none
  | some t ↦ some (reverse t)
]

unfoldable pub ends_with : Text → Text → Bool
unfolding strip_suffix
ends_with s p = is_some (strip_suffix p s)

-- s.contains(p)
unfoldable pub contains : Text → Text → Bool
unfolding starts_with
contains [] p = is_empty p
contains (c ∷ s) p = starts_with (c ∷ s) p || contains s p

-- The parts of `s` between the code points that `p` accepts: s.split(p).
abbrev pub prepend : ℕ → List Text → List Text
prepend c [] = (c ∷ []) ∷ []
prepend c (t ∷ ts) = (c ∷ t) ∷ ts

unfoldable pub split : (ℕ → Bool) → Text → List Text
split p [] = [] ∷ []
split p (c ∷ s) = let rest = split p s in if p c then [] ∷ rest else prepend c rest

-- parts.join(sep)
unfoldable pub join : Text → List Text → Text
join sep [] = []
join sep (t ∷ []) = t
join sep (t ∷ u ∷ ts) = t ++ (sep ++ join sep (u ∷ ts))

-- s.replace(from, to) for one code point
unfoldable pub replace_char : ℕ → ℕ → Text → Text
replace_char from to [] = []
replace_char from to (c ∷ s) = (if c == from then to else c) ∷ replace_char from to s

-- s.len(): the bytes of the UTF-8 encoding
unfoldable pub utf8_len : Text → ℕ
utf8_len [] = 0
utf8_len (c ∷ s) =
    (if ltb c 0x80 then 1 else if ltb c 0x800 then 2 else if ltb c 0x10000 then 3 else 4)
    + utf8_len s

unfoldable pub take_while : (ℕ → Bool) → Text → Text
take_while p [] = []
take_while p (c ∷ s) = let rest = take_while p s in if p c then c ∷ rest else []

-- s.split_whitespace().next(), empty where there is none
unfoldable pub first_word : Text → Text
unfolding trim_start take_while is_whitespace
first_word s = take_while (λ c. not (is_whitespace c)) (trim_start s)

unfoldable pub is_ascii_alphanumeric : ℕ → Bool
unfolding is_ascii_digit
is_ascii_alphanumeric c =
    is_ascii_digit c || (leb b'A' c && leb c b'Z') || (leb b'a' c && leb c b'z')

unfoldable pub is_ascii_hexdigit : ℕ → Bool
unfolding is_ascii_digit
is_ascii_hexdigit c = is_ascii_digit c || (leb b'A' c && leb c b'F') || (leb b'a' c && leb c b'f')

-- s.split_whitespace()
unfoldable pub split_whitespace : Text → List Text
unfolding filter
split_whitespace s = filter (λ w. not (is_empty w)) (split is_whitespace s)

-- s.split_once(needle).map(|(t, _)| t)
unfoldable pub before_text : Text → Text → Option Text
before_text needle [] = none
before_text needle (c ∷ s) = elim (strip_prefix needle (c ∷ s)) [
  | some _ ↦ some []
  | none ↦ elim (before_text needle s) [ none ↦ none | some t ↦ some (c ∷ t) ]
]

-- s.rsplit(c).next()
abbrev last_part : List Text → Text
last_part [] = []
last_part (t ∷ []) = t
last_part (t ∷ u ∷ ts) = last_part (u ∷ ts)

unfoldable pub after_last : ℕ → Text → Text
unfolding split
after_last c s = last_part (split (λ x. x == c) s)

-- s.lines(): a line feed ends a line, with the carriage return before it.
abbrev without_cr : Text → Text
without_cr t = elim (strip_suffix (0x0d ∷ []) t) [ none ↦ t | some u ↦ u ]

abbrev line_list : List Text → List Text
line_list [] = []
line_list (t ∷ []) = if is_empty t then [] else t ∷ []
line_list (t ∷ u ∷ ts) = without_cr t ∷ line_list (u ∷ ts)

unfoldable pub lines : Text → List Text
unfolding split strip_suffix
lines s = line_list (split (λ c. c == 0x0a) s)
