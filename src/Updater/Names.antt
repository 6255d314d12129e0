-- ===== src/Updater/Names.antt =====
-- eir-svc/src/updater/names.rs: one stable name for an application through its versions.
pub mod Stable
pub mod Unique
use eir.Prelude.{
  ℕ, Bool, true, false, ◌&&◌, ◌||◌, not, Option, none, some, List, [], ◌∷◌, map, reverse, any, all,
  filter, find, length, drop, ltb, ◌==◌, if◌then◌else◌,
}
use eir.Text.{
  Text, Unicode, codes, text_eq, member, is_empty, trim, trim_start_matches, trim_end_matches,
  take_while, split, split_whitespace, join, is_ascii_digit, is_ascii_alphanumeric,
  to_ascii_lowercase,
}

abbrev without_parens : Text → Text
without_parens token =
    trim_end_matches (λ c. c == b')') (trim_start_matches (λ c. c == b'(') (trim token))

-- t.strip_prefix(['v', 'V']).unwrap_or(t)
abbrev without_v : Text → Text
without_v [] = []
without_v (c ∷ t) = if c == b'v' || c == b'V' then t else c ∷ t

-- The loop that moves trailing dots from the core, here reversed, to the rest.
unfoldable pub move_dots : Text → Text → Text × Text
move_dots [] rest = ([], rest)
move_dots (c ∷ core) rest =
    if c == b'.' then move_dots core (c ∷ rest) else (reverse (c ∷ core), rest)

abbrev pub starts_with_one : (ℕ → Bool) → Text → Bool
starts_with_one p [] = false
starts_with_one p (c ∷ t) = p c

unfoldable pub is_core_char : ℕ → Bool
is_core_char c = is_ascii_digit c || c == b'.'

unfoldable pub is_separator : ℕ → Bool
is_separator c = c == b'-' || c == b'+' || c == b'.'

unfoldable pub is_version : Text × Text → Bool
unfolding any all
is_version (core, rest) =
    not (not (starts_with_one is_ascii_digit core) || not (any (λ c. c == b'.') core))
    && (is_empty rest
        || (starts_with_one is_separator rest
            && all (λ c. is_ascii_alphanumeric c || (c == b'.' || (c == b'-' || c == b'+'))) rest))

unfoldable pub is_version_token : Text → Bool
unfolding take_while
is_version_token token =
    let t = without_v (without_parens token) in
    let core = take_while is_core_char t in
    is_version (move_dots (reverse core) (drop (length core) t))

abbrev pub arch_qualifiers : List Text
arch_qualifiers =
    codes "x64"
    ∷ codes "x86"
    ∷ codes "amd64"
    ∷ codes "arm64"
    ∷ codes "win64"
    ∷ codes "win32"
    ∷ codes "32-bit"
    ∷ codes "64-bit"
    ∷ codes "32bit"
    ∷ codes "64bit"
    ∷ []

unfoldable pub is_arch_qualifier : Text → Bool
is_arch_qualifier token = member (to_ascii_lowercase (without_parens token)) arch_qualifiers

unfoldable pub is_connector : Text → Bool
is_connector (c ∷ []) =
    c == 0x2d
    || c == 0x2013
    || c == 0x2014
    || c == 0x2012
    || c == 0x2212
    || c == 0x7c
    || c == 0x3a
    || c == 0xb7
is_connector _ = false

abbrev pub counter_words : List Text
counter_words = codes "update" ∷ codes "build" ∷ codes "rev" ∷ codes "revision" ∷ codes "patch" ∷ []

-- What the last word is, after the words before it, the last of them first.
pub data Tail : Type 0 where
  version qualifier counter lead_in product : Tail

unfoldable pub counts : Text → List Text → Bool
unfolding all
counts last [] = false
counts last (keyword ∷ before) =
    not (is_empty last)
    && all is_ascii_digit last
    && member (to_ascii_lowercase keyword) counter_words

unfoldable pub tail_of : Bool → Text → List Text → Tail
tail_of removed_version last before =
    if is_version_token last
    then version
    else if is_arch_qualifier last || is_connector last
    then qualifier
    else if counts last before
    then counter
    else if removed_version && member (to_ascii_lowercase last) (codes "version" ∷ codes "ver" ∷ [])
    then lead_in
    else product

-- The first loop of clean_app_name, over the words from the last on.
unfoldable pub strip_tail : Bool → List Text → List Text
strip_tail removed [] = []
strip_tail removed (last ∷ []) = elim (tail_of removed last []) [ product ↦ last ∷ [] | _ ↦ [] ]
strip_tail removed (last ∷ keyword ∷ before) = elim (tail_of removed last (keyword ∷ before)) [
  | version ↦ strip_tail true (keyword ∷ before)
  | qualifier ↦ strip_tail removed (keyword ∷ before)
  | counter ↦ strip_tail true before
  | lead_in ↦ strip_tail removed (keyword ∷ before)
  | product ↦ last ∷ keyword ∷ before
]

-- The second loop.
unfoldable pub strip_connectors : List Text → List Text
strip_connectors [] = []
strip_connectors (w ∷ ws) =
    let rest = strip_connectors ws in if is_connector w then rest else w ∷ ws

unfoldable pub name_of : Text → List Text → Text
name_of name [] = trim name
name_of name (w ∷ ws) = join (0x20 ∷ []) (reverse (w ∷ ws))

unfoldable pub clean_app_name : Text → Text
clean_app_name name =
    name_of name (strip_connectors (strip_tail false (reverse (split_whitespace name))))

unfoldable pub app_id : Unicode → Text → Text
app_id u name = u.to_lowercase (clean_app_name name)

unfoldable pub name_tokens : Text → List Text
unfolding filter
name_tokens s =
    map to_ascii_lowercase
      (filter (λ t. not (is_empty t)) (split (λ c. not (is_ascii_alphanumeric c)) s))

-- w == small for a window w: the first length of small tokens of big
unfoldable pub starts_with_tokens : List Text → List Text → Bool
starts_with_tokens [] big = true
starts_with_tokens (s ∷ small) [] = false
starts_with_tokens (s ∷ small) (b ∷ big) = text_eq b s && starts_with_tokens small big

unfoldable pub has_window : List Text → List Text → Bool
has_window small [] = starts_with_tokens small []
has_window small (b ∷ big) = starts_with_tokens small (b ∷ big) || has_window small big

abbrev pub no_tokens : List Text → Bool
no_tokens [] = true
no_tokens (_ ∷ _) = false

unfoldable pub contiguous_sublist : List Text → List Text → Bool
contiguous_sublist small big =
    if no_tokens small || ltb (length big) (length small) then false else has_window small big

unfoldable pub is_related : List Text → Text × Text → Bool
is_related nt e =
    let kt = name_tokens e.0 in
    not (no_tokens kt) && (contiguous_sublist nt kt || contiguous_sublist kt nt)

-- The HashMap as a list of its entries; `only` is next() twice.
abbrev pub only : List (Text × Text) → Option (Text × Text)
only [] = none
only (e ∷ []) = some e
only (_ ∷ _ ∷ _) = none

abbrev pub has_id : Text → Text × Text → Bool
has_id id e = text_eq e.0 id

unfoldable pub match_related : List Text → List (Text × Text) → Option (Text × Text)
unfolding filter
match_related nt installed = if no_tokens nt then none else only (filter (is_related nt) installed)

unfoldable pub match_installed_entry : Unicode → List (Text × Text) → Text → Option (Text × Text)
unfolding find
match_installed_entry u installed name = elim (find (has_id (app_id u name)) installed) [
  | some e ↦ some e
  | none ↦ match_related (name_tokens (app_id u name)) installed
]
