-- ===== src/Updater/Winget.antt =====
-- eir-svc/src/updater/winget_parse.rs: the tables that winget prints.
pub mod Unmanaged
use eir.Prelude.{
  ℕ, ◌-◌, Bool, true, false, ◌&&◌, ◌||◌, not, none, some, List, [], ◌∷◌, ◌++◌, map, any, all, find,
  length, take, drop, leb, ◌==◌, if◌then◌else◌,
}
use eir.Prelude.Sort.{sort_by}
use eir.Text.{
  Text, Unicode, codes, text_eq, member, is_empty, trim, trim_end_matches, starts_with, contains,
  before_text, after_last, lines, split_whitespace, eq_ignore_ascii_case, is_ascii_digit, utf8_len,
}
use eir.Updater.Names.{app_id, clean_app_name, starts_with_one}

pub record AppUpdate : Type 0 where
  pub id : Text
  pub name : Text
  pub current : Text
  pub available : Text

abbrev pub winget_columns : List Text
winget_columns =
    codes "Name" ∷ codes "Id" ∷ codes "Version" ∷ codes "Available" ∷ codes "Source" ∷ []

-- A column: its label and the offset of its first character.
abbrev pub Offset : Type 0
Offset = Text × ℕ

unfoldable pub is_header : Text → Bool
is_header l = contains l (codes "Id") && contains l (codes "Version")

unfoldable pub label_offsets : Text → List Text → List Offset
label_offsets h [] = []
label_offsets h (label ∷ labels) = elim (before_text label h) [
  | none ↦ label_offsets h labels
  | some before ↦ (label, length before) ∷ label_offsets h labels
]

abbrev by_start : Offset → Offset → Bool
by_start a b = leb a.1 b.1

-- l.rsplit(CR).next()
abbrev painted : Text → Text
painted l = after_last 0x0d l

unfoldable pub header_offsets : Text → List Offset
unfolding find sort_by
header_offsets text = elim (find is_header (map painted (lines text))) [
  | none ↦ []
  | some h ↦ sort_by by_start (label_offsets h winget_columns)
]

abbrev has_label : List Offset → Text → Bool
has_label offsets label = any (λ o. text_eq o.0 label) offsets

unfoldable pub header_present : Text → Bool
unfolding any all
header_present text =
    all (has_label (header_offsets text))
      (codes "Name" ∷ codes "Id" ∷ codes "Version" ∷ codes "Available" ∷ [])

abbrev min_ℕ : ℕ → ℕ → ℕ
min_ℕ a b = if leb a b then a else b

abbrev end_of : List Offset → Text → ℕ
end_of [] row = length row
end_of (o ∷ _) row = min_ℕ o.1 (length row)

-- row[start..end], trimmed
unfoldable pub cell : ℕ → ℕ → Text → Text
cell start end row =
    if leb (length row) start then [] else trim (take (end - start) (drop start row))

unfoldable pub column : List Offset → Text → Text → Text
column [] row label = []
column (o ∷ offsets) row label =
    let rest = column offsets row label in
    if text_eq o.0 label then cell o.1 (end_of offsets row) row else rest

unfoldable pub is_footer : Unicode → Text → Bool
is_footer u trimmed =
    (starts_with_one is_ascii_digit trimmed
      && contains (u.to_lowercase trimmed) (codes "available"))
    || starts_with (u.to_lowercase trimmed) (codes "the following packages")

-- The loop of winget_table.
unfoldable pub table_rows : Unicode → Bool → List Text → List Text
table_rows u in_table [] = []
table_rows u false (raw_line ∷ ls) =
    table_rows u (contains (trim (painted raw_line)) (codes "-----")) ls
table_rows u true (raw_line ∷ ls) =
    let rest = table_rows u true ls in
    if is_empty (trim (painted raw_line))
    then rest
    else if is_footer u (trim (painted raw_line))
    then []
    else painted raw_line ∷ rest

unfoldable pub winget_table : Unicode → Text → List Offset × List Text
winget_table u text = (header_offsets text, table_rows u false (lines text))

abbrev ellipsis : ℕ
ellipsis = 0x2026

unfoldable pub id_of_row : List Offset → Text → Text
id_of_row offsets row =
    trim_end_matches (λ c. c == b'.')
      (trim_end_matches (λ c. c == ellipsis) (column offsets row (codes "Id")))

unfoldable pub push_update : List Offset → Text → List AppUpdate → List AppUpdate
push_update offsets row updates =
    if is_empty (id_of_row offsets row) || is_empty (column offsets row (codes "Available"))
    then updates
    else record {
      id = id_of_row offsets row;
      name = column offsets row (codes "Name");
      current = column offsets row (codes "Version");
      available = column offsets row (codes "Available");
    }
      ∷ updates

unfoldable pub updates_of_rows : List Offset → List Text → List AppUpdate
updates_of_rows offsets [] = []
updates_of_rows offsets (row ∷ rows) = push_update offsets row (updates_of_rows offsets rows)

unfoldable pub parse_upgrades : Unicode → Text → List AppUpdate
parse_upgrades u text = let (offsets, rows) = winget_table u text in updates_of_rows offsets rows

abbrev pub noise_words : List Text
noise_words =
    codes "driver"
    ∷ codes "redistributable"
    ∷ codes "runtime"
    ∷ codes "microsoft visual c++"
    ∷ codes "windows subsystem for linux"
    ∷ codes "windows sdk"
    ∷ codes "update for"
    ∷ codes "security update"
    ∷ codes "hotfix"
    ∷ codes "maintenance service"
    ∷ codes "microsoft .net"
    ∷ codes "directx"
    ∷ codes "realtek"
    ∷ codes "intel(r)"
    ∷ codes "host app"
    ∷ codes "web experience"
    ∷ codes "microsoft 365"
    ∷ codes "microsoft office"
    ∷ codes "visual studio installer"
    ∷ codes "onedrive"
    ∷ codes "teams machine-wide"
    ∷ []

unfoldable pub is_noise : Unicode → Text → Bool
unfolding any
is_noise u name =
    any (contains (u.to_lowercase name)) noise_words
    || member (codes "eir") (split_whitespace (u.to_lowercase name))

unfoldable pub is_winget_catalog_id : Text → Bool
unfolding any
is_winget_catalog_id raw =
    let id = trim_end_matches (λ c. c == ellipsis) raw in
    any (λ c. c == b'.') id
    && not (any (λ c. c == 0x5c) id)
    && not (any (λ c. c == b'/') id)
    && not (any (λ c. c == 0x20) id)

-- A Store package, or a registration in a user's profile; the nine bytes are ASCII.
unfoldable pub is_elsewhere : Text → Bool
is_elsewhere id =
    starts_with id (codes "MSIX" ++ (0x5c ∷ []))
    || eq_ignore_ascii_case (take 9 id) (codes "ARP" ++ (0x5c ∷ (codes "User" ++ (0x5c ∷ []))))

abbrev is_source : Text → Text → Bool
is_source known source = leb 5 (utf8_len source) && starts_with known source

unfoldable pub is_managed_source : Text → Text → Bool
is_managed_source source id =
    is_source (codes "msstore") source
    || (is_source (codes "winget") source && is_winget_catalog_id id)

unfoldable pub source_of_row : Unicode → List Offset → Text → Text
source_of_row u offsets row =
    u.to_lowercase (trim_end_matches (λ c. c == ellipsis) (column offsets row (codes "Source")))

-- The row is no application for the AI check: one of the `continue`s.
unfoldable pub is_skipped_row : Unicode → List Text → List Offset → Text → Bool
is_skipped_row u already_managed offsets row =
    let name = column offsets row (codes "Name") in
    let id = column offsets row (codes "Id") in
    is_elsewhere id
    || (is_empty name || is_empty (column offsets row (codes "Version")) || is_noise u name)
    || is_managed_source (source_of_row u offsets row) id
    || member (app_id u name) already_managed

unfoldable pub apps_of_rows : Unicode → List Text → List Offset → List Text → List (Text × Text)
apps_of_rows u already_managed offsets [] = []
apps_of_rows u already_managed offsets (row ∷ rows) =
    let rest = apps_of_rows u already_managed offsets rows in
    if is_skipped_row u already_managed offsets row
    then rest
    else (clean_app_name (column offsets row (codes "Name")), column offsets row (codes "Version"))
      ∷ rest

unfoldable pub parse_unmanaged : Unicode → Text → List Text → List (Text × Text)
parse_unmanaged u text already_managed =
    let (offsets, rows) = winget_table u text in apps_of_rows u already_managed offsets rows
