-- ===== src/Settings.antt =====
-- eir-svc/src/config.rs: the lists of the monitoring section, checked when they are saved and cleaned
-- when they are loaded.
pub mod Loaded
use eir.Prelude.{
  ℕ, Bool, false, ◌&&◌, ◌||◌, not, Option, none, some, List, [], ◌∷◌, ◌++◌, any, length, take, ltb,
  leb, ◌==◌, if◌then◌else◌,
}
use eir.Prelude.Result.{Result, ok, err, ◌>>=◌, ◌>>◌}
use eir.Text.{Text, member, is_empty, trim, replace_char, to_ascii_lowercase}
use eir.Json.Repair.{is_control}

abbrev pub max_log_directories : ℕ
max_log_directories = 16

abbrev pub max_log_directory_chars : ℕ
max_log_directory_chars = 1024

abbrev pub max_event_log_channels : ℕ
max_event_log_channels = 64

abbrev pub max_event_log_channel_chars : ℕ
max_event_log_channel_chars = 256

pub data SettingsError : Type 0 where
  too_many too_long control_characters not_local : SettingsError

-- The checks on one trimmed entry that is not empty, and what two entries may not share.
pub record Rules : Type 0 where
  pub check : Text → Option SettingsError
  pub key : Text → Text

-- The loop of normalize_event_log_channels and normalize_log_directories.
unfoldable pub normalize_from :
    Rules → List Text → List Text → List Text → Result SettingsError (List Text)
normalize_from r seen safe [] = ok safe
normalize_from r seen safe (raw ∷ raws) =
    let c = trim raw in
    if is_empty c then normalize_from r seen safe raws else elim (r.check c) [
      | some e ↦ err e
      | none ↦
          if member (r.key c) seen
          then normalize_from r seen safe raws
          else normalize_from r (r.key c ∷ seen) (safe ++ (c ∷ [])) raws
    ]

unfoldable pub normalize_list : Rules → ℕ → List Text → Result SettingsError (List Text)
normalize_list r max items =
    if ltb max (length items) then err too_many else normalize_from r [] [] items

unfoldable pub check_channel : Text → Option SettingsError
unfolding any
check_channel c =
    if ltb max_event_log_channel_chars (length c)
    then some too_long
    else if any is_control c
    then some control_characters
    else none

abbrev pub channels : Rules
channels = record { check = check_channel; key = to_ascii_lowercase }

unfoldable pub normalize_event_log_channels : List Text → Result SettingsError (List Text)
normalize_event_log_channels items = normalize_list channels max_event_log_channels items

abbrev is_letter : ℕ → Bool
is_letter c = (leb b'A' c && leb c b'Z') || (leb b'a' c && leb c b'z')

-- Path::components of a Windows build begins with a disk and the root.
unfoldable pub is_local_drive : Text → Bool
is_local_drive (d ∷ colon ∷ sep ∷ _) =
    is_letter d && (colon == b':' && (sep == b'/' || sep == 0x5c))
is_local_drive _ = false

unfoldable pub check_directory : Text → Option SettingsError
check_directory c =
    if ltb max_log_directory_chars (length c)
    then some too_long
    else if not (is_local_drive c)
    then some not_local
    else none

unfoldable pub directory_key : Text → Text
directory_key c = to_ascii_lowercase (replace_char b'/' 0x5c c)

abbrev pub directories : Rules
directories = record { check = check_directory; key = directory_key }

unfoldable pub normalize_log_directories : List Text → Result SettingsError (List Text)
normalize_log_directories items = normalize_list directories max_log_directories items

-- What was kept, and the keys of it.
pub record Kept : Type 0 where
  pub seen : List Text
  pub safe : List Text

unfoldable pub keep_new : Rules → List Text → Kept → Kept
keep_new r [] k = k
keep_new r (c ∷ cs) k = keep_new r cs (
    if member (r.key c) k.seen
    then k
    else record { seen = r.key c ∷ k.seen; safe = k.safe ++ (c ∷ []) })

-- An entry that does not pass is left out with a warning.
unfoldable pub keep_loaded : Rules → Result SettingsError (List Text) → Kept → Kept
keep_loaded r (ok items) k = keep_new r items k
keep_loaded r (err e) k = k

unfoldable pub load_channels : List Text → Kept → Kept
load_channels [] k = k
load_channels (raw ∷ raws) k =
    load_channels raws (keep_loaded channels (normalize_event_log_channels (raw ∷ [])) k)

unfoldable pub sanitize_loaded_event_log_channels : List Text → List Text
sanitize_loaded_event_log_channels items =
    (load_channels (take max_event_log_channels items) (record { seen = []; safe = [] })).safe

unfoldable pub load_directories : List Text → Kept → Kept
load_directories [] k = k
load_directories (raw ∷ raws) k =
    let rest =
      load_directories raws (keep_loaded directories (normalize_log_directories (raw ∷ [])) k) in
    if leb max_log_directories (length k.safe) then k else rest

unfoldable pub sanitize_loaded_log_directories : List Text → List Text
sanitize_loaded_log_directories items =
    (load_directories items (record { seen = []; safe = [] })).safe
