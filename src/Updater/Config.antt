-- ===== src/Updater/Config.antt =====
-- eir-svc/src/updater/config.rs: the settings of the updater, bounded when they are loaded and
-- changed by the user.
pub mod Sane
pub mod Changes
mod Bounds
unfoldable pub use Bounds.*
use eir.Prelude.{
  ℕ, Bool, true, false, ◌&&◌, ◌||◌, not, Option, none, some, List, [], ◌∷◌, ◌++◌, any, filter,
  length, leb, ltb, ◌*◌, if◌then◌else◌,
}
use eir.Prelude.Result.{Result, ok, err, ◌>>=◌, ◌>>◌, ensure}
use eir.Text.{
  Text, Unicode, text_eq, is_empty, trim, contains, to_ascii_lowercase, eq_ignore_ascii_case,
  is_ascii_alphanumeric,
}
use eir.Updater.Notes.{Notes, note_of, contains_key, insert_note, remove_note}

pub record UpdaterConfig : Type 0 where
  pub enabled : Bool
  pub schedule_interval_secs : ℕ
  pub methods : List Text
  pub native_enabled : Bool
  pub native_signature_policy : SignaturePolicy
  pub max_attempts_per_app : ℕ
  pub max_apps_per_run : ℕ
  pub max_installer_mb : ℕ
  pub bootstrap_managers : Bool
  pub ignored : List Text
  pub notes : Notes
  pub learned_notes : Notes

-- self.notes.get(id) == Some(note)
unfoldable pub is_note : Notes → Text × Text → Bool
is_note notes e = elim (note_of e.0 notes) [ none ↦ false | some note ↦ text_eq note e.1 ]

unfoldable pub sanitize : Unicode → UpdaterConfig → UpdaterConfig
sanitize u c =
    let notes = sanitize_notes u [] c.notes in
    record c {
      schedule_interval_secs = clamp 300 max_schedule_interval_secs c.schedule_interval_secs;
      max_attempts_per_app = clamp 1 10 c.max_attempts_per_app;
      max_apps_per_run = clamp 1 100 c.max_apps_per_run;
      max_installer_mb = clamp 1 4096 c.max_installer_mb;
      methods = sanitize_methods c.methods;
      ignored = sanitize_ignored u [] c.ignored;
      notes = notes;
      learned_notes = filter (is_note notes) (sanitize_notes u [] c.learned_notes);
    }

-- UpdaterSettingsUpdate
pub record SettingsUpdate : Type 0 where
  pub enabled : Bool
  pub schedule_interval_secs : ℕ
  pub methods : List Text
  pub native_enabled : Bool
  pub native_signature_policy : Text

abbrev pub methods_or : List Text → List Text → List Text
methods_or old [] = old
methods_or old (m ∷ ms) = m ∷ ms

unfoldable pub apply_view : SettingsUpdate → UpdaterConfig → UpdaterConfig
apply_view v c = record c {
  enabled = v.enabled;
  schedule_interval_secs = clamp 300 max_schedule_interval_secs v.schedule_interval_secs;
  methods = methods_or c.methods (sanitize_methods v.methods);
  native_enabled = v.native_enabled;
  native_signature_policy = policy_of_token v.native_signature_policy;
}

pub data ConfigError : Type 0 where
  invalid_app_id note_too_long note_limit invalid_guidance ignore_limit : ConfigError

abbrev pub same_note : Option Text → Text → Bool
same_note none note = false
same_note (some n) note = text_eq n note

unfoldable pub write_note : Text → Text → UpdaterConfig → Result ConfigError (UpdaterConfig × Bool)
write_note key note c =
    if same_note (note_of key c.notes) note
    then ok (c, false)
    else ok (
      record c {
        notes = insert_note key note c.notes;
        learned_notes = remove_note key c.learned_notes;
      },
      true,
    )

unfoldable pub set_app_note :
    Unicode → Text → Text → UpdaterConfig → Result ConfigError (UpdaterConfig × Bool)
set_app_note u id raw c = do
  let key = u.to_lowercase (trim id)
  let note = trim raw
  ensure (valid_app_id key) invalid_app_id
  ensure (leb (length note) max_app_note_chars) note_too_long
  if is_empty note
      then ok (
        record c {
          notes = remove_note key c.notes;
          learned_notes = remove_note key c.learned_notes;
        },
        contains_key key c.notes || contains_key key c.learned_notes,
      )
      else (ensure (contains_key key c.notes || ltb (length c.notes) max_app_notes) note_limit
          >> write_note key note c)

unfoldable pub set_learned_guidance :
    Unicode → Text → Text → UpdaterConfig → Result ConfigError (UpdaterConfig × Bool)
set_learned_guidance u id raw c = do
  let key = u.to_lowercase (trim id)
  let note = trim raw
  ensure (valid_app_id key) invalid_app_id
  ensure (not (is_empty note) && leb (length note) max_app_note_chars) invalid_guidance
  ensure (contains_key key c.notes || ltb (length c.notes) max_app_notes) note_limit
  ok (
    record c {
      notes = insert_note key note c.notes;
      learned_notes = insert_note key note c.learned_notes;
    },
    not (same_note (note_of key c.notes) note && same_note (note_of key c.learned_notes) note),
  )

unfoldable pub add_ignored : Bool → Text → UpdaterConfig → Result ConfigError (UpdaterConfig × Bool)
add_ignored listed key c =
    if listed
    then ok (c, false)
    else if leb max_ignored_apps (length c.ignored)
    then err ignore_limit
    else ok (record c { ignored = c.ignored ++ (key ∷ []) }, true)

unfoldable pub set_app_ignored :
    Unicode → Text → Bool → UpdaterConfig → Result ConfigError (UpdaterConfig × Bool)
set_app_ignored u id ignore c = do
  let key = u.to_lowercase (trim id)
  ensure (valid_app_id key) invalid_app_id
  let listed = any (λ x. eq_ignore_ascii_case x key) c.ignored
  if ignore
      then add_ignored listed key c
      else ok
          (record c { ignored = filter (λ x. not (eq_ignore_ascii_case x key)) c.ignored }, listed)

unfoldable pub compact_id : Text → Text
unfolding filter
compact_id id = to_ascii_lowercase (filter is_ascii_alphanumeric id)

unfoldable pub is_close_name : Text → Text × Text → Bool
is_close_name compact e =
    let learned = compact_id e.0 in
    leb 4 (length learned) && (contains compact learned || contains learned compact)

-- max_by_key: the last of the longest
unfoldable pub longest_name : Option Text → ℕ → Notes → Option Text
longest_name best n [] = best
longest_name best n ((id, note) ∷ notes) =
    longest_name (if leb n (length (compact_id id)) then some note else best)
      (if leb n (length (compact_id id)) then length (compact_id id) else n) notes

unfoldable pub guidance_for : Unicode → Text → UpdaterConfig → Option Text
guidance_for u id c = elim (note_of (u.to_lowercase (trim id)) c.notes) [
  | some note ↦ some note
  | none ↦
      longest_name none 0
        (filter (is_close_name (compact_id (u.to_lowercase (trim id)))) c.learned_notes)
]
