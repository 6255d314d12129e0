-- ===== src/Updater/Config/Bounds.antt =====
-- eir-svc/src/updater/config.rs: the bounds on the updater's settings, and the lists and notes that
-- keep them.
use eir.Prelude.{ℕ, Bool, ◌&&◌, not, List, [], ◌∷◌, ◌++◌, any, length, leb, ltb, ◌*◌, if◌then◌else◌}
use eir.Text.{Text, Unicode, codes, text_eq, member, is_empty, trim, to_ascii_lowercase}
use eir.Json.Repair.{is_control}
use eir.Updater.Notes.{Notes, insert_note}

abbrev pub max_app_notes : ℕ
max_app_notes = 500

abbrev pub max_app_note_chars : ℕ
max_app_note_chars = 2000

abbrev pub max_app_id_chars : ℕ
max_app_id_chars = 200

abbrev pub max_ignored_apps : ℕ
max_ignored_apps = 500

abbrev pub max_schedule_interval_secs : ℕ
max_schedule_interval_secs = 365 * 24 * 3600

-- v.clamp(lo, hi)
unfoldable pub clamp : ℕ → ℕ → ℕ → ℕ
clamp lo hi v = if ltb v lo then lo else if ltb hi v then hi else v

unfoldable pub valid_app_id : Text → Bool
valid_app_id raw =
    let id = trim raw in
    not (is_empty id) && leb (length id) max_app_id_chars && not (any is_control id)

abbrev pub manager_names : List Text
manager_names = codes "winget" ∷ codes "choco" ∷ codes "scoop" ∷ codes "msstore" ∷ []

-- the body of the loop of sanitize_methods
unfoldable pub push_method : List Text → Text → List Text
push_method safe raw =
    let method = to_ascii_lowercase (trim raw) in
    if member method manager_names && not (member method safe) then safe ++ (method ∷ []) else safe

unfoldable pub push_methods : List Text → List Text → List Text
push_methods safe [] = safe
push_methods safe (raw ∷ methods) = push_methods (push_method safe raw) methods

unfoldable pub sanitize_methods : List Text → List Text
sanitize_methods methods = push_methods [] methods

-- A full list takes no more: this is the break of the loop.
unfoldable pub push_ignored : Unicode → List Text → Text → List Text
push_ignored u safe raw =
    let id = u.to_lowercase (trim raw) in
    if leb max_ignored_apps (length safe)
    then safe
    else if valid_app_id id && not (member id safe)
    then safe ++ (id ∷ [])
    else safe

unfoldable pub sanitize_ignored : Unicode → List Text → List Text → List Text
sanitize_ignored u safe [] = safe
sanitize_ignored u safe (raw ∷ ids) = sanitize_ignored u (push_ignored u safe raw) ids

unfoldable pub push_note : Unicode → Notes → Text → Text → Notes
push_note u safe raw_id raw_note =
    let id = u.to_lowercase (trim raw_id) in
    let note = trim raw_note in
    if leb max_app_notes (length safe)
    then safe
    else if valid_app_id id && (not (is_empty note) && leb (length note) max_app_note_chars)
    then insert_note id note safe
    else safe

unfoldable pub sanitize_notes : Unicode → Notes → Notes → Notes
sanitize_notes u safe [] = safe
sanitize_notes u safe ((id, note) ∷ notes) = sanitize_notes u (push_note u safe id note) notes

pub data SignaturePolicy : Type 0 where
  require_valid require_publisher_match allow_unsigned : SignaturePolicy

unfoldable pub policy_of_token : Text → SignaturePolicy
policy_of_token s =
    let t = to_ascii_lowercase (trim s) in
    if text_eq t (codes "require_publisher_match")
    then require_publisher_match
    else if text_eq t (codes "allow_unsigned")
    then allow_unsigned
    else require_valid
