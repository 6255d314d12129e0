-- ===== src/Updater/Notes.antt =====
-- The BTreeMap of notes in eir-svc/src/updater/config.rs, as the list of its entries in the order of
-- the keys.
pub mod Laws
use eir.Prelude.{Bool, not, Option, List, [], ◌∷◌, any, filter, if◌then◌else◌}
use eir.Text.{Text, text_eq}
use eir.Safety.{text_after}
use eir.Signals.LogMemory.{lookup}

abbrev pub Notes : Type 0
Notes = List (Text × Text)

-- notes.get(key)
unfoldable pub note_of : Text → Notes → Option Text
unfolding lookup
note_of key notes = lookup (λ k. text_eq k key) notes

abbrev pub is_key : Text → Text × Text → Bool
is_key key e = text_eq e.0 key

unfoldable pub contains_key : Text → Notes → Bool
contains_key key notes = any (is_key key) notes

unfoldable pub replace_note : Text → Text → Notes → Notes
replace_note key note [] = []
replace_note key note ((k, n) ∷ notes) =
    (k, if text_eq k key then note else n) ∷ replace_note key note notes

unfoldable pub add_note : Text → Text → Notes → Notes
add_note key note [] = (key, note) ∷ []
add_note key note ((k, n) ∷ notes) =
    let rest = add_note key note notes in
    if text_after k key then (key, note) ∷ (k, n) ∷ notes else (k, n) ∷ rest

-- notes.insert(key, note)
unfoldable pub insert_note : Text → Text → Notes → Notes
insert_note key note notes =
    if contains_key key notes then replace_note key note notes else add_note key note notes

-- notes.remove(key)
unfoldable pub remove_note : Text → Notes → Notes
remove_note key notes = filter (λ e. not (is_key key e)) notes
