-- ===== src/Updater/Config/Sane.antt =====
-- The settings stay within their bounds.
use eir.Prelude.{
  ◌≡◌, refl, ◌≤◌, Bool, true, ◌||◌, some, List, [], ◌∷◌, all, filter, length, length-append, leb,
  ltb, arith, Option-cases, inl, inr, if-elim,
}
use eir.Text.{Text, Unicode, trim}
use eir.Text.Laws.{text_eq_iff}
use eir.Updater.Notes.{Notes, note_of, contains_key, insert_note}
use eir.Updater.Notes.Laws.{length-insert_note, all-insert_note}
use eir.Updater.Config.{
  UpdaterConfig, SettingsUpdate, clamp, push_ignored, sanitize_ignored, push_note, sanitize_notes,
  is_note, sanitize, apply_view, max_app_notes, max_ignored_apps, max_app_note_chars,
  max_schedule_interval_secs,
}

abbrev pub is_short : Text × Text → Bool
is_short e = leb (length e.1) max_app_note_chars

-- Numbers, lists and notes within their bounds, and every learned note is a note of the user's
-- configuration.
pub record IsSane (c : UpdaterConfig) : Type 0 where
  pub schedule_lo : 300 ≤ c.schedule_interval_secs
  pub schedule_hi : c.schedule_interval_secs ≤ max_schedule_interval_secs
  pub attempts_lo : 1 ≤ c.max_attempts_per_app
  pub attempts_hi : c.max_attempts_per_app ≤ 10
  pub apps_lo : 1 ≤ c.max_apps_per_run
  pub apps_hi : c.max_apps_per_run ≤ 100
  pub installer_lo : 1 ≤ c.max_installer_mb
  pub installer_hi : c.max_installer_mb ≤ 4096
  pub ignored : length c.ignored ≤ max_ignored_apps
  pub notes : length c.notes ≤ max_app_notes
  pub short : all is_short c.notes ≡ true
  pub learned :
      (id note : Text) → note_of id c.learned_notes ≡ some note → note_of id c.notes ≡ some note

push_ignored-bounded :
    (u : Unicode) (safe : List Text) (raw : Text)
    → length safe ≤ max_ignored_apps
    → length (push_ignored u safe raw) ≤ max_ignored_apps
unfolding push_ignored
push_ignored-bounded u safe raw h =
    ground (arith, length-append safe (u.to_lowercase (trim raw) ∷ []))

sanitize_ignored-bounded :
    (u : Unicode) (safe ids : List Text)
    → length safe ≤ max_ignored_apps
    → length (sanitize_ignored u safe ids) ≤ max_ignored_apps
unfolding sanitize_ignored
sanitize_ignored-bounded u safe [] h = h
sanitize_ignored-bounded u safe (raw ∷ ids) h =
    sanitize_ignored-bounded u (push_ignored u safe raw) ids (push_ignored-bounded u safe raw h)

abbrev pub AreNotes : Notes → Type 0
AreNotes m = (length m ≤ max_app_notes) × (all is_short m ≡ true)

pub insert_note-AreNotes :
    (key note : Text) (m : Notes)
    → leb (length note) max_app_note_chars ≡ true
    → (contains_key key m || ltb (length m) max_app_notes) ≡ true
    → AreNotes m
    → AreNotes (insert_note key note m)
insert_note-AreNotes key note m fits room h = (
  ground (arith, length-insert_note key note m),
  all-insert_note is_short key note (λ j. fits) m h.1,
)

push_note-AreNotes :
    (u : Unicode) (safe : Notes) (id note : Text)
    → AreNotes safe
    → AreNotes (push_note u safe id note)
unfolding push_note
push_note-AreNotes u safe id note h =
    if-elim AreNotes (leb max_app_notes (length safe)) safe _ (λ _. h)
      (λ room.
        if-elim AreNotes _ _ safe
          (λ good.
            insert_note-AreNotes (u.to_lowercase (trim id)) (trim note) safe (ground arith)
              (ground arith) h)
          (λ _. h))

sanitize_notes-AreNotes :
    (u : Unicode) (safe notes : Notes) → AreNotes safe → AreNotes (sanitize_notes u safe notes)
unfolding sanitize_notes
sanitize_notes-AreNotes u safe [] h = h
sanitize_notes-AreNotes u safe ((id, note) ∷ notes) h =
    sanitize_notes-AreNotes u (push_note u safe id note) notes (push_note-AreNotes u safe id note h)

is_note-note_of :
    (notes : Notes) (k n : Text) → is_note notes (k, n) ≡ true → note_of k notes ≡ some n
unfolding is_note
is_note-note_of notes k n h = elim (Option-cases (note_of k notes)) [
  | inl e ↦ absurd (ground arith)
  | inr (x, e) ↦ ground (arith, text_eq_iff x n)
]

note_of-filter :
    (notes m : Notes) (id note : Text)
    → note_of id (filter (is_note notes) m) ≡ some note
    → note_of id notes ≡ some note
unfolding note_of filter
note_of-filter notes [] id note h = absurd (ground arith)
note_of-filter notes ((k, n) ∷ m) id note h =
    ground (arith, text_eq_iff k id, is_note-note_of notes k n, note_of-filter notes m id note)

pub sanitize-IsSane : (u : Unicode) (c : UpdaterConfig) → IsSane (sanitize u c)
unfolding sanitize clamp all
sanitize-IsSane u c = record {
  schedule_lo = ground arith;
  schedule_hi = ground arith;
  attempts_lo = ground arith;
  attempts_hi = ground arith;
  apps_lo = ground arith;
  apps_hi = ground arith;
  installer_lo = ground arith;
  installer_hi = ground arith;
  ignored = sanitize_ignored-bounded u [] c.ignored (omega arith);
  notes = (sanitize_notes-AreNotes u [] c.notes (omega arith, refl)).0;
  short = (sanitize_notes-AreNotes u [] c.notes (omega arith, refl)).1;
  learned = note_of-filter (sanitize_notes u [] c.notes) (sanitize_notes u [] c.learned_notes);
}

pub apply_view-IsSane :
    (v : SettingsUpdate) (c : UpdaterConfig) → IsSane c → IsSane (apply_view v c)
unfolding apply_view clamp
apply_view-IsSane v c h = record {
  schedule_lo = ground arith;
  schedule_hi = ground arith;
  attempts_lo = h.attempts_lo;
  attempts_hi = h.attempts_hi;
  apps_lo = h.apps_lo;
  apps_hi = h.apps_hi;
  installer_lo = h.installer_lo;
  installer_hi = h.installer_hi;
  ignored = h.ignored;
  notes = h.notes;
  short = h.short;
  learned = h.learned;
}

-- The notes of sane settings replaced by others that are sane.
pub with_notes :
    (c : UpdaterConfig) (notes learned : Notes)
    → IsSane c
    → AreNotes notes
    → ((id note : Text) → note_of id learned ≡ some note → note_of id notes ≡ some note)
    → IsSane (record c { notes = notes; learned_notes = learned })
with_notes c notes learned h n l = record {
  schedule_lo = h.schedule_lo;
  schedule_hi = h.schedule_hi;
  attempts_lo = h.attempts_lo;
  attempts_hi = h.attempts_hi;
  apps_lo = h.apps_lo;
  apps_hi = h.apps_hi;
  installer_lo = h.installer_lo;
  installer_hi = h.installer_hi;
  ignored = h.ignored;
  notes = n.0;
  short = n.1;
  learned = l;
}

pub with_ignored :
    (c : UpdaterConfig) (ids : List Text)
    → IsSane c
    → length ids ≤ max_ignored_apps
    → IsSane (record c { ignored = ids })
with_ignored c ids h n = record {
  schedule_lo = h.schedule_lo;
  schedule_hi = h.schedule_hi;
  attempts_lo = h.attempts_lo;
  attempts_hi = h.attempts_hi;
  apps_lo = h.apps_lo;
  apps_hi = h.apps_hi;
  installer_lo = h.installer_lo;
  installer_hi = h.installer_hi;
  ignored = n;
  notes = h.notes;
  short = h.short;
  learned = h.learned;
}
