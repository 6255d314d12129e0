-- ===== src/Updater/Config/Changes.antt =====
-- Changes by the user and by learning keep the settings within their bounds.
use eir.Prelude.{
  ◌≡◌, refl, ◌≤◌, Bool, true, false, ◌&&◌, ◌||◌, not, List, [], ◌∷◌, ◌++◌, any, all, filter, length,
  length-append, length-filter, leb, ltb, arith, Bool-cases, inl, inr, if-elim,
}
use eir.Prelude.Result.{Result, ok, err, ◌>>◌, ensure}
use eir.Text.{Text, Unicode, trim, is_empty, eq_ignore_ascii_case}
use eir.Updater.Notes.{Notes, note_of, is_key, contains_key, insert_note, remove_note}
use eir.Updater.Notes.Laws.{note_of-insert, note_of-remove}
use eir.Updater.Config.{
  UpdaterConfig, SettingsUpdate, ConfigError, sanitize, apply_view, set_app_note,
  set_learned_guidance, set_app_ignored, write_note, add_ignored, same_note, max_app_notes,
  max_ignored_apps, max_app_note_chars, valid_app_id,
}
use eir.Updater.Config.Sane.{
  IsSane, AreNotes, is_short, insert_note-AreNotes, apply_view-IsSane, with_notes, with_ignored,
  sanitize-IsSane,
}

all-remove_note :
    (p : Text × Text → Bool) (key : Text) (m : Notes)
    → all p m ≡ true
    → all p (remove_note key m) ≡ true
unfolding all remove_note filter
all-remove_note p key [] h = refl
all-remove_note p key (e ∷ m) h = ground (arith, all-remove_note p key m)

length-remove_note : (key : Text) (m : Notes) → length (remove_note key m) ≤ length m
unfolding remove_note
length-remove_note key m = length-filter (λ e. not (is_key key e)) m

module _ (key note : Text) (c : UpdaterConfig) (h : IsSane c) where
  clear_note-IsSane : IsSane (record c {
    notes = remove_note key c.notes;
    learned_notes = remove_note key c.learned_notes;
  })
  clear_note-IsSane =
      with_notes c _ _ h
        (
          omega (arith, h.notes, length-remove_note key c.notes),
          all-remove_note is_short key c.notes h.short,
        )
        (λ i n e. ground (
          arith,
          h.learned i n,
          note_of-remove key i c.notes,
          note_of-remove key i c.learned_notes,
        ))

  write_note-IsSane :
      AreNotes (insert_note key note c.notes)
      → IsSane (record c {
        notes = insert_note key note c.notes;
        learned_notes = remove_note key c.learned_notes;
      })
  write_note-IsSane n = with_notes c _ _ h n (λ i x e. ground (
    arith,
    h.learned i x,
    note_of-insert key note i c.notes,
    note_of-remove key i c.learned_notes,
  ))

  learn_note-IsSane :
      AreNotes (insert_note key note c.notes)
      → IsSane (record c {
        notes = insert_note key note c.notes;
        learned_notes = insert_note key note c.learned_notes;
      })
  learn_note-IsSane n = with_notes c _ _ h n (λ i x e. ground (
    arith,
    h.learned i x,
    note_of-insert key note i c.notes,
    note_of-insert key note i c.learned_notes,
  ))

-- A change that the user or a successful update makes.
pub data Change : Type 0 where
  view : SettingsUpdate → Change
  note : Text → Text → Change
  learn : Text → Text → Change
  ignore : Text → Bool → Change

abbrev config_or : UpdaterConfig → Result ConfigError (UpdaterConfig × Bool) → UpdaterConfig
config_or c (ok (c', _)) = c'
config_or c (err e) = c

unfoldable pub change : Unicode → Change → UpdaterConfig → UpdaterConfig
change u (view v) c = apply_view v c
change u (note id text) c = config_or c (set_app_note u id text c)
change u (learn id text) c = config_or c (set_learned_guidance u id text c)
change u (ignore id on) c = config_or c (set_app_ignored u id on c)

unfoldable pub change_all : Unicode → List Change → UpdaterConfig → UpdaterConfig
change_all u [] c = c
change_all u (x ∷ xs) c = change_all u xs (change u x c)

-- What holds after a check that may fail.
ensure-elim :
    (P : UpdaterConfig → Type 0) (c : UpdaterConfig) (test : Bool) (e : ConfigError)
    (rest : Result ConfigError (UpdaterConfig × Bool))
    → P c
    → (test ≡ true → P (config_or c rest))
    → P (config_or c (ensure test e >> rest))
ensure-elim P c true e rest h k = k refl
ensure-elim P c false e rest h k = h

write_note_lem :
    (key text : Text) (c : UpdaterConfig)
    → IsSane c
    → AreNotes (insert_note key text c.notes)
    → IsSane (config_or c (write_note key text c))
unfolding write_note
write_note_lem key text c h n = elim (Bool-cases (same_note (note_of key c.notes) text)) [
  | inl e ↦ rw e h
  | inr e ↦ rw e (write_note-IsSane key text c h n)
]

add_ignored_lem :
    (listed : Bool) (key : Text) (c : UpdaterConfig)
    → IsSane c
    → IsSane (config_or c (add_ignored listed key c))
unfolding add_ignored
add_ignored_lem true key c h = h
add_ignored_lem false key c h = elim (Bool-cases (leb max_ignored_apps (length c.ignored))) [
  | inl e ↦ rw e h
  | inr e ↦ rw e (
      with_ignored c (c.ignored ++ (key ∷ [])) h
        (ground (arith, length-append c.ignored (key ∷ []))))
]

change-IsSane : (u : Unicode) (x : Change) (c : UpdaterConfig) → IsSane c → IsSane (change u x c)
unfolding change set_app_note set_learned_guidance set_app_ignored
change-IsSane u (view v) c h = apply_view-IsSane v c h
change-IsSane u (note id text) c h =
    ensure-elim IsSane c (valid_app_id (u.to_lowercase (trim id))) _ _ h (λ _.
      ensure-elim IsSane c (leb (length (trim text)) max_app_note_chars) _ _ h (λ fits.
        if-elim (λ r. IsSane (config_or c r)) (is_empty (trim text)) _ _
          (λ _. clear_note-IsSane (u.to_lowercase (trim id)) [] c h)
          (λ _.
            ensure-elim IsSane c
              (contains_key (u.to_lowercase (trim id)) c.notes
                || ltb (length c.notes) max_app_notes)
              _ _ h
              (λ room.
                write_note_lem (u.to_lowercase (trim id)) (trim text) c h
                  (insert_note-AreNotes _ _ c.notes fits room (h.notes, h.short))))))
change-IsSane u (learn id text) c h =
    ensure-elim IsSane c (valid_app_id (u.to_lowercase (trim id))) _ _ h (λ _.
      ensure-elim IsSane c
        (not (is_empty (trim text)) && leb (length (trim text)) max_app_note_chars) _ _ h
        (λ fits.
          ensure-elim IsSane c
            (contains_key (u.to_lowercase (trim id)) c.notes || ltb (length c.notes) max_app_notes)
            _ _ h
            (λ room.
              learn_note-IsSane (u.to_lowercase (trim id)) (trim text) c h
                (insert_note-AreNotes _ _ c.notes (ground arith) room (h.notes, h.short)))))
change-IsSane u (ignore id on) c h =
    ensure-elim IsSane c (valid_app_id (u.to_lowercase (trim id))) _ _ h (λ _.
      if-elim (λ r. IsSane (config_or c r)) on _ _
        (λ _.
          add_ignored_lem (any (λ x. eq_ignore_ascii_case x (u.to_lowercase (trim id))) c.ignored)
            (u.to_lowercase (trim id)) c h)
        (λ _.
          with_ignored c
            (filter (λ x. not (eq_ignore_ascii_case x (u.to_lowercase (trim id)))) c.ignored) h
            (omega (
              arith,
              h.ignored,
              length-filter (λ x. not (eq_ignore_ascii_case x (u.to_lowercase (trim id))))
                  c.ignored,
            ))))

changes-IsSane :
    (u : Unicode) (xs : List Change) (c : UpdaterConfig) → IsSane c → IsSane (change_all u xs c)
unfolding change_all
changes-IsSane u [] c h = h
changes-IsSane u (x ∷ xs) c h = changes-IsSane u xs (change u x c) (change-IsSane u x c h)

-- Settings that were bounded when they were loaded stay bounded: after any changes by the user and
-- any guidance learned, the numbers, the lists and the notes keep their limits, and each learned note
-- is still the note of its application.
pub change_all-IsSane :
    (u : Unicode) (xs : List Change) (c : UpdaterConfig) → IsSane (change_all u xs (sanitize u c))
change_all-IsSane u xs c = changes-IsSane u xs (sanitize u c) (sanitize-IsSane u c)
