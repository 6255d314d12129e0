-- ===== src/Updater/Notes/Laws.antt =====
-- Laws of the map of notes.
use eir.Prelude.{
  ◌≡◌, refl, suc, Bool, true, false, none, some, [], ◌∷◌, any, all, filter, length, arith,
  if◌then◌else◌,
}
use eir.Text.{Text, text_eq}
use eir.Text.Laws.{text_eq_iff}
use eir.Updater.Notes.{
  Notes, note_of, contains_key, replace_note, add_note, insert_note, remove_note,
}

note_of-absent : (k : Text) (m : Notes) → contains_key k m ≡ false → note_of k m ≡ none
unfolding contains_key any note_of
note_of-absent k [] h = refl
note_of-absent k ((j, n) ∷ m) h = ground (arith, note_of-absent k m)

note_of-replace_other :
    (k v : Text) (j : Text) (m : Notes)
    → text_eq k j ≡ false
    → note_of j (replace_note k v m) ≡ note_of j m
unfolding note_of replace_note
note_of-replace_other k v j [] h = refl
note_of-replace_other k v j ((i, n) ∷ m) h =
    ground (arith, text_eq_iff i k, text_eq_iff i j, text_eq_iff k j, note_of-replace_other k v j m)

note_of-replace :
    (k v : Text) (j : Text) (m : Notes)
    → contains_key k m ≡ true
    → note_of j (replace_note k v m) ≡ (if text_eq k j then some v else note_of j m)
unfolding contains_key any note_of replace_note
note_of-replace k v j [] h = absurd (ground arith)
note_of-replace k v j ((i, n) ∷ m) h = ground (
  arith,
  text_eq_iff i k,
  text_eq_iff i j,
  text_eq_iff k j,
  note_of-replace k v j m,
  note_of-replace_other k v j m,
)

note_of-add :
    (k v : Text) (j : Text) (m : Notes)
    → contains_key k m ≡ false
    → note_of j (add_note k v m) ≡ (if text_eq k j then some v else note_of j m)
unfolding contains_key any note_of add_note
note_of-add k v j [] h = refl
note_of-add k v j ((i, n) ∷ m) h =
    ground (arith, text_eq_iff i k, text_eq_iff i j, text_eq_iff k j, note_of-add k v j m)

pub note_of-insert :
    (k v : Text) (j : Text) (m : Notes)
    → note_of j (insert_note k v m) ≡ (if text_eq k j then some v else note_of j m)
unfolding insert_note
note_of-insert k v j m = ground (arith, note_of-replace k v j m, note_of-add k v j m)

pub note_of-remove :
    (k j : Text) (m : Notes)
    → note_of j (remove_note k m) ≡ (if text_eq k j then none else note_of j m)
unfolding note_of remove_note filter
note_of-remove k j [] = ground arith
note_of-remove k j ((i, n) ∷ m) =
    ground (arith, text_eq_iff i k, text_eq_iff i j, text_eq_iff k j, note_of-remove k j m)

length-replace : (k v : Text) (m : Notes) → length (replace_note k v m) ≡ length m
unfolding replace_note
length-replace k v [] = refl
length-replace k v ((i, n) ∷ m) = ground (arith, length-replace k v m)

length-add : (k v : Text) (m : Notes) → length (add_note k v m) ≡ suc (length m)
unfolding add_note
length-add k v [] = refl
length-add k v ((i, n) ∷ m) = ground (arith, length-add k v m)

pub length-insert_note :
    (k v : Text) (m : Notes)
    → length (insert_note k v m) ≡ (if contains_key k m then length m else suc (length m))
unfolding insert_note
length-insert_note k v m = ground (arith, length-replace k v m, length-add k v m)

module _ (p : Text × Text → Bool) (k v : Text) (fits : (j : Text) → p (j, v) ≡ true) where
  all-replace : (m : Notes) → all p m ≡ true → all p (replace_note k v m) ≡ true
  unfolding all replace_note
  all-replace [] h = refl
  all-replace ((i, n) ∷ m) h = ground (arith, fits i, all-replace m)

  all-add : (m : Notes) → all p m ≡ true → all p (add_note k v m) ≡ true
  unfolding all add_note
  all-add [] h = ground (arith, fits k)
  all-add ((i, n) ∷ m) h = ground (arith, fits k, all-add m)

  pub all-insert_note : (m : Notes) → all p m ≡ true → all p (insert_note k v m) ≡ true
  unfolding insert_note
  all-insert_note m h = ground (arith, all-replace m, all-add m)
