-- ===== src/Prefs/Table.antt =====
-- The table of preferences: its size, and what a stored preference reads as.
use eir.Prelude.{
  ◌≡◌, ◌⊎◌, refl, suc, ◌≤◌, Bool, not, some, List, [], ◌∷◌, any, find, length, length-filter, arith,
  inl, inr, if◌then◌else◌,
}
use eir.Prelude.Result.{Result, ok, err}
use eir.Text.{Text, text_eq, codes}
use eir.Text.Laws.{text_eq_iff}
use eir.Prefs.{
  PrefRow, Preference, ignore, always_approve, PrefError, has_pref_key, upsert_pref, set_preference,
  validate_key, get_preference, clear_preference, clear_always_approve, parse_pref, pref_token,
  max_action_preferences, is_always_approve, new_pref,
}

parse_pref-pref_token : (p : Preference) → parse_pref (pref_token p) ≡ some p
unfolding parse_pref pref_token text_eq codes
parse_pref-pref_token ignore = refl
parse_pref-pref_token always_approve = refl

find-upsert_pref :
    (new : PrefRow) (k : Text) (rs : List PrefRow)
    → find (has_pref_key k) (upsert_pref new rs)
      ≡ (if text_eq new.action_key k then some new else find (has_pref_key k) rs)
unfolding find upsert_pref
find-upsert_pref new k [] = refl
find-upsert_pref new k (r ∷ rs) = ground (
  arith,
  text_eq_iff r.action_key new.action_key,
  text_eq_iff r.action_key k,
  text_eq_iff new.action_key k,
  find-upsert_pref new k rs,
)

length-upsert_pref :
    (new : PrefRow) (rs : List PrefRow)
    → length (upsert_pref new rs)
      ≡ (if any (has_pref_key new.action_key) rs then length rs else suc (length rs))
unfolding any upsert_pref
length-upsert_pref new [] = refl
length-upsert_pref new (r ∷ rs) = ground (arith, length-upsert_pref new rs)

-- A call on the table; a call that fails leaves it alone.
pub data PrefCall : Type 0 where
  set : Text → Text → Preference → Text → Text → PrefCall
  clear : Text → PrefCall
  clear_approval : Text → PrefCall

abbrev rows_or : List PrefRow → Result PrefError (List PrefRow) → List PrefRow
rows_or rows (ok rows') = rows'
rows_or rows (err e) = rows

abbrev pair_or : List PrefRow → Result PrefError (List PrefRow × Bool) → List PrefRow
pair_or rows (ok (rows', _)) = rows'
pair_or rows (err e) = rows

unfoldable pub pref_step : PrefCall → List PrefRow → List PrefRow
pref_step (set now key p summary target) rows =
    rows_or rows (set_preference now key p summary target rows)
pref_step (clear key) rows = pair_or rows (clear_preference key rows)
pref_step (clear_approval key) rows = pair_or rows (clear_always_approve key rows)

unfoldable pub pref_run : List PrefCall → List PrefRow → List PrefRow
pref_run [] rows = rows
pref_run (c ∷ cs) rows = pref_run cs (pref_step c rows)

Result-cases :
    (r : Result PrefError Text) → ((k : Text) × (r ≡ ok k)) ⊎ ((e : PrefError) × (r ≡ err e))
Result-cases (ok k) = inl (k, refl)
Result-cases (err e) = inr (e, refl)

pref_step-bounded :
    (c : PrefCall) (rows : List PrefRow)
    → length rows ≤ max_action_preferences
    → length (pref_step c rows) ≤ max_action_preferences
unfolding pref_step set_preference clear_preference clear_always_approve
pref_step-bounded (set now key p summary target) rows h = elim (Result-cases (validate_key key)) [
  | inl (k, e) ↦ ground (arith, length-upsert_pref (new_pref now k p summary target) rows)
  | inr (x, e) ↦ ground arith
]
pref_step-bounded (clear key) rows h = elim (Result-cases (validate_key key)) [
  | inl (k, e) ↦
      rw (e, clear_preference) (omega (arith, h, length-filter (λ r. not (has_pref_key k r)) rows))
  | inr (x, e) ↦ rw (e, clear_preference) h
]
pref_step-bounded (clear_approval key) rows h = elim (Result-cases (validate_key key)) [
  | inl (k, e) ↦
      rw (e, clear_always_approve)
        (omega (arith, h, length-filter (λ r. not (is_always_approve k r)) rows))
  | inr (x, e) ↦ rw (e, clear_always_approve) h
]

-- Whatever calls are made, the table holds at most 256 preferences if it did before.
pub pref_run-bounded :
    (cs : List PrefCall) (rows : List PrefRow)
    → length rows ≤ max_action_preferences
    → length (pref_run cs rows) ≤ max_action_preferences
unfolding pref_run
pref_run-bounded [] rows h = h
pref_run-bounded (c ∷ cs) rows h =
    pref_run-bounded cs (pref_step c rows) (pref_step-bounded c rows h)

set_preference-ok :
    (now key : Text) (p : Preference) (summary target : Text) (rows rows' : List PrefRow) (k : Text)
    → set_preference now key p summary target rows ≡ ok rows'
    → validate_key key ≡ ok k
    → rows' ≡ upsert_pref (new_pref now k p summary target) rows
unfolding set_preference
set_preference-ok now key p summary target rows rows' k h e = ground arith

-- A preference that was stored reads back under its key, and every other key reads as before.
pub get-set_preference :
    (now key other : Text) (p : Preference) (summary target : Text) (rows rows' : List PrefRow)
    (k j : Text)
    → set_preference now key p summary target rows ≡ ok rows'
    → validate_key key ≡ ok k
    → validate_key other ≡ ok j
    → get_preference other rows' ≡ (if text_eq k j then ok (some p) else get_preference other rows)
unfolding get_preference
get-set_preference now key other p summary target rows rows' k j h e f = ground (
  arith,
  set_preference-ok now key p summary target rows rows' k,
  find-upsert_pref (new_pref now k p summary target) j rows,
  parse_pref-pref_token p,
)
