-- ===== src/Learn/Store.antt =====
-- eir-svc/src/learn/store.rs and label.rs: the table learned_facts, newest row first.
pub mod Spec
pub mod Entries
pub mod Refines
pub mod Overrides
pub mod Labels
use eir.Prelude.{
  ℕ, suc, ◌+◌, Bool, true, false, ◌&&◌, not, Option, none, some, List, [], ◌∷◌, any, filter, length,
  take, ◌++◌, ltb, map, ◌==◌, if◌then◌else◌, is_none,
}
use eir.Prelude.Result.{Result, ok, err}
use eir.Text.{
  split_whitespace, Text, codes, text_eq, member, is_empty, trim, trim_start_matches,
  trim_end_matches, join,
}
use eir.Safety.{text_after}

pub data Status : Type 0 where
  active expired user_disabled user_pinned : Status

-- A row; `detector` says that its source is 'detector'.
pub record Fact : Type 0 where
  pub id : ℕ
  pub kind : Text
  pub subject : Text
  pub effect_json : Text
  pub evidence : Text
  pub window_days : ℕ
  pub first_seen_at : Text
  pub last_reinforced_at : Text
  pub status : Status
  pub detector : Bool
  pub ai_explanation : Option Text
  pub ai_label_attempted_at : Option Text

pub record Facts : Type 0 where
  pub rows : List Fact
  pub next_id : ℕ

-- WHERE kind = ? AND subject = ?
unfoldable pub has_key : Text → Text → Fact → Bool
has_key kind subject f = text_eq f.kind kind && text_eq f.subject subject

-- UPDATE learned_facts SET .. WHERE ..
unfoldable pub update_where : (Fact → Bool) → (Fact → Fact) → List Fact → List Fact
update_where p g [] = []
update_where p g (f ∷ fs) = (if p f then g f else f) ∷ update_where p g fs

-- CASE WHEN status IN ('user_disabled', 'user_pinned') THEN status ELSE 'active' END
unfoldable pub reinforced : Status → Status
reinforced user_disabled = user_disabled
reinforced user_pinned = user_pinned
reinforced _ = active

-- The INSERT takes the next id before the conflict is found, so a reinforced row uses one up.
unfoldable pub upsert_fact : Text → Text → Text → Text → Text → ℕ → Facts → Facts
upsert_fact now kind subject effect_json evidence window_days db =
    if any (has_key kind subject) db.rows
    then record {
      rows =
          update_where (has_key kind subject)
            (λ f. record f {
              effect_json = effect_json;
              evidence = evidence;
              last_reinforced_at = now;
              status = reinforced f.status;
            })
            db.rows;
      next_id = suc db.next_id;
    }
    else record {
      rows =
          record {
            id = db.next_id;
            kind = kind;
            subject = subject;
            effect_json = effect_json;
            evidence = evidence;
            window_days = window_days;
            first_seen_at = now;
            last_reinforced_at = now;
            status = active;
            detector = true;
            ai_explanation = none;
            ai_label_attempted_at = none;
          }
          ∷ db.rows;
      next_id = suc db.next_id;
    }

unfoldable pub is_active : Status → Bool
is_active active = true
is_active _ = false

-- The rows that expire_unsupported marks: one UPDATE for each subject without evidence.
unfoldable pub is_unsupported : Text → List Text → Fact → Bool
is_unsupported kind current f =
    text_eq f.kind kind && f.detector && is_active f.status && not (member f.subject current)

unfoldable pub expire_unsupported : Text → List Text → Facts → Facts
expire_unsupported kind current db = record db {
  rows = update_where (is_unsupported kind current) (λ f. record f { status = expired }) db.rows;
}

-- status IN ('active', 'expired')
unfoldable pub is_learned : Status → Bool
is_learned active = true
is_learned expired = true
is_learned _ = false

-- DELETE FROM learned_facts WHERE .., and rows_affected
unfoldable pub delete_where : (Fact → Bool) → List Fact → List Fact
delete_where p fs = filter (λ f. not (p f)) fs

unfoldable pub clear_detector_facts : Facts → Facts × ℕ
clear_detector_facts db = (
  record db { rows = delete_where (λ f. f.detector && is_learned f.status) db.rows },
  length (filter (λ f. f.detector && is_learned f.status) db.rows),
)

-- status IN ('active', 'user_pinned')
unfoldable pub in_force : Status → Bool
in_force active = true
in_force user_pinned = true
in_force _ = false

unfoldable pub active_facts : Facts → List Fact
active_facts db = filter (λ f. in_force f.status) db.rows

unfoldable pub active_self_updater_subjects : Facts → List Text
active_self_updater_subjects db =
    map (λ f. f.subject)
      (filter (λ f. text_eq f.kind (codes "self_updater_suspected") && in_force f.status) db.rows)

unfoldable pub is_unlabelled : Fact → Bool
is_unlabelled f = f.detector && in_force f.status && is_none f.ai_label_attempted_at

-- ORDER BY last_reinforced_at DESC LIMIT 1
unfoldable pub newest : Fact → List Fact → Fact
newest best [] = best
newest best (f ∷ fs) =
    newest (if text_after f.last_reinforced_at best.last_reinforced_at then f else best) fs

abbrev pub first_newest : List Fact → Option Fact
first_newest [] = none
first_newest (f ∷ fs) = some (newest f fs)

unfoldable pub next_unlabelled : Facts → Option Fact
next_unlabelled db = first_newest (filter is_unlabelled db.rows)

abbrev pub has_id : ℕ → Fact → Bool
has_id id f = f.id == id

unfoldable pub mark_label_attempted : Text → ℕ → Facts → Facts
mark_label_attempted now id db = record db {
  rows = update_where (has_id id) (λ f. record f { ai_label_attempted_at = some now }) db.rows;
}

unfoldable pub set_ai_explanation : ℕ → Text → Facts → Facts
set_ai_explanation id explanation db = record db {
  rows = update_where (has_id id) (λ f. record f { ai_explanation = some explanation }) db.rows;
}

pub data FactOp : Type 0 where
  forget pin disable : FactOp

pub data FactError : Type 0 where
  unknown_operation fact_not_found : FactError

unfoldable pub parse_op : Text → Option FactOp
parse_op op =
    if text_eq op (codes "forget")
    then some forget
    else if text_eq op (codes "pin")
    then some pin
    else if text_eq op (codes "disable")
    then some disable
    else none

unfoldable pub apply_op : ℕ → FactOp → List Fact → List Fact
apply_op id forget fs = delete_where (has_id id) fs
apply_op id pin fs = update_where (has_id id) (λ f. record f { status = user_pinned }) fs
apply_op id disable fs = update_where (has_id id) (λ f. record f { status = user_disabled }) fs

unfoldable pub set_parsed : ℕ → Option FactOp → Facts → Facts × Result FactError (Unit {0})
set_parsed id none db = (db, err unknown_operation)
set_parsed id (some o) db = (
  record db { rows = apply_op id o db.rows },
  if length (filter (has_id id) db.rows) == 1 then ok tt else err fact_not_found,
)

-- The table after the call, which writes before it looks at the count, and its result.
unfoldable pub set_learned_fact : ℕ → Text → Facts → Facts × Result FactError (Unit {0})
set_learned_fact id op db = set_parsed id (parse_op op) db

abbrev pub max_explanation : ℕ
max_explanation = 200

unfoldable pub sanitise : Text → Text
sanitise raw =
    let trimmed = trim (
      trim_end_matches (λ c. c == 0x22)
        (trim_start_matches (λ c. c == 0x22) (trim (join (0x20 ∷ []) (split_whitespace raw))))) in
    if ltb max_explanation (length trimmed)
    then take max_explanation trimmed ++ (0x2026 ∷ [])
    else trimmed

abbrev pub explain_with : ℕ → Text → Facts → Facts × Bool
explain_with id explanation db =
    if is_empty explanation then (db, false) else (set_ai_explanation id explanation db, true)

unfoldable pub label_reply : ℕ → Option Text → Facts → Facts × Bool
label_reply id none db = (db, false)
label_reply id (some content) db = explain_with id (sanitise content) db

unfoldable pub label_next :
    Text → (Facts → Facts) → Option Text → Facts → Option Fact → Facts × Bool
label_next now during reply db none = (db, false)
label_next now during reply db (some f) =
    label_reply f.id reply (during (mark_label_attempted now f.id db))

-- label_one, with the model's reply and what other tasks do to the table while it is awaited.
unfoldable pub label_one : Text → (Facts → Facts) → Option Text → Facts → Facts × Bool
label_one now during reply db = label_next now during reply db (next_unlabelled db)
