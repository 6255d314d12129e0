-- ===== src/Learn/Store/Spec.antt =====
-- The table of learned facts as a function of kind and subject: what a fact's status becomes.
use eir.Prelude.{
  ℕ, suc, Bool, ◌&&◌, ◌||◌, not, Option, none, some, List, [], ◌∷◌, ◌==◌, if◌then◌else◌,
}
use eir.Text.{Text, codes, text_eq, member}
use eir.Learn.Store.{
  Status, active, expired, user_disabled, user_pinned, Fact, Facts, has_key, upsert_fact,
  expire_unsupported, clear_detector_facts, mark_label_attempted, set_ai_explanation,
  set_learned_fact,
}

-- A call that writes the table, with its arguments.
pub data Call : Type 0 where
  upsert : Text → Text → Text → Text → Text → ℕ → Call
  expire : Text → List Text → Call
  clear : Call
  override : ℕ → Text → Call
  mark : Text → ℕ → Call
  explain : ℕ → Text → Call

unfoldable pub step : Call → Facts → Facts
step (upsert now kind subject effect evidence days) db =
    upsert_fact now kind subject effect evidence days db
step (expire kind current) db = expire_unsupported kind current db
step clear db = (clear_detector_facts db).0
step (override id op) db = (set_learned_fact id op db).0
step (mark now id) db = mark_label_attempted now id db
step (explain id text) db = set_ai_explanation id text db

unfoldable pub run : List Call → Facts → Facts
run [] db = db
run (c ∷ cs) db = run cs (step c db)

-- The abstract table: the id and the status that a kind and a subject have.
pub record Table : Type 0 where
  pub entry : Text → Text → Option (ℕ × Status)
  pub next : ℕ

unfoldable pub entry_at : Text → Text → List Fact → Option (ℕ × Status)
entry_at kind subject [] = none
entry_at kind subject (f ∷ fs) =
    if has_key kind subject f then some (f.id, f.status) else entry_at kind subject fs

abbrev pub view : Facts → Table
view db = record { entry = λ kind subject. entry_at kind subject db.rows; next = db.next_id }

abbrev pub on_entry : (ℕ × Status → Option (ℕ × Status)) → Option (ℕ × Status) → Option (ℕ × Status)
on_entry g none = none
on_entry g (some e) = g e

-- Reinforcing makes a learned fact active and leaves the user's decision.
abbrev pub upsert_entry : ℕ → Option (ℕ × Status) → ℕ × Status
upsert_entry next none = (next, active)
upsert_entry next (some (i, active)) = (i, active)
upsert_entry next (some (i, expired)) = (i, active)
upsert_entry next (some (i, user_disabled)) = (i, user_disabled)
upsert_entry next (some (i, user_pinned)) = (i, user_pinned)

-- Without evidence an active fact expires, and no other one changes.
abbrev pub expire_entry : Bool → ℕ × Status → Option (ℕ × Status)
expire_entry kept (i, active) = some (i, if kept then active else expired)
expire_entry kept (i, expired) = some (i, expired)
expire_entry kept (i, user_disabled) = some (i, user_disabled)
expire_entry kept (i, user_pinned) = some (i, user_pinned)

-- Clearing forgets what was learned and keeps the user's decisions.
abbrev pub clear_entry : ℕ × Status → Option (ℕ × Status)
clear_entry (i, active) = none
clear_entry (i, expired) = none
clear_entry (i, user_disabled) = some (i, user_disabled)
clear_entry (i, user_pinned) = some (i, user_pinned)

-- The user's operation, by its name, on the entry with the id; no other name does anything.
abbrev pub override_entry : ℕ → Text → ℕ × Status → Option (ℕ × Status)
override_entry id op (i, s) =
    if i == id && text_eq op (codes "forget")
    then none
    else if i == id && text_eq op (codes "pin")
    then some (i, user_pinned)
    else if i == id && text_eq op (codes "disable")
    then some (i, user_disabled)
    else some (i, s)

-- What a call does to the abstract table.
unfoldable pub spec_step : Call → Table → Table
spec_step (upsert now kind subject effect evidence days) t = record {
  entry = λ k s.
      if text_eq kind k && text_eq subject s
      then some (upsert_entry t.next (t.entry kind subject))
      else t.entry k s;
  next = suc t.next;
}
spec_step (expire kind current) t = record t {
  entry = λ k s. on_entry (expire_entry (not (text_eq k kind) || member s current)) (t.entry k s);
}
spec_step clear t = record t { entry = λ k s. on_entry clear_entry (t.entry k s) }
spec_step (override id op) t = record t {
  entry = λ k s. on_entry (override_entry id op) (t.entry k s);
}
spec_step (mark now id) t = t
spec_step (explain id text) t = t

unfoldable pub spec_run : List Call → Table → Table
spec_run [] t = t
spec_run (c ∷ cs) t = spec_run cs (spec_step c t)
