-- ===== src/Learn/Store/Refines.antt =====
-- The table of learned facts does what its abstract view says, call by call.
use eir.Prelude.{
  suc, Option-cases, ◌≡◌, refl, ℕ, true, false, Option, none, some, List, [], ◌∷◌, any, arith,
  Bool-cases, inl, inr, ap, ◌∙◌,
}
use eir.Text.{Text}
use eir.Text.Laws.{text_eq_iff}
use eir.Learn.Store.Entries.{
  op_entry, AreRows, entry_at-absent, entry_at-present, entry_at-expire, entry_at-upsert,
  entry_at-status, entry_at-clear, entry_at-forget, entry_at-mark, entry_at-explain, step-AreRows,
}
use eir.Learn.Store.{
  Status, user_disabled, user_pinned, reinforced, Fact, Facts, has_key, upsert_fact,
  expire_unsupported, clear_detector_facts, mark_label_attempted, set_ai_explanation, FactOp,
  forget, pin, disable, apply_op, parse_op, set_parsed, set_learned_fact,
}
use eir.Learn.Store.Spec.{
  Call, upsert, expire, clear, override, mark, explain, step, run, entry_at, view, on_entry,
  override_entry, spec_step, spec_run,
}

apply_op-entry_at :
    (id : ℕ) (o : FactOp) (k s : Text) (fs : List Fact)
    → AreRows fs
    → entry_at k s (apply_op id o fs) ≡ on_entry (op_entry id o) (entry_at k s fs)
unfolding apply_op
apply_op-entry_at id forget k s fs h = entry_at-forget id k s fs h
apply_op-entry_at id pin k s fs h = ground (arith, entry_at-status id user_pinned k s fs)
apply_op-entry_at id disable k s fs h = ground (arith, entry_at-status id user_disabled k s fs)

override-none :
    (id : ℕ) (op : Text) → parse_op op ≡ none → (e : ℕ × Status) → some e ≡ override_entry id op e
unfolding parse_op
override-none id op h (i, s) = ground arith

override-some :
    (id : ℕ) (op : Text) (o : FactOp)
    → parse_op op ≡ some o
    → (e : ℕ × Status) → op_entry id o e ≡ override_entry id op e
unfolding parse_op
override-some id op forget h (i, s) = ground arith
override-some id op pin h (i, s) = ground arith
override-some id op disable h (i, s) = ground arith

on_entry-ext :
    (g h : ℕ × Status → Option (ℕ × Status))
    → ((e : ℕ × Status) → g e ≡ h e)
    → (x : Option (ℕ × Status)) → on_entry g x ≡ on_entry h x
on_entry-ext g h f none = refl
on_entry-ext g h f (some e) = f e

on_entry-some : (x : Option (ℕ × Status)) → x ≡ on_entry some x
on_entry-some none = refl
on_entry-some (some e) = refl

set_learned_fact-entry_at :
    (id : ℕ) (op : Text) (k s : Text) (db : Facts)
    → AreRows db.rows
    → entry_at k s (set_learned_fact id op db).0.rows
      ≡ on_entry (override_entry id op) (entry_at k s db.rows)
unfolding set_learned_fact set_parsed
set_learned_fact-entry_at id op k s db h = elim (Option-cases (parse_op op)) [
  | inl e ↦ rw e (
      on_entry-some (entry_at k s db.rows)
      ∙ on_entry-ext some (override_entry id op) (override-none id op e) (entry_at k s db.rows))
  | inr (o, e) ↦ rw e (
      apply_op-entry_at id o k s db.rows h
      ∙ on_entry-ext (op_entry id o) (override_entry id op) (override-some id op o e)
          (entry_at k s db.rows))
]

module _ (now kind subject effect evidence : Text) (days : ℕ) (db : Facts) (k s : Text) where
  upsert_present :
      any (has_key kind subject) db.rows ≡ true
      → entry_at k s (upsert_fact now kind subject effect evidence days db).rows
        ≡ (spec_step (upsert now kind subject effect evidence days) (view db)).entry k s
  unfolding upsert_fact spec_step reinforced
  upsert_present e =
      let (x, w) = entry_at-present kind subject db.rows e in
      ground (
        arith,
        w,
        text_eq_iff kind k,
        text_eq_iff subject s,
        entry_at-upsert kind subject effect evidence now k s db.rows,
      )

  upsert_absent :
      any (has_key kind subject) db.rows ≡ false
      → entry_at k s (upsert_fact now kind subject effect evidence days db).rows
        ≡ (spec_step (upsert now kind subject effect evidence days) (view db)).entry k s
  unfolding upsert_fact spec_step entry_at has_key
  upsert_absent e = ground (arith, entry_at-absent kind subject db.rows)

  upsert_next : (upsert_fact now kind subject effect evidence days db).next_id ≡ suc db.next_id
  unfolding upsert_fact
  upsert_next = elim (Bool-cases (any (has_key kind subject) db.rows)) [
    | inl e ↦ rw e refl
    | inr e ↦ rw e refl
  ]

set_parsed-next :
    (id : ℕ) (o : Option FactOp) (db : Facts) → (set_parsed id o db).0.next_id ≡ db.next_id
unfolding set_parsed
set_parsed-next id none db = refl
set_parsed-next id (some o) db = refl

-- The entry and the next id after a call.
step-entry_at :
    (c : Call) (db : Facts) (k s : Text)
    → AreRows db.rows
    → entry_at k s (step c db).rows ≡ (spec_step c (view db)).entry k s
unfolding step spec_step upsert_fact expire_unsupported clear_detector_facts set_learned_fact
    mark_label_attempted set_ai_explanation
step-entry_at (upsert now kind subject effect evidence days) db k s h =
    elim (Bool-cases (any (has_key kind subject) db.rows)) [
      | inl e ↦ upsert_present now kind subject effect evidence days db k s e
      | inr e ↦ upsert_absent now kind subject effect evidence days db k s e
    ]
step-entry_at (expire kind current) db k s h = entry_at-expire kind current k s db.rows h
step-entry_at clear db k s h = entry_at-clear k s db.rows h
step-entry_at (override id op) db k s h = set_learned_fact-entry_at id op k s db h
step-entry_at (mark now id) db k s h = entry_at-mark now id k s db.rows
step-entry_at (explain id text) db k s h = entry_at-explain id text k s db.rows

step-next : (c : Call) (db : Facts) → (step c db).next_id ≡ (spec_step c (view db)).next
unfolding step spec_step expire_unsupported clear_detector_facts set_learned_fact
    mark_label_attempted set_ai_explanation
step-next (upsert now kind subject effect evidence days) db =
    upsert_next now kind subject effect evidence days db [] []
step-next (expire kind current) db = refl
step-next clear db = refl
step-next (override id op) db = set_parsed-next id (parse_op op) db
step-next (mark now id) db = refl
step-next (explain id text) db = refl

pub view-step : (c : Call) (db : Facts) → AreRows db.rows → view (step c db) ≡ spec_step c (view db)
view-step c db h =
    λ i. record { entry = λ k s. step-entry_at c db k s h i; next = step-next c db i }

-- The table refines its abstract view: whatever calls are made, from well-formed rows on, the kinds
-- and subjects have the ids and statuses that the abstract calls give them, and the rows stay well
-- formed.
pub run-refines :
    (cs : List Call) (db : Facts)
    → AreRows db.rows
    → (view (run cs db) ≡ spec_run cs (view db)) × AreRows (run cs db).rows
unfolding run spec_run
run-refines [] db h = (refl, h)
run-refines (c ∷ cs) db h =
    let (e, k) = run-refines cs (step c db) (step-AreRows c db h) in
    (e ∙ ap (spec_run cs) (view-step c db h), k)
