-- ===== src/Learn/Store/Entries.antt =====
-- The entry of a kind and a subject, through each change of the table.
use eir.Prelude.{
  ◌≡◌, refl, ℕ, Bool, true, false, ◌&&◌, ◌||◌, not, Option, none, some, List, [], ◌∷◌, any, filter,
  ◌==◌, arith, Bool-cases, inl, inr, if◌then◌else◌,
}
use eir.Text.{Text, text_eq, member}
use eir.Text.Laws.{text_eq_iff}
use eir.Learn.Store.{
  Status, user_pinned, user_disabled, expired, is_active, Fact, Facts, has_key, update_where,
  reinforced, upsert_fact, is_unsupported, expire_unsupported, is_learned, delete_where,
  clear_detector_facts, has_id, mark_label_attempted, set_ai_explanation, FactOp, forget, pin,
  disable, apply_op, parse_op, set_parsed, set_learned_fact,
}
use eir.Learn.Store.Spec.{
  Call, upsert, expire, clear, override, mark, explain, step, entry_at, on_entry, expire_entry,
  clear_entry,
}

-- Every row comes from a detector, and no two rows have the same kind and subject.
abbrev pub AreRows : List Fact → Type 0
AreRows [] = Unit {0}
AreRows (f ∷ fs) = (f.detector ≡ true) × (any (has_key f.kind f.subject) fs ≡ false) × AreRows fs

abbrev pub op_entry : ℕ → FactOp → ℕ × Status → Option (ℕ × Status)
op_entry id forget (i, s) = if i == id then none else some (i, s)
op_entry id pin (i, s) = some (i, if i == id then user_pinned else s)
op_entry id disable (i, s) = some (i, if i == id then user_disabled else s)

pub entry_at-absent :
    (k s : Text) (fs : List Fact) → any (has_key k s) fs ≡ false → entry_at k s fs ≡ none
unfolding any entry_at
entry_at-absent k s [] h = refl
entry_at-absent k s (f ∷ fs) h = ground (arith, entry_at-absent k s fs)

pub entry_at-present :
    (k s : Text) (fs : List Fact)
    → any (has_key k s) fs ≡ true
    → (e : ℕ × Status) × (entry_at k s fs ≡ some e)
unfolding any entry_at
entry_at-present k s [] h = absurd (ground arith)
entry_at-present k s (f ∷ fs) h = elim (Bool-cases (has_key k s f)) [
  | inl e ↦ ((f.id, f.status), rw e refl)
  | inr e ↦ let (x, w) = entry_at-present k s fs (ground arith) in (x, rw e w)
]

pub entry_at-expire :
    (kind : Text) (current : List Text) (k s : Text) (fs : List Fact)
    → AreRows fs
    → entry_at k s
        (update_where (is_unsupported kind current) (λ f. record f { status = expired }) fs)
      ≡ on_entry (expire_entry (not (text_eq k kind) || member s current)) (entry_at k s fs)
unfolding entry_at update_where is_unsupported has_key is_active
entry_at-expire kind current k s [] h = refl
entry_at-expire kind current k s (f ∷ fs) h =
    ground
      (arith, text_eq_iff f.kind k, text_eq_iff f.subject s, entry_at-expire kind current k s fs)

pub entry_at-upsert :
    (kind subject : Text) (effect evidence now : Text) (k s : Text) (fs : List Fact)
    → entry_at k s (
        update_where
          (has_key kind subject)
          (λ f. record f {
            effect_json = effect;
            evidence = evidence;
            last_reinforced_at = now;
            status = reinforced f.status;
          })
          fs)
      ≡ on_entry
          (λ e. some (e.0, if text_eq kind k && text_eq subject s then reinforced e.1 else e.1))
          (entry_at k s fs)
unfolding entry_at update_where has_key
entry_at-upsert kind subject effect evidence now k s [] = refl
entry_at-upsert kind subject effect evidence now k s (f ∷ fs) = ground (
  arith,
  text_eq_iff f.kind k,
  text_eq_iff f.subject s,
  text_eq_iff f.kind kind,
  text_eq_iff f.subject subject,
  text_eq_iff kind k,
  text_eq_iff subject s,
  entry_at-upsert kind subject effect evidence now k s fs,
)

pub entry_at-status :
    (id : ℕ) (status : Status) (k s : Text) (fs : List Fact)
    → entry_at k s (update_where (has_id id) (λ f. record f { status = status }) fs)
      ≡ on_entry (λ e. some (e.0, if e.0 == id then status else e.1)) (entry_at k s fs)
unfolding entry_at update_where has_key
entry_at-status id status k s [] = refl
entry_at-status id status k s (f ∷ fs) = ground (arith, entry_at-status id status k s fs)

pub entry_at-clear :
    (k s : Text) (fs : List Fact)
    → AreRows fs
    → entry_at k s (delete_where (λ f. f.detector && is_learned f.status) fs)
      ≡ on_entry clear_entry (entry_at k s fs)
unfolding entry_at delete_where filter has_key any is_learned
entry_at-clear k s [] h = refl
entry_at-clear k s (f ∷ fs) h = ground (
  arith,
  text_eq_iff f.kind k,
  text_eq_iff f.subject s,
  entry_at-clear k s fs,
  entry_at-absent k s fs,
)

pub entry_at-forget :
    (id : ℕ) (k s : Text) (fs : List Fact)
    → AreRows fs
    → entry_at k s (delete_where (has_id id) fs) ≡ on_entry (op_entry id forget) (entry_at k s fs)
unfolding entry_at delete_where filter has_key any
entry_at-forget id k s [] h = refl
entry_at-forget id k s (f ∷ fs) h = ground (
  arith,
  text_eq_iff f.kind k,
  text_eq_iff f.subject s,
  entry_at-forget id k s fs,
  entry_at-absent k s fs,
)

pub entry_at-mark :
    (now : Text) (id : ℕ) (k s : Text) (fs : List Fact)
    → entry_at k s
        (update_where (has_id id) (λ f. record f { ai_label_attempted_at = some now }) fs)
      ≡ entry_at k s fs
unfolding entry_at update_where has_key
entry_at-mark now id k s [] = refl
entry_at-mark now id k s (f ∷ fs) = ground (arith, entry_at-mark now id k s fs)

pub entry_at-explain :
    (id : ℕ) (text : Text) (k s : Text) (fs : List Fact)
    → entry_at k s (update_where (has_id id) (λ f. record f { ai_explanation = some text }) fs)
      ≡ entry_at k s fs
unfolding entry_at update_where has_key
entry_at-explain id text k s [] = refl
entry_at-explain id text k s (f ∷ fs) = ground (arith, entry_at-explain id text k s fs)

-- An update that leaves kind, subject and source alone keeps the rows well formed.
module _ (p : Fact → Bool) (g : Fact → Fact) (kind : (f : Fact) → (g f).kind ≡ f.kind)
    (subject : (f : Fact) → (g f).subject ≡ f.subject)
    (detector : (f : Fact) → (g f).detector ≡ f.detector) where
  any-update_where :
      (k s : Text) (fs : List Fact) → any (has_key k s) (update_where p g fs) ≡ any (has_key k s) fs
  unfolding any update_where has_key
  any-update_where k s [] = refl
  any-update_where k s (f ∷ fs) = ground (arith, kind f, subject f, any-update_where k s fs)

  update_where-AreRows : (fs : List Fact) → AreRows fs → AreRows (update_where p g fs)
  unfolding update_where
  update_where-AreRows [] h = tt
  update_where-AreRows (f ∷ fs) h = ground (
    arith,
    kind f,
    subject f,
    detector f,
    any-update_where f.kind f.subject fs,
    update_where-AreRows fs,
  )

any-delete_where :
    (q p : Fact → Bool) (fs : List Fact) → any q fs ≡ false → any q (delete_where p fs) ≡ false
unfolding any delete_where filter
any-delete_where q p [] h = refl
any-delete_where q p (f ∷ fs) h = ground (arith, any-delete_where q p fs)

delete_where-AreRows : (p : Fact → Bool) (fs : List Fact) → AreRows fs → AreRows (delete_where p fs)
unfolding delete_where filter
delete_where-AreRows p [] h = tt
delete_where-AreRows p (f ∷ fs) h =
    ground (arith, any-delete_where (has_key f.kind f.subject) p fs, delete_where-AreRows p fs)

apply_op-AreRows : (id : ℕ) (o : FactOp) (fs : List Fact) → AreRows fs → AreRows (apply_op id o fs)
unfolding apply_op
apply_op-AreRows id forget fs h = delete_where-AreRows (has_id id) fs h
apply_op-AreRows id pin fs h =
    update_where-AreRows (has_id id) _ (λ f. refl) (λ f. refl) (λ f. refl) fs h
apply_op-AreRows id disable fs h =
    update_where-AreRows (has_id id) _ (λ f. refl) (λ f. refl) (λ f. refl) fs h

set_parsed-AreRows :
    (id : ℕ) (o : Option FactOp) (db : Facts)
    → AreRows db.rows
    → AreRows (set_parsed id o db).0.rows
unfolding set_parsed
set_parsed-AreRows id none db h = h
set_parsed-AreRows id (some o) db h = apply_op-AreRows id o db.rows h

pub step-AreRows : (c : Call) (db : Facts) → AreRows db.rows → AreRows (step c db).rows
unfolding step upsert_fact expire_unsupported clear_detector_facts set_learned_fact
    mark_label_attempted set_ai_explanation
step-AreRows (upsert now kind subject effect evidence days) db h =
    elim (Bool-cases (any (has_key kind subject) db.rows)) [
      | inl e ↦ rw e (
          update_where-AreRows (has_key kind subject) _ (λ f. refl) (λ f. refl) (λ f. refl) db.rows
            h)
      | inr e ↦ rw e (refl, e, h)
    ]
step-AreRows (expire kind current) db h =
    update_where-AreRows (is_unsupported kind current) _ (λ f. refl) (λ f. refl) (λ f. refl) db.rows
      h
step-AreRows clear db h = delete_where-AreRows _ db.rows h
step-AreRows (override id op) db h = set_parsed-AreRows id (parse_op op) db h
step-AreRows (mark now id) db h =
    update_where-AreRows (has_id id) _ (λ f. refl) (λ f. refl) (λ f. refl) db.rows h
step-AreRows (explain id text) db h =
    update_where-AreRows (has_id id) _ (λ f. refl) (λ f. refl) (λ f. refl) db.rows h
