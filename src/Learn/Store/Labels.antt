-- ===== src/Learn/Store/Labels.antt =====
-- The labeller asks the model about a fact once at most.
use eir.Prelude.{
  ◌≡◌, ◌≢◌, refl, ℕ, ◌<◌, Bool, true, ◌&&◌, ◌||◌, not, Option, none, some, List, [], ◌∷◌, any, all,
  filter, arith, if-elim, if◌then◌else◌, is_none,
}
use eir.Text.{Text, is_empty}
use eir.Safety.{text_after}
use eir.Learn.Store.{
  Fact, Facts, has_key, update_where, upsert_fact, expire_unsupported, delete_where,
  clear_detector_facts, has_id, mark_label_attempted, set_ai_explanation, FactOp, forget, pin,
  disable, apply_op, parse_op, set_parsed, set_learned_fact, is_unlabelled, newest, first_newest,
  next_unlabelled, is_unsupported, label_one, label_next, label_reply, sanitise, explain_with,
}
use eir.Learn.Store.Spec.{Call, upsert, expire, clear, override, mark, explain, step, run}

-- The labeller was tried on the fact, if the fact has this id.
abbrev pub is_tried : ℕ → Fact → Bool
is_tried id f = not (has_id id f) || not (is_none f.ai_label_attempted_at)

abbrev IsTried : ℕ → Facts → Type 0
IsTried id db = (all (is_tried id) db.rows ≡ true) × (id < db.next_id)

all-update_where :
    (q p : Fact → Bool) (g : Fact → Fact)
    → ((f : Fact) → q f ≡ true → q (g f) ≡ true)
    → (fs : List Fact) → all q fs ≡ true
    → all q (update_where p g fs) ≡ true
unfolding all update_where
all-update_where q p g keep [] h = refl
all-update_where q p g keep (f ∷ fs) h = ground (arith, keep f, all-update_where q p g keep fs)

all-delete_where :
    (q p : Fact → Bool) (fs : List Fact) → all q fs ≡ true → all q (delete_where p fs) ≡ true
unfolding all delete_where filter
all-delete_where q p [] h = refl
all-delete_where q p (f ∷ fs) h = ground (arith, all-delete_where q p fs)

all-set_parsed :
    (i id : ℕ) (o : Option FactOp) (db : Facts) → IsTried i db → IsTried i (set_parsed id o db).0
unfolding set_parsed apply_op
all-set_parsed i id none db h = h
all-set_parsed i id (some forget) db h =
    (all-delete_where (is_tried i) (has_id id) db.rows h.0, h.1)
all-set_parsed i id (some pin) db h =
    (all-update_where (is_tried i) (has_id id) _ (λ f e. e) db.rows h.0, h.1)
all-set_parsed i id (some disable) db h =
    (all-update_where (is_tried i) (has_id id) _ (λ f e. e) db.rows h.0, h.1)

upsert-IsTried :
    (now kind subject effect evidence : Text) (days i : ℕ) (db : Facts)
    → IsTried i db
    → IsTried i (upsert_fact now kind subject effect evidence days db)
unfolding upsert_fact all
upsert-IsTried now kind subject effect evidence days i db h =
    if-elim (IsTried i) (any (has_key kind subject) db.rows) _ _
      (λ e. (
        all-update_where (is_tried i) (has_key kind subject) _ (λ f k. k) db.rows h.0,
        omega arith,
      ))
      (λ e. (ground arith, omega arith))

step-IsTried : (c : Call) (i : ℕ) (db : Facts) → IsTried i db → IsTried i (step c db)
unfolding step expire_unsupported clear_detector_facts set_learned_fact mark_label_attempted
    set_ai_explanation
step-IsTried (upsert now kind subject effect evidence days) i db h =
    upsert-IsTried now kind subject effect evidence days i db h
step-IsTried (expire kind current) i db h =
    (all-update_where (is_tried i) (is_unsupported kind current) _ (λ f e. e) db.rows h.0, h.1)
step-IsTried clear i db h = (all-delete_where (is_tried i) _ db.rows h.0, h.1)
step-IsTried (override id op) i db h = all-set_parsed i id (parse_op op) db h
step-IsTried (mark now id) i db h =
    (all-update_where (is_tried i) (has_id id) _ (λ f e. ground arith) db.rows h.0, h.1)
step-IsTried (explain id text) i db h =
    (all-update_where (is_tried i) (has_id id) _ (λ f e. e) db.rows h.0, h.1)

run-IsTried : (cs : List Call) (i : ℕ) (db : Facts) → IsTried i db → IsTried i (run cs db)
unfolding run
run-IsTried [] i db h = h
run-IsTried (c ∷ cs) i db h = run-IsTried cs i (step c db) (step-IsTried c i db h)

mark-tries :
    (now : Text) (i : ℕ) (fs : List Fact)
    → all
        (is_tried i)
        (update_where (has_id i) (λ f. record f { ai_label_attempted_at = some now }) fs)
      ≡ true
unfolding all update_where
mark-tries now i [] = refl
mark-tries now i (f ∷ fs) = ground (arith, mark-tries now i fs)

marked-IsTried :
    (now : Text) (i : ℕ) (db : Facts) → i < db.next_id → IsTried i (step (mark now i) db)
unfolding step mark_label_attempted
marked-IsTried now i db h = (mark-tries now i db.rows, h)

newest-passes :
    (q : Fact → Bool) (best : Fact) (fs : List Fact)
    → q best ≡ true
    → all q fs ≡ true
    → q (newest best fs) ≡ true
unfolding newest all
newest-passes q best [] h k = h
newest-passes q best (f ∷ fs) h k =
    newest-passes q (if text_after f.last_reinforced_at best.last_reinforced_at then f else best) fs
      (ground arith) (ground arith)

first_newest-passes :
    (q : Fact → Bool) (fs : List Fact) (f : Fact)
    → all q fs ≡ true
    → first_newest fs ≡ some f
    → q f ≡ true
unfolding all
first_newest-passes q [] f h e = cc
first_newest-passes q (x ∷ fs) f h e = ground (arith, newest-passes q x fs)

-- Both tests on the rows that the filter keeps.
unlabelled_tried :
    (i : ℕ) (fs : List Fact)
    → all (is_tried i) fs ≡ true
    → all (λ f. is_tried i f && is_unlabelled f) (filter is_unlabelled fs) ≡ true
unfolding all filter
unlabelled_tried i [] h = refl
unlabelled_tried i (f ∷ fs) h = ground (arith, unlabelled_tried i fs)

next_unlabelled-untried :
    (i : ℕ) (db : Facts) (f : Fact)
    → all (is_tried i) db.rows ≡ true
    → next_unlabelled db ≡ some f
    → f.id ≢ i
unfolding next_unlabelled is_unlabelled
next_unlabelled-untried i db f h e =
    let p : (is_tried i f && is_unlabelled f) ≡ true =
      first_newest-passes (λ f. is_tried i f && is_unlabelled f) _ f (unlabelled_tried i db.rows h)
        e in
    ground arith

explain-IsTried :
    (i id : ℕ) (text : Text) (db : Facts) → IsTried i db → IsTried i (explain_with id text db).0
unfolding is_empty set_ai_explanation step
explain-IsTried i id [] db h = h
explain-IsTried i id (c ∷ text) db h = step-IsTried (explain id (c ∷ text)) i db h

label_reply-IsTried :
    (i id : ℕ) (reply : Option Text) (db : Facts)
    → IsTried i db
    → IsTried i (label_reply id reply db).0
unfolding label_reply
label_reply-IsTried i id none db h = h
label_reply-IsTried i id (some reply) db h = explain-IsTried i id (sanitise reply) db h

label_next-IsTried :
    (now : Text) (cs : List Call) (reply : Option Text) (db : Facts) (f : Fact)
    → f.id < db.next_id
    → IsTried f.id (label_next now (run cs) reply db (some f)).0
unfolding label_next step
label_next-IsTried now cs reply db f h =
    label_reply-IsTried f.id f.id reply (run cs (step (mark now f.id) db))
      (run-IsTried cs f.id (step (mark now f.id) db) (marked-IsTried now f.id db h))

label_one-IsTried :
    (now : Text) (cs : List Call) (reply : Option Text) (db : Facts) (f : Fact)
    → f.id < db.next_id
    → next_unlabelled db ≡ some f
    → IsTried f.id (label_one now (run cs) reply db).0
unfolding label_one
label_one-IsTried now cs reply db f h e = rw e (label_next-IsTried now cs reply db f h)

-- The labeller asks the model about a fact once at most: after a fact was picked, whatever calls ran
-- while the reply was awaited and whatever the reply, no later calls bring its id back.
pub label_one-once :
    (now : Text) (during later : List Call) (reply : Option Text) (db : Facts) (f g : Fact)
    → f.id < db.next_id
    → next_unlabelled db ≡ some f
    → next_unlabelled (run later (label_one now (run during) reply db).0) ≡ some g
    → g.id ≢ f.id
label_one-once now during later reply db f g h e k =
    next_unlabelled-untried f.id _ g
      (run-IsTried later f.id _ (label_one-IsTried now during reply db f h e)).0 k
