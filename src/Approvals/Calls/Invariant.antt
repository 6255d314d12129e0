-- ===== src/Approvals/Calls/Invariant.antt =====
-- The queue stays bounded, its ids distinct and its active actions distinct, whatever is called.
use eir.Prelude.{
  ℕ, suc, ◌≤◌, ◌<◌, ◌≡◌, refl, Bool, true, false, Option, none, some, List, [], ◌∷◌, arith, map,
  filter,
}
use eir.Text.{Text, Unicode}
use eir.Models.{FixAction}
use eir.Approvals.Rows.{
  Row, Status, pending, approved, is_active, same_status, active_key, count_active, move_row,
  update_status, delete_status, delete_id, requeue_row, requeue_all,
}
use eir.Approvals.Queue.{
  Descending, FreshKey, UniqueKeys, Tame, map-Descending, count_active-map, map-UniqueKeys,
  filter-Descending, count_active-filter, filter-UniqueKeys,
}
use eir.Approvals.{Codec, ApprovalInfo, Db, max_active_approvals, decided, new_row}
use eir.Approvals.Outcome.{Settled}
use eir.Approvals.Calls.Rules.{Rules, Each, run-P}
use eir.Approvals.Calls.{Call, run}

pub record Inv (rows : List Row) (next_row : ℕ) : Type 0 where
  pub ids : Descending next_row rows
  pub bounded : count_active rows ≤ max_active_approvals
  pub keys : UniqueKeys rows

move_row-Tame :
    (id : ℕ) (from to : Status) (at : Option Text)
    → (is_active to ≡ true → is_active from ≡ true)
    → Tame (move_row id from to at)
unfolding move_row same_status is_active
move_row-Tame id from to at h = record {
  id = λ r. ground arith;
  key = λ r. ground arith;
  active = λ r. ground arith;
}

requeue_row-Tame : Tame requeue_row
unfolding requeue_row same_status is_active
requeue_row-Tame = record {
  id = λ r. ground arith;
  key = λ r. ground arith;
  active = λ r. ground arith;
}

map-Inv : (rows : List Row) (n : ℕ) (f : Row → Row) → Tame f → Inv rows n → Inv (map f rows) n
map-Inv rows n f t v = record {
  ids = map-Descending f t n rows v.ids;
  bounded = omega (arith, count_active-map f t rows, v.bounded);
  keys = map-UniqueKeys f t rows v.keys;
}

pub filter-Inv : (rows : List Row) (n : ℕ) (p : Row → Bool) → Inv rows n → Inv (filter p rows) n
filter-Inv rows n p v = record {
  ids = filter-Descending p n rows v.ids;
  bounded = omega (arith, count_active-filter p rows, v.bounded);
  keys = filter-UniqueKeys p rows v.keys;
}

insert-Inv :
    (rows : List Row) (n : ℕ) (r : Row)
    → r.id ≡ n
    → ((k : Text) → r.action_key ≡ some k → active_key k rows ≡ false)
    → count_active rows < max_active_approvals
    → Inv rows n
    → Inv (r ∷ rows) (suc n)
unfolding count_active
insert-Inv rows n r i f c v = record {
  ids = (omega arith, rw i v.ids);
  bounded = ground arith;
  keys = (fresh (is_active r.status) r.action_key f, v.keys);
}
  where
    fresh :
        (b : Bool) (key : Option Text)
        → ((k : Text) → key ≡ some k → active_key k rows ≡ false)
        → FreshKey b key rows
    fresh false key h = tt
    fresh true none h = tt
    fresh true (some k) h = h k refl

Settled-Inv :
    (id : Option ℕ) (requeue : Bool) (rows rows' : List Row) (n : ℕ)
    → Settled id requeue rows rows'
    → Inv rows n
    → Inv rows' n
unfolding update_status delete_status is_active
Settled-Inv none requeue rows rows' n s v = rw s v
Settled-Inv (some id) true rows rows' n s v =
    rw (s.1) (map-Inv rows n _ (move_row-Tame id approved pending none (λ e. refl)) v)
Settled-Inv (some id) false rows rows' n s v = rw (s.1) (filter-Inv rows n _ v)

decided-active : (accept : Bool) → is_active (decided accept) ≡ true → is_active pending ≡ true
unfolding is_active
decided-active accept h = refl

pub all-allowed : {State : Type 0} (cs : List (Call State)) → Each (λ _. Unit {0}) cs
all-allowed [] = tt
all-allowed (c ∷ cs) = (tt, all-allowed cs)

module _ (u : Unicode) {State : Type 0} (actions : Codec FixAction) (infos : Codec ApprovalInfo)
    (baselines : Codec State) where
  Inv-Rules : Rules u actions infos baselines (λ _. Unit {0}) Inv
  unfolding update_status requeue_all delete_id new_row
  Inv-Rules = record {
    inserted = λ d a i b rows n room fresh v.
        insert-Inv rows n (new_row u actions infos baselines n d a i b) refl (λ k e. cc) room v;
    claimed = λ id accept now rows n v.
        map-Inv rows n _
          (move_row-Tame id pending (decided accept) (some now) (decided-active accept)) v;
    settled = λ _ _ _ id requeue _ rows rows' n _ s v. Settled-Inv id requeue rows rows' n s v;
    deleted = λ id rows n v. filter-Inv rows n _ v;
    restarted = λ rows n _ v. map-Inv rows n _ requeue_row-Tame v;
  }

  -- Whatever calls are made, in whatever order, at most 256 approvals are active, no two of them
  -- for the same action, and no two rows share an id.
  pub run_calls-Inv :
      (db : Db) (cs : List (Call State))
      → Inv db.rows db.next_row
      → let db' = run u actions infos baselines db cs in Inv db'.rows db'.next_row
  run_calls-Inv db cs v = run-P u actions infos baselines Inv-Rules db cs (all-allowed cs) v
