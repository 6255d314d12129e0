-- ===== src/Approvals/Calls/Rules.antt =====
-- A property of the approval table that each statement keeps is kept by each call and by each run.
use eir.Prelude.{
  ℕ, suc, ◌<◌, ◌≡◌, refl, Bool, false, Option, some, List, [], ◌∷◌, sym, subst, ap, ◌∙◌,
}
use eir.Text.{Text, Unicode}
use eir.Models.{FixAction, dedup_key}
use eir.Approvals.Rows.{
  Row, pending, active_key, count_active, update_status, delete_id, requeue_all,
}
use eir.Approvals.{
  Codec, ApprovalInfo, ExecutionResult, Db, Result, ok, err, max_active_approvals, decided, new_row,
  requeue_claimed_approvals_on_startup,
}
use eir.Approvals.Outcome.{
  Settled, insert_pending_approval-ok, claim_pending_approval-ok, delete_pending_approval-ok,
  persist_execution-ok, stored, stored-queue,
}
use eir.Approvals.Calls.{
  Call, insert, claim, persist, delete, restart, step, run, after, after_delete,
}

-- Every call of the list is allowed.
abbrev pub Each : {State : Type 0} → (Call State → Type 0) → List (Call State) → Type 0
Each Allowed [] = Unit {0}
Each Allowed (c ∷ cs) = Allowed c × Each Allowed cs

module _ (u : Unicode) {State : Type 0} (actions : Codec FixAction) (infos : Codec ApprovalInfo)
    (baselines : Codec State) where
  -- What keeps P, on the rows and the next id, through the allowed calls.
  pub record Rules (Allowed : Call State → Type 0) (P : List Row → ℕ → Type 0) : Type 0 where
    pub inserted :
        (decision_id : ℕ) (action : FixAction) (info : ApprovalInfo) (baseline : State)
        (rows : List Row) (n : ℕ)
        → count_active rows < max_active_approvals
        → active_key (dedup_key u action) rows ≡ false
        → P rows n
        → P (new_row u actions infos baselines n decision_id action info baseline ∷ rows) (suc n)
    pub claimed :
        (id : ℕ) (accept : Bool) (now : Text) (rows : List Row) (n : ℕ)
        → P rows n
        → P (update_status id pending (decided accept) (some now) rows) n
    pub settled :
        (decision_id : ℕ) (action : FixAction) (result : ExecutionResult) (approval_id : Option ℕ)
        (requeue : Bool) (now : Text) (rows rows' : List Row) (n : ℕ)
        → Allowed (persist decision_id action result approval_id requeue now)
        → Settled approval_id requeue rows rows'
        → P rows n
        → P rows' n
    pub deleted : (id : ℕ) (rows : List Row) (n : ℕ) → P rows n → P (delete_id id rows) n
    pub restarted : (rows : List Row) (n : ℕ) → Allowed restart → P rows n → P (requeue_all rows) n

after-P :
    {A : Type 0} (P : Db → Type 0) (db : Db) (r : Result (A × Db))
    → P db
    → ((a : A) (db' : Db) → r ≡ ok (a, db') → P db')
    → P (after db r)
after-P P db (ok (a, db')) p f = f a db' refl
after-P P db (err e) p f = p

after_delete-P :
    (P : Db → Type 0) (db : Db) (r : Result Db)
    → P db
    → ((db' : Db) → r ≡ ok db' → P db')
    → P (after_delete db r)
after_delete-P P db (ok db') p f = f db' refl
after_delete-P P db (err e) p f = p

module _ (u : Unicode) {State : Type 0} (actions : Codec FixAction) (infos : Codec ApprovalInfo)
    (baselines : Codec State) {Allowed : Call State → Type 0} {P : List Row → ℕ → Type 0}
    (k : Rules u actions infos baselines Allowed P) where
  abbrev Holds : Db → Type 0
  Holds db = P db.rows db.next_row

  persist-P :
      (db db' : Db) (decision_id : ℕ) (action : FixAction) (result : ExecutionResult)
      (approval_id : Option ℕ) (requeue : Bool) (now : Text)
      → Allowed (persist decision_id action result approval_id requeue now)
      → Settled approval_id requeue (stored u db decision_id action result now).1.rows db'.rows
      → db' ≡ record ((stored u db decision_id action result now).1) { rows = db'.rows }
      → Holds db
      → Holds db'
  persist-P db db' d action result id requeue now al s w p =
      let (r, n) = stored-queue u db d action result now in
      subst (λ m. P db'.rows m) (sym (ap (λ x. x.next_row) w ∙ n))
        (k.settled d action result id requeue now db.rows db'.rows db.next_row al
          (subst (λ rs. Settled id requeue rs db'.rows) r s) p)

  pub step-P :
      (db : Db) (c : Call State)
      → Allowed c
      → Holds db
      → Holds (step u actions infos baselines db c)
  unfolding step requeue_claimed_approvals_on_startup
  step-P db (insert d action info baseline) al p = after-P Holds db _ p λ id db' e.
      let (room, fresh, _, w) =
        insert_pending_approval-ok u actions infos baselines db db' d id action info baseline e in
      rw w (k.inserted d action info baseline db.rows db.next_row room fresh p)
  step-P db (claim id accept now) al p = after-P Holds db _ p λ got db' e.
      rw ((claim_pending_approval-ok u actions infos baselines db db' id accept now got e).2)
        (k.claimed id accept now db.rows db.next_row p)
  step-P db (persist d action result id requeue now) al p = after-P Holds db _ p λ q db' e.
      let (_, _, s, w) = persist_execution-ok u db d action result now id requeue q db' e in
      persist-P db db' d action result id requeue now al s w p
  step-P db (delete id) al p =
      after_delete-P Holds db _ p
        λ db' e. rw (delete_pending_approval-ok db db' id e) (k.deleted id db.rows db.next_row p)
  step-P db restart al p = k.restarted db.rows db.next_row al p

  pub run-P :
      (db : Db) (cs : List (Call State))
      → Each Allowed cs
      → Holds db
      → Holds (run u actions infos baselines db cs)
  unfolding run
  run-P db [] al p = p
  run-P db (c ∷ cs) al p = run-P (step u actions infos baselines db c) cs al.1 (step-P db c al.0 p)
