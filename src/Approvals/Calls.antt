-- ===== src/Approvals/Calls.antt =====
-- The calls on the approval queue as one step function, for interleavings of the decision loop,
-- the pipe and the executor: SQLite runs them one at a time, in any order.
pub mod Rules
pub mod Invariant
use eir.Prelude.{ℕ, Bool, Option, List, [], ◌∷◌}
use eir.Text.{Text, Unicode}
use eir.Models.{FixAction}
use eir.Approvals.{
  Codec, ApprovalInfo, ExecutionResult, Db, Result, ok, err, insert_pending_approval,
  claim_pending_approval, delete_pending_approval, requeue_claimed_approvals_on_startup,
  persist_execution,
}

pub data Call (State : Type 0) : Type 0 where
  insert : (decision_id : ℕ) → FixAction → ApprovalInfo → State → Call State
  claim : (id : ℕ) (approved : Bool) (now : Text) → Call State
  persist :
      (decision_id : ℕ)
      → FixAction
      → ExecutionResult
      → (approval_id : Option ℕ) (requeue : Bool) → Text
      → Call State
  delete : (id : ℕ) → Call State
  restart : Call State

-- The database after a call that returned, or failed and left it alone.
abbrev pub after {ℓ} : {A : Type ℓ} → Db → Result (A × Db) → Db
after db (ok (a, db')) = db'
after db (err e) = db

abbrev pub after_delete : Db → Result Db → Db
after_delete db (ok db') = db'
after_delete db (err e) = db

module _ (u : Unicode) {State : Type 0} (actions : Codec FixAction) (infos : Codec ApprovalInfo)
    (baselines : Codec State) where
  unfoldable pub step : Db → Call State → Db
  step db (insert decision_id action info baseline) =
      after db
        (insert_pending_approval u actions infos baselines db decision_id action info baseline)
  step db (claim id approved now) =
      after db (claim_pending_approval u actions infos baselines db id approved now)
  step db (persist decision_id action result approval_id requeue now) =
      after db (persist_execution u db decision_id action result approval_id requeue now)
  step db (delete id) = after_delete db (delete_pending_approval db id)
  step db restart = (requeue_claimed_approvals_on_startup db).1

  unfoldable pub run : Db → List (Call State) → Db
  run db [] = db
  run db (c ∷ cs) = run (step db c) cs
