-- ===== src/Approvals/Outcome.antt =====
-- What a call that succeeded did to the tables.
use eir.Prelude.{
  ℕ, suc, ◌<◌, ◌≡◌, refl, Bool, true, false, ◌||◌, ◌&&◌, not, Option, none, some, List, ◌∷◌, arith,
  is_some,
}
use eir.Text.{Text, Unicode}
use eir.Models.{FixAction, dedup_key}
use eir.Approvals.Rows.{
  Row, pending, approved, active_key, count_active, count_matches, first_match, update_status,
  delete_status, delete_id,
}
use eir.Approvals.{
  Codec, ApprovalInfo, ExecutionResult, Db, Result, ok, err, ◌>>=◌, insert_pending_approval,
  PendingApproval, PersistedExecution, RegistryUndo, claim_pending_approval,
  delete_pending_approval, to_i64, parse_first, insert_undo, log_execution, persist_execution,
  settle_approval, max_active_approvals, decided, new_row, is_registry_reset, ensure_undo, ensure,
  requeue_without_approval,
}

module _ (u : Unicode) {State : Type 0} (actions : Codec FixAction) (infos : Codec ApprovalInfo)
    (baselines : Codec State) where
  pub insert_pending_approval-ok :
      (db db' : Db) (decision_id id : ℕ) (action : FixAction) (info : ApprovalInfo)
      (baseline : State)
      → insert_pending_approval u actions infos baselines db decision_id action info baseline
        ≡ ok (id, db')
      → (count_active db.rows < max_active_approvals)
        × (active_key (dedup_key u action) db.rows ≡ false)
        × (id ≡ db.next_row)
        × (db' ≡ record db {
          rows =
              new_row u actions infos baselines db.next_row decision_id action info baseline
              ∷ db.rows;
          next_row = suc db.next_row;
        })
  unfolding insert_pending_approval
  insert_pending_approval-ok db db' decision_id id action info baseline h = ground arith

  pub claim_pending_approval-ok :
      (db db' : Db) (id : ℕ) (accept : Bool) (now : Text) (got : Option (PendingApproval State))
      → claim_pending_approval u actions infos baselines db id accept now ≡ ok (got, db')
      → (to_i64 id ≡ ok id)
        × (parse_first u actions infos baselines (first_match id pending db.rows) ≡ ok got)
        × (db' ≡ record db { rows = update_status id pending (decided accept) (some now) db.rows })
  unfolding claim_pending_approval to_i64
  claim_pending_approval-ok db db' id accept now got h = ground arith

pub delete_pending_approval-ok :
    (db db' : Db) (id : ℕ)
    → delete_pending_approval db id ≡ ok db'
    → db' ≡ record db { rows = delete_id id db.rows }
unfolding delete_pending_approval to_i64
delete_pending_approval-ok db db' id h = ground arith

-- The rows after an execution that was to settle this approval.
abbrev pub Settled : Option ℕ → Bool → List Row → List Row → Type 0
Settled none requeue rs ss = ss ≡ rs
Settled (some id) true rs ss =
    (count_matches id approved rs ≡ 1) × (ss ≡ update_status id approved pending none rs)
Settled (some id) false rs ss =
    (count_matches id approved rs ≡ 1) × (ss ≡ delete_status id approved rs)

settle_approval-ok :
    (approval_id : Option ℕ) (requeue : Bool) (db db' : Db)
    → settle_approval approval_id requeue db ≡ ok db'
    → Settled approval_id requeue db.rows db'.rows × (db' ≡ record db { rows = db'.rows })
unfolding settle_approval to_i64
settle_approval-ok none requeue db db' h = ground arith
settle_approval-ok (some id) true db db' h = ground arith
settle_approval-ok (some id) false db db' h = ground arith

two_checks-ok :
    (c d : Result (Unit {0})) (s : Result Db) (p q : PersistedExecution) (db : Db)
    → (c >>= λ _. d >>= λ _. ◌>>=◌ {B = PersistedExecution × Db} s (λ x. ok (q, x))) ≡ ok (p, db)
    → (d ≡ ok tt) × (p ≡ q) × (s ≡ ok db)
two_checks-ok (ok _) (ok _) (ok x) p q db h = ground arith
two_checks-ok (ok _) (ok _) (err e) p q db h = cc
two_checks-ok (ok _) (err e) s p q db h = cc
two_checks-ok (err e) d s p q db h = cc

module _ (u : Unicode) (db : Db) (decision_id : ℕ) (action : FixAction) (result : ExecutionResult)
    (now : Text) where
  -- The execution's own rows, before the approval is settled.
  abbrev pub undoable : Bool
  undoable = result.success && is_registry_reset action

  abbrev pub stored : Option ℕ × Db
  stored =
      insert_undo undoable result.undo db.next_execution
        (log_execution u db decision_id action result now)

  -- They leave the queue alone.
  pub stored-queue : (stored.1.rows ≡ db.rows) × (stored.1.next_row ≡ db.next_row)
  unfolding insert_undo log_execution
  stored-queue = go undoable result.undo
    where
      go :
          (b : Bool) (r : Option RegistryUndo)
          → let after =
              (insert_undo b r db.next_execution
                (log_execution u db decision_id action result now)).1 in
            (after.rows ≡ db.rows) × (after.next_row ≡ db.next_row)
      go false r = (refl, refl)
      go true none = (refl, refl)
      go true (some r) = (refl, refl)

  pub persist_execution-ok :
      (approval_id : Option ℕ) (requeue : Bool) (p : PersistedExecution) (db' : Db)
      → persist_execution u db decision_id action result approval_id requeue now ≡ ok (p, db')
      → (ensure_undo undoable result.undo ≡ ok tt)
        × (p ≡ record { execution_id = db.next_execution; undo_id = stored.0 })
        × Settled approval_id requeue stored.1.rows db'.rows
        × (db' ≡ record (stored.1) { rows = db'.rows })
  unfolding persist_execution
  persist_execution-ok approval_id requeue p db' h =
      let (e, q, r) =
        two_checks-ok (ensure (not requeue || is_some approval_id) requeue_without_approval)
          (ensure_undo undoable result.undo) (settle_approval approval_id requeue stored.1) p _ db'
          h in
      let (t, w) = settle_approval-ok approval_id requeue stored.1 db' r in (e, q, t, w)
