-- ===== src/Approvals.antt =====
-- eir-svc/src/audit.rs: the durable approval queue, from the user's decision to the recorded
-- execution. SQLite is modelled as the tables that these functions read and write; a transaction
-- that fails leaves them as they were. `serde_json` is a parameter, a codec for each stored type.
pub mod Rows
mod Tables
pub mod Queue
pub mod Outcome
pub mod Calls
pub mod Gone
pub mod Claims
pub mod Persist
pub mod Startup
pub mod Undo
pub mod Normalize
pub mod Load
use eir.Prelude.{
  ℕ, suc, ◌*◌, Bool, true, false, ◌&&◌, ◌||◌, not, Option, none, some, ◌∷◌, ltb, leb, ◌==◌,
  if◌then◌else◌, is_some,
}
use eir.Text.{Text, Unicode, utf8_len}
use eir.Models.{FixAction, registry_reset, dedup_key}
unfoldable pub use Tables.*
use Rows.{
  Row, Status, pending, approved, rejected, count_active, active_key, update_status, count_matches,
  first_match, delete_status, delete_id, requeue_all, count_status,
}

abbrev pub decided : Bool → Status
decided approved_by_user = if approved_by_user then approved else rejected

unfoldable pub delete_pending_approval : Db → ℕ → Result Db
delete_pending_approval db id = do id ← to_i64 id; ok (record db { rows = delete_id id db.rows })

unfoldable pub requeue_claimed_approvals_on_startup : Db → ℕ × Db
requeue_claimed_approvals_on_startup db =
    (count_status approved db.rows, record db { rows = requeue_all db.rows })

abbrev pub is_registry_reset : FixAction → Bool
is_registry_reset (registry_reset _ _ _) = true
is_registry_reset _ = false

-- The checks on the undo snapshot, before the transaction begins.
unfoldable pub ensure_undo : Bool → Option RegistryUndo → Result (Unit {0})
ensure_undo false none = ok tt
ensure_undo false (some _) = err undo_unexpected
ensure_undo true none = err undo_missing
ensure_undo true (some undo) = do
  ensure (is_some undo.applied_kind && is_some undo.applied_data) applied_missing
  if undo.prior_existed
      then ensure (is_some undo.prior_kind && is_some undo.prior_data) prior_missing
      else ensure (not (is_some undo.prior_kind) && not (is_some undo.prior_data)) prior_present

unfoldable pub insert_undo : Bool → Option RegistryUndo → ℕ → Db → Option ℕ × Db
insert_undo true (some undo) execution_id db = (
  some db.next_undo,
  record db {
    undos =
        record { id = db.next_undo; execution_id = execution_id; undo = undo; undone = false }
        ∷ db.undos;
    next_undo = suc db.next_undo;
  },
)
insert_undo _ _ execution_id db = (none, db)

-- The approved row goes back to pending, or goes; exactly one row must change.
unfoldable pub settle_approval : Option ℕ → Bool → Db → Result Db
settle_approval none requeue db = ok db
settle_approval (some id) requeue db = do
  id ← to_i64 id
  ensure (count_matches id approved db.rows == 1) approval_changed
  if requeue
      then ok (record db { rows = update_status id approved pending none db.rows })
      else ok (record db { rows = delete_status id approved db.rows })

module _ (u : Unicode) {State : Type 0} (actions : Codec FixAction) (infos : Codec ApprovalInfo)
    (baselines : Codec State) where
  unfoldable pub ensure_approval_row_bounded : Text → Text → Text → Result (Unit {0})
  ensure_approval_row_bounded action_json info_json baseline_json = do
    ensure (leb (utf8_len action_json) max_action_bytes) action_too_large
    ensure (leb (utf8_len info_json) max_info_bytes) info_too_large
    ensure (leb (utf8_len baseline_json) max_baseline_bytes) baseline_too_large
    ensure (is_some (actions.decode action_json)) action_unreadable
    ensure (is_some (infos.decode info_json)) info_unreadable
    ensure (is_some (baselines.decode baseline_json)) baseline_unreadable

  unfoldable pub new_row : ℕ → ℕ → FixAction → ApprovalInfo → State → Row
  new_row id decision_id action info baseline = record {
    id = id;
    decision_id = decision_id;
    action_json = actions.encode action;
    info_json = infos.encode info;
    baseline_json = baselines.encode baseline;
    action_key = some (dedup_key u action);
    status = pending;
    claimed_at = none;
  }

  -- INSERT … SELECT … WHERE count < max inserts no row into a full queue; else the unique index
  -- refuses a second active row with the key.
  unfoldable pub insert_pending_approval :
      Db → ℕ → FixAction → ApprovalInfo → State → Result (ℕ × Db)
  unfolding new_row
  insert_pending_approval db decision_id action info baseline = do
    ensure_approval_row_bounded (actions.encode action) (infos.encode info)
        (baselines.encode baseline)
    ensure (ltb (count_active db.rows) max_active_approvals) queue_full
    ensure (not (active_key (dedup_key u action) db.rows)) duplicate_key
    let row = new_row db.next_row decision_id action info baseline
    ok (db.next_row, record db { rows = row ∷ db.rows; next_row = suc db.next_row })

  unfoldable pub parse_pending_approval : Row → Result (PendingApproval State)
  parse_pending_approval row = do
    ensure_approval_row_bounded row.action_json row.info_json row.baseline_json
    action ← from_option (actions.decode row.action_json) action_unreadable
    info ← from_option (infos.decode row.info_json) info_unreadable
    baseline ← from_option (baselines.decode row.baseline_json) baseline_unreadable
    ok (record {
      info = record info { id = row.id };
      action = action;
      decision_id = row.decision_id;
      baseline = baseline;
    })

  -- row.as_ref().map(parse_pending_approval).transpose()?
  unfoldable pub parse_first : Option Row → Result (Option (PendingApproval State))
  parse_first none = ok none
  parse_first (some row) = do p ← parse_pending_approval row; ok (some p)

  unfoldable pub claim_pending_approval :
      Db → ℕ → Bool → Text → Result (Option (PendingApproval State) × Db)
  claim_pending_approval db id approved_by_user now = do
    id ← to_i64 id
    approval ← parse_first (first_match id pending db.rows)
    let rows = update_status id pending (decided approved_by_user) (some now) db.rows
    ok (approval, record db { rows = rows })

module _ (u : Unicode) where
  unfoldable pub log_execution : Db → ℕ → FixAction → ExecutionResult → Text → Db
  log_execution db decision_id action result now = record db {
    executions =
        record {
          id = db.next_execution;
          decision_id = decision_id;
          action = result.action;
          action_key = dedup_key u action;
          success = result.success;
          output = result.output;
          executed_at = now;
        }
        ∷ db.executions;
    next_execution = suc db.next_execution;
    executed = decision_id ∷ db.executed;
  }

  unfoldable pub persist_execution :
      Db
      → ℕ
      → FixAction
      → ExecutionResult
      → Option ℕ
      → Bool
      → Text
      → Result (PersistedExecution × Db)
  unfolding ensure_undo log_execution insert_undo settle_approval
  persist_execution db decision_id action result approval_id requeue now = do
    ensure (not requeue || is_some approval_id) requeue_without_approval
    let undoable = result.success && is_registry_reset action
    ensure_undo undoable result.undo
    let logged = log_execution db decision_id action result now
    let (undo_id, stored) = insert_undo undoable result.undo db.next_execution logged
    settled ← settle_approval approval_id requeue stored
    ok (record { execution_id = db.next_execution; undo_id = undo_id }, settled)
