-- ===== src/Tests/QueueRuns.antt =====
-- audit.rs at a concrete queue.
use eir.Prelude.{◌≡◌, ◌≢◌, refl, ℕ, true, false, none, some, List, [], ◌∷◌, map, arith}
use eir.Prelude.Int.{pos}
use eir.Text.{codes, utf8_len}
use eir.Float.{one_f32}
use eir.Models.{FixAction, dedup_key}
use eir.Approvals.{
  Codec, ApprovalInfo, Db, ExecutionResult, RegistryUndo, dword, ok, PendingApproval,
  PersistedExecution, insert_pending_approval, claim_pending_approval, persist_execution,
  ensure_approval_row_bounded, ensure_undo, log_execution, insert_undo, settle_approval, to_i64,
  new_row, parse_first, parse_pending_approval,
}
use eir.Approvals.Rows.{
  Row, count_active, active_key, first_match, matches, same_status, pending, update_status,
  move_row, count_matches, delete_status, approved,
}
use eir.Approvals.Calls.{Call, insert, claim, delete, restart, run}
use eir.Approvals.Calls.Invariant.{Inv, run_calls-Inv}
use eir.Approvals.Claims.{claim_pending_approval-once, persist_execution-once}
use eir.Approvals.Persist.{persist_execution-undo, Undone, claim-insert_pending_approval}
use eir.Approvals.Load.{load_pending_approvals, load_pending_approvals-Inv}
use eir.Text.Distinct.{distinct}
use eir.Tests.Fixtures.{ascii, clean_logs, reset_key}

abbrev info : ApprovalInfo
info = record {
  id = 0;
  diagnosis = [];
  root_cause = [];
  confidence = one_f32;
  action = [];
  reason = [];
  side_effects = [];
  undo_instructions = [];
  action_summary = [];
  target = [];
  target_details = [];
  reversible = true;
  created_at = pos 1;
}

-- Codecs that know one value each.
abbrev knows : {A : Type 0} → A → Codec A
knows a = record { encode = λ _. 0x7b ∷ 0x7d ∷ []; decode = λ _. some a }

abbrev actions : Codec FixAction
actions = knows clean_logs

abbrev infos : Codec ApprovalInfo
infos = knows info

abbrev baselines : Codec ℕ
baselines = knows 0

abbrev empty : Db
empty = record {
  rows = [];
  next_row = 1;
  executions = [];
  next_execution = 1;
  undos = [];
  next_undo = 1;
  executed = [];
}

empty-Inv : Inv empty.rows empty.next_row
unfolding count_active
empty-Inv = record { ids = tt; bounded = omega arith; keys = tt }

abbrev calls : List (Call ℕ)
calls =
    insert 7 clean_logs info 0
    ∷ insert 8 clean_logs info 0
    ∷ claim 1 true []
    ∷ restart
    ∷ delete 1
    ∷ []

run_calls-Inv_example :
    let db = run ascii actions infos baselines empty calls in Inv db.rows db.next_row
run_calls-Inv_example = run_calls-Inv ascii actions infos baselines empty calls empty-Inv

-- One approval, as it stands after it was queued.
abbrev queued : Db
queued = record empty {
  rows =
      record {
        id = 1;
        decision_id = 7;
        action_json = 0x7b ∷ 0x7d ∷ [];
        info_json = 0x7b ∷ 0x7d ∷ [];
        baseline_json = 0x7b ∷ 0x7d ∷ [];
        action_key = some (dedup_key ascii clean_logs);
        status = pending;
        claimed_at = none;
      }
      ∷ [];
  next_row = 2;
}

insert_ok :
    insert_pending_approval ascii actions infos baselines empty 7 clean_logs info 0 ≡ ok (1, queued)
unfolding insert_pending_approval ensure_approval_row_bounded count_active active_key new_row
    utf8_len
insert_ok = refl

claim-insert_pending_approval_example :
    (db : Db) × (claim_pending_approval ascii actions infos baselines queued 1 true []
      ≡ ok (
        some (record {
          info = record info { id = 1 };
          action = clean_logs;
          decision_id = 7;
          baseline = 0;
        }),
        db,
      ))
claim-insert_pending_approval_example =
    claim-insert_pending_approval ascii actions infos baselines empty queued 7 1 clean_logs info 0
      true [] refl refl refl insert_ok (omega arith)

abbrev got : PendingApproval ℕ
got = record { info = record info { id = 1 }; action = clean_logs; decision_id = 7; baseline = 0 }

abbrev taken : Db
taken = record queued { rows = update_status 1 pending approved (some []) queued.rows }

queued-Inv : Inv queued.rows queued.next_row
unfolding count_active active_key
queued-Inv = record { ids = (omega arith, tt); bounded = omega arith; keys = (refl, tt) }

claim_ok :
    claim_pending_approval ascii actions infos baselines queued 1 true [] ≡ ok (some got, taken)
unfolding claim_pending_approval to_i64 parse_first parse_pending_approval
    ensure_approval_row_bounded first_match matches same_status utf8_len
claim_ok = refl

abbrev between : List (Call ℕ)
between = insert 9 reset_key info 0 ∷ claim 1 false [] ∷ delete 5 ∷ []

claim_pending_approval-once_example :
    (db : Db) × (claim_pending_approval ascii actions infos baselines
        (run ascii actions infos baselines taken between)
        1
        true
        []
      ≡ ok (none, db))
claim_pending_approval-once_example =
    claim_pending_approval-once ascii actions infos baselines 1 queued taken true true [] [] got
      between queued-Inv claim_ok (tt, (tt, (tt, tt)))

abbrev done : ExecutionResult
done = record { action = codes "clean"; success = true; output = []; undo = none }

abbrev first_execution : PersistedExecution
first_execution = record { execution_id = 1; undo_id = none }

abbrev settled : Db
settled = record (log_execution ascii taken 7 clean_logs done []) {
  rows = delete_status 1 approved taken.rows;
}

persist_ok :
    persist_execution ascii taken 7 clean_logs done (some 1) false []
    ≡ ok (first_execution, settled)
unfolding persist_execution to_i64 count_matches matches same_status update_status move_row
    ensure_undo insert_undo
persist_ok = refl

taken-Inv : Inv taken.rows taken.next_row
unfolding count_active update_status move_row matches same_status active_key
taken-Inv = record { ids = (omega arith, tt); bounded = omega arith; keys = (refl, tt) }

persist_execution-once_example :
    let later = run ascii actions infos baselines settled (restart ∷ []) in
    (claim_pending_approval ascii actions infos baselines later 1 true [] ≢ ok (some got, empty))
    × (persist_execution ascii later 7 clean_logs done (some 1) false []
        ≢ ok (first_execution, empty))
persist_execution-once_example =
    persist_execution-once ascii actions infos baselines 1 taken settled 7 clean_logs done []
      first_execution (restart ∷ []) true got 7 clean_logs done false [] first_execution empty
      taken-Inv persist_ok

-- A registry reset, with the snapshot that undoes it.
abbrev snapshot : RegistryUndo
snapshot = record {
  key_path = codes "HKCU:/Software/App";
  value_name = codes "Mode";
  prior_existed = false;
  prior_kind = none;
  prior_data = none;
  applied_kind = some dword;
  applied_data = some (codes "1");
}

abbrev reset_done : ExecutionResult
reset_done = record { action = codes "reset"; success = true; output = []; undo = some snapshot }

abbrev reset_db : Db
reset_db =
    (insert_undo true (some snapshot) 1 (log_execution ascii empty 3 reset_key reset_done [])).1

abbrev reset_execution : PersistedExecution
reset_execution = record { execution_id = 1; undo_id = some 1 }

reset_ok :
    persist_execution ascii empty 3 reset_key reset_done none false []
    ≡ ok (reset_execution, reset_db)
unfolding persist_execution ensure_undo insert_undo settle_approval
reset_ok = refl

persist_execution-undo_example :
    (reset_db.executions
      ≡ record {
        id = 1;
        decision_id = 3;
        action = codes "reset";
        action_key = dedup_key ascii reset_key;
        success = true;
        output = [];
        executed_at = [];
      }
        ∷ [])
    × Undone true (some snapshot) empty reset_execution reset_db.undos
persist_execution-undo_example =
    persist_execution-undo ascii empty reset_db 3 reset_key reset_done none false [] reset_execution
      reset_ok

-- Two rows of one action that an older version left without keys.
abbrev legacy : ℕ → Row
legacy n = record {
  id = n;
  decision_id = 7;
  action_json = 0x7b ∷ 0x7d ∷ [];
  info_json = 0x7b ∷ 0x7d ∷ [];
  baseline_json = 0x7b ∷ 0x7d ∷ [];
  action_key = none;
  status = pending;
  claimed_at = none;
}

abbrev old_db : Db
old_db = record empty { rows = legacy 2 ∷ legacy 1 ∷ []; next_row = 3 }

load_pending_approvals-Inv_example :
    let (shown, db) = load_pending_approvals ascii actions infos baselines old_db in
    Inv db.rows db.next_row × (distinct (map (λ pa. dedup_key ascii pa.action) shown) ≡ true)
load_pending_approvals-Inv_example =
    load_pending_approvals-Inv ascii actions infos baselines old_db (omega arith, (omega arith, tt))
