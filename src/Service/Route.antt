-- ===== src/Service/Route.antt =====
-- eir-svc/src/main.rs, route_user_action and approved_action_ready: a user's action, and an
-- approved one, meet the same policy and rate limit as a proposed fix.
pub mod Gate
use eir.Prelude.{
  ℕ, Bool, true, ◌||◌, not, Option, none, some, List, [], ◌∷◌, ◌++◌, any, if◌then◌else◌,
}
use eir.Text.{Text, codes, Unicode, text_eq, member}
use eir.Float.{one_f32}
use eir.Models.{FixAction, dedup_key}
use eir.Policy.{ExecutionPolicy, Reason, Verdict, auto_approve, require_approval, block, evaluate}
use eir.Approvals.{
  Codec, ApprovalInfo, Db, Error, ok, err, insert_pending_approval, PendingApproval,
}
use eir.Safety.{LogRow, rate_limited}
use eir.Service.{SvcState, ProblemSummary, push_problem}

-- Why a problem is listed: the policy's reason, or the text of an outcome.
pub data Why : Type 0 where
  by_policy : Reason → Why
  recently_done : Why
  not_queued : Error → Why

pub data Reply : Type 0 where
  queued queued_for_approval : Reply
  duplicate unrecorded recently_completed safety_failed unavailable : Reply
  refused : Reason → Reply
  approval_failed : Error → Reply

pub record ExecJob (State : Type 0) : Type 0 where
  pub action : FixAction
  pub decision_id : ℕ
  pub baseline : State
  pub key : Text
  pub approval_id : Option ℕ

-- What the routing meets: the id that log_manual_decision gave, or none on an error; the rows of
-- execution_log, or none on an error, with the window's start and the action's Debug text; whether
-- the executor takes the job; and the texts and times of what is listed or queued.
pub record Surroundings : Type 0 where
  pub decision : Option ℕ
  pub log : Option (List LogRow)
  pub cutoff : Text
  pub label : Text
  pub executor_alive : Bool
  pub info : (reason : Text) → ApprovalInfo
  pub problem : Why → ProblemSummary Why

abbrev user_confirms : Text
user_confirms = codes "User-initiated change — confirm to apply"

-- A forced approval turns an automatic one into a question.
unfoldable pub ask_first : Bool → Verdict → Verdict
ask_first true auto_approve = require_approval user_confirms
ask_first _ verdict = verdict

-- The jobs sent to the executor, newest first, stand beside the state and the database.
pub record World (State : Type 0) : Type 0 where
  pub st : SvcState State Why
  pub db : Db
  pub jobs : List (ExecJob State)

unfoldable pub list_problem : {State : Type 0} → Surroundings → Why → World State → World State
list_problem env why w = record w { st = push_problem w.st (env.problem why) }

module _ (u : Unicode) {State : Type 0} where
  unfoldable pub is_duplicate : SvcState State Why → FixAction → Bool
  is_duplicate st action =
      let dedup = dedup_key u action in
      member dedup st.in_flight || any (λ p. text_eq (dedup_key u p.action) dedup) st.pending

  -- The automatic arm: the rate limit, then the executor's queue.
  unfoldable pub start : Surroundings → World State → FixAction → ℕ → State → Reply × World State
  start env w action decision_id baseline = elim env.log [
    | none ↦ (safety_failed, w)
    | some log ↦
        if rate_limited u log action env.label env.cutoff
        then (recently_completed, list_problem env recently_done w)
        else if not env.executor_alive
        then (unavailable, w)
        else (
          queued,
          record w {
            st = record (w.st) { in_flight = dedup_key u action ∷ w.st.in_flight };
            jobs =
                record {
                  action = action;
                  decision_id = decision_id;
                  baseline = baseline;
                  key = dedup_key u action;
                  approval_id = none;
                }
                ∷ w.jobs;
          },
        )
  ]

module _ (u : Unicode) {State : Type 0} (actions : Codec FixAction) (infos : Codec ApprovalInfo)
    (baselines : Codec State) where
  -- The approval arm: the row, then its copy in the pending list.
  unfoldable pub queue_approval :
      Surroundings → World State → FixAction → ℕ → State → ApprovalInfo → Reply × World State
  queue_approval env w action decision_id baseline info =
      elim (insert_pending_approval u actions infos baselines w.db decision_id action info
        baseline) [
          | err e ↦ (approval_failed e, list_problem env (not_queued e) w)
          | ok (row_id, db) ↦ (
            queued_for_approval,
            record w {
              db = db;
              st = record (w.st) {
                pending =
                    w.st.pending
                    ++ (record {
                      info = record info { id = row_id };
                      action = action;
                      decision_id = decision_id;
                      baseline = baseline;
                    }
                        ∷ []);
              };
            },
          )
        ]

  -- `baseline` is SystemState::default().
  unfoldable pub route_user_action :
      ExecutionPolicy
      → Surroundings
      → World State
      → FixAction
      → State
      → (force_approval : Bool) → Reply × World State
  route_user_action pol env w action baseline force_approval =
      if is_duplicate u w.st action then (duplicate, w) else elim env.decision [
        | none ↦ (unrecorded, w)
        | some decision_id ↦
            let verdict = ask_first force_approval (evaluate u pol action one_f32) in
            elim verdict [
              | block reason ↦ (refused reason, list_problem env (by_policy reason) w)
              | auto_approve ↦ start u env w action decision_id baseline
              | require_approval reason ↦
                  queue_approval env w action decision_id baseline (env.info reason)
            ]
      ]

pub data Preflight : Type 0 where
  ready : Preflight
  resolved_blocked : Reason → Preflight
  resolved_rate_limited retry : Preflight

-- `log` is none when the database cannot be read.
unfoldable pub approved_action_ready :
    {State : Type 0}
    → Unicode
    → ExecutionPolicy
    → Option (List LogRow)
    → Text
    → Text
    → PendingApproval State
    → Preflight
approved_action_ready u pol log label cutoff approval =
    elim (evaluate u pol approval.action approval.info.confidence) [
      | block reason ↦ resolved_blocked reason
      | _ ↦ elim log [
        | none ↦ retry
        | some rows ↦
            if rate_limited u rows approval.action label cutoff
            then resolved_rate_limited
            else ready
      ]
    ]
