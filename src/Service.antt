-- ===== src/Service.antt =====
-- eir-svc/src/main.rs: the decision loop's state, as far as its pure helpers and the routing of a
-- user's action read and write it.
pub mod Gaming
pub mod Route
use eir.Prelude.{ℕ, Bool, Option, List, [], ◌∷◌, ◌++◌, length, leb, drop, if◌then◌else◌}
use eir.Prelude.Int.{ℤ}
use eir.Text.{Text}
use eir.Float.{F32}
use eir.Approvals.{PendingApproval}

-- eir-proto's ProblemSummary
pub record ProblemSummary (Reason : Type 0) : Type 0 where
  pub diagnosis : Text
  pub confidence : F32
  pub action : Text
  pub blocked : Bool
  pub auto_executed : Bool
  pub reason : Option Reason
  pub at : ℤ

-- `in_flight` is a set of semantic keys.
pub record SvcState (State Reason : Type 0) : Type 0 where
  pub paused : Bool
  pub updater_running : Bool
  pub gaming_manual : Bool
  pub gaming_until : ℤ
  pub pending : List (PendingApproval State)
  pub in_flight : List Text
  pub recent_problems : List (ProblemSummary Reason)

abbrev pub max_recent_problems : ℕ
max_recent_problems = 20

unfoldable pub push_problem :
    {State Reason : Type 0} → SvcState State Reason → ProblemSummary Reason → SvcState State Reason
push_problem st problem = record st {
  recent_problems =
      (if leb max_recent_problems (length st.recent_problems)
        then drop 1 st.recent_problems
        else st.recent_problems)
      ++ (problem ∷ []);
}
