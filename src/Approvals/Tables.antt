-- ===== src/Approvals/Tables.antt =====
-- eir-svc/src/audit.rs: the tables of the audit database, what is stored in them, and the errors.
use eir.Prelude.{ℕ, ◌*◌, ◌^◌, Bool, true, false, Option, none, some, List, ltb, if◌then◌else◌}
use eir.Prelude.Int.{ℤ}
use eir.Text.{Text}
use eir.Float.{F32}
use eir.Models.{FixAction}
use eir.Approvals.Rows.{Row}

-- serde_json for one type: to_string and from_str.
pub record Codec (A : Type 0) : Type 0 where
  pub encode : A → Text
  pub decode : Text → Option A

-- eir-proto's ApprovalInfo
pub record ApprovalInfo : Type 0 where
  pub id : ℕ
  pub diagnosis : Text
  pub root_cause : Text
  pub confidence : F32
  pub action : Text
  pub reason : Text
  pub side_effects : Text
  pub undo_instructions : Text
  pub action_summary : Text
  pub target : Text
  pub target_details : Text
  pub reversible : Bool
  pub created_at : ℤ

pub data RegistryScalarKind : Type 0 where
  string expand_string dword qword : RegistryScalarKind

pub record RegistryUndo : Type 0 where
  pub key_path : Text
  pub value_name : Text
  pub prior_existed : Bool
  pub prior_kind : Option RegistryScalarKind
  pub prior_data : Option Text
  pub applied_kind : Option RegistryScalarKind
  pub applied_data : Option Text

pub record ExecutionResult : Type 0 where
  pub action : Text
  pub success : Bool
  pub output : Text
  pub undo : Option RegistryUndo

-- A row of execution_log, and a row of registry_undo.
pub record Execution : Type 0 where
  pub id : ℕ
  pub decision_id : ℕ
  pub action : Text
  pub action_key : Text
  pub success : Bool
  pub output : Text
  pub executed_at : Text

pub record UndoRow : Type 0 where
  pub id : ℕ
  pub execution_id : ℕ
  pub undo : RegistryUndo
  pub undone : Bool

-- The tables, newest row first, each with the next id of its AUTOINCREMENT column. `executed`
-- lists the decisions whose `executed` column is 1.
pub record Db : Type 0 where
  pub rows : List Row
  pub next_row : ℕ
  pub executions : List Execution
  pub next_execution : ℕ
  pub undos : List UndoRow
  pub next_undo : ℕ
  pub executed : List ℕ

pub data Error : Type 0 where
  action_too_large info_too_large baseline_too_large : Error
  action_unreadable info_unreadable baseline_unreadable : Error
  queue_full duplicate_key id_out_of_range : Error
  requeue_without_approval undo_missing applied_missing prior_missing prior_present : Error
  undo_unexpected approval_changed : Error

pub data Result {ℓ} (A : Type ℓ) : Type ℓ where
  ok : A → Result A
  err : Error → Result A

-- anyhow::ensure!
abbrev pub ensure : Bool → Error → Result (Unit {0})
ensure true e = ok tt
ensure false e = err e

infixl 5 ◌>>=◌ ◌>>◌
abbrev pub ◌>>=◌ {ℓ κ} : {A : Type ℓ} {B : Type κ} → Result A → (A → Result B) → Result B
ok a >>= f = f a
err e >>= f = err e

abbrev pub from_option {ℓ} : {A : Type ℓ} → Option A → Error → Result A
from_option none e = err e
from_option (some a) e = ok a

abbrev pub ◌>>◌ {ℓ} : {B : Type ℓ} → Result (Unit {0}) → Result B → Result B
m >> k = m >>= λ _. k

abbrev pub max_active_approvals : ℕ
max_active_approvals = 256

abbrev pub max_action_bytes : ℕ
max_action_bytes = 64 * 1024

abbrev pub max_info_bytes : ℕ
max_info_bytes = 256 * 1024

abbrev pub max_baseline_bytes : ℕ
max_baseline_bytes = 1024 * 1024

-- i64::try_from of a u64
unfoldable pub to_i64 : ℕ → Result ℕ
to_i64 n = if ltb n (2 ^ 63) then ok n else err id_out_of_range

pub record PersistedExecution : Type 0 where
  pub execution_id : ℕ
  pub undo_id : Option ℕ

pub record PendingApproval (State : Type 0) : Type 0 where
  pub info : ApprovalInfo
  pub action : FixAction
  pub decision_id : ℕ
  pub baseline : State
