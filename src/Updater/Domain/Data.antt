-- ===== src/Updater/Domain/Data.antt =====
-- eir-svc/src/updater/domain.rs: the methods, the failures, the outcome of an attempt and the steps
-- that follow it.
use eir.Prelude.{ℕ, Bool, true, false, ◌||◌, Option, none, some, List, any, ◌==◌, if◌then◌else◌}
use eir.Prelude.Int.{ℤ}
use eir.Text.{Text, codes, text_eq, trim, to_ascii_lowercase}

pub data Method : Type 0 where
  winget choco scoop ms_store native : Method

abbrev method_index : Method → ℕ
method_index winget = 0
method_index choco = 1
method_index scoop = 2
method_index ms_store = 3
method_index native = 4

-- a == b
unfoldable pub same_method : Method → Method → Bool
same_method a b = method_index a == method_index b

-- methods.contains(&m)
unfoldable pub has_method : List Method → Method → Bool
unfolding any same_method
has_method ms m = any (same_method m) ms

unfoldable pub as_str : Method → Text
as_str winget = codes "winget"
as_str choco = codes "choco"
as_str scoop = codes "scoop"
as_str ms_store = codes "msstore"
as_str native = codes "native"

unfoldable pub from_token : Text → Option Method
from_token s =
    let t = to_ascii_lowercase (trim s) in
    if text_eq t (codes "winget")
    then some winget
    else if text_eq t (codes "choco") || text_eq t (codes "chocolatey")
    then some choco
    else if text_eq t (codes "scoop")
    then some scoop
    else if text_eq t (codes "msstore") || text_eq t (codes "store") || text_eq t (codes "ms_store")
    then some ms_store
    else if text_eq t (codes "native")
    then some native
    else none

unfoldable pub supports_force : Method → Bool
supports_force winget = true
supports_force choco = true
supports_force _ = false

unfoldable pub has_manager_lock : Method → Bool
has_manager_lock choco = true
has_manager_lock scoop = true
has_manager_lock _ = false

pub data ErrorCategory : Type 0 where
  not_found network_transient hash_mismatch signature_rejected installer_failed : ErrorCategory
  verify_failed permission_denied lock_held needs_force needs_reboot : ErrorCategory
  already_current blocked unknown : ErrorCategory

abbrev category_index : ErrorCategory → ℕ
category_index not_found = 0
category_index network_transient = 1
category_index hash_mismatch = 2
category_index signature_rejected = 3
category_index installer_failed = 4
category_index verify_failed = 5
category_index permission_denied = 6
category_index lock_held = 7
category_index needs_force = 8
category_index needs_reboot = 9
category_index already_current = 10
category_index blocked = 11
category_index unknown = 12

-- a == b
unfoldable pub same_category : ErrorCategory → ErrorCategory → Bool
same_category a b = category_index a == category_index b

unfoldable pub is_terminal : ErrorCategory → Bool
is_terminal hash_mismatch = true
is_terminal signature_rejected = true
is_terminal _ = false

pub data Verification : Type 0 where
  verified mismatch unverified not_checked : Verification

-- `cost_usd` is an f64, whose sums are rounded: its type is a parameter.
pub record AttemptOutcome (Cost : Type 0) : Type 0 where
  pub method : Method
  pub success : Bool
  pub verification : Verification
  pub category : Option ErrorCategory
  pub exit_code : Option ℤ
  pub installed_version : Option Text
  pub detail : Text
  pub signature : Option Text
  pub sha256 : Option Text
  pub cost_usd : Cost

-- AttemptOutcome::failed, with 0.0 of the cost's type
unfoldable pub failed : {Cost : Type 0} → Cost → Method → ErrorCategory → Text → AttemptOutcome Cost
failed zero_cost method category detail = record {
  method = method;
  success = false;
  verification = not_checked;
  category = some category;
  exit_code = none;
  installed_version = none;
  detail = detail;
  signature = none;
  sha256 = none;
  cost_usd = zero_cost;
}

pub record UpdateCandidate : Type 0 where
  pub id : Text
  pub name : Text
  pub current : Text
  pub available : Text
  pub package_id : Option Text
  pub guidance : Option Text
  pub methods : List Method

pub data Remedy : Type 0 where
  force : Remedy
  kill_process : (name : Text) → Remedy
  clear_manager_lock retry_after_reboot : Remedy

pub data ProposedStep : Type 0 where
  switch : (method : Method) → ProposedStep
  retry : (method : Method) (remedy : Remedy) → ProposedStep
  give_up : (reason : Text) → ProposedStep

pub data NextStep : Type 0 where
  switch_to : Method → NextStep
  retry_with : Method → Remedy → NextStep
  stop : Text → NextStep

pub record StepContext : Type 0 where
  pub failed : ErrorCategory
  pub tried : List Method
  pub available : List Method
  pub error_text : Text
