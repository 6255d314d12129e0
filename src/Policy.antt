-- ===== src/Policy.antt =====
-- eir-svc/src/policy/mod.rs: the gate that every proposed fix passes. A message of the source is a
-- constructor of `Reason` that holds the values the message prints.
pub mod Gate
pub mod Forbidden
use eir.Prelude.{Bool, ◌&&◌, ◌||◌, not, Option, none, some, List, any, if◌then◌else◌}
use eir.Text.{Text, Unicode, codes, text_eq, member}
use eir.Float.{F32, le_f32, lt_f32, is_finite, zero_f32, one_f32}
use eir.WindowsPath.{is_network_path, is_within}
use eir.Models.{
  FixAction, service_restart, service_stop, service_start, log_cleanup, disk_cleanup,
  powershell_diagnostic, task_disable, task_enable, registry_reset, network_diagnostic,
  driver_disable, driver_enable, software_uninstall, bcd_edit, process_kill, file_delete,
  firewall_enable, defender_signature_update, defender_realtime_enable, sfc_scan,
  dism_restore_health, startup_set,
}

-- `ExecutionConfig` with the fields that the service reads, `WhitelistConfig` and
-- `BlocklistConfig`.
pub record ExecutionPolicy : Type 0 where
  pub confidence_threshold : F32
  pub whitelist : List Text
  pub blocked_services : List Text
  pub blocked_paths : List Text
  pub blocked_actions : List Text
  pub blocked_tasks : List Text

pub data Reason : Type 0 where
  disabled_by_policy network_path service_listed path_listed registry_listed task_listed :
      Text → Reason
  invalid_confidence invalid_threshold : F32 → Reason
  below_threshold : (confidence threshold : F32) → Reason

pub data Verdict : Type 0 where
  auto_approve : Verdict
  -- the name of the action that is not on the whitelist
  require_approval : Text → Verdict
  block : Reason → Verdict

unfoldable pub action_type_name : FixAction → Text
action_type_name (service_restart _) = codes "service_restart"
action_type_name (service_stop _) = codes "service_stop"
action_type_name (service_start _) = codes "service_start"
action_type_name (log_cleanup _ _) = codes "log_cleanup"
action_type_name (disk_cleanup _) = codes "disk_cleanup"
action_type_name (powershell_diagnostic _) = codes "powershell_diagnostic"
action_type_name (task_disable _) = codes "task_disable"
action_type_name (task_enable _) = codes "task_enable"
action_type_name (registry_reset _ _ _) = codes "registry_reset"
action_type_name (network_diagnostic _) = codes "network_diagnostic"
action_type_name (driver_disable _) = codes "driver_disable"
action_type_name (driver_enable _) = codes "driver_enable"
action_type_name (software_uninstall _) = codes "software_uninstall"
action_type_name (bcd_edit _ _) = codes "bcd_edit"
action_type_name (process_kill _) = codes "process_kill"
action_type_name (file_delete _) = codes "file_delete"
action_type_name (firewall_enable _) = codes "firewall_enable"
action_type_name defender_signature_update = codes "defender_signature_update"
action_type_name defender_realtime_enable = codes "defender_realtime_enable"
action_type_name sfc_scan = codes "sfc_scan"
action_type_name dism_restore_health = codes "dism_restore_health"
action_type_name (startup_set _ _ _ _) = codes "startup_set"

-- The three tests on the confidence and the threshold.
unfoldable pub confidence_reason : F32 → F32 → Option Reason
unfolding le_f32 lt_f32 is_finite
confidence_reason threshold confidence =
    if not (le_f32 zero_f32 confidence && le_f32 confidence one_f32)
    then some (invalid_confidence confidence)
    else if not (is_finite threshold) || le_f32 threshold zero_f32 || lt_f32 one_f32 threshold
    then some (invalid_threshold threshold)
    else if lt_f32 confidence threshold
    then some (below_threshold confidence threshold)
    else none

abbrev when : Bool → Reason → Option Reason
when b r = if b then some r else none

module _ (u : Unicode) where
  unfoldable pub service_blocked : ExecutionPolicy → Text → Bool
  service_blocked pol name =
      let lower = u.to_lowercase name in
      any (λ b. text_eq (u.to_lowercase b) lower) pol.blocked_services

  unfoldable pub path_blocked : ExecutionPolicy → Text → Bool
  path_blocked pol path = any (λ b. is_within u path b) pol.blocked_paths

  unfoldable pub task_blocked : ExecutionPolicy → Text → Bool
  task_blocked pol task_name = any (λ b. is_within u task_name b) pol.blocked_tasks

  -- The guards of the `match` in source order: a guard that fails falls through to the later arms.
  unfoldable pub blocked_reason : ExecutionPolicy → FixAction → Option Reason
  blocked_reason pol (log_cleanup path _) =
      if is_network_path path
      then some (network_path path)
      else when (path_blocked pol path) (path_listed path)
  blocked_reason pol (file_delete path) =
      if is_network_path path
      then some (network_path path)
      else when (path_blocked pol path) (path_listed path)
  blocked_reason pol (service_restart n) = when (service_blocked pol n) (service_listed n)
  blocked_reason pol (service_stop n) = when (service_blocked pol n) (service_listed n)
  blocked_reason pol (service_start n) = when (service_blocked pol n) (service_listed n)
  blocked_reason pol (registry_reset k _ _) = when (path_blocked pol k) (registry_listed k)
  blocked_reason pol (task_disable n) = when (task_blocked pol n) (task_listed n)
  blocked_reason pol (task_enable n) = when (task_blocked pol n) (task_listed n)
  blocked_reason pol _ = none

  unfoldable pub evaluate : ExecutionPolicy → FixAction → F32 → Verdict
  evaluate pol action confidence =
      let name = action_type_name action in
      if member name pol.blocked_actions
      then block (disabled_by_policy name)
      else elim (blocked_reason pol action) [
        | some reason ↦ block reason
        | none ↦ elim (confidence_reason pol.confidence_threshold confidence) [
          | some reason ↦ block reason
          | none ↦ if not (member name pol.whitelist) then require_approval name else auto_approve
        ]
      ]
