-- ===== src/Models.antt =====
-- eir-svc/src/models.rs: the fix actions and their identity.
use eir.Prelude.{ℕ, Bool, true, false, [], ◌∷◌, ◌++◌, if◌then◌else◌}
use eir.Text.{Text, Unicode, codes, to_ascii_lowercase, join}
use eir.WindowsPath.{normalize_path_lexical, backslash}

pub data FixAction : Type 0 where
  service_restart service_stop service_start : (service_name : Text) → FixAction
  log_cleanup : (path : Text) (days_old : ℕ) → FixAction
  disk_cleanup : (target : Text) → FixAction
  powershell_diagnostic : (script : Text) → FixAction
  task_disable task_enable : (task_name : Text) → FixAction
  registry_reset : (key_path value_name value_data : Text) → FixAction
  network_diagnostic : (command : Text) → FixAction
  driver_disable driver_enable : (driver_name : Text) → FixAction
  software_uninstall : (package_name : Text) → FixAction
  bcd_edit : (element value : Text) → FixAction
  process_kill : (process_name : Text) → FixAction
  file_delete : (path : Text) → FixAction
  firewall_enable : (profile : Text) → FixAction
  defender_signature_update defender_realtime_enable sfc_scan dism_restore_health : FixAction
  startup_set : (name location hive : Text) (enable : Bool) → FixAction

unfoldable pub can_always_approve : FixAction → Bool
can_always_approve (powershell_diagnostic _) = false
can_always_approve _ = true

abbrev pipe : ℕ
pipe = 0x7c

abbrev pub bool_text : Bool → Text
bool_text b = if b then codes "true" else codes "false"

-- format!("{kind}|{}", target)
unfoldable pub keyed : Text → Text → Text
keyed kind target = kind ++ (pipe ∷ target)

module _ (u : Unicode) where
  unfoldable pub normalized_windows_target : Text → Text
  normalized_windows_target target = join (backslash ∷ []) (normalize_path_lexical u target)

  unfoldable pub dedup_key : FixAction → Text
  unfolding keyed
  dedup_key (service_restart n) = keyed (codes "service_restart") (to_ascii_lowercase n)
  dedup_key (service_stop n) = keyed (codes "service_stop") (to_ascii_lowercase n)
  dedup_key (service_start n) = keyed (codes "service_start") (to_ascii_lowercase n)
  dedup_key (log_cleanup p _) = keyed (codes "log_cleanup") (normalized_windows_target p)
  dedup_key (disk_cleanup t) = keyed (codes "disk_cleanup") (to_ascii_lowercase t)
  dedup_key (powershell_diagnostic _) = codes "powershell_diagnostic"
  dedup_key (task_disable n) = keyed (codes "task_disable") (normalized_windows_target n)
  dedup_key (task_enable n) = keyed (codes "task_enable") (normalized_windows_target n)
  dedup_key (registry_reset k v _) =
      keyed (codes "registry_reset") (keyed (normalized_windows_target k) (to_ascii_lowercase v))
  dedup_key (network_diagnostic c) = keyed (codes "network_diagnostic") (to_ascii_lowercase c)
  dedup_key (driver_disable n) = keyed (codes "driver_disable") (to_ascii_lowercase n)
  dedup_key (driver_enable n) = keyed (codes "driver_enable") (to_ascii_lowercase n)
  dedup_key (software_uninstall n) = keyed (codes "software_uninstall") (to_ascii_lowercase n)
  dedup_key (bcd_edit e _) = keyed (codes "bcd_edit") (to_ascii_lowercase e)
  dedup_key (process_kill n) = keyed (codes "process_kill") (to_ascii_lowercase n)
  dedup_key (file_delete p) = keyed (codes "file_delete") (normalized_windows_target p)
  dedup_key (firewall_enable p) = keyed (codes "firewall_enable") (to_ascii_lowercase p)
  dedup_key defender_signature_update = codes "defender_signature_update"
  dedup_key defender_realtime_enable = codes "defender_realtime_enable"
  dedup_key sfc_scan = codes "sfc_scan"
  dedup_key dism_restore_health = codes "dism_restore_health"
  dedup_key (startup_set n l h e) = keyed (codes "startup_set") (
      keyed (to_ascii_lowercase n)
        (keyed (to_ascii_lowercase l) (keyed (to_ascii_lowercase h) (bool_text e))))
