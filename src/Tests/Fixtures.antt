-- ===== src/Tests/Fixtures.antt =====
-- Concrete values that the tests share.
use eir.Prelude.{◌^◌, [], ◌∷◌}
use eir.Prelude.Int.{pos}
use eir.Text.{Unicode, codes, to_ascii_lowercase}
use eir.Float.{F32, fin}
use eir.Models.{FixAction, log_cleanup, disk_cleanup, service_stop, registry_reset}
use eir.Policy.{ExecutionPolicy}

-- Lower case for ASCII names.
abbrev pub ascii : Unicode
ascii = record { to_lowercase = to_ascii_lowercase }

abbrev pub half : F32
half = fin (pos (2 ^ 148))

abbrev pub policy : ExecutionPolicy
policy = record {
  confidence_threshold = half;
  whitelist = codes "log_cleanup" ∷ codes "disk_cleanup" ∷ [];
  blocked_services = codes "WinDefend" ∷ [];
  blocked_paths = codes "C:/Windows" ∷ codes "HKLM:/SYSTEM" ∷ [];
  blocked_actions = codes "bcd_edit" ∷ [];
  blocked_tasks = [];
}

abbrev pub stop_defender : FixAction
stop_defender = service_stop (codes "windefend")

abbrev pub clean_logs : FixAction
clean_logs = log_cleanup (codes "D:/logs") 30

abbrev pub clean_temp : FixAction
clean_temp = disk_cleanup (codes "temp")

abbrev pub reset_key : FixAction
reset_key = registry_reset (codes "HKCU:/Software/App") (codes "Mode") (codes "1")
