-- ===== src/Tests/SettingsRuns.antt =====
-- Settings, preferences and the power plan at concrete inputs.
use eir.Prelude.{◌≡◌, refl, true, false, none, some, [], ◌∷◌, List, any, find, arith}
use eir.Prelude.Result.{ok}
use eir.Text.{Text, codes}
use eir.GameMode.{Outcome, switched, unreported, restore}
use eir.GameMode.Restore.{edge, startup, run_events, restore-run_events}
use eir.Updater.Config.{UpdaterConfig, require_valid, sanitize}
use eir.Updater.Config.Sane.{IsSane}
use eir.Updater.Config.Changes.{note, learn, ignore, change_all, change_all-IsSane}
use eir.Settings.{
  normalize_event_log_channels, normalize_log_directories, sanitize_loaded_event_log_channels,
  sanitize_loaded_log_directories,
}
use eir.Settings.Loaded.{loaded-normalize}
use eir.Approvals.{Db, RegistryUndo, string}
use eir.Approvals.Undo.{claimed, recorded, claim_registry_undo, is_open_undo, undo_run, releases}
use eir.Approvals.Undo.Once.{claim_registry_undo-once}
use eir.Tests.Fixtures.{ascii}

-- Every call works.
abbrev works : Outcome
works = record { reads = true; persists = true; switches = switched; loads = true; clears = true }

-- The plan changes, and the report is lost.
abbrev cut_short : Outcome
cut_short = record works { switches = unreported }

abbrev balanced : Text
balanced = codes "381b4222-f694-41f0-9685-ff5bb260df2e"

restore-run_events_example :
    restore works (
      run_events
        (edge true true cut_short ∷ startup cut_short ∷ edge true true works ∷ [])
        (record { active = balanced; saved = none }))
    ≡ record { active = balanced; saved = none }
restore-run_events_example =
    restore-run_events balanced
      (edge true true cut_short ∷ startup cut_short ∷ edge true true works ∷ []) works refl refl
      refl

abbrev loaded : UpdaterConfig
loaded = record {
  enabled = true;
  schedule_interval_secs = 5;
  methods = codes "Winget" ∷ codes "other" ∷ [];
  native_enabled = true;
  native_signature_policy = require_valid;
  max_attempts_per_app = 0;
  max_apps_per_run = 1000;
  max_installer_mb = 100;
  bootstrap_managers = false;
  ignored = codes "A" ∷ codes "a" ∷ [];
  notes = (codes "krita", codes "close it first") ∷ [];
  learned_notes = (codes "gimp", codes "use scoop") ∷ [];
}

change_all-IsSane_example : IsSane (
    change_all ascii
      (note (codes "krita") []
        ∷ learn (codes "gimp") (codes "use scoop")
        ∷ ignore (codes "a") false
        ∷ [])
      (sanitize ascii loaded))
change_all-IsSane_example =
    change_all-IsSane ascii
      (note (codes "krita") []
        ∷ learn (codes "gimp") (codes "use scoop")
        ∷ ignore (codes "a") false
        ∷ [])
      loaded

abbrev channel_list : List Text
channel_list = codes " System" ∷ codes "system" ∷ [] ∷ []

abbrev folders : List Text
folders = codes "C:/logs" ∷ codes "relative" ∷ codes "c:/LOGS" ∷ []

loaded-normalize_example :
    (normalize_event_log_channels (sanitize_loaded_event_log_channels channel_list)
      ≡ ok (sanitize_loaded_event_log_channels channel_list))
    × (normalize_log_directories (sanitize_loaded_log_directories folders)
        ≡ ok (sanitize_loaded_log_directories folders))
loaded-normalize_example = loaded-normalize channel_list folders

abbrev snapshot : RegistryUndo
snapshot = record {
  key_path = codes "k";
  value_name = codes "v";
  prior_existed = false;
  prior_kind = none;
  prior_data = none;
  applied_kind = some string;
  applied_data = some (codes "1");
}

abbrev one_undo : Db
one_undo = record {
  rows = [];
  next_row = 1;
  executions = [];
  next_execution = 2;
  undos = record { id = 1; execution_id = 1; undo = snapshot; undone = false } ∷ [];
  next_undo = 2;
  executed = [];
}

claim_registry_undo-once_example :
    (claim_registry_undo 1 (
      undo_run
        (recorded true (some snapshot) 2 ∷ claimed 1 ∷ [])
        (claim_registry_undo 1 one_undo).1)).0
    ≡ none
unfolding claim_registry_undo is_open_undo find releases any
claim_registry_undo-once_example =
    claim_registry_undo-once 1 one_undo snapshot (recorded true (some snapshot) 2 ∷ claimed 1 ∷ [])
      refl (omega arith) refl
