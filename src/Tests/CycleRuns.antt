-- ===== src/Tests/CycleRuns.antt =====
-- A cycle, its rows and a retry at concrete inputs.
use eir.Prelude.{
  ◌⊎◌, ◌≡◌, ◌≢◌, ◌↔◌, refl, ℕ, ◌+◌, true, false, Option, none, some, [], ◌∷◌, ◌++◌, map, all, ◌&&◌,
  not, is_nil,
}
use eir.Prelude.Int.{pos}
use eir.Text.{
  Text, codes, member, is_empty, eq_ignore_ascii_case, trim, ends_with, contains, split, join,
  is_ascii_hexdigit, split_whitespace,
}
use eir.Learn.{no_facts, is_method_deprioritised}
use eir.Updater.Config.{UpdaterConfig, require_valid, valid_app_id, guidance_for}
use eir.Updater.Backoff.{Pause, runs_of, pause_after, paused}
use eir.Updater.Check.{
  Offer, Sources, base_id, should_skip, version_known, is_unwanted, methods_of, candidate_of, push,
  push_all, listed, collect_method, collect_managers, retain_target, listing_failed, with_native,
  collect,
}
use eir.Updater.Domain.{
  Method, winget, AttemptOutcome, UpdateCandidate, verified, has_method, from_token,
}
use eir.Updater.Diagnose.{RawStep}
use eir.Updater.Heal.{World, heal_order, attempt, dispatch, heal_loop, heal}
use eir.Updater.Cycle.{
  CycleInput, CycleSummary, run_cycle, selection_of, check_of, app_completed_cleanly, total_cost,
  heal_one,
}
use eir.Updater.Available.{enabled_methods}
use eir.Updater.Selection.{pauses_of}
use eir.Updater.Selection.Fairness.{IsFair}
use eir.Updater.Cycle.Outcome.{subjects, run_cycle-IsFair}
use eir.Updater.Cycle.Clean.{run_cycle-clean_iff, WentWell}
use eir.Updater.Names.{
  move_dots, is_core_char, is_version, is_version_token, is_arch_qualifier, is_connector, counts,
  tail_of, strip_tail, strip_connectors, name_of, clean_app_name, app_id,
}
use eir.Updater.Winget.{is_noise}
use eir.Updater.Notes.{note_of}
use eir.Prelude.Sort.{insert_by}
use eir.Json.Repair.{is_control}
use eir.Updater.Cycle.Outcome.{outcomes_of}
use eir.Updater.Rows.{UpdaterAppRow, app_rows, is_zero}
use eir.Updater.Rows.States.{is_good, app_rows-agrees}
use eir.Updater.Guidance.{one_line}
use eir.Updater.Retried.{
  RetryInput, without_ignored, explain_retry_failure, refine_guidance, mark_success,
  guided_failure_needs_explanation,
}
use eir.Updater.Retry.{run_retry, retry_first, retry_check, found, summarize}
use eir.Updater.Retry.Target.{IsTargeted}
use eir.Updater.Retry.Learned.{IsProved, run_retry-IsSound}
use eir.Tests.Fixtures.{ascii}

abbrev settings : UpdaterConfig
settings = record {
  enabled = true;
  schedule_interval_secs = 3600;
  methods = codes "winget" ∷ [];
  native_enabled = false;
  native_signature_policy = require_valid;
  max_attempts_per_app = 2;
  max_apps_per_run = 1;
  max_installer_mb = 10;
  bootstrap_managers = false;
  ignored = [];
  notes = (codes "krita", codes "Use  the stable build from https://krita.org.") ∷ [];
  learned_notes = [];
}

abbrev success : Method → AttemptOutcome ℕ
success m = record {
  method = m;
  success = true;
  verification = verified;
  category = none;
  exit_code = some (pos 0);
  installed_version = some (codes "5.3");
  detail = codes "done";
  signature = none;
  sha256 = none;
  cost_usd = 0;
}

abbrev working : World ℕ
working = record { kill = λ n name. none; attempt = λ n m forcing. success m; complete = λ n. none }

abbrev krita : Offer
krita = record {
  name = codes "Krita";
  current = codes "5.2";
  available = codes "5.3";
  package_id = some (codes "KDE.Krita");
}

abbrev sources : Sources
sources m = some (krita ∷ [])

abbrev scene : CycleInput ℕ
scene = record {
  config = settings;
  machine = record { winget_found = true; choco_found = false; choco_installs = false };
  sources = sources;
  native_check = none;
  check_cost = 0;
  learned_skips = [];
  learned = no_facts;
  last_attempt = λ id. none;
  records = some [];
  now = pos 1000;
  world = λ n. working;
  is_recorded = λ n. true;
  completed_at = pos 1060;
  clean_run_saved = true;
}

abbrev add : ℕ → ℕ → ℕ
add a b = a + b

abbrev unread : Text → Option RawStep
unread t = none

abbrev describe : Pause → Text
describe p = p.last_detail

abbrev candidate : UpdateCandidate
candidate = record {
  id = codes "krita";
  name = codes "Krita";
  current = codes "5.2";
  available = codes "5.3";
  package_id = some (codes "KDE.Krita");
  guidance = some (codes "Use  the stable build from https://krita.org.");
  methods = winget ∷ [];
}

abbrev summary : CycleSummary ℕ
summary = record {
  results = (candidate, success winget ∷ []) ∷ [];
  cost_usd = 0;
  completed_at = pos 1060;
  clean_at = pos 1060;
  targeted = false;
  learned_guidance = none;
}

run_cycle_ok : run_cycle ascii 0 add unread describe scene ≡ some summary
unfolding codes member is_empty eq_ignore_ascii_case trim ends_with contains split join
    is_ascii_hexdigit split_whitespace base_id should_skip version_known is_unwanted methods_of
    candidate_of push push_all listed collect_method collect_managers retain_target listing_failed
    with_native collect enabled_methods app_completed_cleanly total_cost heal_one run_cycle
    has_method from_token heal_order attempt dispatch heal_loop heal move_dots is_core_char
    is_version is_version_token is_arch_qualifier is_connector counts tail_of strip_tail
    strip_connectors name_of clean_app_name app_id is_noise valid_app_id guidance_for note_of
    insert_by is_method_deprioritised runs_of pause_after paused is_control
run_cycle_ok = refl

run_cycle-IsFair_example :
    (r : CycleSummary ℕ) × (run_cycle ascii 0 add unread describe scene ≡ some r)
    × (subjects r.results
        ≡ (selection_of ascii 0 add unread describe scene).attempted
          ++ map (λ p. p.0) (selection_of ascii 0 add unread describe scene).paused)
    × IsFair
        (pauses_of (some []) (pos 1000))
        (λ id. none)
        1
        (check_of ascii 0 add unread describe scene).candidates
        (selection_of ascii 0 add unread describe scene)
run_cycle-IsFair_example = run_cycle-IsFair ascii 0 add unread describe scene

not_1970 : pos 1060 ≢ pos 0
not_1970 e = cc

run_cycle-clean_iff_example :
    (pos 1060 ≢ pos 0) ↔ (WentWell ascii 0 add unread describe scene summary × (true ≡ true))
run_cycle-clean_iff_example =
    run_cycle-clean_iff ascii 0 add unread describe scene summary not_1970 run_cycle_ok

app_rows-agrees_example :
    all is_good (app_rows summary settings)
    ≡ all app_completed_cleanly (outcomes_of summary.results)
      && not (is_nil summary.results && is_zero summary.clean_at)
app_rows-agrees_example = app_rows-agrees summary settings

-- The row of a failed update, which the user ignores since.
abbrev row : UpdaterAppRow
row = record {
  id = codes "Krita";
  name = codes "Krita";
  from = codes "5.2";
  to = codes "5.3";
  method = codes "winget";
  state = codes "failed";
  detail = [];
  signature = [];
  ignored = true;
  note = [];
}

abbrev input : RetryInput ℕ
input = record {
  prior = row;
  surroundings = record scene { config = record settings { ignored = codes "krita" ∷ [] } };
  check_notes = [];
  observed = λ name expected. [];
  refined = none;
  explained = none;
}

abbrev note : Text × Text
note = (codes "krita", codes "Use the stable build from https://krita.org.")

abbrev retried : CycleSummary ℕ
retried = record {
  results =
      (
        candidate,
        record (success winget) { detail = codes "Updated successfully using guidance. done" } ∷ [],
      )
      ∷ [];
  cost_usd = 0;
  completed_at = pos 1060;
  clean_at = pos 0;
  targeted = true;
  learned_guidance = some note;
}

run_retry_ok : run_retry ascii 0 add unread describe input ≡ some retried
unfolding codes member is_empty eq_ignore_ascii_case trim ends_with contains split join
    is_ascii_hexdigit split_whitespace base_id should_skip version_known is_unwanted methods_of
    candidate_of push push_all listed collect_method collect_managers retain_target listing_failed
    with_native collect enabled_methods app_completed_cleanly total_cost heal_one run_cycle
    has_method from_token heal_order attempt dispatch heal_loop heal move_dots is_core_char
    is_version is_version_token is_arch_qualifier is_connector counts tail_of strip_tail
    strip_connectors name_of clean_app_name app_id is_noise valid_app_id guidance_for note_of
    insert_by is_method_deprioritised runs_of pause_after paused is_control run_retry retry_first
    retry_check found without_ignored summarize explain_retry_failure refine_guidance mark_success
    guided_failure_needs_explanation one_line
run_retry_ok = refl

run_retry-IsSound_example :
    (r : CycleSummary ℕ) × (run_retry ascii 0 add unread describe input ≡ some r)
    × IsTargeted (codes "Krita") r
    × ((r.learned_guidance ≡ none)
        ⊎ ((n : Text × Text) × (r.learned_guidance ≡ some n) × IsProved r n))
run_retry-IsSound_example = run_retry-IsSound ascii 0 add unread describe input
