-- ===== src/Tests/LearnRuns.antt =====
-- The learned penalty at concrete facts.
use eir.Prelude.{
  none, List, ℕ, ◌≢◌, false, not, ◌&&◌, any, all, leb, length, inl, filter, ◌≡◌, refl, arith, ◌+◌,
  true, [], ◌∷◌, some,
}
use eir.Prelude.Int.{pos}
use eir.Text.{codes, text_eq}
use eir.Float.{F32, fin, pos_inf, le_f32, zero_f32}
use eir.Learn.{LearnedFacts, FactRow, load_rows, no_facts, confidence_penalty}
use eir.Safety.{text_after}
use eir.Learn.Detect.{AttemptRow, timed_out, detect_method_failing, is_method_fault}
use eir.Learn.Detect.Sound.{of_app, of_method, timeout_cycles, count_if, detect_method_failing_iff}
use eir.Learn.Store.{
  Fact, Facts, active, user_disabled, has_key, next_unlabelled, is_unlabelled, newest, in_force,
  label_one, label_next, label_reply, mark_label_attempted, update_where, upsert_fact,
}
use eir.Learn.Store.Spec.{Call, upsert, expire, clear, explain, run, step, view, spec_run, entry_at}
use eir.Learn.Store.Entries.{AreRows}
use eir.Learn.Store.Refines.{run-refines}
use eir.Learn.Store.Overrides.{run-keeps_override}
use eir.Learn.Store.Labels.{label_one-once}
use eir.Learn.Analyse.{Words, as_token, analyse_updates}
use eir.Learn.Analyse.Verdict.{in_force_entry, verdict, self_updater_kind, analyse_updates-verdict}
use eir.Tests.Fixtures.{ascii}

-- An addition that is exact on small numbers and overflows otherwise.
abbrev plus : F32 → F32 → F32
plus (fin (pos a)) (fin (pos b)) = fin (pos (a + b))
plus _ _ = pos_inf

plus-nonneg :
    (a b : F32)
    → le_f32 zero_f32 a ≡ true
    → le_f32 zero_f32 b ≡ true
    → le_f32 zero_f32 (plus a b) ≡ true
unfolding le_f32
plus-nonneg (fin (pos a)) (fin (pos b)) h k = ground arith
plus-nonneg _ _ h k = refl

abbrev row : FactRow
row = record { kind = codes "fix_ineffective"; subject = codes "ServiceRestart"; effect_json = [] }

abbrev facts : LearnedFacts
facts = load_rows (λ _. some (confidence_penalty pos_inf)) (row ∷ []) no_facts

abbrev timeout_row : ℕ → AttemptRow
timeout_row cycle = record {
  app_id = codes "discord.install";
  cycle_id = cycle;
  success = false;
  exit_code = some timed_out;
  category = some (codes "network_transient");
  method = codes "choco";
  detail = [];
}

abbrev fault_row : AttemptRow
fault_row = record (timeout_row 1) { category = some (codes "verify_failed") }

abbrev success_row : AttemptRow
success_row = record (timeout_row 2) { success = true; method = codes "winget" }

abbrev fact_row : Fact
fact_row = record {
  id = 4;
  kind = self_updater_kind;
  subject = codes "vlc";
  effect_json = [];
  evidence = [];
  window_days = 30;
  first_seen_at = [];
  last_reinforced_at = [];
  status = user_disabled;
  detector = true;
  ai_explanation = none;
  ai_label_attempted_at = none;
}

abbrev new_row : Fact
new_row = record fact_row { id = 5; subject = codes "zoom"; status = active }

abbrev fact_table : Facts
fact_table = record { rows = new_row ∷ fact_row ∷ []; next_id = 6 }

abbrev words : Words
words = record {
  to_json = λ e. [];
  timeouts = λ n. [];
  failures = λ n m. [];
  ineffective = λ n. [];
  rejections = λ n. [];
}

table-AreRows : AreRows fact_table.rows
unfolding any has_key text_eq codes as_token
table-AreRows = (refl, refl, (refl, refl, tt))

abbrev calls : List Call
calls = expire self_updater_kind [] ∷ clear ∷ explain 4 (codes "It updates itself") ∷ []

analyse_updates-verdict_example :
    in_force_entry (
      entry_at self_updater_kind
        (codes "discord")
        (analyse_updates [] words ascii
          (timeout_row 1 ∷ timeout_row 2 ∷ timeout_row 3 ∷ [])
          fact_table).rows)
    ≡ verdict
        (not (
            any
              (λ r. of_app (codes "discord") r && r.success)
              (timeout_row 1 ∷ timeout_row 2 ∷ timeout_row 3 ∷ []))
          && leb 3 (
              length (
                timeout_cycles ascii
                  (codes "discord")
                  (timeout_row 1 ∷ timeout_row 2 ∷ timeout_row 3 ∷ [])
                  [])))
        (entry_at self_updater_kind (codes "discord") fact_table.rows)
analyse_updates-verdict_example =
    analyse_updates-verdict [] words ascii (timeout_row 1 ∷ timeout_row 2 ∷ timeout_row 3 ∷ [])
      fact_table (codes "discord") table-AreRows

detect_method_failing_iff_example :
    any
      (λ c. text_eq c.app (codes "discord") && text_eq c.method (codes "choco"))
      (detect_method_failing (fault_row ∷ success_row ∷ []) 1)
    ≡ (not (
          any
            (λ r. of_method (codes "discord") (codes "choco") r && r.success)
            (fault_row ∷ success_row ∷ []))
        && (leb 1 (
              count_if
                (λ r. of_method (codes "discord") (codes "choco") r && is_method_fault r)
                (fault_row ∷ success_row ∷ []))
            && any (λ r. of_app (codes "discord") r && r.success) (fault_row ∷ success_row ∷ [])))
detect_method_failing_iff_example =
    detect_method_failing_iff (fault_row ∷ success_row ∷ []) 0 (codes "discord") (codes "choco")

run-refines_example :
    (view (run calls fact_table) ≡ spec_run calls (view fact_table))
    × AreRows (run calls fact_table).rows
run-refines_example = run-refines calls fact_table table-AreRows

run-keeps_override_example :
    entry_at self_updater_kind (codes "vlc") (run calls fact_table).rows ≡ some (4, user_disabled)
unfolding entry_at has_key text_eq codes as_token all
run-keeps_override_example =
    run-keeps_override calls fact_table self_updater_kind (codes "vlc") 4 user_disabled
      table-AreRows refl (inl refl) refl

abbrev late_calls : List Call
late_calls = upsert [] self_updater_kind (codes "slack") [] [] 30 ∷ []

abbrev slack_row : Fact
slack_row = record fact_row { id = 6; subject = codes "slack"; status = active }

label_one-once_example : slack_row.id ≢ new_row.id
unfolding next_unlabelled is_unlabelled filter newest in_force run step label_one label_next
    label_reply mark_label_attempted update_where upsert_fact any has_key text_eq codes as_token
    text_after
label_one-once_example =
    label_one-once [] [] late_calls none fact_table new_row slack_row (omega arith) refl refl
