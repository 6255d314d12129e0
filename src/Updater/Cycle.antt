-- ===== src/Updater/Cycle.antt =====
-- eir-svc/src/updater/orchestrator.rs: one update cycle over every application. The notes and the
-- progress messages, which only tell what happened, are not modelled.
-- The call of analyse_updates after the attempts is left out: Learn.Analyse models it on its own.
-- history::record_attempts and record_clean_run succeed or fail by fields of CycleInput.
pub mod Outcome
pub mod Errors
pub mod Finished
pub mod Clean
use eir.Prelude.{
  ℕ, suc, Bool, false, ◌&&◌, ◌||◌, not, Option, none, some, List, [], ◌∷◌, ◌++◌, map, any, all,
  ◌==◌, if◌then◌else◌, is_some, is_nil,
}
use eir.Prelude.Int.{ℤ, pos}
use eir.Text.{Text, Unicode}
use eir.Learn.{LearnedFacts, is_method_deprioritised}
use eir.Updater.Available.{Machine, available_methods}
use eir.Updater.Selection.{Selected, select, pauses_of}
use eir.Updater.Backoff.{AttemptRecord, Pause, paused}
use eir.Updater.Check.{Sources, NativeCheck, CheckResult, base_id, collect}
use eir.Updater.Config.{UpdaterConfig}
use eir.Updater.Diagnose.{RawStep}
use eir.Updater.Domain.{
  Method, native, as_str, from_token, blocked, same_category, already_current, AttemptOutcome,
  failed, UpdateCandidate, ErrorCategory,
}
use eir.Updater.Heal.{World, heal}

-- token.or_else(|| methods.first().copied()).unwrap_or(Method::Native)
unfoldable pub method_or_first : Option Method → List Method → Method
method_or_first (some m) methods = m
method_or_first none (m ∷ _) = m
method_or_first none [] = native

-- outcomes.last()
unfoldable pub last {ℓ} : {A : Type ℓ} → List A → Option A
last [] = none
last (x ∷ []) = some x
last (x ∷ y ∷ ys) = last (y ∷ ys)

module _ {Cost : Type 0} where
  -- outcome.category == Some(c)
  unfoldable pub is_category : ErrorCategory → AttemptOutcome Cost → Bool
  unfolding same_category
  is_category c o = elim o.category [ none ↦ false | some d ↦ same_category d c ]

  abbrev pub is_some_and : (AttemptOutcome Cost → Bool) → Option (AttemptOutcome Cost) → Bool
  is_some_and p none = false
  is_some_and p (some o) = p o

  abbrev pub succeeds : AttemptOutcome Cost → Bool
  succeeds o = o.success

  unfoldable pub app_completed_cleanly : List (AttemptOutcome Cost) → Bool
  unfolding any last
  app_completed_cleanly outcomes =
      any succeeds outcomes || is_some_and (is_category already_current) (last outcomes)

  unfoldable pub cycle_completed_cleanly : Bool → ℕ → List (List (AttemptOutcome Cost)) → Bool
  unfolding all
  cycle_completed_cleanly had_errors deferred outcomes =
      not had_errors && deferred == 0 && all app_completed_cleanly outcomes

abbrev pub Attempted : Type 0 → Type 0
Attempted Cost = UpdateCandidate × List (AttemptOutcome Cost)

-- `notes` is left out; the pair is a GuidanceLearning, an id and its note.
pub record CycleSummary (Cost : Type 0) : Type 0 where
  pub results : List (Attempted Cost)
  pub cost_usd : Cost
  pub completed_at : ℤ
  pub clean_at : ℤ
  pub targeted : Bool
  pub learned_guidance : Option (Text × Text)

-- What a cycle reads and meets: the settings, the sources, the learned facts, the history (none where
-- it cannot be read), the world of the n-th application, and whether its record and that of the clean
-- run are written.
pub record CycleInput (Cost : Type 0) : Type 0 where
  pub config : UpdaterConfig
  pub machine : Machine
  pub sources : Sources
  pub native_check : NativeCheck
  pub check_cost : Cost
  pub learned_skips : List Text
  pub learned : LearnedFacts
  pub last_attempt : Text → Option ℤ
  pub records : Option (List AttemptRecord)
  pub now : ℤ
  pub world : ℕ → World Cost
  pub is_recorded : ℕ → Bool
  pub completed_at : ℤ
  pub clean_run_saved : Bool

-- Some record of these many applications, from the n-th on, is not written.
unfoldable pub any_unrecorded {ℓ} : {A : Type ℓ} → (ℕ → Bool) → ℕ → List A → Bool
any_unrecorded is_recorded n [] = false
any_unrecorded is_recorded n (_ ∷ xs) = not (is_recorded n) || any_unrecorded is_recorded (suc n) xs

-- `u` and `read` are the diagnostician's; `describe` is Pause::describe, a text of the local time.
module _ (u : Unicode) {Cost : Type 0} (zero_cost : Cost) (add : Cost → Cost → Cost)
    (read : Text → Option RawStep) (describe : Pause → Text) where
  abbrev sum_from : Cost → List (AttemptOutcome Cost) → Cost
  sum_from total [] = total
  sum_from total (o ∷ os) = sum_from (add total o.cost_usd) os

  unfoldable pub total_cost : List (AttemptOutcome Cost) → Cost
  total_cost outcomes = sum_from zero_cost outcomes

  unfoldable pub spend : Cost → List (Attempted Cost) → Cost
  spend spent [] = spent
  spend spent (r ∷ rs) = spend (add spent (total_cost r.1)) rs

  unfoldable pub heal_one :
      CycleInput Cost → List Method → ℕ → UpdateCandidate → Option (List (AttemptOutcome Cost))
  heal_one s available n cand =
      heal u zero_cost add (s.world n) read (is_some s.native_check) s.config.max_attempts_per_app
        (λ m. is_method_deprioritised s.learned (base_id cand.id) (as_str m)) cand.methods available

  abbrev attach :
      UpdateCandidate
      → Option (List (AttemptOutcome Cost))
      → Option (List (Attempted Cost))
      → Option (List (Attempted Cost))
  attach cand (some outcomes) (some rest) = some ((cand, outcomes) ∷ rest)
  attach cand _ _ = none

  -- The loop over the attempted candidates; `none` is out of fuel.
  unfoldable pub heal_all :
      CycleInput Cost → List Method → ℕ → List UpdateCandidate → Option (List (Attempted Cost))
  heal_all s available n [] = some []
  heal_all s available n (c ∷ cs) =
      attach c (heal_one s available n c) (heal_all s available (suc n) cs)

  unfoldable pub list_paused : UpdateCandidate × Pause → Attempted Cost
  unfolding method_or_first
  list_paused (cand, pause) = (
    cand,
    failed zero_cost (method_or_first (from_token pause.last_method) cand.methods) blocked
          (describe pause)
        ∷ [],
  )

  unfoldable pub check_of : CycleInput Cost → CheckResult
  unfolding available_methods
  check_of s =
      collect u s.config s.learned_skips
        (available_methods s.config (is_some s.native_check) s.machine) s.sources s.native_check
        none

  unfoldable pub selection_of : CycleInput Cost → Selected
  unfolding select pauses_of check_of
  selection_of s =
      select s.last_attempt (pauses_of s.records s.now) s.config.max_apps_per_run
        (check_of s).candidates

  unfoldable pub had_errors : CycleInput Cost → Bool
  unfolding check_of any_unrecorded selection_of
  had_errors s =
      (check_of s).had_errors
      || is_nil (available_methods s.config (is_some s.native_check) s.machine)
      || not (is_some s.records)
      || any_unrecorded s.is_recorded 0 (selection_of s).attempted

  unfoldable pub finish : CycleInput Cost → Selected → List (Attempted Cost) → CycleSummary Cost
  unfolding spend had_errors cycle_completed_cleanly
  finish s selection healed =
      let results = healed ++ map list_paused selection.paused in
      record {
        results = results;
        cost_usd = spend s.check_cost healed;
        completed_at = s.completed_at;
        clean_at =
            if cycle_completed_cleanly (had_errors s) selection.deferred
                (map (λ (r : Attempted Cost). r.1) results)
              && s.clean_run_saved
            then s.completed_at
            else pos 0;
        targeted = false;
        learned_guidance = none;
      }

  abbrev finish_all :
      CycleInput Cost → Selected → Option (List (Attempted Cost)) → Option (CycleSummary Cost)
  finish_all s selection none = none
  finish_all s selection (some healed) = some (finish s selection healed)

  unfoldable pub run_cycle : CycleInput Cost → Option (CycleSummary Cost)
  unfolding selection_of heal_all finish
  run_cycle s =
      let available = available_methods s.config (is_some s.native_check) s.machine in
      let selection = selection_of s in
      finish_all s selection (heal_all s available 0 selection.attempted)
