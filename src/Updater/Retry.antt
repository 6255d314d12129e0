-- ===== src/Updater/Retry.antt =====
-- eir-svc/src/updater/orchestrator.rs: the retry of one application at the user's request.
pub mod Target
pub mod Learned
use eir.Prelude.{
  ◌+◌, Bool, true, false, ◌||◌, not, Option, none, some, List, [], ◌∷◌, ◌++◌, any, take, is_some,
  is_nil,
}
use eir.Prelude.Int.{pos}
use eir.Text.{Text, Unicode, codes, join}
use eir.Updater.Backoff.{Pause}
use eir.Updater.Check.{CheckResult, collect}
use eir.Updater.Config.{guidance_for}
use eir.Updater.Cycle.{CycleInput, CycleSummary, heal_one, total_cost, method_or_first}
use eir.Updater.Available.{available_methods}
use eir.Updater.Diagnose.{RawStep}
use eir.Updater.Domain.{
  Method, from_token, AttemptOutcome, failed, UpdateCandidate, unknown, already_current,
}
use eir.Updater.Retried.{
  RetryInput, Retried, without_ignored, guided_failure_needs_explanation, mark_success,
  explain_last, observe, refine_guidance, explain_retry_failure,
}

module _ (u : Unicode) {Cost : Type 0} (zero_cost : Cost) (add : Cost → Cost → Cost)
    (read : Text → Option RawStep) (describe : Pause → Text) (i : RetryInput Cost) where
  abbrev pub retry_surroundings : CycleInput Cost
  retry_surroundings = record i.surroundings {
    config = without_ignored i.prior.id i.surroundings.config;
  }

  abbrev pub ai : Bool
  ai = is_some i.surroundings.native_check

  abbrev pub retry_methods : List Method
  retry_methods = available_methods retry_surroundings.config ai i.surroundings.machine

  -- The check of the one application: no learned skips, and its id as the target.
  unfoldable pub retry_check : CheckResult
  unfolding without_ignored available_methods
  retry_check =
      collect u retry_surroundings.config [] retry_methods i.surroundings.sources
        i.surroundings.native_check (some i.prior.id)

  unfoldable pub check_failed : Bool
  unfolding retry_check
  check_failed = retry_check.had_errors || is_nil retry_methods

  abbrev retried : UpdateCandidate → List (AttemptOutcome Cost) → Retried Cost
  retried cand outcomes = record {
    candidate = cand;
    outcomes = outcomes;
    learned = none;
    cost = i.surroundings.check_cost;
  }

  -- The note that a success teaches, with its cost.
  abbrev learn_note : UpdateCandidate → List (AttemptOutcome Cost) → Text × Cost → Retried Cost
  learn_note cand outcomes (note, cost) = record {
    candidate = cand;
    outcomes = mark_success outcomes;
    learned = some (cand.id, note);
    cost = add i.surroundings.check_cost cost;
  }

  abbrev pub guided :
      Option Text → Bool → UpdateCandidate → List (AttemptOutcome Cost) → Retried Cost
  guided (some guidance) true cand outcomes =
      learn_note cand outcomes (refine_guidance zero_cost ai i.refined guidance)
  guided _ _ cand outcomes = retried cand outcomes

  -- The attempts at the candidate that was found.
  unfoldable pub found : UpdateCandidate → List (AttemptOutcome Cost) → Retried Cost
  unfolding any mark_success refine_guidance
  found cand outcomes = guided cand.guidance (any (λ o. o.success) outcomes) cand outcomes

  abbrev reason_or : Text → Text
  reason_or [] = codes "the update sources returned no usable result"
  reason_or reason = reason

  abbrev unconfirmed : Text
  unconfirmed =
      codes "Re-check could not confirm an update: "
      ++ reason_or (join (codes "; ") (take 3 i.check_notes))

  abbrev nothing_newer : Option Text → Text
  nothing_newer (some _) =
      codes "Re-check completed with the saved guidance; no newer update is currently available."
  nothing_newer none = codes "Re-check completed; no newer update is currently available."

  abbrev missing_outcome : Bool → Method → Option Text → AttemptOutcome Cost
  missing_outcome true method guidance = failed zero_cost method unknown unconfirmed
  missing_outcome false method guidance =
      observe (i.observed i.prior.name i.prior.to)
        (failed zero_cost method already_current (nothing_newer guidance))

  -- No candidate was found: the one listed is made from the row.
  unfoldable pub missing : Retried Cost
  unfolding method_or_first guidance_for check_failed join codes failed
  missing =
      let method = method_or_first (from_token i.prior.method) retry_methods in
      let guidance = guidance_for u i.prior.id retry_surroundings.config in
      retried
        (record {
          id = i.prior.id;
          name = i.prior.name;
          current = i.prior.from;
          available = i.prior.to;
          package_id = none;
          guidance = guidance;
          methods = method ∷ [];
        })
        (missing_outcome check_failed method guidance ∷ [])

  abbrev attempt_found :
      UpdateCandidate → Option (List (AttemptOutcome Cost)) → Option (Retried Cost)
  attempt_found cand none = none
  attempt_found cand (some outcomes) = some (found cand outcomes)

  unfoldable pub retry_first : List UpdateCandidate → Option (Retried Cost)
  unfolding found missing heal_one
  retry_first [] = some missing
  retry_first (cand ∷ _) =
      attempt_found cand
        (heal_one u zero_cost add read describe retry_surroundings retry_methods 0 cand)

  abbrev pub explained_outcomes :
      Bool → Retried Cost → Text × Cost → List (AttemptOutcome Cost) × Cost
  explained_outcomes true r (explanation, cost) =
      (explain_last explanation r.outcomes, add r.cost cost)
  explained_outcomes false r _ = (r.outcomes, r.cost)

  abbrev targeted_summary :
      UpdateCandidate → Option (Text × Text) → List (AttemptOutcome Cost) × Cost → CycleSummary Cost
  targeted_summary cand learned (outcomes, cost) = record {
    results = (cand, outcomes) ∷ [];
    cost_usd = add cost (total_cost u zero_cost add read describe outcomes);
    completed_at = i.surroundings.completed_at;
    clean_at = pos 0;
    targeted = true;
    learned_guidance = learned;
  }

  unfoldable pub summarize : Retried Cost → CycleSummary Cost
  unfolding guided_failure_needs_explanation explain_retry_failure explain_last total_cost
  summarize r = targeted_summary r.candidate r.learned (
      explained_outcomes (guided_failure_needs_explanation r.candidate r.outcomes) r
        (explain_retry_failure zero_cost ai i.explained))

  abbrev pub summarize_all : Option (Retried Cost) → Option (CycleSummary Cost)
  summarize_all none = none
  summarize_all (some r) = some (summarize r)

  unfoldable pub run_retry : Option (CycleSummary Cost)
  unfolding retry_first summarize retry_check
  run_retry = summarize_all (retry_first retry_check.candidates)
