-- ===== src/Updater/Retried.antt =====
-- eir-svc/src/updater/orchestrator.rs: what a retry makes of its attempts: the note that a success
-- teaches, and the explanation of a failure. The prompts of the two calls of the model are not
-- modelled, the replies are given.
use eir.Prelude.{
  Bool, true, false, ◌&&◌, not, Option, none, some, List, [], ◌∷◌, ◌++◌, all, filter, take,
  if◌then◌else◌, is_some,
}
use eir.Text.{Text, codes, eq_ignore_ascii_case, trim, trim_start_matches, trim_end_matches}
use eir.Updater.Config.{UpdaterConfig}
use eir.Updater.Cycle.{CycleInput, last, is_category}
use eir.Updater.Domain.{AttemptOutcome, UpdateCandidate, already_current}
use eir.Updater.Guidance.{one_line, concise_guidance, is_quote}
use eir.Updater.Rows.{UpdaterAppRow}

-- complete_text: the reply with its cost, or none where the call failed.
abbrev pub ModelReply : Type 0 → Type 0
ModelReply Cost = Option (Text × Option Cost)

-- What a retry meets besides its surroundings: the notes of its check, the version that verify_app
-- observes for a name and an expected version, and the replies of the model.
pub record RetryInput (Cost : Type 0) : Type 0 where
  pub prior : UpdaterAppRow
  pub surroundings : CycleInput Cost
  pub check_notes : List Text
  pub observed : Text → Text → Text
  pub refined : ModelReply Cost
  pub explained : ModelReply Cost

-- The candidate of a retry, its attempts, their learned note and what the model cost besides.
pub record Retried (Cost : Type 0) : Type 0 where
  pub candidate : UpdateCandidate
  pub outcomes : List (AttemptOutcome Cost)
  pub learned : Option (Text × Text)
  pub cost : Cost

unfoldable pub without_ignored : Text → UpdaterConfig → UpdaterConfig
unfolding filter eq_ignore_ascii_case
without_ignored app c = record c {
  ignored = filter (λ ig. not (eq_ignore_ascii_case ig app)) c.ignored;
}

module _ {Cost : Type 0} where
  unfoldable pub guided_failure_needs_explanation :
      UpdateCandidate → List (AttemptOutcome Cost) → Bool
  unfolding all last is_category
  guided_failure_needs_explanation cand outcomes =
      is_some cand.guidance
      && all (λ o. not o.success) outcomes
      && not (eir.Updater.Cycle.is_some_and (is_category already_current) (last outcomes))

  abbrev with_detail : Text → AttemptOutcome Cost → AttemptOutcome Cost
  with_detail prefix o = record o { detail = prefix ++ o.detail }

  -- The detail of the first success says that the guidance helped.
  unfoldable pub mark_success : List (AttemptOutcome Cost) → List (AttemptOutcome Cost)
  mark_success [] = []
  mark_success (o ∷ os) =
      if o.success
      then with_detail (codes "Updated successfully using guidance. ") o ∷ os
      else o ∷ mark_success os

  unfoldable pub explain_last : Text → List (AttemptOutcome Cost) → List (AttemptOutcome Cost)
  explain_last explanation [] = []
  explain_last explanation (o ∷ []) =
      record o {
        detail = codes "Update still failed after applying guidance: " ++ (o.detail ++ explanation);
      }
      ∷ []
  explain_last explanation (o ∷ p ∷ os) = o ∷ explain_last explanation (p ∷ os)

  abbrev pub observe : Text → AttemptOutcome Cost → AttemptOutcome Cost
  observe [] o = o
  observe version o = record o { installed_version = some version }

abbrev cost_or : {Cost : Type 0} → Cost → Option Cost → Cost
cost_or zero_cost none = zero_cost
cost_or zero_cost (some cost) = cost

module _ {Cost : Type 0} (zero_cost : Cost) where
  unfoldable pub refine_guidance : Bool → ModelReply Cost → Text → Text × Cost
  unfolding one_line concise_guidance
  refine_guidance true (some (text, cost)) guidance =
      (concise_guidance guidance text, cost_or zero_cost cost)
  refine_guidance true none guidance = (one_line guidance, zero_cost)
  refine_guidance false reply guidance = (one_line guidance, zero_cost)

  -- The text after the failure's detail, empty where there is no explanation.
  unfoldable pub explanation_text : Text → Text
  explanation_text [] = []
  explanation_text text = codes " AI explanation: " ++ text

  unfoldable pub explain_retry_failure : Bool → ModelReply Cost → Text × Cost
  unfolding one_line trim trim_end_matches trim_start_matches explanation_text
  explain_retry_failure true (some (text, cost)) = (
    explanation_text
        (take 500 (one_line (trim_end_matches is_quote (trim_start_matches is_quote (trim text))))),
    cost_or zero_cost cost,
  )
  explain_retry_failure true none = ([], zero_cost)
  explain_retry_failure false reply = ([], zero_cost)
