-- ===== src/Updater/Retry/Target.antt =====
-- A retry is about its one application and leaves the schedule alone.
use eir.Prelude.{
  ◌≡◌, refl, Bool, true, Option, none, some, List, [], ◌∷◌, all, all-filter, length, arith,
}
use eir.Prelude.Int.{pos}
use eir.Text.{Text, Unicode, eq_ignore_ascii_case, to_ascii_lowercase}
use eir.Text.Laws.{text_eq_refl}
use eir.Updater.Backoff.{Pause}
use eir.Updater.Check.{collect, retain_target}
use eir.Updater.Cycle.{CycleSummary}
use eir.Updater.Cycle.Outcome.{heal_one-returns}
use eir.Updater.Diagnose.{RawStep}
use eir.Updater.Domain.{UpdateCandidate, AttemptOutcome}
use eir.Updater.Retried.{RetryInput, Retried}
use eir.Updater.Retry.{
  retry_check, retry_first, retry_surroundings, retry_methods, found, guided, missing, summarize,
  summarize_all, run_retry,
}

abbrev pub IsTargeted : {Cost : Type 0} → Text → CycleSummary Cost → Type 0
IsTargeted app r =
    (length r.results ≡ 1)
    × (all (λ x. eq_ignore_ascii_case x.0.id app) r.results ≡ true)
    × (r.targeted ≡ true)
    × (r.clean_at ≡ pos 0)

eq_ignore_ascii_case_refl : (s : Text) → eq_ignore_ascii_case s s ≡ true
unfolding eq_ignore_ascii_case
eq_ignore_ascii_case_refl s = text_eq_refl (to_ascii_lowercase s)

module _ (u : Unicode) {Cost : Type 0} (zero_cost : Cost) (add : Cost → Cost → Cost)
    (read : Text → Option RawStep) (describe : Pause → Text) (i : RetryInput Cost) where
  retry_check-all_target :
      all
        (λ (c : UpdateCandidate). eq_ignore_ascii_case c.id i.prior.id)
        (retry_check u zero_cost add read describe i).candidates
      ≡ true
  unfolding retry_check collect retain_target
  retry_check-all_target = all-filter _ _

  summarize-IsTargeted :
      (r : Retried Cost)
      → eq_ignore_ascii_case r.candidate.id i.prior.id ≡ true
      → IsTargeted i.prior.id (summarize u zero_cost add read describe i r)
  unfolding summarize all
  summarize-IsTargeted r h = (refl, rw h refl, refl, refl)

  pub found-candidate :
      (c : UpdateCandidate) (os : List (AttemptOutcome Cost))
      → (found u zero_cost add read describe i c os).candidate ≡ c
  unfolding found
  found-candidate c os = kept c.guidance _
    where
      kept :
          (g : Option Text) (b : Bool)
          → (guided u zero_cost add read describe i g b c os).candidate ≡ c
      kept none b = refl
      kept (some g) true = refl
      kept (some g) Bool.false = refl

  abbrev Ends : Option (CycleSummary Cost) → Type 0
  Ends o = (r : CycleSummary Cost) × (o ≡ some r) × IsTargeted i.prior.id r

  first-Ends :
      (cs : List UpdateCandidate)
      → all (λ (c : UpdateCandidate). eq_ignore_ascii_case c.id i.prior.id) cs ≡ true
      → Ends (
          summarize_all u zero_cost add read describe i
            (retry_first u zero_cost add read describe i cs))
  unfolding retry_first missing all
  first-Ends [] h = (
    _,
    refl,
    summarize-IsTargeted (missing u zero_cost add read describe i)
        (eq_ignore_ascii_case_refl i.prior.id),
  )
  first-Ends (c ∷ cs) h =
      let (os, e) =
        heal_one-returns u zero_cost add read describe
          (retry_surroundings u zero_cost add read describe i)
          (retry_methods u zero_cost add read describe i) 0 c in
      let r = found u zero_cost add read describe i c os in
      (
        summarize u zero_cost add read describe i r,
        rw e refl,
        summarize-IsTargeted r (rw (found-candidate c os) (ground arith)),
      )

  pub run_retry-IsTargeted :
      (r : CycleSummary Cost) × (run_retry u zero_cost add read describe i ≡ some r)
      × IsTargeted i.prior.id r
  unfolding run_retry
  run_retry-IsTargeted = first-Ends _ retry_check-all_target
