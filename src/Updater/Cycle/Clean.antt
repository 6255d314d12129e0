-- ===== src/Updater/Cycle/Clean.antt =====
-- eir-svc/src/updater/orchestrator.rs, cycle_completed_cleanly: a clean cycle, in terms of what it read
-- and met.
use mathlib.Core.List.{Memᴰ}
use eir.Prelude.{
  ◌≡◌, ◌≢◌, ◌↔◌, refl, sym, ap, subst, ◌∙◌, some_injective, ◌≤◌, true, false, Option, none, some,
  List, [], all, length, arith, is_none, is_some, is_nil,
}
use eir.Prelude.Int.{ℤ, pos}
use eir.Text.{Text, Unicode}
use eir.Updater.Available.{available_methods}
use eir.Updater.Backoff.{AttemptRecord, Pause, paused}
use eir.Updater.Check.{managed_of, managers, collect}
use eir.Updater.Cycle.{
  any_unrecorded, check_of, selection_of, had_errors, run_cycle, Attempted, CycleSummary,
  CycleInput,
}
use eir.Updater.Cycle.Errors.{
  NativeWentWell, with_native_iff, has_native, all_listed, listing_failed-all_listed, numbers,
  any_unrecorded-all,
}
use eir.Updater.Cycle.Finished.{false-true, none-some, Finished, all-Finished}
use eir.Updater.Cycle.Outcome.{run_cycle-clean_at_iff}
use eir.Updater.Diagnose.{RawStep}
use eir.Updater.Domain.{Method, UpdateCandidate}
use eir.Updater.Selection.{Selected, pauses_of}
use eir.Updater.Selection.Complete.{complete_iff, complete-attempted}
use eir.Updater.Selection.Fairness.{IsFair, select-IsFair, is_unpaused}

module _ {Cost : Type 0} where
  module _ (u : Unicode) (zero_cost : Cost) (add : Cost → Cost → Cost)
      (read : Text → Option RawStep) (describe : Pause → Text) where
    abbrev available : CycleInput Cost → List Method
    available s = available_methods s.config (is_some s.native_check) s.machine

    abbrev candidates : CycleInput Cost → List UpdateCandidate
    candidates s = (check_of u zero_cost add read describe s).candidates

    check_of_iff :
        (s : CycleInput Cost)
        → ((check_of u zero_cost add read describe s).had_errors ≡ false) ↔ (
            (all_listed (available s) s.sources ≡ true)
            × NativeWentWell s.config.native_enabled s.native_check
                (managed_of u (available s) s.sources managers))
    unfolding check_of collect
    check_of_iff s =
        let listed = listing_failed-all_listed (available s) s.sources in
        let check =
          with_native_iff _ _ _ (has_native s.config (is_some s.native_check) s.machine) in
        (λ h. let w = check.0 h in (ground arith, w.1), λ w. check.1 (ground arith, w.1))

    had_errors_iff :
        (s : CycleInput Cost)
        → (had_errors u zero_cost add read describe s ≡ false) ↔ (
            ((check_of u zero_cost add read describe s).had_errors ≡ false)
            × (is_nil (available s) ≡ false)
            × (is_some s.records ≡ true)
            × (any_unrecorded s.is_recorded 0
                  (selection_of u zero_cost add read describe s).attempted
                ≡ false))
    unfolding had_errors
    had_errors_iff s =
        (λ h. (ground arith, ground arith, ground arith, ground arith), λ w. ground arith)

    records_iff :
        (records : Option (List AttemptRecord)) (now : ℤ) (cs : List UpdateCandidate)
        → ((is_some records ≡ true) × (all (is_unpaused (pauses_of records now)) cs ≡ true)) ↔ (
            (r : List AttemptRecord) × (records ≡ some r)
            × (all (λ c. is_none (paused r now c.id)) cs ≡ true))
    unfolding pauses_of
    records_iff none now cs = (λ h. absurd (false-true h.0), λ (r, e, h). absurd (none-some e))
    records_iff (some r) now cs = (
      λ h. (r, refl, h.1),
      λ (x, e, h). (
        refl,
        subst (λ r. all (λ c. is_none (paused r now c.id)) cs ≡ true) (sym (some_injective e)) h,
      ),
    )

    -- Every manager in use was listed, the model's check went well, some method is usable, the history
    -- was read, it pauses no candidate, the cap leaves none over, and the record of each was written.
    abbrev pub IsUndisturbed : CycleInput Cost → Type 0
    IsUndisturbed s =
        (all_listed (available s) s.sources ≡ true)
        × NativeWentWell s.config.native_enabled s.native_check
            (managed_of u (available s) s.sources managers)
        × (is_nil (available s) ≡ false)
        × ((records : List AttemptRecord) × (s.records ≡ some records)
            × (all (λ c. is_none (paused records s.now c.id)) (candidates s) ≡ true))
        × (length (candidates s) ≤ s.config.max_apps_per_run)
        × (all s.is_recorded (numbers 0 (length (candidates s))) ≡ true)

    -- Besides, each application of the summary is finished.
    abbrev pub WentWell : CycleInput Cost → CycleSummary Cost → Type 0
    WentWell s r = IsUndisturbed s × ((x : Attempted Cost) → Memᴰ x r.results → Finished x.1)

    module _ (s : CycleInput Cost) where
      abbrev selected : Selected
      selected = selection_of u zero_cost add read describe s

      selected-IsFair :
          IsFair
            (pauses_of s.records s.now)
            s.last_attempt
            s.config.max_apps_per_run
            (candidates s)
            selected
      unfolding selection_of
      selected-IsFair =
          select-IsFair (pauses_of s.records s.now) s.last_attempt s.config.max_apps_per_run
            (candidates s)

      recorded_iff :
          selected.deferred ≡ 0
          → selected.paused ≡ []
          → (any_unrecorded s.is_recorded 0 selected.attempted ≡ false)
            ↔ (all s.is_recorded (numbers 0 (length (candidates s))) ≡ true)
      recorded_iff b c =
          let sizes =
            complete-attempted (pauses_of s.records s.now) s.last_attempt s.config.max_apps_per_run
              (candidates s) selected selected-IsFair b c in
          let tests = any_unrecorded-all s.is_recorded 0 selected.attempted in
          let moved = ap (λ n. all s.is_recorded (numbers 0 n)) sizes in
          (λ h. sym moved ∙ ground arith, λ h. ground (arith, moved ∙ h))

      had_errors-IsUndisturbed :
          ((had_errors u zero_cost add read describe s ≡ false)
            × (selected.deferred ≡ 0)
            × (selected.paused ≡ []))
          ↔ IsUndisturbed s
      had_errors-IsUndisturbed =
          let complete =
            complete_iff (pauses_of s.records s.now) s.last_attempt s.config.max_apps_per_run
              (candidates s) selected selected-IsFair in
          (
            λ (a, b, c).
                let (checked, usable, known, recorded) = (had_errors_iff s).0 a in
                let (listed, native) = (check_of_iff s).0 checked in
                let (unpaused, room) = complete.0 (b, c) in
                let history = (records_iff s.records s.now (candidates s)).0 (known, unpaused) in
                (listed, native, usable, history, room, (recorded_iff b c).0 recorded),
            λ (listed, native, usable, history, room, recorded).
                let (known, unpaused) = (records_iff s.records s.now (candidates s)).1 history in
                let (b, c) = complete.1 (unpaused, room) in
                let checked = (check_of_iff s).1 (listed, native) in
                (
                  (had_errors_iff s).1 (checked, usable, known, (recorded_iff b c).1 recorded),
                  b,
                  c,
                ),
          )

    -- A finished cycle counts as clean, that is, it carries a clean time, just if the clean run was
    -- saved and everything went well: each manager in use was listed; the check by the model, where it
    -- is switched on, ran without failing; some method is usable; the history was read and pauses none
    -- of the candidates; they are no more than the cap; the record of each was written; and each
    -- application listed had an attempt that succeeded or a last one that found it current.
    pub run_cycle-clean_iff :
        (s : CycleInput Cost) (r : CycleSummary Cost)
        → s.completed_at ≢ pos 0
        → run_cycle u zero_cost add read describe s ≡ some r
        → (r.clean_at ≢ pos 0) ↔ (WentWell s r × (s.clean_run_saved ≡ true))
    run_cycle-clean_iff s r t e =
        let clean = run_cycle-clean_at_iff u zero_cost add read describe s r t e in
        (
          λ ne.
              let ((a, b, c, d), saved) = clean.0 ne in
              (((had_errors-IsUndisturbed s).0 (a, b, c), (all-Finished r.results).0 d), saved),
          λ ((h, finished), saved).
              let (a, b, c) = (had_errors-IsUndisturbed s).1 h in
              clean.1 ((a, b, c, (all-Finished r.results).1 finished), saved),
        )
