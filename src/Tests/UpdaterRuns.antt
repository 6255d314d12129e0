-- ===== src/Tests/UpdaterRuns.antt =====
-- The updater at concrete failures.
use eir.Prelude.{
  ◌≡◌, refl, ℕ, ◌≤◌, Bool, true, false, Option, none, some, List, [], ◌∷◌, length, all,
}
use eir.Prelude.Int.{pos}
use eir.Text.{
  Text, codes, to_ascii_lowercase, to_ascii_lower, text_eq, trim, trim_start, trim_end_matches,
  trim_start_matches, is_whitespace,
}
use eir.Updater.Domain.{
  Method, winget, choco, from_token, has_method, first_untried, installer_failed, is_terminal,
  same_category, AttemptOutcome, failed, StepContext, deterministic_next, validate_next_step,
  switch, switch_to, stop,
}
use eir.Updater.Domain.Laws.{IsAllowed, validate_next_step-IsAllowed}
use eir.Updater.Domain.Methods.{all_but_last}
use eir.Updater.Diagnose.{RawStep, to_proposed, unknown_method, to_proposed-unknown_method}
use eir.Updater.Heal.{
  World, heal, heal_loop, heal_order, dispatch, attempt, decide_next, next_method, stops_healing,
}
use eir.Updater.Heal.Bounds.{heal-returns}
use eir.Updater.Heal.Trace.{heal-Trace, uses, continues}
use eir.Updater.Version.{Semver, equal}
use eir.Tests.Fixtures.{ascii}
use eir.Prelude.{◌*◌, arith, ◌≤◌, Memᴰ}
use eir.Prelude.Int.{◌≤ℤ◌}
use eir.Updater.Domain.{lock_held}
use eir.Updater.Backoff.{AttemptRecord, Pause, paused}
use eir.Updater.Backoff.Pauses.{paused-IsJust, IsJust}

-- Every method fails to install; costs are counted in whole units.
abbrev failing : World ℕ
failing = record {
  kill = λ n name. none;
  attempt = λ n m forcing. failed 0 m installer_failed [];
  complete = λ n. none;
}

abbrev add : ℕ → ℕ → ℕ
add a b = a

abbrev unread : Text → Option RawStep
unread t = none

abbrev never_last : Method → Bool
never_last m = false

abbrev two : List Method
two = winget ∷ choco ∷ []

heal-returns_example :
    (r : List (AttemptOutcome ℕ)) × (heal ascii 0 add failing unread false 4 never_last two two
      ≡ some r)
    × (length r ≤ 4)
heal-returns_example = heal-returns ascii 0 add failing unread false 4 never_last two two

abbrev both_failed : List (AttemptOutcome ℕ)
both_failed = failed 0 winget installer_failed [] ∷ failed 0 choco installer_failed [] ∷ []

heal_ok : heal ascii 0 add failing unread false 4 never_last two two ≡ some both_failed
unfolding heal heal_loop heal_order dispatch attempt decide_next next_method stops_healing
    first_untried has_method failed
heal_ok = refl

heal-Trace_example :
    (all (uses two) both_failed ≡ true)
    × (all (uses two) both_failed ≡ true)
    × (all_but_last continues both_failed ≡ true)
unfolding failed
heal-Trace_example =
    heal-Trace ascii 0 add failing unread false 4 never_last two two both_failed (λ n m f. refl)
      heal_ok

abbrev context : StepContext
context = record {
  failed = installer_failed;
  tried = winget ∷ [];
  available = two;
  error_text = [];
}

validate_next_step-IsAllowed_example :
    IsAllowed ascii context (validate_next_step ascii (switch choco) context)
validate_next_step-IsAllowed_example = validate_next_step-IsAllowed ascii context (switch choco)

abbrev misspelt : RawStep
misspelt = record {
  action = codes "switch";
  method = codes "chocolaty";
  remedy = none;
  reason = [];
}

to_proposed-unknown_method_example :
    (validate_next_step ascii (to_proposed misspelt) context ≡ stop unknown_method)
    × (deterministic_next context ≡ switch_to choco)
unfolding codes trim trim_start trim_end_matches trim_start_matches is_whitespace to_ascii_lowercase
    to_ascii_lower from_token text_eq is_terminal same_category first_untried has_method
to_proposed-unknown_method_example =
    to_proposed-unknown_method ascii misspelt context choco refl refl refl refl refl refl

-- No version is semver.
abbrev no_semver : Semver
no_semver = record { Version = ⊥; parse = λ t. none; cmp = λ x y. equal }

abbrev locked : StepContext
locked = record {
  failed = lock_held;
  tried = winget ∷ [];
  available = two;
  error_text = codes "file is locked by notepad.exe";
}

abbrev attempt_in : ℕ → Bool → AttemptRecord
attempt_in cycle settled = record {
  app_id = codes "app";
  cycle_id = pos cycle;
  settled = settled;
  method = codes "winget";
  detail = codes "no silent installer";
  at = pos (cycle * 100);
}

abbrev two_failures : List AttemptRecord
two_failures = attempt_in 1 false ∷ attempt_in 2 false ∷ []

no_later : (x : AttemptRecord) → Memᴰ x two_failures → x.cycle_id ≤ℤ pos 3
no_later x (Memᴰ.head e) = rw e (omega arith)
no_later x (Memᴰ.tail (Memᴰ.head e)) = rw e (omega arith)
no_later x (Memᴰ.tail (Memᴰ.tail m)) = elim m [ ]

abbrev pause : Pause
pause = record {
  failed_runs = 2;
  until = pos 173000;
  last_method = codes "winget";
  last_detail = codes "no silent installer";
}

paused_ok : paused two_failures (pos 400) (codes "app") ≡ some pause
unfolding paused eir.Updater.Backoff.pause_after eir.Updater.Backoff.runs_of text_eq codes
    eir.Updater.Backoff.add_record eir.Updater.Backoff.pause_days eir.Updater.Backoff.count_failed
    eir.Prelude.Int.◌+ℤ◌
paused_ok = refl

paused-IsJust_example : IsJust two_failures (pos 400) (codes "app") pause
paused-IsJust_example = paused-IsJust two_failures (pos 400) (codes "app") pause paused_ok
