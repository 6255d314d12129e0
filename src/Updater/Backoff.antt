-- ===== src/Updater/Backoff.antt =====
-- eir-svc/src/updater/backoff.rs: pausing the applications whose updates keep failing. The map of
-- an application's runs, sorted by falling cycle, is built in that order.
pub mod Streak
pub mod Pauses
use eir.Prelude.{
  ℕ, zero, suc, ◌+◌, ◌*◌, Bool, ◌||◌, Option, none, some, List, [], ◌∷◌, if◌then◌else◌,
}
use eir.Prelude.Int.{ℤ, pos, ◌+ℤ◌, ltb_ℤ}
use eir.Text.{Text, text_eq}

abbrev pub day : ℕ
day = 86400

-- `cycle_id` and `at` are i64, `at` in Unix seconds.
pub record AttemptRecord : Type 0 where
  pub app_id : Text
  pub cycle_id : ℤ
  pub settled : Bool
  pub method : Text
  pub detail : Text
  pub at : ℤ

pub record Pause : Type 0 where
  pub failed_runs : ℕ
  pub until : ℤ
  pub last_method : Text
  pub last_detail : Text

-- One update run of an application: did it settle, and its last attempt.
pub record Run : Type 0 where
  pub cycle_id : ℤ
  pub settled : Bool
  pub last : AttemptRecord

unfoldable pub pause_days : ℕ → Option ℕ
pause_days zero = none
pause_days (suc zero) = none
pause_days (suc (suc zero)) = some 2
pause_days (suc (suc (suc zero))) = some 4
pause_days _ = some 7

unfoldable pub join_run : AttemptRecord → Run → Run
join_run record' run = record run {
  settled = run.settled || record'.settled;
  last = if ltb_ℤ record'.at run.last.at then run.last else record';
}

abbrev pub new_run : AttemptRecord → Run
new_run r = record { cycle_id = r.cycle_id; settled = r.settled; last = r }

-- The entry of the record's cycle is joined or made; cycles fall along the list.
unfoldable pub add_record : AttemptRecord → List Run → List Run
add_record r [] = new_run r ∷ []
add_record r (run ∷ runs) =
    let rest = add_record r runs in
    if ltb_ℤ run.cycle_id r.cycle_id
    then new_run r ∷ run ∷ runs
    else if ltb_ℤ r.cycle_id run.cycle_id
    then run ∷ rest
    else join_run r run ∷ runs

-- The application's records in insertion order.
unfoldable pub runs_of : Text → List AttemptRecord → List Run → List Run
runs_of app [] runs = runs
runs_of app (r ∷ records) runs =
    runs_of app records (if text_eq r.app_id app then add_record r runs else runs)

-- take_while(!settled).count()
unfoldable pub count_failed : List Run → ℕ
count_failed [] = 0
count_failed (run ∷ runs) = let rest = count_failed runs in if run.settled then 0 else suc rest

unfoldable pub pause_after : List Run → ℤ → Option Pause
pause_after [] now = none
pause_after (run ∷ runs) now = elim (pause_days (count_failed (run ∷ runs))) [
  | none ↦ none
  | some days ↦
      let until = run.last.at +ℤ pos (days * day) in
      if ltb_ℤ now until
      then some (record {
        failed_runs = count_failed (run ∷ runs);
        until = until;
        last_method = run.last.method;
        last_detail = run.last.detail;
      })
      else none
]

-- paused_apps(records, now).get(app)
unfoldable pub paused : List AttemptRecord → ℤ → Text → Option Pause
paused records now app = pause_after (runs_of app records []) now
