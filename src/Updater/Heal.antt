-- ===== src/Updater/Heal.antt =====
-- eir-svc/src/updater/orchestrator.rs: the attempts at one candidate, until one succeeds, a failure
-- stops them, the methods are exhausted or the cap is reached.
pub mod Trace
pub mod Bounds
use eir.Prelude.{
  ℕ, zero, suc, ◌+◌, Bool, true, false, ◌&&◌, ◌||◌, not, Option, none, some, List, [], ◌∷◌, ◌++◌,
  filter, length, leb, if◌then◌else◌, all,
}
use eir.Text.{Text, Unicode, codes}
use eir.Updater.Domain.{
  Method, winget, choco, native, has_method, supports_force, ErrorCategory, not_found, lock_held,
  is_terminal, same_category, already_current, needs_reboot, AttemptOutcome, failed, Remedy, force,
  kill_process, clear_manager_lock, retry_after_reboot, NextStep, switch_to, retry_with, stop,
  first_untried,
}
use eir.Updater.Diagnose.{RawStep, diagnose}

-- What the engine meets at its n-th attempt: the process killer (an error text, or none when the
-- process was stopped), the method's adapter, run with or without force, and the AI client.
pub record World (Cost : Type 0) : Type 0 where
  pub kill : ℕ → Text → Option Text
  pub attempt : ℕ → Method → Bool → AttemptOutcome Cost
  pub complete : ℕ → Option (Text × Option Cost)

abbrev is_force : Option Remedy → Bool
is_force (some force) = true
is_force _ = false

abbrev is_clear_lock : Option Remedy → Bool
is_clear_lock (some clear_manager_lock) = true
is_clear_lock _ = false

unfoldable pub stops_healing : Option ErrorCategory → Bool
unfolding is_terminal same_category
stops_healing none = false
stops_healing (some c) =
    is_terminal c || same_category c already_current || same_category c needs_reboot

unfoldable pub sort_by_flag : (Method → Bool) → List Method → List Method
unfolding filter
sort_by_flag last ms = filter (λ m. not (last m)) ms ++ filter last ms

abbrev forced : Method → Option Remedy → Bool
forced method remedy = is_force remedy || (is_clear_lock remedy && supports_force method)

unfoldable pub next_method :
    {Cost : Type 0} → List Method → List Method → AttemptOutcome Cost → Option Method
next_method order tried last =
    if last.success
    then none
    else if stops_healing last.category
    then none
    else first_untried order tried

abbrev pub resume : NextStep → Option (Method × Option Remedy)
resume (switch_to m) = some (m, none)
resume (retry_with _ retry_after_reboot) = none
resume (retry_with m r) = some (m, some r)
resume (stop _) = none

abbrev pub first_step : List Method → Option (Method × Option Remedy)
first_step [] = none
first_step (m ∷ _) = some (m, none)

-- `last` tells the methods learned to keep failing for the app; they go to the back.
unfoldable pub heal_order : (Method → Bool) → List Method → List Method → List Method
unfolding filter sort_by_flag
heal_order last methods available = sort_by_flag last (filter (λ m. has_method available m) methods)

abbrev pub attempt_cap : ℕ → ℕ
attempt_cap zero = 1
attempt_cap (suc n) = suc n

module _ (u : Unicode) {Cost : Type 0} (zero_cost : Cost) (add : Cost → Cost → Cost)
    (w : World Cost) (read : Text → Option RawStep) (ai : Bool) where
  -- method.run: only winget and choco take `force`; native needs the AI client.
  unfoldable pub attempt : ℕ → Method → Bool → AttemptOutcome Cost
  attempt n winget forcing = w.attempt n winget forcing
  attempt n choco forcing = w.attempt n choco forcing
  attempt n native forcing =
      if ai
      then w.attempt n native false
      else failed zero_cost native not_found (codes "no AI provider configured for native installs")
  attempt n m forcing = w.attempt n m false

  -- `refused` is the text "Lock-holder remedy was refused or failed: …"
  unfoldable pub dispatch : ℕ → Method → Option Remedy → AttemptOutcome Cost
  dispatch n method (some (kill_process name)) = elim (w.kill n name) [
    | some refused ↦ failed zero_cost method lock_held refused
    | none ↦ attempt n method false
  ]
  dispatch n method remedy = attempt n method (forced method remedy)

  unfoldable pub decide_next : ℕ → AttemptOutcome Cost → List Method → List Method → NextStep × Cost
  decide_next n last tried order =
      if ai
      then diagnose u read zero_cost (w.complete n) last tried order
      else elim (next_method order tried last) [
        | some m ↦ (switch_to m, zero_cost)
        | none ↦ (stop (codes "all available methods tried"), zero_cost)
      ]

  abbrev pub charged : AttemptOutcome Cost → Cost → AttemptOutcome Cost
  charged outcome cost = record outcome { cost_usd = add outcome.cost_usd cost }

  -- The `while` loop; `none` is out of fuel.
  unfoldable pub heal_loop :
      (fuel : ℕ) (max : ℕ) (order : List Method) (attempts : List (AttemptOutcome Cost))
      (tried : List Method)
      → Option (Method × Option Remedy)
      → Option (List (AttemptOutcome Cost))
  heal_loop fuel max order attempts tried none = some attempts
  heal_loop zero max order attempts tried (some (method, remedy)) = none
  heal_loop (suc fuel) max order attempts tried (some (method, remedy)) =
      if leb max (length attempts)
      then some attempts
      else let n = length attempts in
        let outcome = dispatch n method remedy in
        let tried = tried ++ (method ∷ []) in
        if outcome.success || stops_healing outcome.category || leb max (suc n)
        then some (attempts ++ (outcome ∷ []))
        else let (next, cost) = decide_next n outcome tried order in
          heal_loop fuel max order (attempts ++ (charged outcome cost ∷ [])) tried (resume next)

  unfoldable pub heal :
      (max_attempts : ℕ)
      → (Method → Bool)
      → List Method
      → List Method
      → Option (List (AttemptOutcome Cost))
  heal max_attempts last methods available =
      let order = heal_order last methods available in
      let max = attempt_cap max_attempts in heal_loop max max order [] [] (first_step order)
