-- ===== src/Updater/Cycle/Outcome.antt =====
-- eir-svc/src/updater/orchestrator.rs, run_cycle: its end, its results and its clean time.
use eir.Prelude.{
  some_injective, ◌≡◌, ◌≢◌, refl, sym, subst, ◌↔◌, zero, ap, ◌∙◌, ℕ, suc, Bool, true, false, ◌&&◌,
  not, ◌==◌, Option, some, List, [], ◌∷◌, ◌++◌, map, all, any, arith, if◌then◌else◌, is_some,
}
use eir.Prelude.Int.{ℤ, pos}
use eir.Text.{Text, Unicode}
use eir.Updater.Backoff.{Pause}
use eir.Updater.Diagnose.{RawStep}
use eir.Updater.Domain.{Method, UpdateCandidate, AttemptOutcome, failed, same_category, as_str}
use eir.Learn.{is_method_deprioritised}
use eir.Updater.Check.{base_id}
use eir.Updater.Heal.Bounds.{heal-returns}
use eir.Updater.Selection.Fairness.{IsFair, select-IsFair}
use eir.Updater.Cycle.{
  check_of, Attempted, CycleSummary, CycleInput, heal_one, heal_all, list_paused, finish, run_cycle,
  selection_of, had_errors, cycle_completed_cleanly, app_completed_cleanly, is_category, last,
}
use eir.Updater.Available.{available_methods}
use eir.Updater.Selection.{pauses_of, Selected}

abbrev pub subjects : {Cost : Type 0} → List (Attempted Cost) → List UpdateCandidate
subjects rs = map (λ r. r.0) rs

abbrev pub outcomes_of : {Cost : Type 0} → List (Attempted Cost) → List (List (AttemptOutcome Cost))
outcomes_of rs = map (λ r. r.1) rs

subjects-append :
    {Cost : Type 0} (xs ys : List (Attempted Cost))
    → subjects (xs ++ ys) ≡ subjects xs ++ subjects ys
subjects-append [] ys = refl
subjects-append (x ∷ xs) ys = ap (λ t. x.0 ∷ t) (subjects-append xs ys)

all-append_right :
    {Cost : Type 0} (p : List (AttemptOutcome Cost) → Bool) (xs ys : List (Attempted Cost))
    → all p (outcomes_of (xs ++ ys)) ≡ true
    → all p (outcomes_of ys) ≡ true
unfolding all
all-append_right p [] ys h = h
all-append_right p (x ∷ xs) ys h = all-append_right p xs ys (ground arith)

true_ne_false : true ≢ false
true_ne_false e = cc

suc_ne_zero : (d : ℕ) → (suc d == 0) ≡ false
suc_ne_zero d = ground arith

no_zero : (d : ℕ) → suc d ≢ 0
no_zero d = omega arith

clean_iff :
    (had_errors : Bool) (deferred : ℕ) (clean saved : Bool) (t : ℤ)
    → t ≢ pos 0
    → ((if (not had_errors && deferred == 0 && clean) && saved then t else pos 0) ≢ pos 0)
      ↔ ((had_errors ≡ false) × (deferred ≡ 0) × (clean ≡ true) × (saved ≡ true))
clean_iff true d c saved t h = (λ ne. elim (ne refl) [ ], λ w. elim (true_ne_false w.0) [ ])
clean_iff false zero true true t h = (λ ne. (refl, refl, refl, refl), λ w. h)
clean_iff false zero true false t h =
    (λ ne. elim (ne refl) [ ], λ w. elim (true_ne_false (sym w.3)) [ ])
clean_iff false zero false saved t h =
    (λ ne. elim (ne refl) [ ], λ w. elim (true_ne_false (sym w.2)) [ ])
clean_iff false (suc d) c saved t h =
    (λ ne. elim (ne (rw (suc_ne_zero d) refl)) [ ], λ w. elim (no_zero d w.1) [ ])

module _ (u : Unicode) {Cost : Type 0} (zero_cost : Cost) (add : Cost → Cost → Cost)
    (read : Text → Option RawStep) (describe : Pause → Text) where
  pub heal_one-returns :
      (s : CycleInput Cost) (available : List Method) (n : ℕ) (c : UpdateCandidate)
      → (os : List (AttemptOutcome Cost)) × (heal_one u zero_cost add read describe s available n c
          ≡ some os)
  unfolding heal_one
  heal_one-returns s available n c =
      let r =
        heal-returns u zero_cost add (s.world n) read (is_some s.native_check)
          s.config.max_attempts_per_app
          (λ m. is_method_deprioritised s.learned (base_id c.id) (as_str m)) c.methods available in
      (r.0, r.1)

  abbrev AllHealed : Option (List (Attempted Cost)) → List UpdateCandidate → Type 0
  AllHealed o cs = (rs : List (Attempted Cost)) × (o ≡ some rs) × (subjects rs ≡ cs)

  heal_all-AllHealed :
      (s : CycleInput Cost) (available : List Method) (n : ℕ) (cs : List UpdateCandidate)
      → AllHealed (heal_all u zero_cost add read describe s available n cs) cs
  unfolding heal_all heal_one
  heal_all-AllHealed s available n [] = ([], refl, refl)
  heal_all-AllHealed s available n (c ∷ cs) =
      let (os, e) = heal_one-returns s available n c in
      let (rs, f, g) = heal_all-AllHealed s available (suc n) cs in
      ((c, os) ∷ rs, rw (e, f) refl, ap (λ t. c ∷ t) g)

  subjects-list_paused :
      (ps : List (UpdateCandidate × Pause))
      → subjects (map (list_paused u zero_cost add read describe) ps) ≡ map (λ p. p.0) ps
  unfolding list_paused
  subjects-list_paused [] = refl
  subjects-list_paused ((c, p) ∷ ps) = ap (λ t. c ∷ t) (subjects-list_paused ps)

  abbrev selection : CycleInput Cost → Selected
  selection s = selection_of u zero_cost add read describe s

  -- A cycle ends, whatever the sources, the adapters and the model do. It lists the applications it
  -- attempted and the paused ones, in this order. These and the ones left over, whose number is that
  -- of the deferred, are the candidates of the check, each as often as the check lists it; as many
  -- are attempted as the cap allows; the paused ones carry the pause in force for them, the others
  -- have none; and none left over was attempted earlier than one that is attempted now.
  pub run_cycle-IsFair :
      (s : CycleInput Cost)
      → (r : CycleSummary Cost) × (run_cycle u zero_cost add read describe s ≡ some r)
        × (subjects r.results ≡ (selection s).attempted ++ map (λ p. p.0) (selection s).paused)
        × IsFair
            (pauses_of s.records s.now)
            s.last_attempt
            s.config.max_apps_per_run
            (check_of u zero_cost add read describe s).candidates
            (selection s)
  unfolding run_cycle finish selection_of
  run_cycle-IsFair s =
      let sel = selection s in
      let (healed, e, f) =
        heal_all-AllHealed s (available_methods s.config (is_some s.native_check) s.machine) 0
          sel.attempted in
      (
        finish u zero_cost add read describe s sel healed,
        rw e refl,
        subjects-append healed _
            ∙ rw f (ap (λ t. sel.attempted ++ t) (subjects-list_paused sel.paused)),
        select-IsFair (pauses_of s.records s.now) s.last_attempt s.config.max_apps_per_run
            (check_of u zero_cost add read describe s).candidates,
      )

  no_clean_pause :
      (ps : List (UpdateCandidate × Pause))
      → all app_completed_cleanly (outcomes_of (map (list_paused u zero_cost add read describe) ps))
        ≡ true
      → ps ≡ []
  unfolding list_paused failed all any app_completed_cleanly is_category same_category last
  no_clean_pause [] h = refl
  no_clean_pause ((c, p) ∷ ps) h = cc

  abbrev pub WentWell : CycleInput Cost → CycleSummary Cost → Type 0
  WentWell s r =
      (had_errors u zero_cost add read describe s ≡ false)
      × ((selection_of u zero_cost add read describe s).deferred ≡ 0)
      × ((selection_of u zero_cost add read describe s).paused ≡ [])
      × (all app_completed_cleanly (outcomes_of r.results) ≡ true)

  finish-clean_at :
      (s : CycleInput Cost) (healed : List (Attempted Cost))
      → s.completed_at ≢ pos 0
      → let r =
          finish u zero_cost add read describe s
            (selection_of u zero_cost add read describe s)
            healed in
        (r.clean_at ≢ pos 0) ↔ (WentWell s r × (s.clean_run_saved ≡ true))
  unfolding finish cycle_completed_cleanly
  finish-clean_at s healed t =
      let sel = selection_of u zero_cost add read describe s in
      let paused = map (list_paused u zero_cost add read describe) sel.paused in
      let iff =
        clean_iff (had_errors u zero_cost add read describe s) sel.deferred
          (all app_completed_cleanly (outcomes_of (healed ++ paused))) s.clean_run_saved
          s.completed_at t in
      (
        λ ne.
            let (a, b, c, d) = iff.0 ne in
            let none_paused =
              no_clean_pause sel.paused (all-append_right app_completed_cleanly healed paused c) in
            ((a, b, none_paused, c), d),
        λ w. iff.1 (w.0.0, w.0.1, w.0.3, w.1),
      )

  -- The clean time of a cycle is set just when its own condition holds and the clean run was saved.
  pub run_cycle-clean_at_iff :
      (s : CycleInput Cost) (r : CycleSummary Cost)
      → s.completed_at ≢ pos 0
      → run_cycle u zero_cost add read describe s ≡ some r
      → (r.clean_at ≢ pos 0) ↔ (WentWell s r × (s.clean_run_saved ≡ true))
  unfolding run_cycle
  run_cycle-clean_at_iff s r t e =
      let sel = selection_of u zero_cost add read describe s in
      let (healed, h, _) =
        heal_all-AllHealed s (available_methods s.config (is_some s.native_check) s.machine) 0
          sel.attempted in
      let same : finish u zero_cost add read describe s sel healed ≡ r =
        some_injective (sym (rw h refl) ∙ e) in
      subst (λ r. (r.clean_at ≢ pos 0) ↔ (WentWell s r × (s.clean_run_saved ≡ true))) same
        (finish-clean_at s healed t)
