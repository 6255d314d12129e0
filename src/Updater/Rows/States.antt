-- ===== src/Updater/Rows/States.antt =====
-- A row's state agrees with the verdict on the application's attempts.
use eir.Prelude.{
  some_injective, ◌≡◌, ◌≢◌, refl, Bool, true, false, ◌||◌, Option, some, List, [], ◌∷◌, map, all,
  any, find, find-some, find-none_iff, any_of_mem, ◌∙◌, ◌&&◌, not, arith, Bool-cases, Option-cases,
  sym, inl, inr, is_nil,
}
use eir.Prelude.Int.{ℤ, pos, eq_of_parts}
use eir.Updater.Backoff.{Pause}
use eir.Updater.Diagnose.{RawStep}
use eir.Text.{Unicode, Text, codes, member, text_eq}
use eir.Updater.Config.{UpdaterConfig}
use eir.Updater.Cycle.{
  succeeds, CycleSummary, run_cycle, CycleInput, Attempted, last, is_category,
  app_completed_cleanly,
}
use eir.Updater.Cycle.Outcome.{outcomes_of, run_cycle-clean_at_iff}
use eir.Updater.Domain.{AttemptOutcome, UpdateCandidate, already_current}
use eir.Updater.Rows.{
  UpdaterAppRow, winner, row_of, row_state, is_verified, or_last, warn_when, is_zero, app_rows,
}

abbrev pub good_states : List Text
good_states = codes "current" ∷ codes "verified" ∷ codes "installed" ∷ []

abbrev pub is_good : UpdaterAppRow → Bool
is_good row = member row.state good_states

or_false : (b : Bool) → (b || false) ≡ b
or_false b = ground arith

or_true : (b : Bool) → (b || true) ≡ true
or_true b = ground arith

and_true : (b : Bool) → (b && true) ≡ b
and_true b = ground arith

module _ {Cost : Type 0} where
  good_state :
      (config : UpdaterConfig) (cand : UpdateCandidate) (o : AttemptOutcome Cost)
      → is_good (row_of config cand (some o)) ≡ is_category already_current o || o.success
  unfolding row_of row_state member any text_eq codes
  good_state config cand o = elim (Bool-cases (is_category already_current o)) [
    | inl e ↦ rw e refl
    | inr e ↦ elim (Bool-cases o.success) [
      | inl f ↦ elim (Bool-cases (is_verified o.verification)) [
        | inl g ↦ rw e (rw f (rw g refl))
        | inr g ↦ rw e (rw f (rw g refl))
      ]
      | inr f ↦ rw e (rw f refl)
    ]
  ]

  none-succeeds :
      (os : List (AttemptOutcome Cost))
      → any (λ o. o.success) os ≡ false
      → (o : AttemptOutcome Cost) → last os ≡ some o
      → o.success ≡ false
  unfolding any last
  none-succeeds [] h o e = cc
  none-succeeds (x ∷ []) h o e = rw (sym (some_injective e)) (ground arith)
  none-succeeds (x ∷ y ∷ ys) h o e = none-succeeds (y ∷ ys) (ground arith) o e

  -- The row of an application shows a good state just when its attempts completed cleanly.
  row_of-agrees :
      (config : UpdaterConfig) (cand : UpdateCandidate) (os : List (AttemptOutcome Cost))
      → is_good (row_of config cand (winner os)) ≡ app_completed_cleanly os
  unfolding winner app_completed_cleanly member codes row_of
  row_of-agrees config cand os = elim (Option-cases (find succeeds os)) [
    | inl e ↦
        let failing : any succeeds os ≡ false = (find-none_iff succeeds os).0 e in
        elim (Option-cases (last os)) [
          | inl f ↦ rw (e, or_last) (rw f (rw failing refl))
          | inr (o, f) ↦ rw e (
              rw f (
                rw failing
                  (good_state config cand o ∙ rw (none-succeeds os failing o f) (or_false _))))
        ]
    | inr (o, e) ↦
        let (m, g) = find-some succeeds os e in
        rw e (
          rw (any_of_mem succeeds os m g)
            (good_state config cand o ∙ rw g (or_true (is_category already_current o))))
  ]

  all-rows :
      (config : UpdaterConfig) (rs : List (Attempted Cost))
      → all is_good (map (λ (r : Attempted Cost). row_of config r.0 (winner r.1)) rs)
        ≡ all app_completed_cleanly (outcomes_of rs)
  unfolding all
  all-rows config [] = refl
  all-rows config (r ∷ rs) = rw (row_of-agrees config r.0 r.1) (rw (all-rows config rs) refl)

  -- No row shows a failed or a skipped update just when every application of the cycle completed
  -- cleanly and, should there be none, the cycle itself was clean.
  pub app_rows-agrees :
      (summary : CycleSummary Cost) (config : UpdaterConfig)
      → all is_good (app_rows summary config)
        ≡ all app_completed_cleanly (outcomes_of summary.results)
          && not (is_nil summary.results && is_zero summary.clean_at)
  unfolding app_rows all member codes
  app_rows-agrees summary config = shown summary.results (is_zero summary.clean_at)
    where
      shown :
          (rs : List (Attempted Cost)) (zero : Bool)
          → all is_good
              (warn_when zero (map (λ (r : Attempted Cost). row_of config r.0 (winner r.1)) rs))
            ≡ all app_completed_cleanly (outcomes_of rs) && not (is_nil rs && zero)
      shown [] false = refl
      shown [] true = refl
      shown (r ∷ rs) false = all-rows config (r ∷ rs) ∙ sym (and_true _)
      shown (r ∷ rs) true = all-rows config (r ∷ rs) ∙ sym (and_true _)

nonzero : (i : ℤ) → i ≢ pos 0 → is_zero i ≡ false
nonzero i h = elim (Bool-cases (is_zero i)) [
  | inl e ↦ elim (h (eq_of_parts i (pos 0) (ground arith))) [ ]
  | inr e ↦ e
]

module _ (u : Unicode) {Cost : Type 0} (zero_cost : Cost) (add : Cost → Cost → Cost)
    (read : Text → Option RawStep) (describe : Pause → Text) where
  -- The rows of a clean cycle are all current, verified or installed.
  pub run_cycle-good_rows :
      (s : CycleInput Cost) (r : CycleSummary Cost) (config : UpdaterConfig)
      → s.completed_at ≢ pos 0
      → run_cycle u zero_cost add read describe s ≡ some r
      → r.clean_at ≢ pos 0
      → all is_good (app_rows r config) ≡ true
  run_cycle-good_rows s r config t e h =
      let ((_, _, _, clean), _) =
        (run_cycle-clean_at_iff u zero_cost add read describe s r t e).0 h in
      app_rows-agrees r config ∙ rw clean (rw (nonzero r.clean_at h) (ground arith))
