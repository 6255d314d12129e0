-- ===== src/Learn/Detect/Sound.antt =====
-- Which subjects the detectors report, by descriptions of the rows.
use eir.Prelude.{
  ◌≡◌, refl, ◌↔◌, ℕ, suc, ◌+◌, Bool, true, false, ◌&&◌, ◌||◌, not, List, [], ◌∷◌, any, length, leb,
  ◌==◌, arith, Bool-cases, inl, inr, if◌then◌else◌,
}
use eir.Text.{Text, Unicode, text_eq}
use eir.Text.Laws.{text_eq_iff}
use eir.Updater.Check.{base_id}
use eir.Signals.LogMemory.{lookup}
use eir.Learn.Tally.Laws.{any-detected, value_at-tally, total, summary, is_of}
use eir.Learn.Detect.{
  AttemptRow, SelfUpdaterAgg, no_cycles, count_attempt, app_of, keeps_timing_out, self_updater,
  detect_self_updaters, is_timeout, insert_id, is_method_fault, Tries, no_tries, same_app_method,
  app_method_of, app_of_counted, count_try, note_success, app_success, only_fails, method_failing,
  has_worked, detect_method_failing, method_subject,
}

abbrev pub of_app : Text → AttemptRow → Bool
of_app app r = text_eq (base_id r.app_id) app

-- The cycles in which the application timed out, each once.
unfoldable pub timeout_cycles : Unicode → Text → List AttemptRow → List ℕ → List ℕ
timeout_cycles u app [] cs = cs
timeout_cycles u app (r ∷ rs) cs =
    timeout_cycles u app rs (if of_app app r && is_timeout u r then insert_id r.cycle_id cs else cs)

unfoldable pub count_if : (AttemptRow → Bool) → List AttemptRow → ℕ
count_if p [] = 0
count_if p (r ∷ rs) = (if p r then 1 else 0) + count_if p rs

total-attempts :
    (u : Unicode) (app : Text) (rs : List AttemptRow) (a : SelfUpdaterAgg)
    → total text_eq text_eq_iff app_of (count_attempt u) no_cycles app rs a ≡ record {
      timeout_cycles = timeout_cycles u app rs a.timeout_cycles;
      successes = count_if (λ r. of_app app r && r.success) rs + a.successes;
    }
unfolding total count_attempt timeout_cycles count_if is_timeout
total-attempts u app [] a = ground arith
total-attempts u app (r ∷ rs) a = elim (Bool-cases (of_app app r)) [
  | inl e ↦ ground (arith, total-attempts u app rs (count_attempt u r a))
  | inr e ↦ ground (arith, total-attempts u app rs a)
]

count_if-any :
    (p : AttemptRow → Bool) (rs : List AttemptRow) → (count_if p rs == 0) ≡ not (any p rs)
unfolding count_if any
count_if-any p [] = refl
count_if-any p (r ∷ rs) = ground (arith, count_if-any p rs)

-- Without a row of the application there is no cycle.
no_rows :
    (u : Unicode) (app : Text) (rs : List AttemptRow) (cs : List ℕ)
    → any (is_of text_eq text_eq_iff app_of (count_attempt u) no_cycles app) rs ≡ false
    → timeout_cycles u app rs cs ≡ cs
unfolding any timeout_cycles
no_rows u app [] cs h = refl
no_rows u app (r ∷ rs) cs h = ground (arith, no_rows u app rs cs)

-- For a quorum of at least one, an application is learned to update itself exactly if none of its
-- attempts succeeded and it timed out in as many different cycles as the quorum asks for.
pub detect_self_updaters_iff :
    (u : Unicode) (rows : List AttemptRow) (quorum : ℕ) (app : Text)
    → any (λ c. text_eq c.subject app) (detect_self_updaters u rows (suc quorum)) ≡ (
        not (any (λ r. of_app app r && r.success) rows)
        && leb (suc quorum) (length (timeout_cycles u app rows [])))
unfolding detect_self_updaters keeps_timing_out
detect_self_updaters_iff u rows quorum app = ground (
  arith,
  any-detected text_eq text_eq_iff (keeps_timing_out (suc quorum)) self_updater (λ c. c.subject)
      app_of (count_attempt u) no_cycles (λ c. text_eq c.subject app) app rows (λ j v. refl),
  total-attempts u app rows no_cycles,
  count_if-any (λ r. of_app app r && r.success) rows,
  no_rows u app rows [],
)

same_app_method_iff : (a b : Text × Text) → (same_app_method a b ≡ true) ↔ (a ≡ b)
same_app_method_iff (a, m) (b, n) = ground (arith, text_eq_iff a b, text_eq_iff m n)

abbrev pub of_method : Text → Text → AttemptRow → Bool
of_method app method r = of_app app r && text_eq r.method method

total-tries :
    (app method : Text) (rs : List AttemptRow) (t : Tries)
    → total same_app_method same_app_method_iff app_method_of count_try no_tries (app, method) rs t
      ≡ record {
        failures = count_if (λ r. of_method app method r && is_method_fault r) rs + t.failures;
        successes = count_if (λ r. of_method app method r && r.success) rs + t.successes;
      }
unfolding total app_method_of count_try count_if is_method_fault
total-tries app method [] t = ground arith
total-tries app method (r ∷ rs) t = elim (Bool-cases (of_method app method r)) [
  | inl e ↦ ground (arith, total-tries app method rs (count_try r t), total-tries app method rs t)
  | inr e ↦ ground (arith, total-tries app method rs t)
]

total-worked :
    (app : Text) (rs : List AttemptRow) (b : Bool)
    → total text_eq text_eq_iff app_of_counted note_success false app rs b
      ≡ (b || any (λ r. of_app app r && r.success) rs)
unfolding total note_success any
total-worked app [] b = ground arith
total-worked app (r ∷ rs) b =
    ground (arith, total-worked app rs (r.success || b), total-worked app rs b)

no_success :
    (app : Text) (rs : List AttemptRow)
    → any (is_of text_eq text_eq_iff app_of_counted note_success false app) rs ≡ false
    → any (λ r. of_app app r && r.success) rs ≡ false
unfolding any
no_success app [] h = refl
no_success app (r ∷ rs) h = ground (arith, no_success app rs)

no_faults :
    (app method : Text) (rs : List AttemptRow)
    → any
        (is_of same_app_method same_app_method_iff app_method_of count_try no_tries (app, method))
        rs
      ≡ false
    → count_if (λ r. of_method app method r && is_method_fault r) rs ≡ 0
unfolding any count_if app_method_of
no_faults app method [] h = refl
no_faults app method (r ∷ rs) h = ground (arith, no_faults app method rs)

has_worked_iff :
    (app : Text) (rs : List AttemptRow)
    → has_worked (app_success rs) app ≡ any (λ r. of_app app r && r.success) rs
unfolding has_worked app_success summary lookup
has_worked_iff app rs = ground (
  arith,
  value_at-tally text_eq text_eq_iff app_of_counted note_success false app rs [],
  total-worked app rs false,
  no_success app rs,
)

-- A method is learned to fail for an application exactly if it never succeeded for it, it was at
-- fault as often as the quorum asks for, and some attempt of the application succeeded, for a quorum
-- of at least one.
pub detect_method_failing_iff :
    (rows : List AttemptRow) (quorum : ℕ) (app method : Text)
    → any
        (λ c. text_eq c.app app && text_eq c.method method)
        (detect_method_failing rows (suc quorum))
      ≡ (not (any (λ r. of_method app method r && r.success) rows)
          && (leb (suc quorum) (count_if (λ r. of_method app method r && is_method_fault r) rows)
              && any (λ r. of_app app r && r.success) rows))
unfolding detect_method_failing only_fails
detect_method_failing_iff rows quorum app method = ground (
  arith,
  any-detected same_app_method same_app_method_iff
      (only_fails (has_worked (app_success rows)) (suc quorum)) method_failing
      (λ c. method_subject c.app c.method) app_method_of count_try no_tries
      (λ c. text_eq c.app app && text_eq c.method method) (app, method) rows (λ j v. refl),
  total-tries app method rows no_tries,
  has_worked_iff app rows,
  count_if-any (λ r. of_method app method r && r.success) rows,
  no_faults app method rows,
)
