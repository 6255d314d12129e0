-- ===== src/Updater/Backoff/Streak.antt =====
-- What an application's runs say of its records: which cycles it ran in, and which of them settled.
use mathlib.Core.Path.{fun_ext}
use eir.Prelude.{
  subst, ◌≡◌, refl, ap, ◌∙◌, sym, ℕ, suc, Bool, true, false, ◌&&◌, ◌||◌, not, List, [], ◌∷◌, ◌++◌,
  any, all, map, length, arith, Bool-cases, inl, inr, if◌then◌else◌, if-elim,
}
use eir.Prelude.Int.{ℤ, ltb_ℤ, eq_of_parts}
use eir.Text.{Text, text_eq}
use eir.Updater.Backoff.{AttemptRecord, Run, join_run, add_record, runs_of, count_failed}

-- a == b
unfoldable pub same_cycle : ℤ → ℤ → Bool
same_cycle a b = not (ltb_ℤ a b) && not (ltb_ℤ b a)

-- The application has a record of the cycle, and a settled one.
abbrev pub ran_in : Text → ℤ → List AttemptRecord → Bool
ran_in app c records = any (λ r. text_eq r.app_id app && same_cycle r.cycle_id c) records

abbrev pub settled_in : Text → ℤ → List AttemptRecord → Bool
settled_in app c records =
    any (λ r. (text_eq r.app_id app && same_cycle r.cycle_id c) && r.settled) records

-- Each cycle is later than those after it.
abbrev pub Falling : List ℤ → Type 0
Falling [] = Unit {0}
Falling (c ∷ cs) = (all (λ d. ltb_ℤ d c) cs ≡ true) × Falling cs

abbrev cycles_of : List Run → List ℤ
cycles_of runs = map (λ (run : Run). run.cycle_id) runs

abbrev has_run : ℤ → List Run → Bool
has_run c runs = any (λ d. same_cycle d c) (cycles_of runs)

abbrev is_settled : ℤ → List Run → Bool
is_settled c runs = any (λ run. same_cycle run.cycle_id c && run.settled) runs

same_cycle_refl : (c : ℤ) → same_cycle c c ≡ true
unfolding same_cycle
same_cycle_refl c = ground arith

earlier-same_cycle : (c d : ℤ) → ltb_ℤ d c ≡ true → same_cycle d c ≡ false
unfolding same_cycle
earlier-same_cycle c d h = ground arith

-- Cycles of which neither is earlier are one.
same_of_order : (a b : ℤ) → ltb_ℤ a b ≡ false → ltb_ℤ b a ≡ false → a ≡ b
same_of_order a b h k = eq_of_parts a b (ground arith)

or_swap : (a b x : Bool) → a || (b || x) ≡ b || (a || x)
or_swap a b x = ground arith

or_twice : (a x : Bool) → a || x ≡ a || (a || x)
or_twice a x = ground arith

or_join : (a s t x : Bool) → (a && (s || t)) || x ≡ (a && t) || ((a && s) || x)
or_join a s t x = ground arith

add_record-has_run :
    (c : ℤ) (r : AttemptRecord) (runs : List Run)
    → has_run c (add_record r runs) ≡ same_cycle r.cycle_id c || has_run c runs
unfolding any add_record join_run
add_record-has_run c r [] = refl
add_record-has_run c r (run ∷ runs) = elim (Bool-cases (ltb_ℤ run.cycle_id r.cycle_id)) [
  | inl e ↦ rw e refl
  | inr e ↦ elim (Bool-cases (ltb_ℤ r.cycle_id run.cycle_id)) [
    | inl f ↦ rw e (
        rw f (
          ap (λ b. same_cycle run.cycle_id c || b) (add_record-has_run c r runs)
          ∙ or_swap (same_cycle run.cycle_id c) (same_cycle r.cycle_id c) (has_run c runs)))
    | inr f ↦ rw e (
        rw f (
          or_twice (same_cycle run.cycle_id c) (has_run c runs)
          ∙ ap (λ d. same_cycle d c || has_run c (run ∷ runs))
              (same_of_order run.cycle_id r.cycle_id e f)))
  ]
]

add_record-is_settled :
    (c : ℤ) (r : AttemptRecord) (runs : List Run)
    → is_settled c (add_record r runs) ≡ (same_cycle r.cycle_id c && r.settled) || is_settled c runs
unfolding any add_record join_run
add_record-is_settled c r [] = refl
add_record-is_settled c r (run ∷ runs) = elim (Bool-cases (ltb_ℤ run.cycle_id r.cycle_id)) [
  | inl e ↦ rw e refl
  | inr e ↦ elim (Bool-cases (ltb_ℤ r.cycle_id run.cycle_id)) [
    | inl f ↦ rw e (
        rw f (
          ap (λ b. (same_cycle run.cycle_id c && run.settled) || b) (add_record-is_settled c r runs)
          ∙ or_swap (same_cycle run.cycle_id c && run.settled)
              (same_cycle r.cycle_id c && r.settled) (is_settled c runs)))
    | inr f ↦ rw e (
        rw f (
          or_join (same_cycle run.cycle_id c) run.settled r.settled (is_settled c runs)
          ∙ ap (λ d. (same_cycle d c && r.settled) || is_settled c (run ∷ runs))
              (same_of_order run.cycle_id r.cycle_id e f)))
  ]
]

add_record-below :
    (c : ℤ) (r : AttemptRecord) (runs : List Run)
    → ltb_ℤ r.cycle_id c ≡ true
    → all (λ d. ltb_ℤ d c) (cycles_of runs) ≡ true
    → all (λ d. ltb_ℤ d c) (cycles_of (add_record r runs)) ≡ true
unfolding all add_record join_run
add_record-below c r [] h k = ground arith
add_record-below c r (run ∷ runs) h k = ground (arith, add_record-below c r runs)

all-below :
    (c d : ℤ) (cs : List ℤ)
    → ltb_ℤ c d ≡ true
    → all (λ x. ltb_ℤ x c) cs ≡ true
    → all (λ x. ltb_ℤ x d) cs ≡ true
unfolding all
all-below c d [] h k = refl
all-below c d (x ∷ cs) h k = ground (arith, all-below c d cs)

add_record-Falling :
    (r : AttemptRecord) (runs : List Run)
    → Falling (cycles_of runs)
    → Falling (cycles_of (add_record r runs))
unfolding add_record join_run all
add_record-Falling r [] h = (refl, tt)
add_record-Falling r (run ∷ runs) h = elim (Bool-cases (ltb_ℤ run.cycle_id r.cycle_id)) [
  | inl e ↦ rw e ((rw e (all-below run.cycle_id r.cycle_id (cycles_of runs) e h.0), h))
  | inr e ↦ elim (Bool-cases (ltb_ℤ r.cycle_id run.cycle_id)) [
    | inl f ↦
        rw e (rw f (add_record-below run.cycle_id r runs f h.0, add_record-Falling r runs h.1))
    | inr f ↦ rw e (rw f h)
  ]
]

or_assoc : (a b x : Bool) → (a || b) || x ≡ b || (a || x)
or_assoc a b x = ground arith

pub runs_of-has_run :
    (app : Text) (c : ℤ) (records : List AttemptRecord) (runs : List Run)
    → has_run c (runs_of app records runs) ≡ has_run c runs || ran_in app c records
unfolding any runs_of
runs_of-has_run app c [] runs = ground arith
runs_of-has_run app c (r ∷ records) runs = elim (Bool-cases (text_eq r.app_id app)) [
  | inl e ↦ rw e (
      runs_of-has_run app c records (add_record r runs)
      ∙ ap (λ b. b || ran_in app c records) (add_record-has_run c r runs)
      ∙ or_assoc (same_cycle r.cycle_id c) (has_run c runs) (ran_in app c records))
  | inr e ↦ rw e (runs_of-has_run app c records runs)
]

pub runs_of-is_settled :
    (app : Text) (c : ℤ) (records : List AttemptRecord) (runs : List Run)
    → is_settled c (runs_of app records runs) ≡ is_settled c runs || settled_in app c records
unfolding any runs_of
runs_of-is_settled app c [] runs = ground arith
runs_of-is_settled app c (r ∷ records) runs = elim (Bool-cases (text_eq r.app_id app)) [
  | inl e ↦ rw e (
      runs_of-is_settled app c records (add_record r runs)
      ∙ ap (λ b. b || settled_in app c records) (add_record-is_settled c r runs)
      ∙ or_assoc (same_cycle r.cycle_id c && r.settled) (is_settled c runs)
          (settled_in app c records))
  | inr e ↦ rw e (runs_of-is_settled app c records runs)
]

runs_of-Falling :
    (app : Text) (records : List AttemptRecord) (runs : List Run)
    → Falling (cycles_of runs)
    → Falling (cycles_of (runs_of app records runs))
unfolding runs_of
runs_of-Falling app [] runs h = h
runs_of-Falling app (r ∷ records) runs h =
    runs_of-Falling app records (if text_eq r.app_id app then add_record r runs else runs) (
      if-elim (λ l. Falling (cycles_of l)) (text_eq r.app_id app) _ _
        (λ _. add_record-Falling r runs h) (λ _. h))

settled_above :
    (c : ℤ) (runs : List Run)
    → all (λ d. ltb_ℤ d c) (cycles_of runs) ≡ true
    → is_settled c runs ≡ false
unfolding all any
settled_above c [] h = refl
settled_above c (run ∷ runs) h =
    rw (earlier-same_cycle c run.cycle_id (ground arith)) (settled_above c runs (ground arith))

-- The first of the cycles, if there is one, passes.
abbrev pub starts : (ℤ → Bool) → List ℤ → Bool
starts p [] = true
starts p (c ∷ _) = p c

-- The failed runs that are counted, and the older ones.
abbrev Counted : List Run → Type 0
Counted runs =
    (failed older : List ℤ) × (cycles_of runs ≡ failed ++ older)
    × (length failed ≡ count_failed runs)
    × (all (λ c. not (is_settled c runs)) failed ≡ true)
    × (starts (λ c. is_settled c runs) older ≡ true)

and_false : (a x : Bool) → (a && false) || x ≡ x
and_false a x = ground arith

abbrev verdicts : List Run → ℤ → Bool
verdicts runs c = is_settled c runs

abbrev record_verdicts : Text → List AttemptRecord → ℤ → Bool
record_verdicts app records c = settled_in app c records

-- A run that did not settle changes no cycle's verdict.
unsettled :
    (run : Run) (runs : List Run) → run.settled ≡ false → verdicts (run ∷ runs) ≡ verdicts runs
unfolding any
unsettled run runs h = fun_ext λ c. rw h (and_false (same_cycle run.cycle_id c) (is_settled c runs))

count_failed-Counted : (runs : List Run) → Falling (cycles_of runs) → Counted runs
unfolding count_failed all any
count_failed-Counted [] h = ([], [], refl, refl, refl, refl)
count_failed-Counted (run ∷ runs) h = elim (Bool-cases run.settled) [
  | inl e ↦ (
    [],
    cycles_of (run ∷ runs),
    refl,
    rw e refl,
    refl,
    rw (same_cycle_refl run.cycle_id) (rw e refl),
  )
  | inr e ↦
      let (failed, older, split, count, all_failed, settled) = count_failed-Counted runs h.1 in
      let same = unsettled run runs e in
      (
        run.cycle_id ∷ failed,
        older,
        ap (λ cs. run.cycle_id ∷ cs) split,
        rw e (ap suc count),
        subst (λ p. all (λ c. not (p c)) (run.cycle_id ∷ failed) ≡ true) (sym same)
            (rw (settled_above run.cycle_id runs h.0) all_failed),
        subst (λ p. starts p older ≡ true) (sym same) settled,
      )
]

-- The application's cycles in the records, the latest first, are `failed` and then `older`: none of
-- the k failed ones has a settled record, and the next older one, if there is one, has.
abbrev pub IsStreak : List AttemptRecord → Text → ℕ → Type 0
IsStreak records app k =
    (failed older : List ℤ) × (length failed ≡ k)
    × Falling (failed ++ older)
    × ((c : ℤ) → any (λ d. same_cycle d c) (failed ++ older) ≡ ran_in app c records)
    × (all (λ c. not (settled_in app c records)) failed ≡ true)
    × (starts (λ c. settled_in app c records) older ≡ true)

pub count_failed-IsStreak :
    (records : List AttemptRecord) (app : Text)
    → IsStreak records app (count_failed (runs_of app records []))
unfolding any
count_failed-IsStreak records app =
    let runs = runs_of app records [] in
    let falling = runs_of-Falling app records [] tt in
    let (failed, older, split, count, all_failed, settled) = count_failed-Counted runs falling in
    let same : verdicts runs ≡ record_verdicts app records =
      fun_ext λ c. runs_of-is_settled app c records [] in
    (
      failed,
      older,
      count,
      subst Falling split falling,
      (λ c.
          subst (λ cs. any (λ d. same_cycle d c) cs ≡ ran_in app c records) split
            (runs_of-has_run app c records [])),
      subst (λ p. all (λ c. not (p c)) failed ≡ true) same all_failed,
      subst (λ p. starts p older ≡ true) same settled,
    )
