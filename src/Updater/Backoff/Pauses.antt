-- ===== src/Updater/Backoff/Pauses.antt =====
-- How long an application can be paused, and what ends a pause.
use eir.Updater.Backoff.Streak.{IsStreak, count_failed-IsStreak}
use eir.Prelude.{
  subst, sym, ℕ, zero, suc, ◌*◌, ◌≤◌, ◌≡◌, refl, inl, inr, true, none, some, List, [], ◌∷◌, ◌++◌,
  arith, Memᴰ, if◌then◌else◌, if-elim, Option-cases,
}
use eir.Prelude.Int.{ℤ, pos, ◌+ℤ◌, +ℤ_parts, ltb_ℤ, ◌≤ℤ◌}
use eir.Text.{Text, text_eq}
use eir.Text.Laws.{text_eq_refl}
use eir.Updater.Backoff.{
  day, AttemptRecord, Pause, Run, pause_days, join_run, new_run, add_record, runs_of, count_failed,
  pause_after, paused,
}

pause_days-range : (n d : ℕ) → pause_days n ≡ some d → (2 ≤ n) × (d ≤ 7)
unfolding pause_days
pause_days-range zero d e = cc
pause_days-range (suc zero) d e = cc
pause_days-range (suc (suc zero)) d e = ground arith
pause_days-range (suc (suc (suc zero))) d e = ground arith
pause_days-range (suc (suc (suc (suc n)))) d e = ground arith

-- A property of every record is one of every run's last attempt.
abbrev pub Lasts : (AttemptRecord → Type 0) → List Run → Type 0
Lasts P [] = Unit {0}
Lasts P (run ∷ runs) = P run.last × Lasts P runs

module _ (P : AttemptRecord → Type 0) where
  add_record-Lasts :
      (r : AttemptRecord) (runs : List Run) → P r → Lasts P runs → Lasts P (add_record r runs)
  unfolding add_record join_run
  add_record-Lasts r [] p l = (p, tt)
  add_record-Lasts r (run ∷ runs) p l =
      if-elim (Lasts P) (ltb_ℤ run.cycle_id r.cycle_id) _ _ (λ _. (p, l))
        λ _.
          if-elim (Lasts P) (ltb_ℤ r.cycle_id run.cycle_id) _ _
            (λ _. (l.0, add_record-Lasts r runs p l.1))
            (λ _. (if-elim P (ltb_ℤ r.at run.last.at) _ _ (λ _. l.0) (λ _. p), l.1))

-- Every run's cycle is at most this one.
abbrev pub Below : ℤ → List Run → Type 0
Below c [] = Unit {0}
Below c (run ∷ runs) = (run.cycle_id ≤ℤ c) × Below c runs

add_record-Below :
    (c : ℤ) (r : AttemptRecord) (runs : List Run)
    → r.cycle_id ≤ℤ c
    → Below c runs
    → Below c (add_record r runs)
unfolding add_record join_run
add_record-Below c r [] p l = (p, tt)
add_record-Below c r (run ∷ runs) p l = ground (arith, add_record-Below c r runs)

pause_after-settled :
    (run : Run) (runs : List Run) (now : ℤ)
    → run.settled ≡ true
    → pause_after (run ∷ runs) now ≡ none
unfolding pause_after count_failed pause_days
pause_after-settled run runs now s = rw s refl

-- A settled record of the newest cycle ends the failures.
add_record-settled :
    (r : AttemptRecord) (runs : List Run) (now : ℤ)
    → r.settled ≡ true
    → Below r.cycle_id runs
    → pause_after (add_record r runs) now ≡ none
unfolding add_record join_run
add_record-settled r [] now s b = pause_after-settled (new_run r) [] now s
add_record-settled r (run ∷ runs) now s b =
    let Ended = λ (l : List Run). pause_after l now ≡ none in
    if-elim Ended (ltb_ℤ run.cycle_id r.cycle_id) _ _
      (λ _. pause_after-settled (new_run r) (run ∷ runs) now s)
      λ _.
        if-elim Ended (ltb_ℤ r.cycle_id run.cycle_id) _ _ (λ e. ground arith)
          (λ _. pause_after-settled (join_run r run) runs now (ground arith))

runs_of-append :
    (app : Text) (records : List AttemptRecord) (r : AttemptRecord) (runs : List Run)
    → text_eq r.app_id app ≡ true
    → runs_of app (records ++ (r ∷ [])) runs ≡ add_record r (runs_of app records runs)
unfolding runs_of
runs_of-append app [] r runs e = rw e refl
runs_of-append app (x ∷ records) r runs e =
    runs_of-append app records r (if text_eq x.app_id app then add_record x runs else runs) e

runs_of-Below :
    (c : ℤ) (app : Text) (records : List AttemptRecord) (runs : List Run)
    → ((x : AttemptRecord) → Memᴰ x records → x.cycle_id ≤ℤ c)
    → Below c runs
    → Below c (runs_of app records runs)
unfolding runs_of
runs_of-Below c app [] runs h b = b
runs_of-Below c app (r ∷ records) runs h b =
    runs_of-Below c app records (if text_eq r.app_id app then add_record r runs else runs)
      (λ x m. h x (Memᴰ.tail m))
      (if-elim (Below c) (text_eq r.app_id app) _ _
        (λ _. add_record-Below c r runs (h r (Memᴰ.head refl)) b) (λ _. b))

runs_of-Lasts :
    (P : AttemptRecord → Type 0) (app : Text) (records : List AttemptRecord) (runs : List Run)
    → ((x : AttemptRecord) → Memᴰ x records → text_eq x.app_id app ≡ true → P x)
    → Lasts P runs
    → Lasts P (runs_of app records runs)
unfolding runs_of
runs_of-Lasts P app [] runs h l = l
runs_of-Lasts P app (r ∷ records) runs h l =
    runs_of-Lasts P app records (if text_eq r.app_id app then add_record r runs else runs)
      (λ x m. h x (Memᴰ.tail m))
      (if-elim (Lasts P) (text_eq r.app_id app) _ _
        (λ e. add_record-Lasts P r runs (h r (Memᴰ.head refl) e) l) (λ _. l))

-- One settled attempt of the newest cycle ends a pause, whatever failed before.
pub paused-settled :
    (records : List AttemptRecord) (r : AttemptRecord) (now : ℤ)
    → r.settled ≡ true
    → ((x : AttemptRecord) → Memᴰ x records → x.cycle_id ≤ℤ r.cycle_id)
    → paused (records ++ (r ∷ [])) now r.app_id ≡ none
unfolding paused
paused-settled records r now s h =
    rw (runs_of-append r.app_id records r [] (text_eq_refl r.app_id)) (
      add_record-settled r (runs_of r.app_id records []) now s
        (runs_of-Below r.cycle_id r.app_id records [] h tt))

-- The parts of a pause, from the newest run.
pause_after-some :
    (run : Run) (runs : List Run) (now : ℤ) (p : Pause)
    → pause_after (run ∷ runs) now ≡ some p
    → (days : ℕ) × (pause_days p.failed_runs ≡ some days)
      × (ltb_ℤ now p.until ≡ true)
      × (p.until ≡ run.last.at +ℤ pos (days * day))
      × (p.last_detail ≡ run.last.detail)
      × (p.failed_runs ≡ count_failed (run ∷ runs))
unfolding pause_after
pause_after-some run runs now p e = elim (Option-cases (pause_days (count_failed (run ∷ runs)))) [
  | inl n ↦ ground arith
  | inr (d, n) ↦ (d, ground arith, ground arith, ground arith, ground arith, ground arith)
]

sum_mono : (a : ℤ) (d n : ℕ) → d ≤ n → a +ℤ pos (d * day) ≤ℤ a +ℤ pos (n * day)
sum_mono a d n h = omega (arith, h, +ℤ_parts a (pos (d * day)), +ℤ_parts a (pos (n * day)))

-- What a pause tells of the attempt it starts from.
abbrev pub IsJust : List AttemptRecord → ℤ → Text → Pause → Type 0
IsJust records now app p =
    (2 ≤ p.failed_runs)
    × IsStreak records app p.failed_runs
    × (ltb_ℤ now p.until ≡ true)
    × ((last : AttemptRecord) × Memᴰ last records
        × (text_eq last.app_id app ≡ true)
        × (p.last_detail ≡ last.detail)
        × (p.until ≤ℤ last.at +ℤ pos (7 * day)))

-- An application is paused only after at least two failed runs in a row: of the cycles in which it
-- has records, the latest, as many as the pause counts, have no settled record, and the next older
-- one, if there is one, has. It is paused only while the end of the pause lies ahead, and for at most
-- seven days from one of its own attempts, whose text the pause shows.
pub paused-IsJust :
    (records : List AttemptRecord) (now : ℤ) (app : Text) (p : Pause)
    → paused records now app ≡ some p
    → IsJust records now app p
unfolding paused pause_after
paused-IsJust records now app p e =
    go (runs_of app records [])
      (runs_of-Lasts (λ x. Memᴰ x records × (text_eq x.app_id app ≡ true)) app records []
        (λ x m t. (m, t)) tt)
      (count_failed-IsStreak records app) e
  where
    nothing : pause_after [] now ≡ some p → ⊥
    nothing e = cc

    go :
        (runs : List Run)
        → Lasts (λ x. Memᴰ x records × (text_eq x.app_id app ≡ true)) runs
        → IsStreak records app (count_failed runs)
        → pause_after runs now ≡ some p
        → IsJust records now app p
    go [] l k e = absurd (nothing e)
    go (run ∷ runs) l k e =
        let (d, n, w, t, x, c) = pause_after-some run runs now p e in
        let (two, seven) = pause_days-range p.failed_runs d n in
        let ((m, a), _) = l in
        (
          two,
          subst (IsStreak records app) (sym c) k,
          w,
          (run.last, m, a, x, rw t (sum_mono run.last.at d 7 seven)),
        )
