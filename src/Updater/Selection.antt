-- ===== src/Updater/Selection.antt =====
-- eir-svc/src/updater/orchestrator.rs: which candidates a cycle attempts, in the order of their last
-- attempts, and which are paused or left for a later cycle.
pub mod Fairness
pub mod Complete
use eir.Prelude.{ℕ, ◌-◌, Bool, not, Option, none, some, List, [], ◌∷◌, length, take}
use eir.Prelude.Int.{ℤ, pos, ltb_ℤ}
use eir.Prelude.Sort.{sort_by}
use eir.Text.{Text}
use eir.Updater.Backoff.{AttemptRecord, Pause, paused}
use eir.Updater.Domain.{UpdateCandidate}

-- last_attempt.get(&c.id).copied().unwrap_or(0)
unfoldable pub attempted_at : (Text → Option ℤ) → UpdateCandidate → ℤ
attempted_at last_attempt c = elim (last_attempt c.id) [ none ↦ pos 0 | some t ↦ t ]

unfoldable pub tried_no_later : (Text → Option ℤ) → UpdateCandidate → UpdateCandidate → Bool
tried_no_later last_attempt a b =
    not (ltb_ℤ (attempted_at last_attempt b) (attempted_at last_attempt a))

-- candidates.retain(..): the candidates that stay, and the paused ones.
abbrev keep_unpaused : Option Pause → UpdateCandidate → List UpdateCandidate → List UpdateCandidate
keep_unpaused none c rest = c ∷ rest
keep_unpaused (some _) c rest = rest

abbrev set_aside :
    Option Pause → UpdateCandidate → List (UpdateCandidate × Pause) → List (UpdateCandidate × Pause)
set_aside none c rest = rest
set_aside (some p) c rest = (c, p) ∷ rest

unfoldable pub without_paused : (Text → Option Pause) → List UpdateCandidate → List UpdateCandidate
without_paused pauses [] = []
without_paused pauses (c ∷ cs) = keep_unpaused (pauses c.id) c (without_paused pauses cs)

unfoldable pub with_pause :
    (Text → Option Pause) → List UpdateCandidate → List (UpdateCandidate × Pause)
with_pause pauses [] = []
with_pause pauses (c ∷ cs) = set_aside (pauses c.id) c (with_pause pauses cs)

pub record Selected : Type 0 where
  pub attempted : List UpdateCandidate
  pub paused : List (UpdateCandidate × Pause)
  pub deferred : ℕ

unfoldable pub select :
    (Text → Option ℤ) → (Text → Option Pause) → ℕ → List UpdateCandidate → Selected
unfolding sort_by without_paused with_pause
select last_attempt pauses cap candidates =
    let sorted = sort_by (tried_no_later last_attempt) candidates in
    let kept = without_paused pauses sorted in
    record {
      attempted = take cap kept;
      paused = with_pause pauses sorted;
      deferred = length kept - cap;
    }

unfoldable pub pauses_of : Option (List AttemptRecord) → ℤ → Text → Option Pause
pauses_of none now id = none
pauses_of (some records) now id = paused records now id
