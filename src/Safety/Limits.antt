-- ===== src/Safety/Limits.antt =====
-- When an action may run again.
use eir.Prelude.{
  ℕ, ◌+◌, ◌-◌, ◌≤◌, ◌≡◌, refl, ◌↔◌, ◌⊎◌, inl, inr, Bool, true, ◌&&◌, ◌||◌, not, List, [], ◌∷◌,
  arith, any, Witness, any_iff, leb, ◌==◌, if◌then◌else◌,
}
use eir.Text.{Text, Unicode}
use eir.Models.{FixAction, dedup_key}
use eir.Safety.{LogRow, failure_breaker_threshold, selects, sum_success, count_rows, rate_limited}

-- How many of the rows record a failure.
unfoldable pub count_failures : (LogRow → Bool) → List LogRow → ℕ
count_failures p [] = 0
count_failures p (r ∷ rs) = (if p r && not r.success then 1 else 0) + count_failures p rs

count_rows-split :
    (p : LogRow → Bool) (rs : List LogRow)
    → count_rows p rs ≡ sum_success p rs + count_failures p rs
unfolding count_rows sum_success count_failures
count_rows-split p [] = refl
count_rows-split p (r ∷ rs) = ground (arith, count_rows-split p rs)

sum_success-any :
    (p : LogRow → Bool) (rs : List LogRow)
    → (not (sum_success p rs == 0)) ≡ any (λ r. p r && r.success) rs
unfolding sum_success any
sum_success-any p [] = refl
sum_success-any p (r ∷ rs) = ground (arith, sum_success-any p rs)

-- An action waits exactly if a row of the window records that it succeeded, or at least three of
-- them record that it failed.
pub rate_limited_iff :
    (u : Unicode) (log : List LogRow) (action : FixAction) (legacy_key cutoff : Text)
    → let p = selects cutoff (dedup_key u action) legacy_key in
      (rate_limited u log action legacy_key cutoff ≡ true)
      ↔ (Witness (λ r. p r && r.success) log ⊎ (failure_breaker_threshold ≤ count_failures p log))
unfolding rate_limited
rate_limited_iff u log action legacy_key cutoff =
    let p = selects cutoff (dedup_key u action) legacy_key in
    let q = λ (r : LogRow). p r && r.success in
    let e = sum_success-any p log in
    let s = count_rows-split p log in
    (
      λ h. elim (split (sum_success p log) (count_rows p log) h) [
        | inl b ↦ inl ((any_iff q log).0 (rw (← e) b))
        | inr b ↦ inr (omega (arith, b, s))
      ],
      λ h. elim h [
        | inl b ↦ join (sum_success p log) (count_rows p log) (inl (rw e ((any_iff q log).1 b)))
        | inr b ↦ join (sum_success p log) (count_rows p log) (inr (omega (arith, b, s)))
      ],
    )
  where
    split :
        (s n : ℕ)
        → (not (s == 0) || leb failure_breaker_threshold (n - s)) ≡ true
        → ((not (s == 0)) ≡ true) ⊎ (failure_breaker_threshold ≤ n - s)
    split s n h = ground arith

    join :
        (s n : ℕ)
        → ((not (s == 0)) ≡ true) ⊎ (failure_breaker_threshold ≤ n - s)
        → (not (s == 0) || leb failure_breaker_threshold (n - s)) ≡ true
    join s n h = ground arith
