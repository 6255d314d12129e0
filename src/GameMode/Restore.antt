-- ===== src/GameMode/Restore.antt =====
-- A boosted plan can always be taken back.
use eir.Prelude.{
  ◌≡◌, ◌⊎◌, refl, ap, Bool, true, false, not, none, some, List, [], ◌∷◌, arith, inl, inr, if-elim,
}
use eir.Text.{Text, eq_ignore_ascii_case, to_ascii_lowercase}
use eir.Text.Laws.{text_eq_refl}
use eir.GameMode.{
  Power, Outcome, Switch, switched, unreported, unchanged, set_scheme, boost, restore_to, restore,
  on_gaming_edge, high_perf_guid,
}

-- An event of the service: Game Mode goes on or off with the setting as it is then, or the service
-- starts and restores.
pub data Event : Type 0 where
  edge : Bool → Bool → Outcome → Event
  startup : Outcome → Event

unfoldable pub happen : Event → Power → Power
happen (edge power_boost on o) p = on_gaming_edge power_boost on o p
happen (startup o) p = restore o p

unfoldable pub run_events : List Event → Power → Power
run_events [] p = p
run_events (e ∷ es) p = run_events es (happen e p)

-- The plan is the user's, or the boosted one with the user's recorded.
abbrev pub CanGoBack : Text → Power → Type 0
CanGoBack plan p =
    ((p.active ≡ plan) × ((p.saved ≡ none) ⊎ (p.saved ≡ some plan)))
    ⊎ ((p.active ≡ high_perf_guid) × (p.saved ≡ some plan))

boosted_differs :
    (t : Text) → t ≡ high_perf_guid → eq_ignore_ascii_case t high_perf_guid ≡ false → ⊥
unfolding eq_ignore_ascii_case
boosted_differs t e h =
    let same : eq_ignore_ascii_case high_perf_guid high_perf_guid ≡ true =
      text_eq_refl (to_ascii_lowercase high_perf_guid) in
    cc

switch-CanGoBack :
    (plan : Text) (w : Switch) (p : Power)
    → p.active ≡ plan
    → p.saved ≡ some plan
    → CanGoBack plan (set_scheme w high_perf_guid p)
unfolding set_scheme
switch-CanGoBack plan switched p a s = inr (refl, s)
switch-CanGoBack plan unreported p a s = inr (refl, s)
switch-CanGoBack plan unchanged p a s = inl (a, inr s)

boost-CanGoBack :
    (plan : Text) (o : Outcome) (p : Power) → CanGoBack plan p → CanGoBack plan (boost o p)
unfolding boost
boost-CanGoBack plan o p h =
    if-elim (CanGoBack plan) (not o.reads) p _ (λ _. h)
      (λ _.
        if-elim (CanGoBack plan) (eq_ignore_ascii_case p.active high_perf_guid) p _ (λ _. h)
          (λ other.
            if-elim (CanGoBack plan) (not o.persists) p _ (λ _. h)
              (λ _. elim h [
                | inl (a, _) ↦ switch-CanGoBack plan o.switches _ a (ap some a)
                | inr (a, _) ↦ absurd (boosted_differs p.active a other)
              ])))

restore_to-CanGoBack :
    (plan : Text) (o : Outcome) (w : Switch) (p : Power)
    → o.switches ≡ w
    → CanGoBack plan p
    → CanGoBack plan (restore_to o p.saved p)
unfolding restore_to set_scheme
restore_to-CanGoBack plan o switched p e h = ground arith
restore_to-CanGoBack plan o unreported p e h = ground arith
restore_to-CanGoBack plan o unchanged p e h = ground arith

restore-CanGoBack :
    (plan : Text) (o : Outcome) (p : Power) → CanGoBack plan p → CanGoBack plan (restore o p)
unfolding restore
restore-CanGoBack plan o p h =
    if-elim (CanGoBack plan) o.loads _ p (λ _. restore_to-CanGoBack plan o o.switches p refl h)
      (λ _. h)

happen-CanGoBack :
    (plan : Text) (e : Event) (p : Power) → CanGoBack plan p → CanGoBack plan (happen e p)
unfolding happen on_gaming_edge
happen-CanGoBack plan (edge power_boost on o) p h =
    if-elim (CanGoBack plan) (not on) _ _ (λ _. restore-CanGoBack plan o p h)
      (λ _.
        if-elim (CanGoBack plan) (not power_boost) p _ (λ _. h) (λ _. boost-CanGoBack plan o p h))
happen-CanGoBack plan (startup o) p h = restore-CanGoBack plan o p h

run_events-CanGoBack :
    (plan : Text) (es : List Event) (p : Power)
    → CanGoBack plan p
    → CanGoBack plan (run_events es p)
unfolding run_events
run_events-CanGoBack plan [] p h = h
run_events-CanGoBack plan (e ∷ es) p h =
    run_events-CanGoBack plan es (happen e p) (happen-CanGoBack plan e p h)

restore_works :
    (plan : Text) (o : Outcome) (p : Power)
    → o.loads ≡ true
    → o.switches ≡ switched
    → o.clears ≡ true
    → CanGoBack plan p
    → restore o p ≡ record { active = plan; saved = none }
unfolding restore restore_to set_scheme
restore_works plan o p l w c h = ground arith

-- The user's power plan always comes back: after any Game Mode edges and restarts, each of whose
-- calls may fail, time out or be cut off by a crash, one restore whose calls work leaves the plan
-- that was active at first and no record, as long as nobody else changes the plan.
pub restore-run_events :
    (plan : Text) (es : List Event) (o : Outcome)
    → o.loads ≡ true
    → o.switches ≡ switched
    → o.clears ≡ true
    → restore o (run_events es (record { active = plan; saved = none }))
      ≡ record { active = plan; saved = none }
restore-run_events plan es o l w c =
    restore_works plan o _ l w c (run_events-CanGoBack plan es _ (inl (refl, inl refl)))
