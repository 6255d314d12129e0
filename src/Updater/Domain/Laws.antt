-- ===== src/Updater/Domain/Laws.antt =====
-- What a validated next step can be.
use eir.Prelude.{
  ◌≡◌, Bool, true, false, not, some, List, [], ◌∷◌, arith, any, find, Option-cases, inl, inr,
}
use eir.Text.{Unicode}
use eir.Updater.Domain.{
  Method, same_method, has_method, is_terminal, same_category, needs_reboot, already_current,
  ProposedStep, give_up, switch, retry, NextStep, switch_to, retry_with, stop, StepContext,
  first_untried, deterministic_next, remedy_ok, validate_next_step, is_reboot_retry,
}

-- What the engine may do next, given the failure.
abbrev pub IsAllowed : Unicode → StepContext → NextStep → Type 0
IsAllowed u ctx (stop reason) = Unit {0}
IsAllowed u ctx (switch_to m) =
    (is_terminal ctx.failed ≡ false)
    × (same_category ctx.failed already_current ≡ false)
    × (same_category ctx.failed needs_reboot ≡ false)
    × (has_method ctx.available m ≡ true)
    × (has_method ctx.tried m ≡ false)
IsAllowed u ctx (retry_with m r) =
    (is_terminal ctx.failed ≡ false)
    × (same_category ctx.failed already_current ≡ false)
    × (has_method ctx.available m ≡ true)
    × (remedy_ok u r m ctx ≡ true)

pub same_method_self : (m : Method) → same_method m m ≡ true
unfolding same_method
same_method_self m = ground arith

pub find-has_method :
    (p : Method → Bool) (ms : List Method) (m : Method)
    → find p ms ≡ some m
    → (has_method ms m ≡ true) × (p m ≡ true)
unfolding find has_method any
find-has_method p [] m e = cc
find-has_method p (x ∷ ms) m e = ground (arith, find-has_method p ms m, same_method_self m)

pub first_untried-found :
    (available tried : List Method) (m : Method)
    → first_untried available tried ≡ some m
    → (has_method available m ≡ true) × (has_method tried m ≡ false)
unfolding first_untried
first_untried-found available tried m e =
    let (a, t) = find-has_method (λ x. not (has_method tried x)) available m e in (a, ground arith)

module _ (u : Unicode) (ctx : StepContext) where
  pub deterministic_next-IsAllowed : IsAllowed u ctx (deterministic_next ctx)
  unfolding deterministic_next
  deterministic_next-IsAllowed = elim (Option-cases (first_untried ctx.available ctx.tried)) [
    | inl e ↦ ground arith
    | inr (m, e) ↦ ground (arith, first_untried-found ctx.available ctx.tried m e)
  ]

  -- Whatever is proposed, the engine goes on only after a failure that is no integrity failure and
  -- not "already current": to an available method that was not tried, and no reboot pending, or to
  -- an available method with a remedy that the failure calls for.
  pub validate_next_step-IsAllowed :
      (proposed : ProposedStep) → IsAllowed u ctx (validate_next_step u proposed ctx)
  unfolding validate_next_step is_reboot_retry
  validate_next_step-IsAllowed (give_up reason) = ground (arith, deterministic_next-IsAllowed)
  validate_next_step-IsAllowed (switch m) = ground (arith, deterministic_next-IsAllowed)
  validate_next_step-IsAllowed (retry m r) = ground (arith, deterministic_next-IsAllowed)
