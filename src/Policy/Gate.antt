-- ===== src/Policy/Gate.antt =====
-- When the gate lets an action run, and what it never lets through.
use eir.Prelude.{◌≡◌, ◌↔◌, ◌≤◌, suc, ◌+◌, ◌^◌, true, false, none, arith}
use eir.Prelude.Int.{ℤ, pos, pos_part, neg_part, ◌≤ℤ◌}
use eir.Text.{Unicode, member}
use eir.Float.{F32, fin, nan}
use eir.Models.{FixAction}
use eir.Policy.{
  ExecutionPolicy, auto_approve, evaluate, confidence_reason, blocked_reason, action_type_name,
}

abbrev pub one : ℤ
one = pos (2 ^ 149)

abbrev pub ◌<ℤ◌ : ℤ → ℤ → Type 0
◌<ℤ◌ a b = suc (pos_part a + neg_part b) ≤ pos_part b + neg_part a

-- The confidence and the threshold are numbers with 0 < threshold ≤ confidence ≤ 1.
abbrev pub Passes : F32 → F32 → Type 0
Passes (fin t) (fin c) = (◌<ℤ◌ (pos 0) t) × (t ≤ℤ c) × (c ≤ℤ one)
Passes _ _ = ⊥

confidence_reason-none_iff : (t c : F32) → (confidence_reason t c ≡ none) ↔ Passes t c
unfolding confidence_reason
confidence_reason-none_iff nan nan = ground arith
confidence_reason-none_iff (fin t) (fin c) = ground arith
confidence_reason-none_iff _ _ = ground arith

module _ (u : Unicode) (pol : ExecutionPolicy) (action : FixAction) (confidence : F32) where
  -- The gate lets an action run by itself exactly when its type is not disabled, its target is not
  -- blocked, 0 < threshold ≤ confidence ≤ 1 as numbers, and its type is on the whitelist.
  pub evaluate-auto_approve_iff : (evaluate u pol action confidence ≡ auto_approve) ↔ (
      (member (action_type_name action) pol.blocked_actions ≡ false)
      × (blocked_reason u pol action ≡ none)
      × Passes pol.confidence_threshold confidence
      × (member (action_type_name action) pol.whitelist ≡ true))
  unfolding evaluate
  evaluate-auto_approve_iff =
      ground (arith, confidence_reason-none_iff pol.confidence_threshold confidence)
