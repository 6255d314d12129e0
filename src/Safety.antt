-- ===== src/Safety.antt =====
-- eir-svc/src/safety.rs: the rate limit on repeated actions, read from execution_log.
pub mod Limits
use eir.Prelude.{
  ℕ, ◌+◌, ◌-◌, Bool, true, false, ◌&&◌, ◌||◌, not, Option, none, some, List, [], ◌∷◌, leb, ltb,
  ◌==◌, if◌then◌else◌,
}
use eir.Text.{Text, Unicode, text_eq}
use eir.Models.{FixAction, dedup_key}

-- A row of execution_log; `action_key` is NULL in rows written before the column was added.
pub record LogRow : Type 0 where
  pub action : Text
  pub action_key : Option Text
  pub success : Bool
  pub executed_at : Text

abbrev pub failure_breaker_threshold : ℕ
failure_breaker_threshold = 3

-- a > b on TEXT: SQLite compares the UTF-8 bytes, which is the order of the code points.
unfoldable pub text_after : Text → Text → Bool
text_after [] b = false
text_after (x ∷ a) [] = true
text_after (x ∷ a) (y ∷ b) = if x == y then text_after a b else ltb y x

-- executed_at > ? AND (action_key = ? OR (action_key IS NULL AND action = ?))
unfoldable pub selects : Text → Text → Text → LogRow → Bool
selects cutoff semantic_key legacy_key row =
    text_after row.executed_at cutoff && elim row.action_key [
      | some key ↦ text_eq key semantic_key
      | none ↦ text_eq row.action legacy_key
    ]

-- COALESCE(SUM(success), 0), COUNT(*)
unfoldable pub sum_success : (LogRow → Bool) → List LogRow → ℕ
sum_success p [] = 0
sum_success p (r ∷ rs) = (if p r && r.success then 1 else 0) + sum_success p rs

unfoldable pub count_rows : (LogRow → Bool) → List LogRow → ℕ
count_rows p [] = 0
count_rows p (r ∷ rs) = (if p r then 1 else 0) + count_rows p rs

-- `cutoff` is the window's start as RFC 3339, `legacy_key` the action's Debug text.
unfoldable pub rate_limited : Unicode → List LogRow → FixAction → Text → Text → Bool
rate_limited u log action legacy_key cutoff =
    let p = selects cutoff (dedup_key u action) legacy_key in
    let successes = sum_success p log in
    let failures = count_rows p log - successes in
    not (successes == 0) || leb failure_breaker_threshold failures
