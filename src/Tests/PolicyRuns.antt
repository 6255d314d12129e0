-- ===== src/Tests/PolicyRuns.antt =====
-- policy/mod.rs at concrete policies and paths.
use eir.Prelude.{◌≡◌, refl, ◌↔◌, true, false, none, some, [], ◌∷◌, Memᴰ}
use eir.Text.{
  codes, is_empty, to_ascii_lowercase, to_ascii_lower, text_eq, member, split, trim, trim_start,
  trim_end_matches, trim_start_matches, is_whitespace, strip_prefix, eq_ignore_ascii_case,
}
use eir.Float.{one_f32}
use eir.WindowsPath.{strip_verbatim, fold_hive, fold_alias, normalize_path_lexical}
use eir.WindowsPath.Root.{head, head-normalize_path_lexical}
use eir.Policy.{Reason, evaluate, block, auto_approve, blocked_reason, action_type_name}
use eir.Policy.Gate.{evaluate-auto_approve_iff, Passes}
use eir.Policy.Forbidden.{evaluate_of_IsForbidden, blocked_reason_iff, IsForbidden}
use eir.Tests.Fixtures.{ascii, policy, stop_defender, clean_logs}

evaluate_of_IsForbidden_example :
    (r : Reason) × (evaluate ascii policy stop_defender one_f32 ≡ block r)
unfolding codes to_ascii_lowercase to_ascii_lower is_empty
evaluate_of_IsForbidden_example =
    evaluate_of_IsForbidden ascii policy stop_defender one_f32
      (codes "WinDefend", Memᴰ.head refl, refl)

evaluate-auto_approve_iff_example : (evaluate ascii policy clean_logs one_f32 ≡ auto_approve) ↔ (
    (member (action_type_name clean_logs) policy.blocked_actions ≡ false)
    × (blocked_reason ascii policy clean_logs ≡ none)
    × Passes policy.confidence_threshold one_f32
    × (member (action_type_name clean_logs) policy.whitelist ≡ true))
evaluate-auto_approve_iff_example = evaluate-auto_approve_iff ascii policy clean_logs one_f32

blocked_reason_iff_example :
    ((r : Reason) × (blocked_reason ascii policy stop_defender ≡ some r))
    ↔ IsForbidden ascii policy stop_defender
blocked_reason_iff_example = blocked_reason_iff ascii policy stop_defender

head-normalize_path_lexical_example :
    head (normalize_path_lexical ascii (codes "C:/../../x"))
    ≡ some (to_ascii_lowercase (codes "C:"))
unfolding codes split strip_verbatim fold_hive fold_alias trim trim_start trim_end_matches
    trim_start_matches is_whitespace strip_prefix eq_ignore_ascii_case text_eq to_ascii_lowercase
    to_ascii_lower is_empty
head-normalize_path_lexical_example =
    head-normalize_path_lexical ascii (codes "C:/../../x") (codes "C:")
      (codes ".." ∷ codes ".." ∷ codes "x" ∷ []) refl (refl, refl, refl)
