-- ===== src/Learn/Analyse.antt =====
-- eir-svc/src/learn/mod.rs: from the recorded rows to the table of learned facts. The JSON of an
-- effect and the evidence texts are parameters.
pub mod Verdict
use eir.Prelude.{ℕ, Option, none, some, List, [], ◌∷◌, ◌++◌, map}
use eir.Text.{Text, Unicode, codes}
use eir.Learn.{
  LearnedFactKind, self_updater_suspected, method_failing, fix_ineffective, rejected_signal, Effect,
  skip, deprioritise_method, confidence_penalty, max_confidence_penalty,
}
use eir.Learn.Detect.{
  AttemptRow, FeedbackRow, SelfUpdaterCandidate, MethodFailingCandidate, FixIneffectiveCandidate,
  RejectedCandidate, method_subject, detect_self_updaters, detect_method_failing,
  detect_fix_ineffective, detect_rejected,
}
use eir.Learn.Store.{Facts}
use eir.Learn.Store.Spec.{Call, upsert, expire, run}

abbrev pub window_days : ℕ
window_days = 30

abbrev pub quorum : ℕ
quorum = 3

unfoldable pub as_token : LearnedFactKind → Text
as_token self_updater_suspected = codes "self_updater_suspected"
as_token method_failing = codes "method_failing"
as_token fix_ineffective = codes "fix_ineffective"
as_token rejected_signal = codes "rejected_signal"

-- Effect::to_json and the format! texts of the evidence.
pub record Words : Type 0 where
  pub to_json : Effect → Text
  pub timeouts : ℕ → Text
  pub failures : ℕ → Text → Text
  pub ineffective : ℕ → Text
  pub rejections : ℕ → Text

abbrev pub learn : Text → Words → LearnedFactKind → Text → Effect → Text → Call
learn now w kind subject effect evidence =
    upsert now (as_token kind) subject (w.to_json effect) evidence window_days

abbrev pub learn_self_updater : Text → Words → SelfUpdaterCandidate → Call
learn_self_updater now w c =
    learn now w self_updater_suspected c.subject skip (w.timeouts c.timeout_cycles)

abbrev pub learn_method : Text → Words → MethodFailingCandidate → Call
learn_method now w c =
    learn now w method_failing (method_subject c.app c.method) (deprioritise_method c.method)
      (w.failures c.failures c.method)

abbrev pub learn_fix : Text → Words → FixIneffectiveCandidate → Call
learn_fix now w c =
    learn now w fix_ineffective c.subject (confidence_penalty max_confidence_penalty)
      (w.ineffective c.occurrences)

abbrev pub learn_rejected : Text → Words → RejectedCandidate → Call
learn_rejected now w c =
    learn now w rejected_signal c.subject (confidence_penalty max_confidence_penalty)
      (w.rejections c.rejections)

-- The candidates of one detector are stored, then its other facts expire.
module _ {C : Type 0} (kind : LearnedFactKind) (subject : C → Text) (store : C → Call) where
  unfoldable pub reconcile : List C → List Call
  reconcile cs = map store cs ++ (expire (as_token kind) (map subject cs) ∷ [])

abbrev pub self_updater_calls : Text → Words → Unicode → List AttemptRow → List Call
self_updater_calls now w u rows =
    reconcile self_updater_suspected (λ c. c.subject) (learn_self_updater now w)
      (detect_self_updaters u rows quorum)

abbrev pub method_calls : Text → Words → List AttemptRow → List Call
method_calls now w rows =
    reconcile method_failing (λ c. method_subject c.app c.method) (learn_method now w)
      (detect_method_failing rows quorum)

unfoldable pub analyse_updates : Text → Words → Unicode → List AttemptRow → Facts → Facts
analyse_updates now w u rows db =
    run (method_calls now w rows) (run (self_updater_calls now w u rows) db)

-- A failed read of the rows skips its part.
unfoldable pub learn_from {ℓ} :
    {R : Type ℓ} → (List R → List Call) → Option (List R) → Facts → Facts
learn_from calls none db = db
learn_from calls (some rows) db = run (calls rows) db

abbrev pub fix_calls : Text → Words → List FeedbackRow → List Call
fix_calls now w rows =
    reconcile fix_ineffective (λ c. c.subject) (learn_fix now w)
      (detect_fix_ineffective rows quorum)

abbrev pub rejection_calls : Text → Words → List Text → List Call
rejection_calls now w rows =
    reconcile rejected_signal (λ c. c.subject) (learn_rejected now w) (detect_rejected rows quorum)

unfoldable pub analyse_issues :
    Text → Words → Option (List FeedbackRow) → Option (List Text) → Facts → Facts
analyse_issues now w feedback rejections db =
    learn_from (rejection_calls now w) rejections (learn_from (fix_calls now w) feedback db)
