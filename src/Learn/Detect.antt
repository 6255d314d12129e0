-- ===== src/Learn/Detect.antt =====
-- eir-svc/src/learn/detect.rs: which patterns in the recorded rows are learned.
pub mod Sound
use eir.Prelude.{
  ℕ, suc, ◌+◌, Bool, true, false, ◌&&◌, ◌||◌, not, Option, none, some, List, [], ◌∷◌, ◌++◌, any,
  length, leb, ◌==◌, if◌then◌else◌,
}
use eir.Prelude.Int.{ℤ, negsuc, pos_part, neg_part}
use eir.Text.{Text, Unicode, codes, text_eq, member, contains}
use eir.Updater.Check.{base_id}
use eir.Signals.LogMemory.{lookup}
use eir.Learn.{action_type}
use eir.Learn.Tally.{tally, candidates, sort_by_subject}

pub record AttemptRow : Type 0 where
  pub app_id : Text
  pub cycle_id : ℕ
  pub success : Bool
  pub exit_code : Option ℤ
  pub category : Option Text
  pub method : Text
  pub detail : Text

pub record SelfUpdaterCandidate : Type 0 where
  pub subject : Text
  pub timeout_cycles : ℕ

pub record MethodFailingCandidate : Type 0 where
  pub app : Text
  pub method : Text
  pub failures : ℕ

-- SUBJECT_SEP joins an application and a method.
unfoldable pub method_subject : Text → Text → Text
method_subject app method = app ++ (0x1f ∷ method)

abbrev eq_ℤ : ℤ → ℤ → Bool
eq_ℤ a b = pos_part a == pos_part b && neg_part a == neg_part b

abbrev pub timed_out : ℤ
timed_out = negsuc 3

abbrev is_just : (Text → Bool) → Option Text → Bool
is_just p none = false
is_just p (some t) = p t

unfoldable pub has_exit_code : Option ℤ → ℤ → Bool
has_exit_code none code = false
has_exit_code (some c) code = eq_ℤ c code

unfoldable pub is_timeout : Unicode → AttemptRow → Bool
is_timeout u r =
    not r.success
    && is_just (λ c. text_eq c (codes "network_transient")) r.category
    && (has_exit_code r.exit_code timed_out
        || contains (u.to_lowercase r.detail) (codes "timed out"))

-- HashSet::insert on ids
unfoldable pub insert_id : ℕ → List ℕ → List ℕ
insert_id c cs = if any (λ x. x == c) cs then cs else c ∷ cs

pub record SelfUpdaterAgg : Type 0 where
  pub timeout_cycles : List ℕ
  pub successes : ℕ

abbrev pub no_cycles : SelfUpdaterAgg
no_cycles = record { timeout_cycles = []; successes = 0 }

unfoldable pub count_attempt : Unicode → AttemptRow → SelfUpdaterAgg → SelfUpdaterAgg
count_attempt u r a =
    if r.success
    then record a { successes = suc a.successes }
    else if is_timeout u r
    then record a { timeout_cycles = insert_id r.cycle_id a.timeout_cycles }
    else a

abbrev pub app_of : AttemptRow → Option Text
app_of r = some (base_id r.app_id)

unfoldable pub keeps_timing_out : ℕ → Text → SelfUpdaterAgg → Bool
keeps_timing_out quorum app a = a.successes == 0 && leb quorum (length a.timeout_cycles)

abbrev pub self_updater : Text → SelfUpdaterAgg → SelfUpdaterCandidate
self_updater app a = record { subject = app; timeout_cycles = length a.timeout_cycles }

unfoldable pub detect_self_updaters : Unicode → List AttemptRow → ℕ → List SelfUpdaterCandidate
detect_self_updaters u rows quorum =
    sort_by_subject (λ c. c.subject)
      (candidates (keeps_timing_out quorum) self_updater
        (tally text_eq app_of (count_attempt u) no_cycles rows []))

abbrev pub method_fault_categories : List Text
method_fault_categories =
    codes "installer_failed"
    ∷ codes "verify_failed"
    ∷ codes "not_found"
    ∷ codes "needs_force"
    ∷ codes "permission_denied"
    ∷ []

unfoldable pub is_method_fault : AttemptRow → Bool
is_method_fault r = not r.success && is_just (λ c. member c method_fault_categories) r.category

-- The failures and successes of a method, or of an action type.
pub record Tries : Type 0 where
  pub failures : ℕ
  pub successes : ℕ

abbrev pub no_tries : Tries
no_tries = record { failures = 0; successes = 0 }

abbrev pub same_app_method : Text × Text → Text × Text → Bool
same_app_method a b = text_eq a.0 b.0 && text_eq a.1 b.1

-- A row counts for its application and method if it succeeded or the method was at fault.
unfoldable pub app_method_of : AttemptRow → Option (Text × Text)
app_method_of r = if r.success || is_method_fault r then some (base_id r.app_id, r.method) else none

abbrev pub app_of_counted : AttemptRow → Option Text
app_of_counted r = if r.success || is_method_fault r then some (base_id r.app_id) else none

unfoldable pub count_try : AttemptRow → Tries → Tries
count_try r t =
    if r.success
    then record t { successes = suc t.successes }
    else record t { failures = suc t.failures }

-- insert(app, true) after a success, or_insert(false) after a failure
unfoldable pub note_success : AttemptRow → Bool → Bool
note_success r worked = r.success || worked

unfoldable pub app_success : List AttemptRow → List (Text × Bool)
app_success rows = tally text_eq app_of_counted note_success false rows []

abbrev or_false : Option Bool → Bool
or_false none = false
or_false (some b) = b

unfoldable pub only_fails : (Text → Bool) → ℕ → Text × Text → Tries → Bool
only_fails worked quorum key t = t.successes == 0 && leb quorum t.failures && worked key.0

abbrev pub method_failing : Text × Text → Tries → MethodFailingCandidate
method_failing key t = record { app = key.0; method = key.1; failures = t.failures }

unfoldable pub has_worked : List (Text × Bool) → Text → Bool
has_worked es app = or_false (lookup (λ j. text_eq j app) es)

unfoldable pub detect_method_failing : List AttemptRow → ℕ → List MethodFailingCandidate
detect_method_failing rows quorum =
    sort_by_subject (λ c. method_subject c.app c.method)
      (candidates (only_fails (has_worked (app_success rows)) quorum) method_failing
        (tally same_app_method app_method_of count_try no_tries rows []))

pub record FeedbackRow : Type 0 where
  pub action : Text
  pub succeeded : Bool
  pub resolved : Option Bool

abbrev pub service_fix_types : List Text
service_fix_types = codes "ServiceRestart" ∷ codes "ServiceStart" ∷ []

pub record FixIneffectiveCandidate : Type 0 where
  pub subject : Text
  pub occurrences : ℕ

-- Only a measured run of a service fix counts.
unfoldable pub fix_type_of : FeedbackRow → Option Text
fix_type_of r =
    if not r.succeeded
    then none
    else if not (member (action_type r.action) service_fix_types)
    then none
    else elim r.resolved [ none ↦ none | some _ ↦ some (action_type r.action) ]

unfoldable pub count_feedback : FeedbackRow → Tries → Tries
count_feedback r t = elim r.resolved [
  | none ↦ t
  | some true ↦ record t { successes = suc t.successes }
  | some false ↦ record t { failures = suc t.failures }
]

unfoldable pub never_helps : ℕ → Text → Tries → Bool
never_helps quorum kind t = t.successes == 0 && leb quorum t.failures

abbrev pub fix_ineffective_candidate : Text → Tries → FixIneffectiveCandidate
fix_ineffective_candidate kind t = record { subject = kind; occurrences = t.failures }

unfoldable pub detect_fix_ineffective : List FeedbackRow → ℕ → List FixIneffectiveCandidate
detect_fix_ineffective rows quorum =
    sort_by_subject (λ c. c.subject)
      (candidates (never_helps quorum) fix_ineffective_candidate
        (tally text_eq fix_type_of count_feedback no_tries rows []))

pub record RejectedCandidate : Type 0 where
  pub subject : Text
  pub rejections : ℕ

abbrev pub rejected_candidate : Text → ℕ → RejectedCandidate
rejected_candidate label n = record { subject = label; rejections = n }

-- A rejection row is its label.
unfoldable pub detect_rejected : List Text → ℕ → List RejectedCandidate
detect_rejected rows quorum =
    sort_by_subject (λ c. c.subject)
      (candidates (λ _ n. leb quorum n) rejected_candidate
        (tally text_eq some (λ _ n. suc n) 0 rows []))
