-- ===== src/Updater/Rows.antt =====
-- eir-svc/src/updater/orchestrator.rs: the rows that the interface shows of a cycle.
pub mod States
use eir.Prelude.{
  Bool, true, false, ◌&&◌, ◌==◌, Option, none, some, List, [], ◌∷◌, map, find, if◌then◌else◌,
}
use eir.Prelude.Int.{ℤ, pos_part, neg_part}
use eir.Text.{Text, codes}
use eir.Updater.Config.{UpdaterConfig}
use eir.Updater.Cycle.{succeeds, CycleSummary, Attempted, last, is_category}
use eir.Updater.Domain.{
  as_str, already_current, Verification, verified, AttemptOutcome, UpdateCandidate,
}
use eir.Updater.Notes.{note_of}

pub record UpdaterAppRow : Type 0 where
  pub id : Text
  pub name : Text
  pub from : Text
  pub to : Text
  pub method : Text
  pub state : Text
  pub detail : Text
  pub signature : Text
  pub ignored : Bool
  pub note : Text

-- unwrap_or_default
abbrev or_empty : Option Text → Text
or_empty none = []
or_empty (some t) = t

abbrev or_text : Option Text → Text → Text
or_text none t = t
or_text (some s) t = s

-- filter(|version| !version.is_empty())
abbrev filled : Option Text → Option Text
filled (some []) = none
filled o = o

abbrev pub is_zero : ℤ → Bool
is_zero i = pos_part i == 0 && neg_part i == 0

abbrev pub is_verified : Verification → Bool
is_verified verified = true
is_verified _ = false

unfoldable pub warning_row : Text → UpdaterAppRow
warning_row detail = record {
  id = codes "update-check";
  name = codes "Update check";
  from = [];
  to = [];
  method = [];
  state = codes "failed";
  detail = detail;
  signature = [];
  ignored = false;
  note = [];
}

abbrev pub warn_when : Bool → List UpdaterAppRow → List UpdaterAppRow
warn_when true [] = warning_row (codes "Check finished with warnings; review the notes below.") ∷ []
warn_when _ rows = rows

module _ {Cost : Type 0} where
  abbrev pub or_last :
      Option (AttemptOutcome Cost) → List (AttemptOutcome Cost) → Option (AttemptOutcome Cost)
  or_last (some o) os = some o
  or_last none os = last os

  -- The winning attempt: the first success, or the last attempt.
  unfoldable pub winner : List (AttemptOutcome Cost) → Option (AttemptOutcome Cost)
  unfolding find last
  winner outcomes = or_last (find succeeds outcomes) outcomes

  unfoldable pub row_state : AttemptOutcome Cost → Text
  unfolding is_category
  row_state o =
      if is_category already_current o
      then codes "current"
      else if o.success
      then (if is_verified o.verification then codes "verified" else codes "installed")
      else codes "failed"

  unfoldable pub row_from : AttemptOutcome Cost → UpdateCandidate → Text
  unfolding is_category
  row_from o cand =
      if is_category already_current o
      then or_text (filled o.installed_version) cand.current
      else cand.current

  unfoldable pub row_to : AttemptOutcome Cost → UpdateCandidate → Text
  unfolding is_category row_from
  row_to o cand =
      if is_category already_current o
      then row_from o cand
      else or_text o.installed_version cand.available

  unfoldable pub row_of :
      UpdaterConfig → UpdateCandidate → Option (AttemptOutcome Cost) → UpdaterAppRow
  unfolding row_state row_to
  row_of config cand none = record {
    id = cand.id;
    name = cand.name;
    from = cand.current;
    to = [];
    method = [];
    state = codes "skipped";
    detail = codes "no available method";
    signature = [];
    ignored = false;
    note = or_empty (note_of cand.id config.notes);
  }
  row_of config cand (some o) = record {
    id = cand.id;
    name = cand.name;
    from = row_from o cand;
    to = row_to o cand;
    method = as_str o.method;
    state = row_state o;
    detail = o.detail;
    signature = or_empty o.signature;
    ignored = false;
    note = or_empty (note_of cand.id config.notes);
  }

  unfoldable pub app_rows : CycleSummary Cost → UpdaterConfig → List UpdaterAppRow
  unfolding winner row_of warning_row
  app_rows summary config =
      warn_when (is_zero summary.clean_at)
        (map (λ (r : Attempted Cost). row_of config r.0 (winner r.1)) summary.results)
