-- ===== src/Learn.antt =====
-- eir-svc/src/learn: the facts learned about this machine, and what they take from the confidence
-- in a proposed action (apply.rs). The summaries for the prompt are not modelled.
pub mod Penalty
pub mod Detect
pub mod Store
pub mod Analyse
pub mod Tally
use eir.Prelude.{
  ◌*◌, ◌^◌, Bool, ◌&&◌, ◌||◌, not, Option, none, some, List, [], ◌∷◌, any, ◌==◌, if◌then◌else◌,
}
use eir.Prelude.Int.{pos}
use eir.Text.{Text, codes, text_eq, trim, is_empty}
use eir.Float.{F32, nan, fin, le_f32, lt_f32, is_finite, zero_f32}
use eir.Signals.LogMemory.{lookup}

-- 0.15 as an f32: 10066330 * 2 ^ -26
abbrev pub max_confidence_penalty : F32
max_confidence_penalty = fin (pos (10066330 * 2 ^ 123))

pub data LearnedFactKind : Type 0 where
  self_updater_suspected method_failing fix_ineffective rejected_signal : LearnedFactKind

unfoldable pub kind_from_token : Text → Option LearnedFactKind
kind_from_token s =
    if text_eq s (codes "self_updater_suspected")
    then some self_updater_suspected
    else if text_eq s (codes "method_failing")
    then some method_failing
    else if text_eq s (codes "fix_ineffective")
    then some fix_ineffective
    else if text_eq s (codes "rejected_signal")
    then some rejected_signal
    else none

pub data Effect : Type 0 where
  skip : Effect
  deprioritise_method : Text → Effect
  confidence_penalty : F32 → Effect

-- up to the first of ' ', '{' and '('
unfoldable pub before_mark : Text → Text
before_mark [] = []
before_mark (c ∷ s) =
    let rest = before_mark s in if c == 0x20 || (c == 0x7b || c == 0x28) then [] else c ∷ rest

unfoldable pub action_type : Text → Text
action_type label = trim (before_mark label)

abbrev pub security_action_types : List Text
security_action_types =
    codes "FirewallEnable" ∷ codes "DefenderSignatureUpdate" ∷ codes "DefenderRealtimeEnable" ∷ []

unfoldable pub is_security : Text → Bool
is_security subject = any (text_eq (action_type subject)) security_action_types

-- A map is its insertions, the latest first.
pub record LearnedFacts : Type 0 where
  pub method_deprioritised : List (Text × Text)
  pub penalty_by_type : List (Text × F32)
  pub penalty_by_subject : List (Text × F32)

abbrev pub no_facts : LearnedFacts
no_facts = record { method_deprioritised = []; penalty_by_type = []; penalty_by_subject = [] }

pub record FactRow : Type 0 where
  pub kind : Text
  pub subject : Text
  pub effect_json : Text

-- subject.split_once('\u{1f}'), the part before it
unfoldable pub before_separator : Text → Option Text
before_separator [] = none
before_separator (c ∷ s) =
    let rest = before_separator s in
    if c == 0x1f then some [] else elim rest [ none ↦ none | some t ↦ some (c ∷ t) ]

unfoldable pub learn_row :
    Text → Option LearnedFactKind → Option Effect → LearnedFacts → LearnedFacts
learn_row subject (some method_failing) (some (deprioritise_method method)) f =
    elim (before_separator subject) [
      | none ↦ f
      | some app ↦ record f { method_deprioritised = (app, method) ∷ f.method_deprioritised }
    ]
learn_row subject (some fix_ineffective) (some (confidence_penalty amount)) f =
    if not (is_security subject)
    then record f { penalty_by_type = (subject, amount) ∷ f.penalty_by_type }
    else f
learn_row subject (some rejected_signal) (some (confidence_penalty amount)) f =
    if not (is_security subject)
    then record f { penalty_by_subject = (subject, amount) ∷ f.penalty_by_subject }
    else f
learn_row subject _ _ f = f

-- `parse_effect` is serde_json::from_str; the rows are those in force.
unfoldable pub load_rows : (Text → Option Effect) → List FactRow → LearnedFacts → LearnedFacts
load_rows parse_effect [] f = f
load_rows parse_effect (r ∷ rs) f =
    load_rows parse_effect rs
      (learn_row r.subject (kind_from_token r.kind) (parse_effect r.effect_json) f)

unfoldable pub is_method_deprioritised : LearnedFacts → Text → Text → Bool
is_method_deprioritised f app_base method =
    any (λ e. text_eq e.0 app_base && text_eq e.1 method) f.method_deprioritised

-- f32::min: a NaN loses to the other argument.
unfoldable pub min_f32 : F32 → F32 → F32
min_f32 nan b = b
min_f32 a nan = a
min_f32 a b = if le_f32 a b then a else b

-- the closure `bounded`
unfoldable pub bounded : F32 → F32
bounded amount =
    if is_finite amount
    then (if lt_f32 amount zero_f32
        then zero_f32
        else if lt_f32 max_confidence_penalty amount
        then max_confidence_penalty
        else amount)
    else zero_f32

unfoldable pub or_zero : Option F32 → F32
or_zero none = zero_f32
or_zero (some amount) = amount

unfoldable pub subject_penalty : LearnedFacts → Text → Text → Option F32
subject_penalty f action_label action_key =
    elim (lookup (λ k. text_eq k action_label) f.penalty_by_subject) [
      | some amount ↦ some amount
      | none ↦
          if is_empty action_key
          then none
          else lookup (λ k. text_eq k action_key) f.penalty_by_subject
    ]

-- `plus` is the rounded addition of two f32.
unfoldable pub penalty : (F32 → F32 → F32) → LearnedFacts → Text → Text → F32
penalty plus f action_label action_key =
    if is_security action_label
    then zero_f32
    else (let by_type =
          or_zero (lookup (λ k. text_eq k (action_type action_label)) f.penalty_by_type) in
        let by_subject = or_zero (subject_penalty f action_label action_key) in
        min_f32 (plus (bounded by_type) (bounded by_subject)) max_confidence_penalty)
