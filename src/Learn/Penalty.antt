-- ===== src/Learn/Penalty.antt =====
-- What learning may take from the confidence in an action.
use eir.Prelude.{
  ◌≡◌, refl, arith, true, Option, some, List, [], ◌∷◌, all, not, inl, inr, Option-cases, if-elim,
}
use eir.Text.{Text}
use eir.Float.{F32, nan, pos_inf, neg_inf, fin, le_f32, lt_f32, is_finite, zero_f32}
use eir.Learn.{
  LearnedFacts, penalty, bounded, min_f32, max_confidence_penalty, is_security, LearnedFactKind,
  method_failing, fix_ineffective, rejected_signal, Effect, deprioritise_method, confidence_penalty,
  FactRow, learn_row, load_rows, no_facts, before_separator,
}

bounded-nonneg : (a : F32) → le_f32 zero_f32 (bounded a) ≡ true
unfolding bounded is_finite lt_f32 le_f32
bounded-nonneg nan = refl
bounded-nonneg pos_inf = refl
bounded-nonneg neg_inf = refl
bounded-nonneg (fin a) = ground arith

min_f32-nonneg :
    (a : F32) → le_f32 zero_f32 a ≡ true → le_f32 zero_f32 (min_f32 a max_confidence_penalty) ≡ true
unfolding min_f32 le_f32
min_f32-nonneg nan h = refl
min_f32-nonneg pos_inf h = refl
min_f32-nonneg neg_inf h = h
min_f32-nonneg (fin a) h =
    if-elim (λ x. le_f32 zero_f32 x ≡ true) (le_f32 (fin a) max_confidence_penalty) (fin a)
      max_confidence_penalty (λ _. h) (λ _. refl)

min_f32-capped : (a : F32) → le_f32 (min_f32 a max_confidence_penalty) max_confidence_penalty ≡ true
unfolding min_f32 le_f32
min_f32-capped nan = refl
min_f32-capped pos_inf = refl
min_f32-capped neg_inf = refl
min_f32-capped (fin a) =
    if-elim (λ x. le_f32 x max_confidence_penalty ≡ true) (le_f32 (fin a) max_confidence_penalty)
      (fin a) max_confidence_penalty (λ e. e) (λ _. refl)

zero_bounds : (le_f32 zero_f32 zero_f32 ≡ true) × (le_f32 zero_f32 max_confidence_penalty ≡ true)
unfolding le_f32
zero_bounds = (refl, refl)

-- Whatever amounts the learned facts hold, NaN and infinities included, the penalty for an action
-- is at least 0 and at most 0.15, if the rounded sum of two numbers that are not negative is not
-- negative either.
pub penalty-bounded :
    (plus : F32 → F32 → F32)
    → ((a b : F32)
        → le_f32 zero_f32 a ≡ true
        → le_f32 zero_f32 b ≡ true
        → le_f32 zero_f32 (plus a b) ≡ true)
    → (f : LearnedFacts) (label key : Text)
    → (le_f32 zero_f32 (penalty plus f label key) ≡ true)
      × (le_f32 (penalty plus f label key) max_confidence_penalty ≡ true)
unfolding penalty
penalty-bounded plus nonneg f label key =
    if-elim (λ x. (le_f32 zero_f32 x ≡ true) × (le_f32 x max_confidence_penalty ≡ true))
      (is_security label) zero_f32 _ (λ _. zero_bounds)
      (λ _. (min_f32-nonneg _ (nonneg _ _ (bounded-nonneg _) (bounded-nonneg _)), min_f32-capped _))

-- No penalty that the facts hold is for a security action.
abbrev pub SparesSecurity : LearnedFacts → Type 0
SparesSecurity f =
    (all (λ e. not (is_security e.0)) f.penalty_by_type ≡ true)
    × (all (λ e. not (is_security e.0)) f.penalty_by_subject ≡ true)

learn_row-SparesSecurity :
    (subject : Text) (kind : Option LearnedFactKind) (effect : Option Effect) (f : LearnedFacts)
    → SparesSecurity f
    → SparesSecurity (learn_row subject kind effect f)
unfolding learn_row all
learn_row-SparesSecurity subject (some method_failing) (some (deprioritise_method m)) f h =
    elim (Option-cases (before_separator subject)) [
      | inl e ↦ rw (e, learn_row) h
      | inr (app, e) ↦ rw (e, learn_row) h
    ]
learn_row-SparesSecurity subject (some fix_ineffective) (some (confidence_penalty a)) f h =
    if-elim SparesSecurity (not (is_security subject)) _ f (λ e. (rw e h.0, h.1)) (λ _. h)
learn_row-SparesSecurity subject (some rejected_signal) (some (confidence_penalty a)) f h =
    if-elim SparesSecurity (not (is_security subject)) _ f (λ e. (h.0, rw e h.1)) (λ _. h)
learn_row-SparesSecurity subject _ _ f h = h

load_rows-keeps :
    (parse_effect : Text → Option Effect) (rows : List FactRow) (f : LearnedFacts)
    → SparesSecurity f
    → SparesSecurity (load_rows parse_effect rows f)
unfolding load_rows
load_rows-keeps parse_effect [] f h = h
load_rows-keeps parse_effect (r ∷ rows) f h =
    load_rows-keeps parse_effect rows _ (learn_row-SparesSecurity r.subject _ _ f h)

-- Whatever rows the store holds and however their effects are decoded, the loaded facts hold no
-- penalty for a security action, by type or by subject.
pub load_rows-SparesSecurity :
    (parse_effect : Text → Option Effect) (rows : List FactRow)
    → SparesSecurity (load_rows parse_effect rows no_facts)
unfolding all
load_rows-SparesSecurity parse_effect rows = load_rows-keeps parse_effect rows no_facts (refl, refl)
