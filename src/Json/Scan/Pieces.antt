-- ===== src/Json/Scan/Pieces.antt =====
-- The candidates are parts of the text, in its order, and the loop ends.
use mathlib.Core.List.{append-nil}
use eir.Prelude.{
  ◌≡◌, ◌⊎◌, refl, sym, subst, ◌∙◌, ℕ, zero, suc, ◌<◌, none, some, List, [], ◌∷◌, ◌++◌, length,
  length-append, arith, ap, Bool-cases, Option-cases, inl, inr,
}
use eir.Text.{Text}
use eir.Json.Scan.{
  is_open, from_open, through_last, open_span, close_delimited, candidates_from, json_candidates,
  closer,
}
use eir.Json.Scan.Closed.{IsValue, close_delimited_iff}

-- The text in pieces: what lies between values holds no opener; a value that is never closed comes
-- last, as a part of what remains.
pub data Pieces : Text → List Text → Type 0 where
  no_more : (s : Text) → from_open s ≡ [] → Pieces s []
  value :
      (gap taken rest : Text) (cs : List Text)
      → IsValue taken
      → from_open gap ≡ []
      → Pieces rest cs
      → (s : Text) → s ≡ gap ++ (taken ++ rest)
      → Pieces s (taken ∷ cs)
  unclosed :
      (gap span rest : Text)
      → from_open gap ≡ []
      → close_delimited (span ++ rest) ≡ none
      → (s : Text) → s ≡ gap ++ (span ++ rest)
      → Pieces s (span ∷ [])

from_open-split : (s : Text) → (gap : Text) × (s ≡ gap ++ from_open s) × (from_open gap ≡ [])
unfolding from_open
from_open-split [] = ([], refl, refl)
from_open-split (c ∷ s) = elim (Bool-cases (is_open c)) [
  | inl e ↦ ([], rw e refl, refl)
  | inr e ↦ let (gap, p, q) = from_open-split s in (c ∷ gap, rw e (ap (λ x. c ∷ x) p), rw e q)
]

through_last-prefix :
    (c : ℕ) (s t : Text) → through_last c s ≡ some t → (rest : Text) × (s ≡ t ++ rest)
unfolding through_last
through_last-prefix c [] t h = absurd (ground arith)
through_last-prefix c (x ∷ s) t h = elim (Option-cases (through_last c s)) [
  | inl n ↦ (s, ground arith)
  | inr (u, e) ↦
      let (rest, p) = through_last-prefix c s u e in
      let a : t ≡ x ∷ u = ground arith in (rest, rw a (ap (λ y. x ∷ y) p))
]

open_span-prefix : (s : Text) → (rest : Text) × (s ≡ open_span s ++ rest)
unfolding open_span
open_span-prefix [] = ([], refl)
open_span-prefix (c ∷ s) = elim (Option-cases (through_last (closer c) s)) [
  | inl n ↦ ([], rw (n, open_span) (sym (append-nil (c ∷ s))))
  | inr (t, e) ↦
      let (rest, p) = through_last-prefix (closer c) s t e in
      (rest, rw (e, open_span) (ap (λ x. c ∷ x) p))
]

Text-cases : (s : Text) → (s ≡ []) ⊎ ((c : ℕ) × (t : Text) × (s ≡ c ∷ t))
Text-cases [] = inl refl
Text-cases (c ∷ t) = inr (c, t, refl)

value_pos : (taken : Text) → IsValue taken → 0 < length taken
value_pos [] v = absurd v
value_pos (c ∷ t) v = omega arith

module _ (fuel : ℕ) (s : Text) (c : ℕ) (t : Text) where
  last_one :
      from_open s ≡ c ∷ t
      → close_delimited (c ∷ t) ≡ none
      → candidates_from (suc fuel) s ≡ open_span (c ∷ t) ∷ []
  unfolding candidates_from
  last_one e n = ground arith

  next_one :
      (taken rest : Text)
      → from_open s ≡ c ∷ t
      → close_delimited (c ∷ t) ≡ some (taken, rest)
      → candidates_from (suc fuel) s ≡ taken ∷ candidates_from fuel rest
  unfolding candidates_from
  next_one taken rest e f = ground arith

candidates_from-Pieces : (fuel : ℕ) (s : Text) → length s < fuel → Pieces s (candidates_from fuel s)
unfolding candidates_from
candidates_from-Pieces zero s h = absurd (omega arith)
candidates_from-Pieces (suc fuel) s h =
    let (gap, p, q) = from_open-split s in
    elim (Text-cases (from_open s)) [
      | inl e ↦ rw (e, candidates_from) (no_more s e)
      | inr (c, t, e) ↦ elim (Option-cases (close_delimited (c ∷ t))) [
        | inl n ↦
            let (rest, k) = open_span-prefix (c ∷ t) in
            subst (Pieces s) (sym (last_one fuel s c t e n)) (
              unclosed gap (open_span (c ∷ t)) rest q (subst (λ x. close_delimited x ≡ none) k n) s
                (p ∙ (ap (λ x. gap ++ x) e ∙ ap (λ x. gap ++ x) k)))
        | inr ((taken, rest), f) ↦
            let (k, v) = (close_delimited_iff (c ∷ t) taken rest).0 f in
            let m : s ≡ gap ++ (taken ++ rest) =
              p ∙ (ap (λ x. gap ++ x) e ∙ ap (λ x. gap ++ x) k) in
            subst (Pieces s) (sym (next_one fuel s c t taken rest e f)) (
              value gap taken rest (candidates_from fuel rest) v q
                (candidates_from-Pieces fuel rest (
                  omega (
                    arith,
                    h,
                    value_pos taken v,
                    ap length m,
                    length-append gap (taken ++ rest),
                    length-append taken rest,
                  )))
                s m)
      ]
    ]

-- The candidates are the values of the text in their order, with at most one at the end that is
-- never closed: nothing between them starts a value, and no part of the text is taken twice.
pub json_candidates-Pieces : (s : Text) → Pieces s (json_candidates s)
unfolding json_candidates
json_candidates-Pieces s = candidates_from-Pieces (suc (length s)) s (omega arith)
