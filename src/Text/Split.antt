-- ===== src/Text/Split.antt =====
-- Splitting a text at code points.
use eir.Prelude.{
  ◌≡◌, refl, ℕ, Bool, true, false, not, List, [], ◌∷◌, ◌++◌, any, all, filter, arith, ap,
  Bool-cases, inl, inr,
}
use eir.Text.{Text, split, prepend}

pub split-cons : (p : ℕ → Bool) (s : Text) → (t : Text) × (ts : List Text) × (split p s ≡ t ∷ ts)
unfolding split
split-cons p [] = ([], [], refl)
split-cons p (c ∷ s) = elim (Bool-cases (p c)) [
  | inl e ↦ ([], split p s, rw e refl)
  | inr e ↦ let (t, ts, k) = split-cons p s in (c ∷ t, ts, rw e (rw k refl))
]

pub split-append :
    (p : ℕ → Bool) (s : Text) (c : ℕ) (t : Text)
    → p c ≡ true
    → split p (s ++ (c ∷ t)) ≡ split p s ++ split p t
unfolding split
split-append p [] c t h = rw h refl
split-append p (x ∷ s) c t h = elim (Bool-cases (p x)) [
  | inl e ↦ rw e (ap (λ r. [] ∷ r) (split-append p s c t h))
  | inr e ↦ let (w, ws, k) = split-cons p s in rw e (rw (split-append p s c t h) (rw k refl))
]

pub filter-append :
    (p : Text → Bool) (xs ys : List Text) → filter p (xs ++ ys) ≡ filter p xs ++ filter p ys
unfolding filter
filter-append p [] ys = refl
filter-append p (x ∷ xs) ys = ground (arith, filter-append p xs ys)

pub split_of_none : (p : ℕ → Bool) (s : Text) → any p s ≡ false → split p s ≡ s ∷ []
unfolding split any
split_of_none p [] h = refl
split_of_none p (c ∷ s) h = ground (arith, split_of_none p s)

all-prepend :
    (p : ℕ → Bool) (c : ℕ) (ts : List Text)
    → p c ≡ false
    → all (λ t. not (any p t)) ts ≡ true
    → all (λ t. not (any p t)) (prepend c ts) ≡ true
unfolding any all
all-prepend p c [] h k = ground arith
all-prepend p c (t ∷ ts) h k = ground arith

-- No part has a code point that splits.
pub all-split : (p : ℕ → Bool) (s : Text) → all (λ t. not (any p t)) (split p s) ≡ true
unfolding split any all
all-split p [] = refl
all-split p (c ∷ s) = elim (Bool-cases (p c)) [
  | inl e ↦ rw e (all-split p s)
  | inr e ↦ rw e (all-prepend p c (split p s) e (all-split p s))
]
