-- ===== src/Text/Trim.antt =====
-- Trimming a text.
use mathlib.Core.List.{reverse-append, reverse-cons, reverse-reverse}
use eir.Prelude.{
  ◌≡◌, refl, sym, ◌∙◌, ap, ℕ, Bool, true, false, List, [], ◌∷◌, ◌++◌, reverse, all, arith,
  Bool-cases, inl, inr,
}
use eir.Text.{Text, trim_start_matches, trim_end_matches, trim_start, trim, is_whitespace}

trim_matches-append :
    (p : ℕ → Bool) (s t : Text) (c : ℕ)
    → p c ≡ false
    → trim_start_matches p (s ++ c ∷ t) ≡ trim_start_matches p s ++ c ∷ t
unfolding trim_start_matches
trim_matches-append p [] t c h = rw h
trim_matches-append p (d ∷ s) t c h = elim (Bool-cases (p d)) [
  | inl e ↦ rw (e, trim_start_matches) (trim_matches-append p s t c h)
  | inr e ↦ rw (e, trim_start_matches)
]

pub trim_end_matches-cons :
    (p : ℕ → Bool) (c : ℕ) (s : Text)
    → p c ≡ false
    → trim_end_matches p (c ∷ s) ≡ c ∷ trim_end_matches p s
unfolding trim_end_matches
trim_end_matches-cons p c s h =
    rw (reverse-cons c s, trim_matches-append p (reverse s) [] c h)
      (reverse-append (trim_start_matches p (reverse s)) (c ∷ []))

-- Trimming twice is trimming once.
trim_start_matches_again :
    (p : ℕ → Bool) (s : Text)
    → trim_start_matches p (trim_start_matches p s) ≡ trim_start_matches p s
unfolding trim_start_matches
trim_start_matches_again p [] = refl
trim_start_matches_again p (c ∷ s) = elim (Bool-cases (p c)) [
  | inl e ↦ rw e (trim_start_matches_again p s)
  | inr e ↦ rw (e, trim_start_matches) (rw e refl)
]

trim_end_matches_again :
    (p : ℕ → Bool) (s : Text) → trim_end_matches p (trim_end_matches p s) ≡ trim_end_matches p s
unfolding trim_end_matches
trim_end_matches_again p s =
    rw (reverse-reverse (trim_start_matches p (reverse s)), trim_start_matches_again p (reverse s))
      refl

-- What trimming leaves in front is a text that begins with no such code point.
trim_of_start :
    (p : ℕ → Bool) (s : Text)
    → trim_start_matches p (trim_end_matches p (trim_start_matches p s))
      ≡ trim_end_matches p (trim_start_matches p s)
unfolding trim_start_matches trim_end_matches
trim_of_start p [] = refl
trim_of_start p (c ∷ s) = elim (Bool-cases (p c)) [
  | inl e ↦ rw e (trim_of_start p s)
  | inr e ↦ rw e (rw (trim_end_matches-cons p c s e) (rw e refl))
]

pub trim_again : (s : Text) → trim (trim s) ≡ trim s
unfolding trim trim_start
trim_again s =
    rw (trim_of_start is_whitespace s)
      (trim_end_matches_again is_whitespace (trim_start_matches is_whitespace s))

-- What is trimmed at the end is made of such code points.
trim_start_matches-gap :
    (p : ℕ → Bool) (s : Text) → (k : Text) × (s ≡ k ++ trim_start_matches p s) × (all p k ≡ true)
unfolding trim_start_matches all
trim_start_matches-gap p [] = ([], refl, refl)
trim_start_matches-gap p (c ∷ s) = elim (Bool-cases (p c)) [
  | inl e ↦ let (k, q, a) = trim_start_matches-gap p s in (c ∷ k, rw e (ap (λ r. c ∷ r) q), rw e a)
  | inr e ↦ ([], rw e refl, refl)
]

pub all-append {ℓ} :
    {A : Type ℓ} (p : A → Bool) (xs ys : List A)
    → all p xs ≡ true
    → all p ys ≡ true
    → all p (xs ++ ys) ≡ true
unfolding all
all-append p [] ys h k = k
all-append p (x ∷ xs) ys h k = ground (arith, all-append p xs ys)

pub all-reverse {ℓ} :
    {A : Type ℓ} (p : A → Bool) (xs : List A) → all p xs ≡ true → all p (reverse xs) ≡ true
unfolding all
all-reverse p [] h = refl
all-reverse p (x ∷ xs) h =
    rw (reverse-cons x xs)
      (all-append p (reverse xs) (x ∷ []) (all-reverse p xs (ground arith)) (ground arith))

pub trim_start-gap :
    (s : Text) → (k : Text) × (s ≡ k ++ trim_start s) × (all is_whitespace k ≡ true)
unfolding trim_start
trim_start-gap s = trim_start_matches-gap is_whitespace s

pub trim_end_matches-gap :
    (p : ℕ → Bool) (s : Text) → (k : Text) × (s ≡ trim_end_matches p s ++ k) × (all p k ≡ true)
unfolding trim_end_matches
trim_end_matches-gap p s =
    let (k, e, a) = trim_start_matches-gap p (reverse s) in
    (
      reverse k,
      sym (reverse-reverse s) ∙ ap reverse e ∙ reverse-append k (trim_start_matches p (reverse s)),
      all-reverse p k a,
    )

pub trim_end-gap :
    (s : Text)
    → (k : Text) × (s ≡ trim_end_matches is_whitespace s ++ k) × (all is_whitespace k ≡ true)
trim_end-gap s = trim_end_matches-gap is_whitespace s
