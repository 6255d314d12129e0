-- ===== src/Text/Distinct.antt =====
-- Lists whose members a text tells apart.
use eir.Prelude.{
  ◌≡◌, refl, Bool, true, false, ◌&&◌, not, List, [], ◌∷◌, ◌++◌, map, any, all, arith, Bool-cases,
  sym, ◌∙◌, ap, inl, inr,
}
use eir.Text.{Text, member, text_eq}
use eir.Text.Laws.{text_eq_iff, text_eq_refl, text_eq_sym}
use eir.Text.Trim.{all-append}

unfoldable pub distinct : List Text → Bool
distinct [] = true
distinct (t ∷ ts) = not (member t ts) && distinct ts

true_ne_false : true ≡ false → ⊥
true_ne_false e = cc

member-append :
    (s : Text) (ts : List Text) (t : Text)
    → member s ts ≡ false
    → text_eq t s ≡ false
    → member s (ts ++ (t ∷ [])) ≡ false
unfolding member any
member-append s [] t h k = ground arith
member-append s (r ∷ ts) t h k = ground (arith, member-append s ts t)

distinct-append :
    (ts : List Text) (t : Text)
    → distinct ts ≡ true
    → member t ts ≡ false
    → distinct (ts ++ (t ∷ [])) ≡ true
unfolding distinct member any
distinct-append [] t h k = refl
distinct-append (s ∷ ts) t h k =
    ground (arith, distinct-append ts t, member-append s ts t, text_eq_sym s t)

pub member_head : (t : Text) (ts : List Text) → member t (t ∷ ts) ≡ true
unfolding member any
member_head t ts = ground (arith, text_eq_refl t)

module _ {A : Type 0} (g : A → Text) where
  pub map-append : (xs ys : List A) → map g (xs ++ ys) ≡ map g xs ++ map g ys
  map-append [] ys = refl
  map-append (x ∷ xs) ys = ap (λ r. g x ∷ r) (map-append xs ys)

  pub is_new :
      (t : Text) (seen : List Text) (xs : List A)
      → member t seen ≡ false
      → all (λ x. member (g x) seen) xs ≡ true
      → member t (map g xs) ≡ false
  unfolding member any all
  is_new t seen [] h k = refl
  is_new t seen (x ∷ xs) h k = elim (Bool-cases (text_eq (g x) t)) [
    | inl e ↦
        let m : member (g x) seen ≡ true = ground arith in
        let q : g x ≡ t = (text_eq_iff (g x) t).0 e in
        absurd (true_ne_false (sym m ∙ ap (λ r. member r seen) q ∙ h))
    | inr e ↦ ground (arith, is_new t seen xs)
  ]

  pub remembered_more :
      (t : Text) (seen : List Text) (xs : List A)
      → all (λ x. member (g x) seen) xs ≡ true
      → all (λ x. member (g x) (t ∷ seen)) xs ≡ true
  unfolding member any all
  remembered_more t seen [] h = refl
  remembered_more t seen (x ∷ xs) h = ground (arith, remembered_more t seen xs)

  -- The values of g tell the candidates apart, and each is remembered.
  abbrev pub IsFresh : List A → List Text → Type 0
  IsFresh xs seen = (distinct (map g xs) ≡ true) × (all (λ x. member (g x) seen) xs ≡ true)

  pub IsFresh-add :
      (xs : List A) (x : A) (seen seen' : List Text)
      → IsFresh xs seen
      → member (g x) seen ≡ false
      → all (λ y. member (g y) seen') xs ≡ true
      → member (g x) seen' ≡ true
      → IsFresh (xs ++ (x ∷ [])) seen'
  unfolding all
  IsFresh-add xs x seen seen' h n more new = (
    rw (map-append xs (x ∷ [])) (distinct-append (map g xs) (g x) h.0 (is_new (g x) seen xs n h.1)),
    all-append (λ y. member (g y) seen') xs (x ∷ []) more (ground arith),
  )
