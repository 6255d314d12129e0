-- ===== src/Updater/Version/Newer.antt =====
-- The order of versions, and what it means for the offered updates.
use eir.Prelude.{
  ℕ, ◌≡◌, refl, Bool, true, false, ◌||◌, not, Option, none, some, List, [], ◌∷◌, arith, ap, if-elim,
  if◌then◌else◌,
}
use eir.Text.{Text, codes, text_eq, trim, is_empty, eq_ignore_ascii_case}
use eir.Text.Laws.{text_eq_sym}
use eir.Updater.Domain.{Verification, verified, mismatch, unverified}
use eir.Updater.Version.{
  Order, less, equal, greater, Semver, compare_padded, numeric_components, numeric_cmp, version_cmp,
  normalize_version, is_newer, is_marketing_truncation, classify_version,
}

unfoldable pub flip : Order → Order
flip less = greater
flip equal = equal
flip greater = less

unfoldable pub flip_option : Option Order → Option Order
flip_option none = none
flip_option (some o) = some (flip o)

-- The crate's order is the same from both sides.
abbrev pub IsAntisymmetric : Semver → Type 0
IsAntisymmetric sv = (x y : sv.Version) → sv.cmp y x ≡ flip (sv.cmp x y)

compare_padded-flip : (x y : List ℕ) → compare_padded y x ≡ flip (compare_padded x y)
unfolding compare_padded flip
compare_padded-flip [] [] = refl
compare_padded-flip [] (b ∷ y) = ground (arith, compare_padded-flip [] y)
compare_padded-flip (a ∷ x) [] = ground (arith, compare_padded-flip x [])
compare_padded-flip (a ∷ x) (b ∷ y) = ground (arith, compare_padded-flip x y)

-- The comparison of two values that may both be there, else a fallback.
abbrev both : {A : Type 0} → (A → A → Order) → Option Order → Option A → Option A → Option Order
both f d x y = elim x [ none ↦ d | some a ↦ elim y [ none ↦ d | some b ↦ some (f a b) ] ]

both-flip :
    {A : Type 0} (f : A → A → Order) (d e : Option Order) (x y : Option A)
    → ((a b : A) → f b a ≡ flip (f a b))
    → e ≡ flip_option d
    → both f e y x ≡ flip_option (both f d x y)
unfolding flip_option
both-flip f d e none none h k = k
both-flip f d e none (some b) h k = k
both-flip f d e (some a) none h k = k
both-flip f d e (some a) (some b) h k = ap some (h a b)

module _ (sv : Semver) (h : IsAntisymmetric sv) where
  numeric_cmp-flip : (a b : Text) → numeric_cmp sv b a ≡ flip_option (numeric_cmp sv a b)
  unfolding numeric_cmp flip_option
  numeric_cmp-flip a b =
      both-flip compare_padded none none (numeric_components a) (numeric_components b)
        compare_padded-flip refl

  version_cmp-flip : (a b : Text) → version_cmp sv b a ≡ flip_option (version_cmp sv a b)
  unfolding version_cmp
  version_cmp-flip a b =
      let a = normalize_version a in
      let b = normalize_version b in
      both-flip (λ x y. sv.cmp x y) (numeric_cmp sv a b) (numeric_cmp sv b a) (sv.parse a)
        (sv.parse b) h (numeric_cmp-flip a b)

  -- An update that was verified at the expected version is not offered again: the expected version
  -- is not newer than the one found, if semver's order is antisymmetric.
  pub is_newer-classify_version :
      (found expected : Text)
      → classify_version sv found expected ≡ verified
      → is_newer sv expected found ≡ false
  unfolding is_newer classify_version flip_option flip
  is_newer-classify_version found expected e =
      if-elim (λ (b : Bool). b ≡ false) (is_empty (trim expected)) _ _ (λ _. refl)
        λ _.
          if-elim (λ (b : Bool). b ≡ false) (is_marketing_truncation expected found) _ _ (λ _. refl)
            λ _.
              go (version_cmp sv found expected) (version_cmp sv expected found)
                (version_cmp-flip found expected) e
    where
      go :
          (o p : Option Order)
          → p ≡ flip_option o
          → (if is_empty (trim found) || eq_ignore_ascii_case found (codes "unknown")
              then unverified
              else elim o as (λ _. Verification) [
                | some less ↦ mismatch
                | some _ ↦ verified
                | none ↦
                    if text_eq (normalize_version found) (normalize_version expected)
                    then verified
                    else unverified
              ])
            ≡ verified
          → (elim p as (λ _. Bool) [
            | some greater ↦ true
            | some _ ↦ false
            | none ↦ not (text_eq (normalize_version expected) (normalize_version found))
          ])
            ≡ false
      go none p k e =
          rw k (ground (arith, text_eq_sym (normalize_version expected) (normalize_version found)))
      go (some less) p k e = ground arith
      go (some equal) p k e = rw k refl
      go (some greater) p k e = rw k refl
