-- ===== src/WindowsPath/Laws.antt =====
-- What `is_within` decides.
use eir.Prelude.{◌≡◌, refl, ◌≢◌, true, List, [], ◌∷◌, ◌++◌, arith, ◌↔◌}
use eir.Text.{Text, Unicode}
use eir.Text.Laws.{text_eq_iff}
use eir.WindowsPath.{has_prefix, within_comps, is_within, normalize_path_lexical}

-- `anc` is an initial segment of `cand`.
abbrev pub IsPrefixOf : List Text → List Text → Type 0
IsPrefixOf anc cand = (rest : List Text) × (cand ≡ anc ++ rest)

has_prefix-to : (cand anc : List Text) → has_prefix cand anc ≡ true → IsPrefixOf anc cand
unfolding has_prefix
has_prefix-to cand [] h = (cand, refl)
has_prefix-to [] (a ∷ anc) h = cc
has_prefix-to (c ∷ cand) (a ∷ anc) h =
    let (rest, e) = has_prefix-to cand anc (ground arith) in (rest, ground (arith, text_eq_iff c a))

has_prefix-append : (anc rest : List Text) → has_prefix (anc ++ rest) anc ≡ true
unfolding has_prefix
has_prefix-append [] rest = refl
has_prefix-append (a ∷ anc) rest = ground (arith, text_eq_iff a a, has_prefix-append anc rest)

within_comps_iff :
    (cand anc : List Text) → (within_comps cand anc ≡ true) ↔ ((anc ≢ []) × IsPrefixOf anc cand)
unfolding within_comps
within_comps_iff cand [] = (λ h. cc, λ p. absurd (p.0 refl))
within_comps_iff cand (a ∷ anc) = (
  λ h. (λ e. cc, has_prefix-to cand (a ∷ anc) h),
  λ p. rw p.1.1 (has_prefix-append (a ∷ anc) p.1.0),
)

module _ (u : Unicode) where
  -- `is_within path ancestor` holds exactly when the ancestor has components and they are the first
  -- components of the path, both normalised.
  pub is_within_iff :
      (path ancestor : Text)
      → (is_within u path ancestor ≡ true) ↔ (
          (normalize_path_lexical u ancestor ≢ [])
          × IsPrefixOf (normalize_path_lexical u ancestor) (normalize_path_lexical u path))
  unfolding is_within
  is_within_iff path ancestor = within_comps_iff _ _
