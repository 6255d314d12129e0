-- ===== src/Updater/Version.antt =====
-- eir-svc/src/updater/version.rs: which version is newer. The semver crate is a parameter.
pub mod Newer
use eir.Prelude.{
  ℕ, suc, ◌+◌, ◌*◌, ◌-◌, ◌^◌, Bool, true, false, ◌||◌, not, Option, none, some, List, [], ◌∷◌, any,
  filter, length, drop, ltb, ◌==◌, if◌then◌else◌,
}
use eir.Text.{
  Text, codes, text_eq, trim, trim_start_matches, is_ascii_digit, is_empty, split,
  eq_ignore_ascii_case,
}
use eir.Updater.Domain.{Verification, verified, mismatch, unverified}

pub data Order : Type 0 where
  less equal greater : Order

-- semver::Version::parse, and the order of two parsed versions.
pub record Semver : Type 1 where
  pub Version : Type 0
  pub parse : Text → Option Version
  pub cmp : Version → Version → Order

unfoldable pub normalize_version : Text → Text
normalize_version v = trim (trim_start_matches (λ c. c == 0x76 || c == 0x56) (trim v))

abbrev dot : ℕ
dot = 0x2e

unfoldable pub numeric_head : Text → Text
numeric_head [] = []
numeric_head (c ∷ s) =
    let rest = numeric_head s in if is_ascii_digit c || c == dot then c ∷ rest else []

abbrev digits_value : ℕ → Text → ℕ
digits_value acc [] = acc
digits_value acc (c ∷ s) = digits_value (acc * 10 + (c - 0x30)) s

-- p.parse::<u64>() for a part of digits; it fails on overflow.
unfoldable pub parse_u64 : Text → Option ℕ
parse_u64 p = let n = digits_value 0 p in if ltb n (2 ^ 64) then some n else none

abbrev cons_option : Option ℕ → Option (List ℕ) → Option (List ℕ)
cons_option (some n) (some ns) = some (n ∷ ns)
cons_option _ _ = none

unfoldable pub parse_all : List Text → Option (List ℕ)
parse_all [] = some []
parse_all (p ∷ ps) = cons_option (parse_u64 p) (parse_all ps)

abbrev non_empty : Option (List ℕ) → Option (List ℕ)
non_empty (some []) = none
non_empty o = o

unfoldable pub numeric_components : Text → Option (List ℕ)
numeric_components s = non_empty (
    parse_all
      (filter (λ p. not (is_empty p)) (split (λ c. c == dot) (numeric_head (normalize_version s)))))

abbrev pub order_of : ℕ → ℕ → Order
order_of a b = if ltb a b then less else if ltb b a then greater else equal

abbrev pub then_order : Order → Order → Order
then_order equal o = o
then_order o _ = o

-- x.cmp(&y) after both are resized with zeros to the longer length
unfoldable pub compare_padded : List ℕ → List ℕ → Order
compare_padded [] [] = equal
compare_padded [] (b ∷ y) = then_order (order_of 0 b) (compare_padded [] y)
compare_padded (a ∷ x) [] = then_order (order_of a 0) (compare_padded x [])
compare_padded (a ∷ x) (b ∷ y) = then_order (order_of a b) (compare_padded x y)

-- The first component, `latest` extended with zeros, in which the two differ: its index, and
-- whether `latest` is greater there.
unfoldable pub divergence : ℕ → List ℕ → List ℕ → Option (ℕ × Bool)
divergence i l [] = none
divergence i [] (c ∷ cs) = if 0 == c then divergence (suc i) [] cs else some (i, false)
divergence i (a ∷ l) (c ∷ cs) = if a == c then divergence (suc i) l cs else some (i, ltb c a)

unfoldable pub truncated : List ℕ → List ℕ → Bool
unfolding divergence any
truncated l c = if ltb (length c) (length l + 2) then false else elim (divergence 0 l c) [
  | none ↦ false
  | some (index, latest_wins) ↦
      if not latest_wins || index == 0
      then false
      else any (λ part. not (part == 0)) (drop (length l) c)
]

unfoldable pub is_marketing_truncation : Text → Text → Bool
is_marketing_truncation latest current = elim (numeric_components latest) [
  | none ↦ false
  | some l ↦ elim (numeric_components current) [ none ↦ false | some c ↦ truncated l c ]
]

module _ (sv : Semver) where
  unfoldable pub numeric_cmp : Text → Text → Option Order
  numeric_cmp a b = elim (numeric_components a) [
    | none ↦ none
    | some x ↦ elim (numeric_components b) [ none ↦ none | some y ↦ some (compare_padded x y) ]
  ]

  unfoldable pub version_cmp : Text → Text → Option Order
  unfolding numeric_cmp
  version_cmp a b =
      let a = normalize_version a in
      let b = normalize_version b in
      elim (sv.parse a) [
        | none ↦ numeric_cmp a b
        | some x ↦ elim (sv.parse b) [ none ↦ numeric_cmp a b | some y ↦ some (sv.cmp x y) ]
      ]

  unfoldable pub is_newer : Text → Text → Bool
  is_newer latest current =
      if is_empty (trim latest)
      then false
      else if is_marketing_truncation latest current
      then false
      else elim (version_cmp latest current) [
        | some greater ↦ true
        | some _ ↦ false
        | none ↦ not (text_eq (normalize_version latest) (normalize_version current))
      ]

  unfoldable pub classify_version : Text → Text → Verification
  classify_version found expected =
      if is_empty (trim found) || eq_ignore_ascii_case found (codes "unknown")
      then unverified
      else elim (version_cmp found expected) [
        | some less ↦ mismatch
        | some _ ↦ verified
        | none ↦
            if text_eq (normalize_version found) (normalize_version expected)
            then verified
            else unverified
      ]
