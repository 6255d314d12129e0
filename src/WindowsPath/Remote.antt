-- ===== src/WindowsPath/Remote.antt =====
-- eir-svc/src/policy/mod.rs, is_network_path: the paths that lead to another machine.
use eir.Prelude.{
  ◌≡◌, ◌↔◌, ◌⊎◌, inl, inr, refl, ap, ◌∙◌, ℕ, true, false, [], ◌∷◌, ◌++◌, all, arith, Bool-cases,
  ◌==◌, if◌then◌else◌,
}
use eir.Text.{
  Text, is_whitespace, trim_start, trim_start_matches, replace_char, starts_with, strip_prefix,
}
use eir.WindowsPath.{is_network_path, backslash, slash}

abbrev IsSlash : ℕ → Type 0
IsSlash c = (c ≡ backslash) ⊎ (c ≡ slash)

-- After white space it begins with two separators, in any mixture.
abbrev pub IsRemote : Text → Type 0
IsRemote path =
    (blank : Text) × (c : ℕ) × (d : ℕ) × (rest : Text) × (path ≡ blank ++ (c ∷ d ∷ rest))
    × (all is_whitespace blank ≡ true)
    × IsSlash c
    × IsSlash d

slash-visible : (c : ℕ) → IsSlash c → is_whitespace c ≡ false
unfolding is_whitespace
slash-visible c h = elim h [ inl e ↦ rw e refl | inr e ↦ rw e refl ]

from_replaced : (c : ℕ) → (if c == slash then backslash else c) ≡ backslash → IsSlash c
from_replaced c h = elim (Bool-cases (c == slash)) [
  | inl e ↦ inr (ground arith)
  | inr e ↦ inl (ground arith)
]

replaced : (c : ℕ) → IsSlash c → (if c == slash then backslash else c) ≡ backslash
replaced c h = elim h [ inl e ↦ ground arith | inr e ↦ ground arith ]

two_slashes :
    (c : ℕ) (s : Text)
    → starts_with (replace_char slash backslash (c ∷ s)) (backslash ∷ backslash ∷ []) ≡ true
    → (d : ℕ) × (rest : Text) × (s ≡ d ∷ rest) × IsSlash c × IsSlash d
unfolding replace_char starts_with strip_prefix
two_slashes c [] h = absurd (ground arith)
two_slashes c (d ∷ rest) h =
    (d, rest, refl, from_replaced c (ground arith), from_replaced d (ground arith))

is_network_path-to : (path : Text) → is_network_path path ≡ true → IsRemote path
unfolding is_network_path trim_start trim_start_matches all
is_network_path-to [] h = unfold replace_char starts_with strip_prefix in cc
is_network_path-to (c ∷ s) h = elim (Bool-cases (is_whitespace c)) [
  | inl e ↦
      let (blank, x, y, rest, f, w, i, j) = is_network_path-to s (rw e at h) in
      (c ∷ blank, x, y, rest, ap (λ t. c ∷ t) f, ground arith, i, j)
  | inr e ↦
      let (d, rest, f, i, j) = two_slashes c s (rw e at h) in
      ([], c, d, rest, ap (λ t. c ∷ t) f, refl, i, j)
]

is_network_path-of :
    (blank : Text) (c d : ℕ) (rest : Text)
    → all is_whitespace blank ≡ true
    → IsSlash c
    → IsSlash d
    → is_network_path (blank ++ (c ∷ d ∷ rest)) ≡ true
unfolding is_network_path trim_start trim_start_matches replace_char starts_with strip_prefix all
is_network_path-of [] c d rest w i j = rw (slash-visible c i) (rw (replaced c i, replaced d j) refl)
is_network_path-of (b ∷ blank) c d rest w i j =
    let x : is_whitespace b ≡ true = ground arith in
    rw x (is_network_path-of blank c d rest (ground arith) i j)

pub is_network_path_iff : (path : Text) → (is_network_path path ≡ true) ↔ IsRemote path
is_network_path_iff path = (
  is_network_path-to path,
  λ (blank, c, d, rest, e, w, i, j). ap is_network_path e ∙ is_network_path-of blank c d rest w i j,
)
