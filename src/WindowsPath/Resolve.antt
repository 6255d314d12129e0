-- ===== src/WindowsPath/Resolve.antt =====
-- eir-svc/src/policy/mod.rs, normalize_path_lexical: the components of a path resolved from its end,
-- where each `..` takes the next component to its left that is not taken, but for the root.
use mathlib.Core.List.{reverse-cons, append_assoc, append-nil}
use eir.Prelude.{
  ◌≡◌, refl, sym, ap, ◌∙◌, ℕ, zero, suc, Bool, true, false, ◌||◌, List, [], ◌∷◌, ◌++◌, reverse, map,
  drop, Bool-cases, inl, inr, if◌then◌else◌,
}
use eir.Text.{Text, Unicode, text_eq, is_empty}
use eir.WindowsPath.{pop_comp, push_comp, push_comps}

-- What says nothing of the place: the empty part and `.`.
abbrev is_blank : Text → Bool
is_blank p = is_empty p || text_eq p (0x2e ∷ [])

abbrev is_up : Text → Bool
is_up p = text_eq p (0x2e ∷ 0x2e ∷ [])

abbrev keep : Text → ℕ × List Text → ℕ × List Text
keep p (zero, ps) = (zero, p ∷ ps)
keep p (suc n, ps) = (n, ps)

-- The `..` that found nothing to take, and the parts that no `..` takes.
abbrev settle : List Text → ℕ × List Text
settle [] = (zero, [])
settle (p ∷ ps) =
    let rest = settle ps in
    if is_blank p then rest else if is_up p then (suc rest.0, rest.1) else keep p rest

-- The root is the first part that is neither blank nor `..`; no `..` takes it.
abbrev pub resolve : Unicode → List Text → List Text
resolve u [] = []
resolve u (p ∷ ps) =
    let rest = resolve u ps in
    if is_blank p || is_up p then rest else map u.to_lowercase (p ∷ (settle ps).1)

abbrev onto : List Text → List Text → List Text
onto [] ys = ys
onto (x ∷ xs) ys = onto xs (x ∷ ys)

reverse-onto : (xs ys : List Text) → reverse (onto xs ys) ≡ reverse ys ++ xs
reverse-onto [] ys = sym (append-nil (reverse ys))
reverse-onto (x ∷ xs) ys =
    reverse-onto xs (x ∷ ys)
    ∙ ap (λ t. t ++ xs) (reverse-cons x ys)
    ∙ append_assoc (reverse ys) (x ∷ []) xs

drop-one : (n : ℕ) (ks : List Text) → drop n (drop 1 ks) ≡ drop (suc n) ks
drop-one zero [] = refl
drop-one (suc n) [] = refl
drop-one n (k ∷ ks) = refl

pop-root : (ks : List Text) (root : Text) → pop_comp (ks ++ (root ∷ [])) ≡ drop 1 ks ++ (root ∷ [])
unfolding pop_comp
pop-root [] root = refl
pop-root (k ∷ []) root = refl
pop-root (k ∷ l ∷ ks) root = refl

module _ (u : Unicode) where
  push_comp_blank : (st : List Text) (p : Text) → is_blank p ≡ true → push_comp u st p ≡ st
  unfolding push_comp
  push_comp_blank st p e = rw e refl

  push_comp_up :
      (st : List Text) (p : Text)
      → is_blank p ≡ false
      → is_up p ≡ true
      → push_comp u st p ≡ pop_comp st
  unfolding push_comp
  push_comp_up st p e f = rw (e, f) refl

  push_comp_plain :
      (st : List Text) (p : Text)
      → is_blank p ≡ false
      → is_up p ≡ false
      → push_comp u st p ≡ u.to_lowercase p ∷ st
  unfolding push_comp
  push_comp_plain st p e f = rw (e, f) refl

  onto-keep :
      (p : Text) (r : ℕ × List Text) (ks : List Text) (root : Text)
      → onto (map u.to_lowercase r.1) (drop r.0 (u.to_lowercase p ∷ ks) ++ (root ∷ []))
        ≡ onto (map u.to_lowercase (keep p r).1) (drop (keep p r).0 ks ++ (root ∷ []))
  onto-keep p (zero, ps) ks root = refl
  onto-keep p (suc n, ps) ks root = refl

  -- On a stack above a root, the parts leave the settled ones on what their `..` do not take.
  push_comps-settle :
      (ps ks : List Text) (root : Text)
      → push_comps u (ks ++ (root ∷ [])) ps
        ≡ onto (map u.to_lowercase (settle ps).1) (drop (settle ps).0 ks ++ (root ∷ []))
  unfolding push_comps
  push_comps-settle [] ks root = refl
  push_comps-settle (p ∷ ps) ks root = elim (Bool-cases (is_blank p)) [
    | inl e ↦ rw (push_comp_blank (ks ++ (root ∷ [])) p e, e) (push_comps-settle ps ks root)
    | inr e ↦ elim (Bool-cases (is_up p)) [
      | inl f ↦
          rw
            (
              push_comp_up (ks ++ (root ∷ [])) p e f,
              pop-root ks root,
              e,
              f,
              ← drop-one (settle ps).0 ks,
            )
            (push_comps-settle ps (drop 1 ks) root)
      | inr f ↦
          rw (push_comp_plain (ks ++ (root ∷ [])) p e f, e, f)
            (push_comps-settle ps (u.to_lowercase p ∷ ks) root ∙ onto-keep p (settle ps) ks root)
    ]
  ]

  drop-nil : (n : ℕ) → drop {A = Text} n [] ≡ []
  drop-nil zero = refl
  drop-nil (suc n) = refl

  -- The loop over the parts leaves the resolved components.
  pub push_comps-resolve : (ps : List Text) → reverse (push_comps u [] ps) ≡ resolve u ps
  unfolding push_comps pop_comp
  push_comps-resolve [] = refl
  push_comps-resolve (p ∷ ps) = elim (Bool-cases (is_blank p)) [
    | inl e ↦ rw (push_comp_blank [] p e, e) (push_comps-resolve ps)
    | inr e ↦ elim (Bool-cases (is_up p)) [
      | inl f ↦ rw (push_comp_up [] p e f, e, f) (push_comps-resolve ps)
      | inr f ↦
          rw
            (
              push_comp_plain [] p e f,
              push_comps-settle ps [] (u.to_lowercase p),
              drop-nil (settle ps).0,
              e,
              f,
            )
            (reverse-onto (map u.to_lowercase (settle ps).1) (u.to_lowercase p ∷ []))
    ]
  ]
