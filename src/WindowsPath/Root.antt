-- ===== src/WindowsPath/Root.antt =====
-- The root of a path stays: `..` never pops the drive.
use mathlib.Core.List.{reverse-cons}
use eir.Prelude.{◌≡◌, refl, false, Option, none, some, List, [], ◌∷◌, ◌++◌, reverse, arith}
use eir.Text.{Text, Unicode, text_eq, is_empty, split, trim}
use eir.WindowsPath.{
  pop_comp, push_comp, push_comps, normalize_path_lexical, is_separator, fold_hive, strip_verbatim,
}

-- The oldest component of a stack.
abbrev root : List Text → Option Text
root [] = none
root (c ∷ []) = some c
root (c ∷ d ∷ cs) = root (d ∷ cs)

abbrev pub head : List Text → Option Text
head [] = none
head (c ∷ cs) = some c

root-pop_comp : (cs : List Text) → root (pop_comp cs) ≡ root cs
unfolding pop_comp
root-pop_comp [] = refl
root-pop_comp (c ∷ []) = refl
root-pop_comp (c ∷ d ∷ cs) = refl

head-append : (xs ys : List Text) (d : Text) → head xs ≡ some d → head (xs ++ ys) ≡ some d
head-append [] ys d h = cc
head-append (x ∷ xs) ys d h = h

head-reverse : (cs : List Text) (d : Text) → root cs ≡ some d → head (reverse cs) ≡ some d
head-reverse [] d h = cc
head-reverse (c ∷ []) d h = h
head-reverse (c ∷ e ∷ cs) d h =
    rw (reverse-cons c (e ∷ cs))
      (head-append (reverse (e ∷ cs)) (c ∷ []) d (head-reverse (e ∷ cs) d h))

-- A part of a path that is a component of its own.
abbrev pub IsPlain : Text → Type 0
IsPlain raw =
    (is_empty raw ≡ false)
    × (text_eq raw (0x2e ∷ []) ≡ false)
    × (text_eq raw (0x2e ∷ 0x2e ∷ []) ≡ false)

module _ (u : Unicode) where
  root-push_comp :
      (cs : List Text) (raw d : Text) → root cs ≡ some d → root (push_comp u cs raw) ≡ some d
  unfolding push_comp
  root-push_comp [] raw d h = cc
  root-push_comp (c ∷ cs) raw d h = ground (arith, root-pop_comp (c ∷ cs))

  root-push_comps :
      (parts cs : List Text) (d : Text) → root cs ≡ some d → root (push_comps u cs parts) ≡ some d
  unfolding push_comps
  root-push_comps [] cs d h = h
  root-push_comps (raw ∷ parts) cs d h =
      root-push_comps parts (push_comp u cs raw) d (root-push_comp cs raw d h)

  root_of_IsPlain :
      (raw : Text) (parts : List Text)
      → IsPlain raw
      → root (push_comps u [] (raw ∷ parts)) ≡ some (u.to_lowercase raw)
  unfolding push_comps push_comp
  root_of_IsPlain raw parts (a, b, c) =
      root-push_comps parts (push_comp u [] raw) (u.to_lowercase raw) (ground arith)

  -- Whatever follows a plain first part, `..` included, the normalised path begins with that part,
  -- lowercased: no path climbs out of its drive.
  pub head-normalize_path_lexical :
      (path drive : Text) (parts : List Text)
      → split is_separator (strip_verbatim (fold_hive (trim path))) ≡ drive ∷ parts
      → IsPlain drive
      → head (normalize_path_lexical u path) ≡ some (u.to_lowercase drive)
  unfolding normalize_path_lexical
  head-normalize_path_lexical path drive parts e h =
      rw e (head-reverse (push_comps u [] (drive ∷ parts)) _ (root_of_IsPlain drive parts h))
