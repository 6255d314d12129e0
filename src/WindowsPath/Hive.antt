-- ===== src/WindowsPath/Hive.antt =====
-- A registry hive has one spelling after normalisation.
use eir.Prelude.{ℕ, ◌≡◌, refl, sym, ◌∙◌, ap, true, false, some, [], ◌∷◌, ◌++◌, reverse, arith}
use eir.Text.{
  Text, Unicode, codes, to_ascii_lower, eq_ignore_ascii_case, trim, split, trim_start,
  trim_start_matches, trim_end_matches, is_whitespace,
}
use eir.Text.Trim.{trim_end_matches-cons}
use eir.WindowsPath.{
  fold_alias, fold_hive, local_machine, hklm, push_comps, strip_verbatim, is_separator,
  normalize_path_lexical,
}

abbrev Visible : Text → Type 0
Visible [] = Unit {0}
Visible (c ∷ s) = (is_whitespace c ≡ false) × Visible s

is_whitespace-to_ascii_lower : (c : ℕ) → is_whitespace (to_ascii_lower c) ≡ is_whitespace c
unfolding is_whitespace to_ascii_lower
is_whitespace-to_ascii_lower c = ground arith

pub fold_alias_of_eq :
    (a from to s : Text)
    → eq_ignore_ascii_case a from ≡ true
    → fold_alias from to (a ++ s) ≡ some (to ++ s)
unfolding fold_alias eq_ignore_ascii_case
fold_alias_of_eq [] [] to s h = refl
fold_alias_of_eq [] (f ∷ from) to s h = cc
fold_alias_of_eq (c ∷ a) [] to s h = cc
fold_alias_of_eq (c ∷ a) (f ∷ from) to s h = ground (arith, fold_alias_of_eq a from to s)

Visible-of_eq : (a from : Text) → eq_ignore_ascii_case a from ≡ true → Visible from → Visible a
unfolding eq_ignore_ascii_case
Visible-of_eq [] from h v = tt
Visible-of_eq (c ∷ a) [] h v = cc
Visible-of_eq (c ∷ a) (f ∷ from) h (v, vs) = (
  ground (arith, is_whitespace-to_ascii_lower c, is_whitespace-to_ascii_lower f),
  Visible-of_eq a from (ground arith) vs,
)

-- Trimming leaves a visible text in front alone.
trim_start-append : (c : ℕ) (s : Text) → is_whitespace c ≡ false → trim_start (c ∷ s) ≡ c ∷ s
unfolding trim_start
trim_start-append c s h = rw (h, trim_start_matches)

trim_end_matches-append :
    (a s : Text)
    → Visible a
    → trim_end_matches is_whitespace (a ++ s) ≡ a ++ trim_end_matches is_whitespace s
trim_end_matches-append [] s v = refl
trim_end_matches-append (c ∷ a) s (v, vs) =
    rw (trim_end_matches-cons is_whitespace c (a ++ s) v, trim_end_matches-append a s vs)

trim-append :
    (c : ℕ) (a s : Text)
    → Visible (c ∷ a)
    → trim ((c ∷ a) ++ s) ≡ (c ∷ a) ++ trim_end_matches is_whitespace s
unfolding trim
trim-append c a s (v, vs) =
    rw (trim_start-append c (a ++ s) v) (trim_end_matches-append (c ∷ a) s (v, vs))

fold_hive_of_eq :
    (a s : Text) → eq_ignore_ascii_case a local_machine ≡ true → fold_hive (a ++ s) ≡ hklm ++ s
unfolding fold_hive
fold_hive_of_eq a s h = rw (fold_alias_of_eq a local_machine hklm s h, fold_hive)

fold_hive-hklm : (s : Text) → fold_hive (hklm ++ s) ≡ hklm ++ s
unfolding fold_hive fold_alias
fold_hive-hklm s = refl

Visible-local_machine : Visible local_machine
unfolding codes is_whitespace
Visible-local_machine = ground arith

Visible-hklm : Visible hklm
unfolding codes is_whitespace
Visible-hklm = ground arith

trim-hklm : (s : Text) → trim (hklm ++ s) ≡ hklm ++ trim_end_matches is_whitespace s
unfolding codes
trim-hklm s = trim-append b'H' (codes "KLM:") s Visible-hklm

one_spelling :
    (hive rest : Text)
    → eq_ignore_ascii_case hive local_machine ≡ true
    → fold_hive (trim (hive ++ rest)) ≡ fold_hive (trim (hklm ++ rest))
one_spelling [] rest h = unfold eq_ignore_ascii_case codes in cc
one_spelling (c ∷ hive) rest h =
    rw
      (
        trim-append c hive rest (Visible-of_eq (c ∷ hive) local_machine h Visible-local_machine),
        trim-hklm rest,
      )
      (fold_hive_of_eq (c ∷ hive) (trim_end_matches is_whitespace rest) h
        ∙ sym (fold_hive-hklm (trim_end_matches is_whitespace rest)))

module _ (u : Unicode) where
  -- `HKEY_LOCAL_MACHINE` in any case and `HKLM:` name one hive: whatever follows, the two
  -- spellings of a key have the same normal form.
  pub normalize_path_lexical-hive :
      (hive rest : Text)
      → eq_ignore_ascii_case hive local_machine ≡ true
      → normalize_path_lexical u (hive ++ rest) ≡ normalize_path_lexical u (hklm ++ rest)
  unfolding normalize_path_lexical
  normalize_path_lexical-hive hive rest h =
      ap (λ p. reverse (push_comps u [] (split is_separator (strip_verbatim p))))
        (one_spelling hive rest h)
