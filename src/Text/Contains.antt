-- ===== src/Text/Contains.antt =====
-- The texts that a text contains.
use mathlib.Core.List.{append-nil}
use eir.Prelude.{◌≡◌, refl, sym, ap, ◌∙◌, true, List, [], ◌∷◌, ◌++◌, all, arith}
use eir.Text.{Text, contains, starts_with, strip_prefix, is_empty, join}

starts_with-append : (p s : Text) → starts_with (p ++ s) p ≡ true
unfolding starts_with strip_prefix
starts_with-append [] s = refl
starts_with-append (c ∷ p) s = ground (arith, starts_with-append p s)

starts_with_part : (s p q : Text) → starts_with s (p ++ q) ≡ true → starts_with s p ≡ true
unfolding starts_with strip_prefix
starts_with_part s [] q h = refl
starts_with_part [] (c ∷ p) q h = cc
starts_with_part (d ∷ s) (c ∷ p) q h = ground (arith, starts_with_part s p q)

pub contains_start : (s p : Text) → starts_with s p ≡ true → contains s p ≡ true
unfolding contains starts_with strip_prefix is_empty
contains_start [] [] h = refl
contains_start [] (c ∷ p) h = cc
contains_start (d ∷ s) p h = ground arith

pub contains-append : (r s p : Text) → contains s p ≡ true → contains (r ++ s) p ≡ true
unfolding contains
contains-append [] s p h = h
contains-append (c ∷ r) s p h = ground (arith, contains-append r s p)

-- What contains a text contains its beginning.
pub contains_part : (s p q : Text) → contains s (p ++ q) ≡ true → contains s p ≡ true
unfolding contains is_empty
contains_part [] [] q h = refl
contains_part [] (c ∷ p) q h = cc
contains_part (d ∷ s) p q h = ground (arith, starts_with_part (d ∷ s) p q, contains_part s p q)

all-contains-append :
    (r s : Text) (ps : List Text) → all (contains s) ps ≡ true → all (contains (r ++ s)) ps ≡ true
unfolding all
all-contains-append r s [] h = refl
all-contains-append r s (p ∷ ps) h =
    ground (arith, contains-append r s p, all-contains-append r s ps)

contains_self : (s : Text) → contains s s ≡ true
contains_self s =
    contains_start s s (ap (λ t. starts_with t s) (sym (append-nil s)) ∙ starts_with-append s [])

-- A text that is joined from parts contains each of them.
pub contains-join : (sep : Text) (ws : List Text) → all (contains (join sep ws)) ws ≡ true
unfolding all join
contains-join sep [] = refl
contains-join sep (w ∷ []) = rw (contains_self w) refl
contains-join sep (w ∷ v ∷ ws) =
    let rest = join sep (v ∷ ws) in
    rw (contains_start (w ++ (sep ++ rest)) w (starts_with-append w (sep ++ rest))) (
      all-contains-append w (sep ++ rest) (v ∷ ws)
        (all-contains-append sep rest (v ∷ ws) (contains-join sep (v ∷ ws))))
