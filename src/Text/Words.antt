-- ===== src/Text/Words.antt =====
-- The words of a text.
use mathlib.Core.List.{append-nil}
use eir.Prelude.{
  ◌≡◌, refl, sym, ◌∙◌, ap, ℕ, Bool, true, ◌&&◌, not, List, [], ◌∷◌, ◌++◌, any, all, filter, arith,
}
use eir.Text.{
  Text, split, split_whitespace, is_empty, is_whitespace, join, trim, trim_start, trim_end_matches,
}
use eir.Text.Split.{split-append, split_of_none, filter-append, all-split}
use eir.Text.Trim.{trim_start-gap, trim_end-gap}

abbrev pub is_word : Text → Bool
is_word w = not (is_empty w) && not (any is_whitespace w)

all-filled :
    (ts : List Text)
    → all (λ t. not (any is_whitespace t)) ts ≡ true
    → all is_word (filter (λ w. not (is_empty w)) ts) ≡ true
unfolding all filter
all-filled [] h = refl
all-filled (t ∷ ts) h = ground (arith, all-filled ts)

pub all-split_whitespace : (s : Text) → all is_word (split_whitespace s) ≡ true
unfolding split_whitespace
all-split_whitespace s = all-filled (split is_whitespace s) (all-split is_whitespace s)

pub split_whitespace-append :
    (s : Text) (c : ℕ) (t : Text)
    → is_whitespace c ≡ true
    → split_whitespace (s ++ (c ∷ t)) ≡ split_whitespace s ++ split_whitespace t
unfolding split_whitespace
split_whitespace-append s c t h =
    rw (split-append is_whitespace s c t h)
      (filter-append (λ w. not (is_empty w)) (split is_whitespace s) (split is_whitespace t))

pub split_whitespace_of_word : (w : Text) → is_word w ≡ true → split_whitespace w ≡ w ∷ []
unfolding split_whitespace filter is_empty
split_whitespace_of_word [] h = cc
split_whitespace_of_word (c ∷ w) h = rw (split_of_none is_whitespace (c ∷ w) (ground arith)) refl

pub split_whitespace-join :
    (ws : List Text) → all is_word ws ≡ true → split_whitespace (join (0x20 ∷ []) ws) ≡ ws
unfolding join all split_whitespace split filter is_empty is_whitespace
split_whitespace-join [] h = refl
split_whitespace-join (w ∷ []) h = split_whitespace_of_word w (ground arith)
split_whitespace-join (w ∷ v ∷ ws) h =
    split_whitespace-append w 0x20 (join (0x20 ∷ []) (v ∷ ws)) refl
    ∙ ap (λ r. r ++ split_whitespace (join (0x20 ∷ []) (v ∷ ws)))
        (split_whitespace_of_word w (ground arith))
    ∙ ap (λ r. w ∷ r) (split_whitespace-join (v ∷ ws) (ground arith))

split_whitespace_of_gap :
    (k t : Text) → all is_whitespace k ≡ true → split_whitespace (k ++ t) ≡ split_whitespace t
unfolding all split_whitespace split filter is_empty
split_whitespace_of_gap [] t h = refl
split_whitespace_of_gap (c ∷ k) t h = ground (arith, split_whitespace_of_gap k t)

split_whitespace-gap :
    (s k : Text) → all is_whitespace k ≡ true → split_whitespace (s ++ k) ≡ split_whitespace s
unfolding all split_whitespace split is_empty
split_whitespace-gap s [] h = rw (append-nil s) refl
split_whitespace-gap s (c ∷ k) h =
    split_whitespace-append s c k (ground arith)
    ∙ ap (λ r. split_whitespace s ++ r)
        (ap split_whitespace (sym (append-nil k)) ∙ split_whitespace_of_gap k [] (ground arith))
    ∙ append-nil (split_whitespace s)

-- Trimming keeps the words.
pub split_whitespace-trim : (s : Text) → split_whitespace (trim s) ≡ split_whitespace s
unfolding trim
split_whitespace-trim s =
    let (k, e, a) = trim_start-gap s in
    let (j, f, b) = trim_end-gap (trim_start s) in
    sym (split_whitespace-gap (trim_end_matches is_whitespace (trim_start s)) j b)
    ∙ ap split_whitespace (sym f)
    ∙ sym (split_whitespace_of_gap k (trim_start s) a)
    ∙ ap split_whitespace (sym e)
