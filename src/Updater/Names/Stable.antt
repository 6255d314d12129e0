-- ===== src/Updater/Names/Stable.antt =====
-- The name of an application is the same for all its versions.
use mathlib.Core.List.{reverse-append, reverse-reverse}
use eir.Prelude.{
  ◌≡◌, refl, sym, ◌∙◌, ap, Bool, true, false, List, [], ◌∷◌, ◌++◌, reverse, all, arith, ◌⊎◌, inl,
  inr,
}
use eir.Text.{Text, Unicode, split_whitespace, is_whitespace}
use eir.Text.Trim.{trim_again, all-reverse}
use eir.Text.Words.{
  is_word, all-split_whitespace, split_whitespace-append, split_whitespace_of_word,
  split_whitespace-join, split_whitespace-trim,
}
use eir.Updater.Names.{
  Tail, version, qualifier, counter, lead_in, product, tail_of, strip_tail, strip_connectors,
  is_connector, is_version_token, name_of, clean_app_name, app_id,
}

-- The last word stays, and stays when it is looked at again.
abbrev Settled : List Text → Type 0
Settled [] = Unit {0}
Settled (w ∷ ws) = tail_of false w ws ≡ product

Tail-cases :
    (t : Tail)
    → (t ≡ version) ⊎ ((t ≡ qualifier) ⊎ ((t ≡ counter) ⊎ ((t ≡ lead_in) ⊎ (t ≡ product))))
Tail-cases version = inl refl
Tail-cases qualifier = inr (inl refl)
Tail-cases counter = inr (inr (inl refl))
Tail-cases lead_in = inr (inr (inr (inl refl)))
Tail-cases product = inr (inr (inr (inr refl)))

tail_of-false :
    (r : Bool) (w : Text) (ws : List Text) → tail_of r w ws ≡ product → tail_of false w ws ≡ product
unfolding tail_of
tail_of-false r w ws h = ground arith

is_connector-tail_of :
    (w : Text) (ws : List Text) → tail_of false w ws ≡ product → is_connector w ≡ false
unfolding tail_of
is_connector-tail_of w ws h = ground arith

strip_tail-Settled : (r : Bool) (ws : List Text) → Settled (strip_tail r ws)
unfolding strip_tail
strip_tail-Settled r [] = tt
strip_tail-Settled r (last ∷ []) = elim (Tail-cases (tail_of r last [])) [
  | inl e ↦ rw (e, strip_tail) tt
  | inr (inl e) ↦ rw (e, strip_tail) tt
  | inr (inr (inl e)) ↦ rw (e, strip_tail) tt
  | inr (inr (inr (inl e))) ↦ rw (e, strip_tail) tt
  | inr (inr (inr (inr e))) ↦ rw (e, strip_tail) (tail_of-false r last [] e)
]
strip_tail-Settled r (last ∷ keyword ∷ before) =
    elim (Tail-cases (tail_of r last (keyword ∷ before))) [
      | inl e ↦ rw (e, strip_tail) (strip_tail-Settled true (keyword ∷ before))
      | inr (inl e) ↦ rw (e, strip_tail) (strip_tail-Settled r (keyword ∷ before))
      | inr (inr (inl e)) ↦ rw (e, strip_tail) (strip_tail-Settled true before)
      | inr (inr (inr (inl e))) ↦ rw (e, strip_tail) (strip_tail-Settled r (keyword ∷ before))
      | inr (inr (inr (inr e))) ↦ rw (e, strip_tail) (tail_of-false r last (keyword ∷ before) e)
    ]

all-strip_tail :
    (p : Text → Bool) (r : Bool) (ws : List Text) → all p ws ≡ true → all p (strip_tail r ws) ≡ true
unfolding strip_tail all
all-strip_tail p r [] h = refl
all-strip_tail p r (last ∷ []) h = elim (Tail-cases (tail_of r last [])) [
  | inl e ↦ rw (e, strip_tail) refl
  | inr (inl e) ↦ rw (e, strip_tail) refl
  | inr (inr (inl e)) ↦ rw (e, strip_tail) refl
  | inr (inr (inr (inl e))) ↦ rw (e, strip_tail) refl
  | inr (inr (inr (inr e))) ↦ rw (e, strip_tail) h
]
all-strip_tail p r (last ∷ keyword ∷ before) h =
    elim (Tail-cases (tail_of r last (keyword ∷ before))) [
      | inl e ↦ rw (e, strip_tail) (all-strip_tail p true (keyword ∷ before) (ground arith))
      | inr (inl e) ↦ rw (e, strip_tail) (all-strip_tail p r (keyword ∷ before) (ground arith))
      | inr (inr (inl e)) ↦ rw (e, strip_tail) (all-strip_tail p true before (ground arith))
      | inr (inr (inr (inl e))) ↦
          rw (e, strip_tail) (all-strip_tail p r (keyword ∷ before) (ground arith))
      | inr (inr (inr (inr e))) ↦ rw (e, strip_tail) h
    ]

strip_tail-fixed : (ws : List Text) → Settled ws → strip_tail false ws ≡ ws
unfolding strip_tail
strip_tail-fixed [] h = refl
strip_tail-fixed (last ∷ []) h = rw (h, strip_tail) refl
strip_tail-fixed (last ∷ keyword ∷ before) h = rw (h, strip_tail) refl

strip_connectors-fixed : (ws : List Text) → Settled ws → strip_connectors ws ≡ ws
unfolding strip_connectors
strip_connectors-fixed [] h = refl
strip_connectors-fixed (w ∷ ws) h = rw (is_connector-tail_of w ws h) refl

-- The second loop finds nothing to do.
kept : Text → List Text
kept name = strip_tail false (reverse (split_whitespace name))

clean_app_name-kept : (name : Text) → clean_app_name name ≡ name_of name (kept name)
unfolding clean_app_name kept
clean_app_name-kept name = ap (name_of name) (
    strip_connectors-fixed (strip_tail false (reverse (split_whitespace name)))
      (strip_tail-Settled false (reverse (split_whitespace name))))

-- The words of a name made of settled words are those words.
kept-name_of :
    (name : Text) (ws : List Text)
    → Settled ws
    → all is_word ws ≡ true
    → ws ≡ kept name
    → kept (name_of name ws) ≡ ws
unfolding kept name_of
kept-name_of name [] s a e = rw (split_whitespace-trim name) (sym e)
kept-name_of name (w ∷ ws) s a e =
    rw
      (
        split_whitespace-join (reverse (w ∷ ws)) (all-reverse is_word (w ∷ ws) a),
        reverse-reverse (w ∷ ws),
      )
      (strip_tail-fixed (w ∷ ws) s)

name_of-name_of : (name : Text) (ws : List Text) → name_of (name_of name ws) ws ≡ name_of name ws
unfolding name_of
name_of-name_of name [] = trim_again name
name_of-name_of name (w ∷ ws) = refl

-- Cleaning a clean name changes nothing.
pub clean_app_name_again :
    (name : Text) → clean_app_name (clean_app_name name) ≡ clean_app_name name
unfolding kept
clean_app_name_again name =
    let k : kept (name_of name (kept name)) ≡ kept name =
      kept-name_of name (kept name) (strip_tail-Settled false (reverse (split_whitespace name)))
        (all-strip_tail is_word false (reverse (split_whitespace name))
          (all-reverse is_word (split_whitespace name) (all-split_whitespace name)))
        refl in
    ap clean_app_name (clean_app_name-kept name)
    ∙ clean_app_name-kept (name_of name (kept name))
    ∙ ap (name_of (name_of name (kept name))) k
    ∙ name_of-name_of name (kept name)
    ∙ sym (clean_app_name-kept name)

-- The key made from the cleaned name, which is what the model and the user see, is the key made from
-- the name as it was listed.
pub app_id-clean_app_name :
    (u : Unicode) (name : Text) → app_id u (clean_app_name name) ≡ app_id u name
unfolding app_id
app_id-clean_app_name u name = ap u.to_lowercase (clean_app_name_again name)

tail_of_version :
    (r : Bool) (v : Text) (ws : List Text) → is_version_token v ≡ true → tail_of r v ws ≡ version
unfolding tail_of
tail_of_version r v ws h = rw h refl

strip_tail_of_version :
    (v : Text) (ws : List Text)
    → is_version_token v ≡ true
    → strip_tail false (v ∷ ws) ≡ strip_tail true ws
unfolding strip_tail
strip_tail_of_version v [] h = rw (tail_of_version false v [] h, strip_tail) refl
strip_tail_of_version v (w ∷ ws) h = rw (tail_of_version false v (w ∷ ws) h, strip_tail) refl

kept-version :
    (name v w : Text) (ws : List Text)
    → is_word v ≡ true
    → is_version_token v ≡ true
    → strip_tail true (reverse (split_whitespace name)) ≡ w ∷ ws
    → kept (name ++ (0x20 ∷ v)) ≡ w ∷ ws
unfolding kept strip_tail is_whitespace
kept-version name v w ws word h e =
    let q : split_whitespace (name ++ (0x20 ∷ v)) ≡ split_whitespace name ++ (v ∷ []) =
      split_whitespace-append name 0x20 v refl
      ∙ ap (λ r. split_whitespace name ++ r) (split_whitespace_of_word v word) in
    ap (λ r. strip_tail false (reverse r)) q
    ∙ ap (strip_tail false) (reverse-append (split_whitespace name) (v ∷ []))
    ∙ strip_tail_of_version v (reverse (split_whitespace name)) h
    ∙ e

name_of_words :
    (name name' w : Text) (ws : List Text) → name_of name (w ∷ ws) ≡ name_of name' (w ∷ ws)
unfolding name_of
name_of_words name name' w ws = refl

-- A note on one version of an application is a note on all: a name that ends in a version keeps its
-- key under every other version, if some word stays without it.
pub app_id-version :
    (u : Unicode) (name v v' w : Text) (ws : List Text)
    → is_word v ≡ true
    → is_version_token v ≡ true
    → is_word v' ≡ true
    → is_version_token v' ≡ true
    → strip_tail true (reverse (split_whitespace name)) ≡ w ∷ ws
    → app_id u (name ++ (0x20 ∷ v)) ≡ app_id u (name ++ (0x20 ∷ v'))
unfolding app_id
app_id-version u name v v' w ws a h a' h' e =
    let cleaned : (x : Text)
        → is_word x ≡ true
        → is_version_token x ≡ true
        → clean_app_name (name ++ (0x20 ∷ x)) ≡ name_of [] (w ∷ ws) =
      λ x b k.
        clean_app_name-kept (name ++ (0x20 ∷ x))
        ∙ ap (name_of (name ++ (0x20 ∷ x))) (kept-version name x w ws b k e)
        ∙ name_of_words (name ++ (0x20 ∷ x)) [] w ws in
    ap u.to_lowercase (cleaned v a h ∙ sym (cleaned v' a' h'))
