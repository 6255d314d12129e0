-- ===== src/Updater/Names/Unique.antt =====
-- Which installed application a name means does not depend on the order of the map.
use mathlib.Core.List.{Permᴰ}
use mathlib.Core.List.Permᴰ
use eir.Prelude.{
  ◌≡◌, refl, sym, ◌∙◌, ap, suc, ◌≤◌, Bool, Option, none, some, List, [], ◌∷◌, filter, find, length,
  arith, Bool-cases, inl, inr, subst, if◌then◌else◌,
}
use eir.Text.{Text, Unicode}
use eir.Updater.Names.{
  only, has_id, is_related, match_related, match_installed_entry, app_id, name_tokens, no_tokens,
}

abbrev Entries : Type 0
Entries = List (Text × Text)

-- A map has each key once.
abbrev pub IsMap : Entries → Type 0
IsMap xs = (id : Text) → length (filter (has_id id) xs) ≤ 1

length-perm : {xs ys : Entries} → Permᴰ xs ys → length xs ≡ length ys
length-perm Permᴰ.nil = refl
length-perm (Permᴰ.cons e p) = ap suc (length-perm p)
length-perm (Permᴰ.swap e f) = refl
length-perm (Permᴰ.trans p q) = length-perm p ∙ length-perm q

filter_step : (Text × Text → Bool) → Text × Text → Entries → Entries
filter_step p x rest = if p x then x ∷ rest else rest

filter_step-perm :
    (p : Text × Text → Bool) (x : Text × Text) {xs ys : Entries}
    → Permᴰ xs ys
    → Permᴰ (filter_step p x xs) (filter_step p x ys)
unfolding filter_step
filter_step-perm p x r = elim (Bool-cases (p x)) [
  | inl e ↦ rw e (Permᴰ.cons refl r)
  | inr e ↦ rw e r
]

filter_step-swap :
    (p : Text × Text → Bool) (a b : Text × Text) (xs : Entries)
    → Permᴰ (filter_step p a (filter_step p b xs)) (filter_step p b (filter_step p a xs))
unfolding filter_step
filter_step-swap p a b xs = elim (Bool-cases (p a)) [
  | inl e ↦ elim (Bool-cases (p b)) [
    | inl f ↦ rw (e, f) (Permᴰ.swap refl refl)
    | inr f ↦ rw (e, f) (Permᴰ.refl (a ∷ xs))
  ]
  | inr e ↦ rw e (Permᴰ.refl (filter_step p b xs))
]

filter-perm :
    (p : Text × Text → Bool) {xs ys : Entries} → Permᴰ xs ys → Permᴰ (filter p xs) (filter p ys)
unfolding filter filter_step
filter-perm p Permᴰ.nil = Permᴰ.nil
filter-perm p (Permᴰ.cons {a} {b} {l₁ = xs} {l₂ = ys} e r) =
    subst (λ c. Permᴰ (filter p (a ∷ xs)) (filter p (c ∷ ys))) e
      (filter_step-perm p a (filter-perm p r))
filter-perm p (Permᴰ.swap {a} {b} {a'} {b'} {l} e f) =
    subst (λ c. Permᴰ (filter p (a ∷ b ∷ l)) (filter p (a' ∷ c ∷ l))) e
      (subst (λ c. Permᴰ (filter p (a ∷ b ∷ l)) (filter p (c ∷ a ∷ l))) f
        (filter_step-swap p a b (filter p l)))
filter-perm p (Permᴰ.trans q r) = Permᴰ.trans (filter-perm p q) (filter-perm p r)

only-cons :
    (a b : Text × Text) (xs ys : Entries)
    → a ≡ b
    → length xs ≡ length ys
    → only (a ∷ xs) ≡ only (b ∷ ys)
only-cons a b [] [] e h = ap some e
only-cons a b [] (y ∷ ys) e h = absurd (omega (arith, h))
only-cons a b (x ∷ xs) [] e h = absurd (omega (arith, h))
only-cons a b (x ∷ xs) (y ∷ ys) e h = refl

only-perm : {xs ys : Entries} → Permᴰ xs ys → only xs ≡ only ys
only-perm Permᴰ.nil = refl
only-perm (Permᴰ.cons {a} {b} {l₁ = xs} {l₂ = ys} e r) = only-cons a b xs ys e (length-perm r)
only-perm (Permᴰ.swap e f) = refl
only-perm (Permᴰ.trans q r) = only-perm q ∙ only-perm r

find-only :
    (p : Text × Text → Bool) (xs : Entries)
    → length (filter p xs) ≤ 1
    → find p xs ≡ only (filter p xs)
unfolding find filter
find-only p [] h = refl
find-only p (x ∷ xs) h = elim (Bool-cases (p x)) [
  | inl e ↦ rw e (only-cons x x [] (filter p xs) refl (ground arith))
  | inr e ↦ rw e (find-only p xs (ground arith))
]

abbrev match_found : List Text → Option (Text × Text) → Option (Text × Text)
match_found nt e = if no_tokens nt then none else e

abbrev exact_or : Option (Text × Text) → Option (Text × Text) → Option (Text × Text)
exact_or o r = elim o [ some e ↦ some e | none ↦ r ]

-- However the map lists its entries, a name means the same application, or none.
pub match_installed_entry-perm :
    (u : Unicode) (name : Text) {xs ys : List (Text × Text)}
    → Permᴰ xs ys
    → IsMap xs
    → IsMap ys
    → match_installed_entry u xs name ≡ match_installed_entry u ys name
unfolding match_installed_entry match_related
match_installed_entry-perm u name {xs} {ys} r hx hy =
    let key = has_id (app_id u name) in
    let nt = name_tokens (app_id u name) in
    let q : find key xs ≡ find key ys =
      find-only key xs (hx (app_id u name))
      ∙ only-perm (filter-perm key r)
      ∙ sym (find-only key ys (hy (app_id u name))) in
    let s : match_related nt xs ≡ match_related nt ys =
      ap (match_found nt) (only-perm (filter-perm (is_related nt) r)) in
    ap (λ o. exact_or o (match_related nt xs)) q ∙ ap (exact_or (find key ys)) s
