-- ===== src/Prelude/Sort/Perm.antt =====
-- Sorting and cutting a list lose nothing and add nothing.
use mathlib.Core.Path.{◌≡◌, refl, ap, ◌∙◌}
use mathlib.Core.Bool.{Bool}
use mathlib.Core.Logic.{inl, inr}
use mathlib.Core.List.{List, [], ◌∷◌, ◌++◌, Permᴰ}
use mathlib.Core.List.Permᴰ
use Prim.Native.Nat.{ℕ, zero, suc}
use native.Mathlib.Omega.{arith}
use eir.Prelude.Lists.{length}
use eir.Prelude.Search.{all}
use eir.Prelude.Lists.{take, drop}
use eir.Prelude.Tests.{Bool-cases}
use eir.Prelude.Sort.{insert_by, sort_by}

pub take-drop {ℓ} : {A : Type ℓ} (n : ℕ) (xs : List A) → take n xs ++ drop n xs ≡ xs
take-drop zero xs = refl
take-drop (suc n) [] = refl
take-drop (suc n) (x ∷ xs) = ap (λ t. x ∷ t) (take-drop n xs)

module _ {ℓ} {A : Type ℓ} (le : A → A → Bool) where
  insert_by-perm : (x : A) (ys : List A) → Permᴰ (insert_by le x ys) (x ∷ ys)
  unfolding insert_by
  insert_by-perm x [] = Permᴰ.refl (x ∷ [])
  insert_by-perm x (y ∷ ys) = elim (Bool-cases (le x y)) [
    | inl e ↦ rw e (Permᴰ.refl (x ∷ y ∷ ys))
    | inr e ↦ rw e (Permᴰ.trans (Permᴰ.cons refl (insert_by-perm x ys)) (Permᴰ.swap refl refl))
  ]

  pub sort_by-perm : (xs : List A) → Permᴰ (sort_by le xs) xs
  unfolding sort_by
  sort_by-perm [] = Permᴰ.nil
  sort_by-perm (x ∷ xs) =
      Permᴰ.trans (insert_by-perm x (sort_by le xs)) (Permᴰ.cons refl (sort_by-perm xs))

module _ {ℓ} {A : Type ℓ} where
  pub length-perm : {xs ys : List A} → Permᴰ xs ys → length xs ≡ length ys
  length-perm Permᴰ.nil = refl
  length-perm (Permᴰ.cons e p) = ap suc (length-perm p)
  length-perm (Permᴰ.swap e f) = refl
  length-perm (Permᴰ.trans p q) = length-perm p ∙ length-perm q

  pub all-perm : (t : A → Bool) {xs ys : List A} → Permᴰ xs ys → all t xs ≡ all t ys
  unfolding all
  all-perm t Permᴰ.nil = refl
  all-perm t (Permᴰ.cons e p) = rw (e, all-perm t p) refl
  all-perm t (Permᴰ.swap e f) = ground (arith, ap t e, ap t f)
  all-perm t (Permᴰ.trans p q) = all-perm t p ∙ all-perm t q
