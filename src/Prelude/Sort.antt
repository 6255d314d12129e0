-- ===== src/Prelude/Sort.antt =====
-- A stable sort by insertion: sort_by_key.
pub mod Perm
use mathlib.Core.Path.{◌≡◌, refl}
use mathlib.Core.Bool.{Bool, true, ◌&&◌}
use mathlib.Core.Logic.{◌⊎◌, inl, inr}
use mathlib.Core.List.{List, [], ◌∷◌}
use native.Mathlib.Omega.{arith}
use Prim.Native.Nat.{ℕ, zero, suc}
use eir.Prelude.Lists.{length, take, drop}
use eir.Prelude.Tests.{Bool-cases, if◌then◌else◌}
use eir.Prelude.Search.{all}

module _ {ℓ} {A : Type ℓ} (le : A → A → Bool) where
  unfoldable pub insert_by : A → List A → List A
  insert_by x [] = x ∷ []
  insert_by x (y ∷ ys) = let rest = insert_by x ys in if le x y then x ∷ y ∷ ys else y ∷ rest

  unfoldable pub sort_by : List A → List A
  sort_by [] = []
  sort_by (x ∷ xs) = insert_by x (sort_by xs)

  unfoldable pub is_sorted : List A → Bool
  is_sorted [] = true
  is_sorted (x ∷ xs) = all (le x) xs && is_sorted xs

  pub all-insert_by :
      (p : A → Bool) (x : A) (ys : List A)
      → p x ≡ true
      → all p ys ≡ true
      → all p (insert_by x ys) ≡ true
  unfolding all insert_by
  all-insert_by p x [] h k = ground arith
  all-insert_by p x (y ∷ ys) h k = ground (arith, all-insert_by p x ys)

  pub length-insert_by : (x : A) (ys : List A) → length (insert_by x ys) ≡ suc (length ys)
  unfolding insert_by
  length-insert_by x [] = refl
  length-insert_by x (y ∷ ys) = ground (arith, length-insert_by x ys)

  pub length-sort_by : (xs : List A) → length (sort_by xs) ≡ length xs
  unfolding sort_by
  length-sort_by [] = refl
  length-sort_by (x ∷ xs) = ground (arith, length-insert_by x (sort_by xs), length-sort_by xs)

  module _ (total : (a b : A) → (le a b ≡ true) ⊎ (le b a ≡ true))
      (le_trans : (a b c : A) → le a b ≡ true → le b c ≡ true → le a c ≡ true) where
    all-le : (x y : A) (ys : List A) → le x y ≡ true → all (le y) ys ≡ true → all (le x) ys ≡ true
    unfolding all
    all-le x y [] h k = refl
    all-le x y (z ∷ ys) h k = ground (arith, le_trans x y z, all-le x y ys)

    is_sorted-insert_by :
        (x : A) (ys : List A) → is_sorted ys ≡ true → is_sorted (insert_by x ys) ≡ true
    unfolding is_sorted insert_by all
    is_sorted-insert_by x [] h = refl
    is_sorted-insert_by x (y ∷ ys) h = elim (Bool-cases (le x y)) [
      | inl e ↦ rw e (rw e (ground (arith, all-le x y ys)))
      | inr e ↦
          rw e (ground (arith, total x y, all-insert_by (le y) x ys, is_sorted-insert_by x ys))
    ]

    pub is_sorted-sort_by : (xs : List A) → is_sorted (sort_by xs) ≡ true
    unfolding is_sorted sort_by
    is_sorted-sort_by [] = refl
    is_sorted-sort_by (x ∷ xs) = is_sorted-insert_by x (sort_by xs) (is_sorted-sort_by xs)

  all-drop : (p : A → Bool) (n : ℕ) (xs : List A) → all p xs ≡ true → all p (drop n xs) ≡ true
  unfolding all
  all-drop p zero xs h = h
  all-drop p (suc n) [] h = refl
  all-drop p (suc n) (x ∷ xs) h = all-drop p n xs (ground arith)

  -- What a prefix of a sorted list leaves is no smaller than anything in it.
  pub all-take :
      (n : ℕ) (xs : List A)
      → is_sorted xs ≡ true
      → all (λ a. all (le a) (drop n xs)) (take n xs) ≡ true
  unfolding all is_sorted
  all-take zero xs h = refl
  all-take (suc n) [] h = refl
  all-take (suc n) (x ∷ xs) h = ground (arith, all-drop (le x) n xs, all-take n xs)
