-- ===== src/Prelude/Search.antt =====
-- The iterator searches: any, all, find, position, filter.
use mathlib.Core.Path.{◌≡◌, refl}
use mathlib.Core.Bool.{Bool, true, false, ◌&&◌, ◌||◌}
use mathlib.Core.Logic.{◌↔◌, inl, inr}
use mathlib.Core.Option.{Option, none, some}
use mathlib.Core.List.{List, [], ◌∷◌, Memᴰ}
use native.Mathlib.Omega.{arith}
use Prim.Native.Nat.{◌≤◌}
use eir.Prelude.Lists.{length}
use eir.Prelude.Tests.{Bool-cases, if◌then◌else◌}

module _ {ℓ} {A : Type ℓ} where
  unfoldable pub any : (A → Bool) → List A → Bool
  any p [] = false
  any p (x ∷ xs) = p x || any p xs

  unfoldable pub all : (A → Bool) → List A → Bool
  all p [] = true
  all p (x ∷ xs) = p x && all p xs

  unfoldable pub find : (A → Bool) → List A → Option A
  find p [] = none
  find p (x ∷ xs) = if p x then some x else find p xs

  unfoldable pub filter : (A → Bool) → List A → List A
  filter p [] = []
  filter p (x ∷ xs) = let rest = filter p xs in if p x then x ∷ rest else rest

  -- A member that passes the test.
  abbrev pub Witness : (A → Bool) → List A → Type ℓ
  Witness p xs = (x : A) × Memᴰ x xs × (p x ≡ true)

  any-to : (p : A → Bool) (xs : List A) → any p xs ≡ true → Witness p xs
  unfolding any
  any-to p [] h = absurd (false_ne h)
    where
      false_ne : false ≡ true → ⊥
      false_ne e = cc
  any-to p (x ∷ xs) h = elim (Bool-cases (p x)) [
    | inl e ↦ (x, Memᴰ.head refl, e)
    | inr e ↦ let (y, m, w) = any-to p xs (rw e at h) in (y, Memᴰ.tail m, w)
  ]

  pub any_of_mem : (p : A → Bool) (xs : List A) {x : A} → Memᴰ x xs → p x ≡ true → any p xs ≡ true
  unfolding any
  any_of_mem p [] m w = elim m [ ]
  any_of_mem p (y ∷ xs) (Memᴰ.head e) w = rw (← e) (rw w)
  any_of_mem p (y ∷ xs) (Memᴰ.tail m) w = elim (Bool-cases (p y)) [
    | inl e ↦ rw e
    | inr e ↦ rw e (any_of_mem p xs m w)
  ]

  pub any_iff : (p : A → Bool) (xs : List A) → (any p xs ≡ true) ↔ Witness p xs
  any_iff p xs = (any-to p xs, λ w. any_of_mem p xs w.1 w.2)

  pub all_of_mem : (p : A → Bool) (xs : List A) {x : A} → Memᴰ x xs → all p xs ≡ true → p x ≡ true
  unfolding all
  all_of_mem p [] m h = elim m [ ]
  all_of_mem p (y ∷ xs) (Memᴰ.head e) h = rw e (ground arith)
  all_of_mem p (y ∷ xs) (Memᴰ.tail m) h = all_of_mem p xs m (ground arith)

  -- `find` returns a member that passes.
  pub find-some :
      (p : A → Bool) (xs : List A) {x : A} → find p xs ≡ some x → Memᴰ x xs × (p x ≡ true)
  unfolding find
  find-some p [] h = cc
  find-some p (y ∷ xs) h = elim (Bool-cases (p y)) [
    | inl e ↦ (Memᴰ.head (ground arith), ground arith)
    | inr e ↦ let (m, w) = find-some p xs (ground arith) in (Memᴰ.tail m, w)
  ]

  pub find-none_iff : (p : A → Bool) (xs : List A) → (find p xs ≡ none) ↔ (any p xs ≡ false)
  unfolding find any
  find-none_iff p [] = ground arith
  find-none_iff p (x ∷ xs) = ground (arith, find-none_iff p xs)

pub length-filter {ℓ} : {A : Type ℓ} (p : A → Bool) (xs : List A) → length (filter p xs) ≤ length xs
unfolding filter
length-filter p [] = omega arith
length-filter p (x ∷ xs) = ground (arith, length-filter p xs)

pub all-filter {ℓ} : {A : Type ℓ} (p : A → Bool) (xs : List A) → all p (filter p xs) ≡ true
unfolding all filter
all-filter p [] = refl
all-filter p (x ∷ xs) = ground (arith, all-filter p xs)
