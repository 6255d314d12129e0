-- ===== src/Updater/Domain/Methods.antt =====
-- Lists of methods and of attempts: membership, and tests on all of them or all but the last.
use eir.Prelude.{
  ◌≡◌, refl, ◌⊎◌, Bool, true, ◌&&◌, List, [], ◌∷◌, ◌++◌, arith, any, all, filter, inr,
}
use eir.Updater.Domain.{Method, same_method, has_method}
use eir.Updater.Domain.Laws.{same_method_self}

unfoldable pub all_but_last {ℓ} : {A : Type ℓ} → (A → Bool) → List A → Bool
all_but_last p [] = true
all_but_last p (x ∷ []) = true
all_but_last p (x ∷ y ∷ ys) = p x && all_but_last p (y ∷ ys)

module _ {ℓ} {A : Type ℓ} (p : A → Bool) where
  pub all-append : (xs ys : List A) → all p xs ≡ true → all p ys ≡ true → all p (xs ++ ys) ≡ true
  unfolding all
  all-append [] ys h k = k
  all-append (x ∷ xs) ys h k = ground (arith, all-append xs ys)

  pub all_but_last_of_all : (xs : List A) → all p xs ≡ true → all_but_last p xs ≡ true
  unfolding all all_but_last
  all_but_last_of_all [] h = refl
  all_but_last_of_all (x ∷ []) h = refl
  all_but_last_of_all (x ∷ y ∷ ys) h = ground (arith, all_but_last_of_all (y ∷ ys))

  pub all_but_last-snoc :
      (xs : List A) (x : A) → all p xs ≡ true → all_but_last p (xs ++ (x ∷ [])) ≡ true
  unfolding all all_but_last
  all_but_last-snoc [] x h = refl
  all_but_last-snoc (y ∷ []) x h = ground arith
  all_but_last-snoc (y ∷ z ∷ ys) x h = ground (arith, all_but_last-snoc (z ∷ ys) x)

same_method-eq : (a b : Method) → same_method a b ≡ true → a ≡ b
unfolding same_method
same_method-eq a b h = ground arith

pub has_method-filter :
    (p : Method → Bool) (ms : List Method) (m : Method)
    → has_method (filter p ms) m ≡ true
    → (has_method ms m ≡ true) × (p m ≡ true)
unfolding has_method any filter
has_method-filter p [] m e = cc
has_method-filter p (x ∷ ms) m e = ground (arith, same_method-eq m x, has_method-filter p ms m)

pub has_method-append :
    (ms ns : List Method) (m : Method)
    → has_method (ms ++ ns) m ≡ true
    → (has_method ms m ≡ true) ⊎ (has_method ns m ≡ true)
unfolding has_method any
has_method-append [] ns m e = inr e
has_method-append (x ∷ ms) ns m e = ground (arith, has_method-append ms ns m)

pub has_method-head :
    (x : Method) (ms : List Method) (m : Method) → x ≡ m → has_method (x ∷ ms) m ≡ true
unfolding has_method any
has_method-head x ms m e = ground (arith, same_method_self m)

pub all-weaken :
    {A : Type 0} (p q : A → Bool) (xs : List A)
    → ((x : A) → p x ≡ true → q x ≡ true)
    → all p xs ≡ true
    → all q xs ≡ true
unfolding all
all-weaken p q [] f h = refl
all-weaken p q (x ∷ xs) f h = ground (arith, f x, all-weaken p q xs f)
