-- ===== src/Updater/Cycle/Finished.antt =====
-- eir-svc/src/updater/orchestrator.rs, app_completed_cleanly: how the attempts for an application end.
use mathlib.Core.List.{Memᴰ}
use eir.Prelude.{
  ◌≡◌, ◌↔◌, ◌⊎◌, inl, inr, refl, sym, ap, subst, ◌∙◌, some_injective, true, false, none, some, List,
  [], ◌∷◌, ◌++◌, any, all, any_iff, arith, Bool-cases, Option-cases,
}
use eir.Updater.Cycle.{Attempted, last, is_category, succeeds, app_completed_cleanly}
use eir.Updater.Cycle.Outcome.{outcomes_of}
use eir.Updater.Domain.{AttemptOutcome, ErrorCategory, already_current, same_category}

pub false-true : false ≡ true → ⊥
false-true e = cc

pub none-some {ℓ} : {A : Type ℓ} {x : A} → none ≡ some x → ⊥
none-some e = cc

is_current : (c : ErrorCategory) → same_category c already_current ≡ true → c ≡ already_current
unfolding same_category
is_current already_current h = refl
is_current _ h = absurd (false-true h)

module _ {Cost : Type 0} where
  -- An attempt succeeded, or the last one found the application current.
  abbrev pub Finished : List (AttemptOutcome Cost) → Type 0
  Finished os =
      ((o : AttemptOutcome Cost) × Memᴰ o os × (o.success ≡ true))
      ⊎ ((o : AttemptOutcome Cost) × (front : List (AttemptOutcome Cost)) × (os ≡ front ++ (o ∷ []))
          × (o.category ≡ some already_current))

  last-to :
      (os : List (AttemptOutcome Cost)) {o : AttemptOutcome Cost}
      → last os ≡ some o
      → (front : List (AttemptOutcome Cost)) × (os ≡ front ++ (o ∷ []))
  unfolding last
  last-to [] e = absurd (none-some e)
  last-to (x ∷ []) e = ([], ap (λ t. t ∷ []) (some_injective e))
  last-to (x ∷ y ∷ ys) e = let (front, f) = last-to (y ∷ ys) e in (x ∷ front, ap (λ t. x ∷ t) f)

  last-of :
      (front : List (AttemptOutcome Cost)) (o : AttemptOutcome Cost)
      → last (front ++ (o ∷ [])) ≡ some o
  unfolding last
  last-of [] o = refl
  last-of (x ∷ []) o = refl
  last-of (x ∷ y ∷ front) o = last-of (y ∷ front) o

  is_category_iff :
      (o : AttemptOutcome Cost)
      → (is_category already_current o ≡ true) ↔ (o.category ≡ some already_current)
  unfolding is_category
  is_category_iff o = (
    λ h. elim (Option-cases o.category) [
      | inl e ↦ absurd (false-true (sym (rw e refl) ∙ h))
      | inr (c, e) ↦ e ∙ ap some (is_current c (sym (rw e refl) ∙ h))
    ],
    λ e. rw e refl,
  )

  app_completed_cleanly-Finished :
      (os : List (AttemptOutcome Cost)) → (app_completed_cleanly os ≡ true) ↔ Finished os
  unfolding app_completed_cleanly
  app_completed_cleanly-Finished os = (
    λ h. elim (Bool-cases (any succeeds os)) [
      | inl e ↦ inl ((any_iff succeeds os).0 e)
      | inr e ↦ elim (Option-cases (last os)) [
        | inl n ↦ absurd (false-true (sym (rw (e, n) refl) ∙ h))
        | inr (o, l) ↦
            let (front, f) = last-to os l in
            inr (o, front, f, (is_category_iff o).0 (sym (rw (e, l) refl) ∙ h))
      ]
    ],
    λ w. elim w [
      | inl x ↦ rw ((any_iff succeeds os).1 x) refl
      | inr (o, front, f, e) ↦
          let l : last os ≡ some o = ap last f ∙ last-of front o in
          rw (l, (is_category_iff o).1 e) (ground arith)
    ],
  )

  pub all-Finished :
      (rs : List (Attempted Cost))
      → (all app_completed_cleanly (outcomes_of rs) ≡ true)
        ↔ ((x : Attempted Cost) → Memᴰ x rs → Finished x.1)
  unfolding all
  all-Finished [] = (λ h x m. elim m [ ], λ f. refl)
  all-Finished ((c, os) ∷ rs) = (
    λ h x m. elim m [
      | Memᴰ.head e ↦
          subst (λ (x : Attempted Cost). Finished x.1) (sym e)
            ((app_completed_cleanly-Finished os).0 (ground arith))
      | Memᴰ.tail n ↦ (all-Finished rs).0 (ground arith) x n
    ],
    λ f.
        let head = (app_completed_cleanly-Finished os).1 (f (c, os) (Memᴰ.head refl)) in
        let rest = (all-Finished rs).1 (λ x m. f x (Memᴰ.tail m)) in ground arith,
  )
