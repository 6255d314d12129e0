-- ===== src/Updater/Selection/Complete.antt =====
-- eir-svc/src/updater/orchestrator.rs: when a cycle has an attempt for every candidate.
use eir.Prelude.{
  ◌≡◌, ◌↔◌, refl, sym, ap, ◌∙◌, ℕ, ◌≤◌, Bool, true, false, ◌&&◌, Option, none, some, List, [], ◌∷◌,
  ◌++◌, map, all, length, length-append, arith, is_none,
}
use eir.Prelude.Int.{ℤ}
use eir.Prelude.Sort.Perm.{length-perm, all-perm}
use eir.Text.{Text}
use eir.Updater.Backoff.{Pause}
use eir.Updater.Selection.{Selected}
use eir.Updater.Selection.Fairness.{IsFair, is_unpaused}
use eir.Updater.Domain.{UpdateCandidate}

all-append {ℓ} :
    {A : Type ℓ} (t : A → Bool) (xs ys : List A) → all t (xs ++ ys) ≡ all t xs && all t ys
unfolding all
all-append t [] ys = refl
all-append t (x ∷ xs) ys = ground (arith, all-append t xs ys)

true_head {ℓ} : {A : Type ℓ} (o : Option A) (a : A) (b : Bool) → o ≡ some a → is_none o && b ≡ false
true_head o a b e = rw e refl

first : List (Option Pause) → Option Pause
first [] = none
first (x ∷ _) = x

module _ (pauses : Text → Option Pause) where
  -- A paused application carries the pause in force for it.
  nothing_paused :
      (ps : List (UpdateCandidate × Pause))
      → map (λ (e : UpdateCandidate × Pause). pauses e.0.id) ps
        ≡ map (λ (e : UpdateCandidate × Pause). some e.1) ps
      → all (is_unpaused pauses) (map (λ e. e.0) ps) ≡ true
      → ps ≡ []
  unfolding all first
  nothing_paused [] e h = refl
  nothing_paused ((c, p) ∷ ps) e h =
      absurd (ground (arith, true_head (pauses c.id) p _ (ap first e)))

  module _ (last : Text → Option ℤ) (cap : ℕ) (candidates : List UpdateCandidate)
      (s : Selected) where
    pub complete_iff :
        IsFair pauses last cap candidates s
        → ((s.deferred ≡ 0) × (s.paused ≡ []))
          ↔ ((all (is_unpaused pauses) candidates ≡ true) × (length candidates ≤ cap))
    unfolding all
    complete_iff (left, d, perm, room, carried, unpaused, _) =
        let tests =
          sym (all-append (is_unpaused pauses) (s.attempted ++ left) (map (λ e. e.0) s.paused))
          ∙ all-perm (is_unpaused pauses) perm in
        let sizes =
          sym (length-append (s.attempted ++ left) (map (λ e. e.0) s.paused)) ∙ length-perm perm in
        let both = length-append s.attempted left in
        (
          λ (e, f).
              let nobody = ap (λ ps. all (is_unpaused pauses) (map (λ e. e.0) ps)) f in
              let none_left = ap (λ ps. length (map (λ (e : UpdateCandidate × Pause). e.0) ps)) f in
              (ground arith, omega arith),
          λ (a, l). (omega arith, nothing_paused s.paused carried (ground arith)),
        )

    pub complete-attempted :
        IsFair pauses last cap candidates s
        → s.deferred ≡ 0
        → s.paused ≡ []
        → length s.attempted ≡ length candidates
    complete-attempted (left, d, perm, room, carried, unpaused, _) e f =
        let sizes =
          sym (length-append (s.attempted ++ left) (map (λ e. e.0) s.paused)) ∙ length-perm perm in
        let both = length-append s.attempted left in
        let none_left = ap (λ ps. length (map (λ (e : UpdateCandidate × Pause). e.0) ps)) f in
        omega arith
