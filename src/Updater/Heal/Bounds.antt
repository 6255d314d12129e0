-- ===== src/Updater/Heal/Bounds.antt =====
-- The attempts at one candidate end, within the cap.
use eir.Prelude.{
  ℕ, zero, suc, ◌+◌, ◌≤◌, ◌≡◌, refl, Bool, ◌||◌, Option, none, some, List, [], ◌∷◌, ◌++◌, length,
  length-append, arith, leb, if-elim,
}
use eir.Text.{Text, Unicode}
use eir.Updater.Domain.{Method, AttemptOutcome, Remedy}
use eir.Updater.Diagnose.{RawStep}
use eir.Updater.Heal.{
  World, heal_loop, heal, dispatch, decide_next, resume, charged, stops_healing, attempt_cap,
}

module _ (u : Unicode) {Cost : Type 0} (zero_cost : Cost) (add : Cost → Cost → Cost)
    (w : World Cost) (read : Text → Option RawStep) (ai : Bool) where
  abbrev Returns : ℕ → Option (List (AttemptOutcome Cost)) → Type 0
  Returns max o = (r : List (AttemptOutcome Cost)) × (o ≡ some r) × (length r ≤ max)

  loop-Returns :
      (fuel max : ℕ) (order : List Method) (attempts : List (AttemptOutcome Cost))
      (tried : List Method) (current : Option (Method × Option Remedy))
      → length attempts ≤ max
      → 1 ≤ max
      → max ≤ fuel + length attempts
      → 1 ≤ fuel
      → Returns max (heal_loop u zero_cost add w read ai fuel max order attempts tried current)
  unfolding heal_loop
  loop-Returns fuel max order attempts tried none a b f g = (attempts, refl, a)
  loop-Returns zero max order attempts tried (some (m, r)) a b f g = elim g [ ]
  loop-Returns (suc fuel) max order attempts tried (some (m, r)) a b f g =
      if-elim (Returns max) (leb max (length attempts)) _ _ (λ e. (attempts, refl, a))
        λ e.
          let o = dispatch u zero_cost add w read ai (length attempts) m r in
          let (next, cost) =
            decide_next u zero_cost add w read ai (length attempts) o (tried ++ (m ∷ [])) order in
          let c = charged u zero_cost add w read ai o cost in
          if-elim (Returns max)
            (o.success || stops_healing o.category || leb max (suc (length attempts))) _ _
            (λ d.
              let room : length attempts + 1 ≤ max = ground arith in
              (attempts ++ (o ∷ []), refl, omega (arith, room, length-append attempts (o ∷ []))))
            (λ d.
              let room : length attempts + 2 ≤ max = ground arith in
              loop-Returns fuel max order (attempts ++ (c ∷ [])) (tried ++ (m ∷ [])) (resume next)
                (omega (arith, room, length-append attempts (c ∷ []))) b
                (omega (arith, f, length-append attempts (c ∷ []))) (omega (arith, f, room)))

  -- The attempts end for every behaviour of the adapters, the process killer and the model, and
  -- there are no more of them than the configured cap, or one when the cap is 0.
  pub heal-returns :
      (max_attempts : ℕ) (last : Method → Bool) (methods available : List Method)
      → (r : List (AttemptOutcome Cost)) × (heal u zero_cost add w read ai max_attempts last methods
            available
          ≡ some r)
        × (length r ≤ attempt_cap max_attempts)
  unfolding heal
  heal-returns n last methods available =
      loop-Returns (attempt_cap n) (attempt_cap n) _ [] [] _ (omega arith) (one n) (omega arith)
        (one n)
    where
      one : (n : ℕ) → 1 ≤ attempt_cap n
      one zero = omega arith
      one (suc n) = omega arith
