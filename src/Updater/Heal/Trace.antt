-- ===== src/Updater/Heal/Trace.antt =====
-- Which attempts can follow which.
use eir.Prelude.{
  ℕ, zero, suc, ◌≡◌, refl, Bool, true, false, ◌&&◌, ◌||◌, not, Option, none, some, List, [], ◌∷◌,
  ◌++◌, length, subst, arith, leb, if-elim, all, filter, inl, inr,
}
use eir.Text.{Text, Unicode, codes}
use eir.Updater.Domain.{
  ErrorCategory, hash_mismatch, signature_rejected, already_current, needs_reboot, Method,
  has_method, AttemptOutcome, Remedy, force, kill_process, clear_manager_lock, retry_after_reboot,
  NextStep, switch_to, retry_with, stop, failed, lock_held, StepContext, winget, choco, scoop,
  ms_store, native,
}
use eir.Updater.Domain.Laws.{
  IsAllowed, validate_next_step-IsAllowed, deterministic_next-IsAllowed, first_untried-found,
}
use eir.Updater.Domain.Methods.{
  all_but_last, all-append, all_but_last_of_all, all_but_last-snoc, all-weaken, has_method-filter,
  has_method-append, has_method-head,
}
use eir.Updater.Diagnose.{RawStep, diagnose, step_context}
use eir.Updater.Heal.{
  World, heal_loop, heal, attempt, dispatch, next_method, decide_next, resume, charged,
  stops_healing, attempt_cap, first_step, heal_order, sort_by_flag,
}

-- A category after which another attempt may come.
unfoldable pub may_retry : Option ErrorCategory → Bool
may_retry (some hash_mismatch) = false
may_retry (some signature_rejected) = false
may_retry (some already_current) = false
may_retry (some needs_reboot) = false
may_retry _ = true

unfoldable pub continues : {Cost : Type 0} → AttemptOutcome Cost → Bool
continues o = not o.success && may_retry o.category

stops_healing-may_retry : (c : Option ErrorCategory) → stops_healing c ≡ false → may_retry c ≡ true
unfolding stops_healing may_retry
stops_healing-may_retry none h = refl
stops_healing-may_retry (some c) h = ground arith

unfoldable pub uses : {Cost : Type 0} → List Method → AttemptOutcome Cost → Bool
uses ms o = has_method ms o.method

-- Each adapter reports its own method.
abbrev pub IsHonest : {Cost : Type 0} → World Cost → Type 0
IsHonest w = (n : ℕ) (m : Method) (forcing : Bool) → (w.attempt n m forcing).method ≡ m

IsAllowed-resume :
    (u : Unicode) (ctx : StepContext) (next : NextStep) (m : Method) (r : Option Remedy)
    → IsAllowed u ctx next
    → resume next ≡ some (m, r)
    → has_method ctx.available m ≡ true
IsAllowed-resume u ctx (stop t) m r a e = cc
IsAllowed-resume u ctx (switch_to x) m r a e = ground arith
IsAllowed-resume u ctx (retry_with x force) m r a e = ground arith
IsAllowed-resume u ctx (retry_with x (kill_process t)) m r a e = ground arith
IsAllowed-resume u ctx (retry_with x clear_manager_lock) m r a e = ground arith
IsAllowed-resume u ctx (retry_with x retry_after_reboot) m r a e = cc

module _ (u : Unicode) {Cost : Type 0} (zero_cost : Cost) (add : Cost → Cost → Cost)
    (w : World Cost) (read : Text → Option RawStep) where
  attempt-method :
      (ai : Bool) (n : ℕ) (m : Method) (forcing : Bool)
      → IsHonest w
      → (attempt u zero_cost add w read ai n m forcing).method ≡ m
  unfolding attempt failed
  attempt-method ai n winget f h = h n winget f
  attempt-method ai n choco f h = h n choco f
  attempt-method ai n scoop f h = h n scoop false
  attempt-method ai n ms_store f h = h n ms_store false
  attempt-method true n native f h = h n native false
  attempt-method false n native f h = refl

  dispatch-method :
      (ai : Bool) (n : ℕ) (m : Method) (r : Option Remedy)
      → IsHonest w
      → (dispatch u zero_cost add w read ai n m r).method ≡ m
  unfolding dispatch failed
  dispatch-method ai n m none h = attempt-method ai n m _ h
  dispatch-method ai n m (some force) h = attempt-method ai n m _ h
  dispatch-method ai n m (some clear_manager_lock) h = attempt-method ai n m _ h
  dispatch-method ai n m (some retry_after_reboot) h = attempt-method ai n m _ h
  dispatch-method ai n m (some (kill_process t)) h = go (w.kill n t)
    where
      go :
          (o : Option Text)
          → (elim o as (λ _. AttemptOutcome Cost) [
            | some refused ↦ failed zero_cost m lock_held refused
            | none ↦ attempt u zero_cost add w read ai n m false
          ]).method
            ≡ m
      go none = attempt-method ai n m false h
      go (some t) = refl

  diagnose-IsAllowed :
      (reply : Option (Text × Option Cost)) (o : AttemptOutcome Cost) (tried order : List Method)
      → IsAllowed u (step_context o tried order) (diagnose u read zero_cost reply o tried order).0
  unfolding diagnose
  diagnose-IsAllowed none o tried order = deterministic_next-IsAllowed u _
  diagnose-IsAllowed (some (content, usage)) o tried order = validate_next_step-IsAllowed u _ _

  next_method-in_order :
      (order tried : List Method) (o : AttemptOutcome Cost) (m : Method)
      → next_method order tried o ≡ some m
      → has_method order m ≡ true
  unfolding next_method
  next_method-in_order order tried o m e =
      let (in_order, _) = first_untried-found order tried m (ground arith) in in_order

  decide_next-in_order :
      (ai : Bool) (n : ℕ) (o : AttemptOutcome Cost) (tried order : List Method) (m : Method)
      (r : Option Remedy)
      → resume (decide_next u zero_cost add w read ai n o tried order).0 ≡ some (m, r)
      → has_method order m ≡ true
  unfolding decide_next step_context
  decide_next-in_order true n o tried order m r e =
      IsAllowed-resume u (step_context o tried order) _ m r
        (diagnose-IsAllowed (w.complete n) o tried order) e
  decide_next-in_order false n o tried order m r e = go (next_method order tried o) refl e
    where
      go :
          (x : Option Method)
          → next_method order tried o ≡ x
          → resume
              (elim x as (λ _. NextStep × Cost) [
                | some m ↦ (switch_to m, zero_cost)
                | none ↦ (stop (codes "all available methods tried"), zero_cost)
              ]).0
            ≡ some (m, r)
          → has_method order m ≡ true
      go none f e = cc
      go (some x) f e = next_method-in_order order tried o m (ground arith)

module _ (u : Unicode) {Cost : Type 0} (zero_cost : Cost) (add : Cost → Cost → Cost)
    (w : World Cost) (read : Text → Option RawStep) (ai : Bool) (h : IsHonest w)
    (order : List Method) where
  abbrev Trace : List (AttemptOutcome Cost) → Type 0
  Trace r = (all (uses order) r ≡ true) × (all_but_last continues r ≡ true)

  abbrev Gives : Option (List (AttemptOutcome Cost)) → Type 0
  Gives none = Unit {0}
  Gives (some r) = Trace r

  Gives-snoc :
      (attempts : List (AttemptOutcome Cost)) (o : AttemptOutcome Cost)
      → all (uses order) attempts ≡ true
      → all continues attempts ≡ true
      → has_method order o.method ≡ true
      → Gives (some (attempts ++ (o ∷ [])))
  unfolding all uses
  Gives-snoc attempts o a c k = (
    all-append (uses order) attempts (o ∷ []) a (rw k refl),
    all_but_last-snoc continues attempts o c,
  )

  loop-Trace :
      (fuel max : ℕ) (attempts : List (AttemptOutcome Cost)) (tried : List Method)
      (current : Option (Method × Option Remedy))
      → all (uses order) attempts ≡ true
      → all continues attempts ≡ true
      → ((m : Method) (r : Option Remedy) → current ≡ some (m, r) → has_method order m ≡ true)
      → Gives (heal_loop u zero_cost add w read ai fuel max order attempts tried current)
  unfolding heal_loop all uses continues
  loop-Trace fuel max attempts tried none a c k = (a, all_but_last_of_all continues attempts c)
  loop-Trace zero max attempts tried (some (m, f)) a c k = tt
  loop-Trace (suc fuel) max attempts tried (some (m, f)) a c k =
      if-elim Gives (leb max (length attempts)) _ _
        (λ e. (a, all_but_last_of_all continues attempts c))
        λ e.
          let o = dispatch u zero_cost add w read ai (length attempts) m f in
          let (next, cost) =
            decide_next u zero_cost add w read ai (length attempts) o (tried ++ (m ∷ [])) order in
          let d = charged u zero_cost add w read ai o cost in
          let i : has_method order o.method ≡ true =
            rw (dispatch-method u zero_cost add w read ai (length attempts) m f h) (k m f refl) in
          if-elim Gives (o.success || stops_healing o.category || leb max (suc (length attempts))) _
            _ (λ e. Gives-snoc attempts o a c i)
            (λ e.
              loop-Trace fuel max (attempts ++ (d ∷ [])) (tried ++ (m ∷ [])) (resume next)
                (all-append (uses order) attempts (d ∷ []) a (rw i refl))
                (all-append continues attempts (d ∷ []) c
                  (ground (arith, stops_healing-may_retry o.category)))
                (decide_next-in_order u zero_cost add w read ai (length attempts) o
                  (tried ++ (m ∷ [])) order))

heal_order-has_method :
    (last : Method → Bool) (methods available : List Method) (m : Method)
    → has_method (heal_order last methods available) m ≡ true
    → (has_method methods m ≡ true) × (has_method available m ≡ true)
unfolding heal_order sort_by_flag
heal_order-has_method last methods available m e =
    let usable = filter (λ x. has_method available x) methods in
    has_method-filter (λ x. has_method available x) methods m
      (elim (has_method-append (filter (λ x. not (last x)) usable) (filter last usable) m e) [
        | inl k ↦ (has_method-filter (λ x. not (last x)) usable m k).0
        | inr k ↦ (has_method-filter last usable m k).0
      ])

module _ (u : Unicode) {Cost : Type 0} (zero_cost : Cost) (add : Cost → Cost → Cost)
    (w : World Cost) (read : Text → Option RawStep) (ai : Bool) where
  -- Whatever the model proposes, each attempt uses a method that the candidate lists and that this
  -- machine has, if the adapters report their own method; and an attempt follows only a failure
  -- that is no integrity failure, no pending reboot and not "already current".
  pub heal-Trace :
      (max_attempts : ℕ) (last : Method → Bool) (methods available : List Method)
      (r : List (AttemptOutcome Cost))
      → IsHonest w
      → heal u zero_cost add w read ai max_attempts last methods available ≡ some r
      → (all (uses methods) r ≡ true)
        × (all (uses available) r ≡ true)
        × (all_but_last continues r ≡ true)
  unfolding heal uses all
  heal-Trace n last methods available r h e =
      let order = heal_order last methods available in
      let (used, c) = subst (Gives u zero_cost add w read ai h order) e (
        loop-Trace u zero_cost add w read ai h order (attempt_cap n) (attempt_cap n) [] []
          (first_step order) refl refl (first_step-in_order order)) in
      (
        all-weaken (uses order) (uses methods) r
            (λ o k. (heal_order-has_method last methods available o.method k).0) used,
        all-weaken (uses order) (uses available) r
            (λ o k. (heal_order-has_method last methods available o.method k).1) used,
        c,
      )
    where
      first_step-in_order :
          (order : List Method) (m : Method) (f : Option Remedy)
          → first_step order ≡ some (m, f)
          → has_method order m ≡ true
      first_step-in_order [] m f k = cc
      first_step-in_order (x ∷ ms) m f k = has_method-head x ms m (ground arith)
