-- ===== src/Updater/Retry/Learned.antt =====
-- What a retry learns: only the guidance that a success has proved.
use eir.Prelude.{
  ◌≡◌, refl, sym, ap, subst, ◌∙◌, Bool, true, false, ◌||◌, Option, none, some, some_injective, List,
  [], ◌∷◌, any, arith, Option-cases, ◌⊎◌, inl, inr,
}
use eir.Text.{Text, Unicode}
use eir.Updater.Backoff.{Pause}
use eir.Updater.Cycle.{succeeds, CycleSummary}
use eir.Updater.Cycle.Outcome.{heal_one-returns}
use eir.Updater.Diagnose.{RawStep}
use eir.Updater.Domain.{UpdateCandidate, AttemptOutcome}
use eir.Updater.Guidance.Urls.{IsFaithful, concise_guidance-IsFaithful, original-IsFaithful}
use eir.Updater.Retried.{
  RetryInput, Retried, ModelReply, mark_success, explain_last, refine_guidance,
}
use eir.Updater.Retry.Target.{IsTargeted, found-candidate, run_retry-IsTargeted}
use eir.Updater.Retry.{
  retry_check, retry_first, retry_surroundings, retry_methods, found, guided, missing, summarize,
  summarize_all, explained_outcomes, run_retry, ai,
}

any-mark_success :
    {Cost : Type 0} (os : List (AttemptOutcome Cost))
    → any succeeds (mark_success os) ≡ any succeeds os
unfolding any mark_success
any-mark_success [] = refl
any-mark_success (o ∷ os) = ground (arith, any-mark_success os)

any-explain_last :
    {Cost : Type 0} (t : Text) (os : List (AttemptOutcome Cost))
    → any succeeds (explain_last t os) ≡ any succeeds os
unfolding any explain_last
any-explain_last t [] = refl
any-explain_last t (o ∷ []) = refl
any-explain_last t (o ∷ p ∷ os) = ap (λ b. o.success || b) (any-explain_last t (p ∷ os))

refine_guidance-IsFaithful :
    {Cost : Type 0} (zero_cost : Cost) (ai : Bool) (reply : ModelReply Cost) (guidance : Text)
    → IsFaithful guidance (refine_guidance zero_cost ai reply guidance).0
unfolding refine_guidance
refine_guidance-IsFaithful z true (some (t, c)) g = concise_guidance-IsFaithful g t
refine_guidance-IsFaithful z true none g = original-IsFaithful g
refine_guidance-IsFaithful z false r g = original-IsFaithful g

-- The candidate and its attempts, of which one succeeded, prove the note.
abbrev Proves :
    {Cost : Type 0} → UpdateCandidate → List (AttemptOutcome Cost) → Text × Text → Type 0
Proves cand outcomes n =
    (guidance : Text) × (cand.guidance ≡ some guidance)
    × (cand.id ≡ n.0)
    × (any succeeds outcomes ≡ true)
    × IsFaithful guidance n.1

abbrev pub IsProved : {Cost : Type 0} → CycleSummary Cost → Text × Text → Type 0
IsProved r n =
    (cand : UpdateCandidate) × (outcomes : List (AttemptOutcome _)) × (r.results
      ≡ (cand, outcomes) ∷ [])
    × Proves cand outcomes n

module _ (u : Unicode) {Cost : Type 0} (zero_cost : Cost) (add : Cost → Cost → Cost)
    (read : Text → Option RawStep) (describe : Pause → Text) (i : RetryInput Cost) where
  guided-Proves :
      (g : Option Text) (b : Bool) (cand : UpdateCandidate) (os : List (AttemptOutcome Cost))
      (n : Text × Text)
      → g ≡ cand.guidance
      → b ≡ any succeeds os
      → (guided u zero_cost add read describe i g b cand os).learned ≡ some n
      → Proves cand (guided u zero_cost add read describe i g b cand os).outcomes n
  guided-Proves none b cand os n e f h = cc
  guided-Proves (some g) false cand os n e f h = cc
  guided-Proves (some g) true cand os n e f h =
      let same = some_injective h in
      (
        g,
        sym e,
        ap (λ x. x.0) same,
        any-mark_success os ∙ sym f,
        subst (IsFaithful g) (ap (λ x. x.1) same)
            (refine_guidance-IsFaithful zero_cost (ai u zero_cost add read describe i) i.refined g),
      )

  found-Proves :
      (cand : UpdateCandidate) (os : List (AttemptOutcome Cost)) (n : Text × Text)
      → (found u zero_cost add read describe i cand os).learned ≡ some n
      → Proves
          (found u zero_cost add read describe i cand os).candidate
          (found u zero_cost add read describe i cand os).outcomes
          n
  unfolding found
  found-Proves cand os n h =
      subst (λ c. Proves c (found u zero_cost add read describe i cand os).outcomes n)
        (sym (found-candidate u zero_cost add read describe i cand os))
        (guided-Proves cand.guidance (any succeeds os) cand os n refl refl h)

  explained-Proves :
      (b : Bool) (r : Retried Cost) (e : Text × Cost) (n : Text × Text)
      → Proves r.candidate r.outcomes n
      → Proves r.candidate (explained_outcomes u zero_cost add read describe i b r e).0 n
  explained-Proves false r e n w = w
  explained-Proves true r (t, c) n (g, a, b, d, f) = (g, a, b, any-explain_last t r.outcomes ∙ d, f)

  summarize-IsProved :
      (r : Retried Cost) (n : Text × Text)
      → (r.learned ≡ some n → Proves r.candidate r.outcomes n)
      → (summarize u zero_cost add read describe i r).learned_guidance ≡ some n
      → IsProved (summarize u zero_cost add read describe i r) n
  unfolding summarize
  summarize-IsProved r n w h = (r.candidate, _, refl, explained-Proves _ r _ n (w h))

  first-IsProved :
      (cs : List UpdateCandidate) (r : CycleSummary Cost) (n : Text × Text)
      → summarize_all u zero_cost add read describe i
          (retry_first u zero_cost add read describe i cs)
        ≡ some r
      → r.learned_guidance ≡ some n
      → IsProved r n
  unfolding retry_first missing
  first-IsProved [] r n e h =
      let same = some_injective e in
      subst (λ r. IsProved r n) same
        (summarize-IsProved (missing u zero_cost add read describe i) n (λ k. cc)
          (ap (λ r. r.learned_guidance) same ∙ h))
  first-IsProved (c ∷ cs) r n e h =
      let (os, f) =
        heal_one-returns u zero_cost add read describe
          (retry_surroundings u zero_cost add read describe i)
          (retry_methods u zero_cost add read describe i) 0 c in
      let same : summarize u zero_cost add read describe i
            (found u zero_cost add read describe i c os)
          ≡ r =
        some_injective (sym (rw f refl) ∙ e) in
      subst (λ r. IsProved r n) same
        (summarize-IsProved (found u zero_cost add read describe i c os) n (found-Proves c os n)
          (ap (λ r. r.learned_guidance) same ∙ h))

  run_retry-IsProved :
      (r : CycleSummary Cost) (n : Text × Text)
      → run_retry u zero_cost add read describe i ≡ some r
      → r.learned_guidance ≡ some n
      → IsProved r n
  unfolding run_retry
  run_retry-IsProved r n e h =
      first-IsProved (retry_check u zero_cost add read describe i).candidates r n e h

  -- A retry ends, whatever the sources, the adapters and the model do. It lists exactly one
  -- application, the one of the row but for the case of its id, and never counts as a clean cycle. It
  -- learns no note, or one that a success at this application has proved: the guidance in force, or a
  -- rewrite of it that keeps its addresses, adds none and stays within the bound on a note.
  pub run_retry-IsSound :
      (r : CycleSummary Cost) × (run_retry u zero_cost add read describe i ≡ some r)
      × IsTargeted i.prior.id r
      × ((r.learned_guidance ≡ none)
          ⊎ ((n : Text × Text) × (r.learned_guidance ≡ some n) × IsProved r n))
  run_retry-IsSound =
      let (r, e, t) = run_retry-IsTargeted u zero_cost add read describe i in
      (
        r,
        e,
        t,
        elim (Option-cases r.learned_guidance) [
          | inl h ↦ inl h
          | inr (n, h) ↦ inr (n, h, run_retry-IsProved r n e h)
        ],
      )
