-- ===== src/Service/Route/Gate.antt =====
-- What starts, and what a refused action leaves as it was.
use eir.Prelude.{
  Bool-cases, ◌∷◌, ℕ, ◌≡◌, ◌≢◌, refl, ◌⊎◌, inl, inr, Bool, true, false, Option, none, some, List,
  arith, Option-cases,
}
use eir.Text.{Text, Unicode}
use eir.Float.{one_f32}
use eir.Models.{FixAction, dedup_key}
use eir.Policy.{ExecutionPolicy, Reason, Verdict, auto_approve, require_approval, block, evaluate}
use eir.Policy.Forbidden.{IsForbidden, evaluate_of_IsForbidden}
use eir.Approvals.{Codec, ApprovalInfo, PendingApproval}
use eir.Safety.{LogRow, rate_limited}
use eir.Service.{push_problem}
use eir.Service.Route.{
  Reply, queued, Surroundings, World, ask_first, is_duplicate, start, queue_approval,
  route_user_action, list_problem, ExecJob, approved_action_ready, ready,
}

-- Nothing was started, put in flight or put to the user.
abbrev pub Unchanged : {State : Type 0} → World State → World State → Type 0
Unchanged w w' =
    (w'.jobs ≡ w.jobs)
    × (w'.db ≡ w.db)
    × (w'.st.in_flight ≡ w.st.in_flight)
    × (w'.st.pending ≡ w.st.pending)

Verdict-cases :
    (v : Verdict)
    → (v ≡ auto_approve)
      ⊎ (((t : Text) × (v ≡ require_approval t)) ⊎ ((r : Reason) × (v ≡ block r)))
Verdict-cases auto_approve = inl refl
Verdict-cases (require_approval t) = inr (inl (t, refl))
Verdict-cases (block r) = inr (inr (r, refl))

module _ (u : Unicode) {State : Type 0} (actions : Codec FixAction) (infos : Codec ApprovalInfo)
    (baselines : Codec State) (pol : ExecutionPolicy) (env : Surroundings) (w : World State)
    (action : FixAction) (baseline : State) where
  abbrev Routed : Bool → Reply × World State
  Routed force = route_user_action u actions infos baselines pol env w action baseline force

  -- The policy, the queue and the log let the action run by itself.
  abbrev pub IsCleared : Bool → Type 0
  IsCleared force =
      (is_duplicate u w.st action ≡ false)
      × (force ≡ false)
      × (evaluate u pol action one_f32 ≡ auto_approve)
      × ((log : List LogRow) × (env.log ≡ some log)
          × (rate_limited u log action env.label env.cutoff ≡ false))

  abbrev pub job_of : ℕ → ExecJob State
  job_of d = record {
    action = action;
    decision_id = d;
    baseline = baseline;
    key = dedup_key u action;
    approval_id = none;
  }

  -- Nothing went to the executor, and the answer does not say so.
  abbrev pub Kept : Reply × World State → Type 0
  Kept r = (r.0 ≢ queued) × (r.1.jobs ≡ w.jobs) × (r.1.st.in_flight ≡ w.st.in_flight)

  -- One job went to the executor, is in flight and is answered.
  abbrev pub Sent : ℕ → Reply × World State → Type 0
  Sent d r =
      (r.0 ≡ queued)
      × (r.1.jobs ≡ job_of d ∷ w.jobs)
      × (r.1.st.in_flight ≡ dedup_key u action ∷ w.st.in_flight)

  start-Sent :
      (d : ℕ)
      → Kept (start u env w action d baseline)
        ⊎ (Sent d (start u env w action d baseline)
            × ((log : List LogRow) × (env.log ≡ some log)
                × (rate_limited u log action env.label env.cutoff ≡ false)))
  unfolding start list_problem push_problem
  start-Sent d = elim (Option-cases env.log) [
    | inl e ↦ inl (λ h. ground arith, ground arith, ground arith)
    | inr (log, e) ↦ elim (Bool-cases (rate_limited u log action env.label env.cutoff)) [
      | inl f ↦ inl (λ h. ground arith, ground arith, ground arith)
      | inr f ↦ elim (Bool-cases env.executor_alive) [
        | inl g ↦ inr ((ground arith, ground arith, ground arith), (log, e, f))
        | inr g ↦ inl (λ h. ground arith, ground arith, ground arith)
      ]
    ]
  ]

  queue_approval-Kept :
      (d : ℕ) (info : ApprovalInfo)
      → Kept (queue_approval u actions infos baselines env w action d baseline info)
  unfolding queue_approval list_problem push_problem
  queue_approval-Kept d info = (λ h. ground arith, ground arith, ground arith)

  ask_first-auto :
      (force : Bool) (v : Verdict)
      → ask_first force v ≡ auto_approve
      → (force ≡ false) × (v ≡ auto_approve)
  unfolding ask_first
  ask_first-auto false v e = (refl, e)
  ask_first-auto true v e = ground arith

  -- A user action leaves the jobs and what is in flight as they were and is not answered as queued, or
  -- it is answered so and exactly one job is sent to the executor, its own under the id of its
  -- decision, and put in flight. The latter only if it is not queued or running already, no approval
  -- is forced, the policy lets it run by itself at full confidence, and the log, which could be read,
  -- does not hold it back.
  pub route_user_action-sends :
      (force : Bool)
      → Kept (Routed force)
        ⊎ ((d : ℕ) × (env.decision ≡ some d) × Sent d (Routed force) × IsCleared force)
  unfolding route_user_action list_problem push_problem
  route_user_action-sends force =
      let v = ask_first force (evaluate u pol action one_f32) in
      elim (Bool-cases (is_duplicate u w.st action)) [
        | inl c ↦ inl (λ h. ground arith, ground arith, ground arith)
        | inr c ↦ elim (Option-cases env.decision) [
          | inl e ↦ inl (λ h. ground arith, ground arith, ground arith)
          | inr (d, e) ↦ elim (Verdict-cases v) [
            | inl f ↦
                let (plain, auto) = ask_first-auto force (evaluate u pol action one_f32) f in
                elim (start-Sent d) [
                  | inl (x, y, z) ↦
                      inl (λ h. ground (arith, x), ground (arith, y), ground (arith, z))
                  | inr ((x, y, z), l) ↦ inr (
                    d,
                    e,
                    (ground (arith, x), ground (arith, y), ground (arith, z)),
                    (c, plain, auto, l),
                  )
                ]
            | inr (inl (t, f)) ↦
                let (x, y, z) = queue_approval-Kept d (env.info t) in
                inl (λ h. ground (arith, x), ground (arith, y), ground (arith, z))
            | inr (inr (r, f)) ↦ inl (λ h. ground arith, ground arith, ground arith)
          ]
        ]
      ]

  ask_first-block : (force : Bool) (r : Reason) → ask_first force (block r) ≡ block r
  unfolding ask_first
  ask_first-block true r = refl
  ask_first-block false r = refl

  -- An action on a forbidden target starts nothing, puts nothing in flight and asks for no
  -- approval, whatever else the policy, the log and the executor say.
  pub route_user_action-forbidden :
      (force : Bool) → IsForbidden u pol action → Unchanged w (Routed force).1
  unfolding route_user_action list_problem push_problem
  route_user_action-forbidden force f =
      let (r, e) = evaluate_of_IsForbidden u pol action one_f32 f in
      ground (arith, ask_first-block force r)

-- What `elim` on the verdict and the log gives.
preflight-ready :
    {State : Type 0} (u : Unicode) (pol : ExecutionPolicy) (log : Option (List LogRow))
    (label cutoff : Text) (approval : PendingApproval State)
    → approved_action_ready u pol log label cutoff approval ≡ ready
    → (rows : List LogRow) × (log ≡ some rows)
      × (rate_limited u rows approval.action label cutoff ≡ false)
unfolding approved_action_ready
preflight-ready u pol none label cutoff approval h =
    elim (Verdict-cases (evaluate u pol approval.action approval.info.confidence)) [
      | inl e ↦ ground arith
      | inr (inl (t, e)) ↦ ground arith
      | inr (inr (r, e)) ↦ ground arith
    ]
preflight-ready u pol (some rows) label cutoff approval h =
    elim (Verdict-cases (evaluate u pol approval.action approval.info.confidence)) [
      | inl e ↦ (rows, refl, ground arith)
      | inr (inl (t, e)) ↦ (rows, refl, ground arith)
      | inr (inr (r, e)) ↦ ground arith
    ]

preflight-block :
    {State : Type 0} (u : Unicode) (pol : ExecutionPolicy) (log : Option (List LogRow))
    (label cutoff : Text) (approval : PendingApproval State) (r : Reason)
    → evaluate u pol approval.action approval.info.confidence ≡ block r
    → approved_action_ready u pol log label cutoff approval ≢ ready
unfolding approved_action_ready
preflight-block u pol log label cutoff approval r e h = ground arith

-- An approval does not outlive the policy: an approved action that is found ready has no forbidden
-- target under the policy as it is now, and the log, which could be read, does not hold it back.
pub approved_action_ready-safe :
    {State : Type 0} (u : Unicode) (pol : ExecutionPolicy) (log : Option (List LogRow))
    (label cutoff : Text) (approval : PendingApproval State)
    → approved_action_ready u pol log label cutoff approval ≡ ready
    → (¬ IsForbidden u pol approval.action)
      × ((rows : List LogRow) × (log ≡ some rows)
          × (rate_limited u rows approval.action label cutoff ≡ false))
approved_action_ready-safe u pol log label cutoff approval h = (
  λ f.
      let (r, e) = evaluate_of_IsForbidden u pol approval.action approval.info.confidence f in
      preflight-block u pol log label cutoff approval r e h,
  preflight-ready u pol log label cutoff approval h,
)
