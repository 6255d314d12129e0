-- ===== src/Updater/Diagnose.antt =====
-- eir-svc/src/updater/diagnose.rs: from the model's reply to the validated next step. The AI
-- client and the JSON reader (ai/json.rs with serde_json) are parameters.
use eir.Prelude.{◌≡◌, refl, false, ◌||◌, Option, none, some, List, if◌then◌else◌}
use eir.Text.{
  Text, Unicode, codes, text_eq, trim, trim_start, trim_end_matches, trim_start_matches,
  is_whitespace, to_ascii_lowercase, is_empty,
}
use eir.Updater.Domain.{
  Method, from_token, unknown, Remedy, force, kill_process, clear_manager_lock, retry_after_reboot,
  ProposedStep, give_up, switch, retry, NextStep, switch_to, stop, StepContext, deterministic_next,
  validate_next_step, AttemptOutcome, is_terminal, same_category, already_current, needs_reboot,
  first_untried,
}

pub record RawRemedy : Type 0 where
  pub kind : Text
  pub name : Text

pub record RawStep : Type 0 where
  pub action : Text
  pub method : Text
  pub remedy : Option RawRemedy
  pub reason : Text

unfoldable pub to_remedy : RawRemedy → Option Remedy
to_remedy r =
    let kind = to_ascii_lowercase (trim r.kind) in
    if text_eq kind (codes "force")
    then some force
    else if text_eq kind (codes "kill_process") || text_eq kind (codes "killprocess")
    then some (kill_process (trim r.name))
    else if text_eq kind (codes "clear_manager_lock") || text_eq kind (codes "clearmanagerlock")
    then some clear_manager_lock
    else if text_eq kind (codes "retry_after_reboot") || text_eq kind (codes "retryafterreboot")
    then some retry_after_reboot
    else none

abbrev remedy_of : Option RawRemedy → Option Remedy
remedy_of none = none
remedy_of (some r) = to_remedy r

abbrev pub unknown_method : Text
unknown_method = codes "AI proposed an unknown method"

unfoldable pub to_proposed : RawStep → ProposedStep
to_proposed raw =
    let action = to_ascii_lowercase (trim raw.action) in
    if text_eq action (codes "give_up")
      || text_eq action (codes "giveup")
      || text_eq action (codes "stop")
    then give_up raw.reason
    else if text_eq action (codes "retry")
    then elim (from_token raw.method) [
      | none ↦ give_up (codes "AI retry proposal was incomplete")
      | some method ↦ elim (remedy_of raw.remedy) [
        | none ↦ give_up (codes "AI retry proposal was incomplete")
        | some remedy ↦ retry method remedy
      ]
    ]
    else elim (from_token raw.method) [
      | none ↦ give_up unknown_method
      | some method ↦ switch method
    ]

-- `read` is parse_model_json_matching at RawStep.
unfoldable pub parse_step : (Text → Option RawStep) → Text → ProposedStep
parse_step read content = elim (read content) [
  | none ↦ give_up (codes "could not parse the AI's next-step reply")
  | some raw ↦ to_proposed raw
]

unfoldable pub step_context :
    {Cost : Type 0} → AttemptOutcome Cost → List Method → List Method → StepContext
step_context last tried available = record {
  failed = elim last.category [ none ↦ unknown | some c ↦ c ];
  tried = tried;
  available = available;
  error_text = last.detail;
}

-- `reply` is what AiClient::complete gave: none on an error, else the text and the call's cost.
unfoldable pub diagnose :
    {Cost : Type 0}
    → Unicode
    → (Text → Option RawStep)
    → Cost
    → Option (Text × Option Cost)
    → AttemptOutcome Cost
    → List Method
    → List Method
    → NextStep × Cost
diagnose u read zero_cost reply last tried available =
    let ctx = step_context last tried available in
    elim reply [
      | none ↦ (deterministic_next ctx, zero_cost)
      | some (content, usage) ↦ (
        validate_next_step u (parse_step read content) ctx,
        elim usage [ none ↦ zero_cost | some c ↦ c ],
      )
    ]

to_proposed-no_method :
    (raw : RawStep)
    → to_ascii_lowercase (trim raw.action) ≡ codes "switch"
    → from_token raw.method ≡ none
    → to_proposed raw ≡ give_up unknown_method
unfolding to_proposed text_eq codes
to_proposed-no_method raw a f = rw a (rw f refl)

trim-unknown_method : trim unknown_method ≡ unknown_method
unfolding trim trim_start trim_end_matches trim_start_matches is_whitespace codes
trim-unknown_method = refl

validate_next_step-give_up :
    (u : Unicode) (ctx : StepContext)
    → is_terminal ctx.failed ≡ false
    → same_category ctx.failed already_current ≡ false
    → same_category ctx.failed needs_reboot ≡ false
    → validate_next_step u (give_up unknown_method) ctx ≡ stop unknown_method
unfolding validate_next_step is_empty codes
validate_next_step-give_up u ctx t c b = rw t (rw c (rw b (rw trim-unknown_method refl)))

-- A switch to a method that no token names ends the attempts after a failure that by itself stops
-- nothing: the proposal is validated to a stop, while the deterministic step, taken when the model
-- cannot be reached, switches to the first untried method.
pub to_proposed-unknown_method :
    (u : Unicode) (raw : RawStep) (ctx : StepContext) (m : Method)
    → to_ascii_lowercase (trim raw.action) ≡ codes "switch"
    → from_token raw.method ≡ none
    → is_terminal ctx.failed ≡ false
    → same_category ctx.failed already_current ≡ false
    → same_category ctx.failed needs_reboot ≡ false
    → first_untried ctx.available ctx.tried ≡ some m
    → (validate_next_step u (to_proposed raw) ctx ≡ stop unknown_method)
      × (deterministic_next ctx ≡ switch_to m)
unfolding deterministic_next
to_proposed-unknown_method u raw ctx m a f t c b n = (
  rw (to_proposed-no_method raw a f) (validate_next_step-give_up u ctx t c b),
  rw t (rw b (rw c (rw n refl))),
)
