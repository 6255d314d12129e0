-- ===== src/Tests/ServiceRuns.antt =====
-- The rate limit, Game Mode and the routing at a concrete state.
use eir.Prelude.{
  ◌⊎◌, ◌≡◌, refl, ℕ, ◌≤◌, ◌↔◌, ◌⊎◌, true, false, ◌&&◌, some, List, [], ◌∷◌, any, Witness,
}
use eir.Prelude.Int.{pos}
use eir.Text.{codes, text_eq, member}
use eir.Float.{one_f32}
use eir.Models.{dedup_key}
use eir.Policy.{evaluate}
use eir.Policy.Forbidden.{IsForbidden}
use eir.Approvals.{Codec, ApprovalInfo, PendingApproval}
use eir.Safety.{LogRow, selects, rate_limited, failure_breaker_threshold}
use eir.Safety.Limits.{rate_limited_iff, count_failures}
use eir.Service.{SvcState}
use eir.Service.Route.{
  Why, queued, Surroundings, World, route_user_action, is_duplicate, approved_action_ready, ready,
}
use eir.Service.Route.Gate.{
  route_user_action-sends, Kept, Sent, IsCleared, approved_action_ready-safe,
}
use eir.Tests.Fixtures.{ascii, policy, clean_logs, clean_temp}

abbrev row : LogRow
row = record {
  action = [];
  action_key = some (dedup_key ascii clean_logs);
  success = true;
  executed_at = 0x32 ∷ [];
}

rate_limited_iff_example : (rate_limited ascii (row ∷ []) clean_logs [] (0x31 ∷ []) ≡ true) ↔ (
    Witness (λ r. selects (0x31 ∷ []) (dedup_key ascii clean_logs) [] r && r.success) (row ∷ [])
    ⊎ (failure_breaker_threshold
        ≤ count_failures (selects (0x31 ∷ []) (dedup_key ascii clean_logs) []) (row ∷ [])))
rate_limited_iff_example = rate_limited_iff ascii (row ∷ []) clean_logs [] (0x31 ∷ [])

abbrev state : SvcState ℕ Why
state = record {
  paused = false;
  updater_running = false;
  gaming_manual = false;
  gaming_until = pos 500;
  pending = [];
  in_flight = [];
  recent_problems = [];
}

abbrev info : ApprovalInfo
info = record {
  id = 0;
  diagnosis = [];
  root_cause = [];
  confidence = one_f32;
  action = [];
  reason = [];
  side_effects = [];
  undo_instructions = [];
  action_summary = [];
  target = [];
  target_details = [];
  reversible = true;
  created_at = pos 1;
}

abbrev knows : {A : Type 0} → A → Codec A
knows a = record { encode = λ _. 0x7b ∷ 0x7d ∷ []; decode = λ _. some a }

abbrev baselines : Codec ℕ
baselines = knows 0

abbrev world : World ℕ
world = record {
  st = state;
  db = record {
    rows = [];
    next_row = 1;
    executions = [];
    next_execution = 1;
    undos = [];
    next_undo = 1;
    executed = [];
  };
  jobs = [];
}

abbrev around : Surroundings
around = record {
  decision = some 4;
  log = some [];
  cutoff = [];
  label = [];
  executor_alive = true;
  info = λ reason. info;
  problem = λ why. record {
    diagnosis = [];
    confidence = one_f32;
    action = [];
    blocked = true;
    auto_executed = false;
    reason = some why;
    at = pos 1;
  };
}

route_ok :
    (route_user_action ascii
      (knows clean_temp)
      (knows info)
      baselines
      policy
      around
      world
      clean_temp
      0
      false).0
    ≡ queued
unfolding route_user_action is_duplicate member any eir.Service.Route.ask_first evaluate codes
    text_eq eir.Policy.action_type_name eir.Policy.blocked_reason eir.Policy.confidence_reason
    eir.Service.Route.start rate_limited eir.Safety.sum_success eir.Safety.count_rows
route_ok = refl

route_user_action-sends_example :
    let routed =
      route_user_action ascii
        (knows clean_temp)
        (knows info)
        baselines
        policy
        around
        world
        clean_temp
        0
        false in
    Kept ascii (knows clean_temp) (knows info) baselines policy around world clean_temp 0 routed
    ⊎ ((d : ℕ) × (around.decision ≡ some d)
        × Sent ascii
            (knows clean_temp)
            (knows info)
            baselines
            policy
            around
            world
            clean_temp
            0
            d
            routed
        × IsCleared ascii
            (knows clean_temp)
            (knows info)
            baselines
            policy
            around
            world
            clean_temp
            0
            false)
route_user_action-sends_example =
    route_user_action-sends ascii (knows clean_temp) (knows info) baselines policy around world
      clean_temp 0 false

abbrev approval : PendingApproval ℕ
approval = record { info = info; action = clean_temp; decision_id = 4; baseline = 0 }

preflight_ok : approved_action_ready ascii policy (some []) [] [] approval ≡ ready
unfolding approved_action_ready member any evaluate codes text_eq eir.Policy.action_type_name
    eir.Policy.blocked_reason eir.Policy.confidence_reason rate_limited eir.Safety.sum_success
    eir.Safety.count_rows
preflight_ok = refl

approved_action_ready-safe_example :
    (¬ IsForbidden ascii policy clean_temp)
    × ((rows : List LogRow) × (some [] ≡ some rows)
        × (rate_limited ascii rows clean_temp [] [] ≡ false))
approved_action_ready-safe_example =
    approved_action_ready-safe ascii policy (some []) [] [] approval preflight_ok
