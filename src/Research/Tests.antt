-- ===== src/Research/Tests.antt =====
-- research_job.py and reasoning_health.py on concrete jobs.
use autonomous_math_ai.Base.{◌≤◌, ◌≡◌, ◌⊎◌, refl, true, false, none, some, [], ◌∷◌, All, string_eq}
use autonomous_math_ai.Base.Int.{pos}
use autonomous_math_ai.Base.Dict.{get, put}
use autonomous_math_ai.Base.Result.{ok}
use autonomous_math_ai.Models.Usage.{TokenUsage, no_usage}
use autonomous_math_ai.Research.Health.{ReasoningHealthMonitor, new_monitor, observe}
use autonomous_math_ai.Research.Interventions.{Watch, here, next, interventions_bounded, IsShort}
use autonomous_math_ai.Research.TurnPolicy.{
  ResearchTurnPolicy, TurnReport, stop, turn_limit_reached, given, continue_with,
  continuation_prompt, candidate_repair_prompt, CandidateDisposition, max_turns_for, decide,
  same_for_all, new_policy,
}
use autonomous_math_ai.Research.Turns.{continue_reasons, ByRejection, ByBlocker, ByTurn}

abbrev monitor : ReasoningHealthMonitor
monitor = record {
  short_reasoning_tokens = 100;
  repeated_token_tolerance = 2;
  retry_limit = 1;
  reasoning_history = [];
  actions_used = [];
}

monitor_made : new_monitor (pos 100) (pos 2) (pos 1) ≡ ok monitor
unfolding new_monitor
monitor_made = refl

abbrev short : TokenUsage
short = record no_usage { reasoning_output_tokens = 40 }

abbrev once : ReasoningHealthMonitor
once = (observe "job-1" "high" short "observed" true monitor).0

-- Two short turns, of which the limit lets one be repeated.
watched : Watch "job-1" monitor (observe "job-1" "high" short "observed" true once).0 1
unfolding observe get put
watched = next "job-1" "high" short "observed" true (next "job-1" "high" short "observed" true here)

interventions_bounded_example :
    (1 ≤ 1)
    × All (IsShort 2) (observe "job-1" "high" short "observed" true once).0.reasoning_history
interventions_bounded_example =
    interventions_bounded "job-1" (pos 100) (pos 2) (pos 1) monitor_made watched

abbrev policy : ResearchTurnPolicy
policy = record { max_turns = ("prover", 3) ∷ ("falsifier", 3) ∷ ("explorer", 3) ∷ [] }

policy_made : new_policy (same_for_all (pos 3)) ≡ ok policy
unfolding new_policy
policy_made = refl

abbrev turn : TurnReport
turn = record {
  result_type = some "PROOF";
  role = "falsifier";
  turn_index = 2;
  candidate_accepted = false;
  canonical_progress = false;
  health_signal = none;
  budget_stop_reason = none;
  blocker_repair_attempted = false;
  candidate_disposition = none;
  candidate_repair_attempted = false;
}

goes_on : decide policy turn ≡ ok (continue_with (continuation_prompt none) none)
unfolding decide max_turns_for get
goes_on = refl

abbrev disposition : CandidateDisposition
disposition = record { status = "REJECTED"; auditor_queue_entered = false }

abbrev refused : TurnReport
refused = record turn { turn_index = 3; candidate_disposition = some disposition }

-- The repair of a candidate that did not enter the queue is no turn of the limit.
goes_on_to_repair :
    decide policy refused ≡ ok (continue_with (candidate_repair_prompt disposition) none)
unfolding decide
goes_on_to_repair = refl

-- A candidate that was held back otherwise is not repaired.
held_back :
    decide policy
      (record refused { candidate_disposition = some (record disposition { status = "PENDING" }) })
    ≡ ok (stop turn_limit_reached)
unfolding decide max_turns_for get
held_back = refl

continue_reasons_example :
    (refused.canonical_progress ≡ false)
    × (refused.candidate_accepted ≡ false)
    × (given refused.budget_stop_reason ≡ none)
    × (refused.candidate_repair_attempted ≡ false)
    × (ByRejection refused (candidate_repair_prompt disposition)
        ⊎ ByBlocker refused (candidate_repair_prompt disposition)
        ⊎ ByTurn policy refused (candidate_repair_prompt disposition))
continue_reasons_example = continue_reasons policy refused goes_on_to_repair
