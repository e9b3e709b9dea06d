-- ===== src/Governor/Tests.antt =====
-- token_governor.py on a concrete run: a budget of 100 tokens and one job that was given 60.
use Prim.Native.Nat.{max}
use native.Mathlib.Nat.{div-eq-sub-div}
use autonomous_math_ai.Base.{
  ℕ, ◌+◌, ◌-◌, ◌≤◌, ◌≡◌, ◌↔◌, ◌⊎◌, refl, true, false, none, some, [], ◌∷◌, arith, string_eq,
}
use autonomous_math_ai.Base.NatFloat.{nat_float}
use autonomous_math_ai.Base.Int.{pos}
use autonomous_math_ai.Base.Dict.{get, put}
use autonomous_math_ai.Base.Result.{ok}
use autonomous_math_ai.Models.Usage.{TokenUsage, no_usage}
use autonomous_math_ai.Governor.{
  TokenGovernor, spent_by, reserve, may_start, record_usage, release, reserved_tokens, remaining,
  reserved_tokens_for_role, reserved_cost_usd, reserved_cost_for_role, cost_sum, new_reservation,
}
use autonomous_math_ai.Governor.Decide.{
  RateSnapshot, decide, run, stop, drain_to_stop, at_least_1, IsRatio, decide_bounds,
  spent_budget_admits_none,
}
use autonomous_math_ai.Governor.Budget.{committed, reserve-within_budget, committed-record_usage}
use autonomous_math_ai.Governor.Steps.{
  Steps, here, next, reserved, recorded, IsBalanced, Steps-IsBalanced, PlannedRun,
  PlannedRun-IsWithin, IsWithin, start, report, finish,
}

abbrev used : ℕ → TokenUsage
used n = record no_usage { total_tokens = n }

abbrev idle : TokenGovernor ℕ
idle = record {
  global_budget = some 100;
  configured_max_research = 3;
  global_cost_budget = none;
  soft_fraction = 1;
  hard_fraction = 1;
  rate_reduce_percent = 70;
  rate_drain_percent = 85;
  rate_stop_percent = 95;
  role_budgets = [];
  role_cost_budgets = [];
  total = no_usage;
  total_cost_usd = 0;
  by_role = [];
  cost_by_role = [];
  by_job = [];
  reservations = [];
}

abbrev busy : TokenGovernor ℕ
busy = record idle {
  reservations =
      ("job-1", record { role = "prover"; estimated_tokens = 60; estimated_cost_usd = 0 }) ∷ [];
}

started : reserve idle "job-1" "prover" (pos 60) none ≡ ok (busy, true)
unfolding reserve may_start reserved_tokens remaining reserved_tokens_for_role reserved_cost_usd
    reserved_cost_for_role cost_sum get put
started = refl

-- A second job of 60 does not fit.
refused : reserve busy "job-2" "prover" (pos 60) none ≡ ok (busy, false)
unfolding reserve may_start reserved_tokens remaining reserved_tokens_for_role reserved_cost_usd
    reserved_cost_for_role cost_sum get put spent_by
refused = refl

held : get "job-1" busy.reservations ≡ some (new_reservation "prover" (pos 60) none)
unfolding get
held = refl

reserve-within_budget_example : (committed busy ≤ 100) × (committed busy ≤ committed idle + 60)
reserve-within_budget_example =
    reserve-within_budget idle "job-1" "prover" (pos 60) none 100 refl started

-- The job reports 20 tokens of its 60.
abbrev reported : TokenGovernor ℕ
reported = record_usage busy "job-1" "prover" (used 20) none none

committed-record_usage_example :
    committed reported ≡ committed busy + (20 - max 60 (spent_by busy.by_job "job-1").total_tokens)
committed-record_usage_example =
    committed-record_usage busy "job-1" "prover" (used 20) none none
      (new_reservation "prover" (pos 60) none) (unfold get in (refl, tt)) held
      (unfold spent_by get in omega arith)

idle-IsBalanced : IsBalanced idle
idle-IsBalanced = record { roles = refl; jobs = omega arith; single = tt }

job_run : Steps idle reported
job_run =
    next (next here (reserved "job-1" "prover" (pos 60) none started))
      (recorded "job-1" "prover" (used 20) none none)

Steps-IsBalanced_example : IsBalanced reported
Steps-IsBalanced_example = Steps-IsBalanced job_run idle-IsBalanced

idle-IsWithin : IsWithin 100 idle
unfolding reserved_tokens
idle-IsWithin = record { limit = refl; fits = omega arith; single = tt }

planned_run : PlannedRun idle (release reported "job-1")
planned_run =
    PlannedRun.next
      (PlannedRun.next
        (PlannedRun.next PlannedRun.here (start "job-1" "prover" (pos 60) none started))
        (report "job-1" "prover" (used 20) none none (new_reservation "prover" (pos 60) none) held
          (unfold spent_by get in omega arith) (omega arith)))
      (finish "job-1")

PlannedRun-IsWithin_example : IsWithin 100 (release reported "job-1")
PlannedRun-IsWithin_example = PlannedRun-IsWithin 100 planned_run idle-IsWithin

decide_bounds_example :
    ((decide busy none).max_research ≤ at_least_1 3)
    × (((decide busy none).allow_exploration ≡ true) ↔ ((decide busy none).action ≡ run))
    × (((decide busy none).max_research ≡ 0) ↔ (
        ((decide busy none).action ≡ stop)
        ⊎ ((decide busy none).action ≡ drain_to_stop)
        ⊎ (((decide busy none).action ≡ run) × (busy.configured_max_research ≡ 0))))
decide_bounds_example = decide_bounds busy none

nat-IsRatio : IsRatio ℕ
nat-IsRatio = record {
  ratio = λ a b le pos. ground (arith, div-eq-sub-div pos le);
  above = λ x y one more. ground arith;
}

abbrev spent : TokenGovernor ℕ
spent = record idle { total = used 120 }

spent_budget_admits_none_example :
    ((decide spent none).max_research ≡ 0) × ((decide spent none).allow_exploration ≡ false)
spent_budget_admits_none_example =
    spent_budget_admits_none nat-IsRatio spent none 99 refl (omega arith)

abbrev full : RateSnapshot ℕ
full = record { reached = true; primary = none; secondary = some 40 }

abbrev half : RateSnapshot ℕ
half = record { reached = false; primary = some 50; secondary = none }
