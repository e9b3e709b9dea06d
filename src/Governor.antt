-- ===== src/Governor.antt =====
-- token_governor.py: what a run may spend, what it has spent, and what its started jobs still hold.
-- The costs are floats, so the section takes the type of floats and its operations. Token counts
-- are numbers from 0 up; an estimate is any integer and is clamped as the source clamps it.

pub mod Budget
pub mod Decide
pub mod Steps
pub mod Tests
use autonomous_math_ai.Base.{
  ℕ, ◌+◌, ◌-◌, ◌≡◌, Bool, true, false, not, ◌||◌, String, Option, none, some, List, [], ◌∷◌, ltb,
  if◌then◌else◌, string_eq, sum_by, ◌==◌,
}
use autonomous_math_ai.Base.Float.{Float, fmax}
use autonomous_math_ai.Base.Int.{ℤ, clamp}
use autonomous_math_ai.Base.Dict.{Dict, get, put, pop, has}
use autonomous_math_ai.Base.Result.{Result, ok, raise}
use autonomous_math_ai.Models.Usage.{TokenUsage, no_usage}

pub record JobSpend (F : Type 0) : Type 0 where
  pub usage : TokenUsage
  pub role : String
  pub useful : Option Bool
  pub cost_usd : Option F

pub record Reservation (F : Type 0) : Type 0 where
  pub role : String
  pub estimated_tokens : ℕ
  pub estimated_cost_usd : F

pub record TokenGovernor (F : Type 0) : Type 0 where
  pub global_budget : Option ℕ
  pub configured_max_research : ℕ
  pub global_cost_budget : Option F
  pub soft_fraction : F
  pub hard_fraction : F
  pub rate_reduce_percent : F
  pub rate_drain_percent : F
  pub rate_stop_percent : F
  pub role_budgets : Dict String ℕ
  pub role_cost_budgets : Dict String F
  pub total : TokenUsage
  pub total_cost_usd : F
  pub by_role : Dict String ℕ
  pub cost_by_role : Dict String F
  pub by_job : Dict String (JobSpend F)
  pub reservations : Dict String (Reservation F)

pub data GovernorError : Type 0 where
  duplicate_reservation : String → GovernorError

-- `d.get(key, 0)` on a number, and the usage of a job that may have none.
abbrev pub or_zero : Option ℕ → ℕ
or_zero none = 0
or_zero (some n) = n

module _ {F : Type 0} where
  abbrev pub usage_of : Option (JobSpend F) → TokenUsage
  usage_of none = no_usage
  usage_of (some j) = j.usage

  -- `self.by_job.get(job_id, {})`, read at its token fields
  unfoldable pub spent_by : Dict String (JobSpend F) → String → TokenUsage
  spent_by by_job job_id = usage_of (get job_id by_job)

  -- `_reservation_remaining`
  unfoldable pub remaining : Dict String (JobSpend F) → String × Reservation F → ℕ
  unfolding spent_by
  remaining by_job (job_id, r) = r.estimated_tokens - (spent_by by_job job_id).total_tokens

  unfoldable pub reserved_tokens : TokenGovernor F → ℕ
  unfolding remaining
  reserved_tokens g = sum_by (remaining g.by_job) g.reservations

  abbrev pub remaining_for : Dict String (JobSpend F) → String → String × Reservation F → ℕ
  remaining_for by_job role (job_id, r) = if r.role == role then remaining by_job (job_id, r) else 0

  unfoldable pub reserved_tokens_for_role : TokenGovernor F → String → ℕ
  unfolding remaining
  reserved_tokens_for_role g role = sum_by (remaining_for g.by_job role) g.reservations

  unfoldable pub release : TokenGovernor F → String → TokenGovernor F
  release g job_id = record g { reservations = pop job_id g.reservations }

abbrev pub over : Option ℕ → ℕ → Bool
over none n = false
over (some budget) n = ltb budget n

-- The cumulative counts of a job only ever add their increase to the totals.
abbrev pub add_increase : TokenUsage → TokenUsage → TokenUsage → TokenUsage
add_increase total now before = record {
  input_tokens = total.input_tokens + (now.input_tokens - before.input_tokens);
  cached_input_tokens =
      total.cached_input_tokens + (now.cached_input_tokens - before.cached_input_tokens);
  uncached_input_tokens =
      total.uncached_input_tokens + (now.uncached_input_tokens - before.uncached_input_tokens);
  cache_write_input_tokens =
      total.cache_write_input_tokens
      + (now.cache_write_input_tokens - before.cache_write_input_tokens);
  output_tokens = total.output_tokens + (now.output_tokens - before.output_tokens);
  reasoning_output_tokens =
      total.reasoning_output_tokens
      + (now.reasoning_output_tokens - before.reasoning_output_tokens);
  total_tokens = total.total_tokens + (now.total_tokens - before.total_tokens);
}

module _ {F : Type 0} ⦃f : Float F⦄ where
  abbrev pub or_nought : Option F → F
  or_nought none = f.of_ℕ 0
  or_nought (some x) = x

  -- `sum(float(item[...]) for item in reservations.values() if ...)`, from the left
  pub cost_sum : (Reservation F → Bool) → F → Dict String (Reservation F) → F
  cost_sum test acc [] = acc
  cost_sum test acc ((job_id, r) ∷ rest) =
      cost_sum test (if test r then f.add acc r.estimated_cost_usd else acc) rest

  unfoldable pub reserved_cost_usd : TokenGovernor F → F
  unfolding cost_sum
  reserved_cost_usd g = cost_sum (λ r. true) (f.of_ℕ 0) g.reservations

  unfoldable pub reserved_cost_for_role : TokenGovernor F → String → F
  unfolding cost_sum
  reserved_cost_for_role g role = cost_sum (λ r. r.role == role) (f.of_ℕ 0) g.reservations

  abbrev pub over_cost : Option F → F → Bool
  over_cost none x = false
  over_cost (some budget) x = f.gt x budget

  abbrev pub within_cost : Option F → F → Bool
  within_cost none x = true
  within_cost (some budget) x = f.ge budget x

  unfoldable pub may_start : TokenGovernor F → String → ℤ → Option F → Bool
  may_start g role estimated_tokens estimated_cost_usd =
      let tokens = clamp estimated_tokens in
      let cost = fmax (f.of_ℕ 0) (or_nought estimated_cost_usd) in
      if over g.global_budget (g.total.total_tokens + reserved_tokens g + tokens)
      then false
      else if over_cost g.global_cost_budget
          (f.add (f.add g.total_cost_usd (reserved_cost_usd g)) cost)
      then false
      else if over (get role g.role_budgets)
          (or_zero (get role g.by_role) + reserved_tokens_for_role g role + tokens)
      then false
      else within_cost (get role g.role_cost_budgets)
          (f.add (f.add (or_nought (get role g.cost_by_role)) (reserved_cost_for_role g role)) cost)

  abbrev pub new_reservation : String → ℤ → Option F → Reservation F
  new_reservation role estimated_tokens estimated_cost_usd = record {
    role = role;
    estimated_tokens = clamp estimated_tokens;
    estimated_cost_usd = fmax (f.of_ℕ 0) (or_nought estimated_cost_usd);
  }

  unfoldable pub restore_reservation :
      TokenGovernor F → String → String → ℤ → Option F → Result GovernorError (TokenGovernor F)
  restore_reservation g job_id role tokens cost =
      if has job_id g.reservations
      then raise (duplicate_reservation job_id)
      else ok
          (record g { reservations = put job_id (new_reservation role tokens cost) g.reservations })

  -- The new state, and whether the job may start.
  unfoldable pub reserve :
      TokenGovernor F
      → String
      → String
      → ℤ
      → Option F
      → Result GovernorError (TokenGovernor F × Bool)
  reserve g job_id role tokens cost =
      if has job_id g.reservations
      then raise (duplicate_reservation job_id)
      else if not (may_start g role tokens cost)
      then ok (g, false)
      else ok (
        record g { reservations = put job_id (new_reservation role tokens cost) g.reservations },
        true,
      )

  abbrev pub cost_before : Option (JobSpend F) → F
  cost_before none = f.of_ℕ 0
  cost_before (some j) = or_nought j.cost_usd

  abbrev pub cost_now : F → Option F → F
  cost_now before none = before
  cost_now before (some c) = fmax before c

  -- The key "cost_usd" is there from the first record of a job on.
  abbrev pub cost_kept : Option (JobSpend F) → Option F → F → Option F
  cost_kept none none observed = none
  cost_kept previous cost observed = some observed

  unfoldable pub record_usage :
      TokenGovernor F → String → String → TokenUsage → Option Bool → Option F → TokenGovernor F
  unfolding spent_by
  record_usage g job_id role usage useful cost_usd =
      let before = spent_by g.by_job job_id in
      let delta = usage.total_tokens - before.total_tokens in
      let previous_cost = cost_before (get job_id g.by_job) in
      let observed_cost = cost_now previous_cost cost_usd in
      let cost_delta = fmax (f.of_ℕ 0) (f.sub observed_cost previous_cost) in
      record g {
        total = add_increase g.total usage before;
        by_role = put role (or_zero (get role g.by_role) + delta) g.by_role;
        total_cost_usd = f.add g.total_cost_usd cost_delta;
        cost_by_role =
            put role (f.add (or_nought (get role g.cost_by_role)) cost_delta) g.cost_by_role;
        by_job =
            put job_id
              (record {
                usage = usage;
                role = role;
                useful = useful;
                cost_usd = cost_kept (get job_id g.by_job) cost_usd observed_cost;
              })
              g.by_job;
      }
