-- ===== src/Governor/Steps.antt =====
-- token_governor.py: runs of the governor, any sequence of its four operations that change state.
use autonomous_math_ai.Base.{
  ℕ, ◌+◌, ◌-◌, ◌≤◌, ◌≡◌, Bool, true, false, String, Option, some, arith, string_eq,
}
use autonomous_math_ai.Base.Float.{Float}
use autonomous_math_ai.Base.Dict.{
  Dict, get, put, Distinct, put-Distinct, pop-Distinct, sum_values, sum_values-put,
}
use autonomous_math_ai.Base.Int.{ℤ}
use autonomous_math_ai.Base.Result.{ok}
use autonomous_math_ai.Models.Usage.{TokenUsage}
use autonomous_math_ai.Governor.{
  TokenGovernor, JobSpend, Reservation, spent_by, reserve, record_usage, release,
  restore_reservation, new_reservation, or_zero,
}
use autonomous_math_ai.Governor.Budget.{
  committed, reserve-within_budget, committed-release, committed-record_usage,
}

module _ {F : Type 0} ⦃f : Float F⦄ where
  pub data Step (g : TokenGovernor F) : TokenGovernor F → Type 0 where
    reserved :
        {g' : TokenGovernor F} {started : Bool} (job_id role : String) (tokens : ℤ)
        (cost : Option F)
        → reserve g job_id role tokens cost ≡ ok (g', started)
        → Step g g'
    restored :
        {g' : TokenGovernor F} (job_id role : String) (tokens : ℤ) (cost : Option F)
        → restore_reservation g job_id role tokens cost ≡ ok g'
        → Step g g'
    recorded :
        (job_id role : String) (usage : TokenUsage) (useful : Option Bool) (cost : Option F)
        → Step g (record_usage g job_id role usage useful cost)
    released : (job_id : String) → Step g (release g job_id)

  pub data Steps (g : TokenGovernor F) : TokenGovernor F → Type 0 where
    here : Steps g g
    next : {h i : TokenGovernor F} → Steps g h → Step h i → Steps g i

  -- The accounts agree: the total is the sum over the roles, no job's last report passes it, and
  -- each job has at most one reservation.
  pub record IsBalanced (g : TokenGovernor F) : Type 0 where
    pub roles : sum_values (λ n. n) g.by_role ≡ g.total.total_tokens
    pub jobs : sum_values (λ (j : JobSpend F). j.usage.total_tokens) g.by_job ≤ g.total.total_tokens
    pub single : Distinct g.reservations

  jobs-record_usage :
      (by_job : Dict String (JobSpend F)) (job_id : String) (j : JobSpend F) (total : ℕ)
      → sum_values (λ (j : JobSpend F). j.usage.total_tokens) by_job ≤ total
      → sum_values (λ (j : JobSpend F). j.usage.total_tokens) (put job_id j by_job)
        ≤ total + (j.usage.total_tokens - (spent_by by_job job_id).total_tokens)
  unfolding spent_by
  jobs-record_usage by_job job_id j total h =
      ground (arith, sum_values-put (λ (j : JobSpend F). j.usage.total_tokens) job_id j by_job)

  Step-IsBalanced : {g h : TokenGovernor F} → Step g h → IsBalanced g → IsBalanced h
  unfolding reserve restore_reservation record_usage release
  Step-IsBalanced {g} (reserved job_id role tokens cost e) b =
      ground (arith, put-Distinct job_id (new_reservation role tokens cost) g.reservations b.single)
  Step-IsBalanced {g} (restored job_id role tokens cost e) b =
      ground (arith, put-Distinct job_id (new_reservation role tokens cost) g.reservations b.single)
  Step-IsBalanced {g} (recorded job_id role usage useful cost) b = record {
    roles = ground (
      arith,
      b.roles,
      sum_values-put (λ n. n) role
          (or_zero (get role g.by_role)
            + (usage.total_tokens - (spent_by g.by_job job_id).total_tokens))
          g.by_role,
    );
    jobs = jobs-record_usage g.by_job job_id _ g.total.total_tokens b.jobs;
    single = b.single;
  }
  Step-IsBalanced {g} (released job_id) b = record {
    roles = b.roles;
    jobs = b.jobs;
    single = pop-Distinct job_id g.reservations b.single;
  }

  -- After any sequence of operations on a governor whose accounts agree they agree: the total is
  -- the sum over the roles, the last reports of the jobs sum up to no more than the total, and each
  -- job has at most one reservation.
  pub Steps-IsBalanced : {g h : TokenGovernor F} → Steps g h → IsBalanced g → IsBalanced h
  Steps-IsBalanced here b = b
  Steps-IsBalanced (next r st) b = Step-IsBalanced st (Steps-IsBalanced r b)

  -- A step that keeps to the plan: a job is started by `reserve`, and its counts do not fall and
  -- stay within its estimate while it holds its reservation.
  pub data Planned (g : TokenGovernor F) : TokenGovernor F → Type 0 where
    start :
        {g' : TokenGovernor F} {started : Bool} (job_id role : String) (tokens : ℤ)
        (cost : Option F)
        → reserve g job_id role tokens cost ≡ ok (g', started)
        → Planned g g'
    report :
        (job_id role : String) (usage : TokenUsage) (useful : Option Bool) (cost : Option F)
        (r : Reservation F)
        → get job_id g.reservations ≡ some r
        → (spent_by g.by_job job_id).total_tokens ≤ usage.total_tokens
        → usage.total_tokens ≤ r.estimated_tokens
        → Planned g (record_usage g job_id role usage useful cost)
    finish : (job_id : String) → Planned g (release g job_id)

  pub data PlannedRun (g : TokenGovernor F) : TokenGovernor F → Type 0 where
    here : PlannedRun g g
    next : {h i : TokenGovernor F} → PlannedRun g h → Planned h i → PlannedRun g i

  pub record IsWithin (budget : ℕ) (g : TokenGovernor F) : Type 0 where
    pub limit : g.global_budget ≡ some budget
    pub fits : committed g ≤ budget
    pub single : Distinct g.reservations

  start-IsWithin :
      (budget : ℕ) (g : TokenGovernor F) (job_id role : String) (tokens : ℤ) (cost : Option F)
      (started : Bool) {g' : TokenGovernor F}
      → reserve g job_id role tokens cost ≡ ok (g', started)
      → IsWithin budget g
      → IsWithin budget g'
  start-IsWithin budget g job_id role tokens cost true e w = record {
    limit = unfold reserve in ground (arith, w.limit);
    fits = (reserve-within_budget g job_id role tokens cost budget w.limit e).0;
    single =
        unfold reserve in
        ground
          (arith, put-Distinct job_id (new_reservation role tokens cost) g.reservations w.single);
  }
  start-IsWithin budget g job_id role tokens cost false e w =
      unfold reserve in ground (arith, w.limit, w.fits, w.single)

  Planned-IsWithin :
      {g h : TokenGovernor F} (budget : ℕ) → Planned g h → IsWithin budget g → IsWithin budget h
  Planned-IsWithin {g} budget (start {started} job_id role tokens cost e) w =
      start-IsWithin budget g job_id role tokens cost started e w
  Planned-IsWithin {g} budget (report job_id role usage useful cost r held grows fits) w = record {
    limit = unfold record_usage in w.limit;
    fits = omega (
      arith,
      w.fits,
      committed-record_usage g job_id role usage useful cost r w.single held grows,
    );
    single = unfold record_usage in w.single;
  }
  Planned-IsWithin {g} budget (finish job_id) w = record {
    limit = unfold release in w.limit;
    fits = omega (arith, w.fits, committed-release g job_id);
    single = unfold release in pop-Distinct job_id g.reservations w.single;
  }

  -- A governor has a global budget that covers the tokens spent and reserved, and at most one
  -- reservation for each job. However jobs are reserved, report and are released from there: if
  -- each report comes from a job that still holds its reservation, with a total that is not below
  -- its last one and not above its estimate, then the tokens spent and reserved never pass the
  -- budget, and there is still at most one reservation for each job.
  pub PlannedRun-IsWithin :
      {g h : TokenGovernor F} (budget : ℕ) → PlannedRun g h → IsWithin budget g → IsWithin budget h
  PlannedRun-IsWithin budget here w = w
  PlannedRun-IsWithin budget (next r st) w =
      Planned-IsWithin budget st (PlannedRun-IsWithin budget r w)
