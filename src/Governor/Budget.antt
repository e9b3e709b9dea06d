-- ===== src/Governor/Budget.antt =====
-- token_governor.py: the token budget; what a run has committed is what it spent and what its started jobs may spend.
use autonomous_math_ai.Base.{
  ℕ, ◌+◌, ◌-◌, ◌≤◌, ◌≡◌, Bool, true, false, String, Option, some, [], ◌∷◌, arith, string_eq, sum_by,
}
use autonomous_math_ai.Base.Float.{Float}
use autonomous_math_ai.Base.Dict.{
  Dict, get, put, has, Distinct, sum_by-put_new, sum_by-pop-le, get-put,
}
use autonomous_math_ai.Base.Int.{ℤ, clamp}
use autonomous_math_ai.Base.Result.{ok}
use autonomous_math_ai.Models.Usage.{TokenUsage}
use autonomous_math_ai.Governor.{
  TokenGovernor, JobSpend, Reservation, spent_by, remaining, reserved_tokens, reserve, may_start,
  record_usage, release, new_reservation,
}
use Prim.Native.Nat.{max}

abbrev pub committed : {F : Type 0} → TokenGovernor F → ℕ
committed g = g.total.total_tokens + reserved_tokens g

module _ {F : Type 0} where
  -- Usage of one job moves only that job's reservation.
  sum-remaining_other :
      (by_job : Dict String (JobSpend F)) (job_id : String) (j : JobSpend F)
      (m : Dict String (Reservation F))
      → has job_id m ≡ false
      → sum_by (remaining (put job_id j by_job)) m ≡ sum_by (remaining by_job) m
  unfolding remaining get
  sum-remaining_other by_job job_id j [] h = omega arith
  sum-remaining_other by_job job_id j ((i, r) ∷ m) h = ground (
    arith,
    sum-remaining_other by_job job_id j m,
    get-put job_id i j by_job,
    string_eq.beq_iff i job_id,
    string_eq.beq_iff job_id i,
  )

  sum-remaining_own :
      (by_job : Dict String (JobSpend F)) (job_id : String) (j : JobSpend F)
      (m : Dict String (Reservation F)) (r : Reservation F)
      → Distinct m
      → get job_id m ≡ some r
      → sum_by (remaining (put job_id j by_job)) m
          + (r.estimated_tokens - (spent_by by_job job_id).total_tokens)
        ≡ sum_by (remaining by_job) m + (r.estimated_tokens - j.usage.total_tokens)
  unfolding remaining get
  sum-remaining_own by_job job_id j [] r d h = ground arith
  sum-remaining_own by_job job_id j ((i, q) ∷ m) r d h = ground (
    arith,
    sum-remaining_own by_job job_id j m r d.1,
    d.0,
    sum-remaining_other by_job job_id j m,
    get-put job_id i j by_job,
    string_eq.beq_iff i job_id,
    string_eq.beq_iff job_id i,
  )

  pub committed-release :
      (g : TokenGovernor F) (job_id : String) → committed (release g job_id) ≤ committed g
  unfolding release reserved_tokens
  committed-release g job_id =
      omega (arith, sum_by-pop-le (remaining g.by_job) job_id g.reservations)

module _ {F : Type 0} ⦃f : Float F⦄ where
  -- A restored or a new reservation adds at most its estimate, so that the sum is known.
  reserved-put :
      (g : TokenGovernor F) (job_id role : String) (tokens : ℤ) (cost : Option F)
      → has job_id g.reservations ≡ false
      → sum_by (remaining g.by_job) (put job_id (new_reservation role tokens cost) g.reservations)
        ≤ sum_by (remaining g.by_job) g.reservations + clamp tokens
  unfolding remaining
  reserved-put g job_id role tokens cost h = omega (
    arith,
    sum_by-put_new (remaining g.by_job) job_id (new_reservation role tokens cost) g.reservations h,
  )

  -- A job that may start leaves the committed tokens within the global budget, and adds at most its
  -- estimate to them.
  pub reserve-within_budget :
      (g : TokenGovernor F) (job_id role : String) (tokens : ℤ) (cost : Option F) (budget : ℕ)
      {g' : TokenGovernor F}
      → g.global_budget ≡ some budget
      → reserve g job_id role tokens cost ≡ ok (g', true)
      → (committed g' ≤ budget) × (committed g' ≤ committed g + clamp tokens)
  unfolding reserve may_start reserved_tokens
  reserve-within_budget g job_id role tokens cost budget e h =
      ground (arith, reserved-put g job_id role tokens cost)

  -- Where reservations are distinct and the job holds one, a report of usage whose total does not
  -- fall adds to the committed tokens just what passes both the estimate and the earlier count.
  pub committed-record_usage :
      (g : TokenGovernor F) (job_id role : String) (usage : TokenUsage) (useful : Option Bool)
      (cost : Option F) (r : Reservation F)
      → Distinct g.reservations
      → get job_id g.reservations ≡ some r
      → (spent_by g.by_job job_id).total_tokens ≤ usage.total_tokens
      → committed (record_usage g job_id role usage useful cost)
        ≡ committed g
          + (usage.total_tokens - max r.estimated_tokens (spent_by g.by_job job_id).total_tokens)
  unfolding record_usage reserved_tokens
  committed-record_usage g job_id role usage useful cost r d held grows =
      omega (arith, sum-remaining_own g.by_job job_id _ g.reservations r d held)
