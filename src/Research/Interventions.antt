-- ===== src/Research/Interventions.antt =====
-- reasoning_health.py: how often the monitor intervenes, and what it remembers.
use autonomous_math_ai.Base.{
  ℕ, ◌+◌, ◌-◌, ◌≤◌, ◌≡◌, refl, Bool, String, List, [], ◌∷◌, ◌++◌, length, All, length-drop,
  if◌then◌else◌, string_eq, ◌==◌, arith,
}
use autonomous_math_ai.Base.Int.{ℤ}
use autonomous_math_ai.Base.Dict.{get, get-put, All-put}
use autonomous_math_ai.Base.Result.{ok}
use autonomous_math_ai.Models.Usage.{TokenUsage}
use autonomous_math_ai.Research.Health.{
  ReasoningHealthMonitor, ReasoningHealthSignal, HealthAction, retry, escalate, new_monitor,
  observe, used_of, remember, or_empty,
}

-- RETRY and ESCALATE
abbrev pub acts : HealthAction → ℕ
acts retry = 1
acts escalate = 1
acts _ = 0

abbrev pub acts_for : String → String → ReasoningHealthSignal → ℕ
acts_for job job_id s = if job_id == job then acts s.action else 0

-- A run of the monitor, and how often it has intervened in one job.
pub data Watch (job : String) (m : ReasoningHealthMonitor)
    : ReasoningHealthMonitor → ℕ → Type 0 where
  here : Watch job m m 0
  next :
      {n : ReasoningHealthMonitor} {count : ℕ} (job_id effort : String) (usage : TokenUsage)
      (telemetry : String) (max_supported : Bool)
      → Watch job m n count
      → Watch job m
          (observe job_id effort usage telemetry max_supported n).0
          (count + acts_for job job_id (observe job_id effort usage telemetry max_supported n).1)

abbrev pub IsShort : ℕ → String × List ℕ → Type 0
IsShort tolerance (job_id, history) = length history ≤ tolerance

-- What the run has used of one job is what it has done, within the limit, and no history is longer
-- than the tolerance.
pub record IsBounded (job : String) (limit tolerance count : ℕ) (m : ReasoningHealthMonitor)
    : Type 0 where
  pub limited : m.retry_limit ≡ limit
  pub tolerant : m.repeated_token_tolerance ≡ tolerance
  pub used : used_of (get job m.actions_used) ≡ count
  pub few : count ≤ limit
  pub short : All (IsShort tolerance) m.reasoning_history

length-remember :
    (tolerance observed : ℕ) (history : List ℕ)
    → length (remember tolerance observed history) ≤ tolerance
length-remember tolerance observed history =
    omega (
      arith,
      length-drop (length (history ++ observed ∷ []) - tolerance) (history ++ observed ∷ []),
    )

observe-IsBounded :
    (job : String) (limit tolerance count : ℕ) (job_id effort : String) (usage : TokenUsage)
    (telemetry : String) (max_supported : Bool) (m : ReasoningHealthMonitor)
    → IsBounded job limit tolerance count m
    → IsBounded job limit tolerance
        (count + acts_for job job_id (observe job_id effort usage telemetry max_supported m).1)
        (observe job_id effort usage telemetry max_supported m).0
unfolding observe
observe-IsBounded job limit tolerance count job_id effort usage telemetry max_supported m b =
    ground (
      arith,
      b.limited,
      b.tolerant,
      b.used,
      b.few,
      b.short,
      get-put job_id job (used_of (get job_id m.actions_used) + 1) m.actions_used,
      string_eq.beq_iff job_id job,
      All-put (IsShort m.repeated_token_tolerance) job_id
          (remember m.repeated_token_tolerance usage.reasoning_output_tokens
            (or_empty (get job_id m.reasoning_history)))
          m.reasoning_history
          (length-remember m.repeated_token_tolerance usage.reasoning_output_tokens
            (or_empty (get job_id m.reasoning_history))),
    )

Watch-IsBounded :
    (job : String) (limit tolerance : ℕ) {m n : ReasoningHealthMonitor} {count : ℕ}
    → Watch job m n count
    → IsBounded job limit tolerance 0 m
    → IsBounded job limit tolerance count n
Watch-IsBounded job limit tolerance here b = b
Watch-IsBounded job limit tolerance (next {n} {count} job_id effort usage telemetry max w) b =
    observe-IsBounded job limit tolerance count job_id effort usage telemetry max n
      (Watch-IsBounded job limit tolerance w b)

new_monitor-IsBounded :
    (job : String) (short tolerance retries : ℤ) {m : ReasoningHealthMonitor}
    → new_monitor short tolerance retries ≡ ok m
    → IsBounded job m.retry_limit m.repeated_token_tolerance 0 m
unfolding new_monitor get
new_monitor-IsBounded job short tolerance retries {m} e = record {
  limited = refl;
  tolerant = refl;
  used = ground (arith, e);
  few = omega arith;
  short = ground (arith, e);
}

-- Whatever a new monitor is shown, it answers at most as many turns of one job with RETRY or
-- ESCALATE as its retry limit says, and it remembers no more counts of a job than its tolerance.
pub interventions_bounded :
    (job : String) (short tolerance retries : ℤ) {m n : ReasoningHealthMonitor} {count : ℕ}
    → new_monitor short tolerance retries ≡ ok m
    → Watch job m n count
    → (count ≤ m.retry_limit) × All (IsShort m.repeated_token_tolerance) n.reasoning_history
interventions_bounded job short tolerance retries {m} made w =
    let b =
      Watch-IsBounded job m.retry_limit m.repeated_token_tolerance w
        (new_monitor-IsBounded job short tolerance retries made) in
    (b.few, b.short)
