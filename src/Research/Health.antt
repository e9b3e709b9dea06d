-- ===== src/Research/Health.antt =====
-- reasoning_health.py: the monitor of suspicious turns.
use autonomous_math_ai.Base.{
  ℕ, ◌+◌, ◌-◌, Bool, false, ◌&&◌, ◌||◌, not, String, Option, none, some, List, [], ◌∷◌, ◌++◌,
  length, drop, all, leb, ltb, nat_beq, if◌then◌else◌, string_eq, ◌==◌,
}
use autonomous_math_ai.Base.Int.{ℤ, pos, negsuc}
use autonomous_math_ai.Base.Dict.{Dict, get, put}
use autonomous_math_ai.Base.Result.{Result, ok, raise, ◌>>=◌, ◌>>◌, raise_if}
use autonomous_math_ai.Models.Usage.{TokenUsage}

pub data Diagnostic : Type 0 where
  unknown_telemetry repeated_reasoning_tokens short_reasoning healthy : Diagnostic

pub data HealthAction : Type 0 where
  no_action diagnose_only retry escalate : HealthAction

pub record ReasoningHealthSignal : Type 0 where
  pub diagnostic : Diagnostic
  pub action : HealthAction
  pub observed_reasoning_tokens : Option ℕ
  pub recommended_effort : Option String

pub record ReasoningHealthMonitor : Type 0 where
  pub short_reasoning_tokens : ℕ
  pub repeated_token_tolerance : ℕ
  pub retry_limit : ℕ
  pub reasoning_history : Dict String (List ℕ)
  pub actions_used : Dict String ℕ

pub data HealthError : Type 0 where
  negative_short_tokens low_tolerance negative_retry_limit : HealthError

abbrev pub non_negative : HealthError → ℤ → Result HealthError ℕ
non_negative e (pos n) = ok n
non_negative e (negsuc n) = raise e

-- `__init__`
unfoldable pub new_monitor :
    (short tolerance retries : ℤ) → Result HealthError ReasoningHealthMonitor
new_monitor short tolerance retries = do
  short_tokens ← non_negative negative_short_tokens short
  least ← non_negative low_tolerance tolerance
  raise_if (ltb least 2) low_tolerance
  limit ← non_negative negative_retry_limit retries
  ok (record {
    short_reasoning_tokens = short_tokens;
    repeated_token_tolerance = least;
    retry_limit = limit;
    reasoning_history = [];
    actions_used = [];
  })

abbrev pub or_empty : Option (List ℕ) → List ℕ
or_empty none = []
or_empty (some history) = history

abbrev pub used_of : Option ℕ → ℕ
used_of none = 0
used_of (some n) = n

-- `xs[-n:]` for n from 1 up
abbrev pub last_ones : ℕ → List ℕ → List ℕ
last_ones n xs = drop (length xs - n) xs

-- The history with the new count, no longer than the tolerance.
abbrev pub remember : ℕ → ℕ → List ℕ → List ℕ
remember tolerance observed history = last_ones tolerance (history ++ observed ∷ [])

-- `len(set(xs)) == 1`
abbrev pub is_constant : List ℕ → Bool
is_constant [] = false
is_constant (x ∷ xs) = all (λ y. nat_beq y x) xs

abbrev pub is_repeated : ℕ → List ℕ → Bool
is_repeated tolerance history =
    leb tolerance (length history) && is_constant (last_ones tolerance history)

abbrev pub signal : Diagnostic → HealthAction → Option ℕ → Option String → ReasoningHealthSignal
signal diagnostic action observed effort = record {
  diagnostic = diagnostic;
  action = action;
  observed_reasoning_tokens = observed;
  recommended_effort = effort;
}

-- The answer to a suspicious turn, within the limit of the job.
abbrev pub intervene :
    String
    → (effort : String) → Bool
    → Diagnostic
    → ℕ
    → ReasoningHealthMonitor
    → ReasoningHealthMonitor × ReasoningHealthSignal
intervene job_id effort max_supported diagnostic observed m =
    let used = used_of (get job_id m.actions_used) in
    if leb m.retry_limit used then (m, signal diagnostic diagnose_only (some observed) none) else (
      record m { actions_used = put job_id (used + 1) m.actions_used },
      if effort == "xhigh" && max_supported
          then signal diagnostic escalate (some observed) (some "max")
          else signal diagnostic retry (some observed) none,
    )

unfoldable pub observe :
    (job_id effort : String)
    → TokenUsage
    → (telemetry : String) → Bool
    → ReasoningHealthMonitor
    → ReasoningHealthMonitor × ReasoningHealthSignal
observe job_id effort usage telemetry max_supported m =
    let observed = usage.reasoning_output_tokens in
    let history =
      remember m.repeated_token_tolerance observed (or_empty (get job_id m.reasoning_history)) in
    let seen = record m { reasoning_history = put job_id history m.reasoning_history } in
    if not (telemetry == "observed") || nat_beq observed 0
    then (m, signal unknown_telemetry diagnose_only none none)
    else if is_repeated m.repeated_token_tolerance history
    then intervene job_id effort max_supported repeated_reasoning_tokens observed seen
    else if leb observed m.short_reasoning_tokens
    then intervene job_id effort max_supported short_reasoning observed seen
    else (seen, signal healthy no_action (some observed) none)
