-- ===== src/Protocol/Tests.antt =====
-- contracts.py on a few events: a job that ends twice, one that goes on, and one that never started.
use autonomous_math_ai.Base.{
  ◌+◌, ◌≡◌, refl, not, ◌&&◌, String, List, [], ◌∷◌, any, tally, leb, elem, length, string_eq,
}
use autonomous_math_ai.Base.Dict.{get, put}
use autonomous_math_ai.Protocol.Metrics.{JobEvent, JobLifecycleMetrics, job_lifecycle_metrics}
use autonomous_math_ai.Protocol.Counted.{job_counts_balance}
use autonomous_math_ai.Protocol.Listed.{starts, ends, job_lists_lem}

abbrev event : String → String → JobEvent
event kind job_id = record { kind = kind; job_id = job_id }

abbrev events : List JobEvent
events =
    event "JOB_STARTED" "a"
    ∷ event "JOB_COMPLETED" "a"
    ∷ event "JOB_STARTED" "b"
    ∷ event "JOB_CANCELLED" "a"
    ∷ event "JOB_CANCELLED" "c"
    ∷ event "JOB_STARTED" ""
    ∷ []

abbrev metrics : JobLifecycleMetrics
metrics = record {
  jobs_started = 2;
  jobs_completed = 1;
  jobs_cancelled = 1;
  jobs_terminal = 2;
  active_job_ids = "b" ∷ [];
  duplicate_terminal_job_ids = "a" ∷ [];
  orphan_terminal_job_ids = "c" ∷ [];
}

events_counted : job_lifecycle_metrics events ≡ metrics
unfolding job_lifecycle_metrics get put
events_counted = refl

job_counts_balance_example :
    let m = job_lifecycle_metrics events in
    (m.jobs_completed + m.jobs_cancelled ≡ m.jobs_terminal)
    × (m.jobs_started + length m.orphan_terminal_job_ids
        ≡ length m.active_job_ids + m.jobs_terminal)
job_counts_balance_example = job_counts_balance events

job_lists_example :
    let m = job_lifecycle_metrics events in
    (elem "a" m.active_job_ids ≡ (any (starts "a") events && not (any (ends "a") events)))
    × (elem "a" m.orphan_terminal_job_ids
        ≡ (any (ends "a") events && not (any (starts "a") events)))
    × (elem "a" m.duplicate_terminal_job_ids ≡ leb 2 (tally (ends "a") events))
job_lists_example = job_lists_lem events "a" (λ e. cc)
