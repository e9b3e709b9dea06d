-- ===== src/Protocol/Metrics.antt =====
-- contracts.py, `job_lifecycle_metrics` and `mechanical_lifecycle_metrics`: the counts of jobs, from
-- the events of a run.
use autonomous_math_ai.Base.{
  ℕ, Bool, not, ◌||◌, String, List, [], ◌∷◌, ◌++◌, length, keep, elem, if◌then◌else◌, string_eq,
  ◌==◌,
}
use Prim.Native.String.{◌++◌ as join}
use autonomous_math_ai.Base.Dict.{Dict, has, put}
use autonomous_math_ai.Base.Sorting.{sort_texts}

-- An event, with the texts that `str(... or "")` makes of its fields.
pub record JobEvent : Type 0 where
  pub kind : String
  pub job_id : String

-- `set.add_once`
abbrev pub add_once : String → List String → List String
add_once x xs = if elem x xs then xs else xs ++ x ∷ []

-- `xs - ys`
abbrev pub minus : List String → List String → List String
minus xs ys = keep (λ x. not (elem x ys)) xs

abbrev pub names : Dict String String → List String
names [] = []
names ((k, v) ∷ rest) = k ∷ names rest

pub record JobSets : Type 0 where
  pub started : List String
  pub completed : List String
  pub cancelled : List String
  pub first_terminal : Dict String String
  pub duplicate_terminal : List String

abbrev pub no_jobs : JobSets
no_jobs = record {
  started = [];
  completed = [];
  cancelled = [];
  first_terminal = [];
  duplicate_terminal = [];
}

abbrev pub is_job_end : String → Bool
is_job_end kind = kind == "JOB_COMPLETED" || kind == "JOB_CANCELLED"

-- A terminal event: the first of its job counts, any other is written down as a duplicate.
unfoldable pub end_job : JobEvent → JobSets → JobSets
end_job e s =
    if has e.job_id s.first_terminal
    then record s { duplicate_terminal = add_once e.job_id s.duplicate_terminal }
    else record s {
      first_terminal = put e.job_id e.kind s.first_terminal;
      completed = if e.kind == "JOB_COMPLETED" then add_once e.job_id s.completed else s.completed;
      cancelled = if e.kind == "JOB_COMPLETED" then s.cancelled else add_once e.job_id s.cancelled;
    }

unfoldable pub job_step : JobEvent → JobSets → JobSets
unfolding end_job
job_step e s =
    if e.job_id == ""
    then s
    else if e.kind == "JOB_STARTED"
    then record s { started = add_once e.job_id s.started }
    else if is_job_end e.kind
    then end_job e s
    else s

unfoldable pub job_sets : List JobEvent → JobSets → JobSets
unfolding job_step
job_sets [] s = s
job_sets (e ∷ es) s = job_sets es (job_step e s)

pub record JobLifecycleMetrics : Type 0 where
  pub jobs_started : ℕ
  pub jobs_completed : ℕ
  pub jobs_cancelled : ℕ
  pub jobs_terminal : ℕ
  pub active_job_ids : List String
  pub duplicate_terminal_job_ids : List String
  pub orphan_terminal_job_ids : List String

abbrev pub job_counts : JobSets → JobLifecycleMetrics
job_counts s =
    let terminal = names s.first_terminal in
    record {
      jobs_started = length s.started;
      jobs_completed = length s.completed;
      jobs_cancelled = length s.cancelled;
      jobs_terminal = length terminal;
      active_job_ids = sort_texts (minus s.started terminal);
      duplicate_terminal_job_ids = sort_texts s.duplicate_terminal;
      orphan_terminal_job_ids = sort_texts (minus terminal s.started);
    }

unfoldable pub job_lifecycle_metrics : List JobEvent → JobLifecycleMetrics
unfolding job_sets
job_lifecycle_metrics events = job_counts (job_sets events no_jobs)

-- The same for the subtasks, which are known by the job above them and their own id.
pub record SubtaskEvent : Type 0 where
  pub kind : String
  pub parent_job_id : String
  pub subtask_id : String
  pub mechanical_job_id : String

abbrev pub subtask_key : SubtaskEvent → String
subtask_key e =
    if e.parent_job_id == "" || e.subtask_id == ""
    then ""
    else join e.parent_job_id (join "/" e.subtask_id)

pub record SubtaskSets : Type 0 where
  pub requested : List String
  pub started_attempts : List String
  pub first_terminal : Dict String String
  pub duplicate : List String
  pub completed : List String
  pub failed : List String

abbrev pub no_subtasks : SubtaskSets
no_subtasks = record {
  requested = [];
  started_attempts = [];
  first_terminal = [];
  duplicate = [];
  completed = [];
  failed = [];
}

abbrev pub is_subtask_end : String → Bool
is_subtask_end kind = kind == "MECHANICAL_SUBTASK_COMPLETED" || kind == "MECHANICAL_SUBTASK_FAILED"

unfoldable pub end_subtask : String → String → SubtaskSets → SubtaskSets
end_subtask key kind s =
    if has key s.first_terminal
    then record s { duplicate = add_once key s.duplicate }
    else record s {
      first_terminal = put key kind s.first_terminal;
      completed =
          if kind == "MECHANICAL_SUBTASK_COMPLETED" then add_once key s.completed else s.completed;
      failed = if kind == "MECHANICAL_SUBTASK_COMPLETED" then s.failed else add_once key s.failed;
    }

unfoldable pub subtask_step : SubtaskEvent → SubtaskSets → SubtaskSets
unfolding end_subtask
subtask_step e s =
    let key = subtask_key e in
    if key == ""
    then s
    else if e.kind == "MECHANICAL_SUBTASK_REQUESTED"
    then record s { requested = add_once key s.requested }
    else if e.kind == "MECHANICAL_SUBTASK_STARTED"
    then (if e.mechanical_job_id == ""
        then s
        else record s { started_attempts = add_once e.mechanical_job_id s.started_attempts })
    else if is_subtask_end e.kind
    then end_subtask key e.kind s
    else s

unfoldable pub subtask_sets : List SubtaskEvent → SubtaskSets → SubtaskSets
unfolding subtask_step
subtask_sets [] s = s
subtask_sets (e ∷ es) s = subtask_sets es (subtask_step e s)

pub record MechanicalLifecycleMetrics : Type 0 where
  pub requested : ℕ
  pub attempts_started : ℕ
  pub completed : ℕ
  pub failed : ℕ
  pub terminal : ℕ
  pub active_subtasks : List String
  pub duplicate_terminal_subtasks : List String
  pub orphan_terminal_subtasks : List String

abbrev pub subtask_counts : SubtaskSets → MechanicalLifecycleMetrics
subtask_counts s =
    let terminal = names s.first_terminal in
    record {
      requested = length s.requested;
      attempts_started = length s.started_attempts;
      completed = length s.completed;
      failed = length s.failed;
      terminal = length terminal;
      active_subtasks = sort_texts (minus s.requested terminal);
      duplicate_terminal_subtasks = sort_texts s.duplicate;
      orphan_terminal_subtasks = sort_texts (minus terminal s.requested);
    }

unfoldable pub mechanical_lifecycle_metrics : List SubtaskEvent → MechanicalLifecycleMetrics
unfolding subtask_sets
mechanical_lifecycle_metrics events = subtask_counts (subtask_sets events no_subtasks)
