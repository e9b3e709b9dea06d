-- ===== src/Protocol/Listed.antt =====
-- contracts.py, `job_lifecycle_metrics`: which jobs the lists name, read off the events.
use autonomous_math_ai.Base.{
  ℕ, ◌+◌, ◌≡◌, ◌≢◌, ◌∙◌, refl, ap, sym, subst, arith, inl, inr, Bool, true, false, not, ◌&&◌, ◌||◌,
  String, List, [], ◌∷◌, leb, any, tally, elem, if◌then◌else◌, string_eq, ◌==◌, Bool-cases,
}
use autonomous_math_ai.Base.Dict.{has, get, get-put}
use autonomous_math_ai.Base.Sorting.{elem-sort_texts}
use autonomous_math_ai.Protocol.Metrics.{
  JobEvent, JobSets, minus, names, no_jobs, is_job_end, end_job, job_step, job_sets,
  job_lifecycle_metrics,
}
use autonomous_math_ai.Protocol.Counted.{elem-add_once, elem-names, elem-keep}

-- The events of a job, read one by one.
abbrev pub starts : String → JobEvent → Bool
starts j e = e.job_id == j && e.kind == "JOB_STARTED"

abbrev pub ends : String → JobEvent → Bool
ends j e = e.job_id == j && is_job_end e.kind

-- A start is no end.
start_is_no_end : (kind : String) → (kind == "JOB_STARTED") ≡ true → is_job_end kind ≡ false
start_is_no_end kind h =
    subst (λ (k : String). is_job_end k ≡ false) (sym ((string_eq.beq_iff kind "JOB_STARTED").0 h))
      refl

module _ (j : String) where
  end_job_lem :
      (e : JobEvent) (s : JobSets)
      → (has j (end_job e s).first_terminal ≡ (has j s.first_terminal || e.job_id == j))
        × (elem j (end_job e s).started ≡ elem j s.started)
        × (elem j (end_job e s).duplicate_terminal
            ≡ (elem j s.duplicate_terminal || (e.job_id == j && has j s.first_terminal)))
  unfolding end_job
  end_job_lem e s = elim (Bool-cases (e.job_id == j)) [
    | inl own ↦
        let same : e.job_id ≡ j = (string_eq.beq_iff e.job_id j).0 own in
        elim (Bool-cases (has e.job_id s.first_terminal)) [
          | inl ended ↦ ground (
            arith,
            elem-add_once j e.job_id s.duplicate_terminal,
            ap (λ (i : String). has i s.first_terminal) same,
            string_eq.beq_iff j e.job_id,
          )
          | inr first ↦ ground (
            arith,
            get-put e.job_id j e.kind s.first_terminal,
            ap (λ (i : String). has i s.first_terminal) same,
          )
        ]
    | inr other ↦ ground (
      arith,
      elem-add_once j e.job_id s.duplicate_terminal,
      get-put e.job_id j e.kind s.first_terminal,
      string_eq.beq_iff j e.job_id,
      string_eq.beq_iff e.job_id j,
    )
  ]

  job_step_lem :
      (e : JobEvent) (s : JobSets)
      → j ≢ ""
      → (has j (job_step e s).first_terminal ≡ (has j s.first_terminal || ends j e))
        × (elem j (job_step e s).started ≡ (elem j s.started || starts j e))
        × (elem j (job_step e s).duplicate_terminal
            ≡ (elem j s.duplicate_terminal || (ends j e && has j s.first_terminal)))
  unfolding job_step
  job_step_lem e s named = ground (
    arith,
    end_job_lem e s,
    elem-add_once j e.job_id s.started,
    string_eq.beq_iff e.job_id "",
    string_eq.beq_iff e.job_id j,
    string_eq.beq_iff j e.job_id,
    start_is_no_end e.kind,
  )

  abbrev once : JobSets → ℕ
  once s = if has j s.first_terminal then 1 else 0

  job_sets_lem :
      (es : List JobEvent) (s : JobSets)
      → j ≢ ""
      → (has j (job_sets es s).first_terminal ≡ (has j s.first_terminal || any (ends j) es))
        × (elem j (job_sets es s).started ≡ (elem j s.started || any (starts j) es))
        × (elem j (job_sets es s).duplicate_terminal
            ≡ (elem j s.duplicate_terminal || leb 2 (once s + tally (ends j) es)))
  unfolding job_sets
  job_sets_lem [] s named = ground arith
  job_sets_lem (e ∷ es) s named =
      let (ended, started, again) = job_step_lem e s named in
      let (ended', started', again') = job_sets_lem es (job_step e s) named in
      (ground arith, ground arith, ground arith)

-- Of a job with an id that is not empty: it is listed as active exactly if it has a JOB_STARTED
-- event and no terminal one, as an orphan exactly if it has a terminal event and no JOB_STARTED,
-- and as a duplicate exactly if it has two terminal events or more.
pub job_lists_lem :
    (events : List JobEvent) (j : String)
    → j ≢ ""
    → let m = job_lifecycle_metrics events in
      (elem j m.active_job_ids ≡ (any (starts j) events && not (any (ends j) events)))
      × (elem j m.orphan_terminal_job_ids ≡ (any (ends j) events && not (any (starts j) events)))
      × (elem j m.duplicate_terminal_job_ids ≡ leb 2 (tally (ends j) events))
unfolding job_lifecycle_metrics get
job_lists_lem events j named =
    let s = job_sets events no_jobs in
    let (ended, started, again) = job_sets_lem j events no_jobs named in
    let terminal = names s.first_terminal in
    (
      elem-sort_texts j (minus s.started terminal)
          ∙ elem-keep j (λ x. not (elem x terminal)) s.started
          ∙ ground (arith, elem-names j s.first_terminal),
      elem-sort_texts j (minus terminal s.started)
          ∙ elem-keep j (λ x. not (elem x s.started)) terminal
          ∙ ground (arith, elem-names j s.first_terminal),
      elem-sort_texts j s.duplicate_terminal ∙ ground (arith),
    )
