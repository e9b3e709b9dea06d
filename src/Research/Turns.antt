-- ===== src/Research/Turns.antt =====
-- research_job.py: when a research job goes on.
use autonomous_math_ai.Base.{
  ℕ, ◌<◌, ◌≡◌, ◌⊎◌, inl, inr, refl, branch_taken, true, false, String, Option, some, none, ◌==◌,
  if◌then◌else◌, Bool, ap, leb, arith, string_eq,
}
use autonomous_math_ai.Base.Result.{Result, ok, ok-injective, >>=-eq-ok}
use autonomous_math_ai.Research.Health.{Diagnostic, ReasoningHealthSignal}
use autonomous_math_ai.Research.TurnPolicy.{
  given, stop, StopReason, execution_terminal, candidate_repair_failed, canonical_progress_made,
  candidate_entered, turn_limit_reached, persistent_blocker, budget_stopped, go_on, asks_again,
  within_turns, after_blocker, after_budget, rejected_early, result_type_of, continuation_prompt,
  ResearchTurnPolicy, PolicyError, TurnReport, TurnDirective, continue_with, Prompt,
  candidate_repair_prompt, blocker_repair_prompt, max_turns_for, decide, CandidateDisposition,
}

early_of :
    (o : Option CandidateDisposition) (d : CandidateDisposition)
    → rejected_early o ≡ some d
    → (o ≡ some d) × (d.status ≡ "REJECTED") × (d.auditor_queue_entered ≡ false)
early_of none d h = cc
early_of (some c) d h = ground (arith, string_eq.beq_iff c.status "REJECTED")

named_type :
    (b : Bool) (type : String)
    → (if b then "NO_PROGRESS" else type) == "BLOCKED" ≡ true
    → type ≡ "BLOCKED"
named_type true type h = cc
named_type false type h = (string_eq.beq_iff type "BLOCKED").0 h

blocked_of : (o : Option String) → result_type_of o == "BLOCKED" ≡ true → o ≡ some "BLOCKED"
blocked_of none h = cc
blocked_of (some type) h = ap some (named_type (type == "") type h)

-- The candidate of the turn was rejected before it entered the queue, and is to be repaired.
abbrev pub ByRejection : TurnReport → Prompt → Type 0
ByRejection r prompt =
    (d : CandidateDisposition) × (prompt ≡ candidate_repair_prompt d)
    × (r.candidate_disposition ≡ some d)
    × (d.status ≡ "REJECTED")
    × (d.auditor_queue_entered ≡ false)

-- The turn was blocked, and the blocker was not repaired before.
abbrev pub ByBlocker : TurnReport → Prompt → Type 0
ByBlocker r prompt =
    (prompt ≡ blocker_repair_prompt)
    × (r.result_type ≡ some "BLOCKED")
    × (r.blocker_repair_attempted ≡ false)

-- The role has turns left.
abbrev pub ByTurn : ResearchTurnPolicy → TurnReport → Prompt → Type 0
ByTurn p r prompt =
    (s : Option Diagnostic) × (limit : ℕ) × (prompt ≡ continuation_prompt s)
    × (max_turns_for p r.role ≡ ok limit)
    × (r.turn_index < limit)

gone_on :
    (s : Option ReasoningHealthSignal) {prompt : Prompt} {effort : Option String}
    → go_on s ≡ continue_with prompt effort
    → (d : Option Diagnostic) × (prompt ≡ continuation_prompt d)
gone_on none h = (none, cc)
gone_on (some s) h = (some s.diagnostic, cc)

within_limit :
    (b : Bool) (t : TurnDirective) {prompt : Prompt} {effort : Option String}
    → (if b then stop turn_limit_reached else t) ≡ continue_with prompt effort
    → (b ≡ false) × (t ≡ continue_with prompt effort)
within_limit true t h = cc
within_limit false t h = (refl, h)

within_turns-ByTurn :
    (p : ResearchTurnPolicy) (r : TurnReport) {prompt : Prompt} {effort : Option String}
    → within_turns p r ≡ ok (continue_with prompt effort)
    → ByTurn p r prompt
within_turns-ByTurn p r h =
    let (limit, found, more) = >>=-eq-ok (max_turns_for p r.role) _ h in
    let (left, on) =
      within_limit (leb limit r.turn_index) (go_on (asks_again r.health_signal))
        (ok-injective more) in
    let (d, prompted) = gone_on (asks_again r.health_signal) on in
    (d, limit, prompted, found, ground (arith, left))

after_blocker-reason :
    (p : ResearchTurnPolicy) (r : TurnReport) {prompt : Prompt} {effort : Option String}
    → after_blocker p r ≡ ok (continue_with prompt effort)
    → ByBlocker r prompt ⊎ ByTurn p r prompt
after_blocker-reason p r h =
    elim (branch_taken (result_type_of r.result_type == "BLOCKED")
      (ok (
        if r.blocker_repair_attempted
        then stop persistent_blocker
        else continue_with blocker_repair_prompt none))
      (within_turns p r) h) [
        | inl (blocked, e) ↦ inl (ground (arith, blocked_of r.result_type blocked, e))
        | inr (other, e) ↦ inr (within_turns-ByTurn p r e)
      ]

-- A test that stops the job has failed where the job goes on.
passed :
    (b : Bool) (s : StopReason) (m : Result PolicyError TurnDirective) {prompt : Prompt}
    {effort : Option String}
    → (if b then ok (stop s) else m) ≡ ok (continue_with prompt effort)
    → (b ≡ false) × (m ≡ ok (continue_with prompt effort))
passed true s m h = cc
passed false s m h = (refl, h)

after_budget-reason :
    (p : ResearchTurnPolicy) (r : TurnReport) (o : Option CandidateDisposition) {prompt : Prompt}
    {effort : Option String}
    → rejected_early r.candidate_disposition ≡ o
    → after_budget p r o ≡ ok (continue_with prompt effort)
    → (r.candidate_repair_attempted ≡ false)
      × (ByRejection r prompt ⊎ ByBlocker r prompt ⊎ ByTurn p r prompt)
after_budget-reason p r none same h =
    let (usable, h1) =
      passed (result_type_of r.result_type == "TOOL_ERROR") execution_terminal _ h in
    let (fresh, h2) =
      passed r.candidate_repair_attempted candidate_repair_failed (after_blocker p r) h1 in
    (fresh, inr (after_blocker-reason p r h2))
after_budget-reason p r (some d) same h =
    let (usable, h1) =
      passed (result_type_of r.result_type == "TOOL_ERROR") execution_terminal _ h in
    let (fresh, h2) =
      passed r.candidate_repair_attempted candidate_repair_failed
        (ok (continue_with (candidate_repair_prompt d) none)) h1 in
    let (given_as, status, queue) = early_of r.candidate_disposition d same in
    (fresh, inl (d, cc h2, given_as, status, queue))

within_budget :
    (o : Option String) (m : Result PolicyError TurnDirective) {prompt : Prompt}
    {effort : Option String}
    → elim o [ some reason ↦ ok (stop (budget_stopped reason)) | none ↦ m ]
      ≡ ok (continue_with prompt effort)
    → (o ≡ none) × (m ≡ ok (continue_with prompt effort))
within_budget none m h = (refl, h)
within_budget (some reason) m h = cc

-- A job goes on only without canonical progress, without an accepted candidate, without a reason of
-- the budget to stop and without an attempted candidate repair, and only in one of three ways: to
-- repair the candidate of its report, whose status is REJECTED and which did not enter the queue of
-- the auditors; to repair the blocker of a result BLOCKED for the first time; or with a
-- continuation prompt, in a turn below the limit of its role.
pub continue_reasons :
    (p : ResearchTurnPolicy) (r : TurnReport) {prompt : Prompt} {effort : Option String}
    → decide p r ≡ ok (continue_with prompt effort)
    → (r.canonical_progress ≡ false)
      × (r.candidate_accepted ≡ false)
      × (given r.budget_stop_reason ≡ none)
      × (r.candidate_repair_attempted ≡ false)
      × (ByRejection r prompt ⊎ ByBlocker r prompt ⊎ ByTurn p r prompt)
unfolding decide
continue_reasons p r h =
    let early = rejected_early r.candidate_disposition in
    let (unproved, h1) = passed r.canonical_progress canonical_progress_made _ h in
    let (unaccepted, h2) = passed r.candidate_accepted candidate_entered _ h1 in
    let (affordable, h3) = within_budget (given r.budget_stop_reason) (after_budget p r early) h2 in
    let (fresh, reasons) = after_budget-reason p r early refl h3 in
    (unproved, unaccepted, affordable, fresh, reasons)
