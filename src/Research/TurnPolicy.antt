-- ===== src/Research/TurnPolicy.antt =====
-- research_job.py: the policy that decides after each turn whether a research job goes on. The texts
-- of the prompts are not modelled: a prompt is the call that writes it.
use autonomous_math_ai.Base.{
  ℕ, zero, suc, Bool, true, false, not, ◌&&◌, ◌||◌, String, Option, none, some, List, [], ◌∷◌, leb,
  any, has_unknown, if◌then◌else◌, string_eq, ◌==◌,
}
use autonomous_math_ai.Base.Int.{ℤ, pos, negsuc}
use autonomous_math_ai.Base.Dict.{Dict, get}
use autonomous_math_ai.Base.Result.{Result, ok, raise, ◌>>=◌, ◌>>◌, raise_if}
use autonomous_math_ai.Research.Health.{Diagnostic, retry, escalate, ReasoningHealthSignal}

pub record ResearchTurnPolicy : Type 0 where
  pub max_turns : Dict String ℕ

pub data PolicyError : Type 0 where
  max_turns_not_positive wrong_roles : PolicyError
  unsupported_role : String → PolicyError

-- `candidate_disposition`, where it is not empty
pub record CandidateDisposition : Type 0 where
  pub status : String
  pub auditor_queue_entered : Bool

pub data Prompt : Type 0 where
  candidate_repair_prompt : CandidateDisposition → Prompt
  blocker_repair_prompt : Prompt
  continuation_prompt : Option Diagnostic → Prompt

pub data StopReason : Type 0 where
  canonical_progress_made candidate_entered execution_terminal candidate_repair_failed
        persistent_blocker turn_limit_reached :
      StopReason
  budget_stopped : String → StopReason

pub data TurnDirective : Type 0 where
  stop : StopReason → TurnDirective
  continue_with : Prompt → (effort : Option String) → TurnDirective

abbrev pub is_positive : ℤ → Bool
is_positive (pos zero) = false
is_positive (pos (suc n)) = true
is_positive (negsuc n) = false

abbrev pub value : ℤ → ℕ
value (pos n) = n
value (negsuc n) = 0

-- `max_turns` is one limit, or one for each role.
pub data MaxTurns : Type 0 where
  same_for_all : ℤ → MaxTurns
  per_role : Dict String ℤ → MaxTurns

abbrev pub research_roles : List String
research_roles = "prover" ∷ "falsifier" ∷ "explorer" ∷ []

abbrev pub role_names : Dict String ℤ → List String
role_names [] = []
role_names ((role, n) ∷ rest) = role ∷ role_names rest

abbrev pub limits : Dict String ℤ → Dict String ℕ
limits [] = []
limits ((role, n) ∷ rest) = (role, value n) ∷ limits rest

abbrev pub roles_are_wrong : Dict String ℤ → Bool
roles_are_wrong turns =
    has_unknown (role_names turns) research_roles
    || (has_unknown research_roles (role_names turns)
        || any (λ (entry : String × ℤ). not (is_positive entry.1)) turns)

-- `__init__`
unfoldable pub new_policy : MaxTurns → Result PolicyError ResearchTurnPolicy
new_policy (same_for_all n) = do
  raise_if (not (is_positive n)) max_turns_not_positive
  ok (record {
    max_turns = ("prover", value n) ∷ ("falsifier", value n) ∷ ("explorer", value n) ∷ [];
  })
new_policy (per_role turns) = do
  raise_if (roles_are_wrong turns) wrong_roles
  ok (record { max_turns = limits turns })

unfoldable pub max_turns_for : ResearchTurnPolicy → String → Result PolicyError ℕ
max_turns_for p role = elim (get role p.max_turns) [
  | none ↦ raise (unsupported_role role)
  | some n ↦ ok n
]

-- What `decide` is told of the turn that has ended.
pub record TurnReport : Type 0 where
  pub result_type : Option String
  pub role : String
  pub turn_index : ℕ
  pub candidate_accepted : Bool
  pub canonical_progress : Bool
  pub health_signal : Option ReasoningHealthSignal
  pub budget_stop_reason : Option String
  pub blocker_repair_attempted : Bool
  pub candidate_disposition : Option CandidateDisposition
  pub candidate_repair_attempted : Bool

-- `str(result.get("result_type") or "NO_PROGRESS")`
abbrev pub result_type_of : Option String → String
result_type_of none = "NO_PROGRESS"
result_type_of (some type) = if type == "" then "NO_PROGRESS" else type

-- A text that is given and not empty.
abbrev pub given : Option String → Option String
given none = none
given (some text) = if text == "" then none else some text

-- The disposition of a candidate that was rejected before the audit.
abbrev pub rejected_early : Option CandidateDisposition → Option CandidateDisposition
rejected_early none = none
rejected_early (some d) =
    if d.status == "REJECTED" && not d.auditor_queue_entered then some d else none

abbrev pub asks_again : Option ReasoningHealthSignal → Option ReasoningHealthSignal
asks_again none = none
asks_again (some s) = elim s.action [ retry ↦ some s | escalate ↦ some s | other ↦ none ]

-- The last part of `decide`, within the limit of turns.
abbrev pub go_on : Option ReasoningHealthSignal → TurnDirective
go_on none = continue_with (continuation_prompt none) none
go_on (some s) = continue_with (continuation_prompt (some s.diagnostic)) s.recommended_effort

abbrev pub within_turns : ResearchTurnPolicy → TurnReport → Result PolicyError TurnDirective
within_turns p r = do
  limit ← max_turns_for p r.role
  ok (
      if leb limit r.turn_index
      then stop turn_limit_reached
      else go_on (asks_again r.health_signal))

abbrev pub after_blocker : ResearchTurnPolicy → TurnReport → Result PolicyError TurnDirective
after_blocker p r =
    if result_type_of r.result_type == "BLOCKED"
    then ok (
        if r.blocker_repair_attempted
        then stop persistent_blocker
        else continue_with blocker_repair_prompt none)
    else within_turns p r

abbrev pub after_budget :
    ResearchTurnPolicy → TurnReport → Option CandidateDisposition → Result PolicyError TurnDirective
after_budget p r disposition =
    if result_type_of r.result_type == "TOOL_ERROR"
    then ok (stop execution_terminal)
    else if r.candidate_repair_attempted
    then ok (stop candidate_repair_failed)
    else elim disposition [
      | some d ↦ ok (continue_with (candidate_repair_prompt d) none)
      | none ↦ after_blocker p r
    ]

unfoldable pub decide : ResearchTurnPolicy → TurnReport → Result PolicyError TurnDirective
unfolding max_turns_for
decide p r =
    if r.canonical_progress
    then ok (stop canonical_progress_made)
    else if r.candidate_accepted
    then ok (stop candidate_entered)
    else elim (given r.budget_stop_reason) [
      | some reason ↦ ok (stop (budget_stopped reason))
      | none ↦ after_budget p r (rejected_early r.candidate_disposition)
    ]
