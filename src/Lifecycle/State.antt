-- ===== src/Lifecycle/State.antt =====
-- lifecycle/state.py: the phases of a run.
pub mod Reach
pub mod Tests
use autonomous_math_ai.Base.{
  Bool, true, false, String, Option, none, some, List, [], ◌∷◌, elem, if◌then◌else◌,
}
use autonomous_math_ai.Base.Result.{Result, ok, raise}
use autonomous_math_ai.Models.{
  LifecyclePhase, bootstrap, running, draining_failure, draining_budget, draining_epoch, finalizing,
  sealed, completed, lifecycle_phase_beq, lifecycle_phase_eq,
}

-- `_ALLOWED`
unfoldable pub allowed : LifecyclePhase → List LifecyclePhase
allowed bootstrap = running ∷ draining_failure ∷ []
allowed running = draining_failure ∷ draining_budget ∷ draining_epoch ∷ finalizing ∷ []
allowed draining_failure = sealed ∷ []
allowed draining_budget = sealed ∷ []
allowed draining_epoch = sealed ∷ []
allowed finalizing = completed ∷ draining_failure ∷ []
allowed sealed = []
allowed completed = []

pub record MonotoneLifecycle : Type 0 where
  pub phase : LifecyclePhase
  pub reason : Option String

abbrev pub fresh : MonotoneLifecycle
fresh = record { phase = bootstrap; reason = none }

unfoldable pub can_dispatch : MonotoneLifecycle → Bool
can_dispatch s = lifecycle_phase_beq s.phase running

unfoldable pub draining : MonotoneLifecycle → Bool
draining s = elem s.phase (draining_failure ∷ draining_budget ∷ draining_epoch ∷ finalizing ∷ [])

pub data LifecycleError : Type 0 where
  illegal_transition : LifecyclePhase → LifecyclePhase → LifecycleError

abbrev keep_reason : Option String → String → Option String
keep_reason none reason = some reason
keep_reason (some old) reason = some old

-- The new state, and whether the phase changed.
unfoldable pub transition :
    MonotoneLifecycle → LifecyclePhase → String → Result LifecycleError (MonotoneLifecycle × Bool)
unfolding allowed
transition s target reason =
    if lifecycle_phase_beq target s.phase
    then ok (record s { reason = keep_reason s.reason reason }, false)
    else if elem target (allowed s.phase)
    then ok (record { phase = target; reason = some reason }, true)
    else raise (illegal_transition s.phase target)
