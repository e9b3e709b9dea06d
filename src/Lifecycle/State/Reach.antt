-- ===== src/Lifecycle/State/Reach.antt =====
-- Runs of the lifecycle: sequences of calls of `transition`.
use autonomous_math_ai.Base.{
  ℕ, suc, ◌+◌, ◌≤◌, ◌<◌, ◌≡◌, ◌↔◌, ◌≢◌, ◌⊎◌, Bool, true, false, String, none, some, [], ◌∷◌, elem,
  refl, arith,
}
use autonomous_math_ai.Base.Result.{ok}
use autonomous_math_ai.Models.{
  LifecyclePhase, bootstrap, running, draining_failure, draining_budget, draining_epoch, finalizing,
  sealed, completed, lifecycle_phase_beq, lifecycle_phase_eq,
}
use autonomous_math_ai.Lifecycle.State.{MonotoneLifecycle, can_dispatch, draining, transition}

-- How far a phase is from the start.
abbrev pub depth : LifecyclePhase → ℕ
depth bootstrap = 0
depth running = 1
depth finalizing = 2
depth draining_failure = 3
depth draining_budget = 3
depth draining_epoch = 3
depth sealed = 4
depth completed = 4

abbrev pub IsTerminal : LifecyclePhase → Type 0
IsTerminal p = depth p ≡ 4

-- A transition that does not raise ends in its target. If it reports a change, it goes strictly
-- deeper and records its own reason; if it reports none, it keeps the phase, and keeps the reason
-- unless there was none yet.
pub transition_deepens :
    (s : MonotoneLifecycle) (target : LifecyclePhase) (reason : String) {t : MonotoneLifecycle}
    {changed : Bool}
    → transition s target reason ≡ ok (t, changed)
    → (t.phase ≡ target)
      × (((changed ≡ true) × (depth s.phase < depth t.phase) × (t.reason ≡ some reason))
          ⊎ ((changed ≡ false)
              × (t.phase ≡ s.phase)
              × (((s.reason ≡ none) × (t.reason ≡ some reason))
                  ⊎ ((s.reason ≢ none) × (t.reason ≡ s.reason)))))
unfolding transition
transition_deepens s target reason h = ground arith

-- The steps that a controller can make.
pub data Run (s : MonotoneLifecycle) : MonotoneLifecycle → ℕ → Type 0 where
  start : Run s s 0
  stay :
      {t u : MonotoneLifecycle} {n : ℕ} (target : LifecyclePhase) (reason : String)
      → Run s t n
      → transition t target reason ≡ ok (u, false)
      → Run s u n
  move :
      {t u : MonotoneLifecycle} {n : ℕ} (target : LifecyclePhase) (reason : String)
      → Run s t n
      → transition t target reason ≡ ok (u, true)
      → Run s u (suc n)

-- The changes of phase in a run, and the depth that they leave.
moves-le-depth : {s t : MonotoneLifecycle} {n : ℕ} → Run s t n → n + depth s.phase ≤ depth t.phase
moves-le-depth start = omega arith
moves-le-depth (stay {t} target reason r e) =
    let h = transition_deepens t target reason e in ground (arith, moves-le-depth r, h)
moves-le-depth (move {t} target reason r e) =
    let h = transition_deepens t target reason e in ground (arith, moves-le-depth r, h)

depth-le-4 : (p : LifecyclePhase) → depth p ≤ 4
depth-le-4 p = ground arith

-- A run of transitions changes its phase at most four times, from wherever it starts.
pub Run-bounded : {s t : MonotoneLifecycle} {n : ℕ} → Run s t n → n ≤ 4
Run-bounded {s} {t} r = omega (arith, moves-le-depth r, depth-le-4 t.phase)

past_running :
    (p : LifecyclePhase)
    → 1 < depth p
    → (lifecycle_phase_beq p running ≡ false)
      × ((elem p (draining_failure ∷ draining_budget ∷ draining_epoch ∷ finalizing ∷ []) ≡ true)
          ⊎ IsTerminal p)
past_running p h = ground arith

-- From a phase behind RUNNING every run stays in phases that dispatch nothing, and each of those is
-- draining or terminal.
pub no_dispatch_again :
    {s t : MonotoneLifecycle} {n : ℕ}
    → Run s t n
    → 1 < depth s.phase
    → (can_dispatch t ≡ false) × ((draining t ≡ true) ⊎ IsTerminal t.phase)
unfolding can_dispatch draining
no_dispatch_again {s} {t} r h = past_running t.phase (omega (arith, moves-le-depth r))

-- A phase is not terminal exactly when some transition changes it, whatever the reason given.
pub live_iff_moves :
    (s : MonotoneLifecycle) (reason : String)
    → (¬ IsTerminal s.phase) ↔ (
        (target : LifecyclePhase) × (t : MonotoneLifecycle) × (transition s target reason
          ≡ ok (t, true)))
unfolding transition
live_iff_moves s reason = (
  λ live. moves s.phase refl live,
  λ (target, t, e) ended.
      ground (arith, ended, depth-le-4 t.phase, transition_deepens s target reason e),
)
  where
    moves :
        (p : LifecyclePhase)
        → s.phase ≡ p
        → ¬ IsTerminal p
        → (target : LifecyclePhase) × (t : MonotoneLifecycle) × (transition s target reason
            ≡ ok (t, true))
    moves bootstrap e h = (running, record { phase = running; reason = some reason }, ground arith)
    moves running e h =
        (finalizing, record { phase = finalizing; reason = some reason }, ground arith)
    moves finalizing e h =
        (completed, record { phase = completed; reason = some reason }, ground arith)
    moves draining_failure e h =
        (sealed, record { phase = sealed; reason = some reason }, ground arith)
    moves draining_budget e h =
        (sealed, record { phase = sealed; reason = some reason }, ground arith)
    moves draining_epoch e h =
        (sealed, record { phase = sealed; reason = some reason }, ground arith)
    moves sealed e h = absurd (h refl)
    moves completed e h = absurd (h refl)
