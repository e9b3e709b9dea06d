-- ===== src/Lifecycle/State/Tests.antt =====
-- lifecycle/state.py on concrete runs.
use autonomous_math_ai.Base.{
  ◌≡◌, ◌≢◌, ◌<◌, ◌⊎◌, refl, true, false, String, Option, none, some, arith,
}
use autonomous_math_ai.Base.Result.{ok}
use autonomous_math_ai.Models.{LifecyclePhase, running, draining_failure, sealed}
use autonomous_math_ai.Lifecycle.State.{
  MonotoneLifecycle, fresh, transition, can_dispatch, draining,
}
use autonomous_math_ai.Lifecycle.State.Reach.{
  IsTerminal, Run, start, move, transition_deepens, no_dispatch_again,
}

abbrev at : LifecyclePhase → String → MonotoneLifecycle
at p reason = record { phase = p; reason = some reason }

abbrev lost : Option String
lost = some "lost"

abbrev late : Option String
late = some "late"

begun : Run fresh fresh 0
begun = start

drained : Run (at draining_failure "lost") (at draining_failure "lost") 0
drained = start

starting : transition fresh running "worker ready" ≡ ok (at running "worker ready", true)
unfolding transition
starting = refl

failing :
    transition (at running "worker ready") draining_failure "lost"
    ≡ ok (at draining_failure "lost", true)
unfolding transition
failing = refl

again :
    transition (at draining_failure "lost") draining_failure "late"
    ≡ ok (at draining_failure "lost", false)
unfolding transition
again = refl

sealing : transition (at draining_failure "lost") sealed "done" ≡ ok (at sealed "done", true)
unfolding transition
sealing = refl

transition_deepens_example :
    (draining_failure ≡ draining_failure)
    × (((false ≡ true) × (3 < 3) × (lost ≡ late))
        ⊎ ((false ≡ false)
            × (draining_failure ≡ draining_failure)
            × (((lost ≡ none) × (lost ≡ late)) ⊎ ((lost ≢ none) × (lost ≡ lost)))))
transition_deepens_example =
    transition_deepens (at draining_failure "lost") draining_failure "late" again

no_dispatch_again_example :
    (can_dispatch (at sealed "done") ≡ false)
    × ((draining (at sealed "done") ≡ true) ⊎ IsTerminal sealed)
no_dispatch_again_example = no_dispatch_again (move sealed "done" drained sealing) (omega arith)
