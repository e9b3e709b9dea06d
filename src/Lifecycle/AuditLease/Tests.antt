-- ===== src/Lifecycle/AuditLease/Tests.antt =====
-- lifecycle/audit_lease.py on a concrete book.
use autonomous_math_ai.Base.{
  ℕ, ◌≡◌, refl, String, some, List, [], ◌∷◌, map, tally, any, nat_beq, if◌then◌else◌, string_eq,
  pair_eq,
}
use autonomous_math_ai.Base.NatFloat.{nat_float}
use autonomous_math_ai.Base.Dict.{get, put}
use autonomous_math_ai.Base.Result.{ok}
use autonomous_math_ai.Lifecycle.AuditLease.Book.{
  AuditLease, AuditLeaseStatus, active, passed, LeaseEvent, change, finished, activated, other_line,
  AuditLeaseBook, open_book, load_from, apply_event, append, by_id, prioritized,
}
use autonomous_math_ai.Lifecycle.AuditLease.Operations.{
  finish, ensure, recover_stale_active, prioritize,
}
use autonomous_math_ai.Lifecycle.AuditLease.Steps.{Steps, finishing, ensured, here, next}
use autonomous_math_ai.Lifecycle.AuditLease.Replay.{reload-eq-current}
use autonomous_math_ai.Lifecycle.AuditLease.WellFormed.{IsWellFormed, open_book-IsWellFormed}
use autonomous_math_ai.Lifecycle.AuditLease.History.{Extends}
use autonomous_math_ai.Lifecycle.AuditLease.Recorded.{Steps-Extends}
use autonomous_math_ai.Lifecycle.AuditLease.Recovery.{
  recover_stale_active_lem, is_active, recovered,
}
use autonomous_math_ai.Lifecycle.AuditLease.Loop.{changed}
use autonomous_math_ai.Lifecycle.AuditLease.Priority.{prioritize_lem, is_raised, with_priority}
use autonomous_math_ai.Lifecycle.AuditLease.Transitions.{Step-Follows, Follows}

-- A digest of the attempt alone, enough for one key.
abbrev hash : String → String → ℕ → String
hash fingerprint kind attempt = if nat_beq attempt 1 then "lease-1" else "lease-2"

abbrev lease : AuditLeaseStatus → ℕ → String → AuditLease ℕ
lease status priority now = record {
  lease_id = "lease-1";
  candidate_fingerprint = "fp";
  audit_kind = "proof";
  attempt = 1;
  status = status;
  priority = priority;
  updated_at = now;
  job_id = some "job-1";
}

abbrev lines : List (LeaseEvent ℕ)
lines = change activated (lease active 3 "t0") ∷ other_line ∷ []

abbrev held : AuditLeaseBook ℕ
held = open_book lines

abbrev done : AuditLeaseBook ℕ
done = (append "t1" finished (lease passed 3 "t0") held).0

finished_book : finish "t1" "lease-1" "PASS" held ≡ ok (done, lease passed 3 "t1")
unfolding finish open_book append by_id load_from apply_event put
finished_book = refl

held-IsWellFormed : IsWellFormed held.current
held-IsWellFormed = open_book-IsWellFormed lines

-- The audit passes, then the candidate asks for a second one.
abbrev after : AuditLeaseBook ℕ
after = (ensure hash "t2" "fp" "proof" 1 done).0

abbrev run : Steps hash held after
run = next (next here (finishing "t1" "lease-1" "PASS" finished_book)) (ensured "t2" "fp" "proof" 1)

reload-eq-current_example : (open_book after.log).current ≡ after.current
reload-eq-current_example = reload-eq-current hash lines run

Steps-Extends_example : Extends hash ("PASS" ∷ []) held after
Steps-Extends_example = Steps-Extends hash run held-IsWellFormed

recover_stale_active_example :
    ((recover_stale_active "t1" held).0.current ≡ map (recovered "t1") held.current)
    × ((recover_stale_active "t1" held).1 ≡ tally is_active held.current)
    × (tally is_active (recover_stale_active "t1" held).0.current ≡ 0)
recover_stale_active_example = recover_stale_active_lem "t1" held held-IsWellFormed

prioritize_example :
    ((prioritize "t1" "fp" 5 held).0.current
      ≡ map
          (changed "t1" prioritized
            (is_raised "t1" "fp" 5)
            (with_priority "t1" "fp" 5)
            (λ lease. refl))
          held.current)
    × ((prioritize "t1" "fp" 5 held).1 ≡ any (is_raised "t1" "fp" 5) held.current)
prioritize_example = prioritize_lem "t1" "fp" 5 held held-IsWellFormed

held_lease : get ("fp", "proof") held.current ≡ some (lease active 3 "t0")
unfolding open_book load_from apply_event put get
held_lease = refl

Step-Follows_example :
    (new : AuditLease ℕ) × (get ("fp", "proof") done.current ≡ some new)
    × Follows (lease active 3 "t0") new
Step-Follows_example =
    Step-Follows hash (finishing "t1" "lease-1" "PASS" finished_book) held-IsWellFormed
      ("fp", "proof") (lease active 3 "t0") held_lease
