-- ===== src/Lifecycle/AuditLease/Book.antt =====
-- lifecycle/audit_lease.py: the book of audit leases, one for each candidate and kind of audit. The
-- book holds the current leases in memory and appends each change to a file; `log` is that file.
-- The digest `stable_hash` and the clock are arguments: `lease_hash` and the time `now`.
use autonomous_math_ai.Base.{
  ℕ, Bool, true, false, String, Option, none, some, List, [], ◌∷◌, ◌++◌, nat_beq, if◌then◌else◌,
  ◌==◌, string_eq, pair_eq,
}
use autonomous_math_ai.Base.Dict.{Dict, put}
use autonomous_math_ai.Base.Result.{Result, ok, raise}

pub data AuditLeaseStatus : Type 0 where
  pending active retry_wait passed rejected unresolved : AuditLeaseStatus

abbrev pub status_rank : AuditLeaseStatus → ℕ
status_rank pending = 0
status_rank active = 1
status_rank retry_wait = 2
status_rank passed = 3
status_rank rejected = 4
status_rank unresolved = 5

abbrev pub status_beq : AuditLeaseStatus → AuditLeaseStatus → Bool
status_beq a b = nat_beq (status_rank a) (status_rank b)

-- `status in TERMINAL_AUDIT_LEASE_STATUSES`
abbrev pub is_terminal : AuditLeaseStatus → Bool
is_terminal passed = true
is_terminal rejected = true
is_terminal unresolved = true
is_terminal _ = false

pub record AuditLease (F : Type 0) : Type 0 where
  pub lease_id : String
  pub candidate_fingerprint : String
  pub audit_kind : String
  pub attempt : ℕ
  pub status : AuditLeaseStatus
  pub priority : F
  pub updated_at : String
  pub job_id : Option String

pub data LeaseAction : Type 0 where
  created prioritized activated retry_waiting finished recovered_retry_wait : LeaseAction

-- One line of the file. A line that holds no lease is skipped when the book is loaded.
pub data LeaseEvent (F : Type 0) : Type 0 where
  change : LeaseAction → AuditLease F → LeaseEvent F
  other_line : LeaseEvent F

pub record AuditLeaseBook (F : Type 0) : Type 0 where
  pub current : Dict (String × String) (AuditLease F)
  pub log : List (LeaseEvent F)

pub data LeaseError : Type 0 where
  cannot_activate cannot_retry cannot_finish : AuditLeaseStatus → LeaseError
  unsupported_verdict unknown_lease : String → LeaseError

module _ {F : Type 0} where
  abbrev pub key_of : AuditLease F → String × String
  key_of lease = (lease.candidate_fingerprint, lease.audit_kind)

  unfoldable pub apply_event :
      Dict (String × String) (AuditLease F) → LeaseEvent F → Dict (String × String) (AuditLease F)
  apply_event current (change action lease) = put (key_of lease) lease current
  apply_event current other_line = current

  -- `AuditLeaseBook.__init__`: the leases that the lines of the file leave.
  unfoldable pub load_from :
      Dict (String × String) (AuditLease F)
      → List (LeaseEvent F)
      → Dict (String × String) (AuditLease F)
  unfolding apply_event
  load_from current [] = current
  load_from current (event ∷ rest) = load_from (apply_event current event) rest

  unfoldable pub open_book : List (LeaseEvent F) → AuditLeaseBook F
  unfolding load_from
  open_book log = record { current = load_from [] log; log = log }

  -- `_append`
  unfoldable pub append :
      String → LeaseAction → AuditLease F → AuditLeaseBook F → AuditLeaseBook F × AuditLease F
  append now action lease book =
      let stamped = record lease { updated_at = now } in
      (
        record {
          current = put (key_of lease) stamped book.current;
          log = book.log ++ change action stamped ∷ [];
        },
        stamped,
      )

  abbrev pub find : String → Dict (String × String) (AuditLease F) → Option (AuditLease F)
  find lease_id [] = none
  find lease_id ((k, lease) ∷ rest) =
      let more = find lease_id rest in if lease.lease_id == lease_id then some lease else more

  -- `_by_id`
  unfoldable pub by_id : String → AuditLeaseBook F → Result LeaseError (AuditLease F)
  by_id lease_id book = elim (find lease_id book.current) [
    | none ↦ raise (unknown_lease lease_id)
    | some lease ↦ ok lease
  ]
