-- ===== src/Lifecycle/AuditLease/Operations.antt =====
-- lifecycle/audit_lease.py: the operations of the book.
use autonomous_math_ai.Base.{
  ℕ, ◌+◌, Bool, true, false, String, Option, none, some, [], ◌∷◌, if◌then◌else◌, not, ◌||◌, ◌==◌,
  string_eq, pair_eq,
}
use autonomous_math_ai.Base.Float.{Float}
use autonomous_math_ai.Base.Dict.{Dict, get}
use autonomous_math_ai.Base.Result.{Result, ok, raise, ◌>>=◌, ◌>>◌, raise_if}
use autonomous_math_ai.Lifecycle.AuditLease.Book.{
  AuditLeaseStatus, pending, active, retry_wait, passed, rejected, unresolved, status_beq,
  is_terminal, AuditLease, created, prioritized, activated, retry_waiting, finished,
  recovered_retry_wait, AuditLeaseBook, LeaseError, cannot_activate, cannot_retry, cannot_finish,
  unsupported_verdict, append, by_id,
}

-- the dictionary `mapping` of `finish`
abbrev pub verdict_status : String → Option AuditLeaseStatus
verdict_status verdict =
    if verdict == "PASS"
    then some passed
    else if verdict == "REJECT"
    then some rejected
    else if verdict == "UNRESOLVED"
    then some unresolved
    else none

module _ {F : Type 0} where
  unfoldable pub activate :
      String
      → String
      → String
      → AuditLeaseBook F
      → Result LeaseError (AuditLeaseBook F × AuditLease F)
  activate now lease_id job_id book = do
    lease ← by_id lease_id book
    raise_if (not (status_beq lease.status pending || status_beq lease.status retry_wait))
        (cannot_activate lease.status)
    ok (append now activated (record lease { status = active; job_id = some job_id }) book)

  unfoldable pub retry :
      String → String → AuditLeaseBook F → Result LeaseError (AuditLeaseBook F × AuditLease F)
  retry now lease_id book = do
    lease ← by_id lease_id book
    raise_if (not (status_beq lease.status active)) (cannot_retry lease.status)
    ok (append now retry_waiting (record lease { status = retry_wait; job_id = none }) book)

  abbrev pub finish_as :
      String
      → AuditLease F
      → AuditLeaseBook F
      → String
      → Option AuditLeaseStatus
      → Result LeaseError (AuditLeaseBook F × AuditLease F)
  finish_as now lease book verdict none = raise (unsupported_verdict verdict)
  finish_as now lease book verdict (some status) =
      ok (append now finished (record lease { status = status }) book)

  unfoldable pub finish :
      String
      → String
      → String
      → AuditLeaseBook F
      → Result LeaseError (AuditLeaseBook F × AuditLease F)
  finish now lease_id verdict book = do
    lease ← by_id lease_id book
    raise_if (not (status_beq lease.status active)) (cannot_finish lease.status)
    finish_as now lease book verdict (verdict_status verdict)

  -- The loop of `recover_stale_active` over the leases that were there when it began.
  unfoldable pub recover_each :
      String → Dict (String × String) (AuditLease F) → AuditLeaseBook F → AuditLeaseBook F × ℕ
  recover_each now [] book = (book, 0)
  recover_each now ((k, lease) ∷ rest) book =
      let waiting = record lease { status = retry_wait; job_id = none } in
      let after = (append now recovered_retry_wait waiting book).0 in
      let active_case = recover_each now rest after in
      let other_case = recover_each now rest book in
      if status_beq lease.status active then (active_case.0, active_case.1 + 1) else other_case

  unfoldable pub recover_stale_active : String → AuditLeaseBook F → AuditLeaseBook F × ℕ
  unfolding recover_each
  recover_stale_active now book = recover_each now book.current book

module _ {F : Type 0} ⦃f : Float F⦄ where
  -- The loop of `prioritize` over the entries of the book.
  unfoldable pub prioritize_each :
      String
      → String
      → F
      → Dict (String × String) (AuditLease F)
      → AuditLeaseBook F
      → AuditLeaseBook F × Bool
  prioritize_each now fingerprint priority [] book = (book, false)
  prioritize_each now fingerprint priority ((k, lease) ∷ rest) book =
      let after = (append now prioritized (record lease { priority = priority }) book).0 in
      let raised = prioritize_each now fingerprint priority rest after in
      let other = prioritize_each now fingerprint priority rest book in
      if not (k.0 == fingerprint) || is_terminal lease.status
      then other
      else if f.gt priority lease.priority
      then (raised.0, true)
      else other

  unfoldable pub prioritize : String → String → F → AuditLeaseBook F → AuditLeaseBook F × Bool
  unfolding prioritize_each
  prioritize now fingerprint priority book =
      prioritize_each now fingerprint priority book.current book

module _ {F : Type 0} ⦃f : Float F⦄ (lease_hash : String → String → ℕ → String) where
  abbrev pub new_lease : String → String → String → ℕ → F → AuditLease F
  new_lease now fingerprint kind attempt priority = record {
    lease_id = lease_hash fingerprint kind attempt;
    candidate_fingerprint = fingerprint;
    audit_kind = kind;
    attempt = attempt;
    status = pending;
    priority = priority;
    updated_at = now;
    job_id = none;
  }

  abbrev pub raise_priority :
      String → AuditLease F → F → AuditLeaseBook F → AuditLeaseBook F × AuditLease F
  raise_priority now lease priority book =
      if f.gt priority lease.priority
      then append now prioritized (record lease { priority = priority }) book
      else (book, lease)

  abbrev pub ensure_over :
      String
      → String
      → String
      → F
      → AuditLeaseBook F
      → Option (AuditLease F)
      → AuditLeaseBook F × AuditLease F
  ensure_over now fingerprint kind priority book none =
      append now created (new_lease now fingerprint kind 1 priority) book
  ensure_over now fingerprint kind priority book (some lease) =
      if is_terminal lease.status
      then append now created (new_lease now fingerprint kind (lease.attempt + 1) priority) book
      else raise_priority now lease priority book

  unfoldable pub ensure :
      String → String → String → F → AuditLeaseBook F → AuditLeaseBook F × AuditLease F
  ensure now fingerprint kind priority book =
      ensure_over now fingerprint kind priority book (get (fingerprint, kind) book.current)
