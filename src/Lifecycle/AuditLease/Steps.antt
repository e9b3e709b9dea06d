-- ===== src/Lifecycle/AuditLease/Steps.antt =====
-- lifecycle/audit_lease.py: the steps of a lease book, and what a step that succeeded has done.
use autonomous_math_ai.Base.{ℕ, ◌≡◌, refl, true, String, Option, some, none, not, ◌||◌, arith}
use autonomous_math_ai.Base.Float.{Float}
use autonomous_math_ai.Base.Result.{ok, raise_if, >>=-eq-ok, raise_if-eq-ok}
use autonomous_math_ai.Lifecycle.AuditLease.Book.{
  AuditLeaseStatus, pending, active, retry_wait, AuditLease, AuditLeaseBook, activated,
  retry_waiting, finished, cannot_activate, cannot_retry, cannot_finish, append, by_id, status_beq,
}
use autonomous_math_ai.Lifecycle.AuditLease.Operations.{
  activate, retry, finish, finish_as, verdict_status, recover_stale_active, ensure, prioritize,
}

module _ {F : Type 0} where
  pub activate-eq-ok :
      (now lease_id job_id : String) (book : AuditLeaseBook F) {r : AuditLeaseBook F × AuditLease F}
      → activate now lease_id job_id book ≡ ok r
      → (lease : AuditLease F) × (by_id lease_id book ≡ ok lease)
        × ((status_beq lease.status pending || status_beq lease.status retry_wait) ≡ true)
        × (r ≡ append now activated (record lease { status = active; job_id = some job_id }) book)
  unfolding activate
  activate-eq-ok now lease_id job_id book e =
      let (lease, found, rest) = >>=-eq-ok (by_id lease_id book) _ e in
      let (u, test, done) =
        >>=-eq-ok
          (raise_if (not (status_beq lease.status pending || status_beq lease.status retry_wait))
            (cannot_activate lease.status))
          _ rest in
      (lease, found, ground (arith, raise_if-eq-ok _ (cannot_activate lease.status) test), cc done)

  pub retry-eq-ok :
      (now lease_id : String) (book : AuditLeaseBook F) {r : AuditLeaseBook F × AuditLease F}
      → retry now lease_id book ≡ ok r
      → (lease : AuditLease F) × (by_id lease_id book ≡ ok lease)
        × (lease.status ≡ active)
        × (r ≡ append now retry_waiting (record lease { status = retry_wait; job_id = none }) book)
  unfolding retry
  retry-eq-ok now lease_id book e =
      let (lease, found, rest) = >>=-eq-ok (by_id lease_id book) _ e in
      let (u, test, done) =
        >>=-eq-ok (raise_if (not (status_beq lease.status active)) (cannot_retry lease.status)) _
          rest in
      (lease, found, ground (arith, raise_if-eq-ok _ (cannot_retry lease.status) test), cc done)

  finish_as-eq-ok :
      (now : String) (lease : AuditLease F) (book : AuditLeaseBook F) (verdict : String)
      (mapped : Option AuditLeaseStatus) {r : AuditLeaseBook F × AuditLease F}
      → finish_as now lease book verdict mapped ≡ ok r
      → (status : AuditLeaseStatus) × (mapped ≡ some status)
        × (r ≡ append now finished (record lease { status = status }) book)
  finish_as-eq-ok now lease book verdict none e = cc e
  finish_as-eq-ok now lease book verdict (some status) e = (status, refl, cc e)

  pub finish-eq-ok :
      (now lease_id verdict : String) (book : AuditLeaseBook F)
      {r : AuditLeaseBook F × AuditLease F}
      → finish now lease_id verdict book ≡ ok r
      → (lease : AuditLease F) × (status : AuditLeaseStatus) × (by_id lease_id book ≡ ok lease)
        × (lease.status ≡ active)
        × (verdict_status verdict ≡ some status)
        × (r ≡ append now finished (record lease { status = status }) book)
  unfolding finish
  finish-eq-ok now lease_id verdict book e =
      let (lease, found, rest) = >>=-eq-ok (by_id lease_id book) _ e in
      let (u, test, done) =
        >>=-eq-ok (raise_if (not (status_beq lease.status active)) (cannot_finish lease.status)) _
          rest in
      let (status, mapped, written) =
        finish_as-eq-ok now lease book verdict (verdict_status verdict) done in
      (
        lease,
        status,
        found,
        ground (arith, raise_if-eq-ok _ (cannot_finish lease.status) test),
        mapped,
        written,
      )

module _ {F : Type 0} ⦃f : Float F⦄ (lease_hash : String → String → ℕ → String) where
  pub data Step (book : AuditLeaseBook F) : AuditLeaseBook F → Type 0 where
    ensured :
        (now fingerprint kind : String) (priority : F)
        → Step book (ensure lease_hash now fingerprint kind priority book).0
    activation :
        {after : AuditLeaseBook F} {lease : AuditLease F} (now lease_id job_id : String)
        → activate now lease_id job_id book ≡ ok (after, lease)
        → Step book after
    waiting :
        {after : AuditLeaseBook F} {lease : AuditLease F} (now lease_id : String)
        → retry now lease_id book ≡ ok (after, lease)
        → Step book after
    finishing :
        {after : AuditLeaseBook F} {lease : AuditLease F} (now lease_id verdict : String)
        → finish now lease_id verdict book ≡ ok (after, lease)
        → Step book after
    raising :
        (now fingerprint : String) (priority : F)
        → Step book (prioritize now fingerprint priority book).0
    recovery : (now : String) → Step book (recover_stale_active now book).0

  pub data Steps (book : AuditLeaseBook F) : AuditLeaseBook F → Type 0 where
    here : Steps book book
    next : {a b : AuditLeaseBook F} → Steps book a → Step a b → Steps book b
