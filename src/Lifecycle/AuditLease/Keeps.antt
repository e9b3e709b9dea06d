-- ===== src/Lifecycle/AuditLease/Keeps.antt =====
-- lifecycle/audit_lease.py: invariants of the book that appended changes keep.
use autonomous_math_ai.Base.{
  ℕ, sym, ap, subst, Bool-cases, inl, inr, String, Option, none, some, [], ◌∷◌, arith, string_eq,
  pair_eq,
}
use autonomous_math_ai.Base.Float.{Float}
use autonomous_math_ai.Base.Dict.{Dict, get}
use autonomous_math_ai.Lifecycle.AuditLease.Book.{
  AuditLease, LeaseAction, AuditLeaseBook, append, status_beq, active, is_terminal, created,
  prioritized, activated, retry_waiting, finished, recovered_retry_wait,
}
use autonomous_math_ai.Lifecycle.AuditLease.Operations.{
  recover_each, recover_stale_active, ensure, ensure_over, prioritize_each, prioritize,
}
use autonomous_math_ai.Lifecycle.AuditLease.Steps.{
  Step, ensured, activation, waiting, finishing, raising, recovery, Steps, here, next,
  activate-eq-ok, retry-eq-ok, finish-eq-ok,
}

module _ {F : Type 0} ⦃f : Float F⦄ (lease_hash : String → String → ℕ → String)
    {P : AuditLeaseBook F → Type 0}
    (keep : (now : String) (action : LeaseAction) (lease : AuditLease F) (book : AuditLeaseBook F)
      → P book
      → P (append now action lease book).0) where
  recover_each-keeps :
      (now : String) (leases : Dict (String × String) (AuditLease F)) (book : AuditLeaseBook F)
      → P book
      → P (recover_each now leases book).0
  unfolding recover_each
  recover_each-keeps now [] book d = d
  recover_each-keeps now ((k, lease) ∷ rest) book d =
      elim (Bool-cases (status_beq lease.status active)) [
        | inl is ↦ rw is (recover_each-keeps now rest _ (keep now recovered_retry_wait _ book d))
        | inr other ↦ rw other (recover_each-keeps now rest book d)
      ]

  prioritize_each-keeps :
      (now fingerprint : String) (priority : F) (leases : Dict (String × String) (AuditLease F))
      (book : AuditLeaseBook F)
      → P book
      → P (prioritize_each now fingerprint priority leases book).0
  unfolding prioritize_each
  prioritize_each-keeps now fingerprint priority [] book d = d
  prioritize_each-keeps now fingerprint priority ((k, lease) ∷ rest) book d = ground (
    arith,
    prioritize_each-keeps now fingerprint priority rest book d,
    prioritize_each-keeps now fingerprint priority rest _
        (keep now prioritized (record lease { priority = priority }) book d),
  )

  ensure-keeps :
      (now fingerprint kind : String) (priority : F) (book : AuditLeaseBook F)
      → P book
      → P (ensure lease_hash now fingerprint kind priority book).0
  unfolding ensure
  ensure-keeps now fingerprint kind priority book d =
      created_or_raised (get (fingerprint, kind) book.current)
    where
      created_or_raised :
          (found : Option (AuditLease F))
          → P (ensure_over lease_hash now fingerprint kind priority book found).0
      created_or_raised none = keep now created _ book d
      created_or_raised (some lease) = elim (Bool-cases (is_terminal lease.status)) [
        | inl ended ↦ rw ended (keep now created _ book d)
        | inr live ↦ rw live (elim (Bool-cases (f.gt priority lease.priority)) [
          | inl more ↦ rw more (keep now prioritized _ book d)
          | inr same ↦ rw same d
        ])
      ]

  pub Step-keeps : {book after : AuditLeaseBook F} → Step lease_hash book after → P book → P after
  Step-keeps {book} (ensured now fingerprint kind priority) d =
      ensure-keeps now fingerprint kind priority book d
  Step-keeps {book} (activation now lease_id job_id e) d =
      let (lease, found, test, done) = activate-eq-ok now lease_id job_id book e in
      subst P (sym (ap (λ p. p.0) done)) (keep now activated _ book d)
  Step-keeps {book} (waiting now lease_id e) d =
      let (lease, found, test, done) = retry-eq-ok now lease_id book e in
      subst P (sym (ap (λ p. p.0) done)) (keep now retry_waiting _ book d)
  Step-keeps {book} (finishing now lease_id verdict e) d =
      let (lease, status, found, test, mapped, done) = finish-eq-ok now lease_id verdict book e in
      subst P (sym (ap (λ p. p.0) done)) (keep now finished _ book d)
  Step-keeps {book} (raising now fingerprint priority) d =
      unfold prioritize in prioritize_each-keeps now fingerprint priority book.current book d
  Step-keeps {book} (recovery now) d =
      unfold recover_stale_active in recover_each-keeps now book.current book d

  pub Steps-keeps : {book after : AuditLeaseBook F} → Steps lease_hash book after → P book → P after
  Steps-keeps here p = p
  Steps-keeps (next r st) p = Step-keeps st (Steps-keeps r p)
