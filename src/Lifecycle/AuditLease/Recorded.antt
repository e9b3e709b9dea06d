-- ===== src/Lifecycle/AuditLease/Recorded.antt =====
-- lifecycle/audit_lease.py: the history that a run of the operations leaves in the file.
use mathlib.Core.List.{append_assoc}
use autonomous_math_ai.Base.{
  ℕ, ◌+◌, ◌≡◌, refl, sym, ap, ◌∙◌, subst, Bool, true, Bool-cases, inl, inr, Option, none, some,
  String, List, [], ◌∷◌, ◌++◌, All, arith, string_eq, pair_eq,
}
use autonomous_math_ai.Base.Float.{Float}
use autonomous_math_ai.Base.Dict.{Dict, get, Distinct, get-middle}
use autonomous_math_ai.Lifecycle.AuditLease.Book.{
  AuditLeaseStatus, active, retry_wait, AuditLease, LeaseAction, created, prioritized, activated,
  retry_waiting, finished, recovered_retry_wait, change, is_terminal, AuditLeaseBook, append,
  key_of,
}
use autonomous_math_ai.Lifecycle.AuditLease.Operations.{
  new_lease, ensure, ensure_over, verdict_status, prioritize, recover_stale_active,
}
use autonomous_math_ai.Lifecycle.AuditLease.Steps.{
  Step, ensured, activation, waiting, finishing, raising, recovery, Steps, here, next,
  activate-eq-ok, retry-eq-ok, finish-eq-ok,
}
use autonomous_math_ai.Lifecycle.AuditLease.WellFormed.{
  IsKeyed, IsWellFormed, by_id-get, get-key, Steps-IsWellFormed,
}
use autonomous_math_ai.Lifecycle.AuditLease.Loop.{Entry, append_each, append-middle}
use autonomous_math_ai.Lifecycle.AuditLease.Recovery.{
  is_active, waiting_again, recover_each-eq-append_each,
}
use autonomous_math_ai.Lifecycle.AuditLease.Priority.{
  is_raised, with_priority, prioritize_each-eq-append_each,
}
use autonomous_math_ai.Lifecycle.AuditLease.History.{
  verdict_name, verdicts_in, IsLegal, Extends, no_lines, more_lines, append-Extends,
}

-- The status that a verdict stands for ends the lease, and is called by the verdict.
status_named :
    (verdict : String) (s : AuditLeaseStatus)
    → verdict_status verdict ≡ some s
    → (verdict_name s ≡ verdict) × (is_terminal s ≡ true)
status_named verdict s h = ground (
  arith,
  string_eq.beq_iff verdict "PASS",
  string_eq.beq_iff verdict "REJECT",
  string_eq.beq_iff verdict "UNRESOLVED",
)

module _ {F : Type 0} ⦃f : Float F⦄ (lease_hash : String → String → ℕ → String) where
  -- A loop whose appends are legal where the key still holds the lease of its entry.
  module _ (now : String) (action : LeaseAction) (test : Entry F → Bool)
      (change_of : AuditLease F → AuditLease F)
      (same_key : (lease : AuditLease F) → key_of (change_of lease) ≡ key_of lease)
      (quiet : (lease : AuditLease F) → verdicts_in (change action lease ∷ []) ≡ [])
      (legal : (k : String × String) (lease : AuditLease F)
        → test (k, lease) ≡ true
        → IsLegal lease_hash action
            (some lease)
            (record (change_of lease) { updated_at = now })) where
    loop-Extends :
        (rest before : Dict (String × String) (AuditLease F)) (book : AuditLeaseBook F)
        → book.current ≡ before ++ rest
        → All IsKeyed rest
        → Distinct book.current
        → Extends lease_hash [] book (append_each now action test change_of same_key rest book)
    unfolding append_each
    loop-Extends [] before book at keyed d = no_lines lease_hash book
    loop-Extends ((k, lease) ∷ rest) before book at keyed d = elim (Bool-cases (test (k, lease))) [
      | inl yields ↦ rw yields (
          let after = (append now action (change_of lease) book).0 in
          let step =
            append-middle now action test change_of same_key k book lease before rest keyed.0 at
              d in
          let held : get (key_of (change_of lease)) book.current ≡ some lease =
            ap (λ j. get j book.current) (same_key lease ∙ keyed.0)
            ∙ ap (get k) at
            ∙ get-middle k lease before rest (subst Distinct at d) in
          let line =
            append-Extends lease_hash now action (change_of lease) book (some lease) held
              (legal k lease yields) in
          more_lines lease_hash [] [] book after _
            (subst (λ vs. Extends lease_hash vs book after) (quiet (change_of lease)) line)
            (loop-Extends rest (before ++ (k, record (change_of lease) { updated_at = now }) ∷ [])
              after step.0 keyed.1 step.1))
      | inr other ↦
          rw other
            (loop-Extends rest (before ++ (k, lease) ∷ []) book (rw append_assoc at) keyed.1 d)
    ]

  ensure-Extends :
      (now fingerprint kind : String) (priority : F) (book : AuditLeaseBook F)
      → IsWellFormed book.current
      → Extends lease_hash [] book (ensure lease_hash now fingerprint kind priority book).0
  unfolding ensure
  ensure-Extends now fingerprint kind priority book w =
      over (get (fingerprint, kind) book.current) refl
    where
      over :
          (found : Option (AuditLease F))
          → get (fingerprint, kind) book.current ≡ found
          → Extends lease_hash [] book
              (ensure_over lease_hash now fingerprint kind priority book found).0
      over none at =
          append-Extends lease_hash now created
            (new_lease lease_hash now fingerprint kind 1 priority) book none at
            (refl, (refl, refl, refl))
      over (some lease) at = elim (Bool-cases (is_terminal lease.status)) [
        | inl ended ↦ rw ended (
            append-Extends lease_hash now created
              (new_lease lease_hash now fingerprint kind (lease.attempt + 1) priority) book
              (some lease) at (ended, refl, (refl, refl, refl)))
        | inr live ↦ rw live (elim (Bool-cases (f.gt priority lease.priority)) [
          | inl more ↦ rw more (
              append-Extends lease_hash now prioritized (record lease { priority = priority }) book
                (some lease)
                (subst (λ (j : String × String). get j book.current ≡ some lease)
                  (sym (get-key (fingerprint, kind) book.current lease w.keyed at)) at)
                (live, more, refl))
          | inr same ↦ rw same (no_lines lease_hash book)
        ])
      ]

  -- The verdicts that a run was given, in order.
  abbrev pub verdict_of : {book after : AuditLeaseBook F} → Step lease_hash book after → List String
  verdict_of (finishing now lease_id verdict e) = verdict ∷ []
  verdict_of other = []

  abbrev pub verdicts_of :
      {book after : AuditLeaseBook F} → Steps lease_hash book after → List String
  verdicts_of here = []
  verdicts_of (next r st) = verdicts_of r ++ verdict_of st

  Step-Extends :
      {book after : AuditLeaseBook F} (st : Step lease_hash book after)
      → IsWellFormed book.current
      → Extends lease_hash (verdict_of st) book after
  Step-Extends {book} (ensured now fingerprint kind priority) w =
      ensure-Extends now fingerprint kind priority book w
  Step-Extends {book} (activation now lease_id job_id e) w =
      let (lease, found, test, done) = activate-eq-ok now lease_id job_id book e in
      subst (Extends lease_hash [] book) (sym (ap (λ p. p.0) done)) (
        append-Extends lease_hash now activated
          (record lease { status = active; job_id = some job_id }) book (some lease)
          (by_id-get lease_id book lease w found).0 (test, (job_id, refl)))
  Step-Extends {book} (waiting now lease_id e) w =
      let (lease, found, test, done) = retry-eq-ok now lease_id book e in
      subst (Extends lease_hash [] book) (sym (ap (λ p. p.0) done)) (
        append-Extends lease_hash now retry_waiting
          (record lease { status = retry_wait; job_id = none }) book (some lease)
          (by_id-get lease_id book lease w found).0 (test, refl))
  Step-Extends {book} (finishing now lease_id verdict e) w =
      let (lease, status, found, test, mapped, done) = finish-eq-ok now lease_id verdict book e in
      let (named, ended) = status_named verdict status mapped in
      subst (Extends lease_hash (verdict ∷ []) book) (sym (ap (λ p. p.0) done)) (
        subst
          (λ v.
            Extends lease_hash (v ∷ []) book
              (append now finished (record lease { status = status }) book).0)
          named
          (append-Extends lease_hash now finished (record lease { status = status }) book
            (some lease) (by_id-get lease_id book lease w found).0 (test, ended, refl)))
  Step-Extends {book} (raising now fingerprint priority) w =
      unfold prioritize in
      subst (Extends lease_hash [] book)
        (sym (prioritize_each-eq-append_each now fingerprint priority book.current book))
        (loop-Extends now prioritized (is_raised now fingerprint priority)
          (with_priority now fingerprint priority) (λ lease. refl) (λ lease. refl)
          (λ k lease yields. ground arith) book.current [] book refl w.keyed w.single)
  Step-Extends {book} (recovery now) w =
      unfold recover_stale_active in
      subst (Extends lease_hash [] book) (sym (recover_each-eq-append_each now book.current book)) (
        loop-Extends now recovered_retry_wait is_active waiting_again (λ lease. refl)
          (λ lease. refl) (λ k lease yields. ground arith) book.current [] book refl w.keyed
          w.single)

  -- From a well-formed book, any run of the operations only appends lines to the file, and these
  -- lines are a history of the leases: a lease is created for attempt 1 where the key has none, or
  -- for the next attempt where it has a finished one, under the id that is the digest of its key
  -- and attempt; a priority is only raised, and only that of an unfinished lease; a lease that
  -- waits is activated with a job; an active one waits again without its job, or is finished; and
  -- nothing else of a lease changes but its time. The lines that finish leases name the verdicts of
  -- the run, in order, and the leases in memory are those that the new lines make of the earlier
  -- ones.
  pub Steps-Extends :
      {book after : AuditLeaseBook F} (r : Steps lease_hash book after)
      → IsWellFormed book.current
      → Extends lease_hash (verdicts_of r) book after
  Steps-Extends {book} here w = no_lines lease_hash book
  Steps-Extends {book} {after} (next {a} r st) w =
      more_lines lease_hash (verdicts_of r) (verdict_of st) book a after (Steps-Extends r w)
        (Step-Extends st (Steps-IsWellFormed lease_hash r w))
