-- ===== src/Lifecycle/AuditLease/Transitions.antt =====
-- What one step does to the lease of one key: the state machine of a lease.
use autonomous_math_ai.Base.{
  ℕ, ◌+◌, ◌≡◌, refl, sym, ap, ◌∙◌, subst, ◌⊎◌, inl, inr, Bool, true, Option, none, some, String,
  map, arith, string_eq, pair_eq, pair_beq_iff, pair_beq, Bool-cases, ◌||◌,
}
use autonomous_math_ai.Base.Float.{Float}
use autonomous_math_ai.Base.Dict.{get, get-put}
use autonomous_math_ai.Lifecycle.AuditLease.Book.{
  AuditLeaseStatus, pending, active, retry_wait, passed, rejected, unresolved, status_beq,
  is_terminal, AuditLease, LeaseAction, AuditLeaseBook, append, key_of, activated, retry_waiting,
  finished, created, prioritized, recovered_retry_wait,
}
use autonomous_math_ai.Lifecycle.AuditLease.Operations.{
  ensure, ensure_over, verdict_status, prioritize, recover_stale_active,
}
use autonomous_math_ai.Lifecycle.AuditLease.Steps.{
  Step, ensured, activation, waiting, finishing, raising, recovery, activate-eq-ok, retry-eq-ok,
  finish-eq-ok,
}
use autonomous_math_ai.Lifecycle.AuditLease.WellFormed.{IsWellFormed, by_id-get, get-key}
use autonomous_math_ai.Lifecycle.AuditLease.Loop.{Entry, changed, get-changed}
use autonomous_math_ai.Lifecycle.AuditLease.Recovery.{
  recover_stale_active_lem, is_active, waiting_again,
}
use autonomous_math_ai.Lifecycle.AuditLease.Priority.{prioritize_lem, is_raised, with_priority}

-- The moves within one attempt, and staying.
abbrev pub may_follow : AuditLeaseStatus → AuditLeaseStatus → Bool
may_follow pending active = true
may_follow retry_wait active = true
may_follow active retry_wait = true
may_follow active passed = true
may_follow active rejected = true
may_follow active unresolved = true
may_follow old new = status_beq old new

-- An attempt goes on, or a finished one is followed by the next attempt, which is pending.
abbrev pub Follows : {F : Type 0} → AuditLease F → AuditLease F → Type 0
Follows old new =
    ((new.attempt ≡ old.attempt) × (may_follow old.status new.status ≡ true))
    ⊎ ((new.attempt ≡ old.attempt + 1)
        × (is_terminal old.status ≡ true)
        × (new.status ≡ pending)
        × (new.job_id ≡ none))

may_follow_same : (s : AuditLeaseStatus) → may_follow s s ≡ true
may_follow_same s = ground arith

activated_move :
    (s : AuditLeaseStatus)
    → (status_beq s pending || status_beq s retry_wait) ≡ true
    → may_follow s active ≡ true
activated_move s h = ground arith

recovered_move :
    (s : AuditLeaseStatus) → status_beq s active ≡ true → may_follow s retry_wait ≡ true
recovered_move s h = ground arith

finished_move :
    (verdict : String) (s : AuditLeaseStatus)
    → verdict_status verdict ≡ some s
    → may_follow active s ≡ true
finished_move verdict s h = ground arith

module _ {F : Type 0} where
  -- The lease that a dictionary holds after a change, if it held one before.
  abbrev Kept : String × String → AuditLease F → AuditLeaseBook F → Type 0
  Kept k old after = (new : AuditLease F) × (get k after.current ≡ some new) × Follows old new

  append-Kept :
      (now : String) (action : LeaseAction) (book : AuditLeaseBook F) (lease new old : AuditLease F)
      (k : String × String)
      → get (key_of new) book.current ≡ some lease
      → Follows lease (record new { updated_at = now })
      → get k book.current ≡ some old
      → Kept k old (append now action new book).0
  unfolding append
  append-Kept now action book lease new old k own f e =
      elim (Bool-cases (pair_beq (key_of new) k)) [
        | inl same ↦ (
          record new { updated_at = now },
          ground (arith, get-put (key_of new) k (record new { updated_at = now }) book.current),
          let p : lease ≡ old = ground (arith, pair_beq_iff (key_of new) k) in
              subst (λ (x : AuditLease F). Follows x (record new { updated_at = now })) p f,
        )
        | inr other ↦ (
          old,
          ground (arith, get-put (key_of new) k (record new { updated_at = now }) book.current),
          inl (refl, may_follow_same old.status),
        )
      ]

  created-Kept :
      (now : String) (book : AuditLeaseBook F) (new old : AuditLease F) (k : String × String)
      → get (key_of new) book.current ≡ none
      → get k book.current ≡ some old
      → Kept k old (append now created new book).0
  unfolding append
  created-Kept now book new old k absent e = (
    old,
    ground (
      arith,
      get-put (key_of new) k (record new { updated_at = now }) book.current,
      pair_beq_iff (key_of new) k,
    ),
    inl (refl, may_follow_same old.status),
  )

  loop-Kept :
      (now : String) (action : LeaseAction) (test : Entry F → Bool)
      (change : AuditLease F → AuditLease F)
      (same_key : (lease : AuditLease F) → key_of (change lease) ≡ key_of lease)
      (book after : AuditLeaseBook F) (old : AuditLease F) (k : String × String)
      → (test (k, old) ≡ true → Follows old (record (change old) { updated_at = now }))
      → after.current ≡ map (changed now action test change same_key) book.current
      → get k book.current ≡ some old
      → Kept k old after
  loop-Kept now action test change same_key book after old k follows moved e =
      let at = get-changed now action test change same_key k book.current in
      elim (Bool-cases (test (k, old))) [
        | inl yields ↦ (
          record (change old) { updated_at = now },
          ap (get k) moved ∙ at ∙ ground arith,
          follows yields,
        )
        | inr other ↦
            (old, ap (get k) moved ∙ at ∙ ground arith, inl (refl, may_follow_same old.status))
      ]

module _ {F : Type 0} ⦃f : Float F⦄ (lease_hash : String → String → ℕ → String) where
  ensure-Kept :
      (now fingerprint kind : String) (priority : F) (book : AuditLeaseBook F) (old : AuditLease F)
      (k : String × String)
      → IsWellFormed book.current
      → get k book.current ≡ some old
      → Kept k old (ensure lease_hash now fingerprint kind priority book).0
  unfolding ensure
  ensure-Kept now fingerprint kind priority book old k w e =
      over (get (fingerprint, kind) book.current) refl
    where
      over :
          (found : Option (AuditLease F))
          → get (fingerprint, kind) book.current ≡ found
          → Kept k old (ensure_over lease_hash now fingerprint kind priority book found).0
      over none at = created-Kept now book _ old k at e
      over (some lease) at = elim (Bool-cases (is_terminal lease.status)) [
        | inl ended ↦
            rw ended
              (append-Kept now created book lease _ old k at (inr (refl, ended, refl, refl)) e)
        | inr live ↦ rw live (elim (Bool-cases (f.gt priority lease.priority)) [
          | inl more ↦ rw more (
              append-Kept now prioritized book lease (record lease { priority = priority }) old k
                (subst (λ (j : String × String). get j book.current ≡ some lease)
                  (sym (get-key (fingerprint, kind) book.current lease w.keyed at)) at)
                (inl (refl, may_follow_same lease.status)) e)
          | inr same ↦ rw same (old, e, inl (refl, may_follow_same old.status))
        ])
      ]

  -- In a well-formed book a step never loses a lease, and the lease that then stands under its key
  -- goes on with the same attempt by a legal move, or is the next attempt after a finished one.
  pub Step-Follows :
      {book after : AuditLeaseBook F}
      → Step lease_hash book after
      → IsWellFormed book.current
      → (k : String × String) (old : AuditLease F) → get k book.current ≡ some old
      → (new : AuditLease F) × (get k after.current ≡ some new) × Follows old new
  Step-Follows {book} (ensured now fingerprint kind priority) w k old e =
      ensure-Kept now fingerprint kind priority book old k w e
  Step-Follows {book} (activation now lease_id job_id e) w k old at =
      let (lease, found, test, done) = activate-eq-ok now lease_id job_id book e in
      subst (Kept k old) (sym (ap (λ p. p.0) done)) (
        append-Kept now activated book lease _ old k (by_id-get lease_id book lease w found).0
          (inl (refl, activated_move lease.status test)) at)
  Step-Follows {book} (waiting now lease_id e) w k old at =
      let (lease, found, test, done) = retry-eq-ok now lease_id book e in
      subst (Kept k old) (sym (ap (λ p. p.0) done)) (
        append-Kept now retry_waiting book lease _ old k (by_id-get lease_id book lease w found).0
          (inl (refl, rw test)) at)
  Step-Follows {book} (finishing now lease_id verdict e) w k old at =
      let (lease, status, found, test, mapped, done) = finish-eq-ok now lease_id verdict book e in
      subst (Kept k old) (sym (ap (λ p. p.0) done)) (
        append-Kept now finished book lease _ old k (by_id-get lease_id book lease w found).0
          (inl (refl, rw test (finished_move verdict status mapped))) at)
  Step-Follows {book} (raising now fingerprint priority) w k old e =
      loop-Kept now prioritized (is_raised now fingerprint priority)
        (with_priority now fingerprint priority) (λ lease. refl) book
        (prioritize now fingerprint priority book).0 old k
        (λ yields. inl (refl, may_follow_same old.status))
        (prioritize_lem now fingerprint priority book w).0 e
  Step-Follows {book} (recovery now) w k old e =
      loop-Kept now recovered_retry_wait is_active waiting_again (λ lease. refl) book
        (recover_stale_active now book).0 old k
        (λ yields. inl (refl, recovered_move old.status yields))
        (recover_stale_active_lem now book w).0 e
