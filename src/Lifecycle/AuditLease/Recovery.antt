-- ===== src/Lifecycle/AuditLease/Recovery.antt =====
-- `recover_stale_active`: a loop that appends as it goes, against a map over the leases.
use autonomous_math_ai.Base.{
  ◌≡◌, refl, ap, ◌∙◌, Bool, none, String, [], ◌∷◌, map, tally, arith, string_eq, pair_eq,
  if◌then◌else◌,
}
use autonomous_math_ai.Base.Dict.{Dict}
use autonomous_math_ai.Lifecycle.AuditLease.Book.{
  AuditLease, AuditLeaseBook, append, active, retry_wait, status_beq, recovered_retry_wait,
}
use autonomous_math_ai.Lifecycle.AuditLease.Operations.{recover_each, recover_stale_active}
use autonomous_math_ai.Lifecycle.AuditLease.WellFormed.{IsWellFormed}
use autonomous_math_ai.Lifecycle.AuditLease.Loop.{append_each, append_each-eq-map}

abbrev pub is_active : {F : Type 0} → (String × String) × AuditLease F → Bool
is_active (k, lease) = status_beq lease.status active

-- What recovery makes of one entry.
abbrev pub recovered :
    {F : Type 0} → String → (String × String) × AuditLease F → (String × String) × AuditLease F
recovered now (k, lease) =
    if status_beq lease.status active
    then (k, record lease { status = retry_wait; job_id = none; updated_at = now })
    else (k, lease)

abbrev pub waiting_again : {F : Type 0} → AuditLease F → AuditLease F
waiting_again lease = record lease { status = retry_wait; job_id = none }

module _ {F : Type 0} (now : String) where
  pub recover_each-eq-append_each :
      (rest : Dict (String × String) (AuditLease F)) (book : AuditLeaseBook F)
      → (recover_each now rest book).0
        ≡ append_each now recovered_retry_wait is_active waiting_again (λ lease. refl) rest book
  unfolding recover_each append_each
  recover_each-eq-append_each [] book = refl
  recover_each-eq-append_each ((k, lease) ∷ rest) book = ground (
    arith,
    recover_each-eq-append_each rest book,
    recover_each-eq-append_each rest (append now recovered_retry_wait (waiting_again lease) book).0,
  )

  recover_each-count :
      (rest : Dict (String × String) (AuditLease F)) (book : AuditLeaseBook F)
      → (recover_each now rest book).1 ≡ tally is_active rest
  unfolding recover_each
  recover_each-count [] book = refl
  recover_each-count ((k, lease) ∷ rest) book = ground (
    arith,
    recover_each-count rest book,
    recover_each-count rest
        (append now recovered_retry_wait (record lease { status = retry_wait; job_id = none })
          book).0,
  )

  none_active :
      (leases : Dict (String × String) (AuditLease F))
      → tally is_active (map (recovered now) leases) ≡ 0
  none_active [] = refl
  none_active ((k, lease) ∷ rest) = ground (arith, none_active rest)

  -- Recovery of a well-formed book moves each ACTIVE lease, and no other, to RETRY_WAIT without a
  -- job, in place; it returns how many there were, and leaves none.
  pub recover_stale_active_lem :
      (book : AuditLeaseBook F)
      → IsWellFormed book.current
      → ((recover_stale_active now book).0.current ≡ map (recovered now) book.current)
        × ((recover_stale_active now book).1 ≡ tally is_active book.current)
        × (tally is_active (recover_stale_active now book).0.current ≡ 0)
  unfolding recover_stale_active
  recover_stale_active_lem book w =
      let moved =
        ap (λ (b : AuditLeaseBook F). b.current) (recover_each-eq-append_each book.current book)
        ∙ append_each-eq-map now recovered_retry_wait is_active waiting_again (λ lease. refl)
            book.current [] book refl w.keyed w.single in
      (moved, recover_each-count book.current book, rw moved (none_active book.current))
