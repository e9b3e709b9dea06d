-- ===== src/Lifecycle/AuditLease/Priority.antt =====
-- `prioritize`: the loop against a map over the leases.
use autonomous_math_ai.Base.{
  ◌≡◌, refl, ap, ◌∙◌, Bool, not, ◌&&◌, any, String, [], ◌∷◌, map, arith, ◌==◌, string_eq, pair_eq,
}
use autonomous_math_ai.Base.Float.{Float}
use autonomous_math_ai.Base.Dict.{Dict}
use autonomous_math_ai.Lifecycle.AuditLease.Book.{
  AuditLease, AuditLeaseBook, append, prioritized, is_terminal,
}
use autonomous_math_ai.Lifecycle.AuditLease.Operations.{prioritize_each, prioritize}
use autonomous_math_ai.Lifecycle.AuditLease.WellFormed.{IsWellFormed}
use autonomous_math_ai.Lifecycle.AuditLease.Loop.{Entry, append_each, append_each-eq-map, changed}

module _ {F : Type 0} ⦃f : Float F⦄ (now fingerprint : String) (priority : F) where
  -- A lease of the candidate that is not finished and has a lower priority.
  abbrev pub is_raised : Entry F → Bool
  is_raised (k, lease) =
      k.0 == fingerprint && (not (is_terminal lease.status) && f.gt priority lease.priority)

  abbrev pub with_priority : AuditLease F → AuditLease F
  with_priority lease = record lease { priority = priority }

  pub prioritize_each-eq-append_each :
      (rest : Dict (String × String) (AuditLease F)) (book : AuditLeaseBook F)
      → (prioritize_each now fingerprint priority rest book).0
        ≡ append_each now prioritized is_raised with_priority (λ lease. refl) rest book
  unfolding prioritize_each append_each
  prioritize_each-eq-append_each [] book = refl
  prioritize_each-eq-append_each ((k, lease) ∷ rest) book = ground (
    arith,
    prioritize_each-eq-append_each rest book,
    prioritize_each-eq-append_each rest (append now prioritized (with_priority lease) book).0,
  )

  prioritize_each-changed :
      (rest : Dict (String × String) (AuditLease F)) (book : AuditLeaseBook F)
      → (prioritize_each now fingerprint priority rest book).1 ≡ any is_raised rest
  unfolding prioritize_each
  prioritize_each-changed [] book = refl
  prioritize_each-changed ((k, lease) ∷ rest) book = ground (
    arith,
    prioritize_each-changed rest book,
    prioritize_each-changed rest (append now prioritized (with_priority lease) book).0,
  )

  -- On a well-formed book prioritize raises the priority of exactly the unfinished leases of the
  -- candidate that have a lower one, in place, and returns whether there was such a lease.
  pub prioritize_lem :
      (book : AuditLeaseBook F)
      → IsWellFormed book.current
      → ((prioritize now fingerprint priority book).0.current
          ≡ map (changed now prioritized is_raised with_priority (λ lease. refl)) book.current)
        × ((prioritize now fingerprint priority book).1 ≡ any is_raised book.current)
  unfolding prioritize
  prioritize_lem book w = (
    ap (λ (b : AuditLeaseBook F). b.current) (prioritize_each-eq-append_each book.current book)
        ∙ append_each-eq-map now prioritized is_raised with_priority (λ lease. refl) book.current []
            book refl w.keyed w.single,
    prioritize_each-changed book.current book,
  )
