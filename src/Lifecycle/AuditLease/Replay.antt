-- ===== src/Lifecycle/AuditLease/Replay.antt =====
-- lifecycle/audit_lease.py: the file of the lease book against the leases in memory.
use autonomous_math_ai.Base.{ℕ, ◌≡◌, refl, ap, ◌∙◌, String, List, [], ◌∷◌, ◌++◌, string_eq, pair_eq}
use autonomous_math_ai.Base.Float.{Float}
use autonomous_math_ai.Base.Dict.{Dict, put}
use autonomous_math_ai.Lifecycle.AuditLease.Book.{
  AuditLease, LeaseAction, LeaseEvent, AuditLeaseBook, apply_event, load_from, open_book, append,
}
use autonomous_math_ai.Lifecycle.AuditLease.Steps.{Steps}
use autonomous_math_ai.Lifecycle.AuditLease.Keeps.{Steps-keeps}

module _ {F : Type 0} where
  abbrev pub IsDurable : AuditLeaseBook F → Type 0
  IsDurable book = (open_book book.log).current ≡ book.current

  pub load_from-append :
      (current : Dict (String × String) (AuditLease F)) (xs ys : List (LeaseEvent F))
      → load_from current (xs ++ ys) ≡ load_from (load_from current xs) ys
  unfolding load_from
  load_from-append current [] ys = refl
  load_from-append current (x ∷ xs) ys = load_from-append (apply_event current x) xs ys

  append-IsDurable :
      (now : String) (action : LeaseAction) (lease : AuditLease F) (book : AuditLeaseBook F)
      → IsDurable book
      → IsDurable (append now action lease book).0
  unfolding append open_book
  append-IsDurable now action lease book d =
      load_from-append [] book.log _
      ∙ ap (put (lease.candidate_fingerprint, lease.audit_kind) (record lease { updated_at = now }))
          d

module _ {F : Type 0} ⦃f : Float F⦄ (lease_hash : String → String → ℕ → String) where
  -- From a book that was just loaded, after any steps, loading the file again gives exactly the
  -- leases in memory, in the same order.
  pub reload-eq-current :
      (log : List (LeaseEvent F)) {after : AuditLeaseBook F}
      → Steps lease_hash (open_book log) after
      → (open_book after.log).current ≡ after.current
  reload-eq-current log r =
      Steps-keeps lease_hash {P = IsDurable} append-IsDurable r (unfold open_book in refl)
