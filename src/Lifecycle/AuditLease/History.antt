-- ===== src/Lifecycle/AuditLease/History.antt =====
-- lifecycle/audit_lease.py: the lines that the operations append to the file, read as a history.
use mathlib.Core.List.{append_assoc, append-nil}
use autonomous_math_ai.Base.{
  ℕ, ◌+◌, ◌≡◌, refl, sym, ap, ◌∙◌, subst, true, false, ◌||◌, Option, none, some, String, List, [],
  ◌∷◌, ◌++◌, string_eq, pair_eq,
}
use autonomous_math_ai.Base.Float.{Float}
use autonomous_math_ai.Base.Dict.{Dict, get, put}
use autonomous_math_ai.Lifecycle.AuditLease.Book.{
  AuditLeaseStatus, pending, active, retry_wait, passed, rejected, unresolved, status_beq,
  is_terminal, AuditLease, LeaseAction, created, prioritized, activated, retry_waiting, finished,
  recovered_retry_wait, LeaseEvent, change, other_line, AuditLeaseBook, append, key_of, load_from,
}
use autonomous_math_ai.Lifecycle.AuditLease.Replay.{load_from-append}

-- The verdict that a lease was finished with.
abbrev pub verdict_name : AuditLeaseStatus → String
verdict_name passed = "PASS"
verdict_name rejected = "REJECT"
verdict_name unresolved = "UNRESOLVED"
verdict_name other = ""

module _ {F : Type 0} where
  abbrev pub verdicts_in : List (LeaseEvent F) → List String
  verdicts_in [] = []
  verdicts_in (change finished lease ∷ rest) = verdict_name lease.status ∷ verdicts_in rest
  verdicts_in (change action lease ∷ rest) = verdicts_in rest
  verdicts_in (other_line ∷ rest) = verdicts_in rest

  verdicts_in-append :
      (xs ys : List (LeaseEvent F)) → verdicts_in (xs ++ ys) ≡ verdicts_in xs ++ verdicts_in ys
  verdicts_in-append [] ys = refl
  verdicts_in-append (change finished lease ∷ xs) ys =
      ap (λ vs. verdict_name lease.status ∷ vs) (verdicts_in-append xs ys)
  verdicts_in-append (change created lease ∷ xs) ys = verdicts_in-append xs ys
  verdicts_in-append (change prioritized lease ∷ xs) ys = verdicts_in-append xs ys
  verdicts_in-append (change activated lease ∷ xs) ys = verdicts_in-append xs ys
  verdicts_in-append (change retry_waiting lease ∷ xs) ys = verdicts_in-append xs ys
  verdicts_in-append (change recovered_retry_wait lease ∷ xs) ys = verdicts_in-append xs ys
  verdicts_in-append (other_line ∷ xs) ys = verdicts_in-append xs ys

module _ {F : Type 0} ⦃f : Float F⦄ (lease_hash : String → String → ℕ → String) where
  -- A new lease: its id is the digest of its key and attempt, and it waits for its first job.
  abbrev pub IsFresh : AuditLease F → Type 0
  IsFresh new =
      (new.lease_id ≡ lease_hash new.candidate_fingerprint new.audit_kind new.attempt)
      × (new.status ≡ pending)
      × (new.job_id ≡ none)

  -- A line with the action may write the lease where the key held the old one. Whatever is not
  -- named stays as it was.
  abbrev pub IsLegal : LeaseAction → Option (AuditLease F) → AuditLease F → Type 0
  IsLegal created none new = (new.attempt ≡ 1) × IsFresh new
  IsLegal created (some old) new =
      (is_terminal old.status ≡ true) × (new.attempt ≡ old.attempt + 1) × IsFresh new
  IsLegal prioritized (some old) new =
      (is_terminal old.status ≡ false)
      × (f.gt new.priority old.priority ≡ true)
      × (new ≡ record old { priority = new.priority; updated_at = new.updated_at })
  IsLegal activated (some old) new =
      ((status_beq old.status pending || status_beq old.status retry_wait) ≡ true)
      × ((job_id : String) × (new
            ≡ record old { status = active; job_id = some job_id; updated_at = new.updated_at }))
  IsLegal retry_waiting (some old) new =
      (old.status ≡ active)
      × (new ≡ record old { status = retry_wait; job_id = none; updated_at = new.updated_at })
  IsLegal recovered_retry_wait (some old) new =
      (old.status ≡ active)
      × (new ≡ record old { status = retry_wait; job_id = none; updated_at = new.updated_at })
  IsLegal finished (some old) new =
      (old.status ≡ active)
      × (is_terminal new.status ≡ true)
      × (new ≡ record old { status = new.status; updated_at = new.updated_at })
  IsLegal action none new = ⊥

  -- Each line is legal after those before it.
  abbrev pub IsHistory : Dict (String × String) (AuditLease F) → List (LeaseEvent F) → Type 0
  IsHistory current [] = Unit
  IsHistory current (change action lease ∷ rest) =
      IsLegal action (get (key_of lease) current) lease
      × IsHistory (put (key_of lease) lease current) rest
  IsHistory current (other_line ∷ rest) = IsHistory current rest

  -- The file of the second book goes on where that of the first one ends, and its new lines are
  -- a history with these verdicts.
  abbrev pub Extends : List String → AuditLeaseBook F → AuditLeaseBook F → Type 0
  Extends verdicts book after =
      (lines : List (LeaseEvent F)) × (after.log ≡ book.log ++ lines)
      × IsHistory book.current lines
      × (verdicts_in lines ≡ verdicts)
      × (after.current ≡ load_from book.current lines)

  IsHistory-append :
      (current : Dict (String × String) (AuditLease F)) (xs ys : List (LeaseEvent F))
      → IsHistory current xs
      → IsHistory (load_from current xs) ys
      → IsHistory current (xs ++ ys)
  unfolding load_from
  IsHistory-append current [] ys hx hy = hy
  IsHistory-append current (change action lease ∷ xs) ys hx hy =
      (hx.0, IsHistory-append (put (key_of lease) lease current) xs ys hx.1 hy)
  IsHistory-append current (other_line ∷ xs) ys hx hy = IsHistory-append current xs ys hx hy

  pub no_lines : (book : AuditLeaseBook F) → Extends [] book book
  unfolding load_from
  no_lines book = ([], sym (append-nil book.log), tt, refl, refl)

  pub more_lines :
      (vs ws : List String) (a b c : AuditLeaseBook F)
      → Extends vs a b
      → Extends ws b c
      → Extends (vs ++ ws) a c
  more_lines vs ws a b c (xs, logged, legal, named, now)
        (ys, logged_too, legal_too, named_too, now_too) =
      (
        xs ++ ys,
        logged_too ∙ ap (λ l. l ++ ys) logged ∙ append_assoc a.log xs ys,
        IsHistory-append a.current xs ys legal (subst (λ m. IsHistory m ys) now legal_too),
        verdicts_in-append xs ys
            ∙ ap (λ l. l ++ verdicts_in ys) named
            ∙ ap (λ l. vs ++ l) named_too,
        now_too ∙ ap (λ m. load_from m ys) now ∙ sym (load_from-append a.current xs ys),
      )

  pub append-Extends :
      (now : String) (action : LeaseAction) (lease : AuditLease F) (book : AuditLeaseBook F)
      (found : Option (AuditLease F))
      → get (key_of lease) book.current ≡ found
      → IsLegal action found (record lease { updated_at = now })
      → Extends (verdicts_in (change action lease ∷ [])) book (append now action lease book).0
  unfolding append load_from
  append-Extends now action lease book found at legal = (
    change action (record lease { updated_at = now }) ∷ [],
    refl,
    (subst (λ o. IsLegal action o (record lease { updated_at = now })) (sym at) legal, tt),
    same_verdicts action,
    refl,
  )
    where
      same_verdicts :
          (action : LeaseAction)
          → verdicts_in (change action (record lease { updated_at = now }) ∷ [])
            ≡ verdicts_in (change action lease ∷ [])
      same_verdicts created = refl
      same_verdicts prioritized = refl
      same_verdicts activated = refl
      same_verdicts retry_waiting = refl
      same_verdicts finished = refl
      same_verdicts recovered_retry_wait = refl
