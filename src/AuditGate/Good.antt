-- ===== src/AuditGate/Good.antt =====
-- audit_gate.py: the good audit states of a candidate, and a result that is added to one.
use mathlib.Core.List.{append_assoc, append-nil}
use autonomous_math_ai.Base.{
  ℕ, ◌≤◌, ◌<◌, ◌≡◌, ◌⊎◌, inl, inr, refl, true, false, not, ◌&&◌, String, Option, none, some, List,
  [], ◌∷◌, ◌++◌, sym, ap, ◌∙◌, tally, elem, All, All-append, Bool-cases, string_eq, ◌==◌,
  has_duplicates, has_duplicates-snoc, tally-append, arith,
}
use autonomous_math_ai.Base.Result.{ok}
use autonomous_math_ai.Models.{audit_pending, audit_1_pass, audited_nightly, rejected}
use autonomous_math_ai.Models.Events.{AuditResult}
use autonomous_math_ai.AuditGate.Gate.{CandidateAuditState, is_pass, is_reject, passes}
use autonomous_math_ai.AuditGate.Record.{
  thread_ids, thread_of, repeats_thread, audit_ids, is_clean, settle, admissible,
}

abbrev pub rejects : List AuditResult → ℕ
rejects results = tally is_reject results

-- The result is not a PASS without clean checks.
abbrev pub IsClean : AuditResult → Type 0
IsClean r = (is_pass r && not (is_clean r)) ≡ false

-- Where the verdicts have brought the state.
abbrev pub Decided : CandidateAuditState → Type 0
Decided s =
    ((s.terminal ≡ true)
      × (s.trust_status ≡ audited_nightly)
      × (s.required ≤ passes s.results)
      × (rejects s.results ≡ 0))
    ⊎ ((s.terminal ≡ true) × (s.trust_status ≡ rejected) × (0 < rejects s.results))
    ⊎ ((s.terminal ≡ false)
        × (rejects s.results ≡ 0)
        × ((passes s.results < s.required) ⊎ (passes s.results ≡ 0))
        × ((s.trust_status ≡ audit_pending) ⊎ (s.trust_status ≡ audit_1_pass)))

pub record IsGood (s : CandidateAuditState) : Type 0 where
  pub ids : has_duplicates (audit_ids s.results) ≡ false
  pub threads : has_duplicates (thread_ids s.results) ≡ false
  pub clean : All IsClean s.results
  pub decided : Decided s

audit_ids-append : (xs ys : List AuditResult) → audit_ids (xs ++ ys) ≡ audit_ids xs ++ audit_ids ys
audit_ids-append [] ys = refl
audit_ids-append (x ∷ xs) ys = ground (arith, audit_ids-append xs ys)

thread_ids-append :
    (xs ys : List AuditResult) → thread_ids (xs ++ ys) ≡ thread_ids xs ++ thread_ids ys
thread_ids-append [] ys = refl
thread_ids-append (x ∷ xs) ys =
    ap (λ (ts : List String). thread_of x.auditor_thread_id ++ ts) (thread_ids-append xs ys)
    ∙ sym (append_assoc (thread_of x.auditor_thread_id) (thread_ids xs) (thread_ids ys))

new_thread :
    (o : Option String) (results : List AuditResult)
    → repeats_thread o results ≡ false
    → has_duplicates (thread_ids results) ≡ false
    → has_duplicates (thread_ids results ++ (thread_of o ++ [])) ≡ false
new_thread none results n h = rw (append-nil (thread_ids results)) h
new_thread (some t) results n h = elim (Bool-cases (t == "")) [
  | inl empty ↦ rw (empty, append-nil (thread_ids results)) h
  | inr given ↦ rw given (has_duplicates-snoc t (thread_ids results) h (ground arith))
]

module _ (s : CandidateAuditState) (r : AuditResult) (fits : admissible s r ≡ ok tt) where
  new_id : elem r.audit_id (audit_ids s.results) ≡ false
  unfolding admissible
  new_id = ground arith

  settled_ids :
      has_duplicates (audit_ids s.results) ≡ false
      → has_duplicates (audit_ids (s.results ++ r ∷ [])) ≡ false
  settled_ids h =
      rw (audit_ids-append s.results (r ∷ []))
        (has_duplicates-snoc r.audit_id (audit_ids s.results) h new_id)

  settled_threads :
      has_duplicates (thread_ids s.results) ≡ false
      → has_duplicates (thread_ids (s.results ++ r ∷ [])) ≡ false
  unfolding admissible
  settled_threads h =
      rw (thread_ids-append s.results (r ∷ []))
        (new_thread r.auditor_thread_id s.results (ground arith) h)

  settled-IsClean : IsClean r
  unfolding admissible
  settled-IsClean = ground arith

  results-settle : (settle s r).results ≡ s.results ++ r ∷ []
  unfolding settle
  results-settle = ground arith

  settle-Decided :
      Decided s → s.terminal ≡ false → passes s.results < s.required → Decided (settle s r)
  unfolding settle
  settle-Decided d live waits = ground (
    arith,
    d,
    live,
    waits,
    tally-append is_pass s.results (r ∷ []),
    tally-append is_reject s.results (r ∷ []),
  )

  -- An admissible result keeps a state good that waits for one.
  pub settle-IsGood :
      IsGood s → s.terminal ≡ false → passes s.results < s.required → IsGood (settle s r)
  settle-IsGood g live waits = record {
    ids = rw results-settle (settled_ids g.ids);
    threads = rw results-settle (settled_threads g.threads);
    clean = rw results-settle (All-append IsClean s.results (r ∷ []) g.clean (settled-IsClean, tt));
    decided = settle-Decided g.decided live waits;
  }
