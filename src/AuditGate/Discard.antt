-- ===== src/AuditGate/Discard.antt =====
-- audit_gate.py: discarding audits of a candidate.
use autonomous_math_ai.Base.{
  ◌≡◌, inl, inr, refl, Bool, false, not, String, Option, none, some, List, [], ◌∷◌, ◌++◌, is_empty,
  keep, elem, All, Bool-cases, string_eq, has_duplicates, elem-append, any-tally, All-keep, arith,
}
use autonomous_math_ai.Models.Events.{AuditResult}
use autonomous_math_ai.AuditGate.Gate.{CandidateAuditState, is_reject}
use autonomous_math_ai.AuditGate.Record.{
  recompute_state, thread_ids, thread_of, audit_ids, is_discarded, discard_from,
}
use autonomous_math_ai.AuditGate.Good.{IsClean, Decided, IsGood}

recompute-Decided : (s : CandidateAuditState) → Decided (recompute_state s)
unfolding recompute_state
recompute-Decided s = ground (arith, any-tally is_reject s.results)

results-recompute : (s : CandidateAuditState) → (recompute_state s).results ≡ s.results
unfolding recompute_state
results-recompute s = ground arith

recompute-IsGood :
    (s : CandidateAuditState)
    → has_duplicates (audit_ids s.results) ≡ false
    → has_duplicates (thread_ids s.results) ≡ false
    → All IsClean s.results
    → IsGood (recompute_state s)
recompute-IsGood s i t c = record {
  ids = rw results-recompute i;
  threads = rw results-recompute t;
  clean = rw results-recompute c;
  decided = recompute-Decided s;
}

elem-keep_ids :
    (p : AuditResult → Bool) (x : String) (rs : List AuditResult)
    → elem x (audit_ids rs) ≡ false
    → elem x (audit_ids (keep p rs)) ≡ false
elem-keep_ids p x [] h = refl
elem-keep_ids p x (r ∷ rs) h = ground (arith, elem-keep_ids p x rs)

keep-ids :
    (p : AuditResult → Bool) (rs : List AuditResult)
    → has_duplicates (audit_ids rs) ≡ false
    → has_duplicates (audit_ids (keep p rs)) ≡ false
keep-ids p [] h = refl
keep-ids p (r ∷ rs) h = ground (arith, keep-ids p rs, elem-keep_ids p r.audit_id rs)

elem-keep_threads :
    (p : AuditResult → Bool) (x : String) (rs : List AuditResult)
    → elem x (thread_ids rs) ≡ false
    → elem x (thread_ids (keep p rs)) ≡ false
elem-keep_threads p x [] h = refl
elem-keep_threads p x (r ∷ rs) h = ground (
  arith,
  elem-keep_threads p x rs,
  elem-append x (thread_of r.auditor_thread_id) (thread_ids rs),
  elem-append x (thread_of r.auditor_thread_id) (thread_ids (keep p rs)),
)

add_thread :
    (o : Option String) (xs ys : List String)
    → has_duplicates (thread_of o ++ xs) ≡ false
    → (has_duplicates xs ≡ false → has_duplicates ys ≡ false)
    → ((x : String) → elem x xs ≡ false → elem x ys ≡ false)
    → has_duplicates (thread_of o ++ ys) ≡ false
add_thread none xs ys h f g = f h
add_thread (some t) xs ys h f g = ground (arith, h, f, g t)

has_duplicates-tail :
    (o : Option String) (xs : List String)
    → has_duplicates (thread_of o ++ xs) ≡ false
    → has_duplicates xs ≡ false
has_duplicates-tail none xs h = h
has_duplicates-tail (some t) xs h = ground arith

keep-threads :
    (p : AuditResult → Bool) (rs : List AuditResult)
    → has_duplicates (thread_ids rs) ≡ false
    → has_duplicates (thread_ids (keep p rs)) ≡ false
keep-threads p [] h = refl
keep-threads p (r ∷ rs) h = elim (Bool-cases (p r)) [
  | inl kept ↦ rw kept (
      add_thread r.auditor_thread_id (thread_ids rs) (thread_ids (keep p rs)) h (keep-threads p rs)
        (λ x. elem-keep_threads p x rs))
  | inr gone ↦
      rw gone (keep-threads p rs (has_duplicates-tail r.auditor_thread_id (thread_ids rs) h))
]

pub discard_from-IsGood :
    (ids : List String) (s : CandidateAuditState) → IsGood s → IsGood (discard_from ids s)
unfolding discard_from
discard_from-IsGood ids s g =
    let discarded = audit_ids (keep (is_discarded ids) s.results) in
    let stays : AuditResult → Bool = λ r. not (elem r.audit_id discarded) in
    elim (Bool-cases (is_empty discarded)) [
      | inl nothing ↦ rw nothing g
      | inr some_gone ↦ rw some_gone (
          recompute-IsGood (record s { results = keep stays s.results })
            (keep-ids stays s.results g.ids) (keep-threads stays s.results g.threads)
            (All-keep IsClean stays s.results g.clean))
    ]
