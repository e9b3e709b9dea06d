-- ===== src/AuditGate/Sound.antt =====
-- audit_gate.py: the calls of the gate and the states that it holds.
use autonomous_math_ai.Base.{
  ℕ, ◌<◌, ◌≡◌, refl, sym, ap, ◌∙◌, subst, Bool, false, not, String, Option, none, some, List, [],
  All, list_beq, nat_eq, arith, string_eq,
}
use autonomous_math_ai.Base.Text.{squeeze}
use autonomous_math_ai.Base.Dict.{get, put, All-put, All-get}
use autonomous_math_ai.Base.Result.{ok, raise_if, >>=-eq-ok}
use autonomous_math_ai.Models.{TrustStatus, Impact}
use autonomous_math_ai.Models.Events.{CandidateEvent, AuditResult}
use autonomous_math_ai.Domain.Contract.{DomainContract}
use autonomous_math_ai.Domain.Semantics.{validate_event_type}
use autonomous_math_ai.AuditGate.Gate.{
  CandidateAuditState, AuditGate, state_terminal, different_statement, passes, register,
  register_over, fresh_state, next_audit_kind, pending_kind, from_domain, required_audits,
}
use autonomous_math_ai.AuditGate.Record.{
  record_result, discard_pass_results, discard_from, settle, admissible, recompute_state, state_of,
  expect_kind, supported_transition,
}
use autonomous_math_ai.AuditGate.Good.{IsGood, settle-IsGood}
use autonomous_math_ai.AuditGate.Discard.{discard_from-IsGood}

-- `AuditGate.__init__`
abbrev pub new_gate : Impact → Bool → DomainContract → AuditGate
new_gate threshold double semantics = record {
  high_threshold = threshold;
  critical_double_audit = double;
  semantics = semantics;
  states = [];
}

module _ (fingerprint : CandidateEvent → String) where
  -- The state of a candidate stands under its fingerprint, and is good.
  abbrev pub IsOwn : String × CandidateAuditState → Type 0
  IsOwn (k, s) = (fingerprint s.event ≡ k) × IsGood s

  abbrev pub IsSound : AuditGate → Type 0
  IsSound g = All IsOwn g.states

  pub put-IsSound :
      (g : AuditGate) (k : String) (s : CandidateAuditState)
      → fingerprint s.event ≡ k
      → IsGood s
      → IsSound g
      → IsSound (record g { states = put k s g.states })
  put-IsSound g k s own good sound = All-put IsOwn k s g.states (own, good) sound

  fresh-IsGood :
      (g : AuditGate) (event : CandidateEvent) (n : ℕ)
      → IsGood (fresh_state fingerprint g event n).1
  fresh-IsGood g event n = record { ids = refl; threads = refl; clean = tt; decided = ground arith }

  register_over-IsSound :
      (g : AuditGate) (event : CandidateEvent) (found : Option CandidateAuditState)
      {r : AuditGate × CandidateAuditState}
      → register_over fingerprint g event found ≡ ok r
      → IsSound g
      → IsSound r.0
  register_over-IsSound g event (some s) {r} e sound =
      let same : g ≡ r.0 = cc e in subst IsSound same sound
  register_over-IsSound g event none {r} e sound =
      let (n, counted, made) = >>=-eq-ok (required_audits g event) _ e in
      let same : (fresh_state fingerprint g event n).0 ≡ r.0 = cc made in
      subst IsSound same (
        put-IsSound g (fingerprint event) (fresh_state fingerprint g event n).1 refl
          (fresh-IsGood g event n) sound)

  pub register-IsSound :
      (g : AuditGate) (event : CandidateEvent) {r : AuditGate × CandidateAuditState}
      → register fingerprint g event ≡ ok r
      → IsSound g
      → IsSound r.0
  unfolding register
  register-IsSound g event e sound =
      let (v, valid, over) =
        >>=-eq-ok (from_domain (validate_event_type g.semantics event.type)) _ e in
      register_over-IsSound g event (get (fingerprint event) g.states) over sound

  pub register-known :
      (g : AuditGate) (s : CandidateAuditState) {r : AuditGate × CandidateAuditState}
      → get (fingerprint s.event) g.states ≡ some s
      → register fingerprint g s.event ≡ ok r
      → r ≡ (g, s)
  unfolding register
  register-known g s {r} at e =
      let (v, valid, over) =
        >>=-eq-ok (from_domain (validate_event_type g.semantics s.event.type)) _ e in
      let found : register_over fingerprint g s.event (some s) ≡ ok r = rw at at over in cc found

  pending_kind-some :
      (g : AuditGate) (s : CandidateAuditState) (kind : String)
      → pending_kind g s.event s ≡ ok (some kind)
      → (s.terminal ≡ false) × (passes s.results < s.required)
  pending_kind-some g s kind e = ground arith

  pub next_audit_kind-known :
      (g : AuditGate) (s : CandidateAuditState) (kind : String) {r : AuditGate × Option String}
      → get (fingerprint s.event) g.states ≡ some s
      → next_audit_kind fingerprint g s.event ≡ ok r
      → r.1 ≡ some kind
      → (r.0 ≡ g) × (s.terminal ≡ false) × (passes s.results < s.required)
  unfolding next_audit_kind
  next_audit_kind-known g s kind {r} at e is =
      let (p, registered, rest) = >>=-eq-ok (register fingerprint g s.event) _ e in
      let (k, pend, done) = >>=-eq-ok (pending_kind p.0 s.event p.1) _ rest in
      let known = register-known g s at registered in
      let pend' : pending_kind g s.event s ≡ ok (some kind) = cc (pend, known, done, is) in
      let (live, waits) = pending_kind-some g s kind pend' in (cc (done, known), live, waits)

  event-settle : (s : CandidateAuditState) (r : AuditResult) → (settle s r).event ≡ s.event
  unfolding settle
  event-settle s r = ground arith

  event-discard_from :
      (ids : List String) (s : CandidateAuditState) → (discard_from ids s).event ≡ s.event
  unfolding discard_from recompute_state
  event-discard_from ids s = ground arith

  state_of-found :
      (g : AuditGate) (key : String) (s : CandidateAuditState)
      → state_of g key ≡ ok s
      → get key g.states ≡ some s
  state_of-found g key s e = ground arith

  expected_kind :
      (r : AuditResult) (asked : Option String)
      → expect_kind r asked ≡ ok tt
      → asked ≡ some r.audit_kind
  expected_kind r none e = cc e
  expected_kind r (some kind) e =
      ap (λ (k : String). some k) (sym ((string_eq.beq_iff r.audit_kind kind).0 (ground arith)))

  -- The last step of `record`, behind its guards.
  record_put :
      (g : AuditGate) (r : AuditResult) (s : CandidateAuditState)
      (asked : AuditGate × Option String) {q : AuditGate × TrustStatus}
      → state_of g r.candidate_fingerprint ≡ ok s
      → next_audit_kind fingerprint g s.event ≡ ok asked
      → expect_kind r asked.1 ≡ ok tt
      → admissible s r ≡ ok tt
      → (
        record asked.0 { states = put r.candidate_fingerprint (settle s r) asked.0.states },
        (settle s r).trust_status,
      )
        ≡ q
      → IsSound g
      → IsSound q.0
  record_put g r s asked {q} found asks kind fits done sound =
      let at = state_of-found g r.candidate_fingerprint s found in
      let own : IsOwn (r.candidate_fingerprint, s) =
        All-get IsOwn r.candidate_fingerprint s g.states sound at in
      let here : get (fingerprint s.event) g.states ≡ some s = rw own.0 at in
      let (same, live, waits) =
        next_audit_kind-known g s r.audit_kind here asks (expected_kind r asked.1 kind) in
      subst (λ (z : AuditGate × TrustStatus). IsSound z.0) done
        (put-IsSound asked.0 r.candidate_fingerprint (settle s r)
          (ap fingerprint (event-settle s r) ∙ own.0) (settle-IsGood s r fits own.1 live waits)
          (subst IsSound (sym same) sound))

  pub record_result-IsSound :
      (g : AuditGate) (r : AuditResult) {q : AuditGate × TrustStatus}
      → record_result fingerprint g r ≡ ok q
      → IsSound g
      → IsSound q.0
  unfolding record_result
  record_result-IsSound g r {q} e sound =
      let (s, found, e1) = >>=-eq-ok (state_of g r.candidate_fingerprint) _ e in
      let (u1, t1, e2) = >>=-eq-ok (raise_if s.terminal state_terminal) _ e1 in
      let (u2, t2, e3) =
        >>=-eq-ok
          (raise_if (not (list_beq (squeeze r.statement_checked) (squeeze s.event.exact_statement)))
            different_statement)
          _ e2 in
      let (asked, asks, e4) = >>=-eq-ok (next_audit_kind fingerprint g s.event) _ e3 in
      let (u5, kind, e5) = >>=-eq-ok (expect_kind r asked.1) _ e4 in
      let (u6, fits, e6) = >>=-eq-ok (admissible s r) _ e5 in
      let (u7, moves, done) = >>=-eq-ok (supported_transition g s r) _ e6 in
      record_put g r s asked {q = q} found asks kind fits (cc done) sound

  pub discard-IsSound :
      (g : AuditGate) (key : String) (ids : List String) {q : AuditGate × List AuditResult}
      → discard_pass_results g key ids ≡ ok q
      → IsSound g
      → IsSound q.0
  unfolding discard_pass_results
  discard-IsSound g key ids {q} e sound =
      let (s, found, done) = >>=-eq-ok (state_of g key) _ e in
      let own : IsOwn (key, s) =
        All-get IsOwn key s g.states sound (state_of-found g key s found) in
      let same : record g { states = put key (discard_from ids s) g.states } ≡ q.0 = cc done in
      subst IsSound same (
        put-IsSound g key (discard_from ids s) (ap fingerprint (event-discard_from ids s) ∙ own.0)
          (discard_from-IsGood ids s own.1) sound)

  pub next_audit_kind-IsSound :
      (g : AuditGate) (event : CandidateEvent) {q : AuditGate × Option String}
      → next_audit_kind fingerprint g event ≡ ok q
      → IsSound g
      → IsSound q.0
  unfolding next_audit_kind
  next_audit_kind-IsSound g event {q} e sound =
      let (p, registered, rest) = >>=-eq-ok (register fingerprint g event) _ e in
      let (k, pend, done) = >>=-eq-ok (pending_kind p.0 event p.1) _ rest in
      let same : p.0 ≡ q.0 = cc done in
      subst IsSound same (register-IsSound g event registered sound)
