-- ===== src/Wire/Identity.antt =====
-- models.py: what an auditor's answer can set in the result of its audit.
use autonomous_math_ai.Base.{
  ◌≡◌, ◌∙◌, refl, sym, ap, arith, true, not, String, some, elem, string_eq, same_set,
}
use autonomous_math_ai.Base.Result.{ok, ◌>>◌, raise_if, >>=-eq-ok, >>-eq-ok, ok-injective}
use autonomous_math_ai.Protocol.Json.{
  Value, null, boolean, integer, real, text, array, object, Fields, keys_of, find_key,
}
use autonomous_math_ai.Wire.Receipts.{bad_verdict, audit_keys, member_or}
use autonomous_math_ai.Wire.Checks.{evidence_levels, check_level}
use autonomous_math_ai.Wire.Audit.{
  verdicts, audit_wire_keys, check_context, audit_from_dict, at_key, AuditContext, audit_fields,
  audit_from_wire_v2, text_or_null,
}

module _ {F : Type 0} where
  named_verdict :
      (v : Value F) {s : String}
      → member_or bad_verdict verdicts (some v) ≡ ok s
      → (v ≡ text s) × (elem s verdicts ≡ true)
  named_verdict (text t) h =
      let (known, same) = >>-eq-ok (not (elem t verdicts)) bad_verdict (ok t) h in
      (ap text (ok-injective same), ground arith)
  named_verdict null h = cc
  named_verdict (boolean b) h = cc
  named_verdict (integer z) h = cc
  named_verdict (real x) h = cc
  named_verdict (array xs) h = cc
  named_verdict (object fs) h = cc

  named_level :
      (v : Value F)
      → check_level (some v) ≡ ok tt
      → (s : String) × (v ≡ text s) × (elem s evidence_levels ≡ true)
  unfolding check_level
  named_level (text s) h = (s, refl, ground arith)
  named_level null h = cc
  named_level (boolean b) h = cc
  named_level (integer z) h = cc
  named_level (real x) h = cc
  named_level (array xs) h = cc
  named_level (object fs) h = cc

  audit_kept :
      (now : String) (c : AuditContext F) (verdict checks gaps notes level : Value F) (r : Fields F)
      → audit_from_dict now (audit_fields now c verdict checks gaps notes level) ≡ ok r
      → (audit_fields now c verdict checks gaps notes level ≡ r)
        × ((s : String) × (verdict ≡ text s) × (elem s verdicts ≡ true))
        × ((s : String) × (level ≡ text s) × (elem s evidence_levels ≡ true))
  unfolding audit_from_dict
  audit_kept now c verdict checks gaps notes level r h =
      let (s, a, h1) = >>=-eq-ok (member_or bad_verdict verdicts (some verdict)) _ h in
      let (u, b, made) =
        >>=-eq-ok (check_context (some c.semantic_authority_context) >> check_level (some level)) _
          h1 in
      let (w, d, leveled) = >>=-eq-ok (check_context (some c.semantic_authority_context)) _ b in
      let (is, known) = named_verdict verdict a in
      (ok-injective made, (s, is, known), named_level level leveled)

  -- Whatever an auditor answers, the result that from_wire_v2 makes of it has the audit id, the
  -- candidate's fingerprint, the thread, the kind of audit and the checked statement that the
  -- controller gave, one of the three verdicts and one of the evidence levels.
  pub audit_identity :
      (now : String) (c : AuditContext F) (v : Value F) (r : Fields F)
      → audit_from_wire_v2 now c v ≡ ok r
      → (find_key "audit_id" r ≡ some (text c.audit_id))
        × (find_key "candidate_fingerprint" r ≡ some (text c.candidate_fingerprint))
        × (find_key "auditor_thread_id" r ≡ some (text_or_null c.auditor_thread_id))
        × (find_key "audit_kind" r ≡ some (text c.audit_kind))
        × (find_key "statement_checked" r ≡ some (text c.statement_checked))
        × ((s : String) × (find_key "verdict" r ≡ some (text s)) × (elem s verdicts ≡ true))
        × ((s : String) × (find_key "verified_evidence_level" r ≡ some (text s))
            × (elem s evidence_levels ≡ true))
  unfolding audit_from_wire_v2
  audit_identity now c (object fs) r h =
      let (verdict, a1, h1) =
        >>=-eq-ok
          (raise_if (not (same_set (keys_of fs) audit_wire_keys)) audit_keys >> at_key "verdict" fs)
          _ h in
      let (checks, a2, h2) = >>=-eq-ok (at_key "checks" fs) _ h1 in
      let (gaps, a3, h3) = >>=-eq-ok (at_key "gaps" fs) _ h2 in
      let (notes, a4, h4) = >>=-eq-ok (at_key "notes" fs) _ h3 in
      let (level, a5, h5) = >>=-eq-ok (at_key "verified_evidence_level" fs) _ h4 in
      let (same, (s, named, known), (l, leveled, known_level)) =
        audit_kept now c verdict checks gaps notes level r h5 in
      (
        ap (find_key "audit_id") (sym same),
        ap (find_key "candidate_fingerprint") (sym same),
        ap (find_key "auditor_thread_id") (sym same),
        ap (find_key "audit_kind") (sym same),
        ap (find_key "statement_checked") (sym same),
        (s, ap (find_key "verdict") (sym same) ∙ ap some named, known),
        (l, ap (find_key "verified_evidence_level") (sym same) ∙ ap some leveled, known_level),
      )
  audit_identity now c null r h = cc
  audit_identity now c (boolean b) r h = cc
  audit_identity now c (integer z) r h = cc
  audit_identity now c (real x) r h = cc
  audit_identity now c (text s) r h = cc
  audit_identity now c (array xs) r h = cc
