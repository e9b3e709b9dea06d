-- ===== src/Wire/AuditTests.antt =====
-- models.py: an auditor's answer, one that names the candidate itself, and one with another verdict.
use autonomous_math_ai.Base.{◌≡◌, refl, true, String, none, some, elem, string_eq}
use autonomous_math_ai.Base.Result.{ok, raise}
use autonomous_math_ai.Protocol.Json.{
  Value, null, text, array, nil, object, Fields, end, field, find_key,
}
use autonomous_math_ai.Wire.Receipts.{bad_verdict, audit_keys}
use autonomous_math_ai.Wire.Checks.{evidence_levels, check_level}
use autonomous_math_ai.Wire.Audit.{
  verdicts, AuditContext, audit_fields, audit_from_dict, audit_from_wire_v2, text_or_null,
}
use autonomous_math_ai.Wire.Identity.{audit_identity}

abbrev context : AuditContext Unit
context = record {
  audit_id = "audit-1";
  candidate_fingerprint = "f1";
  auditor_thread_id = some "thread-1";
  audit_kind = "PROOF";
  statement_checked = "n <= 2 n";
  report_path = none;
  semantic_authority_context = null;
  timestamp = none;
}

abbrev answer : String → Fields Unit → Value Unit
answer verdict rest = object (
    field "verdict" (text verdict) (
      field "checks" (array nil) (
        field "gaps" (array nil) (
          field "notes" (array nil)
            (field "verified_evidence_level" (text "E2_EXACT_TESTED") rest)))))

abbrev result : Fields Unit
result =
    audit_fields "now" context (text "PASS") (array nil) (array nil) (array nil)
      (text "E2_EXACT_TESTED")

answer_accepted : audit_from_wire_v2 "now" context (answer "PASS" end) ≡ ok result
unfolding audit_from_wire_v2 audit_from_dict check_level
answer_accepted = refl

spoofing_refused :
    audit_from_wire_v2 "now" context (answer "PASS" (field "candidate_fingerprint" (text "f2") end))
    ≡ raise audit_keys
unfolding audit_from_wire_v2
spoofing_refused = refl

verdict_refused : audit_from_wire_v2 "now" context (answer "MAYBE" end) ≡ raise bad_verdict
unfolding audit_from_wire_v2 audit_from_dict
verdict_refused = refl

audit_identity_example :
    (find_key "audit_id" result ≡ some (text "audit-1"))
    × (find_key "candidate_fingerprint" result ≡ some (text "f1"))
    × (find_key "auditor_thread_id" result ≡ some (text_or_null (some "thread-1")))
    × (find_key "audit_kind" result ≡ some (text "PROOF"))
    × (find_key "statement_checked" result ≡ some (text "n <= 2 n"))
    × ((s : String) × (find_key "verdict" result ≡ some (text s)) × (elem s verdicts ≡ true))
    × ((s : String) × (find_key "verified_evidence_level" result ≡ some (text s))
        × (elem s evidence_levels ≡ true))
audit_identity_example = audit_identity "now" context (answer "PASS" end) result answer_accepted
