-- ===== src/Wire/Audit.antt =====
-- models.py: `AuditResult.from_dict` and `AuditResult.from_wire_v2`. A result is the dictionary of its
-- attributes.
use autonomous_math_ai.Base.{
  not, String, Option, none, some, List, [], ◌∷◌, ◌++◌, string_eq, ◌==◌, has_unknown, same_set,
  if◌then◌else◌,
}
use autonomous_math_ai.Base.Result.{Result, ok, raise, ◌>>=◌, ◌>>◌, raise_if}
use autonomous_math_ai.Protocol.Json.{
  Value, null, text, array, object, Fields, end, field, nil, keys_of, find_key,
}
use autonomous_math_ai.Wire.Receipts.{
  WireError, bad_verdict, bad_context, audit_keys, missing_key, unknown_fields, missing_fields,
  member_or,
}
use autonomous_math_ai.Wire.Checks.{without, set_defaults, check_level}

abbrev pub verdicts : List String
verdicts = "PASS" ∷ "REJECT" ∷ "UNRESOLVED" ∷ []

abbrev pub required_audit_fields : List String
required_audit_fields =
    "audit_id" ∷ "candidate_fingerprint" ∷ "verdict" ∷ "audit_kind" ∷ "statement_checked" ∷ "checks"
    ∷ "gaps" ∷ []

abbrev pub allowed_audit_fields : List String
allowed_audit_fields =
    required_audit_fields
    ++ ("auditor_thread_id" ∷ "notes" ∷ "report_path" ∷ "verified_evidence_level"
        ∷ "semantic_authority_context" ∷ "timestamp" ∷ [])

abbrev pub audit_wire_keys : List String
audit_wire_keys = "verdict" ∷ "checks" ∷ "gaps" ∷ "notes" ∷ "verified_evidence_level" ∷ []

-- `None` for a text that is not given, and `timestamp or utc_now()`
abbrev pub text_or_null : {F : Type 0} → Option String → Value F
text_or_null none = null
text_or_null (some s) = text s

abbrev pub time_or : String → Option String → String
time_or now none = now
time_or now (some s) = if s == "" then now else s

module _ {F : Type 0} where
  abbrev pub audit_defaults : List (String × Value F)
  audit_defaults =
      ("auditor_thread_id", null)
      ∷ ("report_path", null)
      ∷ ("notes", array nil)
      ∷ ("verified_evidence_level", text "E0_SPECULATIVE")
      ∷ ("semantic_authority_context", null)
      ∷ []

  abbrev pub check_context : Option (Value F) → Result WireError (Unit {0})
  check_context none = ok tt
  check_context (some null) = ok tt
  check_context (some (object fs)) = ok tt
  check_context (some other) = raise bad_context

  -- The clock gives the time of a result that has none.
  unfoldable pub audit_from_dict : String → Fields F → Result WireError (Fields F)
  audit_from_dict now wire =
      let given = keys_of wire in
      let normalized = set_defaults audit_defaults wire in
      raise_if (has_unknown given allowed_audit_fields)
        (unknown_fields (without given allowed_audit_fields))
      >> raise_if (has_unknown required_audit_fields given)
          (missing_fields (without required_audit_fields given))
      >> member_or bad_verdict verdicts (find_key "verdict" wire)
      >>= λ verdict.
          check_context (find_key "semantic_authority_context" normalized)
          >> check_level (find_key "verified_evidence_level" normalized)
          >> ok (set_defaults (("timestamp", text now) ∷ []) normalized)

  -- `data[key]`
  abbrev pub at_key : String → Fields F → Result WireError (Value F)
  at_key key fs = elim (find_key key fs) [ none ↦ raise missing_key | some v ↦ ok v ]

-- What the controller knows of an audit, beside what the auditor answers.
pub record AuditContext (F : Type 0) : Type 0 where
  pub audit_id : String
  pub candidate_fingerprint : String
  pub auditor_thread_id : Option String
  pub audit_kind : String
  pub statement_checked : String
  pub report_path : Option String
  pub semantic_authority_context : Value F
  pub timestamp : Option String

module _ {F : Type 0} where
  abbrev pub audit_fields :
      String → AuditContext F → Value F → Value F → Value F → Value F → Value F → Fields F
  audit_fields now c verdict checks gaps notes level = field "audit_id" (text c.audit_id) (
      field "candidate_fingerprint" (text c.candidate_fingerprint) (
        field "auditor_thread_id" (text_or_null c.auditor_thread_id) (
          field "verdict" verdict (
            field "audit_kind" (text c.audit_kind) (
              field "statement_checked" (text c.statement_checked) (
                field "checks" checks (
                  field "gaps" gaps (
                    field "notes" notes (
                      field "verified_evidence_level" level (
                        field "semantic_authority_context" c.semantic_authority_context (
                          field "report_path" (text_or_null c.report_path)
                            (field "timestamp" (text (time_or now c.timestamp)) end))))))))))))

  unfoldable pub audit_from_wire_v2 :
      String → AuditContext F → Value F → Result WireError (Fields F)
  audit_from_wire_v2 now c (object fs) =
      raise_if (not (same_set (keys_of fs) audit_wire_keys)) audit_keys
      >> at_key "verdict" fs
      >>= λ verdict. at_key "checks" fs >>= λ checks. at_key "gaps" fs >>= λ gaps.
          at_key "notes" fs >>= λ notes. at_key "verified_evidence_level" fs >>= λ level.
          audit_from_dict now (audit_fields now c verdict checks gaps notes level)
  audit_from_wire_v2 now c other = raise audit_keys
