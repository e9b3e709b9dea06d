-- ===== src/Wire/Tests.antt =====
-- models.py: a derived candidate with a receipt, and the candidates that its receipt or its attempt
-- id spoils.
use autonomous_math_ai.Base.{
  ◌≡◌, refl, false, String, some, List, [], ◌∷◌, All, has_duplicates, has_unknown, string_eq,
  list_eq,
}
use autonomous_math_ai.Base.Result.{Result, ok, raise}
use autonomous_math_ai.Base.Int.{pos}
use autonomous_math_ai.Base.Text.{codes, is_space, split_from, squeeze}
use autonomous_math_ai.Protocol.Json.{
  Value, null, integer, text, array, nil, Fields, end, field, keys_of, find_key,
}
use autonomous_math_ai.Representation.{
  RepresentationContract, legacy, to_dict, is_blank, filled_text, filled_texts, read_factors,
  read_fields, from_dict,
}
use autonomous_math_ai.Representation.RoundTrip.{IsContract}
use autonomous_math_ai.Wire.Paths.{as_posix, is_project_relative}
use autonomous_math_ai.Wire.Receipts.{
  WireError, receipt_path, legacy_attempt, EvidenceReceipt, is_run_id, read_receipt, read_receipts,
  receipt_values, receipt_ids,
}
use autonomous_math_ai.Wire.Checks.{
  allowed_fields, check_version, check_representation, read_ids, check_bridges, check_receipts,
  check_level,
}
use autonomous_math_ai.Wire.Candidate.{DerivedKey, with_claim_id, candidate_from_dict}
use autonomous_math_ai.Wire.Accepted.{IsSafeReceipt}
use autonomous_math_ai.Wire.Event.{accepted_candidate}

abbrev digest : DerivedKey → String
digest key = "0123456789ABCDEF"

abbrev receipt : String → EvidenceReceipt
receipt path = record {
  kind = "experiment_run";
  manifest_path = path;
  run_id = "run-0123456789abcdef0123456789abcdef0123456789abcdef0123456789abcdef";
}

abbrev candidate : String → String → Value Unit → Fields Unit → Fields Unit
candidate claim_id path attempt_id rest = field "event_id" (text "e1") (
    field "producer_task_id" (text "t1") (
      field "claim_id" (text claim_id) (
        field "parent_claim_id" (text "MAIN") (
          field "type" (text "KEY_LEMMA") (
            field "impact" (text "HIGH") (
              field "concise_summary" (text "a bound") (
                field "exact_statement" (text "n  <= 2 n") (
                  field "artifact_paths" (array nil) (
                    field "reproduction_commands" (array nil) (
                      field "dependency_impact" (array nil) (
                        field "evidence_attempt_id" attempt_id (
                          field "evidence_receipts" (array (receipt_values (receipt path ∷ [])))
                            rest))))))))))))

abbrev event : Fields Unit
event = candidate "MAIN::DERIVED::0123456789ABCDEF" "runs/r1.json" null (
    field "producer_thread_id" null (
      field "source_run_id" null (
        field "assumptions" (array nil) (
          field "dependencies" (array nil) (
            field "proposed_evidence_level" (text "E0_SPECULATIVE") (
              field "representation" (to_dict legacy) (
                field "bridge_representation_ids" (array nil) (
                  field "semantic_bridge_ids" (array nil) (
                    field "fingerprint_version" (integer (pos 1))
                      (field "timestamp" (text "now") end))))))))))

abbrev decoded : String → Value Unit → Result WireError (Fields Unit)
decoded path attempt_id =
    candidate_from_dict digest "now" (candidate "AUTO_DERIVED" path attempt_id end)

event_accepted : decoded "runs/r1.json" null ≡ ok event
unfolding candidate_from_dict check_version check_representation read_ids check_bridges
    check_receipts check_level with_claim_id read_receipts read_receipt is_project_relative
    is_run_id from_dict read_fields read_factors filled_text filled_texts is_blank is_space
    split_from squeeze
event_accepted = refl

path_above_refused : decoded "runs/../../r1.json" null ≡ raise (receipt_path 0)
unfolding candidate_from_dict check_version check_representation read_ids check_bridges
    check_receipts check_level with_claim_id read_receipts read_receipt is_project_relative
    is_run_id from_dict read_fields read_factors filled_text filled_texts is_blank is_space
    split_from squeeze
path_above_refused = refl

two_slashes : as_posix (codes "//a/./b") ≡ codes "//a/b"
two_slashes = refl

three_slashes : as_posix (codes "///a//b/") ≡ codes "/a/b"
three_slashes = refl

absolute_path_refused : decoded "/r1.json" null ≡ raise (receipt_path 0)
unfolding candidate_from_dict check_version check_representation read_ids check_bridges
    check_receipts check_level with_claim_id read_receipts read_receipt is_project_relative
    is_run_id from_dict read_fields read_factors filled_text filled_texts is_blank is_space
    split_from squeeze
absolute_path_refused = refl

drive_refused : decoded "C:/r1.json" null ≡ raise (receipt_path 0)
unfolding candidate_from_dict check_version check_representation read_ids check_bridges
    check_receipts check_level with_claim_id read_receipts read_receipt is_project_relative
    is_run_id from_dict read_fields read_factors filled_text filled_texts is_blank is_space
    split_from squeeze
drive_refused = refl

attempt_of_version_1 : decoded "runs/r1.json" (text "attempt-0") ≡ raise legacy_attempt
unfolding candidate_from_dict check_version
attempt_of_version_1 = refl

accepted_candidate_example :
    (has_unknown (keys_of (candidate "AUTO_DERIVED" "runs/r1.json" null end)) allowed_fields
      ≡ false)
    × ((rs : List EvidenceReceipt) × (find_key "evidence_receipts" event
          ≡ some (array (receipt_values rs)))
        × All IsSafeReceipt rs
        × (has_duplicates (receipt_ids rs) ≡ false))
    × ((r : RepresentationContract) × (find_key "representation" event ≡ some (to_dict r))
        × IsContract r)
accepted_candidate_example =
    accepted_candidate digest "now" (candidate "AUTO_DERIVED" "runs/r1.json" null end) event
      event_accepted
