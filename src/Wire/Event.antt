-- ===== src/Wire/Event.antt =====
-- models.py: the events that `CandidateEvent.from_dict` accepts.
use autonomous_math_ai.Base.{
  ◌≡◌, ◌∙◌, ap, refl, [], ◌∷◌, false, String, some, List, All, has_duplicates, has_unknown,
  string_eq, list_eq,
}
use autonomous_math_ai.Base.Result.{ok, ◌>>◌, raise_if, >>=-eq-ok, >>-eq-ok}
use autonomous_math_ai.Base.Text.{codes}
use autonomous_math_ai.Protocol.Json.{Value, text, array, Fields, keys_of, find_key, set_key}
use autonomous_math_ai.Representation.{RepresentationContract, to_dict}
use autonomous_math_ai.Representation.RoundTrip.{IsContract}
use autonomous_math_ai.Wire.Receipts.{
  bad_type, bad_impact, bad_bridge_ids, bad_semantic_ids, duplicate_semantic_ids, unknown_fields,
  missing_fields, EvidenceReceipt, member_or, receipt_values, receipt_ids,
}
use autonomous_math_ai.Wire.Checks.{
  event_types, impacts, required_fields, allowed_fields, without, set_defaults, candidate_defaults,
  check_version, check_representation, read_ids, check_bridges, check_receipts, check_level,
}
use autonomous_math_ai.Wire.Candidate.{DerivedKey, with_claim_id, candidate_from_dict}
use autonomous_math_ai.Wire.Accepted.{
  IsSafeReceipt, checked_receipts, checked_representation, find-set_same, find-set_other,
  set_defaults-keeps, with_claim_id-keeps,
}

module _ {F : Type 0} where
  -- What with_claim_id is given.
  abbrev stored : String → Value F → Value F → Fields F → Fields F
  stored now receipts representation normalized =
      set_defaults (("timestamp", text now) ∷ [])
        (set_key "evidence_receipts" receipts (set_key "representation" representation normalized))

  find-stored :
      (digest : DerivedKey → String) (now : String) (v w : Value F) (fs event : Fields F)
      → with_claim_id digest (stored now v w fs) ≡ ok event
      → (find_key "evidence_receipts" event ≡ some v) × (find_key "representation" event ≡ some w)
  find-stored digest now v w fs event h =
      let kept = with_claim_id-keeps digest (stored now v w fs) event h in
      let inner = set_key "representation" w fs in
      let outer = set_key "evidence_receipts" v inner in
      (
        kept "evidence_receipts" refl
            ∙ set_defaults-keeps "timestamp" "evidence_receipts" (text now) outer refl
            ∙ find-set_same "evidence_receipts" v inner,
        kept "representation" refl
            ∙ set_defaults-keeps "timestamp" "representation" (text now) outer refl
            ∙ find-set_other "evidence_receipts" "representation" v inner refl
            ∙ find-set_same "representation" w fs,
      )

  candidate_parts :
      (digest : DerivedKey → String) (now : String) (wire event : Fields F)
      → candidate_from_dict digest now wire ≡ ok event
      → (rep : Value F) × (rs : List EvidenceReceipt) × (has_unknown (keys_of wire) allowed_fields
          ≡ false)
        × (check_representation (find_key "representation" (set_defaults candidate_defaults wire))
            ≡ ok rep)
        × (check_receipts (find_key "evidence_receipts" (set_defaults candidate_defaults wire))
            ≡ ok rs)
        × (with_claim_id digest
              (stored now (array (receipt_values rs)) rep (set_defaults candidate_defaults wire))
            ≡ ok event)
  unfolding candidate_from_dict
  candidate_parts digest now wire event h =
      let given = keys_of wire in
      let normalized = set_defaults candidate_defaults wire in
      let unknown =
        raise_if (has_unknown given allowed_fields)
          (unknown_fields (without given allowed_fields)) in
      let missing =
        raise_if (has_unknown required_fields given)
          (missing_fields (without required_fields given)) in
      let version =
        check_version (find_key "fingerprint_version" normalized)
          (find_key "evidence_attempt_id" normalized) in
      let represented = check_representation (find_key "representation" normalized) in
      let bridges =
        read_ids bad_bridge_ids (codes "rep:") (find_key "bridge_representation_ids" normalized) in
      let semantic =
        read_ids bad_semantic_ids (codes "bridge:") (find_key "semantic_bridge_ids" normalized) in
      let receipts = check_receipts (find_key "evidence_receipts" normalized) in
      let (type, a1, h1) =
        >>=-eq-ok (unknown >> missing >> member_or bad_type event_types (find_key "type" wire)) _
          h in
      let (u, a0, b0) = >>=-eq-ok (unknown >> missing) _ a1 in
      let (known, c0) = >>-eq-ok (has_unknown given allowed_fields) _ missing a0 in
      let (impact, a2, h2) =
        >>=-eq-ok (member_or bad_impact impacts (find_key "impact" wire)) _ h1 in
      let (rep, a3, h3) = >>=-eq-ok (version >> represented) _ h2 in
      let (v, a4, b4) = >>=-eq-ok version _ a3 in
      let (ids, a5, h5) = >>=-eq-ok bridges _ h3 in
      let (semantic_ids, a6, h6) = >>=-eq-ok (check_bridges type ids >> semantic) _ h5 in
      let once = raise_if (has_duplicates semantic_ids) duplicate_semantic_ids in
      let (rs, a7, h7) = >>=-eq-ok (once >> receipts) _ h6 in
      let (w, a8, b8) = >>=-eq-ok once _ a7 in
      let (z, a9, h9) =
        >>=-eq-ok (check_level (find_key "proposed_evidence_level" normalized)) _ h7 in
      (rep, rs, known, b4, b8, h9)

  -- An event that from_dict accepts was given no field but the known ones. Its receipts are
  -- distinct, each names a run of a known kind by a well-formed id, and the manifest path of each
  -- is the project itself or goes down from it name by name, where no name is empty, has a slash or
  -- a backslash, or is one or two dots; its representation is what to_dict writes of a contract
  -- that from_dict may accept.
  pub accepted_candidate :
      (digest : DerivedKey → String) (now : String) (wire event : Fields F)
      → candidate_from_dict digest now wire ≡ ok event
      → (has_unknown (keys_of wire) allowed_fields ≡ false)
        × ((rs : List EvidenceReceipt) × (find_key "evidence_receipts" event
              ≡ some (array (receipt_values rs)))
            × All IsSafeReceipt rs
            × (has_duplicates (receipt_ids rs) ≡ false))
        × ((r : RepresentationContract) × (find_key "representation" event ≡ some (to_dict r))
            × IsContract r)
  accepted_candidate digest now wire event h =
      let normalized = set_defaults candidate_defaults wire in
      let (rep, rs, known, represented, receipts, made) = candidate_parts digest now wire event h in
      let (safe, once) = checked_receipts (find_key "evidence_receipts" normalized) rs receipts in
      let (r, same, contract) =
        checked_representation (find_key "representation" normalized) rep represented in
      let (found, found_too) =
        find-stored digest now (array (receipt_values rs)) rep normalized event made in
      (known, (rs, found, safe, once), (r, found_too ∙ ap some same, contract))
