-- ===== src/Wire/Checks.antt =====
-- models.py: the values that `CandidateEvent.from_dict` knows, and its tests of the single fields.
use autonomous_math_ai.Base.{
  ℕ, ◌+◌, ◌++◌, Bool, not, ◌&&◌, String, Option, none, some, List, [], ◌∷◌, keep, nat_beq,
  string_eq, ◌==◌, elem, all, drop, length, is_empty, has_duplicates, list_eq, if◌then◌else◌,
}
use autonomous_math_ai.Base.Result.{Result, ok, raise, ◌>>=◌, ◌>>◌, raise_if}
use autonomous_math_ai.Base.Int.{pos}
use autonomous_math_ai.Base.Sorting.{sort_texts}
use autonomous_math_ai.Base.Text.{codes}
use autonomous_math_ai.Protocol.Contracts.{starts_with}
use autonomous_math_ai.Protocol.Json.{
  Value, null, integer, text, array, Items, nil, cons, Fields, has_key, set_key,
}
use autonomous_math_ai.Representation as representation
use autonomous_math_ai.Representation.{RepresentationContract, RepresentationError, legacy, to_dict}
use autonomous_math_ai.Wire.Receipts.{
  WireError, bad_version, legacy_attempt, bad_attempt, two_representations, not_a_bridge,
  receipts_not_array, duplicate_receipts, bad_level, wrong_type, bad_representation,
  EvidenceReceipt, is_hex, read_receipts, receipt_ids,
}

abbrev pub event_types : List String
event_types =
    "THEOREM_CANDIDATE" ∷ "COUNTEREXAMPLE" ∷ "KEY_LEMMA" ∷ "KEY_REFUTATION" ∷ "REDUCTION"
    ∷ "OBSTRUCTION" ∷ "EQUIVALENCE" ∷ "COMPUTATIONAL_COLLISION" ∷ "COMPUTATIONAL_PATTERN"
    ∷ "REPRESENTATION_BRIDGE" ∷ "CHECKER_SUPPORT" ∷ "CHECKER_REFUTATION" ∷ "CERTIFICATE"
    ∷ "EXPERIMENT_SUPPORT" ∷ "EXPERIMENT_NOT_SUPPORTED" ∷ "CONFIRMATION" ∷ "REPLICATION"
    ∷ "INCONCLUSIVE" ∷ []

abbrev pub impacts : List String
impacts = "LOW" ∷ "MEDIUM" ∷ "HIGH" ∷ "CRITICAL" ∷ []

abbrev pub evidence_levels : List String
evidence_levels =
    "E0_SPECULATIVE" ∷ "E1_NUMERIC" ∷ "E2_EXACT_TESTED" ∷ "E3_REDUNDANT_EXACT" ∷ "E4_CERTIFIED"
    ∷ "E5_FORMAL" ∷ []

abbrev pub required_fields : List String
required_fields =
    "event_id" ∷ "producer_task_id" ∷ "claim_id" ∷ "type" ∷ "impact" ∷ "concise_summary"
    ∷ "exact_statement" ∷ "artifact_paths" ∷ "reproduction_commands" ∷ "dependency_impact" ∷ []

abbrev pub allowed_fields : List String
allowed_fields =
    required_fields
    ++ ("producer_thread_id" ∷ "parent_claim_id" ∷ "source_run_id" ∷ "assumptions" ∷ "dependencies"
        ∷ "proposed_evidence_level" ∷ "timestamp" ∷ "representation" ∷ "bridge_representation_ids"
        ∷ "semantic_bridge_ids" ∷ "evidence_receipts" ∷ "fingerprint_version"
        ∷ "evidence_attempt_id" ∷ [])

-- `set(xs) - set(ys)`, sorted as the messages have it
abbrev pub without : List String → List String → List String
without xs ys = sort_texts (keep (λ x. not (elem x ys)) xs)

-- `len(set(xs))`
abbrev pub distinct_count : List String → ℕ
distinct_count [] = 0
distinct_count (x ∷ xs) = (if elem x xs then 0 else 1) + distinct_count xs

-- `re.fullmatch(r"attempt-[0-9a-f]{64}", text)`
unfoldable pub is_attempt_id : String → Bool
is_attempt_id s =
    starts_with (codes "attempt-") (codes s)
    && (nat_beq (length (codes s)) 72 && all is_hex (drop 8 (codes s)))

unfoldable pub check_bridges : String → List String → Result WireError (Unit {0})
check_bridges type ids =
    if type == "REPRESENTATION_BRIDGE"
    then raise_if (not (nat_beq (distinct_count ids) 2)) two_representations
    else raise_if (not (is_empty ids)) not_a_bridge

-- A ValueError of `RepresentationContract.from_dict` goes on through `CandidateEvent.from_dict`.
abbrev pub from_representation :
    Result RepresentationError RepresentationContract → Result WireError RepresentationContract
from_representation (ok r) = ok r
from_representation (raise e) = raise (bad_representation e)

module _ {F : Type 0} where
  -- `normalized.setdefault`, one after the other
  abbrev pub set_defaults : List (String × Value F) → Fields F → Fields F
  set_defaults [] fs = fs
  set_defaults ((key, v) ∷ rest) fs =
      set_defaults rest (if has_key key fs then fs else set_key key v fs)

  abbrev pub candidate_defaults : List (String × Value F)
  candidate_defaults =
      ("producer_thread_id", null)
      ∷ ("parent_claim_id", null)
      ∷ ("source_run_id", null)
      ∷ ("assumptions", array nil)
      ∷ ("dependencies", array nil)
      ∷ ("proposed_evidence_level", text "E0_SPECULATIVE")
      ∷ ("representation", to_dict legacy)
      ∷ ("bridge_representation_ids", array nil)
      ∷ ("semantic_bridge_ids", array nil)
      ∷ ("evidence_receipts", array nil)
      ∷ ("fingerprint_version", integer (pos 1))
      ∷ ("evidence_attempt_id", null)
      ∷ []

  -- The attempt id, of a candidate of version 1 and of one of version 2.
  abbrev pub check_legacy_attempt : Option (Value F) → Result WireError (Unit {0})
  check_legacy_attempt none = ok tt
  check_legacy_attempt (some null) = ok tt
  check_legacy_attempt (some other) = raise legacy_attempt

  abbrev pub check_attempt_id : Option (Value F) → Result WireError (Unit {0})
  check_attempt_id none = raise bad_attempt
  check_attempt_id (some (text s)) = raise_if (not (is_attempt_id s)) bad_attempt
  check_attempt_id (some other) = raise bad_attempt

  unfoldable pub check_version : Option (Value F) → Option (Value F) → Result WireError (Unit {0})
  check_version (some (integer (pos n))) attempt =
      if nat_beq n 1
      then check_legacy_attempt attempt
      else if nat_beq n 2
      then check_attempt_id attempt
      else raise bad_version
  check_version version attempt = raise bad_version

  unfoldable pub check_representation : Option (Value F) → Result WireError (Value F)
  check_representation none = raise wrong_type
  check_representation (some v) =
      from_representation (representation.from_dict v) >>= λ r. ok (to_dict r)

  -- The texts of a list, if all are texts that start with the prefix.
  abbrev pub prefixed_texts : List ℕ → Items F → Option (List String)
  prefixed_texts prefix nil = some []
  prefixed_texts prefix (cons (text s) xs) =
      let rest = prefixed_texts prefix xs in
      if starts_with prefix (codes s)
      then elim rest [ none ↦ none | some ids ↦ some (s ∷ ids) ]
      else none
  prefixed_texts prefix (cons other xs) = none

  unfoldable pub read_ids : WireError → List ℕ → Option (Value F) → Result WireError (List String)
  read_ids e prefix (some (array xs)) = elim (prefixed_texts prefix xs) [
    | none ↦ raise e
    | some ids ↦ ok ids
  ]
  read_ids e prefix other = raise e

  unfoldable pub check_receipts : Option (Value F) → Result WireError (List EvidenceReceipt)
  check_receipts (some (array xs)) = read_receipts 0 xs >>= λ receipts.
      raise_if (has_duplicates (receipt_ids receipts)) duplicate_receipts >> ok receipts
  check_receipts other = raise receipts_not_array

  -- `evidence_rank(str(level))`: no other value is written like a level.
  unfoldable pub check_level : Option (Value F) → Result WireError (Unit {0})
  check_level (some (text s)) = raise_if (not (elem s evidence_levels)) bad_level
  check_level other = raise bad_level
