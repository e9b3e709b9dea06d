-- ===== src/Wire/Candidate.antt =====
-- models.py: `CandidateEvent.from_dict`, with `derived_claim_id`. An event is the dictionary of its
-- attributes. A field of another JSON type than it is declared with is taken as an exception of its
-- own kind where the code reads it as a text or a list of texts.
use Prim.Native.String.{◌++◌ as append}
use autonomous_math_ai.Base.{
  ℕ, Bool, true, false, String, Option, none, some, List, [], ◌∷◌, map, nat_beq, ltb, string_eq,
  ◌==◌, has_duplicates, has_unknown, if◌then◌else◌,
}
use autonomous_math_ai.Base.Result.{Result, ok, raise, ◌>>=◌, ◌>>◌, raise_if}
use autonomous_math_ai.Base.Sorting.{sort_texts}
use autonomous_math_ai.Base.Text.{codes, squeeze}
use autonomous_math_ai.Protocol.Json.{Value, null, text, array, Fields, keys_of, find_key, set_key}
use autonomous_math_ai.Wire.Receipts.{
  WireError, bad_type, bad_impact, bad_bridge_ids, bad_semantic_ids, duplicate_semantic_ids,
  wrong_type, unknown_fields, missing_fields, member_or, receipt_values,
}
use autonomous_math_ai.Wire.Checks.{
  event_types, impacts, required_fields, allowed_fields, without, set_defaults, candidate_defaults,
  check_version, check_representation, read_ids, check_bridges, check_receipts, check_level,
}

-- `sorted` on texts that are lists of code points
abbrev pub codes_after : List ℕ → List ℕ → Bool
codes_after [] ys = false
codes_after (x ∷ xs) [] = true
codes_after (x ∷ xs) (y ∷ ys) = if nat_beq x y then codes_after xs ys else ltb y x

abbrev pub insert_codes : List ℕ → List (List ℕ) → List (List ℕ)
insert_codes x [] = x ∷ []
insert_codes x (y ∷ ys) =
    let more = insert_codes x ys in if codes_after x y then y ∷ more else x ∷ y ∷ ys

abbrev pub sort_codes : List (List ℕ) → List (List ℕ)
sort_codes [] = []
sort_codes (x ∷ xs) = insert_codes x (sort_codes xs)

-- What `derived_claim_id` hashes.
pub record DerivedKey : Type 0 where
  pub parent : String
  pub statement : List ℕ
  pub assumptions : List (List ℕ)
  pub dependencies : List String

abbrev pub derived_key : String → String → List String → List String → DerivedKey
derived_key parent statement assumptions dependencies = record {
  parent = parent;
  statement = squeeze statement;
  assumptions = sort_codes (map squeeze assumptions);
  dependencies = sort_texts dependencies;
}

-- The digest is the part of `stable_hash` that stands in the id.
abbrev pub derived_claim_id :
    (DerivedKey → String) → String → String → List String → List String → String
derived_claim_id digest parent statement assumptions dependencies =
    append parent
      (append "::DERIVED::" (digest (derived_key parent statement assumptions dependencies)))

module _ {F : Type 0} where
  abbrev pub texts_or_raise : Option (Value F) → Result WireError (List String)
  texts_or_raise v = read_ids wrong_type [] v

  abbrev pub text_or_raise : Option (Value F) → Result WireError String
  text_or_raise (some (text s)) = ok s
  text_or_raise other = raise wrong_type

  -- The parent of a derived claim: none where `parent_claim_id` is None or empty.
  abbrev pub parent_of : Option (Value F) → Result WireError (Option String)
  parent_of (some null) = ok none
  parent_of (some (text s)) = ok (if s == "" then none else some s)
  parent_of other = raise wrong_type

  -- `obj.claim_id == "AUTO_DERIVED"`
  abbrev pub is_auto : Option (Value F) → Bool
  is_auto (some (text s)) = s == "AUTO_DERIVED"
  is_auto other = false

  module _ (digest : DerivedKey → String) where
    abbrev pub derive_from : Option String → Fields F → Result WireError (Fields F)
    derive_from none event = ok event
    derive_from (some parent) event =
        text_or_raise (find_key "exact_statement" event) >>= λ statement.
        texts_or_raise (find_key "assumptions" event) >>= λ assumptions.
        texts_or_raise (find_key "dependencies" event) >>= λ dependencies. ok (
          set_key "claim_id"
            (text (derived_claim_id digest parent statement assumptions dependencies)) event)

    abbrev pub derive : Fields F → Result WireError (Fields F)
    derive event =
        parent_of (find_key "parent_claim_id" event) >>= λ parent. derive_from parent event

    unfoldable pub with_claim_id : Fields F → Result WireError (Fields F)
    with_claim_id event = if is_auto (find_key "claim_id" event) then derive event else ok event

    -- The clock gives the time of an event that has none.
    unfoldable pub candidate_from_dict : String → Fields F → Result WireError (Fields F)
    candidate_from_dict now wire =
        let given = keys_of wire in
        let normalized = set_defaults candidate_defaults wire in
        raise_if (has_unknown given allowed_fields) (unknown_fields (without given allowed_fields))
        >> raise_if (has_unknown required_fields given)
            (missing_fields (without required_fields given))
        >> member_or bad_type event_types (find_key "type" wire)
        >>= λ type. member_or bad_impact impacts (find_key "impact" wire) >>= λ impact.
            check_version (find_key "fingerprint_version" normalized)
              (find_key "evidence_attempt_id" normalized)
            >> check_representation (find_key "representation" normalized)
            >>= λ representation.
                read_ids bad_bridge_ids (codes "rep:")
                  (find_key "bridge_representation_ids" normalized)
                >>= λ bridge_ids.
                    check_bridges type bridge_ids
                    >> read_ids bad_semantic_ids (codes "bridge:")
                        (find_key "semantic_bridge_ids" normalized)
                    >>= λ semantic_bridge_ids.
                        raise_if (has_duplicates semantic_bridge_ids) duplicate_semantic_ids
                        >> check_receipts (find_key "evidence_receipts" normalized)
                        >>= λ receipts.
                            check_level (find_key "proposed_evidence_level" normalized)
                            >> with_claim_id (
                                set_defaults (("timestamp", text now) ∷ []) (
                                  set_key "evidence_receipts" (array (receipt_values receipts))
                                    (set_key "representation" representation normalized)))
