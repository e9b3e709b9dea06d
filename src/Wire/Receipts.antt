-- ===== src/Wire/Receipts.antt =====
-- models.py: the receipts of evidence in `CandidateEvent.from_dict`, and the errors of `from_dict`.
use autonomous_math_ai.Base.{
  ℕ, suc, Bool, not, ◌&&◌, ◌||◌, String, Option, none, some, List, [], ◌∷◌, nat_beq, string_eq,
  elem, all, drop, length, same_set,
}
use autonomous_math_ai.Base.Result.{Result, ok, raise, ◌>>=◌, ◌>>◌, raise_if}
use autonomous_math_ai.Base.Text.{codes, between}
use autonomous_math_ai.Protocol.Contracts.{starts_with}
use autonomous_math_ai.Protocol.Json.{
  Value, text, array, object, Items, nil, cons, end, field, keys_of, find_key,
}
use autonomous_math_ai.Representation.{RepresentationError}
use autonomous_math_ai.Wire.Paths.{is_project_relative}

-- The ValueErrors; `unhashable` is the TypeError of asking whether a list or a dictionary is in a
-- set, and `wrong_type` what Python raises where it reads a value of another type.
pub data WireError : Type 0 where
  bad_type bad_impact bad_version legacy_attempt bad_attempt bad_bridge_ids two_representations
        not_a_bridge bad_semantic_ids duplicate_semantic_ids receipts_not_array duplicate_receipts
        bad_level bad_verdict bad_context audit_keys missing_key unhashable wrong_type :
      WireError
  unknown_fields missing_fields : List String → WireError
  receipt_fields receipt_kind receipt_path receipt_run : ℕ → WireError
  bad_representation : RepresentationError → WireError

pub record EvidenceReceipt : Type 0 where
  pub kind : String
  pub manifest_path : String
  pub run_id : String

abbrev pub receipt_keys : List String
receipt_keys = "kind" ∷ "manifest_path" ∷ "run_id" ∷ []

abbrev pub receipt_kinds : List String
receipt_kinds = "deterministic_checker_run" ∷ "experiment_run" ∷ []

abbrev pub is_hex : ℕ → Bool
is_hex c = between 48 57 c || between 97 102 c

unfoldable pub is_run_id : String → Bool
is_run_id s =
    starts_with (codes "run-") (codes s)
    && (nat_beq (length (codes s)) 68 && all is_hex (drop 4 (codes s)))

module _ {F : Type 0} where
  -- A text whose test is written `isinstance(item, str)`, and one that is looked up in a set.
  abbrev pub text_or : WireError → Option (Value F) → Result WireError String
  text_or e none = raise missing_key
  text_or e (some (text s)) = ok s
  text_or e (some other) = raise e

  abbrev pub member_or : WireError → List String → Option (Value F) → Result WireError String
  member_or e names none = raise missing_key
  member_or e names (some (text s)) = raise_if (not (elem s names)) e >> ok s
  member_or e names (some (array xs)) = raise unhashable
  member_or e names (some (object fs)) = raise unhashable
  member_or e names (some other) = raise e

  unfoldable pub read_receipt : ℕ → Value F → Result WireError EvidenceReceipt
  read_receipt index (object fs) =
      raise_if (not (same_set (keys_of fs) receipt_keys)) (receipt_fields index)
      >> member_or (receipt_kind index) receipt_kinds (find_key "kind" fs)
      >>= λ kind. text_or (receipt_path index) (find_key "manifest_path" fs) >>= λ manifest_path.
          raise_if (not (is_project_relative (codes manifest_path))) (receipt_path index)
          >> text_or (receipt_run index) (find_key "run_id" fs)
          >>= λ run_id.
              raise_if (not (is_run_id run_id)) (receipt_run index)
              >> ok (record { kind = kind; manifest_path = manifest_path; run_id = run_id })
  read_receipt index other = raise (receipt_fields index)

  -- The receipts from the index on.
  unfoldable pub read_receipts : ℕ → Items F → Result WireError (List EvidenceReceipt)
  read_receipts index nil = ok []
  read_receipts index (cons v xs) =
      read_receipt index v >>= λ r. read_receipts (suc index) xs >>= λ rest. ok (r ∷ rest)

  abbrev pub receipt_value : EvidenceReceipt → Value F
  receipt_value r = object (
      field "kind" (text r.kind)
        (field "manifest_path" (text r.manifest_path) (field "run_id" (text r.run_id) end)))

  abbrev pub receipt_values : List EvidenceReceipt → Items F
  receipt_values [] = nil
  receipt_values (r ∷ rs) = cons (receipt_value r) (receipt_values rs)

-- What distinguishes two receipts.
abbrev pub receipt_ids : List EvidenceReceipt → List (List String)
receipt_ids [] = []
receipt_ids (r ∷ rs) = (r.kind ∷ r.manifest_path ∷ r.run_id ∷ []) ∷ receipt_ids rs
