-- ===== src/Protocol/Schema/Issues.antt =====
-- schema.py, `validate_output_schema_compatibility`: the issues of the keywords of one node.
use autonomous_math_ai.Base.{
  ℕ, suc, ◌+◌, Bool, true, false, not, ◌&&◌, ◌||◌, String, Option, none, some, List, [], ◌∷◌, ◌++◌,
  length, is_empty, has_duplicates, elem, nat_beq, if◌then◌else◌, string_eq,
}
use autonomous_math_ai.Base.Int.{ℤ, pos}
use autonomous_math_ai.Base.Text.{codes}
use autonomous_math_ai.Base.Result.{ok, raise}
use autonomous_math_ai.Protocol.Contracts.{starts_with}
use autonomous_math_ai.Protocol.Json.{
  Value, null, boolean, integer, real, text, array, object, nil, Fields, Number, whole, float,
  int_less, items_of, find_key, has_key,
}
use autonomous_math_ai.Protocol.Schema.Pointer.{resolve_ref}

-- A step of a JSON path, `.key` or `[index]`.
pub data PathStep : Type 0 where
  key : String → PathStep
  index : ℕ → PathStep

pub record SchemaCompatibilityIssue : Type 0 where
  pub json_path : List PathStep
  pub reason : String

abbrev pub Issues : Type 0
Issues = List SchemaCompatibilityIssue

abbrev pub issue : List PathStep → String → Issues
issue path reason = record { json_path = path; reason = reason } ∷ []

abbrev pub issue_if : Bool → List PathStep → String → Issues
issue_if test path reason = if test then issue path reason else []

abbrev pub under : List PathStep → String → List PathStep
under path name = path ++ key name ∷ []

abbrev pub at_index : List PathStep → ℕ → List PathStep
at_index path n = path ++ index n ∷ []

abbrev pub allowed_keywords : List String
allowed_keywords =
    "$schema" ∷ "$defs" ∷ "$ref" ∷ "type" ∷ "properties" ∷ "required" ∷ "additionalProperties"
    ∷ "items" ∷ "enum" ∷ "const" ∷ "anyOf" ∷ "title" ∷ "description" ∷ "pattern" ∷ "format"
    ∷ "multipleOf" ∷ "minimum" ∷ "maximum" ∷ "exclusiveMinimum" ∷ "exclusiveMaximum" ∷ "minItems"
    ∷ "maxItems" ∷ []

abbrev pub allowed_types : List String
allowed_types = "string" ∷ "number" ∷ "boolean" ∷ "integer" ∷ "object" ∷ "array" ∷ "null" ∷ []

abbrev pub supported_formats : List String
supported_formats =
    "date-time" ∷ "time" ∷ "date" ∷ "duration" ∷ "email" ∷ "hostname" ∷ "ipv4" ∷ "ipv6" ∷ "uuid"
    ∷ []

-- No keyword of `_UNSUPPORTED_KEYWORDS` is allowed, so one test is left.
abbrev pub keyword_issues : List PathStep → List String → Issues
keyword_issues path [] = []
keyword_issues path (name ∷ names) =
    issue_if (not (elem name allowed_keywords)) (under path name)
      "unsupported Structured Outputs keyword"
    ++ keyword_issues path names

module _ {F : Type 0} where
  abbrev pub is_text : Option (Value F) → Bool
  is_text (some (text t)) = true
  is_text other = false

  -- The entries of a list of types that are names of types.
  abbrev pub type_names : List (Value F) → List String
  type_names [] = []
  type_names (text t ∷ vs) =
      let more = type_names vs in if elem t allowed_types then t ∷ more else more
  type_names (v ∷ vs) = type_names vs

  abbrev pub is_type_name : Value F → Bool
  is_type_name (text t) = elem t allowed_types
  is_type_name other = false

  abbrev pub type_entry_issues : List PathStep → ℕ → List (Value F) → Issues
  type_entry_issues path n [] = []
  type_entry_issues path n (v ∷ vs) =
      issue_if (not (is_type_name v)) (at_index (under path "type") n) "unsupported type"
      ++ type_entry_issues path (suc n) vs

  abbrev pub list_of_types : List PathStep → List (Value F) → List String × Issues
  list_of_types path vs = (
    type_names vs,
    type_entry_issues path 0 vs
        ++ issue_if
            (not (nat_beq (length (type_names vs)) (length vs)) || has_duplicates (type_names vs))
            (under path "type") "type entries must be unique",
  )

  unfoldable pub declared_types : List PathStep → Option (Value F) → List String × Issues
  declared_types path none = ([], [])
  declared_types path (some null) = ([], [])
  declared_types path (some (text t)) = list_of_types path (text t ∷ [])
  declared_types path (some (array nil)) =
      ([], issue (under path "type") "type must be a non-empty string or array of strings")
  declared_types path (some (array vs)) = list_of_types path (items_of vs)
  declared_types path (some other) =
      ([], issue (under path "type") "type must be a non-empty string or array of strings")

  abbrev pub value_matches_type : Value F → List String → Bool
  value_matches_type null allowed = elem "null" allowed
  value_matches_type (boolean b) allowed = elem "boolean" allowed
  value_matches_type (integer z) allowed = elem "integer" allowed || elem "number" allowed
  value_matches_type (real x) allowed = elem "number" allowed
  value_matches_type (text t) allowed = elem "string" allowed
  value_matches_type (array vs) allowed = elem "array" allowed
  value_matches_type (object fs) allowed = elem "object" allowed

  -- `schema_string_chars += len(value)` for a string
  abbrev pub text_length : Value F → ℕ
  text_length (text t) = length (codes t)
  text_length other = 0

  abbrev pub text_lengths : List (Value F) → ℕ
  text_lengths [] = 0
  text_lengths (v ∷ vs) = text_length v + text_lengths vs

  unfoldable pub ref_issues : Fields F → List PathStep → Option (Value F) → Issues
  unfolding resolve_ref
  ref_issues root path none = []
  ref_issues root path (some (text ref)) =
      if starts_with (35 ∷ []) (codes ref)
      then elim (resolve_ref root (text ref)) [
        | ok (object target) ↦ []
        | ok other ↦ issue (under path "$ref") "$ref must resolve to a schema object"
        | raise e ↦ issue (under path "$ref") "unresolved local JSON Schema reference"
      ]
      else issue (under path "$ref") "$ref must be a local JSON pointer beginning with '#'"
  ref_issues root path (some other) =
      issue (under path "$ref") "$ref must be a local JSON pointer beginning with '#'"

  -- A number that is no `bool`.
  abbrev pub plain_number : Option (Value F) → Option (Number F)
  plain_number (some (integer z)) = some (whole z)
  plain_number (some (real x)) = some (float x)
  plain_number other = none

  -- `isinstance(value, int)`, which holds of a `bool`
  abbrev pub int_of : Option (Value F) → Option ℤ
  int_of (some (integer z)) = some z
  int_of (some (boolean b)) = some (if b then pos 1 else pos 0)
  int_of other = none

  abbrev pub is_natural : Option (Value F) → Bool
  is_natural (some (integer (pos n))) = true
  is_natural other = false

  -- The keywords of a list that a node has.
  abbrev pub keywords_of : List String → Fields F → List String
  keywords_of [] node = []
  keywords_of (name ∷ names) node =
      let more = keywords_of names node in if has_key name node then name ∷ more else more

  abbrev pub bad_numbers : List PathStep → List String → Fields F → Issues
  bad_numbers path [] node = []
  bad_numbers path (name ∷ names) node =
      elim (plain_number (find_key name node)) [
        | none ↦ issue (under path name) "must be a number"
        | some n ↦ []
      ]
      ++ bad_numbers path names node

  abbrev pub bad_limits : List PathStep → List String → Fields F → Issues
  bad_limits path [] node = []
  bad_limits path (name ∷ names) node =
      issue_if (not (is_natural (find_key name node))) (under path name)
        "must be a non-negative integer"
      ++ bad_limits path names node

  abbrev pub number_keywords : Fields F → List String
  number_keywords node =
      keywords_of
        ("multipleOf" ∷ "minimum" ∷ "maximum" ∷ "exclusiveMinimum" ∷ "exclusiveMaximum" ∷ []) node

  -- `node.get(name, node.get(other))`
  abbrev pub either_of : Option (Value F) → Option (Value F) → Option (Value F)
  either_of none other = other
  either_of (some v) other = some v

  unfoldable pub array_limit_issues : List PathStep → List String → Fields F → Issues
  array_limit_issues path types node =
      let limits = keywords_of ("minItems" ∷ "maxItems" ∷ []) node in
      issue_if (not (is_empty limits) && not (elem "array" types)) path
        "array constraints require type 'array'"
      ++ (bad_limits path limits node ++ elim (int_of (find_key "minItems" node)) [
        | none ↦ []
        | some least ↦ elim (int_of (find_key "maxItems" node)) [
          | none ↦ []
          | some most ↦ issue_if (int_less most least) path "minItems cannot exceed maxItems"
        ]
      ])
