-- ===== src/Protocol/Schema/Node.antt =====
-- schema.py, `validate_output_schema_compatibility`: all that `walk` says of one node, before it goes
-- on to the nodes below.
use autonomous_math_ai.Base.{
  ℕ, suc, Bool, true, false, not, ◌&&◌, ◌||◌, String, Option, none, some, List, [], ◌∷◌, ◌++◌,
  length, map, is_empty, has_duplicates, elem, ltb, same_set, if◌then◌else◌, string_eq, ◌==◌,
}
use autonomous_math_ai.Base.Int.{pos}
use autonomous_math_ai.Protocol.Json.{
  Value, boolean, text, array, object, nil, Fields, end, Number, whole, number_less, items_of,
  find_key, has_key, keys_of,
}
use autonomous_math_ai.Protocol.Schema.{Python}
use autonomous_math_ai.Protocol.Schema.Validate.{is_false}
use autonomous_math_ai.Protocol.Schema.Issues.{
  PathStep, Issues, issue, issue_if, under, at_index, keyword_issues, is_text, supported_formats,
  value_matches_type, text_length, text_lengths, ref_issues, plain_number, keywords_of, bad_numbers,
  number_keywords, either_of, array_limit_issues,
}

abbrev pub or_no_names : Option (List String) → List String
or_no_names none = []
or_no_names (some names) = names

abbrev pub required_issues : List PathStep → Option (List String) → Issues
required_issues path none =
    issue (under path "required")
      "object schemas must declare required as an array of property names"
required_issues path (some names) =
    issue_if (has_duplicates names) (under path "required") "required entries must be unique"

module _ {F : Type 0} where
  abbrev pub is_object_type : Option (Value F) → Bool
  is_object_type (some (text t)) = t == "object"
  is_object_type other = false

  abbrev pub root_issues : Bool → List PathStep → Fields F → Issues
  root_issues root path node =
      issue_if (root && (not (is_object_type (find_key "type" node)) || has_key "anyOf" node)) path
        "root output schema must have type 'object' and must not use anyOf"

  abbrev pub enum_type_issues : List PathStep → List String → ℕ → List (Value F) → Issues
  enum_type_issues path types n [] = []
  enum_type_issues path types n (v ∷ vs) =
      issue_if (not (is_empty types) && not (value_matches_type v types))
        (at_index (under path "enum") n) "enum value does not match the declared type"
      ++ enum_type_issues path types (suc n) vs

  abbrev pub const_issues : List PathStep → List String → Option (Value F) → Issues
  const_issues path types none = []
  const_issues path types (some v) =
      if is_empty types
      then issue (under path "const") "const must be accompanied by an explicit type"
      else issue_if (not (value_matches_type v types)) (under path "const")
          "const value does not match the declared type"

  abbrev pub is_supported_format : Value F → Bool
  is_supported_format (text t) = elem t supported_formats
  is_supported_format other = false

  abbrev pub format_issues : List PathStep → Option (Value F) → Issues
  format_issues path none = []
  format_issues path (some v) =
      issue_if (not (is_supported_format v)) (under path "format") "unsupported string format"

  -- The properties of an object schema, none where they are no object.
  abbrev pub properties_or_none : Option (Value F) → Fields F
  properties_or_none (some (object fs)) = fs
  properties_or_none other = end

  abbrev pub is_object : Option (Value F) → Bool
  is_object (some (object fs)) = true
  is_object other = false

  abbrev pub all_texts : List (Value F) → Option (List String)
  all_texts [] = some []
  all_texts (text t ∷ vs) = elim (all_texts vs) [ none ↦ none | some ts ↦ some (t ∷ ts) ]
  all_texts (v ∷ vs) = none

  -- A list of names, and nothing else.
  abbrev pub names_of : Option (Value F) → Option (List String)
  names_of (some (array vs)) = all_texts (items_of vs)
  names_of other = none

  unfoldable pub object_issues : List PathStep → Fields F → Issues
  object_issues path node =
      issue_if (not (is_object (find_key "properties" node))) (under path "properties")
        "object schemas must declare a properties object"
      ++ (issue_if (not (is_false (find_key "additionalProperties" node)))
            (under path "additionalProperties")
            "object schemas must set additionalProperties to false"
          ++ (required_issues path (names_of (find_key "required" node))
              ++ issue_if
                  (not (
                    same_set (or_no_names (names_of (find_key "required" node)))
                      (keys_of (properties_or_none (find_key "properties" node)))))
                  (under path "required") "all and only object properties must be required"))

  abbrev pub other_object_issues : List PathStep → Fields F → Issues
  other_object_issues path node =
      issue_if
        (has_key "properties" node
          || (has_key "required" node || has_key "additionalProperties" node))
        path "object keywords require type 'object'"

  -- `enum_count` and `schema_string_chars` of one node
  abbrev pub enum_size : Option (Value F) → ℕ
  enum_size (some (array vs)) = length (items_of vs)
  enum_size other = 0

  abbrev pub enum_chars : Option (Value F) → ℕ
  enum_chars (some (array vs)) = text_lengths (items_of vs)
  enum_chars other = 0

  abbrev pub const_chars : Option (Value F) → ℕ
  const_chars none = 0
  const_chars (some v) = text_length v

module _ {F : Type 0} (py : Python F) where
  abbrev pub long_enum_issues : List PathStep → List (Value F) → Issues
  long_enum_issues path vs =
      issue_if (ltb 250 (length vs) && ltb 15000 (text_lengths vs)) (under path "enum")
        "a string enum with more than 250 values may contain at_index most 15000 characters"

  unfoldable pub enum_issues : List PathStep → List String → Option (Value F) → Issues
  enum_issues path types none = []
  enum_issues path types (some v) =
      issue_if (is_empty types) (under path "enum") "enum must be accompanied by an explicit type"
      ++ elim v [
        | array nil ↦ issue (under path "enum") "enum must be a non-empty array"
        | array vs ↦
            issue_if (has_duplicates (map py.dumps (items_of vs))) (under path "enum")
              "enum values must be unique"
            ++ (enum_type_issues path types 0 (items_of vs) ++ long_enum_issues path (items_of vs))
        | other ↦ issue (under path "enum") "enum must be a non-empty array"
      ]

  abbrev pub pattern_issues : List PathStep → Option (Value F) → Issues
  pattern_issues path none = []
  pattern_issues path (some (text pattern)) =
      issue_if (not (py.compiles pattern)) (under path "pattern") "invalid regular expression"
  pattern_issues path (some other) = issue (under path "pattern") "pattern must be a string"

  -- `isinstance(value, (int, float))`, and then the two tests
  abbrev pub multiple_issues : List PathStep → Option (Value F) → Issues
  multiple_issues path (some (boolean b)) =
      issue (under path "multipleOf") "multipleOf must be greater than zero"
  multiple_issues path value = elim (plain_number value) [
    | none ↦ []
    | some n ↦
        issue_if (not (number_less py.float_less (whole (pos 0)) n)) (under path "multipleOf")
          "multipleOf must be greater than zero"
  ]

  abbrev pub bound_issues : List PathStep → Option (Number F) → Option (Number F) → Issues
  bound_issues path (some lower) (some upper) =
      issue_if (number_less py.float_less upper lower) path
        "numeric lower bound cannot exceed upper bound"
  bound_issues path lower upper = []

  unfoldable pub scalar_issues : List PathStep → List String → Fields F → Issues
  scalar_issues path types node =
      format_issues path (find_key "format" node)
      ++ (issue_if
            (not (is_empty (keywords_of ("pattern" ∷ "format" ∷ []) node))
              && not (elem "string" types))
            path "string constraints require type 'string'"
          ++ (pattern_issues path (find_key "pattern" node)
              ++ (issue_if
                    (not (is_empty (number_keywords node))
                      && not (elem "number" types || elem "integer" types))
                    path "number constraints require type 'number' or 'integer'"
                  ++ (bad_numbers path (number_keywords node) node
                      ++ (multiple_issues path (find_key "multipleOf" node)
                          ++ bound_issues path
                              (plain_number (
                                either_of (find_key "minimum" node)
                                  (find_key "exclusiveMinimum" node)))
                              (plain_number (
                                either_of (find_key "maximum" node)
                                  (find_key "exclusiveMaximum" node))))))))

  -- The issues of a node, up to those of the nodes below it, with its types.
  unfoldable pub node_issues : Fields F → List PathStep → ℕ → Bool → Fields F → List String → Issues
  unfolding ref_issues enum_issues scalar_issues array_limit_issues
  node_issues schema path depth root node types =
      issue_if (ltb 10 depth) path
        "object/schema nesting exceeds the Structured Outputs limit of 10"
      ++ (keyword_issues path (keys_of node)
          ++ (root_issues root path node
              ++ (ref_issues schema path (find_key "$ref" node)
                  ++ (issue_if
                        (is_empty types
                          && (not (is_text (find_key "$ref" node)) && not (has_key "anyOf" node)))
                        path "schema must have an explicit type key"
                      ++ (enum_issues path types (find_key "enum" node)
                          ++ (const_issues path types (find_key "const" node)
                              ++ (scalar_issues path types node
                                  ++ array_limit_issues path types node)))))))
