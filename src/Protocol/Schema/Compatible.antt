-- ===== src/Protocol/Schema/Compatible.antt =====
-- schema.py, `validate_output_schema_compatibility` and `preflight_output_schema_files`: the walk over
-- the nodes of a schema, and the limits of the whole.
pub mod Quiet
pub mod Strict
pub mod Exact
use autonomous_math_ai.Base.{
  ℕ, zero, suc, ◌+◌, Bool, true, false, not, ◌&&◌, ◌||◌, ◌⊎◌, inl, inr, String, Option, none, some,
  List, [], ◌∷◌, ◌++◌, length, is_empty, elem, ltb, same_set, if◌then◌else◌, string_eq, ◌==◌,
}
use autonomous_math_ai.Base.Text.{codes}
use autonomous_math_ai.Base.Dict.{Dict, put}
use autonomous_math_ai.Base.Result.{Result, ok, raise, ◌>>=◌, ◌>>◌, raise_if}
use autonomous_math_ai.Protocol.Contracts.{contract_name}
use autonomous_math_ai.Protocol.Json.{
  Value, null, array, object, nil, Fields, items_of, fields_of, find_key, has_key, keys_of, size_of,
}
use autonomous_math_ai.Protocol.Schema.{Python, SchemaFault, recursion_error}
use autonomous_math_ai.Protocol.Schema.Issues.{
  PathStep, key, SchemaCompatibilityIssue, Issues, issue, issue_if, under, at_index, declared_types,
}
use autonomous_math_ai.Protocol.Schema.Node.{
  names_of, or_no_names, properties_or_none, object_issues, other_object_issues, node_issues,
  enum_size, enum_chars, const_chars,
}

-- The issues of a part of a schema, and what the part adds to the three counters.
pub record Report : Type 0 where
  pub issues : Issues
  pub property_count : ℕ
  pub enum_count : ℕ
  pub schema_string_chars : ℕ

abbrev pub just : Issues → Report
just issues = record {
  issues = issues;
  property_count = 0;
  enum_count = 0;
  schema_string_chars = 0;
}

abbrev pub together : Report → Report → Report
together a b = record {
  issues = a.issues ++ b.issues;
  property_count = a.property_count + b.property_count;
  enum_count = a.enum_count + b.enum_count;
  schema_string_chars = a.schema_string_chars + b.schema_string_chars;
}

module _ {F : Type 0} where
  -- `for name, child in ...: schema_string_chars += len(name); walk(child, ...)`
  unfoldable pub walk_fields :
      (Value F → List PathStep → Result SchemaFault Report)
      → List PathStep
      → List (String × Value F)
      → Result SchemaFault Report
  walk_fields call path [] = ok (just [])
  walk_fields call path ((name, child) ∷ rest) = do
    first ← call child (under path name)
    more ← walk_fields call path rest
    ok (
        together
          (record first { schema_string_chars = length (codes name) + first.schema_string_chars })
          more)

  unfoldable pub walk_items :
      (Value F → List PathStep → Result SchemaFault Report)
      → List PathStep
      → ℕ
      → List (Value F)
      → Result SchemaFault Report
  walk_items call path n [] = ok (just [])
  walk_items call path n (v ∷ vs) = do
    first ← call v (at_index path n)
    more ← walk_items call path (suc n) vs
    ok (together first more)

  unfoldable pub walk_object :
      (Value F → List PathStep → Result SchemaFault Report)
      → List PathStep
      → List String
      → Fields F
      → Result SchemaFault Report
  unfolding walk_fields
  walk_object call path types node =
      let props = properties_or_none (find_key "properties" node) in
      if elem "object" types
      then (walk_fields call (under path "properties") (fields_of props) >>= λ below. ok (
          together (record (just (object_issues path node)) { property_count = size_of props })
            below))
      else ok (just (other_object_issues path node))

  unfoldable pub walk_array :
      (Value F → List PathStep → Result SchemaFault Report)
      → List PathStep
      → List String
      → Option (Value F)
      → Result SchemaFault Report
  walk_array call path types (some (object items)) =
      if elem "array" types
      then call (object items) (under path "items")
      else ok (just (issue (under path "items") "items requires type 'array'"))
  walk_array call path types other =
      if elem "array" types
      then ok
          (just (issue (under path "items") "array schemas must declare one complete items schema"))
      else ok (
          just (elim other [
            | none ↦ []
            | some v ↦ issue (under path "items") "items requires type 'array'"
          ]))

  unfoldable pub walk_options :
      (Value F → List PathStep → Result SchemaFault Report)
      → List PathStep
      → Option (Value F)
      → Result SchemaFault Report
  unfolding walk_items
  walk_options call path none = ok (just [])
  walk_options call path (some (array nil)) =
      ok (just (issue (under path "anyOf") "anyOf must be a non-empty array"))
  walk_options call path (some (array vs)) = walk_items call (under path "anyOf") 0 (items_of vs)
  walk_options call path (some other) =
      ok (just (issue (under path "anyOf") "anyOf must be a non-empty array"))

  unfoldable pub walk_definitions :
      (Value F → List PathStep → Result SchemaFault Report)
      → List PathStep
      → Option (Value F)
      → Result SchemaFault Report
  unfolding walk_fields
  walk_definitions call path none = ok (just [])
  walk_definitions call path (some null) = ok (just [])
  walk_definitions call path (some (object fs)) =
      walk_fields call (under path "$defs") (fields_of fs)
  walk_definitions call path (some other) =
      ok (just (issue (under path "$defs") "$defs must be an object"))

module _ {F : Type 0} (py : Python F) where
  -- What `walk` finds in a node and below it; `call` is the walk of a node one level down.
  unfoldable pub walk_node :
      (Value F → List PathStep → Result SchemaFault Report)
      → Fields F
      → List PathStep
      → ℕ
      → Bool
      → Fields F
      → Result SchemaFault Report
  walk_node call schema path depth root node = do
    let (types, type_issues) = declared_types path (find_key "type" node)
    let here : Report = record {
      issues = type_issues ++ node_issues py schema path depth root node types;
      property_count = 0;
      enum_count = enum_size (find_key "enum" node);
      schema_string_chars = enum_chars (find_key "enum" node) + const_chars (find_key "const" node);
    }
    properties ← walk_object call path types node
    items ← walk_array call path types (find_key "items" node)
    options ← walk_options call path (find_key "anyOf" node)
    definitions ← walk_definitions call path (find_key "$defs" node)
    ok (together here (together properties (together items (together options definitions))))

  -- The first number is how deep the calls may go: past it, Python raises `RecursionError`.
  unfoldable pub walk :
      ℕ → Fields F → ℕ → Bool → Value F → List PathStep → Result SchemaFault Report
  unfolding walk_node
  walk zero schema depth root node path = raise recursion_error
  walk (suc n) schema depth root (object node) path =
      walk_node (walk n schema (suc depth) false) schema path depth root node
  walk (suc n) schema depth root other path = ok (just (issue path "schema node must be an object"))

  -- The keys that the contract of the file's name asks for.
  abbrev pub contract_issues : Option (String × List String) → Fields F → Issues
  contract_issues none schema = []
  contract_issues (some (name, expected)) schema =
      issue_if
        (not (same_set (keys_of (properties_or_none (find_key "properties" schema))) expected))
        (key "properties" ∷ []) "contract keys must be exactly those of the protocol"
      ++ issue_if (not (same_set (or_no_names (names_of (find_key "required" schema))) expected))
          (key "required" ∷ []) "contract required keys must be exactly those of the protocol"

  unfoldable pub schema_issues : ℕ → String → Fields F → Result SchemaFault Issues
  unfolding walk
  schema_issues limit source schema = do
    report ← walk limit schema 0 true (object schema) []
    ok (
        report.issues
        ++ (contract_issues (contract_name source) schema
            ++ (issue_if (ltb 5000 report.property_count) []
                  "the schema declares too many properties"
                ++ (issue_if (ltb 1000 report.enum_count) []
                      "the schema declares too many enum values"
                    ++ issue_if (ltb 120000 report.schema_string_chars) []
                        "the schema has too many characters"))))

  -- `OutputSchemaCompatibilityError`, or any other exception.
  unfoldable pub validate_output_schema_compatibility :
      ℕ → String → Fields F → Result (SchemaFault ⊎ Issues) (Unit {0})
  unfolding schema_issues
  validate_output_schema_compatibility limit source schema =
      elim (schema_issues limit source schema) [
        | raise e ↦ raise (inl e)
        | ok [] ↦ ok tt
        | ok (i ∷ is) ↦ raise (inr (i ∷ is))
      ]

  -- The issues of a file, with the file's path.
  abbrev pub with_path : String → Issues → List (String × SchemaCompatibilityIssue)
  with_path path [] = []
  with_path path (i ∷ is) = (path, i) ∷ with_path path is

  -- What `load_schema` makes of a file: none is the `SchemaError` of a file that is no JSON object.
  pub record SchemaFile : Type 0 where
    pub file_path : String
    pub file_name : String
    pub loaded : Option (Fields F)

  -- The loop over the files, with what has been loaded and found so far.
  unfoldable pub preflight_files :
      ℕ
      → List SchemaFile
      → Dict String (Fields F)
      → List (String × SchemaCompatibilityIssue)
      → Result SchemaFault (Dict String (Fields F) × List (String × SchemaCompatibilityIssue))
  unfolding schema_issues
  preflight_files limit [] loaded issues = ok (loaded, issues)
  preflight_files limit (f ∷ fs) loaded issues = elim f.loaded [
    | none ↦
        preflight_files limit fs loaded
          (issues ++ with_path f.file_path (issue [] "cannot load JSON schema"))
    | some schema ↦ do
      found ← schema_issues limit f.file_path schema
      preflight_files limit fs (if is_empty found then put f.file_name schema loaded else loaded)
          (issues ++ with_path f.file_path found)
  ]

  unfoldable pub preflight_output_schema_files :
      ℕ
      → List SchemaFile
      → Result (SchemaFault ⊎ List (String × SchemaCompatibilityIssue)) (Dict String (Fields F))
  unfolding preflight_files
  preflight_output_schema_files limit files = elim (preflight_files limit files [] []) [
    | raise e ↦ raise (inl e)
    | ok (loaded, []) ↦ ok loaded
    | ok (loaded, i ∷ is) ↦ raise (inr (i ∷ is))
  ]
