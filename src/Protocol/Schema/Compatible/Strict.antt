-- ===== src/Protocol/Schema/Compatible/Strict.antt =====
-- schema.py, `validate_output_schema_compatibility`: what a schema has at its root where no issue is
-- found.
use autonomous_math_ai.Base.{
  ℕ, zero, suc, ◌≡◌, ◌∙◌, ◌⊎◌, sym, subst, arith, inl, inr, Bool, true, false, not, ◌&&◌, ◌||◌,
  String, Option, none, some, List, [], ◌++◌, elem, same_set, string_eq, Bool-cases, Option-cases,
}
use autonomous_math_ai.Base.Result.{Result, ok, >>=-eq-ok, Result-cases}
use autonomous_math_ai.Protocol.Contracts.{contract_name}
use autonomous_math_ai.Protocol.Json.{
  Value, object, Fields, find_key, has_key, keys_of, fields_of, size_of,
}
use autonomous_math_ai.Protocol.Schema.{Python, SchemaFault}
use autonomous_math_ai.Protocol.Schema.Validate.{is_false}
use autonomous_math_ai.Protocol.Schema.Issues.{
  PathStep, issue_if, under, keyword_issues, declared_types,
}
use autonomous_math_ai.Protocol.Schema.Node.{
  is_object_type, root_issues, is_object, names_of, or_no_names, required_issues,
  properties_or_none, object_issues, node_issues,
}
use autonomous_math_ai.Protocol.Schema.Compatible.{
  Report, just, together, walk_object, walk_fields, walk_array, walk_options, walk_definitions,
  walk_node, walk, contract_issues, schema_issues, validate_output_schema_compatibility,
}
use autonomous_math_ai.Protocol.Schema.Compatible.Quiet.{
  ok_inj, issues_of, refuted_test, required_given, nil_parts, not_refused, not_issued,
  keyword_allowed, has_key-elem, object_types,
}

module _ {F : Type 0} where
  -- What the walk finds nothing against, at the root of a schema.
  pub record IsStrictRoot (schema : Fields F) : Type 0 where
    pub object_type : is_object_type (find_key "type" schema) ≡ true
    pub no_any_of : find_key "anyOf" schema ≡ none
    pub no_one_of : find_key "oneOf" schema ≡ none
    pub closed : is_false (find_key "additionalProperties" schema) ≡ true
    pub properties : is_object (find_key "properties" schema) ≡ true
    pub required : (names : List String) × (names_of (find_key "required" schema) ≡ some names)
    pub all_required :
        same_set
          (or_no_names (names_of (find_key "required" schema)))
          (keys_of (properties_or_none (find_key "properties" schema)))
        ≡ true

module _ {F : Type 0} (py : Python F) where
  clean_of :
      (limit : ℕ) (source : String) (schema : Fields F)
      → validate_output_schema_compatibility py limit source schema ≡ ok tt
      → schema_issues py limit source schema ≡ ok []
  unfolding validate_output_schema_compatibility
  clean_of limit source schema e = ground arith

  no_issues :
      (limit : ℕ) (source : String) (schema : Fields F) (name : String) (keys : List String)
      → contract_name source ≡ some (name, keys)
      → schema_issues py limit source schema ≡ ok []
      → (report : Report) × (walk py limit schema 0 true (object schema) [] ≡ ok report)
        × (report.issues ≡ [])
        × (contract_issues py (some (name, keys)) schema ≡ [])
  unfolding schema_issues
  no_issues limit source schema name keys named e =
      let (report, walked, last) = >>=-eq-ok (walk py limit schema 0 true (object schema) []) _ e in
      let (first, rest) = nil_parts report.issues _ (ok_inj last) in
      let (contract, limits) =
        nil_parts (contract_issues py (contract_name source) schema) _ rest in
      (
        report,
        walked,
        first,
        subst (λ (o : Option (String × List String)). contract_issues py o schema ≡ []) named
            contract,
      )

  -- Of a node in which nothing is found, nothing is found in the node itself or in its properties.
  node_clean :
      (call : Value F → List PathStep → Result SchemaFault Report) (schema : Fields F)
      (path : List PathStep) (depth : ℕ) (root : Bool) (node : Fields F) (report : Report)
      → walk_node py call schema path depth root node ≡ ok report
      → report.issues ≡ []
      → let types = (declared_types path (find_key "type" node)).0 in
        (node_issues py schema path depth root node types ≡ [])
        × (below : Report) × (walk_object call path types node ≡ ok below)
        × (below.issues ≡ [])
  unfolding walk_node
  node_clean call schema path depth root node report e clean =
      let (types, type_issues) = declared_types path (find_key "type" node) in
      let (below, walked, e₁) = >>=-eq-ok (walk_object call path types node) _ e in
      let (items, _, e₂) = >>=-eq-ok (walk_array call path types (find_key "items" node)) _ e₁ in
      let (options, _, e₃) = >>=-eq-ok (walk_options call path (find_key "anyOf" node)) _ e₂ in
      let (definitions, _, last) =
        >>=-eq-ok (walk_definitions call path (find_key "$defs" node)) _ e₃ in
      let joined : (type_issues ++ node_issues py schema path depth root node types)
            ++ (below.issues ++ (items.issues ++ (options.issues ++ definitions.issues)))
          ≡ [] =
        issues_of last ∙ clean in
      let (own, others) = nil_parts _ _ joined in
      let (_, found) = nil_parts type_issues _ own in
      let (below_clean, _) = nil_parts below.issues _ others in (found, below, walked, below_clean)

  object_clean :
      (call : Value F → List PathStep → Result SchemaFault Report) (path : List PathStep)
      (types : List String) (node : Fields F) (below : Report)
      → elem "object" types ≡ true
      → walk_object call path types node ≡ ok below
      → below.issues ≡ []
      → object_issues path node ≡ []
  unfolding walk_object
  object_clean call path types node below typed e clean =
      let props = properties_or_none (find_key "properties" node) in
      elim (Result-cases (walk_fields call (under path "properties") (fields_of props))) [
        | inr (err, made) ↦ ground arith
        | inl (fields, made) ↦
            let own = record (just (object_issues path node)) { property_count = size_of props } in
            let joined : object_issues path node ++ fields.issues ≡ [] =
              issues_of {r = together own fields} {s = below} (ground arith) ∙ clean in
            (nil_parts (object_issues path node) fields.issues joined).0
      ]

  -- The root's own issues, and those of its object keywords.
  root_clean :
      (limit : ℕ) (schema : Fields F) (report : Report)
      → walk py limit schema 0 true (object schema) [] ≡ ok report
      → report.issues ≡ []
      → let types = (declared_types [] (find_key "type" schema)).0 in
        (node_issues py schema [] 0 true schema types ≡ [])
        × ((elem "object" types ≡ false) ⊎ (object_issues [] schema ≡ []))
  unfolding walk
  root_clean zero schema report e clean = ground arith
  root_clean (suc n) schema report e clean =
      let (own, below, walked, below_clean) = node_clean _ schema [] 0 true schema report e clean in
      elim (Bool-cases (elem "object" (declared_types [] (find_key "type" schema)).0)) [
        | inl typed ↦ (own, inr (object_clean _ [] _ schema below typed walked below_clean))
        | inr other ↦ (own, inl other)
      ]

  -- A root that the walk accepts.
  strict :
      (schema : Fields F)
      → node_issues py schema [] 0 true schema (declared_types [] (find_key "type" schema)).0 ≡ []
      → (elem "object" (declared_types [] (find_key "type" schema)).0 ≡ false)
        ⊎ (object_issues [] schema ≡ [])
      → IsStrictRoot schema
  unfolding node_issues object_issues declared_types
  strict schema own props =
      let (keywords, e₁) = nil_parts (keyword_issues [] (keys_of schema)) _ own in
      let (at_root, _) = nil_parts (root_issues true [] schema) _ e₁ in
      let root_ok =
        not_issued
          (true && (not (is_object_type (find_key "type" schema)) || has_key "anyOf" schema)) _ _
          at_root in
      let typed : is_object_type (find_key "type" schema) ≡ true = ground arith in
      let objects : object_issues [] schema ≡ [] = elim props [
        | inl other ↦
            absurd (refuted_test (sym other ∙ object_types (find_key "type" schema) typed))
        | inr found ↦ found
      ] in
      let (declared, e₂) =
        nil_parts (issue_if (not (is_object (find_key "properties" schema))) _ _) _ objects in
      let (closed, e₃) =
        nil_parts (issue_if (not (is_false (find_key "additionalProperties" schema))) _ _) _ e₂ in
      let (required, e₄) =
        nil_parts (required_issues [] (names_of (find_key "required" schema))) _ e₃ in
      record {
        object_type = typed;
        no_any_of = ground arith;
        no_one_of = elim (Option-cases (find_key "oneOf" schema)) [
          | inl absent ↦ absent
          | inr (v, found) ↦ absurd (
              refuted_test (
                keyword_allowed [] (keys_of schema) "oneOf" keywords
                  (ground (arith, has_key-elem "oneOf" schema))))
        ];
        closed = not_refused _ _ _ closed;
        properties = not_refused _ _ _ declared;
        required = required_given [] (names_of (find_key "required" schema)) required;
        all_required = not_refused _ _ _ e₄;
      }

pub compatible_root :
    {F : Type 0} (py : Python F) (limit : ℕ) (source : String) (schema : Fields F) (name : String)
    (keys : List String)
    → contract_name source ≡ some (name, keys)
    → validate_output_schema_compatibility py limit source schema ≡ ok tt
    → IsStrictRoot schema
      × (same_set (keys_of (properties_or_none (find_key "properties" schema))) keys ≡ true)
compatible_root py limit source schema name keys named e =
    let (report, walked, clean, contract) =
      no_issues py limit source schema name keys named (clean_of py limit source schema e) in
    let (own, props) = root_clean py limit schema report walked clean in
    let (declared, _) =
      nil_parts
        (issue_if
          (not (same_set (keys_of (properties_or_none (find_key "properties" schema))) keys)) _ _)
        _ contract in
    (strict py schema own props, not_refused _ _ _ declared)
