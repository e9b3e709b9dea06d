-- ===== src/Protocol/Schema/Depth/Walk.antt =====
-- schema.py, `validate_output_schema_compatibility`: the walk of a schema comes to its end.
use autonomous_math_ai.Base.{
  ℕ, zero, suc, ◌≤◌, ◌≡◌, refl, arith, Bool, true, false, String, Option, none, some, List, [], ◌∷◌,
  All, string_eq,
}
use autonomous_math_ai.Base.Result.{Result, ok, raise, ◌>>=◌}
use autonomous_math_ai.Protocol.Json.{
  Value, null, array, object, nil, cons, Fields, find_key, fields_of, items_of,
}
use autonomous_math_ai.Protocol.Schema.{Python, SchemaFault}
use autonomous_math_ai.Protocol.Schema.Issues.{PathStep, Issues, under, at_index, declared_types}
use autonomous_math_ai.Protocol.Schema.Node.{properties_or_none}
use autonomous_math_ai.Protocol.Schema.Compatible.{
  Report, walk_fields, walk_items, walk_object, walk_array, walk_options, walk_definitions,
  walk_node, walk, schema_issues,
}
use autonomous_math_ai.Protocol.Schema.Depth.{
  value_size, items_size, fields_size, size-find, size-fields, size-items,
}

abbrev returns : Result SchemaFault Report → Bool
returns (ok report) = true
returns (raise e) = false

module _ {F : Type 0} (m : ℕ) (call : Value F → List PathStep → Result SchemaFault Report) where
  -- The walk of what is small enough comes to its end.
  abbrev Walks : Type 0
  Walks = (v : Value F) (path : List PathStep) → value_size v ≤ m → returns (call v path) ≡ true

  fields_return :
      (path : List PathStep) (entries : List (String × Value F))
      → Walks
      → All (λ entry. value_size entry.1 ≤ m) entries
      → returns (walk_fields call path entries) ≡ true
  unfolding walk_fields
  fields_return path [] walks h = refl
  fields_return path ((name, v) ∷ rest) walks h =
      ground (arith, walks v (under path name) h.0, fields_return path rest walks h.1)

  items_return :
      (path : List PathStep) (n : ℕ) (vs : List (Value F))
      → Walks
      → All (λ v. value_size v ≤ m) vs
      → returns (walk_items call path n vs) ≡ true
  unfolding walk_items
  items_return path n [] walks h = refl
  items_return path n (v ∷ vs) walks h =
      ground (arith, walks v (at_index path n) h.0, items_return path (suc n) vs walks h.1)

  below :
      (entries : List (String × Value F)) (k : ℕ)
      → k ≤ m
      → All (λ entry. value_size entry.1 ≤ k) entries
      → All (λ entry. value_size entry.1 ≤ m) entries
  below [] k le h = tt
  below (entry ∷ entries) k le h = (omega arith, below entries k le h.1)

  below_items :
      (vs : List (Value F)) (k : ℕ)
      → k ≤ m
      → All (λ v. value_size v ≤ k) vs
      → All (λ v. value_size v ≤ m) vs
  below_items [] k le h = tt
  below_items (v ∷ vs) k le h = (omega arith, below_items vs k le h.1)

  object_returns :
      (path : List PathStep) (types : List String) (node : Fields F)
      → Walks
      → fields_size node ≤ m
      → returns (walk_object call path types node) ≡ true
  unfolding walk_object fields_size value_size
  object_returns path types node walks le =
      let small = props_small (find_key "properties" node) refl in
      ground (
        arith,
        fields_return (under path "properties")
            (fields_of (properties_or_none (find_key "properties" node))) walks
            (below (fields_of (properties_or_none (find_key "properties" node)))
              (fields_size (properties_or_none (find_key "properties" node))) small
              (size-fields _)),
      )
    where
      props_small :
          (o : Option (Value F))
          → find_key "properties" node ≡ o
          → fields_size (properties_or_none o) ≤ m
      props_small (some (object fs)) e = ground (arith, size-find "properties" node (object fs) e)
      props_small none e = ground arith
      props_small (some v) e = ground arith

  array_returns :
      (path : List PathStep) (types : List String) (node : Fields F) (o : Option (Value F))
      → Walks
      → fields_size node ≤ m
      → find_key "items" node ≡ o
      → returns (walk_array call path types o) ≡ true
  unfolding walk_array
  array_returns path types node none walks le e = ground arith
  array_returns path types node (some (object items)) walks le e = ground (
    arith,
    walks (object items) (under path "items")
        (omega (arith, size-find "items" node (object items) e)),
  )
  array_returns path types node (some v) walks le e = ground arith

  options_return :
      (path : List PathStep) (node : Fields F) (o : Option (Value F))
      → Walks
      → fields_size node ≤ m
      → find_key "anyOf" node ≡ o
      → returns (walk_options call path o) ≡ true
  unfolding walk_options items_size value_size
  options_return path node none walks le e = refl
  options_return path node (some (array nil)) walks le e = refl
  options_return path node (some (array (cons v vs))) walks le e =
      items_return (under path "anyOf") 0 (items_of (cons v vs)) walks (
        below_items (items_of (cons v vs)) (items_size (cons v vs))
          (omega (arith, size-find "anyOf" node (array (cons v vs)) e)) (size-items (cons v vs)))
  options_return path node (some v) walks le e = refl

  definitions_return :
      (path : List PathStep) (node : Fields F) (o : Option (Value F))
      → Walks
      → fields_size node ≤ m
      → find_key "$defs" node ≡ o
      → returns (walk_definitions call path o) ≡ true
  unfolding walk_definitions value_size
  definitions_return path node none walks le e = refl
  definitions_return path node (some null) walks le e = refl
  definitions_return path node (some (object fs)) walks le e =
      fields_return (under path "$defs") (fields_of fs) walks (
        below (fields_of fs) (fields_size fs) (omega (arith, size-find "$defs" node (object fs) e))
          (size-fields fs))
  definitions_return path node (some v) walks le e = refl

module _ {F : Type 0} (py : Python F) where
  walk-returns :
      (limit : ℕ) (schema : Fields F) (depth : ℕ) (root : Bool) (node : Value F)
      (path : List PathStep)
      → value_size node ≤ limit
      → returns (walk py limit schema depth root node path) ≡ true
  unfolding walk walk_node value_size
  walk-returns zero schema depth root (object node) path le = absurd (omega arith)
  walk-returns zero schema depth root node path le = absurd (omega arith)
  walk-returns (suc n) schema depth root (object node) path le =
      let call = walk py n schema (suc depth) false in
      let walks : Walks n call =
        λ v where_at small. walk-returns n schema (suc depth) false v where_at small in
      let small : fields_size node ≤ n = omega arith in
      let types = (declared_types path (find_key "type" node)).0 in
      ground (
        arith,
        object_returns n call path types node walks small,
        array_returns n call path types node (find_key "items" node) walks small refl,
        options_return n call path node (find_key "anyOf" node) walks small refl,
        definitions_return n call path node (find_key "$defs" node) walks small refl,
      )
  walk-returns (suc n) schema depth root other path le = refl

goes_on :
    (m : Result SchemaFault Report) (f : Report → Issues)
    → returns m ≡ true
    → (issues : Issues) × (m >>= (λ report. ok (f report)) ≡ ok issues)
goes_on (ok report) f h = (f report, refl)
goes_on (raise e) f h = absurd (cc)

-- The issues of a schema are found where the calls may go as deep as the schema has values.
pub schema_issues_return :
    {F : Type 0} (py : Python F) (limit : ℕ) (source : String) (schema : Fields F)
    → value_size (object schema) ≤ limit
    → (issues : Issues) × (schema_issues py limit source schema ≡ ok issues)
unfolding schema_issues
schema_issues_return py limit source schema le =
    goes_on (walk py limit schema 0 true (object schema) []) _
      (walk-returns py limit schema 0 true (object schema) [] le)
