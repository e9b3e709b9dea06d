-- ===== src/Protocol/Schema/Compatible/Exact.antt =====
-- schema.py: what an accepted output of a contract has, where the schema of the contract passed the
-- preflight.
use autonomous_math_ai.Base.{
  ℕ, zero, suc, ◌≡◌, ◌∙◌, refl, sym, subst, arith, true, false, not, String, Option, none, some,
  List, any, elem, same_set, string_eq,
}
use autonomous_math_ai.Base.Result.{ok}
use autonomous_math_ai.Protocol.Contracts.{contract_name}
use autonomous_math_ai.Protocol.Json.{Value, text, object, Fields, find_key, has_key, keys_of}
use autonomous_math_ai.Protocol.Schema.{Python, Check}
use autonomous_math_ai.Protocol.Schema.Validate.{
  is_false, required_of, check_object, check_typed, check_schema, validate_under, validate,
}
use autonomous_math_ai.Protocol.Schema.Node.{
  is_object_type, is_object, names_of, or_no_names, properties_or_none,
}
use autonomous_math_ai.Protocol.Schema.Compatible.{validate_output_schema_compatibility}
use autonomous_math_ai.Protocol.Schema.Compatible.Strict.{IsStrictRoot, compatible_root}
use autonomous_math_ai.Protocol.Schema.Compatible.Quiet.{
  required-names, has_key-elem, none_missing, all_there, same_members,
}

module _ {F : Type 0} (py : Python F) where
  typed_object :
      (call : Value F → Value F → Check) (v : Value F) (s : Fields F) (o : Option (Value F))
      → is_object_type o ≡ true
      → check_typed py call v s o ≡ ok tt
      → (fs : Fields F) × (v ≡ object fs) × (check_object call fs s ≡ ok tt)
  unfolding check_typed
  typed_object call v s none typed e = absurd (cc)
  typed_object call v s (some (text t)) typed e = at_object v (
      subst (λ (k : String). check_typed py call v s (some (text k)) ≡ ok tt)
        ((string_eq.beq_iff t "object").0 typed) e)
    where
      at_object :
          (w : Value F)
          → check_typed py call w s (some (text "object")) ≡ ok tt
          → (fs : Fields F) × (w ≡ object fs) × (check_object call fs s ≡ ok tt)
      at_object (object fs) h = (fs, refl, h)
      at_object w h = absurd (cc)
  typed_object call v s (some other) typed e = absurd (cc)

  plain_schema :
      (call : Value F → Value F → Check) (v : Value F) (s : Fields F)
      → find_key "anyOf" s ≡ none
      → find_key "oneOf" s ≡ none
      → check_schema py call v s ≡ ok tt
      → check_typed py call v s (find_key "type" s) ≡ ok tt
  unfolding check_schema
  plain_schema call v s any_of one_of e = ground arith

  object_keys :
      (call : Value F → Value F → Check) (fs s : Fields F) (names : List String)
      → required_of (find_key "required" s) ≡ ok names
      → is_object (find_key "properties" s) ≡ true
      → is_false (find_key "additionalProperties" s) ≡ true
      → check_object call fs s ≡ ok tt
      → (any (λ k. not (has_key k fs)) names ≡ false)
        × (any (λ k. not (has_key k (properties_or_none (find_key "properties" s)))) (keys_of fs)
            ≡ false)
  unfolding check_object
  object_keys call fs s names required declared closed e = ground arith

  root_object :
      (limit : ℕ) (v : Value F) (s : Fields F)
      → IsStrictRoot s
      → find_key "$ref" s ≡ none
      → validate py limit v s ≡ ok tt
      → (fs : Fields F) × (v ≡ object fs)
        × (any (λ k. not (has_key k fs)) (or_no_names (names_of (find_key "required" s))) ≡ false)
        × (any (λ k. not (has_key k (properties_or_none (find_key "properties" s)))) (keys_of fs)
            ≡ false)
  unfolding validate validate_under
  root_object zero v s h no_ref e = absurd (cc)
  root_object (suc n) v s h no_ref e =
      let call = validate_under py n s in
      let checked : check_schema py call v s ≡ ok tt = ground arith in
      let typed = plain_schema call v s h.no_any_of h.no_one_of checked in
      let (fs, is_fs, met) = typed_object call v s (find_key "type" s) h.object_type typed in
      let (names, named) = h.required in
      let (present, known) =
        object_keys call fs s names (required-names (find_key "required" s) names named)
          h.properties h.closed met in
      (
        fs,
        is_fs,
        subst (λ (o : Option (List String)). any (λ k. not (has_key k fs)) (or_no_names o) ≡ false)
            (sym named) present,
        known,
      )

-- Where the schema of a contract passed the preflight and has no reference at its root, an output
-- that is valid against it is an object whose keys are exactly the keys of the contract.
pub contract_output_exact :
    {F : Type 0} (py : Python F) (limit depth : ℕ) (source : String) (schema : Fields F)
    (v : Value F) (name : String) (keys : List String)
    → contract_name source ≡ some (name, keys)
    → validate_output_schema_compatibility py limit source schema ≡ ok tt
    → find_key "$ref" schema ≡ none
    → validate py depth v schema ≡ ok tt
    → (fs : Fields F) × (v ≡ object fs) × (same_set (keys_of fs) keys ≡ true)
contract_output_exact py limit depth source schema v name keys named compatible no_ref valid =
    let (h, exact) = compatible_root py limit source schema name keys named compatible in
    let (fs, is_fs, present, known) = root_object py depth v schema h no_ref valid in
    let props = properties_or_none (find_key "properties" schema) in
    let names = or_no_names (names_of (find_key "required" schema)) in
    let there = λ (k : String) (m : elem k (keys_of fs) ≡ true).
      sym (same_members (keys_of props) keys k exact)
      ∙ sym (has_key-elem k props)
      ∙ none_missing (λ j. has_key j props) (keys_of fs) k known m in
    let back = λ (k : String) (m : elem k keys ≡ true).
      let in_props : elem k (keys_of props) ≡ true =
        same_members (keys_of props) keys k exact ∙ m in
      let in_names : elem k names ≡ true =
        same_members names (keys_of props) k h.all_required ∙ in_props in
      sym (has_key-elem k fs) ∙ none_missing (λ j. has_key j fs) names k present in_names in
    let forth_ok = all_there (λ k. elem k keys) (keys_of fs) there in
    let back_ok = all_there (λ k. elem k (keys_of fs)) keys back in (fs, is_fs, ground arith)
