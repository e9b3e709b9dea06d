-- ===== src/Protocol/Schema/Depth/Below.antt =====
-- schema.py, `validate`: the checks that call it again, on schemas that are small enough.
use autonomous_math_ai.Base.{
  ℕ, ◌≤◌, ◌≡◌, refl, arith, inl, inr, Bool, true, false, String, Option, none, some, List, [], ◌∷◌,
  All, string_eq, Option-cases, if◌then◌else◌,
}
use autonomous_math_ai.Base.Result.{Result, ok, raise, ◌>>=◌, ◌>>◌}
use autonomous_math_ai.Protocol.Json.{
  Value, object, Items, nil, cons, Fields, end, field, find_key, items_of,
}
use autonomous_math_ai.Protocol.Schema.{SchemaFault, schema_error, recursion_error, Check}
use autonomous_math_ai.Protocol.Schema.Validate.{
  any_of, count_passes, one_of, properties_of, check_extra, check_fields, check_items,
}
use autonomous_math_ai.Protocol.Schema.Depth.{
  value_size, items_size, fields_size, is_ref_free, items_ref_free, fields_ref_free, size-find,
}

abbrev pub is_deep : {A : Type 0} → Result SchemaFault A → Bool
is_deep (raise recursion_error) = true
is_deep r = false

pub then-shallow : (m k : Check) → is_deep m ≡ false → is_deep k ≡ false → is_deep (m >> k) ≡ false
then-shallow (ok done) k first next = next
then-shallow (raise e) k first next = first

pub branches-shallow :
    (b : Bool) (r : Result SchemaFault Bool) (body : Check)
    → is_deep r ≡ false
    → is_deep body ≡ false
    → is_deep (if b then ok tt else (r >>= λ one. if one then body else raise schema_error)) ≡ false
branches-shallow b r body kind here = ground arith

module _ {F : Type 0} where
  pub free-find :
      (k : String) (fs : Fields F) (v : Value F)
      → fields_ref_free fs ≡ true
      → find_key k fs ≡ some v
      → is_ref_free v ≡ true
  unfolding fields_ref_free
  free-find k end v free e = ground arith
  free-find k (field j w fs) v free e = ground (arith, free-find k fs v)

  -- A schema below is small, and has no reference in it.
  abbrev pub Fits : ℕ → Value F → Type 0
  Fits m s = (value_size s ≤ m) × (is_ref_free s ≡ true)

  abbrev pub CallsFit : ℕ → (Value F → Value F → Check) → Type 0
  CallsFit m call =
      (v s : Value F) → value_size s ≤ m → is_ref_free s ≡ true → is_deep (call v s) ≡ false

  module _ (m : ℕ) (call : Value F → Value F → Check) where
    pub any_of-shallow :
        (v : Value F) (ss : List (Value F))
        → CallsFit m call
        → All (Fits m) ss
        → is_deep (any_of call v ss) ≡ false
    unfolding any_of
    any_of-shallow v [] shallow h = refl
    any_of-shallow v (s ∷ ss) shallow h =
        ground (arith, shallow v s h.0.0 h.0.1, any_of-shallow v ss shallow h.1)

    pub count-shallow :
        (v : Value F) (ss : List (Value F))
        → CallsFit m call
        → All (Fits m) ss
        → is_deep (count_passes call v ss) ≡ false
    unfolding count_passes
    count-shallow v [] shallow h = refl
    count-shallow v (s ∷ ss) shallow h =
        ground (arith, shallow v s h.0.0 h.0.1, count-shallow v ss shallow h.1)

    pub one_of-shallow :
        (v : Value F) (ss : List (Value F))
        → CallsFit m call
        → All (Fits m) ss
        → is_deep (one_of call v ss) ≡ false
    unfolding one_of
    one_of-shallow v ss shallow h = ground (arith, count-shallow v ss shallow h)

    pub items_of-Fits :
        (vs : Items F) → items_size vs ≤ m → items_ref_free vs ≡ true → All (Fits m) (items_of vs)
    unfolding items_size items_ref_free
    items_of-Fits nil le free = tt
    items_of-Fits (cons v vs) le free =
        ((omega arith, ground arith), items_of-Fits vs (omega arith) (ground arith))

    pub fields-shallow :
        (props : Fields F) (extra : Option (Value F)) (entries : List (String × Value F))
        → CallsFit m call
        → fields_size props ≤ m
        → fields_ref_free props ≡ true
        → ((v : Value F) → extra ≡ some v → Fits m v)
        → is_deep (check_fields call props extra entries) ≡ false
    unfolding check_fields
    fields-shallow props extra [] shallow le free fits = refl
    fields-shallow props extra ((k, v) ∷ rest) shallow le free fits =
        let more = fields-shallow props extra rest shallow le free fits in
        elim (Option-cases (find_key k props)) [
          | inr (p, found) ↦ ground (
            arith,
            shallow v p (omega (arith, size-find k props p found)) (free-find k props p free found),
          )
          | inl undeclared ↦ ground (arith, extra-shallow extra v fits)
        ]
      where
        extra-shallow :
            (o : Option (Value F)) (w : Value F)
            → ((s : Value F) → o ≡ some s → Fits m s)
            → is_deep (check_extra call w o) ≡ false
        extra-shallow (some (object e)) w h =
            let (small, no_ref) = h (object e) refl in shallow w (object e) small no_ref
        extra-shallow none w h = refl
        extra-shallow (some s) w h = refl

    pub each-shallow :
        (s : Value F) (vs : List (Value F))
        → CallsFit m call
        → Fits m s
        → is_deep (check_items call s vs) ≡ false
    unfolding check_items
    each-shallow s [] shallow h = refl
    each-shallow s (v ∷ vs) shallow h =
        ground (arith, shallow v s h.0 h.1, each-shallow s vs shallow h)

    pub find_key-Fits :
        (k : String) (s : Fields F) (v : Value F)
        → fields_size s ≤ m
        → fields_ref_free s ≡ true
        → find_key k s ≡ some v
        → Fits m v
    find_key-Fits k s v le free e = (omega (arith, size-find k s v e), free-find k s v free e)

    pub properties_of-Fits :
        (s props : Fields F) (o : Option (Value F))
        → fields_size s ≤ m
        → fields_ref_free s ≡ true
        → find_key "properties" s ≡ o
        → properties_of o ≡ ok props
        → (fields_size props ≤ m) × (fields_ref_free props ≡ true)
    unfolding fields_size fields_ref_free value_size is_ref_free
    properties_of-Fits s props none le free e made = ground arith
    properties_of-Fits s props (some (object fs)) le free e made =
        ground (arith, find_key-Fits "properties" s (object fs) le free e)
    properties_of-Fits s props (some v) le free e made = ground arith
