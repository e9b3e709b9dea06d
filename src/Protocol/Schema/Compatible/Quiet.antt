-- ===== src/Protocol/Schema/Compatible/Quiet.antt =====
-- schema.py, `validate_output_schema_compatibility`: what follows where a list of issues is empty.
use autonomous_math_ai.Base.{
  ◌≡◌, refl, sym, ap, subst, arith, inl, inr, Bool, true, false, not, String, Option, none, some,
  List, [], ◌∷◌, ◌++◌, any, elem, same_set, string_eq, ◌==◌, Bool-cases, Option-cases,
}
use autonomous_math_ai.Base.Result.{Result, ok}
use autonomous_math_ai.Protocol.Json.{
  Value, text, array, Fields, end, field, has_key, keys_of, items_of,
}
use autonomous_math_ai.Protocol.Schema.{SchemaFault}
use autonomous_math_ai.Protocol.Schema.Validate.{texts_of, required_of}
use autonomous_math_ai.Protocol.Schema.Issues.{
  PathStep, Issues, issue_if, allowed_keywords, keyword_issues, declared_types,
}
use autonomous_math_ai.Protocol.Schema.Node.{is_object_type, all_texts, names_of, required_issues}
use autonomous_math_ai.Protocol.Schema.Compatible.{Report}

pub ok_inj : {xs ys : Issues} → ◌≡◌ {A = Result SchemaFault Issues} (ok xs) (ok ys) → xs ≡ ys
ok_inj e = cc

pub issues_of :
    {r s : Report} → ◌≡◌ {A = Result SchemaFault Report} (ok r) (ok s) → r.issues ≡ s.issues
issues_of e = ground arith

pub refuted_test : false ≡ true → ⊥
refuted_test e = cc

pub required_given :
    (path : List PathStep) (o : Option (List String))
    → required_issues path o ≡ []
    → (names : List String) × (o ≡ some names)
required_given path none e = ground arith
required_given path (some names) e = (names, refl)

pub nil_parts : (xs ys : Issues) → xs ++ ys ≡ [] → (xs ≡ []) × (ys ≡ [])
nil_parts [] ys e = (refl, e)
nil_parts (x ∷ xs) ys e = ground arith

pub none_missing :
    (p : String → Bool) (xs : List String) (x : String)
    → any (λ y. not (p y)) xs ≡ false
    → elem x xs ≡ true
    → p x ≡ true
none_missing p [] x h m = ground arith
none_missing p (y ∷ xs) x h m = elim (Bool-cases (x == y)) [
  | inl same ↦ let here : p x ≡ p y = ap p ((string_eq.beq_iff x y).0 same) in ground arith
  | inr other ↦ none_missing p xs x (ground arith) (ground arith)
]

pub all_there :
    (p : String → Bool) (xs : List String)
    → ((x : String) → elem x xs ≡ true → p x ≡ true)
    → any (λ y. not (p y)) xs ≡ false
all_there p [] h = refl
all_there p (y ∷ xs) h =
    let here = h y (ground (arith, string_eq.beq_iff y y)) in
    let rest = all_there p xs (λ x m. h x (ground arith)) in ground arith

pub same_members :
    (xs ys : List String) (x : String) → same_set xs ys ≡ true → elem x xs ≡ elem x ys
same_members xs ys x h =
    ground (arith, none_missing (λ y. elem y ys) xs x, none_missing (λ y. elem y xs) ys x)

pub not_refused :
    (b : Bool) (path : List PathStep) (reason : String)
    → issue_if (not b) path reason ≡ []
    → b ≡ true
not_refused true path reason e = refl
not_refused false path reason e = ground arith

pub not_issued :
    (b : Bool) (path : List PathStep) (reason : String) → issue_if b path reason ≡ [] → b ≡ false
not_issued true path reason e = ground arith
not_issued false path reason e = refl

pub elem-tail :
    (x y : String) (ys : List String) → (x == y) ≡ false → elem x (y ∷ ys) ≡ true → elem x ys ≡ true
elem-tail x y ys other m = ground arith

pub keyword_allowed :
    (path : List PathStep) (names : List String) (name : String)
    → keyword_issues path names ≡ []
    → elem name names ≡ true
    → elem name allowed_keywords ≡ true
keyword_allowed path [] name e m = cc
keyword_allowed path (n ∷ names) name e m =
    let (first, rest) = nil_parts (issue_if (not (elem n allowed_keywords)) _ _) _ e in
    elim (Bool-cases (name == n)) [
      | inl same ↦
          subst (λ (k : String). elem k allowed_keywords ≡ true)
            (sym ((string_eq.beq_iff name n).0 same))
            (not_refused (elem n allowed_keywords) _ _ first)
      | inr other ↦ keyword_allowed path names name rest (elem-tail name n names other m)
    ]

module _ {F : Type 0} where
  pub has_key-elem : (k : String) (fs : Fields F) → has_key k fs ≡ elem k (keys_of fs)
  has_key-elem k end = refl
  has_key-elem k (field j v fs) =
      ground (arith, has_key-elem k fs, string_eq.beq_iff j k, string_eq.beq_iff k j)

  pub texts-all :
      (vs : List (Value F)) (ts : List String) → all_texts vs ≡ some ts → texts_of vs ≡ ok ts
  texts-all [] ts e = ground arith
  texts-all (text t ∷ vs) ts e = elim (Option-cases (all_texts vs)) [
    | inl not_all ↦ ground arith
    | inr (more, found) ↦ ground (arith, texts-all vs more found)
  ]
  texts-all (v ∷ vs) ts e = ground arith

  pub required-names :
      (o : Option (Value F)) (names : List String)
      → names_of o ≡ some names
      → required_of o ≡ ok names
  required-names none names e = ground arith
  required-names (some (array vs)) names e = texts-all (items_of vs) names e
  required-names (some v) names e = ground arith

  pub object_types :
      (o : Option (Value F))
      → is_object_type o ≡ true
      → elem "object" (declared_types [] o).0 ≡ true
  unfolding declared_types
  object_types none e = cc
  object_types (some (text t)) e =
      subst (λ (k : String). elem "object" (declared_types {F = F} [] (some (text k))).0 ≡ true)
        (sym ((string_eq.beq_iff t "object").0 e)) refl
  object_types (some v) e = cc
