-- ===== src/Representation/RoundTrip.antt =====
-- representation.py: what `from_dict` accepts, and that `to_dict` writes it back.
use autonomous_math_ai.Base.{
  ◌≡◌, ◌∙◌, refl, arith, false, String, Option, none, some, List, [], ◌∷◌, All, has_duplicates,
  string_eq, subst, not, same_set,
}
use autonomous_math_ai.Base.Result.{ok, ◌>>◌, raise_if, >>=-eq-ok, raise_if-eq-ok, ok-injective}
use autonomous_math_ai.Base.Sorting.{
  IsSorted, insert_text, sort_texts, sort-IsSorted, sort_sorted, has_duplicates-sort,
}
use autonomous_math_ai.Base.Text.{is_space}
use autonomous_math_ai.Protocol.Json.{
  Value, null, boolean, integer, real, text, array, object, Items, nil, cons, Fields, find_key,
  keys_of,
}
use autonomous_math_ai.Representation.{
  RepresentationContract, legacy, representation_fields, not_exact, factors_not_texts,
  duplicate_factors, is_blank, filled_text, filled_texts, read_factors, read_fields, from_dict,
  texts, to_dict,
}

abbrev pub IsFilled : String → Type 0
IsFilled s = is_blank s ≡ false

-- The factors are texts that are not blank, each once, in the order of `sorted`.
abbrev pub IsFactors : List String → Type 0
IsFactors factors = All IsFilled factors × (has_duplicates factors ≡ false) × IsSorted factors

abbrev pub IsContract : RepresentationContract → Type 0
IsContract r =
    IsFilled r.branch
    × IsFilled r.localization
    × IsFilled r.saturation
    × IsFilled r.normalization
    × IsFilled r.content
    × IsFilled r.combination_scope
    × IsFactors r.exceptional_factors

All-insert :
    (P : String → Type 0) (x : String) (ys : List String)
    → P x
    → All P ys
    → All P (insert_text x ys)
All-insert P x [] hx h = (hx, tt)
All-insert P x (y ∷ ys) hx h = ground (arith, All-insert P x ys hx h.1)

All-sort : (P : String → Type 0) (xs : List String) → All P xs → All P (sort_texts xs)
All-sort P [] h = tt
All-sort P (x ∷ xs) h = All-insert P x (sort_texts xs) h.0 (All-sort P xs h.1)

module _ {F : Type 0} where
  filled_text-IsFilled : (v : Option (Value F)) {s : String} → filled_text v ≡ ok s → IsFilled s
  unfolding filled_text
  filled_text-IsFilled none h = cc
  filled_text-IsFilled (some v) h = ground arith

  filled_texts-IsFilled :
      (xs : Items F) (ss : List String) → filled_texts xs ≡ ok ss → All IsFilled ss
  unfolding filled_texts
  filled_texts-IsFilled nil ss h = subst (All IsFilled) (ok-injective h) tt
  filled_texts-IsFilled (cons (text s) xs) ss h =
      let (rest, read, made) =
        >>=-eq-ok (raise_if (is_blank s) factors_not_texts >> filled_texts xs) _ h in
      let (u, filled, more) = >>=-eq-ok (raise_if (is_blank s) factors_not_texts) _ read in
      subst (All IsFilled) (ok-injective made)
        (raise_if-eq-ok _ _ filled, filled_texts-IsFilled xs rest more)
  filled_texts-IsFilled (cons null xs) ss h = cc
  filled_texts-IsFilled (cons (boolean b) xs) ss h = cc
  filled_texts-IsFilled (cons (integer z) xs) ss h = cc
  filled_texts-IsFilled (cons (real x) xs) ss h = cc
  filled_texts-IsFilled (cons (array ys) xs) ss h = cc
  filled_texts-IsFilled (cons (object fs) xs) ss h = cc

  read_factors-IsFactors :
      (v : Option (Value F)) (ss : List String) → read_factors v ≡ ok ss → IsFactors ss
  unfolding read_factors
  read_factors-IsFactors none ss h = cc
  read_factors-IsFactors (some (array xs)) ss h =
      let (factors, read, rest) = >>=-eq-ok (filled_texts xs) _ h in
      let (u, once, made) =
        >>=-eq-ok (raise_if (has_duplicates factors) duplicate_factors) _ rest in
      subst IsFactors (ok-injective made) (
        All-sort IsFilled factors (filled_texts-IsFilled xs factors read),
        has_duplicates-sort factors ∙ raise_if-eq-ok _ _ once,
        sort-IsSorted factors,
      )
  read_factors-IsFactors (some null) ss h = cc
  read_factors-IsFactors (some (boolean b)) ss h = cc
  read_factors-IsFactors (some (integer z)) ss h = cc
  read_factors-IsFactors (some (real x)) ss h = cc
  read_factors-IsFactors (some (text s)) ss h = cc
  read_factors-IsFactors (some (object fs)) ss h = cc

  read_fields-IsContract :
      (fs : Fields F) (r : RepresentationContract) → read_fields fs ≡ ok r → IsContract r
  unfolding read_fields
  read_fields-IsContract fs r h =
      let (a, ha, h1) = >>=-eq-ok (filled_text (find_key "branch" fs)) _ h in
      let (b, hb, h2) = >>=-eq-ok (filled_text (find_key "localization" fs)) _ h1 in
      let (c, hc, h3) = >>=-eq-ok (filled_text (find_key "saturation" fs)) _ h2 in
      let (d, hd, h4) = >>=-eq-ok (filled_text (find_key "normalization" fs)) _ h3 in
      let (e, he, h5) = >>=-eq-ok (filled_text (find_key "content" fs)) _ h4 in
      let (f, hf, h6) = >>=-eq-ok (filled_text (find_key "combination_scope" fs)) _ h5 in
      let (g, hg, made) = >>=-eq-ok (read_factors (find_key "exceptional_factors" fs)) _ h6 in
      subst IsContract (ok-injective made) (
        filled_text-IsFilled _ ha,
        filled_text-IsFilled _ hb,
        filled_text-IsFilled _ hc,
        filled_text-IsFilled _ hd,
        filled_text-IsFilled _ he,
        filled_text-IsFilled _ hf,
        read_factors-IsFactors _ g hg,
      )

module _ (F : Type 0) where
  text_filled : (s : String) → IsFilled s → filled_text {F = F} (some (text s)) ≡ ok s
  unfolding filled_text
  text_filled s h = ground arith

  texts_filled : (ss : List String) → All IsFilled ss → filled_texts {F = F} (texts ss) ≡ ok ss
  unfolding filled_texts
  texts_filled [] h = refl
  texts_filled (s ∷ ss) h = ground (arith, texts_filled ss h.1)

  read_written :
      (ss : List String) → IsFactors ss → read_factors {F = F} (some (array (texts ss))) ≡ ok ss
  unfolding read_factors
  read_written ss h = ground (arith, texts_filled ss h.0, sort_sorted ss h.2)

  from_dict-to_dict :
      (r : RepresentationContract) → IsContract r → from_dict {F = F} (to_dict r) ≡ ok r
  unfolding from_dict read_fields
  from_dict-to_dict r h =
      rw
        (
          text_filled r.branch h.0,
          text_filled r.localization h.1,
          text_filled r.saturation h.2,
          text_filled r.normalization h.3,
          text_filled r.content h.4,
          text_filled r.combination_scope h.5,
          read_written r.exceptional_factors h.6,
        )
        refl

legacy-IsContract : IsContract legacy
unfolding is_blank is_space
legacy-IsContract = (refl, refl, refl, refl, refl, refl, (tt, refl, tt))

module _ {F : Type 0} where
  from_dict-IsContract :
      (v : Value F) (r : RepresentationContract) → from_dict v ≡ ok r → IsContract r
  unfolding from_dict
  from_dict-IsContract null r h = subst IsContract (ok-injective h) legacy-IsContract
  from_dict-IsContract (object fs) r h =
      let (u, exact, rest) =
        >>=-eq-ok (raise_if (not (same_set (keys_of fs) representation_fields)) not_exact) _ h in
      read_fields-IsContract fs r rest
  from_dict-IsContract (boolean b) r h = cc
  from_dict-IsContract (integer z) r h = cc
  from_dict-IsContract (real x) r h = cc
  from_dict-IsContract (text s) r h = cc
  from_dict-IsContract (array ys) r h = cc

  -- What from_dict accepts is a contract whose texts are not blank and whose factors are not blank,
  -- each there once and sorted, and from_dict reads the dictionary that to_dict writes of it as the
  -- same contract.
  pub from_dict_rewrites :
      (v : Value F) (r : RepresentationContract)
      → from_dict v ≡ ok r
      → IsContract r × (from_dict {F = F} (to_dict r) ≡ ok r)
  from_dict_rewrites v r h =
      let accepted = from_dict-IsContract v r h in (accepted, from_dict-to_dict F r accepted)
