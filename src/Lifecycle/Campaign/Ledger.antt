-- ===== src/Lifecycle/Campaign/Ledger.antt =====
-- lifecycle/campaign.py: the consistent ledgers, and loading one.
use autonomous_math_ai.Base.{
  ◌≤◌, ◌≡◌, refl, sym, true, false, String, Option, none, some, List, [], ◌∷◌, ◌++◌, length, elem,
  All, has_duplicates, elem-append, string_eq, arith,
}
use mathlib.Core.List.{append_assoc, append-nil}
use autonomous_math_ai.Base.Float.{Float, fmax}
use autonomous_math_ai.Base.Result.{ok}
use autonomous_math_ai.Lifecycle.Campaign.Store.{
  CampaignManifest, EpochEvent, epoch_started, epoch_sealed, campaign_superseded, EpochRecord,
  CampaignStore, started_by, sealed_by, started_ids, sealed_ids, open_ids, at_most_one,
}
use autonomous_math_ai.Lifecycle.Campaign.Operations.{load_event, load_records}

module _ {F : Type 0} where
  abbrev pub IsOf : String → EpochRecord F → Type 0
  IsOf campaign_id r = r.campaign_id ≡ campaign_id

  -- The records are of this campaign, no epoch starts twice, and at most one is open.
  pub record IsConsistent (s : CampaignStore F) : Type 0 where
    pub own : (m : CampaignManifest F) × (s.manifest ≡ some m) × (m.campaign_id ≡ s.campaign_id)
    pub records : All (IsOf s.campaign_id) s.epochs
    pub starts : has_duplicates (started_ids s.epochs) ≡ false
    pub named : elem "" (started_ids s.epochs) ≡ false
    pub single : length (open_ids s.epochs) ≤ 1

  pub started_ids-append :
      (xs ys : List (EpochRecord F)) → started_ids (xs ++ ys) ≡ started_ids xs ++ started_ids ys
  started_ids-append [] ys = refl
  started_ids-append (x ∷ xs) ys =
      rw (started_ids-append xs ys)
        (sym (append_assoc (started_by x.event) (started_ids xs) (started_ids ys)))

  pub sealed_ids-append :
      (xs ys : List (EpochRecord F)) → sealed_ids (xs ++ ys) ≡ sealed_ids xs ++ sealed_ids ys
  sealed_ids-append [] ys = refl
  sealed_ids-append (x ∷ xs) ys =
      rw (sealed_ids-append xs ys)
        (sym (append_assoc (sealed_by x.event) (sealed_ids xs) (sealed_ids ys)))

pub single-unsealed :
    (es : List String) → length es ≤ 1 → (o : Option String) × (at_most_one es ≡ ok o)
single-unsealed [] h = (none, refl)
single-unsealed (e ∷ []) h = (some e, refl)
single-unsealed (e ∷ d ∷ es) h = let never : ⊥ = omega arith in absurd never

-- An element that repeats nothing is not among those before it.
has_duplicates-middle :
    (x : String) (xs ys : List String) → has_duplicates (xs ++ x ∷ ys) ≡ false → elem x xs ≡ false
has_duplicates-middle x [] ys h = refl
has_duplicates-middle x (y ∷ xs) ys h = ground (
  arith,
  has_duplicates-middle x xs ys,
  elem-append y xs (x ∷ ys),
  string_eq.beq_iff x y,
  string_eq.beq_iff y x,
)

elem-not_empty :
    (x : String) (ys : List String) → elem "" (x ∷ ys) ≡ false → string_eq.beq x "" ≡ false
elem-not_empty x ys h = ground (arith, string_eq.beq_iff x "", string_eq.beq_iff "" x)

module _ {F : Type 0} ⦃f : Float F⦄ where
  load_event-ok :
      (event : EpochEvent F) (rest epochs : List String) (elapsed : F)
      → has_duplicates (epochs ++ (started_by event ++ rest)) ≡ false
      → elem "" (started_by event ++ rest) ≡ false
      → (t : F) × (load_event event epochs elapsed ≡ ok (epochs ++ started_by event, t))
  load_event-ok (epoch_started e previous mode) rest epochs elapsed new named =
      (elapsed, rw (elem-not_empty e rest named, has_duplicates-middle e epochs rest new) refl)
  load_event-ok (epoch_sealed e seconds status reason uri usable) rest epochs elapsed new named =
      (f.add elapsed (fmax (f.of_ℕ 0) seconds), rw (append-nil epochs) refl)
  load_event-ok (campaign_superseded e by reason) rest epochs elapsed new named =
      (elapsed, rw (append-nil epochs) refl)

  -- The loop of `load` over records without a repeated start reads all of them.
  pub load_records-ok :
      (id : String) (rs : List (EpochRecord F)) (epochs : List String) (elapsed : F)
      → All (IsOf id) rs
      → has_duplicates (epochs ++ started_ids rs) ≡ false
      → elem "" (started_ids rs) ≡ false
      → (t : F) × (load_records id rs epochs elapsed ≡ ok (epochs ++ started_ids rs, t))
  unfolding load_records
  load_records-ok id [] epochs elapsed own new named = (elapsed, rw (append-nil epochs) refl)
  load_records-ok id (r ∷ rs) epochs elapsed own new named =
      let (t, one) = load_event-ok r.event (started_ids rs) epochs elapsed new named in
      let same : string_eq.beq r.campaign_id id ≡ true =
        (string_eq.beq_iff r.campaign_id id).1 own.0 in
      let grouped = append_assoc epochs (started_by r.event) (started_ids rs) in
      let (u, rest) =
        load_records-ok id rs (epochs ++ started_by r.event) t own.1 (rw grouped new)
          (ground (arith, named, elem-append "" (started_by r.event) (started_ids rs))) in
      (u, rw (same, one, sym grouped) rest)
