-- ===== src/Lifecycle/Campaign/Writes.antt =====
-- lifecycle/campaign.py: the writes of the operations.
use autonomous_math_ai.Base.{
  ◌≤◌, ◌≡◌, refl, ◌∙◌, subst, Bool, true, false, not, String, Option, some, List, [], ◌∷◌, ◌++◌,
  length, keep, elem, All-append, elem-append, has_duplicates-snoc, string_eq, arith,
}
use native.Mathlib.Nat.{le_trans}
use mathlib.Core.List.{append-nil}
use autonomous_math_ai.Base.Result.{ok}
use autonomous_math_ai.Lifecycle.Campaign.Store.{
  CampaignStatus, EpochEvent, epoch_started, epoch_sealed, campaign_superseded, EpochRecord,
  CampaignStore, started_by, sealed_by, started_ids, sealed_ids, open_ids, write, set_status,
}
use autonomous_math_ai.Lifecycle.Campaign.Ledger.{
  IsOf, IsConsistent, started_ids-append, sealed_ids-append,
}

module _ {ℓ} {A : Type ℓ} where
  pub keep-append : (p : A → Bool) (xs ys : List A) → keep p (xs ++ ys) ≡ keep p xs ++ keep p ys
  keep-append p [] ys = refl
  keep-append p (x ∷ xs) ys = ground (arith, keep-append p xs ys)

  length-keep-le :
      (p q : A → Bool) (xs : List A)
      → ((x : A) → p x ≡ true → q x ≡ true)
      → length (keep p xs) ≤ length (keep q xs)
  length-keep-le p q [] h = omega arith
  length-keep-le p q (x ∷ xs) h = ground (arith, length-keep-le p q xs h, h x)

module _ {F : Type 0} where
  -- The line that `write` appends.
  abbrev pub line : String → EpochEvent F → CampaignStore F → List (EpochRecord F)
  line now event s = record { campaign_id = s.campaign_id; event = event; timestamp = now } ∷ []

  same_started :
      (now : String) (event : EpochEvent F)
      → started_by event ≡ []
      → (s : CampaignStore F) → started_ids (s.epochs ++ line now event s) ≡ started_ids s.epochs
  same_started now event none_started s =
      started_ids-append s.epochs (line now event s)
      ∙ rw none_started (append-nil (started_ids s.epochs))

  still_open :
      (now : String) (event : EpochEvent F) (s : CampaignStore F) (x : String)
      → not (elem x (sealed_ids (s.epochs ++ line now event s))) ≡ true
      → not (elem x (sealed_ids s.epochs)) ≡ true
  still_open now event s x h = ground (
    arith,
    h,
    sealed_ids-append s.epochs (line now event s),
    elem-append x (sealed_ids s.epochs) (sealed_by event ++ []),
  )

  pub write_start-IsConsistent :
      (now e : String) (previous : Option String) (mode : String) (s : CampaignStore F)
      → elem e (started_ids s.epochs) ≡ false
      → string_eq.beq e "" ≡ false
      → open_ids s.epochs ≡ []
      → IsConsistent s
      → IsConsistent (write now (epoch_started e previous mode) s)
  write_start-IsConsistent now e previous mode s new named none_open c = record {
    own = c.own;
    records = All-append (IsOf s.campaign_id) s.epochs _ c.records (refl, tt);
    starts =
        rw (started_ids-append s.epochs _)
          (has_duplicates-snoc e (started_ids s.epochs) c.starts new);
    named = ground (
      arith,
      c.named,
      started_ids-append s.epochs (
          record {
            campaign_id = s.campaign_id;
            event = epoch_started e previous mode;
            timestamp = now;
          }
          ∷ []),
      elem-append "" (started_ids s.epochs) (e ∷ []),
      string_eq.beq_iff e "",
      string_eq.beq_iff "" e,
    );
    single =
        rw
          (
            started_ids-append s.epochs (line now (epoch_started e previous mode) s),
            sealed_ids-append s.epochs (line now (epoch_started e previous mode) s),
            append-nil (sealed_ids s.epochs),
            keep-append (λ x. not (elem x (sealed_ids s.epochs))) (started_ids s.epochs) (e ∷ []),
            none_open,
          )
          (ground arith);
  }

  pub write_seal-IsConsistent :
      (now e : String) (elapsed : F) (status : CampaignStatus) (reason uri : String) (usable : Bool)
      (s : CampaignStore F)
      → IsConsistent s
      → IsConsistent (write now (epoch_sealed e elapsed status reason uri usable) s)
  write_seal-IsConsistent now e elapsed status reason uri usable s c =
      let started = same_started now (epoch_sealed e elapsed status reason uri usable) refl s in
      record {
        own = c.own;
        records = All-append (IsOf s.campaign_id) s.epochs _ c.records (refl, tt);
        starts = rw started c.starts;
        named = rw started c.named;
        single = rw started (
            le_trans
              (length-keep-le
                (λ x. not (
                  elem x (
                    sealed_ids
                      (s.epochs ++ line now (epoch_sealed e elapsed status reason uri usable) s))))
                (λ x. not (elem x (sealed_ids s.epochs))) (started_ids s.epochs)
                (λ x. still_open now (epoch_sealed e elapsed status reason uri usable) s x))
              c.single);
      }

  pub write_superseded-IsConsistent :
      (now e by reason : String) (s : CampaignStore F)
      → IsConsistent s
      → IsConsistent (write now (campaign_superseded e by reason) s)
  write_superseded-IsConsistent now e by reason s c =
      let started = same_started now (campaign_superseded e by reason) refl s in
      let same_sealed : sealed_ids (s.epochs ++ line now (campaign_superseded e by reason) s)
          ≡ sealed_ids s.epochs =
        sealed_ids-append s.epochs (line now (campaign_superseded e by reason) s)
        ∙ append-nil (sealed_ids s.epochs) in
      record {
        own = c.own;
        records = All-append (IsOf s.campaign_id) s.epochs _ c.records (refl, tt);
        starts = rw started c.starts;
        named = rw started c.named;
        single = rw (started, same_sealed) c.single;
      }

  pub set_status-IsConsistent :
      (status : CampaignStatus) (s : CampaignStore F) {t : CampaignStore F}
      → set_status status s ≡ ok t
      → IsConsistent s
      → IsConsistent t
  set_status-IsConsistent status s {t} e c =
      let (m, at, own) = c.own in
      let made : record s { manifest = some (record m { status = status }) } ≡ t =
        ground (arith, at, e) in
      subst IsConsistent made (record {
        own = (record m { status = status }, refl, own);
        records = c.records;
        starts = c.starts;
        named = c.named;
        single = c.single;
      })
