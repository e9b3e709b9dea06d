-- ===== src/Lifecycle/Campaign/Reach.antt =====
-- lifecycle/campaign.py: any sequence of the operations of the store, from `create` on.
use autonomous_math_ai.Base.{
  ◌≡◌, refl, subst, Bool, ◌||◌, false, String, Option, none, [], has_duplicates, string_eq, arith,
}
use autonomous_math_ai.Base.Float.{Float}
use autonomous_math_ai.Base.Result.{ok, raise_if, >>=-eq-ok}
use autonomous_math_ai.Lifecycle.Campaign.Store.{
  CampaignStatus, CampaignStore, CampaignCheckpoint, unsealed_epoch, started_ids, open_ids,
  hours_not_positive,
}
use autonomous_math_ai.Lifecycle.Campaign.Operations.{
  load, create, create_over, append_epoch_started, append_epoch_sealed, mark_superseded,
  mark_input_applied,
}
use autonomous_math_ai.Lifecycle.Campaign.Runs.{
  load-ok, append_epoch_started-IsConsistent, append_epoch_sealed-IsConsistent,
  mark_superseded-IsConsistent, mark_input_applied-IsConsistent,
}
use autonomous_math_ai.Lifecycle.Campaign.Ledger.{IsConsistent, single-unsealed}

module _ {F : Type 0} ⦃f : Float F⦄ where
  -- A store whose directory is empty.
  abbrev pub empty_store : String → CampaignStore F
  empty_store id = record { campaign_id = id; manifest = none; epochs = []; applied = [] }

  pub data Step (s : CampaignStore F) : CampaignStore F → Type 0 where
    starting :
        {t : CampaignStore F} (now epoch_id : String) (previous : Option String) (mode : String)
        → append_epoch_started now epoch_id previous mode s ≡ ok t
        → Step s t
    sealing :
        {t : CampaignStore F} (now epoch_id : String) (elapsed : F) (status : CampaignStatus)
        (reason uri : String) (usable : Bool)
        → append_epoch_sealed now epoch_id elapsed status reason uri usable s ≡ ok t
        → Step s t
    superseding :
        {t : CampaignStore F} (now by epoch_id reason : String)
        → mark_superseded now by epoch_id reason s ≡ ok t
        → Step s t
    applying :
        {t : CampaignStore F} (now input_key epoch_id : String)
        → mark_input_applied now input_key epoch_id s ≡ ok t
        → Step s t

  pub data Steps (s : CampaignStore F) : CampaignStore F → Type 0 where
    here : Steps s s
    next : {t u : CampaignStore F} → Steps s t → Step t u → Steps s u

  Step-IsConsistent : {s t : CampaignStore F} → Step s t → IsConsistent s → IsConsistent t
  Step-IsConsistent {s} (starting now e previous mode h) c =
      append_epoch_started-IsConsistent now e previous mode s h c
  Step-IsConsistent {s} (sealing now e elapsed status reason uri usable h) c =
      append_epoch_sealed-IsConsistent now e elapsed status reason uri usable s h c
  Step-IsConsistent {s} (superseding now by e reason h) c =
      mark_superseded-IsConsistent now by e reason s h c
  Step-IsConsistent {s} (applying now input_key e h) c =
      mark_input_applied-IsConsistent now input_key e s h c

  Steps-IsConsistent : {s t : CampaignStore F} → Steps s t → IsConsistent s → IsConsistent t
  Steps-IsConsistent here c = c
  Steps-IsConsistent (next steps step) c = Step-IsConsistent step (Steps-IsConsistent steps c)

  create-IsConsistent :
      (now project_id id : String) (campaign_hours epoch_hours : F) {s : CampaignStore F}
      {c : CampaignCheckpoint F}
      → create now project_id campaign_hours epoch_hours (empty_store id) ≡ ok (s, c)
      → IsConsistent s
  unfolding create
  create-IsConsistent now project_id id campaign_hours epoch_hours {s} h =
      let (u, positive, rest) =
        >>=-eq-ok
          (raise_if (f.ge (f.of_ℕ 0) campaign_hours || f.ge (f.of_ℕ 0) epoch_hours)
            hours_not_positive)
          _ h in
      let made = create_over now project_id campaign_hours epoch_hours (empty_store id) none in
      let (loaded, reads, done) = >>=-eq-ok (load made) _ rest in
      let same : made ≡ s = cc done in
      subst IsConsistent same (record {
        own = (_, refl, refl);
        records = tt;
        starts = refl;
        named = refl;
        single = omega arith;
      })

  -- A campaign that was created in an empty directory always loads, whatever operations followed:
  -- its epochs are distinct, in the order of their starts, and asking for the unsealed epoch never
  -- finds two.
  pub campaign_always_loads :
      (now project_id id : String) (campaign_hours epoch_hours : F) {s t : CampaignStore F}
      {c : CampaignCheckpoint F}
      → create now project_id campaign_hours epoch_hours (empty_store id) ≡ ok (s, c)
      → Steps s t
      → ((c : CampaignCheckpoint F) × (load t ≡ ok c)
          × (c.epochs ≡ started_ids t.epochs)
          × (has_duplicates c.epochs ≡ false))
        × ((o : Option String) × (unsealed_epoch t ≡ ok o))
  unfolding unsealed_epoch
  campaign_always_loads now project_id id campaign_hours epoch_hours {t = t} h steps =
      let ready = create-IsConsistent now project_id id campaign_hours epoch_hours h in
      let c = Steps-IsConsistent steps ready in
      let (read, loads, same, ids) = load-ok t c.own.0 c.own.1 c in
      ((read, loads, ids, rw ids c.starts), single-unsealed (open_ids t.epochs) c.single)
