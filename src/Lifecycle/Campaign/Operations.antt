-- ===== src/Lifecycle/Campaign/Operations.antt =====
-- lifecycle/campaign.py: the operations of the store. Where the manifest is missing an operation
-- raises, and what it wrote before that is not in the result.
use autonomous_math_ai.Base.{
  Bool, true, false, not, ◌||◌, String, Option, none, some, List, [], ◌∷◌, ◌++◌, elem,
  if◌then◌else◌, string_eq, ◌==◌, option_eq,
}
use autonomous_math_ai.Base.Float.{Float, fmax}
use autonomous_math_ai.Base.Result.{Result, ok, raise, ◌>>=◌, ◌>>◌, raise_if}
use autonomous_math_ai.Lifecycle.Campaign.Store.{
  CampaignStatus, active, paused, stopped, completed, superseded, CampaignManifest, EpochEvent,
  epoch_started, epoch_sealed, campaign_superseded, EpochRecord, AppliedInput, CampaignStore,
  CampaignCheckpoint, CampaignError, no_manifest, wrong_campaign, foreign_record, repeated_start,
  hours_not_positive, not_continuable, unsealed_epoch_exists, invalid_sealed_status,
  no_single_start, wrong_predecessor, not_active_epoch, cannot_supersede, invalid_input_record,
  validate_storage_id, validate_optional_id, unsealed_epoch, sealed_ids, write, set_status,
}

-- `status in {"ACTIVE", "PAUSED"}`
abbrev pub is_continuable : CampaignStatus → Bool
is_continuable active = true
is_continuable paused = true
is_continuable _ = false

-- `status in {"PAUSED", "STOPPED", "COMPLETED"}`
abbrev pub is_sealed_status : CampaignStatus → Bool
is_sealed_status paused = true
is_sealed_status stopped = true
is_sealed_status completed = true
is_sealed_status _ = false

-- `status in {"ACTIVE", "PAUSED", "STOPPED"}`
abbrev pub is_supersedable : CampaignStatus → Bool
is_supersedable active = true
is_supersedable paused = true
is_supersedable stopped = true
is_supersedable _ = false

-- The EPOCH_STARTED records of an epoch, by their predecessors.
abbrev pub start_of : {F : Type 0} → String → EpochEvent F → List (Option String)
start_of epoch_id (epoch_started e previous mode) = if e == epoch_id then previous ∷ [] else []
start_of epoch_id (epoch_sealed e elapsed status reason uri usable) = []
start_of epoch_id (campaign_superseded e by reason) = []

abbrev pub starts_of : {F : Type 0} → String → List (EpochRecord F) → List (Option String)
starts_of epoch_id [] = []
starts_of epoch_id (r ∷ rs) = start_of epoch_id r.event ++ starts_of epoch_id rs

-- The predecessor in the one start record that there must be.
abbrev pub single_start : List (Option String) → Result CampaignError (Option String)
single_start (previous ∷ []) = ok previous
single_start [] = raise no_single_start
single_start (p ∷ q ∷ more) = raise no_single_start

abbrev pub no_epoch_open : Option String → Result CampaignError (Unit {0})
no_epoch_open none = ok tt
no_epoch_open (some e) = raise unsealed_epoch_exists

-- `applied_inputs`
abbrev pub input_keys : List AppliedInput → Result CampaignError (List String)
input_keys [] = ok []
input_keys (r ∷ rs) = do
  raise_if (r.input_key == "") invalid_input_record
  keys ← input_keys rs
  ok (r.input_key ∷ keys)

module _ {F : Type 0} ⦃f : Float F⦄ where
  -- One record in the loop of `load`.
  abbrev pub load_event : EpochEvent F → List String → F → Result CampaignError (List String × F)
  load_event (epoch_started e previous mode) epochs elapsed =
      if e == "" || elem e epochs then raise repeated_start else ok (epochs ++ e ∷ [], elapsed)
  load_event (epoch_sealed e seconds status reason uri usable) epochs elapsed =
      ok (epochs, f.add elapsed (fmax (f.of_ℕ 0) seconds))
  load_event (campaign_superseded e by reason) epochs elapsed = ok (epochs, elapsed)

  unfoldable pub load_records :
      String → List (EpochRecord F) → List String → F → Result CampaignError (List String × F)
  load_records campaign_id [] epochs elapsed = ok (epochs, elapsed)
  load_records campaign_id (r ∷ rs) epochs elapsed = do
    raise_if (not (r.campaign_id == campaign_id)) foreign_record
    next ← load_event r.event epochs elapsed
    load_records campaign_id rs next.0 next.1

  abbrev pub load_over :
      CampaignStore F → Option (CampaignManifest F) → Result CampaignError (CampaignCheckpoint F)
  load_over s none = raise no_manifest
  load_over s (some m) = do
    raise_if (not (m.campaign_id == s.campaign_id)) wrong_campaign
    read ← load_records s.campaign_id s.epochs [] (f.of_ℕ 0)
    ok (record { manifest = m; epochs = read.0; elapsed_epoch_seconds = read.1 })

  unfoldable pub load : CampaignStore F → Result CampaignError (CampaignCheckpoint F)
  load s = load_over s s.manifest

  -- `remaining_seconds`
  abbrev pub remaining_seconds : CampaignCheckpoint F → F
  remaining_seconds c =
      fmax (f.of_ℕ 0)
        (f.sub (f.mul c.manifest.campaign_hours (f.of_ℕ 3600)) c.elapsed_epoch_seconds)

  abbrev pub create_over :
      String → String → F → F → CampaignStore F → Option (CampaignManifest F) → CampaignStore F
  create_over now project_id campaign_hours epoch_hours s (some m) = s
  create_over now project_id campaign_hours epoch_hours s none = record s {
    manifest = some (record {
      campaign_id = s.campaign_id;
      project_id = project_id;
      created_at = now;
      campaign_hours = campaign_hours;
      epoch_hours = epoch_hours;
      status = active;
    });
  }

  unfoldable pub create :
      String
      → String
      → F
      → F
      → CampaignStore F
      → Result CampaignError (CampaignStore F × CampaignCheckpoint F)
  create now project_id campaign_hours epoch_hours s = do
    raise_if (f.ge (f.of_ℕ 0) campaign_hours || f.ge (f.of_ℕ 0) epoch_hours) hours_not_positive
    let made = create_over now project_id campaign_hours epoch_hours s s.manifest
    loaded ← load made
    ok (made, loaded)

  -- A PAUSED campaign that goes on is ACTIVE.
  abbrev pub resume : CampaignStatus → CampaignStore F → Result CampaignError (CampaignStore F)
  resume paused s = set_status active s
  resume active s = ok s
  resume stopped s = ok s
  resume completed s = ok s
  resume superseded s = ok s

  -- The last part of `append_epoch_started`, for an epoch that has not started.
  abbrev pub start_new :
      String
      → String
      → Option String
      → String
      → CampaignStatus
      → CampaignStore F
      → Result CampaignError (CampaignStore F)
  start_new now epoch_id previous mode status s = do
    found ← unsealed_epoch s
    no_epoch_open found
    resume status (write now (epoch_started epoch_id previous mode) s)

  unfoldable pub append_epoch_started :
      String
      → String
      → Option String
      → String
      → CampaignStore F
      → Result CampaignError (CampaignStore F)
  append_epoch_started now epoch_id previous mode s = do
    validate_storage_id epoch_id
    validate_optional_id previous
    current ← load s
    raise_if (not (is_continuable current.manifest.status)) not_continuable
    if elem epoch_id current.epochs
        then ok s
        else start_new now epoch_id previous mode current.manifest.status s

  unfoldable pub append_epoch_sealed :
      String
      → String
      → F
      → CampaignStatus
      → (reason uri : String) → Bool
      → CampaignStore F
      → Result CampaignError (CampaignStore F)
  append_epoch_sealed now epoch_id elapsed status reason uri usable s = do
    validate_storage_id epoch_id
    raise_if (not (is_sealed_status status)) invalid_sealed_status
    if elem epoch_id (sealed_ids s.epochs)
        then ok s
        else set_status status
            (write now (epoch_sealed epoch_id (fmax (f.of_ℕ 0) elapsed) status reason uri usable) s)

  unfoldable pub require_unsealed_epoch :
      String → Option String → CampaignStore F → Result CampaignError (Unit {0})
  require_unsealed_epoch epoch_id previous s = do
    validate_storage_id epoch_id
    found ← single_start (starts_of epoch_id s.epochs)
    raise_if (not (found == previous)) wrong_predecessor
    current ← unsealed_epoch s
    raise_if (not (current == some epoch_id)) not_active_epoch

  abbrev pub supersede_live :
      String
      → (by epoch_id reason : String) → CampaignStatus
      → CampaignStore F
      → Result CampaignError (CampaignStore F)
  supersede_live now by epoch_id reason status s = do
    raise_if (not (is_supersedable status)) cannot_supersede
    set_status superseded (write now (campaign_superseded epoch_id by reason) s)

  unfoldable pub mark_superseded :
      String
      → (by epoch_id reason : String) → CampaignStore F
      → Result CampaignError (CampaignStore F)
  mark_superseded now by epoch_id reason s = do
    validate_storage_id by
    validate_storage_id epoch_id
    current ← load s
    elim current.manifest.status [
      | superseded ↦ ok s
      | status ↦ supersede_live now by epoch_id reason status s
    ]

module _ {F : Type 0} where
  unfoldable pub mark_input_applied :
      String
      → (input_key epoch_id : String) → CampaignStore F
      → Result CampaignError (CampaignStore F)
  mark_input_applied now input_key epoch_id s = if input_key == "" then ok s else do
    keys ← input_keys s.applied
    ok (
        if elem input_key keys then s else record s {
          applied =
              s.applied
              ++ record { epoch_id = epoch_id; input_key = input_key; timestamp = now } ∷ [];
        })
