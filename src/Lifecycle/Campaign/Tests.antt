-- ===== src/Lifecycle/Campaign/Tests.antt =====
-- lifecycle/campaign.py on a concrete campaign with one epoch.
use autonomous_math_ai.Base.{
  ℕ, ◌≡◌, refl, true, false, String, Option, none, some, [], ◌∷◌, has_duplicates, string_eq, arith,
}
use autonomous_math_ai.Base.NatFloat.{nat_float}
use autonomous_math_ai.Base.Result.{ok}
use autonomous_math_ai.Lifecycle.Campaign.Store.{
  CampaignManifest, CampaignStore, CampaignCheckpoint, active, paused, epoch_started, epoch_sealed,
  EpochRecord, started_ids, unsealed_epoch, validate_storage_id,
}
use autonomous_math_ai.Lifecycle.Campaign.Operations.{
  load, load_records, create, append_epoch_started, append_epoch_sealed, require_unsealed_epoch,
}
use autonomous_math_ai.Lifecycle.Campaign.Ledger.{IsConsistent}
use autonomous_math_ai.Lifecycle.Campaign.Resumed.{require_unsealed-append_epoch_started}
use autonomous_math_ai.Lifecycle.Campaign.Reach.{
  empty_store, Steps, here, next, starting, sealing, campaign_always_loads,
}

abbrev manifest : CampaignManifest ℕ
manifest = record {
  campaign_id = "camp";
  project_id = "project";
  created_at = "t0";
  campaign_hours = 5;
  epoch_hours = 2;
  status = active;
}

abbrev made : CampaignStore ℕ
made = record (empty_store "camp") { manifest = some manifest }

creation :
    create "t0" "project" 5 2 (empty_store "camp")
    ≡ ok (made, record { manifest = manifest; epochs = []; elapsed_epoch_seconds = 0 })
unfolding create load load_records
creation = refl

abbrev start : EpochRecord ℕ
start = record {
  campaign_id = "camp";
  event = epoch_started "epoch-1" none "fresh";
  timestamp = "t1";
}

abbrev running : CampaignStore ℕ
running = record made { epochs = start ∷ [] }

started : append_epoch_started "t1" "epoch-1" none "fresh" made ≡ ok running
unfolding append_epoch_started validate_storage_id load load_records unsealed_epoch
started = refl

abbrev seal : EpochRecord ℕ
seal = record {
  campaign_id = "camp";
  event = epoch_sealed "epoch-1" 7200 paused "time" "epoch://epoch-1/checkpoint" true;
  timestamp = "t2";
}

abbrev sealed : CampaignStore ℕ
sealed = record made {
  manifest = some (record manifest { status = paused });
  epochs = start ∷ seal ∷ [];
}

sealing_done :
    append_epoch_sealed "t2" "epoch-1" 7200 paused "time" "epoch://epoch-1/checkpoint" true running
    ≡ ok sealed
unfolding append_epoch_sealed validate_storage_id
sealing_done = refl

run : Steps made sealed
run =
    next (next here (starting "t1" "epoch-1" none "fresh" started))
      (sealing "t2" "epoch-1" 7200 paused "time" "epoch://epoch-1/checkpoint" true sealing_done)

campaign_always_loads_example :
    ((c : CampaignCheckpoint ℕ) × (load sealed ≡ ok c)
      × (c.epochs ≡ started_ids sealed.epochs)
      × (has_duplicates c.epochs ≡ false))
    × ((o : Option String) × (unsealed_epoch sealed ≡ ok o))
campaign_always_loads_example = campaign_always_loads "t0" "project" "camp" 5 2 creation run

made-IsConsistent : IsConsistent made
made-IsConsistent = record {
  own = (manifest, refl, refl);
  records = tt;
  starts = refl;
  named = refl;
  single = omega arith;
}

require_unsealed-append_epoch_started_example :
    (require_unsealed_epoch "epoch-1" none running ≡ ok tt)
    × (unsealed_epoch running ≡ ok (some "epoch-1"))
require_unsealed-append_epoch_started_example =
    require_unsealed-append_epoch_started "t1" "epoch-1" none "fresh" made made-IsConsistent started
      refl refl
