-- ===== src/Lifecycle/Campaign/Store.antt =====
-- lifecycle/campaign.py: the store of a campaign and the operations on it. The manifest and the two
-- append-only files are fields of the store; the clock is the argument `now`.
use autonomous_math_ai.Base.{
  ℕ, Bool, false, not, ◌&&◌, ◌||◌, String, Option, none, some, List, [], ◌∷◌, ◌++◌, length, leb,
  nat_beq, all, keep, elem, string_eq, option_eq,
}
use autonomous_math_ai.Base.Text.{codes, between}
use autonomous_math_ai.Base.Result.{Result, ok, raise, raise_if}

pub data CampaignStatus : Type 0 where
  active paused stopped completed superseded : CampaignStatus

pub record CampaignManifest (F : Type 0) : Type 0 where
  pub campaign_id : String
  pub project_id : String
  pub created_at : String
  pub campaign_hours : F
  pub epoch_hours : F
  pub status : CampaignStatus

pub data EpochEvent (F : Type 0) : Type 0 where
  epoch_started : (epoch_id : String) → Option String → (mode : String) → EpochEvent F
  epoch_sealed :
      (epoch_id : String)
      → (elapsed : F) → CampaignStatus
      → (reason uri : String) → Bool
      → EpochEvent F
  campaign_superseded : (epoch_id by reason : String) → EpochEvent F

-- One line of EPOCHS.jsonl
pub record EpochRecord (F : Type 0) : Type 0 where
  pub campaign_id : String
  pub event : EpochEvent F
  pub timestamp : String

-- One line of APPLIED_INPUTS.jsonl
pub record AppliedInput : Type 0 where
  pub epoch_id : String
  pub input_key : String
  pub timestamp : String

pub record CampaignStore (F : Type 0) : Type 0 where
  pub campaign_id : String
  pub manifest : Option (CampaignManifest F)
  pub epochs : List (EpochRecord F)
  pub applied : List AppliedInput

pub record CampaignCheckpoint (F : Type 0) : Type 0 where
  pub manifest : CampaignManifest F
  pub epochs : List String
  pub elapsed_epoch_seconds : F

pub data CampaignError : Type 0 where
  invalid_id no_manifest wrong_campaign foreign_record repeated_start multiple_unsealed :
      CampaignError
  hours_not_positive not_continuable unsealed_epoch_exists invalid_sealed_status no_single_start
        wrong_predecessor not_active_epoch cannot_supersede invalid_input_record :
      CampaignError

abbrev is_id_start : ℕ → Bool
is_id_start c = between 48 57 c || (between 65 90 c || between 97 122 c)

abbrev is_id_char : ℕ → Bool
is_id_char c = is_id_start c || (nat_beq c 46 || (nat_beq c 95 || nat_beq c 45))

abbrev pub is_id : List ℕ → Bool
is_id [] = false
is_id (c ∷ cs) = is_id_start c && (all is_id_char cs && leb (length cs) 199)

-- `validate_storage_id` of storage/__init__.py
unfoldable pub validate_storage_id : String → Result CampaignError (Unit {0})
validate_storage_id value = raise_if (not (is_id (codes value))) invalid_id

abbrev pub validate_optional_id : Option String → Result CampaignError (Unit {0})
validate_optional_id none = ok tt
validate_optional_id (some value) = validate_storage_id value

abbrev pub at_most_one : List String → Result CampaignError (Option String)
at_most_one [] = ok none
at_most_one (e ∷ []) = ok (some e)
at_most_one (e ∷ d ∷ es) = raise multiple_unsealed

module _ {F : Type 0} where
  abbrev pub started_by : EpochEvent F → List String
  started_by (epoch_started e previous mode) = e ∷ []
  started_by (epoch_sealed e elapsed status reason uri usable) = []
  started_by (campaign_superseded e by reason) = []

  abbrev pub sealed_by : EpochEvent F → List String
  sealed_by (epoch_started e previous mode) = []
  sealed_by (epoch_sealed e elapsed status reason uri usable) = e ∷ []
  sealed_by (campaign_superseded e by reason) = []

  abbrev pub started_ids : List (EpochRecord F) → List String
  started_ids [] = []
  started_ids (r ∷ rs) = started_by r.event ++ started_ids rs

  abbrev pub sealed_ids : List (EpochRecord F) → List String
  sealed_ids [] = []
  sealed_ids (r ∷ rs) = sealed_by r.event ++ sealed_ids rs

  -- The epochs that started and were not sealed.
  abbrev pub open_ids : List (EpochRecord F) → List String
  open_ids records = keep (λ e. not (elem e (sealed_ids records))) (started_ids records)

  unfoldable pub unsealed_epoch : CampaignStore F → Result CampaignError (Option String)
  unsealed_epoch s = at_most_one (open_ids s.epochs)

  -- A new line of EPOCHS.jsonl
  abbrev pub write : String → EpochEvent F → CampaignStore F → CampaignStore F
  write now event s = record s {
    epochs =
        s.epochs ++ record { campaign_id = s.campaign_id; event = event; timestamp = now } ∷ [];
  }

  abbrev pub set_status : CampaignStatus → CampaignStore F → Result CampaignError (CampaignStore F)
  set_status status s = elim s.manifest [
    | none ↦ raise no_manifest
    | some m ↦ ok (record s { manifest = some (record m { status = status }) })
  ]
