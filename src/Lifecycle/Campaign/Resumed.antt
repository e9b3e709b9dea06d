-- ===== src/Lifecycle/Campaign/Resumed.antt =====
-- lifecycle/campaign.py: starting an epoch, and resuming it.
use autonomous_math_ai.Base.{
  ◌≡◌, refl, sym, false, not, String, Option, some, List, [], ◌∷◌, ◌++◌, elem, string_eq, option_eq,
  arith,
}
use mathlib.Core.List.{append_assoc, append-nil}
use autonomous_math_ai.Base.Float.{Float}
use autonomous_math_ai.Base.Result.{ok, raise_if, >>=-eq-ok}
use autonomous_math_ai.Lifecycle.Campaign.Store.{
  CampaignStatus, active, paused, stopped, completed, superseded, EpochEvent, epoch_started,
  epoch_sealed, campaign_superseded, EpochRecord, CampaignStore, validate_storage_id,
  validate_optional_id, unsealed_epoch, started_ids, sealed_ids, open_ids, write, set_status,
  at_most_one, not_continuable,
}
use autonomous_math_ai.Lifecycle.Campaign.Operations.{
  load, append_epoch_started, start_new, resume, no_epoch_open, is_continuable,
  require_unsealed_epoch, start_of, starts_of,
}
use autonomous_math_ai.Lifecycle.Campaign.Ledger.{
  IsConsistent, started_ids-append, sealed_ids-append,
}
use autonomous_math_ai.Lifecycle.Campaign.Writes.{line, keep-append}
use autonomous_math_ai.Lifecycle.Campaign.Runs.{load-ok, nothing_open}

module _ {F : Type 0} where
  starts_of-append :
      (e : String) (xs ys : List (EpochRecord F))
      → starts_of e (xs ++ ys) ≡ starts_of e xs ++ starts_of e ys
  starts_of-append e [] ys = refl
  starts_of-append e (x ∷ xs) ys =
      rw (starts_of-append e xs ys)
        (sym (append_assoc (start_of e x.event) (starts_of e xs) (starts_of e ys)))

  start_of-none :
      (e : String) (event : EpochEvent F) (rest : List (EpochRecord F))
      (timestamp campaign_id : String)
      → elem e (
          started_ids
            (record { campaign_id = campaign_id; event = event; timestamp = timestamp } ∷ rest))
        ≡ false
      → (start_of e event ≡ []) × (elem e (started_ids rest) ≡ false)
  start_of-none e (epoch_started j previous mode) rest timestamp campaign_id h =
      ground (arith, h, string_eq.beq_iff e j, string_eq.beq_iff j e)
  start_of-none e (epoch_sealed j elapsed status reason uri usable) rest timestamp campaign_id h =
      (refl, h)
  start_of-none e (campaign_superseded j by reason) rest timestamp campaign_id h = (refl, h)

  starts_of-none :
      (e : String) (xs : List (EpochRecord F))
      → elem e (started_ids xs) ≡ false
      → starts_of e xs ≡ []
  starts_of-none e [] h = refl
  starts_of-none e (x ∷ xs) h =
      let (own, rest) = start_of-none e x.event xs x.timestamp x.campaign_id h in
      rw own (starts_of-none e xs rest)

  set_status-epochs :
      (status : CampaignStatus) (s : CampaignStore F) {t : CampaignStore F}
      → set_status status s ≡ ok t
      → t.epochs ≡ s.epochs
  set_status-epochs status s h = ground (arith, h)

module _ {F : Type 0} ⦃f : Float F⦄ where
  resume-epochs :
      (status : CampaignStatus) (s : CampaignStore F) {t : CampaignStore F}
      → resume status s ≡ ok t
      → t.epochs ≡ s.epochs
  resume-epochs paused s h = set_status-epochs active s h
  resume-epochs active s h = ground (arith, h)
  resume-epochs stopped s h = ground (arith, h)
  resume-epochs completed s h = ground (arith, h)
  resume-epochs superseded s h = ground (arith, h)

  -- The ledger after a new start, and that nothing was open before.
  start_new-epochs :
      (now e : String) (previous : Option String) (mode : String) (status : CampaignStatus)
      (s : CampaignStore F) {t : CampaignStore F}
      → start_new now e previous mode status s ≡ ok t
      → (open_ids s.epochs ≡ [])
        × (t.epochs ≡ s.epochs ++ line now (epoch_started e previous mode) s)
  unfolding unsealed_epoch
  start_new-epochs now e previous mode status s h =
      let (found, ids, rest) = >>=-eq-ok (at_most_one (open_ids s.epochs)) _ h in
      let (u, none_open, made) = >>=-eq-ok (no_epoch_open found) _ rest in
      (
        nothing_open (open_ids s.epochs) found ids none_open,
        resume-epochs status (write now (epoch_started e previous mode) s) made,
      )

  -- The ledger with a new start has one start record of the epoch, and it alone is open.
  started_ledger :
      (now e : String) (previous : Option String) (mode : String) (s : CampaignStore F)
      → elem e (started_ids s.epochs) ≡ false
      → elem e (sealed_ids s.epochs) ≡ false
      → open_ids s.epochs ≡ []
      → (starts_of e (s.epochs ++ line now (epoch_started e previous mode) s) ≡ previous ∷ [])
        × (open_ids (s.epochs ++ line now (epoch_started e previous mode) s) ≡ e ∷ [])
  started_ledger now e previous mode s new unsealed none_open = (
    rw
        (
          starts_of-append e s.epochs (line now (epoch_started e previous mode) s),
          starts_of-none e s.epochs new,
          (string_eq.beq_iff e e).1 refl,
        )
        refl,
    rw
        (
          started_ids-append s.epochs (line now (epoch_started e previous mode) s),
          sealed_ids-append s.epochs (line now (epoch_started e previous mode) s),
          append-nil (sealed_ids s.epochs),
          keep-append (λ x. not (elem x (sealed_ids s.epochs))) (started_ids s.epochs) (e ∷ []),
          none_open,
          unsealed,
        )
        refl,
  )

  require-ok :
      (e : String) (previous : Option String) (t : CampaignStore F) {u : Unit {0}}
      → validate_storage_id e ≡ ok u
      → starts_of e t.epochs ≡ previous ∷ []
      → open_ids t.epochs ≡ e ∷ []
      → require_unsealed_epoch e previous t ≡ ok tt
  unfolding require_unsealed_epoch unsealed_epoch
  require-ok e previous t valid one alone =
      rw
        (
          valid,
          one,
          alone,
          (option_eq.beq_iff previous previous).1 refl,
          (string_eq.beq_iff e e).1 refl,
        )
        refl

  -- In a consistent ledger, starting an epoch that the ledger does not know, neither as started nor
  -- as sealed, makes it the one epoch that can be resumed, with the predecessor that it was started
  -- with.
  pub require_unsealed-append_epoch_started :
      (now e : String) (previous : Option String) (mode : String) (s : CampaignStore F)
      {t : CampaignStore F}
      → IsConsistent s
      → append_epoch_started now e previous mode s ≡ ok t
      → elem e (started_ids s.epochs) ≡ false
      → elem e (sealed_ids s.epochs) ≡ false
      → (require_unsealed_epoch e previous t ≡ ok tt) × (unsealed_epoch t ≡ ok (some e))
  unfolding append_epoch_started unsealed_epoch
  require_unsealed-append_epoch_started now e previous mode s {t} c h new unsealed =
      let (u, valid, h1) = >>=-eq-ok (validate_storage_id e) _ h in
      let (v, valid2, h2) = >>=-eq-ok (validate_optional_id previous) _ h1 in
      let (current, loaded, h3) = >>=-eq-ok (load s) _ h2 in
      let (w, live, rest) =
        >>=-eq-ok (raise_if (not (is_continuable current.manifest.status)) not_continuable) _ h3 in
      let (read, loads, same, ids) = load-ok s c.own.0 c.own.1 c in
      let read_ids : current.epochs ≡ started_ids s.epochs = cc (loaded, loads, ids) in
      let absent : elem e current.epochs ≡ false = rw read_ids new in
      let (none_open, grown) =
        start_new-epochs now e previous mode current.manifest.status s (rw absent at rest) in
      let (one, alone) = started_ledger now e previous mode s new unsealed none_open in
      let alone_now : open_ids t.epochs ≡ e ∷ [] = rw grown alone in
      (require-ok e previous t valid (rw grown one) alone_now, rw alone_now refl)
