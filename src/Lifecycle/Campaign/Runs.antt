-- ===== src/Lifecycle/Campaign/Runs.antt =====
-- lifecycle/campaign.py: the operations on a consistent ledger.
use autonomous_math_ai.Base.{
  ◌≡◌, refl, sym, ap, ◌∙◌, subst, Bool, true, false, not, String, Option, some, List, [], ◌∷◌, ◌++◌,
  elem, string_eq, arith, Bool-cases, inl, inr,
}
use autonomous_math_ai.Base.Text.{codes}
use autonomous_math_ai.Base.Float.{Float, fmax}
use autonomous_math_ai.Base.Result.{Result, ok, raise_if, >>=-eq-ok}
use autonomous_math_ai.Lifecycle.Campaign.Store.{
  CampaignStatus, active, paused, stopped, completed, superseded, CampaignManifest, epoch_started,
  AppliedInput, CampaignStore, CampaignCheckpoint, CampaignError, is_id, invalid_id,
  validate_storage_id, validate_optional_id, unsealed_epoch, started_ids, sealed_ids, open_ids,
  write, at_most_one, not_continuable, invalid_sealed_status, cannot_supersede,
}
use autonomous_math_ai.Lifecycle.Campaign.Operations.{
  load, append_epoch_started, start_new, resume, no_epoch_open, append_epoch_sealed,
  mark_superseded, supersede_live, mark_input_applied, input_keys, is_continuable, is_sealed_status,
  is_supersedable,
}
use autonomous_math_ai.Lifecycle.Campaign.Ledger.{IsConsistent, load_records-ok}
use autonomous_math_ai.Lifecycle.Campaign.Writes.{
  write_start-IsConsistent, write_seal-IsConsistent, write_superseded-IsConsistent,
  set_status-IsConsistent,
}

pub nothing_open :
    (es : List String) (found : Option String) {u : Unit {0}}
    → at_most_one es ≡ ok found
    → no_epoch_open found ≡ ok u
    → es ≡ []
nothing_open [] found h n = refl
nothing_open (e ∷ []) found h n = ground (arith, h, n)
nothing_open (e ∷ d ∷ es) found h n = ground (arith, h)

validate_storage_id-named :
    (e : String) {u : Unit {0}} → validate_storage_id e ≡ ok u → string_eq.beq e "" ≡ false
unfolding validate_storage_id
validate_storage_id-named e h = elim (Bool-cases (string_eq.beq e "")) [
  | inl empty ↦
      let refused : raise_if (not (is_id (codes ""))) invalid_id ≡ ok _ =
        subst (λ (k : String). raise_if (not (is_id (codes k))) invalid_id ≡ ok _)
          ((string_eq.beq_iff e "").0 empty) h in
      ground (arith, refused)
  | inr given ↦ given
]

module _ {F : Type 0} ⦃f : Float F⦄ where
  pub load-ok :
      (s : CampaignStore F) (m : CampaignManifest F)
      → s.manifest ≡ some m
      → IsConsistent s
      → (c : CampaignCheckpoint F) × (load s ≡ ok c)
        × (c.manifest ≡ m)
        × (c.epochs ≡ started_ids s.epochs)
  unfolding load
  load-ok s m at c =
      let (n, there, own) = c.own in
      let same : n ≡ m = ground (arith, at, there) in
      let mine : string_eq.beq m.campaign_id s.campaign_id ≡ true =
        (string_eq.beq_iff m.campaign_id s.campaign_id).1
          (ap (λ (k : CampaignManifest F). k.campaign_id) (sym same) ∙ own) in
      let (t, read) =
        load_records-ok s.campaign_id s.epochs [] (f.of_ℕ 0) c.records c.starts c.named in
      (
        record { manifest = m; epochs = started_ids s.epochs; elapsed_epoch_seconds = t },
        rw (at, mine, read) refl,
        refl,
        refl,
      )

  resume-IsConsistent :
      (status : CampaignStatus) (s : CampaignStore F) {t : CampaignStore F}
      → resume status s ≡ ok t
      → IsConsistent s
      → IsConsistent t
  resume-IsConsistent paused s h c = set_status-IsConsistent active s h c
  resume-IsConsistent active s h c = subst IsConsistent (cc h) c
  resume-IsConsistent stopped s h c = subst IsConsistent (cc h) c
  resume-IsConsistent completed s h c = subst IsConsistent (cc h) c
  resume-IsConsistent superseded s h c = subst IsConsistent (cc h) c

  pub start_new-IsConsistent :
      (now e : String) (previous : Option String) (mode : String) (status : CampaignStatus)
      (s : CampaignStore F) {t : CampaignStore F}
      → start_new now e previous mode status s ≡ ok t
      → elem e (started_ids s.epochs) ≡ false
      → string_eq.beq e "" ≡ false
      → IsConsistent s
      → IsConsistent t
  unfolding unsealed_epoch
  start_new-IsConsistent now e previous mode status s h new named c =
      let (found, ids, rest) = >>=-eq-ok (at_most_one (open_ids s.epochs)) _ h in
      let (u, none_open, made) = >>=-eq-ok (no_epoch_open found) _ rest in
      resume-IsConsistent status (write now (epoch_started e previous mode) s) made (
        write_start-IsConsistent now e previous mode s new named
          (nothing_open (open_ids s.epochs) found ids none_open) c)

  applied-IsConsistent :
      (inputs : List AppliedInput) (s : CampaignStore F)
      → IsConsistent s
      → IsConsistent (record s { applied = inputs })
  applied-IsConsistent inputs s c = record {
    own = c.own;
    records = c.records;
    starts = c.starts;
    named = c.named;
    single = c.single;
  }

  pub mark_input_applied-IsConsistent :
      (now input_key epoch_id : String) (s : CampaignStore F) {t : CampaignStore F}
      → mark_input_applied now input_key epoch_id s ≡ ok t
      → IsConsistent s
      → IsConsistent t
  unfolding mark_input_applied
  mark_input_applied-IsConsistent now input_key epoch_id s {t} h c =
      elim (Bool-cases (string_eq.beq input_key "")) [
        | inl empty ↦ let same : s ≡ t = ground (arith, h, empty) in subst IsConsistent same c
        | inr given ↦
            let (keys, read, done) = >>=-eq-ok (input_keys s.applied) _ (rw given at h) in
            elim (Bool-cases (elem input_key keys)) [
              | inl known ↦
                  let same : s ≡ t = ground (arith, done, known) in subst IsConsistent same c
              | inr new ↦
                  let made : record s {
                    applied =
                        s.applied
                        ++ record { epoch_id = epoch_id; input_key = input_key; timestamp = now }
                          ∷ [];
                  }
                      ≡ t =
                    ground (arith, done, new) in
                  subst IsConsistent made (applied-IsConsistent _ s c)
            ]
      ]

  pub append_epoch_started-IsConsistent :
      (now e : String) (previous : Option String) (mode : String) (s : CampaignStore F)
      {t : CampaignStore F}
      → append_epoch_started now e previous mode s ≡ ok t
      → IsConsistent s
      → IsConsistent t
  unfolding append_epoch_started
  append_epoch_started-IsConsistent now e previous mode s {t} h c =
      let (u, valid, h1) = >>=-eq-ok (validate_storage_id e) _ h in
      let (v, valid2, h2) = >>=-eq-ok (validate_optional_id previous) _ h1 in
      let (current, loaded, h3) = >>=-eq-ok (load s) _ h2 in
      let (w, live, rest) =
        >>=-eq-ok (raise_if (not (is_continuable current.manifest.status)) not_continuable) _ h3 in
      let (read, loads, same, ids) = load-ok s c.own.0 c.own.1 c in
      let read_ids : current.epochs ≡ started_ids s.epochs = cc (loaded, loads, ids) in
      elim (Bool-cases (elem e current.epochs)) [
        | inl known ↦ let kept : s ≡ t = ground (arith, rest, known) in subst IsConsistent kept c
        | inr new ↦
            start_new-IsConsistent now e previous mode current.manifest.status s (rw new at rest)
              (rw read_ids at new) (validate_storage_id-named e valid) c
      ]

  pub append_epoch_sealed-IsConsistent :
      (now e : String) (elapsed : F) (status : CampaignStatus) (reason uri : String) (usable : Bool)
      (s : CampaignStore F) {t : CampaignStore F}
      → append_epoch_sealed now e elapsed status reason uri usable s ≡ ok t
      → IsConsistent s
      → IsConsistent t
  unfolding append_epoch_sealed
  append_epoch_sealed-IsConsistent now e elapsed status reason uri usable s {t} h c =
      let (u, valid, h1) = >>=-eq-ok (validate_storage_id e) _ h in
      let (v, fits, rest) =
        >>=-eq-ok (raise_if (not (is_sealed_status status)) invalid_sealed_status) _ h1 in
      elim (Bool-cases (elem e (sealed_ids s.epochs))) [
        | inl known ↦ let kept : s ≡ t = ground (arith, rest, known) in subst IsConsistent kept c
        | inr new ↦
            set_status-IsConsistent status _ (rw new at rest)
              (write_seal-IsConsistent now e (fmax (f.of_ℕ 0) elapsed) status reason uri usable s c)
      ]

  supersede_live-IsConsistent :
      (now by e reason : String) (status : CampaignStatus) (s : CampaignStore F)
      {t : CampaignStore F}
      → supersede_live now by e reason status s ≡ ok t
      → IsConsistent s
      → IsConsistent t
  supersede_live-IsConsistent now by e reason status s h c =
      let (v, fits, rest) =
        >>=-eq-ok (raise_if (not (is_supersedable status)) cannot_supersede) _ h in
      set_status-IsConsistent superseded _ rest (write_superseded-IsConsistent now e by reason s c)

  supersede_over :
      (now by e reason : String) (status : CampaignStatus) (s : CampaignStore F)
      {t : CampaignStore F}
      → elim status as (λ x. Result CampaignError (CampaignStore F)) [
        | superseded ↦ ok s
        | other ↦ supersede_live now by e reason other s
      ]
        ≡ ok t
      → IsConsistent s
      → IsConsistent t
  supersede_over now by e reason superseded s h c = subst IsConsistent (cc h) c
  supersede_over now by e reason active s h c =
      supersede_live-IsConsistent now by e reason active s h c
  supersede_over now by e reason paused s h c =
      supersede_live-IsConsistent now by e reason paused s h c
  supersede_over now by e reason stopped s h c =
      supersede_live-IsConsistent now by e reason stopped s h c
  supersede_over now by e reason completed s h c =
      supersede_live-IsConsistent now by e reason completed s h c

  pub mark_superseded-IsConsistent :
      (now by e reason : String) (s : CampaignStore F) {t : CampaignStore F}
      → mark_superseded now by e reason s ≡ ok t
      → IsConsistent s
      → IsConsistent t
  unfolding mark_superseded
  mark_superseded-IsConsistent now by e reason s h c =
      let (u, valid, h1) = >>=-eq-ok (validate_storage_id by) _ h in
      let (v, valid2, h2) = >>=-eq-ok (validate_storage_id e) _ h1 in
      let (current, loaded, rest) = >>=-eq-ok (load s) _ h2 in
      supersede_over now by e reason current.manifest.status s rest c
