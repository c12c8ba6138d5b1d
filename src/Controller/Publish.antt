-- ===== src/Controller/Publish.antt =====
-- The phases between publication and the retirement wait: `waitPublish`, `activateNew`,
-- `waitNewSignature` and `deactivateOld` of internal/controller/controller.go.
use dnssec_keyrotation.Base.{
  ℕ, ◌+◌, ◌*◌, String, true, ◌&&◌, ◌||◌, Option, none, some, List, [], nat_eq, string_eq,
  if◌then◌else◌, ◌/◌,
}
use dnssec_keyrotation.Errors.{Error, Result, err, new_error, wrapf, wrap}
use dnssec_keyrotation.Model.{
  is_split, is_ksk, wait_publish, activate_new, wait_new_signature, parent_remove, is_zero,
  Duration, second, Key, Zone, Workflow,
}
use dnssec_keyrotation.Api.{Controller}
use dnssec_keyrotation.Exec.{
  M, pure, in_context, or_else, or_missing, now, set_key, observe, ◌>>=◌, ◌>>◌,
}
use dnssec_keyrotation.Inventory.Keys.{by_id, is_missing, recorded_keys, published_keys}
use dnssec_keyrotation.Inventory.Prepublish.{validate_prepublish_inventory}
use dnssec_keyrotation.Inventory.Split.{validate_active_split_inventory}
use dnssec_keyrotation.Inventory.Material.{max_duration}
use dnssec_keyrotation.Controller.Moves.{transition, transition_now, block, clear_evidence}
use dnssec_keyrotation.Controller.Evidence.{dnskey_probe, dnskey_signature_probe}

-- `time.Duration(ttl)*time.Second + margin`
abbrev pub ttl_wait : Controller → ℕ → Duration
ttl_wait c ttl = ttl * second + c.cfg.controller.propagation_margin

-- An inventory that is neither the one before a mutation nor the one after it.
abbrev pub neither : String → Result (Unit {0}) → Result (Unit {0}) → Option Error
neither text (err pre) (err post) = some (wrapf text [] (wrap "pre" pre))
neither text _ _ = none

module _ (c : Controller) (zone : Zone) (keys : List Key) (w : Workflow) where
  -- the overlap signatures that a KSK rotation and a split migration want
  overlap_signatures : Key → Key → M (Unit {0})
  overlap_signatures old new =
      if is_ksk w.kind || is_split w.kind
      then (do
        in_context "old KSK/CSK overlap signature missing"
            (observe c (dnskey_signature_probe w zone.name old))
        in_context "new KSK overlap signature missing"
            (observe c (dnskey_signature_probe w zone.name new))
        pure tt)
      else pure tt

  publish_evidence : Key → Key → M (Unit {0})
  unfolding overlap_signatures
  publish_evidence old new = do
    ttl ← observe c (dnskey_probe w zone.name (published_keys keys))
    overlap_signatures old new
    if is_zero w.evidence_at
        then (do
          at ← now c
          transition c w wait_publish
              (at
                + (max_duration ttl c.cfg.rotation.minimum_dnskey_wait
                    + c.cfg.controller.propagation_margin))
              (λ x. do
                seen ← now c
                pure (record x { dnskey_ttl = ttl / second; evidence_at = seen })))
        else transition_now c w
            (if is_ksk w.kind || is_split w.kind then parent_remove else activate_new)
            clear_evidence

  -- `waitPublish`
  unfoldable pub run_wait_publish : M (Unit {0})
  unfolding publish_evidence
  run_wait_publish =
      or_else (recorded_keys keys w.old_key_id w.new_key_id) (block c zone.name w.kind) λ found.
        if is_split w.kind && is_missing (by_id keys w.new_zsk_id)
        then block c zone.name w.kind (new_error "recorded new ZSK missing")
        else or_else (validate_prepublish_inventory c.dns zone.name keys w)
            (block c zone.name w.kind) λ _. publish_evidence found.0 found.1

  set_active : Key → M (Unit {0})
  set_active k = do
    if k.active then pure tt else set_key c zone.id k true true
    transition_now c w wait_new_signature clear_evidence

  -- the key that signs the zone after the switch
  abbrev pub signer_id : ℕ
  signer_id = if is_split w.kind then w.new_zsk_id else w.new_key_id

  activation_state : Option Error
  activation_state =
      if is_split w.kind
      then neither
          "split activation inventory is neither exact pre-state nor exact post-state; full DNSKEY prepublication recovery may be required"
          (validate_prepublish_inventory c.dns zone.name keys w)
          (validate_active_split_inventory c.dns zone.name keys w)
      else none

  -- `activateNew`
  unfoldable pub run_activate_new : M (Unit {0})
  unfolding set_active activation_state
  run_activate_new =
      or_missing activation_state
        (or_missing (by_id keys signer_id)
          (block c zone.name w.kind (new_error "new signing key missing")) set_active)
        (block c zone.name w.kind)
