-- ===== src/Controller/Signature.antt =====
-- The wait for the new signer and the switch of the old key: `waitNewSignature` and `deactivateOld` of
-- internal/controller/controller.go.
use dnssec_keyrotation.Base.{
  ℕ, ◌+◌, Bool, true, false, not, ◌&&◌, List, [], ◌∷◌, nat_eq, string_eq, ◌==◌, ltb, if◌then◌else◌,
}
use dnssec_keyrotation.Errors.{Result, new_error, is_ok}
use dnssec_keyrotation.Model.{
  is_split, is_ksk, is_zsk, wait_new_signature, deactivate_old, wait_retire, delete_old, is_zero,
  before, Key, Zone, Workflow,
}
use dnssec_keyrotation.Api.{Controller, dnskey_evidence, ds_evidence, rrsig_by, dnskey_rrsig_by}
use dnssec_keyrotation.Exec.{
  or_missing, M, pure, lift, in_context, now, set_key, get_zone, observe, ◌>>=◌, ◌>>◌,
}
use dnssec_keyrotation.Inventory.Keys.{by_id, recorded_keys, published_keys}
use dnssec_keyrotation.Inventory.Split.{
  validate_active_split_inventory, validate_deactivated_split_inventory,
}
use dnssec_keyrotation.Inventory.Material.{max_ttl}
use dnssec_keyrotation.Controller.Moves.{
  transition, transition_now, block, set, clear_evidence, unchanged,
}
use dnssec_keyrotation.Controller.Evidence.{validate_split_signer_transition_evidence}
use dnssec_keyrotation.Controller.Publish.{ttl_wait, neither, signer_id}

abbrev pub is_live : Key → Bool
is_live k = k.active && k.published

module _ (c : Controller) (zone : Zone) (keys : List Key) (w : Workflow) where
  -- the wait that starts again when the zone's maximum TTL has grown
  restart_wait : ℕ → M (Unit {0})
  restart_wait current = do
    at ← now c
    transition c w wait_new_signature (at + ttl_wait c current) (
        set
          (λ x. record x { zone_ttl = current; evidence_at = at; split_signer_transition_at = at }))

  finish_wait : M (Unit {0})
  finish_wait = transition_now c w deactivate_old clear_evidence

  record_zone_ttl : M (Unit {0})
  record_zone_ttl = do
    detail ← get_zone c zone.id
    if max_ttl detail == 0
        then block c zone.name w.kind (new_error "zone maximum TTL is zero")
        else transition_now c w wait_new_signature
            (set (λ x. record x { zone_ttl = max_ttl detail }))

  -- the wait with the old CSK still signing
  overlap_wait : Key → M (Unit {0})
  unfolding finish_wait
  overlap_wait old = do
    in_context "old CSK overlap signature missing" (observe c (rrsig_by zone.name old))
    if is_zero w.evidence_at
        then (do
          at ← now c
          transition c w wait_new_signature (at + ttl_wait c w.zone_ttl)
              (λ x. do seen ← now c; pure (record x { evidence_at = seen })))
        else finish_wait

  -- the wait after an attested signer-role transition
  attested_wait : M (Unit {0})
  unfolding finish_wait restart_wait
  attested_wait = do
    at ← now c
    let deadline = w.split_signer_transition_at + ttl_wait c w.zone_ttl
    if before at deadline then transition c w wait_new_signature deadline unchanged else (do
      current ←
          in_context "split signer-transition evidence"
            (validate_split_signer_transition_evidence c zone keys w)
      if ltb w.zone_ttl current then restart_wait current else finish_wait)

  signer_found : Key → Key → M (Unit {0})
  unfolding overlap_wait attested_wait record_zone_ttl finish_wait
  signer_found old signer = do
    observe c (rrsig_by zone.name signer)
    if not (is_live signer)
        then block c zone.name w.kind (new_error "new signing key is not active and published")
        else if w.zone_ttl == 0
        then record_zone_ttl
        else if is_split w.kind
        then (if is_zero w.split_signer_transition_at then overlap_wait old else attested_wait)
        else finish_wait

  -- `waitNewSignature`
  unfoldable pub run_wait_new_signature : M (Unit {0})
  unfolding signer_found
  run_wait_new_signature = do
    found ← lift (recorded_keys keys w.old_key_id w.new_key_id)
    or_missing (by_id keys (signer_id c zone keys w))
        (block c zone.name w.kind (new_error "new signer missing")) (signer_found found.0)

  -- Deactivates the old key, if it still is active, and moves on.
  switch_old : Key → M (Unit {0})
  switch_old old = do
    if old.active then set_key c zone.id old false true else pure tt
    if is_ksk w.kind
        then transition_now c w delete_old unchanged
        else (do at ← now c; transition c w wait_retire (at + ttl_wait c w.zone_ttl) unchanged)

  -- the zone's TTL, which must not have grown since it was recorded
  unfoldable pub check_ttl : Key → M (Unit {0})
  unfolding switch_old
  check_ttl old = if is_ksk w.kind then switch_old old else (do
    detail ← get_zone c zone.id
    let current = max_ttl detail
    if current == 0
        then block c zone.name w.kind (new_error "zone maximum TTL is zero")
        else if ltb w.zone_ttl current
        then (do
          at ← now c
          transition c w deactivate_old (at + ttl_wait c current)
              (λ x. do seen ← now c; pure (record x { zone_ttl = current; evidence_at = seen })))
        else switch_old old)

  -- the evidence that the replacement key serves the zone
  unfoldable pub replacement_evidence : Key → M (Unit {0})
  replacement_evidence new =
      if is_zsk w.kind
      then in_context "new ZSK signature missing before old-key deactivation"
          (observe c (rrsig_by zone.name new))
        >> pure tt
      else (do
        in_context "new KSK signature missing before old-key deactivation"
            (observe c (dnskey_rrsig_by zone.name new))
        in_context "parent DS evidence missing before old-key deactivation"
            (observe c (ds_evidence zone.name (new ∷ [])))
        pure tt)

  unfoldable pub replacement_zsk : M (Unit {0})
  replacement_zsk =
      or_missing (by_id keys w.new_zsk_id)
        (block c zone.name w.kind (new_error "replacement ZSK is not active and published"))
        (λ z.
          if is_live z
          then in_context "new ZSK signature missing before CSK deactivation"
              (observe c (rrsig_by zone.name z))
            >> pure tt
          else block c zone.name w.kind (new_error "replacement ZSK is not active and published"))

  unfoldable pub deactivate_recorded : Key × Key → M (Unit {0})
  unfolding replacement_evidence replacement_zsk check_ttl
  deactivate_recorded (old, new) =
      if not (is_live new)
      then block c zone.name w.kind (new_error "replacement key is not active and published")
      else (do
        replacement_evidence new
        if is_split w.kind then replacement_zsk else pure tt
        in_context "replacement DNSKEY evidence missing before old-key deactivation"
            (observe c (dnskey_evidence zone.name (published_keys keys)))
        check_ttl old)

  -- the part that follows the checks of a split migration
  unfoldable pub deactivate_checked : M (Unit {0})
  unfolding deactivate_recorded
  deactivate_checked = do
    found ← lift (recorded_keys keys w.old_key_id w.new_key_id)
    deactivate_recorded found

  -- the evidence of an attested signer-role transition, read again
  refresh_split : M (Unit {0})
  unfolding deactivate_checked restart_wait
  refresh_split = do
    current ←
        in_context "split signer-transition evidence before old-key deactivation"
          (validate_split_signer_transition_evidence c zone keys w)
    if ltb w.zone_ttl current then restart_wait current else deactivate_checked

  -- The split part: the inventory before or after the switch, and fresh evidence where a signer-role
  -- transition was attested and the old key is still active.
  deactivate_split : Result (Unit {0}) → Result (Unit {0}) → M (Unit {0})
  unfolding deactivate_checked refresh_split
  deactivate_split pre post =
      or_missing
        (neither "split deactivation inventory is neither exact pre-state nor exact post-state" pre
          post)
        (if not (is_zero w.split_signer_transition_at) && is_ok pre
          then refresh_split
          else deactivate_checked)
        (block c zone.name w.kind)

  -- `deactivateOld`
  unfoldable pub run_deactivate_old : M (Unit {0})
  unfolding deactivate_split deactivate_checked
  run_deactivate_old =
      if is_split w.kind
      then deactivate_split (validate_active_split_inventory c.dns zone.name keys w)
          (validate_deactivated_split_inventory c.dns zone.name keys w)
      else deactivate_checked
