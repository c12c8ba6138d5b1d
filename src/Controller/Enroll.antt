-- ===== src/Controller/Enroll.antt =====
-- The phases of an automatic enrollment: `enrollDiscovered` and `enrollWaitPublish` of
-- internal/controller/controller.go.
use dnssec_keyrotation.Base.{
  ◌+◌, ◌/◌, String, true, not, ◌||◌, some, List, [], ◌∷◌, nat_eq, string_eq, ◌==◌, if◌then◌else◌,
}
use dnssec_keyrotation.Errors.{Error, new_error, wrap}
use dnssec_keyrotation.Model.{
  is_zero, second, idle, enroll_discovered, enroll_wait_publish, enroll_parent_add, Key, Zone,
  Workflow, State, DnssecData, get_workflow, put_workflow, workflow_key,
}
use dnssec_keyrotation.Api.{
  Controller, DomainDnssec, no_ds_evidence, ds_evidence, authoritative_ds_evidence,
  authoritative_dnskey_evidence, authoritative_rrsig_by, authoritative_dnskey_rrsig_by,
  delegation_evidence,
}
use dnssec_keyrotation.Exec.{
  M, pure, lift, in_context, or_else, now, observe, domain_dnssec, ◌>>=◌, ◌>>◌,
}
use dnssec_keyrotation.Store.{update}
use dnssec_keyrotation.Inventory.Keys.{published_keys, key_scheme, is_csk_scheme}
use dnssec_keyrotation.Inventory.Roles.{dnssec_data_for_key}
use dnssec_keyrotation.Inventory.Enrollment.{validate_enrollment_inventory}
use dnssec_keyrotation.Inventory.Material.{max_duration}
use dnssec_keyrotation.Controller.Moves.{
  transition, transition_now, block, complete, set, clear_evidence,
}
use dnssec_keyrotation.Controller.Prepublish.{is_empty}
use dnssec_keyrotation.Controller.Evidence.{validate_enrollment_evidence}
use dnssec_keyrotation.Controller.Parent.{is_exactly}

abbrev pub not_clean_split : Error
not_clean_split =
    new_error "automatic enrollment requires a clean split KSK/ZSK zone at first discovery"

-- `x.EvidenceAt = time.Time{}; x.DNSKEYTTL = 0`
abbrev pub reset_publication : Workflow → Workflow
reset_publication x = record x { evidence_at = 0; dnskey_ttl = 0 }

module _ (c : Controller) (zone : Zone) (keys : List Key) (w : Workflow) where
  -- the mutation for a zone that turns out to have a CSK
  unfoldable pub ineligible_state : State → M State
  ineligible_state s = do
    let k = workflow_key w.zone w.kind
    at ← now c
    pure (
        put_workflow s k (record (get_workflow s k) {
          phase = idle;
          last_completed_at = at;
          next_action_at = 0;
          enrollment_disposition = "ineligible";
          last_error = some not_clean_split;
        }))

  unfoldable pub discover : M (Unit {0})
  unfolding ineligible_state
  discover = if is_csk_scheme (key_scheme keys) then update c ineligible_state else (do
    found ←
        in_context "waiting for a stable clean split inventory"
          (lift (validate_enrollment_inventory c zone.name keys 0 0 ""))
    at ← now c
    transition c w enroll_discovered (at + c.cfg.enrollment.discovery_grace) (
        set (λ x. record x {
          new_key_id = found.0.id;
          new_zsk_id = found.1.id;
          keyset_fingerprint = found.2;
          evidence_at = 0;
          dnskey_ttl = 0;
        })))

  -- the recorded inventory, read again; a drift blocks with this text in front
  with_recorded : String → (Key × Key × String → M (Unit {0})) → M (Unit {0})
  with_recorded text rest =
      or_else
        (validate_enrollment_inventory c zone.name keys w.new_key_id w.new_zsk_id
          w.keyset_fingerprint)
        (λ e. block c zone.name w.kind (wrap text e)) rest

  -- the same, where a changed zone identity counts as a drift
  unfoldable pub with_zone : String → (Key → Key → M (Unit {0})) → M (Unit {0})
  unfolding with_recorded
  with_zone text rest = with_recorded text λ found.
      if zone.id == w.zone_id
      then rest found.0 found.1
      else block c zone.name w.kind (wrap text (new_error "PowerDNS zone identity changed"))

  -- a registrar that already holds the key
  adopt_existing : Key → Key → DnssecData → DomainDnssec → M (Unit {0})
  adopt_existing ksk zsk expected remote =
      if not (is_exactly remote expected)
      then block c zone.name w.kind
          (new_error "InternetX already contains non-matching DNSSEC material")
      else (do
        in_context "existing enrollment adoption evidence"
            (validate_enrollment_evidence c zone.name keys ksk zsk true)
        in_context "existing enrollment authoritative DS evidence"
            (observe c (authoritative_ds_evidence zone.name (ksk ∷ [])))
        in_context "existing enrollment validating DS evidence"
            (observe c (ds_evidence zone.name (ksk ∷ [])))
        complete c w)

  -- an unsigned delegation
  begin_enrollment : DomainDnssec → M (Unit {0})
  begin_enrollment remote =
      if not (is_empty remote.material)
      then block c zone.name w.kind
          (new_error "InternetX initial enrollment state is not disabled-empty")
      else (do
        in_context "initial enrollment requires proven parent DS absence"
            (observe c (no_ds_evidence zone.name))
        in_context "initial enrollment requires exact parent delegation"
            (observe c (delegation_evidence zone.name c.cfg.dns.expected_nameservers))
        transition_now c w enroll_wait_publish (set reset_publication))

  discovered : Key × Key × String → M (Unit {0})
  unfolding adopt_existing begin_enrollment
  discovered (ksk, zsk, _) =
      if not (zone.id == w.zone_id)
      then block c zone.name w.kind
          (new_error "PowerDNS zone identity changed during enrollment discovery")
      else (do
        remote ← domain_dnssec c zone.name
        expected ← lift (dnssec_data_for_key c.dns zone.name ksk)
        if remote.enabled then adopt_existing ksk zsk expected remote else begin_enrollment remote)

  -- `enrollDiscovered`
  unfoldable pub run_enroll_discovered : M (Unit {0})
  unfolding discover with_recorded discovered
  run_enroll_discovered =
      if w.new_key_id == 0 || w.new_zsk_id == 0 || w.keyset_fingerprint == ""
      then discover
      else with_recorded "enrollment inventory drifted during discovery" discovered

  published : Key → Key → M (Unit {0})
  published ksk zsk = do
    ttl ← observe c (authoritative_dnskey_evidence zone.name (published_keys keys))
    in_context "enrollment KSK DNSKEY signature"
        (observe c (authoritative_dnskey_rrsig_by zone.name ksk))
    in_context "enrollment ZSK zone signature" (observe c (authoritative_rrsig_by zone.name zsk))
    observe c (delegation_evidence zone.name c.cfg.dns.expected_nameservers)
    if is_zero w.evidence_at
        then (do
          at ← now c
          transition c w enroll_wait_publish
              (at
                + (max_duration ttl c.cfg.rotation.minimum_dnskey_wait
                    + c.cfg.controller.propagation_margin))
              (λ x. do
                seen ← now c
                pure (record x { evidence_at = seen; dnskey_ttl = ttl / second })))
        else transition_now c w enroll_parent_add clear_evidence

  -- `enrollWaitPublish`
  unfoldable pub run_enroll_wait_publish : M (Unit {0})
  unfolding with_zone published
  run_enroll_wait_publish =
      with_zone "enrollment inventory drifted during publication wait" published
