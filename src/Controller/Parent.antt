-- ===== src/Controller/Parent.antt =====
-- The change of the parent's DS through the registrar: `parentReplace`, `waitParentReplace` and
-- `reconcileUnavailableRegistrarJob` of internal/controller/controller.go.
use dnssec_keyrotation.Base.{
  ◌+◌, ◌*◌, ◌/◌, String, Bool, not, ◌&&◌, ◌||◌, List, [], ◌∷◌, nat_eq, string_eq, ◌==◌, ltb,
  if◌then◌else◌,
}
use dnssec_keyrotation.Errors.{Error, errorf, new_error, num, str, is_error, wrap}
use dnssec_keyrotation.Model.{
  is_split, kind_text, Phase, parent_remove, wait_parent_remove, deactivate_old, activate_new,
  is_zero, elapsed, hour, Time, second, Key, Zone, Workflow, State, DnssecData, get_workflow,
  put_workflow, workflow_key,
}
use dnssec_keyrotation.Api.{
  Controller, Job, DomainDnssec, Probe, ds_evidence, authoritative_ds_evidence, dnskey_evidence,
  rrsig_by, authoritative_rrsig_by, dnskey_rrsig_by, no_ds_evidence,
}
use dnssec_keyrotation.Exec.{
  M, pure, fail, lift, in_context, attempt, or_else, now, observe, domain_dnssec, update_dnssec,
  job_status, ◌>>=◌, ◌>>◌,
}
use dnssec_keyrotation.Store.{update}
use dnssec_keyrotation.Inventory.Keys.{recorded_keys, published_keys}
use dnssec_keyrotation.Inventory.Roles.{dnssec_data_for_key}
use dnssec_keyrotation.Inventory.Prepublish.{validate_prepublish_inventory}
use dnssec_keyrotation.Inventory.Material.{same_material, max_duration, job_succeeded, job_failed}
use dnssec_keyrotation.Controller.Moves.{transition, transition_now, block, set, clear_evidence}
use dnssec_keyrotation.Controller.Prepublish.{is_empty}
use dnssec_keyrotation.Controller.Evidence.{is_initial_split, dnskey_probe, dnskey_signature_probe}
use dnssec_keyrotation.Controller.Signature.{is_live}

-- the text of `autodns.ErrJobUnavailable`
abbrev pub job_unavailable : String
job_unavailable = "autodns job is no longer available"

-- `remote.Enabled && sameMaterial(remote.Data, []model.DNSSECData{data})`
abbrev pub is_exactly : DomainDnssec → DnssecData → Bool
is_exactly remote expected = remote.enabled && same_material remote.material (expected ∷ [])

-- the write of an acknowledged job
abbrev pub record_job : Job → Workflow → Workflow
record_job job x = record x {
  registrar_stid = job.stid;
  registrar_job_id = job.id;
  registrar_job_status = job.status;
  evidence_at = 0;
}

-- The zone signature that the old CSK must still make.
abbrev pub old_signer_probe : Workflow → String → Key → Probe
old_signer_probe w zone key =
    if is_initial_split w then authoritative_rrsig_by zone key else rrsig_by zone key

module _ (c : Controller) (zone : Zone) (keys : List Key) (w : Workflow) where
  -- the mutation that records the intent to write
  unfoldable pub attempt_state : Time → State → State
  attempt_state at s =
      let k = workflow_key w.zone w.kind in
      put_workflow s k (record (get_workflow s k) { registrar_attempted_at = at })

  -- The intent is persisted before the write is sent.
  unfoldable pub submit : DnssecData → M (Unit {0})
  unfolding attempt_state
  submit new_data = do
    at ← now c
    update c (λ s. pure (attempt_state at s))
    job ← update_dnssec c zone.name (new_data ∷ []) w.registrar_ctid
    transition_now c w wait_parent_remove (set (record_job job))

  -- An earlier attempt is never repeated.
  unfoldable pub submit_once : DnssecData → M (Unit {0})
  unfolding submit
  submit_once new_data = if is_zero w.registrar_attempted_at then submit new_data else (do
    at ← now c
    if elapsed at w.registrar_attempted_at (24 * hour)
        then block c zone.name w.kind (
            new_error
              "ambiguous InternetX write did not converge within 24h; manual reconciliation required")
        else fail (
            new_error
              "InternetX write outcome is ambiguous; waiting for read-back without resubmitting"))

  -- what the registrar must hold before the write
  unfoldable pub check_remote : DnssecData → DnssecData → DomainDnssec → M (Unit {0})
  unfolding submit_once
  check_remote old_data new_data remote =
      if is_exactly remote new_data
      then transition_now c w wait_parent_remove clear_evidence
      else if is_initial_split w
      then (if remote.enabled || not (is_empty remote.material)
          then block c zone.name w.kind
              (new_error "InternetX initial DNSSEC state changed before write")
          else (do
            absence ← attempt (observe c (no_ds_evidence zone.name))
            or_else absence
                (λ e.
                  block c zone.name w.kind
                    (wrap "parent DS appeared before initial InternetX write" e))
                (λ _. submit_once new_data)))
      else if not (is_exactly remote old_data)
      then block c zone.name w.kind
          (new_error "InternetX material is not the exact active old KSK/CSK")
      else submit_once new_data

  unfoldable pub old_signature : Key → M (Unit {0})
  old_signature old =
      if is_split w.kind
      then in_context "old CSK zone signature missing immediately before parent write"
          (observe c (old_signer_probe w zone.name old))
        >> pure tt
      else pure tt

  unfoldable pub replace_recorded : Key × Key → M (Unit {0})
  unfolding check_remote old_signature
  replace_recorded (old, new) =
      or_else (validate_prepublish_inventory c.dns zone.name keys w) (block c zone.name w.kind) λ _.
        do
          in_context "exact DNSKEY evidence missing immediately before parent write"
              (observe c (dnskey_probe w zone.name (published_keys keys)))
          in_context "new KSK signature missing"
              (observe c (dnskey_signature_probe w zone.name new))
          old_signature old
          old_data ← lift (dnssec_data_for_key c.dns zone.name old)
          new_data ← lift (dnssec_data_for_key c.dns zone.name new)
          remote ← domain_dnssec c zone.name
          check_remote old_data new_data remote

  -- `parentReplace`
  unfoldable pub run_parent_replace : M (Unit {0})
  unfolding replace_recorded
  run_parent_replace =
      if w.registrar_ctid == ""
      then (let ctid =
            c.digest "%s|%s|%s|parent-replace"
              (str w.zone ∷ str (kind_text w.kind) ∷ num w.phase_started_at ∷ []) in
          transition_now c w parent_remove (set (λ x. record x { registrar_ctid = ctid })))
      else (do found ← lift (recorded_keys keys w.old_key_id w.new_key_id); replace_recorded found)

module _ (c : Controller) (zone : Zone) where
  -- `reconcileUnavailableRegistrarJob`
  unfoldable pub reconcile_unavailable_job : Key → Error → M (Unit {0})
  reconcile_unavailable_job key job_error =
      if not (is_error job_unavailable job_error) then fail job_error else (do
        expected ← lift (dnssec_data_for_key c.dns zone.name key)
        remote ← domain_dnssec c zone.name
        if not (is_exactly remote expected)
            then fail (
                new_error
                  "InternetX job is unavailable and current registrar material does not exactly match the recorded replacement key")
            else pure tt)

module _ (c : Controller) (zone : Zone) (w : Workflow) where
  -- The poll of a pending job, which ends the handler. `waiting` is the phase to stay in; the two
  -- handlers that poll differ in their texts too.
  unfoldable pub poll_job : Phase → String → String → Key → M (Unit {0})
  unfolding reconcile_unavailable_job
  poll_job waiting failed_text pending_text key = do
    reply ← attempt (job_status c w.registrar_job_id)
    or_else reply
        (λ e. do
          reconcile_unavailable_job c zone key e
          transition_now c w waiting (set (λ x. record x { registrar_job_status = "SUCCESS" })))
        (λ status.
          if job_failed status
          then block c zone.name w.kind
              (errorf failed_text (num w.registrar_job_id ∷ str status ∷ []))
          else if not (job_succeeded status)
          then fail (errorf pending_text (num w.registrar_job_id ∷ str status ∷ []))
          else transition_now c w waiting (set (λ x. record x { registrar_job_status = status })))

-- A job whose success is not yet recorded.
abbrev pub is_pending : Workflow → Bool
is_pending w = ltb 0 w.registrar_job_id && not (job_succeeded w.registrar_job_status)

module _ (c : Controller) (zone : Zone) (keys : List Key) (w : Workflow) where
  parent_confirmed : Key → M (Unit {0})
  parent_confirmed new = do
    observe c (ds_evidence zone.name (new ∷ []))
    if not (is_live new)
        then block c zone.name w.kind
            (new_error "new KSK is not active and published after parent wait")
        else (do
          in_context "new KSK DNSKEY evidence missing after parent wait"
              (observe c (dnskey_evidence zone.name (published_keys keys)))
          in_context "new KSK signature missing after parent wait"
              (observe c (dnskey_rrsig_by zone.name new))
          transition_now c w (if is_split w.kind then activate_new else deactivate_old)
              clear_evidence)

  parent_wait : Key → M (Unit {0})
  unfolding parent_confirmed
  parent_wait new = do
    ttl ← observe c (authoritative_ds_evidence zone.name (new ∷ []))
    if is_zero w.evidence_at
        then (do
          at ← now c
          transition c w wait_parent_remove
              (at
                + (max_duration ttl c.cfg.rotation.minimum_parent_wait
                    + c.cfg.controller.propagation_margin))
              (λ x. do
                seen ← now c
                pure (record x { parent_ds_ttl = ttl / second; evidence_at = seen })))
        else parent_confirmed new

  wait_replaced : M (Unit {0})
  unfolding parent_wait poll_job
  wait_replaced = do
    found ← lift (recorded_keys keys w.old_key_id w.new_key_id)
    if is_pending w
        then poll_job c zone w wait_parent_remove "InternetX job %d finished with %s"
            "InternetX job %d is %s" found.1
        else parent_wait found.1

  -- `waitParentReplace`
  unfoldable pub run_wait_parent_replace : M (Unit {0})
  unfolding wait_replaced
  run_wait_parent_replace =
      if is_split w.kind
      then or_else (validate_prepublish_inventory c.dns zone.name keys w)
          (λ e. block c zone.name w.kind (
            wrap
              "split inventory drifted during parent wait; full DNSKEY prepublication recovery required"
              e))
          (λ _. wait_replaced)
      else wait_replaced
