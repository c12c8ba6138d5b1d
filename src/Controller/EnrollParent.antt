-- ===== src/Controller/EnrollParent.antt =====
-- The parent of an automatic enrollment: `enrollParentAdd` and `enrollWaitParent` of
-- internal/controller/controller.go.
use dnssec_keyrotation.Base.{
  ◌+◌, ◌*◌, ◌/◌, Bool, true, false, not, ◌&&◌, ◌||◌, List, [], ◌∷◌, nat_eq, string_eq, ◌==◌, ltb,
  if◌then◌else◌,
}
use dnssec_keyrotation.Errors.{new_error, num, str, wrap}
use dnssec_keyrotation.Model.{
  is_zero, elapsed, hour, second, Time, Duration, enroll_parent_add, enroll_wait_parent, Phase, Key,
  Zone, Workflow, State, DnssecData, get_workflow, put_workflow, workflow_key,
}
use dnssec_keyrotation.Api.{Controller, no_ds_evidence, ds_evidence, authoritative_ds_evidence}
use dnssec_keyrotation.Exec.{
  M, pure, fail, lift, in_context, attempt, or_else, now, observe, domain_dnssec, update_dnssec,
  ◌>>=◌, ◌>>◌,
}
use dnssec_keyrotation.Store.{snapshot, update}
use dnssec_keyrotation.Inventory.Roles.{dnssec_data_for_key}
use dnssec_keyrotation.Inventory.Enrollment.{dnssec_payload_hash}
use dnssec_keyrotation.Inventory.Material.{max_duration}
use dnssec_keyrotation.Controller.Moves.{
  transition, transition_now, block, complete, set, clear_evidence,
}
use dnssec_keyrotation.Controller.Prepublish.{is_empty}
use dnssec_keyrotation.Controller.Evidence.{validate_enrollment_evidence}
use dnssec_keyrotation.Controller.Parent.{is_exactly, is_pending, poll_job, record_job}
use dnssec_keyrotation.Controller.Enroll.{with_zone}

abbrev pub is_parent_add : Phase → Bool
is_parent_add enroll_parent_add = true
is_parent_add _ = false

module _ (c : Controller) (zone : Zone) (keys : List Key) (w : Workflow) where
  -- the mutation that records the intent to write
  unfoldable pub intent_state : Time → State → M State
  intent_state at s =
      let k = workflow_key w.zone w.kind in
      let current = get_workflow s k in
      if not (is_parent_add current.phase)
        || not (current.registrar_ctid == w.registrar_ctid)
        || not (is_zero current.registrar_attempted_at)
      then fail (new_error "enrollment workflow changed before registrar intent could be persisted")
      else pure (put_workflow s k (record current { registrar_attempted_at = at }))

  unfoldable pub submit_enrollment : DnssecData → M (Unit {0})
  unfolding intent_state
  submit_enrollment new_data = do
    at ← now c
    update c (intent_state at)
    job ← update_dnssec c zone.name (new_data ∷ []) w.registrar_ctid
    if job.id == 0
        then block c zone.name w.kind
            (new_error "InternetX enrollment acknowledgement omitted a positive job id")
        else transition_now c w enroll_wait_parent (set (record_job job))

  record_ctid : DnssecData → M (Unit {0})
  record_ctid new_data = do
    s ← snapshot
    let ctid =
        c.digest "%s|%s|%s|enroll"
          (num s.enrollment_armed_at ∷ str zone.name ∷ str w.keyset_fingerprint ∷ [])
    transition_now c w enroll_parent_add (
        set (λ x. record x {
          registrar_ctid = ctid;
          registrar_payload_hash = dnssec_payload_hash c new_data;
        }))

  -- An earlier attempt is never repeated.
  unfoldable pub submit_enrollment_once : DnssecData → M (Unit {0})
  unfolding submit_enrollment record_ctid
  submit_enrollment_once new_data =
      if w.registrar_ctid == ""
      then record_ctid new_data
      else if w.registrar_payload_hash == ""
      then block c zone.name w.kind
          (new_error "InternetX enrollment payload hash was not persisted before write")
      else if is_zero w.registrar_attempted_at
      then submit_enrollment new_data
      else (do
        at ← now c
        if elapsed at w.registrar_attempted_at (24 * hour)
            then block c zone.name w.kind (
                new_error
                  "ambiguous InternetX enrollment write did not converge within 24h; manual reconciliation required")
            else fail (
                new_error
                  "InternetX enrollment write outcome is ambiguous; waiting for read-back without resubmitting"))

  unfoldable pub add_with : DnssecData → M (Unit {0})
  unfolding submit_enrollment_once
  add_with new_data =
      if not (w.registrar_payload_hash == "")
        && not (w.registrar_payload_hash == dnssec_payload_hash c new_data)
      then block c zone.name w.kind (new_error "recorded InternetX enrollment payload hash changed")
      else (do
        remote ← domain_dnssec c zone.name
        if is_exactly remote new_data
            then transition_now c w enroll_wait_parent clear_evidence
            else if remote.enabled || not (is_empty remote.material)
            then block c zone.name w.kind
                (new_error "InternetX initial enrollment state changed before write")
            else submit_enrollment_once new_data)

  unfoldable pub add_checked : Key → Key → M (Unit {0})
  unfolding add_with
  add_checked ksk zsk = do
    in_context "enrollment pre-write evidence"
        (validate_enrollment_evidence c zone.name keys ksk zsk false)
    absence ← attempt (observe c (no_ds_evidence zone.name))
    or_else absence
        (λ e. block c zone.name w.kind (wrap "parent DS appeared before enrollment write" e))
        λ _. do new_data ← lift (dnssec_data_for_key c.dns zone.name ksk); add_with new_data

  -- `enrollParentAdd`
  unfoldable pub run_enroll_parent_add : M (Unit {0})
  unfolding with_zone add_checked
  run_enroll_parent_add = if not (is_parent_add w.phase) then pure tt else (do
    s ← snapshot
    if is_zero w.registrar_attempted_at && is_zero s.enrollment_armed_at
        then block c zone.name w.kind
            (new_error "automatic enrollment is disarmed before registrar write")
        else with_zone c zone keys w "enrollment inventory drifted before parent write" add_checked)

  confirm_enrollment : Key → Key → M (Unit {0})
  confirm_enrollment ksk zsk = do
    validate_enrollment_evidence c zone.name keys ksk zsk true
    observe c (ds_evidence zone.name (ksk ∷ []))
    remote ← domain_dnssec c zone.name
    expected ← lift (dnssec_data_for_key c.dns zone.name ksk)
    if not (is_exactly remote expected)
        then block c zone.name w.kind (
            new_error
              "InternetX enrollment material is not the exact recorded KSK after parent wait")
        else complete c w

  -- the wait for the parent's DS, from now
  wait_parent : Duration → M (Unit {0})
  wait_parent ttl = do
    at ← now c
    transition c w enroll_wait_parent
        (at
          + (max_duration ttl c.cfg.rotation.minimum_parent_wait
              + c.cfg.controller.propagation_margin))
        (λ x. do seen ← now c; pure (record x { parent_ds_ttl = ttl / second; evidence_at = seen }))

  await_parent : Key → Key → M (Unit {0})
  unfolding confirm_enrollment wait_parent
  await_parent ksk zsk =
      if is_pending w
      then poll_job c zone w enroll_wait_parent "InternetX enrollment job %d finished with %s"
          "InternetX enrollment job %d is %s" ksk
      else (do
        ttl ← observe c (authoritative_ds_evidence zone.name (ksk ∷ []))
        if is_zero w.evidence_at || ltb w.parent_ds_ttl (ttl / second)
            then wait_parent ttl
            else confirm_enrollment ksk zsk)

  -- `enrollWaitParent`
  unfoldable pub run_enroll_wait_parent : M (Unit {0})
  unfolding with_zone await_parent
  run_enroll_wait_parent =
      with_zone c zone keys w "enrollment inventory drifted during parent wait" await_parent
