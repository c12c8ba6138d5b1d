-- ===== src/Controller/Resume.antt =====
-- `Resume` of internal/controller/controller.go: blocked split workflows go back to wait_publish, all of
-- a request or none.
use dnssec_keyrotation.Base.{
  String, Bool, true, false, not, ◌||◌, ◌<>◌, List, [], ◌∷◌, lookup, length, ltb, Assoc, string_eq,
  nat_eq, ◌==◌, none,
}
use dnssec_keyrotation.Base.Text.{join, to_lower}
use dnssec_keyrotation.Errors.{Result, reject_if, errorf, wrapf, new_error, str}
use dnssec_keyrotation.Errors
use dnssec_keyrotation.Model.{
  Zone, Time, Kind, is_split, kind_text, State, Phase, wait_publish, phase_text, is_blocked,
  is_zero, workflow_key, Workflow, get_workflow, put_workflow,
}
use dnssec_keyrotation.Api.{Controller, no_ds_evidence}
use dnssec_keyrotation.Exec.{
  M, pure, fail, lift, now, attempt, list_zones, list_keys, domain_dnssec, observe, or_missing,
  or_else, ◌>>=◌, ◌>>◌,
}
use dnssec_keyrotation.Store.{snapshot, update}
use dnssec_keyrotation.Inventory.Prepublish.{validate_prepublish_inventory}
use dnssec_keyrotation.Controller.Prepublish.{is_empty, parent_mode_initial}
use dnssec_keyrotation.Controller.Scope.{selected}
use dnssec_keyrotation.Controller.Requests.{
  check_mode, check_idempotency_key, request_names, unless_used, reused_key, key_conflict,
  record_request, zone_table, has_distinct_keys,
}

-- `phase == model.PhaseWaitPublish`
abbrev pub is_wait_publish : Phase → Bool
is_wait_publish wait_publish = true
is_wait_publish _ = false

-- `"resume|" + string(kind) + "|" + string(phase) + "|" + strings.Join(normalized, ",")`
unfoldable pub resume_fingerprint : Kind → Phase → List String → String
unfolding request_names join phase_text
resume_fingerprint kind phase zones =
    "resume|" <> kind_text kind <> "|" <> phase_text phase <> "|" <> join (request_names zones) ","

-- The workflow, as recorded, may be resumed.
unfoldable pub check_resumable : String → Workflow → Result (Unit {0})
check_resumable name w =
    Errors.◌>>◌
      (reject_if (not (is_blocked w.phase))
        (errorf "zone %s has no blocked split workflow" (str name ∷ [])))
      (Errors.◌>>◌
        (reject_if
          (not (w.parent_mode == parent_mode_initial)
            || w.old_key_id == 0
            || w.new_key_id == 0
            || w.new_zsk_id == 0)
          (errorf "zone %s is not an initialized initial-delegation split workflow"
            (str name ∷ [])))
        (Errors.◌>>◌
          (reject_if (not (has_distinct_keys w))
            (errorf "zone %s does not record three distinct key IDs" (str name ∷ [])))
          (reject_if
            (not (is_zero w.registrar_attempted_at)
              || not (w.registrar_job_id == 0)
              || not (w.registrar_ctid == "")
              || not (w.registrar_stid == "")
              || not (w.registrar_job_status == ""))
            (errorf "zone %s already records a registrar mutation attempt" (str name ∷ [])))))

-- the `recovery` of `Resume`
pub record Recovery : Type 0 where
  pub zone : String
  pub workflow : Workflow

-- The workflow is blocked still, with the keys that were validated.
unfoldable pub check_unchanged : Kind → State → Recovery → M (Unit {0})
check_unchanged kind s item =
    let changed = errorf "zone %s workflow changed during resume validation" (str item.zone ∷ []) in
    or_missing (lookup (workflow_key item.zone kind) s.workflows) (fail changed) (λ current. lift (
      reject_if
        (not (is_blocked current.phase)
          || not (current.old_key_id == item.workflow.old_key_id)
          || not (current.new_key_id == item.workflow.new_key_id)
          || not (current.new_zsk_id == item.workflow.new_zsk_id))
        changed))

unfoldable pub check_all_unchanged : Kind → State → List Recovery → M (Unit {0})
unfolding check_unchanged
check_all_unchanged kind s [] = pure tt
check_all_unchanged kind s (item ∷ items) = do
  check_unchanged kind s item
  check_all_unchanged kind s items

-- What a resumption leaves in a workflow.
abbrev pub resumed : Time → Workflow → Workflow
resumed at w = record w {
  phase = wait_publish;
  phase_started_at = at;
  next_action_at = at;
  evidence_at = 0;
  dnskey_ttl = 0;
  last_error = none;
  attempts = 0;
}

unfoldable pub resume_all : Kind → Time → List Recovery → State → State
resume_all kind at [] s = s
resume_all kind at (item ∷ items) s =
    let k = workflow_key item.zone kind in
    resume_all kind at items (put_workflow s k (resumed at (get_workflow s k)))

-- the mutation of `Resume`
unfoldable pub resume_state : Kind → String → String → List Recovery → Time → State → M State
unfolding check_all_unchanged resume_all
resume_state kind fingerprint idem items at s =
    unless_used (lookup idem s.idempotency) fingerprint s key_conflict (do
      check_all_unchanged kind s items
      pure (record_request idem fingerprint (resume_all kind at items s)))

module _ (c : Controller) (kind : Kind) where
  -- the live part of the validation: the keys, the registrar and the parent
  unfoldable pub check_live : String → Zone → Workflow → M (Unit {0})
  check_live name zone w = do
    keys ← list_keys c zone.id
    or_else (validate_prepublish_inventory c.dns zone.name keys w)
        (λ e. fail (wrapf "zone %s inventory cannot be resumed" (str name ∷ []) e)) pure
    remote ← domain_dnssec c zone.name
    lift (
        reject_if (remote.enabled || not (is_empty remote.material))
          (errorf "zone %s registrar DNSSEC state is not disabled-empty" (str name ∷ [])))
    absence ← attempt (observe c (no_ds_evidence zone.name))
    or_else absence (λ e. fail (wrapf "zone %s parent DS absence is not proven" (str name ∷ []) e))
        (λ _. pure tt)

  -- One round of the loop over the names.
  unfoldable pub recovery_of : State → Assoc Zone → String → M Recovery
  unfolding check_resumable check_live selected
  recovery_of s table name =
      or_missing (lookup name table)
        (fail (errorf "zone %s is absent or not DNSSEC-enabled" (str name ∷ [])))
        (λ zone. do
          lift (
              reject_if (not zone.dnssec)
                (errorf "zone %s is absent or not DNSSEC-enabled" (str name ∷ [])))
          lift (
              reject_if (not (selected c.cfg zone.name))
                (errorf "zone %s is outside the configured rotation scope" (str name ∷ [])))
          or_missing (lookup (workflow_key zone.name kind) s.workflows)
              (fail (errorf "zone %s has no blocked split workflow" (str name ∷ [])))
              (λ w. do
                lift (check_resumable name w)
                check_live name zone w
                pure (record { zone = zone.name; workflow = w })))

  unfoldable pub recoveries : State → Assoc Zone → List String → M (List Recovery)
  unfolding recovery_of
  recoveries s table [] = pure []
  recoveries s table (name ∷ names) = do
    item ← recovery_of s table name
    rest ← recoveries s table names
    pure (item ∷ rest)

  module _ (zones : List String) (phase : Phase) (idem : String) where
    resume_listed : State → List Zone → M (Unit {0})
    unfolding recoveries resume_state
    resume_listed s available = do
      items ← recoveries s (zone_table to_lower [] available) (request_names zones)
      at ← now c
      update c (resume_state kind (resume_fingerprint kind phase zones) idem items at)

    -- `Resume`
    unfoldable pub resume : M (Unit {0})
    unfolding resume_listed
    resume = do
      lift (check_mode c)
      lift (
          reject_if (not (is_split kind) || not (is_wait_publish phase))
            (new_error "only split workflows may be resumed to wait_publish"))
      lift (check_idempotency_key idem)
      lift (
          reject_if (length (request_names zones) == 0 || ltb 100 (length (request_names zones)))
            (new_error "between one and 100 zones are required"))
      s ← snapshot
      unless_used (lookup idem s.idempotency) (resume_fingerprint kind phase zones) tt reused_key
          (do available ← list_zones c; resume_listed s available)
