-- ===== src/Controller/Reconcile.antt =====
-- `ReconcileSplitSignerTransition` of internal/controller/controller.go: the attestation of a change of
-- signer roles.
use dnssec_keyrotation.Base.{
  ℕ, ◌+◌, ◌*◌, String, Bool, true, false, not, ◌||◌, ◌<>◌, Option, some, none, List, [], ◌∷◌,
  lookup, ltb, string_eq, nat_eq, ◌==◌, if◌then◌else◌,
}
use dnssec_keyrotation.Base.Text.{trim_dot, to_lower}
use dnssec_keyrotation.Errors.{reject_if, errorf, wrapf, new_error, str}
use dnssec_keyrotation.Model.{
  Zone, Time, second, split, State, Phase, wait_new_signature, is_zero, workflow_key, Workflow,
  put_workflow,
}
use dnssec_keyrotation.Api.{Controller}
use dnssec_keyrotation.Exec.{
  M, pure, fail, lift, now, attempt, list_zones, list_keys, or_missing, or_else, ◌>>=◌, ◌>>◌,
}
use dnssec_keyrotation.Store.{snapshot, update}
use dnssec_keyrotation.Controller.Prepublish.{parent_mode_initial}
use dnssec_keyrotation.Controller.Evidence.{validate_split_signer_transition_evidence}
use dnssec_keyrotation.Controller.Scope.{selected}
use dnssec_keyrotation.Controller.Requests.{
  check_mode, check_idempotency_key, request_name, unless_used, reused_key, key_conflict,
  record_request, has_distinct_keys,
}

-- `w.Phase == model.PhaseWaitNewSignature`
abbrev pub is_wait_new_signature : Phase → Bool
is_wait_new_signature wait_new_signature = true
is_wait_new_signature _ = false

-- the loop that looks for the zone
unfoldable pub find_zone : String → List Zone → Option Zone
unfolding trim_dot to_lower
find_zone name [] = none
find_zone name (z ∷ zones) =
    if trim_dot (to_lower z.name) == name then some z else find_zone name zones

-- What the attestation leaves in the workflow.
abbrev pub attested : Time → ℕ → ℕ → Workflow → Workflow
attested at ttl margin w = record w {
  split_signer_transition_at = at;
  evidence_at = at;
  zone_ttl = ttl;
  next_action_at = at + (ttl * second + margin);
  last_error = none;
  attempts = 0;
}

unfoldable pub reconcile_fingerprint : String → String
reconcile_fingerprint name = "reconcile-split-signer|" <> name

module _ (c : Controller) (idem name : String) where
  module _ (zone : Zone) where
    -- the tests of the recorded workflow
    check_recorded : Workflow → M (Unit {0})
    check_recorded w = do
      lift (
          reject_if (not (is_wait_new_signature w.phase))
            (errorf "zone %s has no split workflow in wait_new_signature" (str name ∷ [])))
      lift (
          reject_if
            (not (w.parent_mode == parent_mode_initial)
              || w.old_key_id == 0
              || w.new_key_id == 0
              || w.new_zsk_id == 0)
            (errorf "zone %s is not an initialized initial-delegation split workflow"
              (str name ∷ [])))
      lift (
          reject_if (not (has_distinct_keys w))
            (errorf "zone %s does not record three distinct key IDs" (str name ∷ [])))
      lift (
          reject_if (is_zero w.registrar_attempted_at || w.registrar_ctid == "")
            (errorf "zone %s has no recorded registrar transaction" (str name ∷ [])))
      lift (
          reject_if (not (is_zero w.split_signer_transition_at))
            (errorf "zone %s already has a split signer-transition attestation" (str name ∷ [])))

    -- the mutation of `ReconcileSplitSignerTransition`
    unfoldable pub attest_state : Workflow → ℕ → Time → State → M State
    unfolding reconcile_fingerprint
    attest_state w ttl at s =
        let k = workflow_key zone.name split in
        let changed =
          errorf "zone %s workflow changed during signer-transition validation"
            (str zone.name ∷ []) in
        unless_used (lookup idem s.idempotency) (reconcile_fingerprint name) s key_conflict (
          or_missing (lookup k s.workflows) (fail changed) (λ current. do
            lift (
                reject_if
                  (not (is_wait_new_signature current.phase)
                    || not (current.old_key_id == w.old_key_id)
                    || not (current.new_key_id == w.new_key_id)
                    || not (current.new_zsk_id == w.new_zsk_id)
                    || not (is_zero current.split_signer_transition_at))
                  changed)
            pure (
                record_request idem (reconcile_fingerprint name) (
                  put_workflow s k (attested at ttl c.cfg.controller.propagation_margin current)))))

    unfoldable pub attest : Workflow → M (Unit {0})
    unfolding attest_state check_recorded
    attest w = do
      check_recorded w
      keys ← list_keys c zone.id
      evidence ← attempt (validate_split_signer_transition_evidence c zone keys w)
      or_else evidence
          (λ e. fail (wrapf "zone %s cannot reconcile split signer transition" (str name ∷ []) e))
          (λ ttl. do
            at ← now c
            update c (attest_state w (if ltb ttl w.zone_ttl then w.zone_ttl else ttl) at))

    reconcile_listed : State → M (Unit {0})
    unfolding attest selected
    reconcile_listed s = do
      lift (
          reject_if (zone.name == "" || not zone.dnssec)
            (errorf "zone %s is absent or not DNSSEC-enabled" (str name ∷ [])))
      lift (
          reject_if (not (selected c.cfg zone.name))
            (errorf "zone %s is outside the configured rotation scope" (str name ∷ [])))
      or_missing (lookup (workflow_key zone.name split) s.workflows)
          (fail (errorf "zone %s has no split workflow in wait_new_signature" (str name ∷ [])))
          attest

  unfoldable pub reconcile_named : M (Unit {0})
  unfolding reconcile_listed find_zone
  reconcile_named = do
    s ← snapshot
    unless_used (lookup idem s.idempotency) (reconcile_fingerprint name) tt reused_key (do
      available ← list_zones c
      or_missing (find_zone name available)
          (fail (errorf "zone %s is absent or not DNSSEC-enabled" (str name ∷ [])))
          (λ zone. reconcile_listed zone s))

module _ (c : Controller) (requested_zone idem : String) where
  -- `ReconcileSplitSignerTransition`
  unfoldable pub reconcile_split_signer_transition : M (Unit {0})
  unfolding reconcile_named request_name
  reconcile_split_signer_transition = do
    lift (check_mode c)
    lift (check_idempotency_key idem)
    lift (reject_if (request_name requested_zone == "") (new_error "one zone is required"))
    reconcile_named c idem (request_name requested_zone)
