-- ===== src/Controller/Trigger.antt =====
-- `Trigger` of internal/controller/controller.go: a manual rotation. The loop over the workflows is over
-- a Go map, in an unspecified order; here in that of the association list.
use dnssec_keyrotation.Base.{
  String, not, true, ◌&&◌, ◌<>◌, List, [], ◌∷◌, lookup, values, Assoc, if◌then◌else◌, none,
}
use dnssec_keyrotation.Base.Text.{join}
use dnssec_keyrotation.Errors.{reject_if, errorf, str}
use dnssec_keyrotation.Model.{
  Zone, Time, Kind, is_split, kind_text, State, prepublish, workflow_key, Workflow, get_workflow,
  put_workflow,
}
use dnssec_keyrotation.Api.{Controller}
use dnssec_keyrotation.Exec.{
  M, pure, fail, lift, now, list_zones, list_keys, or_missing, ◌>>=◌, ◌>>◌,
}
use dnssec_keyrotation.Store.{snapshot, update}
use dnssec_keyrotation.Inventory.Keys.{Scheme, is_csk_scheme, is_split_scheme, key_scheme}
use dnssec_keyrotation.Controller.Moves.{find_active}
use dnssec_keyrotation.Controller.Scope.{selected}
use dnssec_keyrotation.Controller.Requests.{
  check_mode, check_idempotency_key, request_names, unless_used, reused_key, key_conflict,
  record_request, zone_table,
}

-- `string(kind) + "|" + strings.Join(normalized, ",")`
unfoldable pub trigger_fingerprint : Kind → List String → String
unfolding request_names join
trigger_fingerprint kind zones = kind_text kind <> "|" <> join (request_names zones) ","

-- the error of the first zone that has a workflow in progress
unfoldable pub reject_active : List String → State → M (Unit {0})
unfolding find_active
reject_active [] s = pure tt
reject_active (zone ∷ zones) s =
    or_missing (find_active zone (values s.workflows)) (reject_active zones s) (λ w.
      fail
        (errorf "zone %s already has active %s workflow" (str zone ∷ str (kind_text w.kind) ∷ [])))

-- What a request leaves in the workflow of a zone.
abbrev pub triggered : String → Kind → String → Time → Workflow → Workflow
triggered zone kind idem at w = record w {
  zone = zone;
  kind = kind;
  phase = prepublish;
  phase_started_at = at;
  next_action_at = at;
  last_error = none;
  attempts = 0;
  manual = true;
  idempotency_key = idem;
}

-- the loop that starts the workflows
unfoldable pub start_all : Kind → String → Time → List String → State → State
start_all kind idem at [] s = s
start_all kind idem at (zone ∷ zones) s =
    let k = workflow_key zone kind in
    start_all kind idem at zones (put_workflow s k (triggered zone kind idem at (get_workflow s k)))

-- the mutation of `Trigger`, for the names that the servers use
unfoldable pub trigger_state : Kind → String → String → List String → Time → State → M State
unfolding reject_active start_all
trigger_state kind fingerprint idem canonical at s =
    unless_used (lookup idem s.idempotency) fingerprint s key_conflict (do
      reject_active canonical s
      pure (record_request idem fingerprint (start_all kind idem at canonical s)))

module _ (c : Controller) (kind : Kind) where
  check_scheme : String → Scheme → M (Unit {0})
  check_scheme name scheme =
      if is_split kind && not (is_csk_scheme scheme)
      then fail (errorf "zone %s is not a CSK zone" (str name ∷ []))
      else if not (is_split kind) && not (is_split_scheme scheme)
      then fail (errorf "zone %s is not split KSK/ZSK" (str name ∷ []))
      else pure tt

  -- One round of the loop over the names: the name that the server uses.
  unfoldable pub canonical_name : Assoc Zone → String → M String
  unfolding check_scheme selected
  canonical_name table name =
      or_missing (lookup name table)
        (fail (errorf "zone %s is absent or not DNSSEC-enabled" (str name ∷ [])))
        (λ z. do
          lift (
              reject_if (not z.dnssec)
                (errorf "zone %s is absent or not DNSSEC-enabled" (str name ∷ [])))
          lift (
              reject_if (not (selected c.cfg z.name))
                (errorf "zone %s is outside the configured rotation scope" (str name ∷ [])))
          keys ← list_keys c z.id
          check_scheme name (key_scheme keys)
          pure z.name)

  unfoldable pub canonical_names : Assoc Zone → List String → M (List String)
  unfolding canonical_name
  canonical_names table [] = pure []
  canonical_names table (name ∷ names) = do
    zone ← canonical_name table name
    rest ← canonical_names table names
    pure (zone ∷ rest)

  module _ (zones : List String) (idem : String) where
    trigger_listed : List Zone → M (Unit {0})
    unfolding canonical_names trigger_state
    trigger_listed available = do
      canonical ← canonical_names (zone_table (λ name. name) [] available) (request_names zones)
      at ← now c
      update c (trigger_state kind (trigger_fingerprint kind zones) idem canonical at)

    -- `Trigger`
    unfoldable pub trigger : M (Unit {0})
    unfolding trigger_listed
    trigger = do
      lift (check_mode c)
      lift (check_idempotency_key idem)
      s ← snapshot
      unless_used (lookup idem s.idempotency) (trigger_fingerprint kind zones) tt reused_key
          (do available ← list_zones c; trigger_listed available)
