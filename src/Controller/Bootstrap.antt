-- ===== src/Controller/Bootstrap.antt =====
-- `bootstrap` of internal/controller/controller.go: what the controller records of a zone that is new to it.
-- A loop over a Go map runs in an unspecified order; here in that of the association list.
use dnssec_keyrotation.Base.{
  ℕ, suc, ◌+◌, ◌*◌, String, Bool, true, false, not, ◌&&◌, ◌||◌, Option, none, some, List, [], ◌∷◌,
  values, lookup, nat_eq, string_eq, leb, if◌then◌else◌,
}
use dnssec_keyrotation.Errors.{Result, ok, err, new_error, wrap}
use dnssec_keyrotation.Model.{
  Kind, zsk, ksk, split, enroll, is_enroll, idle, blocked, enroll_discovered, is_zero, elapsed,
  hour, Time, Key, Zone, Workflow, zero_workflow, is_active, State, put_workflow, workflow_key,
}
use dnssec_keyrotation.Api.{Controller}
use dnssec_keyrotation.Exec.{M, pure, now, ◌>>=◌}
use dnssec_keyrotation.Store.{update}
use dnssec_keyrotation.Inventory.Keys.{
  Scheme, split_scheme, csk_scheme, unknown_scheme, is_csk_scheme,
}
use dnssec_keyrotation.Inventory.Enrollment.{validate_enrollment_inventory}
use dnssec_keyrotation.Controller.Prepublish.{parent_mode_initial}
use dnssec_keyrotation.Controller.Enroll.{not_clean_split}
use dnssec_keyrotation.Controller.Scope.{selected_enrollment}

-- the enrollments in progress
unfoldable pub pending_enrollments : List Workflow → ℕ
pending_enrollments [] = 0
pending_enrollments (w ∷ rest) =
    let more = pending_enrollments rest in
    if is_enroll w.kind && is_active w then suc more else more

-- the enrollments discovered in the last 24 hours
unfoldable pub recent_enrollments : Time → List Workflow → ℕ
recent_enrollments at [] = 0
recent_enrollments at (w ∷ rest) =
    let more = recent_enrollments at rest in
    if is_enroll w.kind
      && not (is_zero w.discovered_at)
      && not (elapsed at w.discovered_at (24 * hour))
    then suc more
    else more

-- `if _, ok := s.Workflows[k]; !ok { s.Workflows[k] = x }`, with what the map holds under `k`
abbrev pub or_put : Option Workflow → String → Workflow → State → State
or_put none k x s = put_workflow s k x
or_put (some _) k x s = s

-- An idle workflow, where none is recorded.
abbrev pub baseline : Zone → Time → Kind → State → State
baseline zone at kind s =
    let k = workflow_key zone.name kind in
    or_put (lookup k s.workflows) k
      (record zero_workflow { zone = zone.name; kind = kind; phase = idle; last_completed_at = at })
      s

abbrev pub is_missing : Option Workflow → Bool
is_missing none = true
is_missing (some w) = false

-- the `switch` of `bootstrap`
abbrev pub bootstrap_roles : Zone → Time → Scheme → State → State
bootstrap_roles zone at split_scheme s = baseline zone at ksk (baseline zone at zsk s)
bootstrap_roles zone at csk_scheme s = baseline zone at split s
bootstrap_roles zone at unknown_scheme s = s

-- the parts of an enrollment workflow that every branch of `bootstrap` sets
abbrev enrollment_of : Zone → Workflow
enrollment_of zone = record zero_workflow { zone = zone.name; zone_id = zone.id; kind = enroll }

-- a zone that is already recorded, or that may not enroll
unfoldable pub is_closed : Controller → Zone → State → Bool
unfolding selected_enrollment
is_closed c zone t =
    not (is_missing (lookup (workflow_key zone.name enroll) t.workflows))
    || is_zero t.enrollment_armed_at
    || not c.cfg.enrollment.enabled
    || not (selected_enrollment c.cfg zone.name)

module _ (c : Controller) (zone : Zone) (keys : List Key) (at : Time) where
  -- the workflow of a newly found zone
  unfoldable pub candidate_workflow : Result (Key × Key × String) → Workflow
  candidate_workflow inventory =
      let candidate = record (enrollment_of zone) {
        phase = enroll_discovered;
        phase_started_at = at;
        next_action_at = at;
        discovered_at = at;
        parent_mode = parent_mode_initial;
        enrollment_disposition = "candidate";
      } in
      elim inventory [
        | ok found ↦ record candidate {
          new_key_id = found.0.id;
          new_zsk_id = found.1.id;
          keyset_fingerprint = found.2;
          next_action_at = at + c.cfg.enrollment.discovery_grace;
        }
        | err e ↦ record candidate {
          last_error = some (wrap "waiting for a stable clean split inventory" e);
        }
      ]

  -- what `bootstrap` records of a zone that it has not seen
  unfoldable pub discovered_workflow : Scheme → State → Workflow
  unfolding candidate_workflow pending_enrollments recent_enrollments
  discovered_workflow scheme s =
      if is_csk_scheme scheme
      then record (enrollment_of zone) {
        phase = idle;
        last_completed_at = at;
        enrollment_disposition = "ineligible";
        last_error = some not_clean_split;
      }
      else if leb c.cfg.enrollment.max_pending (pending_enrollments (values s.workflows))
          || leb c.cfg.enrollment.max_new_per_day (recent_enrollments at (values s.workflows))
      then record (enrollment_of zone) {
        phase = blocked;
        discovered_at = at;
        last_error = some (new_error "automatic enrollment circuit breaker exceeded");
      }
      else candidate_workflow (validate_enrollment_inventory c zone.name keys 0 0 "")

  -- the mutation of `bootstrap`
  unfoldable pub bootstrap_state : Scheme → State → State
  unfolding discovered_workflow
  bootstrap_state scheme s =
      let t = bootstrap_roles zone at scheme s in
      if is_closed c zone t
      then t
      else put_workflow t (workflow_key zone.name enroll) (discovered_workflow scheme t)

module _ (c : Controller) (zone : Zone) (keys : List Key) where
  -- `bootstrap`
  unfoldable pub bootstrap : Scheme → M (Unit {0})
  unfolding bootstrap_state
  bootstrap scheme = do at ← now c; update c (λ s. pure (bootstrap_state c zone keys at scheme s))
