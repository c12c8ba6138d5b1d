-- ===== src/Controller/Arm.antt =====
-- `ArmEnrollment` of internal/controller/controller.go: the baseline of the automatic enrollment.
use dnssec_keyrotation.Base.{
  String, not, ◌||◌, List, [], ◌∷◌, lookup, string_eq, ◌==◌, if◌then◌else◌,
}
use dnssec_keyrotation.Errors.{reject_if, new_error}
use dnssec_keyrotation.Model.{
  Zone, Time, is_zero, State, zero_workflow, enroll, idle, workflow_key, Workflow,
}
use dnssec_keyrotation.Api.{Controller}
use dnssec_keyrotation.Exec.{M, pure, fail, lift, now, list_zones, ◌>>=◌, ◌>>◌}
use dnssec_keyrotation.Store.{snapshot, update}
use dnssec_keyrotation.Controller.Requests.{
  check_mode, check_idempotency_key, unless_used, reused_key, record_request,
}
use dnssec_keyrotation.Controller.Bootstrap.{or_put}

-- the tombstone of a zone that was signed before the arming
abbrev pub tombstone : Zone → Time → Workflow
tombstone zone at = record zero_workflow {
  zone = zone.name;
  zone_id = zone.id;
  kind = enroll;
  phase = idle;
  last_completed_at = at;
  enrollment_disposition = "baseline";
}

-- One round of the loop over the zones.
unfoldable pub mark_zone : Time → Zone → State → State
mark_zone at zone s =
    if not zone.dnssec
    then s
    else (let k = workflow_key zone.name enroll in
        or_put (lookup k s.workflows) k (tombstone zone at) s)

unfoldable pub mark_zones : Time → List Zone → State → State
unfolding mark_zone
mark_zones at [] s = s
mark_zones at (zone ∷ zones) s = mark_zones at zones (mark_zone at zone s)

abbrev armed : M State
armed = fail (new_error "automatic enrollment is already armed")

-- the mutation of `ArmEnrollment`
unfoldable pub arm_state : String → List Zone → Time → State → M State
unfolding mark_zones
arm_state idem zones at s =
    if not (is_zero s.enrollment_armed_at)
    then armed
    else pure (
        record_request idem "enrollment-arm"
          (record (mark_zones at zones s) { enrollment_armed_at = at }))

module _ (c : Controller) (idem : String) where
  unfoldable pub arm_listed : List Zone → M (Unit {0})
  unfolding arm_state
  arm_listed zones = do at ← now c; update c (arm_state idem zones at)

  -- `ArmEnrollment`
  unfoldable pub arm_enrollment : M (Unit {0})
  unfolding arm_listed
  arm_enrollment = do
    lift (check_mode c)
    lift (
        reject_if (not c.cfg.enrollment.enabled || not (c.cfg.enrollment.scope == "all_selected"))
          (new_error "automatic enrollment is not explicitly enabled for all_selected scope"))
    lift (check_idempotency_key idem)
    s ← snapshot
    unless_used (lookup idem s.idempotency) "enrollment-arm" tt reused_key (
        if not (is_zero s.enrollment_armed_at)
        then fail (new_error "automatic enrollment is already armed")
        else (do zones ← list_zones c; arm_listed zones))
