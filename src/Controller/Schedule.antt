-- ===== src/Controller/Schedule.antt =====
-- The scheduler: `advance`, `reconcileZone` and `Tick` of internal/controller/controller.go. A loop over a Go
-- map runs in an unspecified order; here in that of the association list.
use dnssec_keyrotation.Base.{
  String, Bool, false, not, ◌&&◌, ◌||◌, Option, none, some, List, [], ◌∷◌, ◌++◌, keep, values,
  nat_eq, string_eq, ◌==◌, contains, if◌then◌else◌,
}
use dnssec_keyrotation.Base.Text.{has_line_break}
use dnssec_keyrotation.Errors.{Error, errorf, new_error, str, wrapf}
use dnssec_keyrotation.Config.{is_enforce, is_observe}
use dnssec_keyrotation.Model
use dnssec_keyrotation.Model.{phase_text}
use dnssec_keyrotation.Model.{
  Kind, zsk, ksk, split, enroll, is_enroll, Phase, idle, blocked, enroll_discovered, is_zero,
  before, elapsed, hour, Time, Key, Zone, Workflow, zero_workflow, is_active, State, get_workflow,
  put_workflow, workflow_key,
}
use dnssec_keyrotation.Api.{Controller}
use dnssec_keyrotation.Exec.{
  M, pure, fail, attempt, or_else, or_missing, now, list_zones, list_keys, ◌>>=◌, ◌>>◌,
}
use dnssec_keyrotation.Store.{snapshot}
use dnssec_keyrotation.Inventory.Keys.{Scheme, is_csk_scheme, is_split_scheme, key_scheme}
use dnssec_keyrotation.Controller.Moves.{block, record_retry, start}
use dnssec_keyrotation.Controller.Prepublish.{run_prepublish}
use dnssec_keyrotation.Controller.Publish.{run_wait_publish, run_activate_new}
use dnssec_keyrotation.Controller.Signature.{run_wait_new_signature, run_deactivate_old}
use dnssec_keyrotation.Controller.Parent.{run_parent_replace, run_wait_parent_replace}
use dnssec_keyrotation.Controller.Retire.{run_wait_retire, run_delete_old}
use dnssec_keyrotation.Controller.Notify.{deliver_notifications}
use dnssec_keyrotation.Controller.Enroll.{run_enroll_discovered, run_enroll_wait_publish}
use dnssec_keyrotation.Controller.EnrollParent.{run_enroll_parent_add, run_enroll_wait_parent}
use dnssec_keyrotation.Controller.Scope.{selected, selected_enrollment}
use dnssec_keyrotation.Controller.Bootstrap.{bootstrap}

module _ (c : Controller) (zone : Zone) (keys : List Key) where
  -- the `switch` of `advance`, with `none` for its `default`
  unfoldable pub handler : Phase → Workflow → Option (M (Unit {0}))
  handler Model.prepublish w = some (run_prepublish c zone keys w)
  handler Model.wait_publish w = some (run_wait_publish c zone keys w)
  handler Model.activate_new w = some (run_activate_new c zone keys w)
  handler Model.wait_new_signature w = some (run_wait_new_signature c zone keys w)
  handler Model.deactivate_old w = some (run_deactivate_old c zone keys w)
  handler Model.parent_remove w = some (run_parent_replace c zone keys w)
  handler Model.wait_parent_remove w = some (run_wait_parent_replace c zone keys w)
  handler Model.wait_retire w = some (run_wait_retire c zone keys w)
  handler Model.delete_old w = some (run_delete_old c zone keys w)
  handler Model.enroll_discovered w = some (run_enroll_discovered c zone keys w)
  handler Model.enroll_wait_publish w = some (run_enroll_wait_publish c zone keys w)
  handler Model.enroll_parent_add w = some (run_enroll_parent_add c zone keys w)
  handler Model.enroll_wait_parent w = some (run_enroll_wait_parent c zone keys w)
  handler Model.blocked w = some (pure tt)
  handler Model.idle w = none
  handler (Model.other_phase text) w = none

  -- An error of a handler schedules a retry; an error of that write is dropped.
  unfoldable pub with_retry : Workflow → M (Unit {0}) → M (Unit {0})
  with_retry w run = do
    outcome ← attempt run
    or_else outcome (λ e. do _ ← attempt (record_retry c w e); fail e) pure

  unfoldable pub advance_now : Workflow → M (Unit {0})
  unfolding handler with_retry
  advance_now w =
      or_missing (handler w.phase w)
        (fail (errorf "unknown phase %q" (str (phase_text w.phase) ∷ []))) (with_retry w)

  -- `advance`
  unfoldable pub advance : Workflow → M (Unit {0})
  unfolding advance_now
  advance w =
      if is_zero w.next_action_at
      then advance_now w
      else (do at ← now c; if before at w.next_action_at then pure tt else advance_now w)

  -- a zone with no workflow in progress: the next rotation that is due
  unfoldable pub schedule_idle : Scheme → State → M (Unit {0})
  schedule_idle scheme s =
      if is_csk_scheme scheme
      then pure tt
      else if not (is_split_scheme scheme)
      then block c zone.name zsk (new_error "expected exactly one active KSK and one active ZSK")
      else (do
        at ← now c
        if elapsed at (get_workflow s (workflow_key zone.name zsk)).last_completed_at
              c.cfg.rotation.zsk_interval
            then start c zone.name zsk false ""
            else if elapsed at (get_workflow s (workflow_key zone.name ksk)).last_completed_at
                c.cfg.rotation.ksk_interval
            then start c zone.name ksk false ""
            else pure tt)

  -- an enrollment that was switched off before its registrar write
  abbrev pub withdrawn : Workflow → Bool
  withdrawn w =
      is_enroll w.kind
      && is_zero w.registrar_attempted_at
      && (not c.cfg.enrollment.enabled || not (selected_enrollment c.cfg zone.name))

  unfoldable pub proceed : Scheme → State → List Workflow → M (Unit {0})
  unfolding advance schedule_idle
  proceed scheme s [] = schedule_idle scheme s
  proceed scheme s (w ∷ []) =
      if withdrawn w
      then block c zone.name enroll (
          new_error
            "automatic enrollment was disabled or moved out of scope before registrar write")
      else advance w
  proceed scheme s (w ∷ _) =
      block c zone.name w.kind (new_error "more than one active workflow for zone")

-- the workflows of a zone that are in progress
unfoldable pub active_workflows : String → State → List Workflow
unfolding keep values
active_workflows zone s = keep (λ w. w.zone == zone && is_active w) (values s.workflows)

module _ (c : Controller) where
  unfoldable pub reconcile_keys : Zone → List Key → M (Unit {0})
  unfolding bootstrap proceed active_workflows
  reconcile_keys zone keys = do
    bootstrap c zone keys (key_scheme keys)
    s ← snapshot
    proceed c zone keys (key_scheme keys) s (active_workflows zone.name s)

  -- `reconcileZone`
  unfoldable pub reconcile_zone : Zone → M (Unit {0})
  unfolding reconcile_keys
  reconcile_zone zone = do
    keys ← list_keys c zone.id
    if is_observe c.cfg.mode then pure tt else reconcile_keys zone keys

  -- the test of a zone's name
  abbrev pub valid_name : Zone → Bool
  valid_name z = c.dns.is_domain_name (c.dns.fqdn z.name) && not (has_line_break z.name)

  -- the zones that `Tick` reconciles, by the state it began with
  unfoldable pub must_reconcile : State → Zone → Bool
  unfolding selected
  must_reconcile s z =
      z.dnssec && (selected c.cfg z.name || is_active (get_workflow s (workflow_key z.name enroll)))

  unfoldable pub tick_zone : State → Zone → M (List Error)
  unfolding must_reconcile reconcile_zone
  tick_zone s z =
      if not (valid_name z)
      then pure (errorf "invalid PowerDNS zone name %q" (str z.name ∷ []) ∷ [])
      else if must_reconcile s z
      then (do
        outcome ← attempt (reconcile_zone z)
        or_else outcome (λ e. pure (wrapf "%s" (str z.name ∷ []) e ∷ [])) (λ _. pure []))
      else pure []

  unfoldable pub tick_zones : State → List Zone → M (List Error)
  unfolding tick_zone
  tick_zones s [] = pure []
  tick_zones s (z ∷ zones) = do
    errors ← tick_zone s z
    more ← tick_zones s zones
    pure (errors ++ more)

  -- the names whose zone is valid and signed
  unfoldable pub seen_dnssec : List Zone → List String
  seen_dnssec [] = []
  seen_dnssec (z ∷ zones) =
      let rest = seen_dnssec zones in if valid_name z && z.dnssec then z.name ∷ rest else rest

  -- the loop over the enrollments whose zone is gone
  unfoldable pub block_vanished : List String → List Workflow → M (List Error)
  block_vanished seen [] = pure []
  block_vanished seen (w ∷ rest) = do
    errors ←
        (if is_enroll w.kind && is_active w && not (contains seen w.zone)
          then (do
            outcome ← attempt (
                block c {A = Unit {0}} w.zone w.kind
                  (new_error "enrollment zone disappeared or DNSSEC was disabled"))
            or_else outcome (λ e. pure (e ∷ [])) (λ _. pure []))
          else pure [])
    more ← block_vanished seen rest
    pure (errors ++ more)

  tick_listed : List Zone → M (List Error)
  unfolding tick_zones block_vanished seen_dnssec
  tick_listed zones = do
    s ← snapshot
    errors ← tick_zones s zones
    if is_enforce c.cfg.mode
        then (do
          t ← snapshot
          more ← block_vanished (seen_dnssec zones) (values t.workflows)
          pure (errors ++ more))
        else pure errors

  tick_delivered : List Error → M (List Error)
  unfolding tick_listed
  tick_delivered errors = do
    listing ← attempt (list_zones c)
    or_else listing (λ e. pure (errors ++ e ∷ []))
        (λ zones. do more ← tick_listed zones; pure (errors ++ more))

  -- `Tick`, with the errors that it joins
  unfoldable pub tick : M (List Error)
  unfolding tick_delivered
  tick = do
    errors ← (if is_enforce c.cfg.mode then deliver_notifications c else pure [])
    tick_delivered errors
