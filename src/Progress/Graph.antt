-- ===== src/Progress/Graph.antt =====
-- The graph of phases that the `switch` of `advance` in internal/controller/controller.go and its handlers
-- make, per kind of workflow.
use dnssec_keyrotation.Base.{
  ◌≡◌, sym, subst, ◌||◌, true, false, List, [], ◌∷◌, Option, none, some, if◌then◌else◌,
}
use dnssec_keyrotation.Errors.{errorf, str}
use dnssec_keyrotation.Model
use dnssec_keyrotation.Model.{
  Key, Zone, Workflow, Kind, Phase, State, is_ksk, is_split, get_workflow, workflow_key, phase_text,
}
use dnssec_keyrotation.Api.{Controller}
use dnssec_keyrotation.Exec.{World, M, or_missing, fail}
use dnssec_keyrotation.Exec.Keeps.{Keeps, Keeps-pure, Keeps-fail}
use dnssec_keyrotation.Controller.Schedule.{advance, advance_now, handler, with_retry}
use dnssec_keyrotation.Progress.Calls.{InState, state_rules}
use dnssec_keyrotation.Progress.Moves.{PhaseAt, record_retry-PhaseAt}
use dnssec_keyrotation.Progress.Phases.{
  prepublish-Phase, wait_publish-Phase, activate_new-Phase, wait_new_signature-Phase,
  deactivate_old-Phase, parent_replace-Phase, wait_parent_replace-Phase, wait_retire-Phase,
  delete_old-Phase,
}
use dnssec_keyrotation.Progress.Enrolls.{
  enroll_discovered-Phase, enroll_wait_publish-Phase, enroll_parent_add-Phase,
  enroll_wait_parent-Phase,
}

-- One step of a workflow: it stays, it stops as blocked, or it goes on along an edge of its kind. A
-- new KSK and a split migration go through the parent; a ZSK does not.
pub data Step (kind : Kind) : Phase → Phase → Type 0 where
  stays : {p : Phase} → Step kind p p
  halts : {p : Phase} → Step kind p Model.blocked
  added : Step kind Model.prepublish Model.wait_publish
  published :
      Step kind Model.wait_publish
        (if is_ksk kind || is_split kind then Model.parent_remove else Model.activate_new)
  submitted : Step kind Model.parent_remove Model.wait_parent_remove
  delegated :
      Step kind Model.wait_parent_remove
        (if is_split kind then Model.activate_new else Model.deactivate_old)
  activated : Step kind Model.activate_new Model.wait_new_signature
  signed : Step kind Model.wait_new_signature Model.deactivate_old
  restarted : Step kind Model.deactivate_old Model.wait_new_signature
  switched_ksk : is_ksk kind ≡ true → Step kind Model.deactivate_old Model.delete_old
  switched : is_ksk kind ≡ false → Step kind Model.deactivate_old Model.wait_retire
  retired : Step kind Model.wait_retire Model.delete_old
  deleted : Step kind Model.delete_old Model.idle
  accepted : Step kind Model.enroll_discovered Model.enroll_wait_publish
  settled : Step kind Model.enroll_discovered Model.idle
  visible : Step kind Model.enroll_wait_publish Model.enroll_parent_add
  requested : Step kind Model.enroll_parent_add Model.enroll_wait_parent
  confirmed : Step kind Model.enroll_wait_parent Model.idle

module _ (c : Controller) (zone : Zone) (keys : List Key) (w : Workflow)
    (name : w.zone ≡ zone.name) where
  abbrev Stepped : Phase → State → Type 0
  Stepped phase = PhaseAt (workflow_key w.zone w.kind) (Step w.kind phase)

  abbrev Runs : Phase → Option (M (Unit {0})) → Type 0
  Runs phase none = Unit {0}
  Runs phase (some run) = Keeps (InState (Stepped phase)) run

  handler-Step : (phase : Phase) → Runs phase (handler c zone keys phase w)
  unfolding handler
  handler-Step Model.prepublish =
      prepublish-Phase c (Step w.kind Model.prepublish) zone keys w name halts stays added
  handler-Step Model.wait_publish =
      wait_publish-Phase c (Step w.kind Model.wait_publish) zone keys w name halts stays published
  handler-Step Model.activate_new =
      activate_new-Phase c (Step w.kind Model.activate_new) zone keys w name halts activated
  handler-Step Model.wait_new_signature =
      wait_new_signature-Phase c (Step w.kind Model.wait_new_signature) zone keys w name halts stays
        signed
  handler-Step Model.deactivate_old =
      deactivate_old-Phase c (Step w.kind Model.deactivate_old) zone keys w name halts stays
        switched_ksk switched restarted
  handler-Step Model.parent_remove =
      parent_replace-Phase c (Step w.kind Model.parent_remove) zone keys w name halts stays
        submitted
  handler-Step Model.wait_parent_remove =
      wait_parent_replace-Phase c (Step w.kind Model.wait_parent_remove) zone keys w name halts
        stays delegated
  handler-Step Model.wait_retire =
      wait_retire-Phase c (Step w.kind Model.wait_retire) zone keys w name halts retired
  handler-Step Model.delete_old =
      delete_old-Phase c (Step w.kind Model.delete_old) zone keys w name halts deleted
  handler-Step Model.enroll_discovered =
      enroll_discovered-Phase c (Step w.kind Model.enroll_discovered) zone keys w name halts stays
        accepted settled
  handler-Step Model.enroll_wait_publish =
      enroll_wait_publish-Phase c (Step w.kind Model.enroll_wait_publish) zone keys w name halts
        stays visible
  handler-Step Model.enroll_parent_add =
      enroll_parent_add-Phase c (Step w.kind Model.enroll_parent_add) zone keys w name halts stays
        requested
  handler-Step Model.enroll_wait_parent =
      enroll_wait_parent-Phase c (Step w.kind Model.enroll_wait_parent) zone keys w name halts stays
        confirmed
  handler-Step Model.blocked = Keeps-pure tt
  handler-Step Model.idle = tt
  handler-Step (Model.other_phase text) = tt

  run-Step :
      (phase : Phase) (run : Option (M (Unit {0})))
      → Runs phase run
      → Keeps (InState (Stepped phase)) (
          or_missing run
            (fail (errorf "unknown phase %q" (str (phase_text w.phase) ∷ [])))
            (with_retry c zone keys w))
  unfolding or_missing with_retry
  run-Step phase none steps = Keeps-fail _
  run-Step phase (some run) steps =
      let retry = record_retry-PhaseAt c (Step w.kind phase) w in
      search (state_rules, retry) depth 20

  advance_now-Stepped : Keeps (InState (Stepped w.phase)) (advance_now c zone keys w)
  unfolding advance_now
  advance_now-Stepped = run-Step w.phase (handler c zone keys w.phase w) (handler-Step w.phase)

  advance-Stepped : Keeps (InState (Stepped w.phase)) (advance c zone keys w)
  unfolding advance
  advance-Stepped = search (state_rules, advance_now-Stepped)

  -- `advance` moves the stored workflow along one edge of the graph of its kind, if the stored
  -- phase is the workflow's and the zone is the workflow's; errors and retries included.
  pub advance-Step :
      (s : World)
      → (get_workflow s.state (workflow_key w.zone w.kind)).phase ≡ w.phase
      → Step w.kind w.phase
          (get_workflow (advance c zone keys w s).1.state (workflow_key w.zone w.kind)).phase
  advance-Step s same = advance-Stepped.at s (subst (Step w.kind w.phase) (sym same) stays)
