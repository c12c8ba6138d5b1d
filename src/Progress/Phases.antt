-- ===== src/Progress/Phases.antt =====
-- The handlers of internal/controller/controller.go: the phases that each may leave in its workflow.
use dnssec_keyrotation.Base.{
  String, lookup, some, subst, Bool, true, false, [], ◌∷◌, ◌≡◌, List, ◌||◌, if◌then◌else◌,
}
use dnssec_keyrotation.Errors.{Error}
use dnssec_keyrotation.Model
use dnssec_keyrotation.Model.{
  or_zero, get_workflow, Key, Zone, Workflow, Phase, State, Time, workflow_key, is_ksk, is_split,
  is_zsk,
}
use dnssec_keyrotation.Api.{Controller}
use dnssec_keyrotation.Exec.Keeps.{
  Keeps, Keeps-bind, Keeps-lift, Keeps-pure, Keeps-fail, Keeps-decide,
}
use dnssec_keyrotation.Controller.Moves.{block}
use dnssec_keyrotation.Controller.Prepublish.{
  run_prepublish, adopt_or_create, choose, create, record_create_attempt, create_attempt_state,
  mark_attempt,
}
use dnssec_keyrotation.Controller.Candidates.{Wanted}
use dnssec_keyrotation.Controller.Evidence.{validate_split_signer_transition_evidence}
use dnssec_keyrotation.Controller.Signature.{
  run_wait_new_signature, run_deactivate_old, deactivate_checked, deactivate_recorded, check_ttl,
  replacement_evidence, replacement_zsk,
}
use dnssec_keyrotation.Controller.Parent.{
  attempt_state, run_parent_replace, replace_recorded, check_remote, submit_once, submit,
  old_signature, reconcile_unavailable_job, poll_job, run_wait_parent_replace,
}
use dnssec_keyrotation.Controller.Retire.{run_wait_retire, run_delete_old}
use dnssec_keyrotation.Controller.Publish.{run_wait_publish, run_activate_new}
use dnssec_keyrotation.Progress.Calls.{
  InState, Yields, Yields-fail, Yields-found, Yields-if, Yields-pure, update-InState, yields_rules,
  state_rules,
}
use dnssec_keyrotation.Progress.Moves.{
  PhaseAt, put-PhaseAt, transition-PhaseAt, block-PhaseAt, complete-PhaseAt,
}

pub ruleset phase_rules = (state_rules, yields_rules, transition-PhaseAt, complete-PhaseAt)

module _ (c : Controller) (G : Phase → Type 0) (zone : Zone) (keys : List Key) (w : Workflow)
    (name : w.zone ≡ zone.name) (halts : G Model.blocked) where
  abbrev pub Here : State → Type 0
  Here = PhaseAt (workflow_key w.zone w.kind) G

  pub block-Here :
      (A : Type 0) (e : Error) → Keeps (InState Here) (block c {A = A} zone.name w.kind e)
  block-Here A e = rw name (block-PhaseAt c G zone.name w.kind e halts)

  attempt_state-Here :
      (want : Wanted) (at : Time) (t : State)
      → Here t
      → Yields Here Here (create_attempt_state c zone w want at t)
  unfolding create_attempt_state get_workflow
  attempt_state-Here want at t h = Yields-found _ (Yields-fail _) λ current e.
      let put =
        put-PhaseAt c G t (workflow_key w.zone w.kind) (mark_attempt current want.zsk_slot at)
          (marked current want.zsk_slot at (recorded t current e h)) in
      search yields_rules
    where
      marked :
          (current : Workflow) (slot : Bool) (at : Time)
          → G current.phase
          → G (mark_attempt current slot at).phase
      marked current true at g = g
      marked current false at g = g

      recorded :
          (t : State) (current : Workflow)
          → lookup (workflow_key w.zone w.kind) t.workflows ≡ some current
          → Here t
          → G current.phase
      recorded t current e h = subst (λ o. G (or_zero o).phase) e h

  adopt-Here :
      (want : Wanted) (listed : List Key)
      → Keeps (InState Here) (adopt_or_create c zone w want listed)
  unfolding adopt_or_create choose create record_create_attempt
  adopt-Here want listed = Keeps-bind (Keeps-lift _) choose_here
    where
      create_here : Keeps (InState Here) (create c zone w want)
      create_here = search (state_rules, update-InState, attempt_state-Here) depth 30

      choose_here : (found : List Key) → Keeps (InState Here) (choose c zone w want found)
      choose_here [] = create_here
      choose_here (k ∷ []) = Keeps-pure k
      choose_here (k ∷ l ∷ rest) = Keeps-fail _

  pub prepublish-Phase :
      G Model.prepublish
      → G Model.wait_publish
      → Keeps (InState Here) (run_prepublish c zone keys w)
  unfolding run_prepublish
  prepublish-Phase stays leaves = search (phase_rules, block-Here, adopt-Here) depth 30

  pub wait_publish-Phase :
      G Model.wait_publish
      → G (if is_ksk w.kind || is_split w.kind then Model.parent_remove else Model.activate_new)
      → Keeps (InState Here) (run_wait_publish c zone keys w)
  unfolding run_wait_publish
  wait_publish-Phase stays leaves = search (phase_rules, block-Here) depth 30

  pub activate_new-Phase :
      G Model.wait_new_signature → Keeps (InState Here) (run_activate_new c zone keys w)
  unfolding run_activate_new
  activate_new-Phase leaves = search (phase_rules, block-Here) depth 30

  signer_transition-Here :
      Keeps (InState Here) (validate_split_signer_transition_evidence c zone keys w)
  unfolding validate_split_signer_transition_evidence
  signer_transition-Here = search state_rules depth 30

  pub wait_new_signature-Phase :
      G Model.wait_new_signature
      → G Model.deactivate_old
      → Keeps (InState Here) (run_wait_new_signature c zone keys w)
  unfolding run_wait_new_signature
  wait_new_signature-Phase stays leaves =
      search (phase_rules, block-Here, signer_transition-Here) depth 30

  module _ (stays : G Model.deactivate_old) (deletes : is_ksk w.kind ≡ true → G Model.delete_old)
      (retires : is_ksk w.kind ≡ false → G Model.wait_retire) where
    check_ttl-Here : (old : Key) → Keeps (InState Here) (check_ttl c zone keys w old)
    unfolding check_ttl
    check_ttl-Here old = search (phase_rules, Keeps-decide, block-Here) depth 30

    checked-Here : Keeps (InState Here) (deactivate_checked c zone keys w)
    unfolding deactivate_checked deactivate_recorded replacement_evidence replacement_zsk
    checked-Here = search (phase_rules, block-Here, check_ttl-Here) depth 30

    pub deactivate_old-Phase :
        G Model.wait_new_signature → Keeps (InState Here) (run_deactivate_old c zone keys w)
    unfolding run_deactivate_old
    deactivate_old-Phase restarts =
        search (phase_rules, block-Here, checked-Here, signer_transition-Here) depth 30

  attempt-Here : (at : Time) (t : State) → Here t → Here (attempt_state c zone keys w at t)
  unfolding attempt_state
  attempt-Here at t h = put-PhaseAt c G t _ _ h

  pub parent_replace-Phase :
      G Model.parent_remove
      → G Model.wait_parent_remove
      → Keeps (InState Here) (run_parent_replace c zone keys w)
  unfolding run_parent_replace replace_recorded check_remote submit_once submit old_signature
  parent_replace-Phase stays leaves =
      search (phase_rules, update-InState, attempt-Here, block-Here) depth 40

  reconcile-Here :
      (key : Key) (e : Error) → Keeps (InState Here) (reconcile_unavailable_job c zone key e)
  unfolding reconcile_unavailable_job
  reconcile-Here key e = search state_rules depth 30

  pub poll-Here :
      (waiting : Phase) (failed pending : String) (key : Key)
      → G waiting
      → Keeps (InState Here) (poll_job c zone w waiting failed pending key)
  unfolding poll_job
  poll-Here waiting failed pending key stays =
      search (phase_rules, block-Here, reconcile-Here) depth 30

  pub wait_parent_replace-Phase :
      G Model.wait_parent_remove
      → G (if is_split w.kind then Model.activate_new else Model.deactivate_old)
      → Keeps (InState Here) (run_wait_parent_replace c zone keys w)
  unfolding run_wait_parent_replace
  wait_parent_replace-Phase stays leaves = search (phase_rules, block-Here, poll-Here) depth 30

  pub wait_retire-Phase : G Model.delete_old → Keeps (InState Here) (run_wait_retire c zone keys w)
  unfolding run_wait_retire
  wait_retire-Phase leaves = search (phase_rules, block-Here) depth 30

  pub delete_old-Phase : G Model.idle → Keeps (InState Here) (run_delete_old c zone keys w)
  unfolding run_delete_old
  delete_old-Phase leaves = search (phase_rules, block-Here) depth 40
