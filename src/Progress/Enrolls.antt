-- ===== src/Progress/Enrolls.antt =====
-- The enrollment handlers of internal/controller/controller.go: the phases that each may leave in its workflow.
use dnssec_keyrotation.Base.{◌≡◌, List, Bool}
use dnssec_keyrotation.Model
use dnssec_keyrotation.Model.{Key, Zone, Workflow, Phase, State, Time, DnssecData}
use dnssec_keyrotation.Api.{Controller}
use dnssec_keyrotation.Exec.Keeps.{Keeps}
use dnssec_keyrotation.Controller.Evidence.{validate_enrollment_evidence}
use dnssec_keyrotation.Controller.Enroll.{
  ineligible_state, run_enroll_discovered, run_enroll_wait_publish,
}
use dnssec_keyrotation.Controller.EnrollParent.{
  intent_state, submit_enrollment, submit_enrollment_once, add_with, add_checked,
  run_enroll_parent_add, run_enroll_wait_parent,
}
use dnssec_keyrotation.Progress.Calls.{
  InState, Yields, Yields-after, Yields-if, Yields-fail, Yields-pure, now-InState, update-InState,
  state_rules,
}
use dnssec_keyrotation.Progress.Moves.{put-PhaseAt}
use dnssec_keyrotation.Progress.Phases.{Here, block-Here, poll-Here, phase_rules}

module _ (c : Controller) (G : Phase → Type 0) (zone : Zone) (keys : List Key) (w : Workflow)
    (name : w.zone ≡ zone.name) (halts : G Model.blocked) where
  abbrev Now : State → Type 0
  Now = Here c G zone keys w name halts

  evidence_here :
      (ksk zsk : Key) (recursive : Bool)
      → Keeps (InState Now) (validate_enrollment_evidence c zone.name keys ksk zsk recursive)
  unfolding validate_enrollment_evidence
  evidence_here ksk zsk recursive = search state_rules depth 30

  ineligible_here : (t : State) → G Model.idle → Yields Now Now (ineligible_state c zone keys w t)
  unfolding ineligible_state
  ineligible_here t leaves =
      Yields-after (now-InState _ c) λ at. Yields-pure _ (put-PhaseAt c G t _ _ leaves)

  pub enroll_discovered-Phase :
      G Model.enroll_discovered
      → G Model.enroll_wait_publish
      → G Model.idle
      → Keeps (InState Now) (run_enroll_discovered c zone keys w)
  unfolding run_enroll_discovered
  enroll_discovered-Phase stays leaves ends =
      let halt = block-Here c G zone keys w name halts in
      search (phase_rules, halt, update-InState, ineligible_here, evidence_here) depth 40

  pub enroll_wait_publish-Phase :
      G Model.enroll_wait_publish
      → G Model.enroll_parent_add
      → Keeps (InState Now) (run_enroll_wait_publish c zone keys w)
  unfolding run_enroll_wait_publish
  enroll_wait_publish-Phase stays leaves =
      let halt = block-Here c G zone keys w name halts in search (phase_rules, halt) depth 40

  intent_here : (at : Time) (t : State) → Now t → Yields Now Now (intent_state c zone keys w at t)
  unfolding intent_state
  intent_here at t h =
      let put = put-PhaseAt c G t _ _ h in Yields-if _ (Yields-fail _) (Yields-pure _ put)

  add_here :
      (material : DnssecData)
      → G Model.enroll_parent_add
      → G Model.enroll_wait_parent
      → Keeps (InState Now) (add_with c zone keys w material)
  unfolding add_with submit_enrollment_once submit_enrollment
  add_here material stays leaves =
      let halt = block-Here c G zone keys w name halts in
      search (phase_rules, halt, update-InState, intent_here) depth 40

  pub enroll_parent_add-Phase :
      G Model.enroll_parent_add
      → G Model.enroll_wait_parent
      → Keeps (InState Now) (run_enroll_parent_add c zone keys w)
  unfolding run_enroll_parent_add add_checked
  enroll_parent_add-Phase stays leaves =
      let halt = block-Here c G zone keys w name halts in
      search (phase_rules, halt, add_here, evidence_here) depth 40

  pub enroll_wait_parent-Phase :
      G Model.enroll_wait_parent
      → G Model.idle
      → Keeps (InState Now) (run_enroll_wait_parent c zone keys w)
  unfolding run_enroll_wait_parent
  enroll_wait_parent-Phase stays leaves =
      let halt = block-Here c G zone keys w name halts in
      let poll = poll-Here c G zone keys w name halts in
      search (phase_rules, halt, poll, evidence_here) depth 40
