-- ===== src/Safety/Waits.antt =====
-- The handlers that only wait make no mutation: they keep every lasting predicate.
use dnssec_keyrotation.Base.{String, Bool, List}
use dnssec_keyrotation.Errors.{Error}
use dnssec_keyrotation.Model.{Key, Zone, Workflow, Phase}
use dnssec_keyrotation.Api.{Controller}
use dnssec_keyrotation.Exec.{World}
use dnssec_keyrotation.Exec.Keeps.{Keeps}
use dnssec_keyrotation.Controller.Evidence.{
  validate_split_signer_transition_evidence, validate_enrollment_evidence,
}
use dnssec_keyrotation.Controller.Publish.{run_wait_publish}
use dnssec_keyrotation.Controller.Signature.{run_wait_new_signature}
use dnssec_keyrotation.Controller.Parent.{
  reconcile_unavailable_job, poll_job, run_wait_parent_replace,
}
use dnssec_keyrotation.Controller.Retire.{run_wait_retire}
use dnssec_keyrotation.Controller.Enroll.{run_enroll_discovered, run_enroll_wait_publish}
use dnssec_keyrotation.Controller.EnrollParent.{run_enroll_wait_parent}
use dnssec_keyrotation.Safety.Guards.{IsLasting}
use dnssec_keyrotation.Safety.Calls.{lasting_rules}

module _ {P : World → Type 0} (lasting : IsLasting P) (c : Controller) (zone : Zone)
    (keys : List Key) (w : Workflow) where
  pub signer_transition-Lasting :
      Keeps (P) (validate_split_signer_transition_evidence c zone keys w)
  unfolding validate_split_signer_transition_evidence
  signer_transition-Lasting = search lasting_rules depth 30

  pub wait_publish-Lasting : Keeps (P) (run_wait_publish c zone keys w)
  unfolding run_wait_publish
  wait_publish-Lasting = search lasting_rules depth 30

  pub wait_new_signature-Lasting : Keeps (P) (run_wait_new_signature c zone keys w)
  unfolding run_wait_new_signature
  wait_new_signature-Lasting = search (lasting_rules, signer_transition-Lasting) depth 30

  reconcile-Lasting : (key : Key) (e : Error) → Keeps (P) (reconcile_unavailable_job c zone key e)
  unfolding reconcile_unavailable_job
  reconcile-Lasting key e = search lasting_rules depth 30

  pub poll_job-Lasting :
      (waiting : Phase) (failed pending : String) (key : Key)
      → Keeps (P) (poll_job c zone w waiting failed pending key)
  unfolding poll_job
  poll_job-Lasting waiting failed pending key = search (lasting_rules, reconcile-Lasting) depth 30

  pub wait_parent_replace-Lasting : Keeps (P) (run_wait_parent_replace c zone keys w)
  unfolding run_wait_parent_replace
  wait_parent_replace-Lasting = search (lasting_rules, poll_job-Lasting) depth 30

  pub wait_retire-Lasting : Keeps (P) (run_wait_retire c zone keys w)
  unfolding run_wait_retire
  wait_retire-Lasting = search lasting_rules depth 30

  pub enrollment_evidence-Lasting :
      (ksk zsk : Key) (recursive : Bool)
      → Keeps (P) (validate_enrollment_evidence c zone.name keys ksk zsk recursive)
  unfolding validate_enrollment_evidence
  enrollment_evidence-Lasting ksk zsk recursive = search lasting_rules depth 30

  pub enroll_discovered-Lasting : Keeps (P) (run_enroll_discovered c zone keys w)
  unfolding run_enroll_discovered
  enroll_discovered-Lasting = search (lasting_rules, enrollment_evidence-Lasting) depth 30

  pub enroll_wait_publish-Lasting : Keeps (P) (run_enroll_wait_publish c zone keys w)
  unfolding run_enroll_wait_publish
  enroll_wait_publish-Lasting = search lasting_rules depth 30

  pub enroll_wait_parent-Lasting : Keeps (P) (run_enroll_wait_parent c zone keys w)
  unfolding run_enroll_wait_parent
  enroll_wait_parent-Lasting =
      search (lasting_rules, enrollment_evidence-Lasting, poll_job-Lasting) depth 30
