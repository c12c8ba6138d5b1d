-- ===== src/Progress/Requests.antt =====
-- The four requests of internal/controller/controller.go, each sent twice.
use dnssec_keyrotation.Base.{ℕ, String, List}
use dnssec_keyrotation.Model.{Kind, Phase, State, Workflow, Zone, Time}
use dnssec_keyrotation.Api.{Controller}
use dnssec_keyrotation.Controller.Arm.{arm_enrollment, arm_state}
use dnssec_keyrotation.Controller.Trigger.{trigger, trigger_state}
use dnssec_keyrotation.Controller.Resume.{resume, resume_state, Recovery}
use dnssec_keyrotation.Controller.Reconcile.{
  reconcile_split_signer_transition, attest_state, reconcile_fingerprint,
}
use dnssec_keyrotation.Progress.Calls.{
  Yields, Yields-fail, Yields-pure, Yields-if, Yields-or_missing, Yields-after,
}
use dnssec_keyrotation.Exec.Keeps.{Keeps}
use dnssec_keyrotation.Exec.{M}
use dnssec_keyrotation.Progress.Repeat.{
  Answered, reach_rules, lookup-recorded, unless_used-Yields, Repeats, Repeats-guard, Repeats-once,
}

Keeps-unit : {A : Type 0} (m : M A) → Keeps (λ s. Unit {0}) m
Keeps-unit m = record { at = λ s h. tt }

module _ (c : Controller) (idem : String) where
  arm_state-Yields :
      (zones : List Zone) (at : Time) (t : State)
      → Yields (λ _. Unit {0}) (Answered idem "enrollment-arm") (arm_state idem zones at t)
  unfolding arm_state
  arm_state-Yields zones at t = Yields-if _ (Yields-fail _) (Yields-pure _ (lookup-recorded _ _ _))

  pub arm_enrollment-Repeats : Repeats (arm_enrollment c idem)
  unfolding arm_enrollment
  arm_enrollment-Repeats = Repeats-guard _ (
      Repeats-guard _ (
        Repeats-guard _
          (Repeats-once _ _ _ _ (λ s. search (reach_rules, arm_state-Yields) depth 20))))

  trigger_state-Yields :
      (kind : Kind) (text : String) (canonical : List String) (at : Time) (t : State)
      → Yields (λ _. Unit {0}) (Answered idem text) (trigger_state kind text idem canonical at t)
  unfolding trigger_state
  trigger_state-Yields kind text canonical at t =
      unless_used-Yields _ _ _ _
        (Yields-after (Keeps-unit _) (λ _. Yields-pure _ (lookup-recorded _ _ _)))

  pub trigger-Repeats : (kind : Kind) (zones : List String) → Repeats (trigger c kind zones idem)
  unfolding trigger
  trigger-Repeats kind zones = Repeats-guard _ (
      Repeats-guard _
        (Repeats-once _ _ _ _ (λ s. search (reach_rules, trigger_state-Yields) depth 20)))

  resume_state-Yields :
      (kind : Kind) (text : String) (items : List Recovery) (at : Time) (t : State)
      → Yields (λ _. Unit {0}) (Answered idem text) (resume_state kind text idem items at t)
  unfolding resume_state
  resume_state-Yields kind text items at t =
      unless_used-Yields _ _ _ _
        (Yields-after (Keeps-unit _) (λ _. Yields-pure _ (lookup-recorded _ _ _)))

  pub resume-Repeats :
      (kind : Kind) (zones : List String) (phase : Phase) → Repeats (resume c kind zones phase idem)
  unfolding resume
  resume-Repeats kind zones phase = Repeats-guard _ (
      Repeats-guard _ (
        Repeats-guard _ (
          Repeats-guard _
            (Repeats-once _ _ _ _ (λ s. search (reach_rules, resume_state-Yields) depth 20)))))

  attest_state-Yields :
      (name : String) (zone : Zone) (w : Workflow) (ttl : ℕ) (at : Time) (t : State)
      → Yields
          (λ _. Unit {0})
          (Answered idem (reconcile_fingerprint name))
          (attest_state c idem name zone w ttl at t)
  unfolding attest_state
  attest_state-Yields name zone w ttl at t = unless_used-Yields _ _ _ _ (
      Yields-or_missing _ (Yields-fail _)
        (λ current. Yields-after (Keeps-unit _) (λ _. Yields-pure _ (lookup-recorded _ _ _))))

  pub reconcile-Repeats : (zone : String) → Repeats (reconcile_split_signer_transition c zone idem)
  unfolding reconcile_split_signer_transition
  reconcile-Repeats zone = Repeats-guard _ (
      Repeats-guard _ (
        Repeats-guard _
          (Repeats-once _ _ _ _ (λ s. search (reach_rules, attest_state-Yields) depth 40))))

  -- A request that was carried out may be sent again with the same key: it succeeds then, makes no call,
  -- and leaves the state and the disk as they are.
  pub requests-Repeats :
      (kind : Kind) (zones : List String) (phase : Phase) (zone : String)
      → Repeats (trigger c kind zones idem)
        × Repeats (resume c kind zones phase idem)
        × Repeats (arm_enrollment c idem)
        × Repeats (reconcile_split_signer_transition c zone idem)
  requests-Repeats kind zones phase zone = (
    trigger-Repeats kind zones,
    resume-Repeats kind zones phase,
    arm_enrollment-Repeats,
    reconcile-Repeats zone,
  )
