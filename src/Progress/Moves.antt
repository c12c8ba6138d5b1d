-- ===== src/Progress/Moves.antt =====
-- `transition`, `block`, `complete` and `recordRetry` of internal/controller/controller.go: the phase that
-- each of them leaves in the workflow.
use dnssec_keyrotation.Base.{
  Bool-cases, Assoc, Option-cases, inl, inr, String, ◌≡◌, refl, Bool, true, false, lookup,
  lookup-insert, string_eq, if◌then◌else◌, beq_refl,
}
use dnssec_keyrotation.Errors.{Error}
use dnssec_keyrotation.Model
use dnssec_keyrotation.Model.{
  is_enroll, Workflow, Kind, Phase, State, Time, Notification, get_workflow, put_workflow,
  workflow_key,
}
use dnssec_keyrotation.Api.{Controller}
use dnssec_keyrotation.Exec.Keeps.{Keeps, Keeps-fail, Keeps-bind, Keeps-attempt}
use dnssec_keyrotation.Controller.Moves.{
  Change, transition, record_retry, block, block_state, complete, complete_state,
  completed_workflow, add_notification,
}
use dnssec_keyrotation.Progress.Calls.{
  InState, Yields, Yields-pure, Yields-bind, Yields-after, Yields-if, now-InState, update-InState,
}

pub get-put : (t : State) (k : String) (x : Workflow) → get_workflow (put_workflow t k x) k ≡ x
unfolding get_workflow
get-put t k x = rw (lookup-insert k k x t.workflows, beq_refl k) refl

add_notification-workflows :
    (event : Notification) (t : State) → (add_notification event t).workflows ≡ t.workflows
unfolding add_notification
add_notification-workflows event t = elim (Option-cases (lookup event.id t.notifications)) [
  | inl e ↦ rw (e, add_notification) refl
  | inr (found, e) ↦ rw (e, add_notification) refl
]

pub completed_workflow-phase :
    (w : Workflow) (at : Time) → (completed_workflow w at).phase ≡ Model.idle
completed_workflow-phase w at = elim (Bool-cases (is_enroll w.kind)) [
  | inl e ↦ rw e refl
  | inr e ↦ rw e refl
]

-- What the workflow is left as, with or without the correction of the completion time.
completed_phase :
    (w : Workflow) (at last : Time) (late : Bool)
    → (if late
        then record (completed_workflow w at) { last_completed_at = last }
        else completed_workflow w at).phase
      ≡ Model.idle
completed_phase w at last true = completed_workflow-phase w at
completed_phase w at last false = completed_workflow-phase w at

-- The phase of the workflow under `k` satisfies `G`.
abbrev pub PhaseAt : String → (Phase → Type 0) → State → Type 0
PhaseAt k G t = G (get_workflow t k).phase

module _ (c : Controller) (G : Phase → Type 0) where
  pub put-PhaseAt :
      (t : State) (k : String) (x : Workflow) → G x.phase → PhaseAt k G (put_workflow t k x)
  put-PhaseAt t k x g = rw (get-put t k x) g

  notified :
      (event : Notification) (t : State) (k : String)
      → PhaseAt k G t
      → PhaseAt k G (add_notification event t)
  unfolding get_workflow
  notified event t k h = rw (add_notification-workflows event t) h

  with_notifications :
      (b : Bool) (events : Assoc Notification) (t : State) (k : String)
      → PhaseAt k G t
      → PhaseAt k G (if b then record t { notifications = events } else t)
  unfolding get_workflow
  with_notifications true events t k h = h
  with_notifications false events t k h = h

  module _ (w : Workflow) where
    pub transition-PhaseAt :
        (phase : Phase) (next : Time) {mutate : Change}
        → G phase
        → ((x : Workflow)
            → Yields (PhaseAt (workflow_key w.zone w.kind) G) (λ y. y.phase ≡ x.phase) (mutate x))
        → Keeps
            (InState (PhaseAt (workflow_key w.zone w.kind) G))
            (transition c w phase next mutate)
    unfolding transition
    transition-PhaseAt phase next g ym = update-InState _ c λ t h.
        Yields-after (now-InState _ c)
          λ started. Yields-bind (ym _) λ y same. Yields-pure _ (put-PhaseAt t _ y (rw same g))

    pub record_retry-PhaseAt :
        (e : Error) → Keeps (InState (PhaseAt (workflow_key w.zone w.kind) G)) (record_retry c w e)
    unfolding record_retry
    record_retry-PhaseAt e =
        update-InState _ c
          λ t h. Yields-after (now-InState _ c) λ at. Yields-pure _ (put-PhaseAt t _ _ h)

    complete_state-PhaseAt :
        (at : Time) (t : State)
        → G Model.idle
        → PhaseAt (workflow_key w.zone w.kind) G (complete_state c w at t)
    unfolding complete_state
    complete_state-PhaseAt at t g =
        with_notifications c.cfg.lmtp_enabled _ _ _
          (put-PhaseAt _ _ _ (rw (completed_phase w at _ _) g))

    pub complete-PhaseAt :
        G Model.idle → Keeps (InState (PhaseAt (workflow_key w.zone w.kind) G)) (complete c w)
    unfolding complete
    complete-PhaseAt g =
        Keeps-bind (now-InState _ c)
          λ at. update-InState _ c λ t h. Yields-pure _ (complete_state-PhaseAt at t g)

  block_state-PhaseAt :
      (zone : String) (kind : Kind) (e : Error) (t : State)
      → G Model.blocked
      → Yields
          (PhaseAt (workflow_key zone kind) G)
          (PhaseAt (workflow_key zone kind) G)
          (block_state c zone kind e t)
  unfolding block_state
  block_state-PhaseAt zone kind e t g =
      let put = put-PhaseAt t (workflow_key zone kind) _ g in
      Yields-if _
        (Yields-after (now-InState _ c)
          λ at. Yields-after (now-InState _ c) λ due. Yields-pure _ (notified _ _ _ put))
        (Yields-pure _ put)

  pub block-PhaseAt :
      {A : Type 0} (zone : String) (kind : Kind) (e : Error)
      → G Model.blocked
      → Keeps (InState (PhaseAt (workflow_key zone kind) G)) (block c {A = A} zone kind e)
  unfolding block
  block-PhaseAt zone kind e g =
      Keeps-bind (Keeps-attempt (update-InState _ c λ t h. block_state-PhaseAt zone kind e t g))
        (λ _. Keeps-fail e)
