-- ===== src/Progress/Start.antt =====
-- `start` and `complete` of internal/controller/controller.go: how a rotation begins and ends.
use dnssec_keyrotation.Base.{
  subst, ℕ, ◌≤◌, ◌+◌, String, Bool, true, false, ◌&&◌, ◌≡◌, refl, none, List, [], ◌∷◌, insert,
  values, arith, Bool-cases, inl, inr, if◌then◌else◌, ◌==◌, string_eq, Assoc,
}
use dnssec_keyrotation.Model
use dnssec_keyrotation.Model.{
  Notification, Workflow, Kind, State, Time, is_active, workflow_key, get_workflow, put_workflow,
  is_enroll, before,
}
use dnssec_keyrotation.Api.{Controller}
use dnssec_keyrotation.Controller.Moves.{
  start_state, find_active, remember, complete_state, completed_workflow,
}
use dnssec_keyrotation.Exec.{World}
use dnssec_keyrotation.Errors.{ok}
use dnssec_keyrotation.Progress.Calls.{OfResult, Yields, Yields-missing, Yields-fail, Yields-pure}
use dnssec_keyrotation.Progress.Limits.{count}
use dnssec_keyrotation.Progress.Moves.{get-put, completed_workflow-phase}

-- A workflow of the zone in progress.
abbrev pub runs_in : String → Workflow → Bool
runs_in zone w = w.zone == zone && is_active w

-- The number of workflows of the zone in progress.
abbrev pub active_in : String → State → ℕ
active_in zone s = count (runs_in zone) (values s.workflows)

pub none_active :
    (zone : String) (ws : List Workflow) → find_active zone ws ≡ none → count (runs_in zone) ws ≡ 0
unfolding find_active count
none_active zone [] e = refl
none_active zone (w ∷ ws) e = ground (arith, none_active zone ws)

count-insert_le :
    (p : Workflow → Bool) (k : String) (x : Workflow) (m : Assoc Workflow)
    → count p (values (insert k x m)) ≤ count p (values m) + 1
unfolding count values insert
count-insert_le p k x [] = ground arith
count-insert_le p k x ((j, w) ∷ m) = ground (arith, count-insert_le p k x m)

remember-workflows : (idem k : String) (s : State) → (remember idem k s).workflows ≡ s.workflows
remember-workflows idem k s = elim (Bool-cases (idem == "")) [
  | inl e ↦ rw e refl
  | inr e ↦ rw e refl
]

one_active :
    (zone idem : String) (s : State) (k : String) (x : Workflow)
    → active_in zone s ≡ 0
    → active_in zone (remember idem k (put_workflow s k x)) ≤ 1
one_active zone idem s k x free =
    let more = count-insert_le (runs_in zone) k x s.workflows in
    rw (remember-workflows idem k (put_workflow s k x)) (omega arith)

module _ (c : Controller) (zone : String) (kind : Kind) (manual : Bool) (idem : String) (at : Time)
    (s : State) where
  start-Yields :
      Yields
        (λ _. Unit {0})
        (λ t. (active_in zone s ≡ 0) × (active_in zone t ≤ 1))
        (start_state c zone kind manual idem at s)
  unfolding start_state
  start-Yields =
      Yields-missing _
        (λ idle.
          let free = none_active zone (values s.workflows) idle in
          Yields-pure _ (free, one_active zone idem s (workflow_key zone kind) _ free))
        (λ w. Yields-fail _)

  -- A start succeeds only where no workflow of the zone is in progress, and leaves at most one.
  pub start-exclusive :
      (before : World) (t : State)
      → (start_state c zone kind manual idem at s before).0 ≡ ok t
      → (active_in zone s ≡ 0) × (active_in zone t ≤ 1)
  start-exclusive before t e =
      subst (OfResult (λ t. (active_in zone s ≡ 0) × (active_in zone t ≤ 1))) e
        (start-Yields.at before tt).1

with_notifications :
    (P : Workflow → Type 0) (b : Bool) (events : Assoc Notification) (t : State) (k : String)
    → P (get_workflow t k)
    → P (get_workflow (if b then record t { notifications = events } else t) k)
unfolding get_workflow
with_notifications P true events t k h = h
with_notifications P false events t k h = h

completed_workflow-last :
    (w : Workflow) (at : Time) → (completed_workflow w at).last_completed_at ≡ at
completed_workflow-last w at = elim (Bool-cases (is_enroll w.kind)) [
  | inl e ↦ rw e refl
  | inr e ↦ rw e refl
]

-- Idle, and completed at `at` or later, and not before `last`.
abbrev pub IsCompleted : Time → Time → Workflow → Type 0
IsCompleted at last x =
    (x.phase ≡ Model.idle) × (at ≤ x.last_completed_at) × (last ≤ x.last_completed_at)

corrected :
    (w : Workflow) (at last : Time) (late : Bool)
    → before at last ≡ late
    → IsCompleted at last (
        if late
        then record (completed_workflow w at) { last_completed_at = last }
        else completed_workflow w at)
corrected w at last true e = (completed_workflow-phase w at, ground arith, omega arith)
corrected w at last false e =
    let same = completed_workflow-last w at in
    (completed_workflow-phase w at, omega arith, not_before at last _ e same)
  where
    not_before : (at last stored : ℕ) → before at last ≡ false → stored ≡ at → last ≤ stored
    not_before at last stored e same = ground arith

put-IsCompleted :
    (at last : Time) (t : State) (k : String) (x : Workflow)
    → IsCompleted at last x
    → IsCompleted at last (get_workflow (put_workflow t k x) k)
put-IsCompleted at last t k x h = rw (get-put t k x) h

-- A completion leaves the workflow idle; its time of completion is the present or later, and never
-- goes back.
pub complete-IsCompleted :
    (c : Controller) (w : Workflow) (at : Time) (s : State)
    → IsCompleted at
        (get_workflow s (workflow_key w.zone w.kind)).last_completed_at
        (get_workflow (complete_state c w at s) (workflow_key w.zone w.kind))
unfolding complete_state
complete-IsCompleted c w at s =
    let k = workflow_key w.zone w.kind in
    let last = (get_workflow s k).last_completed_at in
    with_notifications (IsCompleted at last) c.cfg.lmtp_enabled _ _ k
      (put-IsCompleted at last _ k _ (corrected w at last _ refl))
