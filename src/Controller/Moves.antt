-- ===== src/Controller/Moves.antt =====
-- The writes that end a handler: `transition`, `recordRetry`, `block`, `complete` and `start` of
-- internal/controller/controller.go.
use dnssec_keyrotation.Base.{
  ℕ, ◌+◌, ◌*◌, ◌^◌, min, String, Bool, ◌&&◌, Option, none, some, List, [], ◌∷◌, lookup, insert,
  values, string_eq, ◌==◌, if◌then◌else◌,
}
use dnssec_keyrotation.Errors.{Error, errorf, str, num}
use dnssec_keyrotation.Model.{
  Kind, zsk, ksk, is_enroll, kind_text, Phase, idle, prepublish, blocked, Time, Duration, minute,
  before, Workflow, zero_workflow, is_active, State, Notification, get_workflow, put_workflow,
  workflow_key,
}
use dnssec_keyrotation.Api.{Controller}
use dnssec_keyrotation.Exec.{M, pure, fail, attempt, or_missing, now, ◌>>=◌}
use dnssec_keyrotation.Store.{update}

-- `time.Minute * time.Duration(1<<min(attempts, 8))`
unfoldable pub backoff : ℕ → Duration
backoff attempts = minute * 2 ^ min attempts 8

-- A change to a workflow that is part of a transition; it may read the clock.
abbrev pub Change : Type 0
Change = Workflow → M Workflow

-- A change that reads no clock.
abbrev pub set : (Workflow → Workflow) → Change
set f x = pure (f x)

-- `x.EvidenceAt = time.Time{}`
abbrev pub clear_evidence : Change
clear_evidence x = pure (record x { evidence_at = 0 })

-- the `nil` of `mutate`
abbrev pub unchanged : Change
unchanged = pure

-- `s.Notifications[id] = event` where no event has this id
unfoldable pub add_notification : Notification → State → State
add_notification event s = elim (lookup event.id s.notifications) [
  | none ↦ record s { notifications = insert event.id event s.notifications }
  | some _ ↦ s
]

-- What `block` writes into the workflow.
abbrev pub blocked_workflow : Workflow → String → Kind → Error → Workflow
blocked_workflow x zone kind reason = record x {
  zone = zone;
  kind = kind;
  phase = blocked;
  last_error = some reason;
  next_action_at = 0;
}

-- The role workflows that an enrollment leaves idle.
abbrev pub idle_role : State → String → Time → Kind → State
idle_role s zone at role =
    put_workflow s (workflow_key zone role) (record (get_workflow s (workflow_key zone role)) {
      zone = zone;
      kind = role;
      phase = idle;
      last_completed_at = at;
    })

-- What `complete` leaves in the workflow: a fresh idle one, with the identity of an enrollment kept.
abbrev pub completed_workflow : Workflow → Time → Workflow
completed_workflow w at =
    let x = record zero_workflow {
      zone = w.zone;
      kind = w.kind;
      phase = idle;
      last_completed_at = at;
    } in
    if is_enroll w.kind
    then (record x {
      zone_id = w.zone_id;
      new_key_id = w.new_key_id;
      new_zsk_id = w.new_zsk_id;
      discovered_at = w.discovered_at;
      keyset_fingerprint = w.keyset_fingerprint;
      enrollment_disposition = "enrolled";
    })
    else x

module _ (c : Controller) where
  -- `transition`
  unfoldable pub transition : Workflow → Phase → Time → Change → M (Unit {0})
  transition w phase next mutate = update c λ s. do
    let k = workflow_key w.zone w.kind
    started ← now c
    x ← mutate (record (get_workflow s k) {
      phase = phase;
      phase_started_at = started;
      next_action_at = next;
      last_error = none;
      attempts = 0;
    })
    pure (put_workflow s k x)

  -- `c.transition(w, phase, c.clock.Now(), mutate)`
  abbrev pub transition_now : Workflow → Phase → Change → M (Unit {0})
  transition_now w phase mutate = do at ← now c; transition w phase at mutate

  -- `recordRetry`
  unfoldable pub record_retry : Workflow → Error → M (Unit {0})
  unfolding backoff
  record_retry w cause = update c λ s. do
    let k = workflow_key w.zone w.kind
    let x = get_workflow s k
    at ← now c
    pure (
        put_workflow s k (record x {
          attempts = x.attempts + 1;
          last_error = some cause;
          next_action_at = at + backoff (x.attempts + 1);
        }))

  blocked_event : Workflow → String → Kind → State → M State
  unfolding add_notification
  blocked_event x zone kind s = do
    let id =
        c.digest "%s|%s|%s|blocked"
          (str zone ∷ str (kind_text kind) ∷ str x.keyset_fingerprint ∷ [])
    completed ← now c
    due ← now c
    pure (
        add_notification
          (record {
            id = id;
            event = "blocked";
            zone = zone;
            kind = kind;
            completed_at = completed;
            old_key_id = 0;
            new_key_id = x.new_key_id;
            new_zsk_id = x.new_zsk_id;
            registrar_stid = "";
            attempts = 0;
            next_attempt_at = due;
            last_error = none;
            delivered_at = 0;
          })
          s)

  -- the mutation of `block`
  unfoldable pub block_state : String → Kind → Error → State → M State
  unfolding blocked_event
  block_state zone kind reason s =
      let k = workflow_key zone kind in
      let x = blocked_workflow (get_workflow s k) zone kind reason in
      let t = put_workflow s k x in
      if is_enroll kind && c.cfg.lmtp_enabled then blocked_event x zone kind t else pure t

  -- `block`: the write's own error is dropped, and the reason is the error that comes back.
  unfoldable pub block : {A : Type 0} → String → Kind → Error → M A
  unfolding block_state
  block zone kind reason = do _ ← attempt (update c (block_state zone kind reason)); fail reason

  completed_event : Workflow → Time → Notification
  completed_event w at = record {
    id = c.digest "%s|%s|%s" (str w.zone ∷ str (kind_text w.kind) ∷ num at ∷ []);
    event = "completed";
    zone = w.zone;
    kind = w.kind;
    completed_at = at;
    old_key_id = w.old_key_id;
    new_key_id = w.new_key_id;
    new_zsk_id = w.new_zsk_id;
    registrar_stid = w.registrar_stid;
    attempts = 0;
    next_attempt_at = at;
    last_error = none;
    delivered_at = 0;
  }

  -- the mutation of `complete`
  unfoldable pub complete_state : Workflow → Time → State → State
  unfolding completed_event
  complete_state w at s =
      let k = workflow_key w.zone w.kind in
      let last = (get_workflow s k).last_completed_at in
      let roles =
        if is_enroll w.kind then idle_role (idle_role s w.zone at ksk) w.zone at zsk else s in
      let x = completed_workflow w at in
      let t =
        put_workflow roles k
          (if before at last then record x { last_completed_at = last } else x) in
      let event = completed_event w at in
      if c.cfg.lmtp_enabled
      then record t { notifications = insert event.id event t.notifications }
      else t

  -- `complete`
  unfoldable pub complete : Workflow → M (Unit {0})
  unfolding complete_state
  complete w = do at ← now c; update c (λ s. pure (complete_state w at s))

-- A workflow of the zone that is in progress.
unfoldable pub find_active : String → List Workflow → Option Workflow
find_active zone [] = none
find_active zone (w ∷ rest) =
    if w.zone == zone && is_active w then some w else find_active zone rest

-- `w, ok := s.Workflows[k]`, with a fresh workflow where the key is missing
abbrev found_or_new : Option Workflow → String → Kind → Workflow
found_or_new none zone kind = record zero_workflow { zone = zone; kind = kind }
found_or_new (some w) zone kind = w

-- `if idem != "" { s.Idempotency[idem] = k }`
abbrev pub remember : String → String → State → State
remember idem k s = if idem == "" then s else record s { idempotency = insert idem k s.idempotency }

module _ (c : Controller) (zone : String) (kind : Kind) (manual : Bool) (idem : String) where
  -- the mutation of `start`
  unfoldable pub start_state : Time → State → M State
  unfolding find_active
  start_state at s =
      let k = workflow_key zone kind in
      or_missing (find_active zone (values s.workflows))
        (pure (
          remember idem k (
            put_workflow s k (record (found_or_new (lookup k s.workflows) zone kind) {
              phase = prepublish;
              phase_started_at = at;
              next_action_at = at;
              last_error = none;
              attempts = 0;
              manual = manual;
              idempotency_key = idem;
            }))))
        (λ w. fail (errorf "zone already has active %s workflow" (str (kind_text w.kind) ∷ [])))

  -- `start`
  unfoldable pub start : M (Unit {0})
  unfolding start_state
  start = do at ← now c; update c (start_state at)
