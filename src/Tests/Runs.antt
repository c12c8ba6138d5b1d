-- ===== src/Tests/Runs.antt =====
-- The theorems on the controller, applied to the zone of the demo.
use dnssec_keyrotation.Base.{
  ◌≤◌, ◌*◌, ◌≡◌, ◌≢◌, refl, false, [], ◌∷◌, some, lookup, values, insert, arith,
}
use dnssec_keyrotation.Errors.{ok}
use dnssec_keyrotation.Config.{enforce, observe}
use dnssec_keyrotation.Model
use dnssec_keyrotation.Model.{
  Workflow, State, Phase, hour, workflow_key, get_workflow, ksk, zsk, minute,
}
use dnssec_keyrotation.Exec.{World, or_missing, pure, ◌>>=◌, now, perform}
use dnssec_keyrotation.Store.{update}
use dnssec_keyrotation.Store.Atomic.{IsCommit, update-IsCommit}
use dnssec_keyrotation.Inventory.Keys
use dnssec_keyrotation.Inventory.Keys.{
  by_id, recorded_keys, reject_unexpected, key_scheme, exactly_one_active,
}
use dnssec_keyrotation.Controller.Moves.{start_state, find_active, complete_state}
use dnssec_keyrotation.Controller.Candidates.{Wanted}
use dnssec_keyrotation.Controller.Prepublish.{adopt_or_create}
use dnssec_keyrotation.Controller.Parent.{run_parent_replace}
use dnssec_keyrotation.Controller.EnrollParent.{run_enroll_parent_add}
use dnssec_keyrotation.Controller.Schedule.{tick, advance}
use dnssec_keyrotation.Controller.Bootstrap.{bootstrap_state}
use dnssec_keyrotation.Progress.Graph.{Step, advance-Step}
use dnssec_keyrotation.Progress.Traces
use dnssec_keyrotation.Progress.Traces.{Advances, parent_first, retire_first}
use dnssec_keyrotation.Progress.Discovery.{bootstrap-Holds}
use dnssec_keyrotation.Progress.Limits.{running, count, bootstrap-running}
use dnssec_keyrotation.Progress.Start.{
  active_in, start-exclusive, IsCompleted, complete-IsCompleted,
}
use dnssec_keyrotation.Safety.Conditions.{IsSafe}
use dnssec_keyrotation.Safety.Tick.{Rounds}
use dnssec_keyrotation.Safety.Once.{IsQuiet}
use dnssec_keyrotation.Safety.Observe.{ReadOnly, observe-ReadOnly}
use dnssec_keyrotation.Safety.Promises.{
  advance-IsSafe, tick-Rounds, parent_replace-IsQuiet, enroll_parent_add-IsQuiet, adopt-IsQuiet,
}
use dnssec_keyrotation.Tests.Demo.{
  zone, zsk_keys, retired_keys, controller, rotation, no_state, stored,
}

abbrev deletion : World
deletion = stored (rotation Model.delete_old)

advance-IsSafe_example :
    IsSafe
      (controller enforce retired_keys)
      zone
      retired_keys
      (rotation Model.delete_old)
      []
      (advance
        (controller enforce retired_keys)
        zone
        retired_keys
        (rotation Model.delete_old)
        deletion).1.events
advance-IsSafe_example =
    advance-IsSafe (controller enforce retired_keys) zone retired_keys (rotation Model.delete_old)
      deletion

-- the same with the enrollment not armed, so that the deletion is the only work
abbrev disarmed : World
disarmed = record deletion { state = record deletion.state { enrollment_armed_at = 0 } }

tick-Rounds_example :
    Rounds
      (controller enforce retired_keys)
      disarmed
      (tick (controller enforce retired_keys) disarmed).1
tick-Rounds_example = tick-Rounds (controller enforce retired_keys) disarmed

observe-ReadOnly_example : ReadOnly deletion.state (tick (controller observe zsk_keys) deletion).1
observe-ReadOnly_example = observe-ReadOnly (controller observe zsk_keys) deletion refl refl

-- a workflow whose registrar write, and whose key creation, was tried an hour ago
abbrev tried : Phase → Workflow
tried phase = record (rotation phase) {
  registrar_ctid = "c";
  registrar_attempted_at = 999 * hour;
  new_key_create_attempted_at = 999 * hour;
}

parent_replace-IsQuiet_example :
    IsQuiet
      (run_parent_replace
        (controller enforce zsk_keys)
        zone
        zsk_keys
        (tried Model.parent_remove)
        deletion).1.events
parent_replace-IsQuiet_example =
    parent_replace-IsQuiet (controller enforce zsk_keys) zone zsk_keys (tried Model.parent_remove)
      deletion refl tt

enroll_parent_add-IsQuiet_example :
    IsQuiet
      (run_enroll_parent_add
        (controller enforce zsk_keys)
        zone
        zsk_keys
        (tried Model.enroll_parent_add)
        deletion).1.events
enroll_parent_add-IsQuiet_example =
    enroll_parent_add-IsQuiet (controller enforce zsk_keys) zone zsk_keys
      (tried Model.enroll_parent_add) deletion refl tt

abbrev new_zsk : Wanted
new_zsk = record {
  typ = "zsk";
  algorithm = "ECDSAP256SHA256";
  old_id = 2;
  active = false;
  allow_transitional_csk = false;
  zsk_slot = false;
}

adopt-IsQuiet_example :
    IsQuiet
      (adopt_or_create
        (controller enforce zsk_keys)
        zone
        (tried Model.prepublish)
        new_zsk
        zsk_keys
        deletion).1.events
adopt-IsQuiet_example =
    adopt-IsQuiet (controller enforce zsk_keys) zone zsk_keys (tried Model.prepublish) deletion
      new_zsk refl tt

stored_deletion :
    (get_workflow deletion.state (workflow_key "example.org." zsk)).phase ≡ Model.delete_old
unfolding get_workflow lookup workflow_key
stored_deletion = refl

advance-Step_example :
    Step zsk Model.delete_old
      (get_workflow
        (advance
          (controller enforce zsk_keys)
          zone
          zsk_keys
          (rotation Model.delete_old)
          deletion).1.state
        (workflow_key "example.org." zsk)).phase
advance-Step_example =
    advance-Step (controller enforce zsk_keys) zone zsk_keys (rotation Model.delete_old) refl
      deletion stored_deletion

update-IsCommit_example :
    IsCommit
      (ok no_state, deletion)
      (update (controller enforce zsk_keys) (λ s. pure no_state) deletion)
unfolding pure
update-IsCommit_example =
    update-IsCommit (controller enforce zsk_keys) (λ s. pure no_state) deletion

-- a rotation whose next action is a thousand hours away
abbrev waiting : Model.Kind → Workflow
waiting kind = record (rotation Model.prepublish) { kind = kind; next_action_at = 2000 * hour }

abbrev waits_on : Model.Kind → World
waits_on kind = record deletion {
  state = record no_state { workflows = (workflow_key "example.org." kind, waiting kind) ∷ [] };
}

stored_ksk :
    (get_workflow (waits_on ksk).state (workflow_key "example.org." ksk)).phase ≡ Model.prepublish
unfolding get_workflow lookup workflow_key
stored_ksk = refl

advanced_ksk :
    (get_workflow
      (advance (controller enforce zsk_keys) zone zsk_keys (waiting ksk) (waits_on ksk)).1.state
      (workflow_key "example.org." ksk)).phase
    ≡ Model.prepublish
unfolding get_workflow lookup workflow_key advance now perform ◌>>=◌ pure
advanced_ksk = refl

parent_first_example :
    (Model.prepublish ≢ Model.activate_new)
    × (Model.prepublish ≢ Model.deactivate_old)
    × (Model.prepublish ≢ Model.delete_old)
parent_first_example = parent_first ksk Model.prepublish refl (
    Traces.go_on (controller enforce zsk_keys) zone zsk_keys (waiting ksk) (waits_on ksk)
      Traces.begin refl refl refl stored_ksk advanced_ksk (λ e. cc))

stored_zsk :
    (get_workflow (waits_on zsk).state (workflow_key "example.org." zsk)).phase ≡ Model.prepublish
unfolding get_workflow lookup workflow_key
stored_zsk = refl

advanced_zsk :
    (get_workflow
      (advance (controller enforce zsk_keys) zone zsk_keys (waiting zsk) (waits_on zsk)).1.state
      (workflow_key "example.org." zsk)).phase
    ≡ Model.prepublish
unfolding get_workflow lookup workflow_key advance now perform ◌>>=◌ pure
advanced_zsk = refl

retire_first_example : Model.prepublish ≢ Model.delete_old
retire_first_example = retire_first zsk Model.prepublish refl (
    Traces.go_on (controller enforce zsk_keys) zone zsk_keys (waiting zsk) (waits_on zsk)
      Traces.begin refl refl refl stored_zsk advanced_zsk (λ e. cc))

recorded : lookup "example.org.|zsk" deletion.state.workflows ≡ some (rotation Model.delete_old)
unfolding lookup
recorded = refl

bootstrap-Holds_example :
    lookup "example.org.|zsk"
      (bootstrap_state
        (controller enforce zsk_keys)
        zone
        zsk_keys
        (1000 * hour)
        Keys.split_scheme
        deletion.state).workflows
    ≡ some (rotation Model.delete_old)
bootstrap-Holds_example =
    bootstrap-Holds "example.org.|zsk" (rotation Model.delete_old) (controller enforce zsk_keys)
      zone zsk_keys (1000 * hour) Keys.split_scheme deletion.state recorded

no_enrollment : running deletion.state ≤ 1
unfolding count values
no_enrollment = omega arith

bootstrap-running_example :
    running (
      bootstrap_state
        (controller enforce zsk_keys)
        zone
        zsk_keys
        (1000 * hour)
        Keys.split_scheme
        deletion.state)
    ≤ 1
bootstrap-running_example =
    bootstrap-running (controller enforce zsk_keys) zone zsk_keys (1000 * hour) Keys.split_scheme
      deletion.state no_enrollment

abbrev started : State
started = record no_state {
  workflows =
      (
        "example.org.|zsk",
        record (Model.zero_workflow) {
          zone = "example.org.";
          kind = zsk;
          phase = Model.prepublish;
          phase_started_at = 1000 * hour;
          next_action_at = 1000 * hour;
        },
      )
      ∷ [];
}

starts :
    (start_state
      (controller enforce zsk_keys)
      "example.org."
      zsk
      false
      ""
      (1000 * hour)
      no_state
      deletion).0
    ≡ ok started
unfolding start_state find_active lookup insert values workflow_key pure or_missing
starts = refl

start-exclusive_example :
    (active_in "example.org." no_state ≡ 0) × (active_in "example.org." started ≤ 1)
start-exclusive_example =
    start-exclusive (controller enforce zsk_keys) "example.org." zsk false "" (1000 * hour) no_state
      deletion started starts

complete-IsCompleted_example :
    IsCompleted
      (1000 * hour)
      (get_workflow deletion.state (workflow_key "example.org." zsk)).last_completed_at
      (get_workflow
        (complete_state
          (controller enforce zsk_keys)
          (rotation Model.delete_old)
          (1000 * hour)
          deletion.state)
        (workflow_key "example.org." zsk))
complete-IsCompleted_example =
    complete-IsCompleted (controller enforce zsk_keys) (rotation Model.delete_old) (1000 * hour)
      deletion.state
