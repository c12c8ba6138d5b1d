-- ===== src/Tests/Commands.antt =====
-- The theorems on the requests of an operator, applied to the zone of the demo.
use mathlib.Core.List.{Memᴰ}
use dnssec_keyrotation.Base.{◌≡◌, refl, true, none, [], ◌∷◌, lookup, insert, values}
use dnssec_keyrotation.Errors.{ok}
use dnssec_keyrotation.Config.{enforce}
use dnssec_keyrotation.Model
use dnssec_keyrotation.Model.{
  State, Workflow, workflow_key, get_workflow, hour, split, zero_workflow, Zone,
}
use dnssec_keyrotation.Exec.{World, now, perform, pure, lift, or_missing, ◌>>=◌}
use dnssec_keyrotation.Store.{update}
use dnssec_keyrotation.Inventory.Keys.{Scheme}
use dnssec_keyrotation.Controller.Requests.{unless_used}
use dnssec_keyrotation.Controller.Arm.{arm_enrollment, arm_listed}
use dnssec_keyrotation.Controller.Trigger.{trigger, trigger_state}
use dnssec_keyrotation.Controller.Resume.{Recovery, resume, resume_state}
use dnssec_keyrotation.Controller.Reconcile.{reconcile_split_signer_transition}
use dnssec_keyrotation.Controller.Bootstrap.{bootstrap_state, bootstrap_roles}
use dnssec_keyrotation.Progress.Repeat.{Repeats}
use dnssec_keyrotation.Progress.Requests.{requests-Repeats}
use dnssec_keyrotation.Controller.Moves.{find_active}
use dnssec_keyrotation.Progress.Start.{active_in}
use dnssec_keyrotation.Progress.Triggered.{trigger-starts}
use dnssec_keyrotation.Progress.Armed.{arm-closes}
use dnssec_keyrotation.Progress.Resumed.{IsAt, resume-Moves}
use dnssec_keyrotation.Safety.Once.{IsQuiet}
use dnssec_keyrotation.Safety.Requests.{requests-IsQuiet}
use dnssec_keyrotation.Tests.Demo.{zone, zsk_keys, controller, no_state}

abbrev unarmed : World
unarmed = record {
  state = record no_state { enrollment_armed_at = 0 };
  disk = no_state;
  events = [];
}

requests-Repeats_example :
    Repeats (trigger (controller enforce zsk_keys) split ("Example.org" ∷ []) "0123456789abcdef")
    × Repeats (
        resume
          (controller enforce zsk_keys)
          split
          ("Example.org" ∷ [])
          Model.wait_publish
          "0123456789abcdef")
    × Repeats (arm_enrollment (controller enforce zsk_keys) "0123456789abcdef")
    × Repeats (
        reconcile_split_signer_transition
          (controller enforce zsk_keys)
          "Example.org"
          "0123456789abcdef")
requests-Repeats_example =
    requests-Repeats (controller enforce zsk_keys) "0123456789abcdef" split ("Example.org" ∷ [])
      Model.wait_publish "Example.org"

requests-IsQuiet_example :
    IsQuiet
      (trigger
        (controller enforce zsk_keys)
        split
        ("Example.org" ∷ [])
        "0123456789abcdef"
        unarmed).1.events
    × IsQuiet
        (resume
          (controller enforce zsk_keys)
          split
          ("Example.org" ∷ [])
          Model.wait_publish
          "0123456789abcdef"
          unarmed).1.events
    × IsQuiet (arm_enrollment (controller enforce zsk_keys) "0123456789abcdef" unarmed).1.events
    × IsQuiet
        (reconcile_split_signer_transition
          (controller enforce zsk_keys)
          "Example.org"
          "0123456789abcdef"
          unarmed).1.events
requests-IsQuiet_example =
    requests-IsQuiet (controller enforce zsk_keys) split ("Example.org" ∷ []) Model.wait_publish
      "Example.org" "0123456789abcdef" unarmed tt

abbrev armed : World
armed = (arm_listed (controller enforce zsk_keys) "0123456789abcdef" (zone ∷ []) unarmed).1

arms :
    arm_listed (controller enforce zsk_keys) "0123456789abcdef" (zone ∷ []) unarmed ≡ (ok tt, armed)
unfolding arm_listed now perform ◌>>=◌ update pure
arms = refl

arm-closes_example :
    bootstrap_state (controller enforce zsk_keys) zone zsk_keys hour Scheme.csk_scheme armed.state
    ≡ bootstrap_roles zone hour Scheme.csk_scheme armed.state
arm-closes_example =
    arm-closes (controller enforce zsk_keys) "0123456789abcdef" (zone ∷ []) zone (Memᴰ.head refl)
      refl unarmed armed zsk_keys hour Scheme.csk_scheme arms

abbrev stuck : Workflow
stuck = record zero_workflow {
  zone = "example.org.";
  kind = split;
  phase = Model.blocked;
  old_key_id = 1;
  new_key_id = 2;
  new_zsk_id = 3;
}

abbrev stuck_state : State
stuck_state = record no_state { workflows = ("example.org.|split", stuck) ∷ [] }

abbrev item : Recovery
item = record { zone = "example.org."; workflow = stuck }

abbrev moved : State
moved = record no_state {
  workflows =
      (
        "example.org.|split",
        record stuck { phase = Model.wait_publish; phase_started_at = hour; next_action_at = hour },
      )
      ∷ [];
  idempotency = ("0123456789abcdef", "resume") ∷ [];
}

is_fresh : lookup "0123456789abcdef" stuck_state.idempotency ≡ none
unfolding lookup
is_fresh = refl

moves :
    (resume_state split "resume" "0123456789abcdef" (item ∷ []) hour stuck_state unarmed).0
    ≡ ok moved
unfolding resume_state unless_used lookup insert workflow_key get_workflow pure lift ◌>>=◌
    or_missing
moves = refl

resume-Moves_example :
    IsAt Model.blocked stuck (get_workflow stuck_state (workflow_key "example.org." split))
    × IsAt Model.wait_publish stuck (get_workflow moved (workflow_key "example.org." split))
resume-Moves_example =
    resume-Moves split "resume" "0123456789abcdef" (item ∷ []) hour item (Memᴰ.head refl)
      stuck_state unarmed moved is_fresh moves

abbrev begun : State
begun = record no_state {
  workflows =
      (
        "example.org.|split",
        record zero_workflow {
          zone = "example.org.";
          kind = split;
          phase = Model.prepublish;
          phase_started_at = hour;
          next_action_at = hour;
          manual = true;
          idempotency_key = "0123456789abcdef";
        },
      )
      ∷ [];
  idempotency = ("0123456789abcdef", "split") ∷ [];
}

begins :
    (trigger_state split "split" "0123456789abcdef" ("example.org." ∷ []) hour no_state unarmed).0
    ≡ ok begun
unfolding trigger_state unless_used lookup insert values find_active workflow_key get_workflow pure
    ◌>>=◌ or_missing
begins = refl

trigger-starts_example :
    (active_in "example.org." no_state ≡ 0)
    × ((get_workflow begun (workflow_key "example.org." split)).phase ≡ Model.prepublish)
trigger-starts_example =
    trigger-starts split "0123456789abcdef" hour "split" "example.org." ("example.org." ∷ [])
      (Memᴰ.head refl) no_state unarmed begun is_fresh begins
