-- ===== src/Safety/Advance.antt =====
-- `advance` of internal/controller/controller.go: whatever the phase, it changes keys and the parent only
-- after the evidence for it.
use dnssec_keyrotation.Base.{List, [], ◌∷◌, Option, none, some}
use dnssec_keyrotation.Errors.{errorf, str}
use dnssec_keyrotation.Model
use dnssec_keyrotation.Model.{Key, Zone, Workflow, Phase, phase_text}
use dnssec_keyrotation.Api.{Controller, History}
use dnssec_keyrotation.Exec.{M, or_missing, fail}
use dnssec_keyrotation.Exec.Keeps.{Keeps, Keeps-pure, Keeps-fail}
use dnssec_keyrotation.Controller.Schedule.{advance_now, advance, with_retry, handler}
use dnssec_keyrotation.Safety.Guards.{IsLasting, On, On-lasting}
use dnssec_keyrotation.Safety.Conditions.{IsSafe}
use dnssec_keyrotation.Safety.Calls.{lasting_rules}
use dnssec_keyrotation.Safety.Safe.{IsSafe-endures}
use dnssec_keyrotation.Safety.Waits.{
  wait_publish-Lasting, wait_new_signature-Lasting, wait_parent_replace-Lasting,
  wait_retire-Lasting, enroll_discovered-Lasting, enroll_wait_publish-Lasting,
  enroll_wait_parent-Lasting,
}
use dnssec_keyrotation.Safety.Retire.{delete_old-IsSafe}
use dnssec_keyrotation.Safety.Signer.{activate_new-IsSafe, deactivate_old-IsSafe}
use dnssec_keyrotation.Safety.Parent.{parent_replace-IsSafe, enroll_parent_add-IsSafe}
use dnssec_keyrotation.Safety.Create.{prepublish-IsSafe}

module _ (c : Controller) (start : History) (zone : Zone) (keys : List Key) (w : Workflow) where
  abbrev Safe : History → Type 0
  Safe = IsSafe c zone keys w start

  lasting : IsLasting (On Safe)
  lasting = On-lasting (IsSafe-endures c zone keys w start)

  abbrev Runs : Option (M (Unit {0})) → Type 0
  Runs none = Unit {0}
  Runs (some run) = Keeps (On Safe) run

  handler-IsSafe : (phase : Phase) → Runs (handler c zone keys phase w)
  unfolding handler
  handler-IsSafe Model.prepublish = prepublish-IsSafe c start zone keys w
  handler-IsSafe Model.wait_publish = wait_publish-Lasting lasting c zone keys w
  handler-IsSafe Model.activate_new = activate_new-IsSafe c start zone keys w
  handler-IsSafe Model.wait_new_signature = wait_new_signature-Lasting lasting c zone keys w
  handler-IsSafe Model.deactivate_old = deactivate_old-IsSafe c start zone keys w
  handler-IsSafe Model.parent_remove = parent_replace-IsSafe c start zone keys w
  handler-IsSafe Model.wait_parent_remove = wait_parent_replace-Lasting lasting c zone keys w
  handler-IsSafe Model.wait_retire = wait_retire-Lasting lasting c zone keys w
  handler-IsSafe Model.delete_old = delete_old-IsSafe c start zone keys w
  handler-IsSafe Model.enroll_discovered = enroll_discovered-Lasting lasting c zone keys w
  handler-IsSafe Model.enroll_wait_publish = enroll_wait_publish-Lasting lasting c zone keys w
  handler-IsSafe Model.enroll_parent_add = enroll_parent_add-IsSafe c start zone keys w
  handler-IsSafe Model.enroll_wait_parent = enroll_wait_parent-Lasting lasting c zone keys w
  handler-IsSafe Model.blocked = Keeps-pure tt
  handler-IsSafe Model.idle = tt
  handler-IsSafe (Model.other_phase text) = tt

  with_retry-IsSafe :
      {run : M (Unit {0})} → Keeps (On Safe) run → Keeps (On Safe) (with_retry c zone keys w run)
  unfolding with_retry
  with_retry-IsSafe kr = let safe = lasting in search lasting_rules depth 30

  run-IsSafe :
      (run : Option (M (Unit {0})))
      → Runs run
      → Keeps (On Safe) (
          or_missing run
            (fail (errorf "unknown phase %q" (str (phase_text w.phase) ∷ [])))
            (with_retry c zone keys w))
  unfolding or_missing
  run-IsSafe none safe = Keeps-fail _
  run-IsSafe (some run) safe = with_retry-IsSafe safe

  advance_now-IsSafe : Keeps (On Safe) (advance_now c zone keys w)
  unfolding advance_now
  advance_now-IsSafe = run-IsSafe (handler c zone keys w.phase w) (handler-IsSafe w.phase)

  pub advance-Keeps : Keeps (On Safe) (advance c zone keys w)
  unfolding advance
  advance-Keeps = let safe = lasting in search (lasting_rules, advance_now-IsSafe) depth 30
