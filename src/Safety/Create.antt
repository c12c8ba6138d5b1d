-- ===== src/Safety/Create.antt =====
-- `prepublish` of internal/controller/controller.go: a key is created only after its intent is on disk.
use dnssec_keyrotation.Base.{◌≡◌, refl, Bool, true, false, not, List, [], ◌∷◌, lookup, string_eq}
use dnssec_keyrotation.Model.{Key, Zone, Workflow, State, Time, is_zero, workflow_key}
use dnssec_keyrotation.Api.{Controller, History}
use dnssec_keyrotation.Exec.Keeps.{Keeps, Keeps-fail, Keeps-pure, Leads-bind}
use dnssec_keyrotation.Exec.Finds.{
  Finds, Finds-bind, Finds-if, Finds-fail, Finds-present, Finds-weaken,
}
use dnssec_keyrotation.Exec.Leads.{
  Leads-found, Leads-decide, Keeps-Leads, Leads-Keeps, Implies-same,
}
use dnssec_keyrotation.Inventory.Passed.{not-false}
use dnssec_keyrotation.Controller.Candidates.{Wanted}
use dnssec_keyrotation.Controller.Prepublish.{
  run_prepublish, adopt_or_create, create, choose, record_create_attempt, create_attempt_state,
  attempted_at, mark_attempt,
}
use dnssec_keyrotation.Safety.Guards.{Endures, On, On-lasting}
use dnssec_keyrotation.Safety.Conditions.{Allowed, IsSafe, Records, Intended}
use dnssec_keyrotation.Safety.Calls.{lasting_rules}
use dnssec_keyrotation.Safety.Safe.{IsSafe-endures, put-Finds}
use dnssec_keyrotation.Safety.Evidence.{
  Both, Both-endures, ReadAt-endures, now-Finds, update-Finds, create_key-Leads,
}

marked :
    (x : Workflow) (zsk_slot : Bool) (at : Time)
    → attempted_at (mark_attempt x zsk_slot at) zsk_slot ≡ at
marked x true at = refl
marked x false at = refl

module _ (c : Controller) (start : History) (zone : Zone) (keys : List Key) (w : Workflow) where
  abbrev Safe : History → Type 0
  Safe = IsSafe c zone keys w start

  safe : Endures Safe
  safe = IsSafe-endures c zone keys w start

  module _ (want : Wanted) where
    abbrev attempt : Workflow → Time
    attempt x = attempted_at x want.zsk_slot

    -- What the mutation of the attempt returns has the attempt on record.
    state-Finds :
        (at : Time) (t : State) (H : History → Type 0)
        → Finds
            (On H)
            (λ u s. Records w attempt at u × H s.events)
            (create_attempt_state c zone w want at t)
    unfolding create_attempt_state
    state-Finds at t H =
        Finds-present (lookup (workflow_key w.zone w.kind) t.workflows) (Finds-fail _) λ current _.
          let recorded =
            put-Finds w attempt at t (mark_attempt current want.zsk_slot at) H
              (marked current want.zsk_slot at) in
          search (Finds-if, Finds-fail)

    attempt-Finds :
        is_zero (attempt w) ≡ true
        → Finds
            (On Safe)
            (λ _. On (Both Safe (Intended c w attempt)))
            (record_create_attempt c zone w want)
    unfolding record_create_attempt
    attempt-Finds first = Finds-bind (now-Finds c safe) λ at.
        Finds-weaken
          (update-Finds c (Both-endures safe (ReadAt-endures c at)) (λ t. state-Finds at t _))
          λ _ s h. (h.0.0, record { first = first; at = at; read = h.0.1; written = h.1 })

    create-IsSafe : Keeps (On Safe) (create c zone w want)
    unfolding create record_create_attempt create_attempt_state
    create-IsSafe =
        let lasting = On-lasting safe in
        Keeps-Leads (
          Leads-decide (not (is_zero (attempt w))) (λ _. Leads-Keeps (Keeps-fail _))
            λ fresh.
              Leads-found Implies-same (search lasting_rules depth 30)
                (attempt-Finds (not-false _ fresh))
                λ _.
                  Leads-bind
                    (create_key-Leads c (Allowed c zone keys w) start zone.id want.typ
                      want.algorithm want.active
                      (λ s h. ((refl, record { zsk_slot = want.zsk_slot; intended = h.1 }), h.0)))
                    λ created. search lasting_rules)

    choose-IsSafe : (found : List Key) → Keeps (On Safe) (choose c zone w want found)
    unfolding choose
    choose-IsSafe [] = create-IsSafe
    choose-IsSafe (k ∷ []) = Keeps-pure k
    choose-IsSafe (k ∷ l ∷ rest) = Keeps-fail _

    pub adopt-IsSafe : (found : List Key) → Keeps (On Safe) (adopt_or_create c zone w want found)
    unfolding adopt_or_create
    adopt-IsSafe found = let lasting = On-lasting safe in search (lasting_rules, choose-IsSafe)

  pub prepublish-IsSafe : Keeps (On Safe) (run_prepublish c zone keys w)
  unfolding run_prepublish
  prepublish-IsSafe = let lasting = On-lasting safe in search (lasting_rules, adopt-IsSafe) depth 30
