-- ===== src/Safety/Requests.antt =====
-- `Trigger`, `Resume`, `ArmEnrollment` and `ReconcileSplitSignerTransition` of
-- internal/controller/controller.go: they write the state, and change neither keys nor the parent.
use dnssec_keyrotation.Base.{String, List, [], ◌∷◌, refl, Assoc}
use dnssec_keyrotation.Model.{Kind, Phase, State, Zone}
use dnssec_keyrotation.Api.{Controller}
use dnssec_keyrotation.Exec.{World, list_keys, perform}
use dnssec_keyrotation.Exec.Keeps.{Keeps, Keeps-pure}
use dnssec_keyrotation.Controller.Requests.{unless_used}
use dnssec_keyrotation.Controller.Arm.{arm_enrollment, arm_state}
use dnssec_keyrotation.Controller.Trigger.{
  trigger, trigger_state, reject_active, canonical_name, canonical_names,
}
use dnssec_keyrotation.Controller.Resume.{
  resume, resume_state, check_unchanged, check_all_unchanged, check_live, recovery_of, recoveries,
  Recovery,
}
use dnssec_keyrotation.Controller.Reconcile.{
  reconcile_split_signer_transition, attest_state, attest,
}
use dnssec_keyrotation.Safety.Guards.{On}
use dnssec_keyrotation.Safety.Calls.{lasting_rules}
use dnssec_keyrotation.Safety.Once.{IsQuiet, IsQuiet-lasting}
use dnssec_keyrotation.Safety.Waits.{signer_transition-Lasting}
use dnssec_keyrotation.Base.{Option, none, some}
use dnssec_keyrotation.Errors.{Error}
use dnssec_keyrotation.Exec.{M}

module _ {A : Type 0} where
  unless_used-Keeps :
      {P : World → Type 0} (found : Option String) (text : String) (done : A) (e : Error)
      {rest : M A}
      → Keeps P rest
      → Keeps P (unless_used found text done e rest)
  unfolding unless_used
  unless_used-Keeps none text done e kr = kr
  unless_used-Keeps (some x) text done e kr = search lasting_rules

module _ (c : Controller) where
  list_keys-IsQuiet : (id : String) → Keeps (On IsQuiet) (list_keys c id)
  unfolding list_keys perform
  list_keys-IsQuiet id = record { at = λ s h. (refl, h) }

  reject_active-IsQuiet :
      (zones : List String) (s : State) → Keeps (On IsQuiet) (reject_active zones s)
  unfolding reject_active
  reject_active-IsQuiet [] s = Keeps-pure tt
  reject_active-IsQuiet (zone ∷ zones) s =
      let rest = reject_active-IsQuiet zones s in search lasting_rules

  names-IsQuiet :
      (kind : Kind) (table : Assoc Zone) (names : List String)
      → Keeps (On IsQuiet) (canonical_names c kind table names)
  unfolding canonical_names canonical_name
  names-IsQuiet kind table [] = Keeps-pure []
  names-IsQuiet kind table (name ∷ names) =
      let rest = names-IsQuiet kind table names in
      search (lasting_rules, list_keys-IsQuiet) depth 30

  trigger-IsQuiet :
      (kind : Kind) (zones : List String) (idem : String)
      → Keeps (On IsQuiet) (trigger c kind zones idem)
  unfolding trigger trigger_state
  trigger-IsQuiet kind zones idem =
      let quiet = IsQuiet-lasting in
      search (lasting_rules, unless_used-Keeps, names-IsQuiet, reject_active-IsQuiet) depth 30

  unchanged-IsQuiet :
      (kind : Kind) (s : State) (items : List Recovery)
      → Keeps (On IsQuiet) (check_all_unchanged kind s items)
  unfolding check_all_unchanged check_unchanged
  unchanged-IsQuiet kind s [] = Keeps-pure tt
  unchanged-IsQuiet kind s (item ∷ items) =
      let rest = unchanged-IsQuiet kind s items in search lasting_rules depth 20

  recoveries-IsQuiet :
      (kind : Kind) (s : State) (table : Assoc Zone) (names : List String)
      → Keeps (On IsQuiet) (recoveries c kind s table names)
  unfolding recoveries recovery_of check_live
  recoveries-IsQuiet kind s table [] = Keeps-pure []
  recoveries-IsQuiet kind s table (name ∷ names) =
      let quiet = IsQuiet-lasting in
      let rest = recoveries-IsQuiet kind s table names in
      search (lasting_rules, list_keys-IsQuiet) depth 40

  resume-IsQuiet :
      (kind : Kind) (zones : List String) (phase : Phase) (idem : String)
      → Keeps (On IsQuiet) (resume c kind zones phase idem)
  unfolding resume resume_state
  resume-IsQuiet kind zones phase idem =
      let quiet = IsQuiet-lasting in
      search (lasting_rules, unless_used-Keeps, recoveries-IsQuiet, unchanged-IsQuiet) depth 40

  arm-IsQuiet : (idem : String) → Keeps (On IsQuiet) (arm_enrollment c idem)
  unfolding arm_enrollment arm_state
  arm-IsQuiet idem =
      let quiet = IsQuiet-lasting in search (lasting_rules, unless_used-Keeps) depth 40

  reconcile-IsQuiet :
      (zone idem : String) → Keeps (On IsQuiet) (reconcile_split_signer_transition c zone idem)
  unfolding reconcile_split_signer_transition attest attest_state
  reconcile-IsQuiet zone idem =
      let quiet = IsQuiet-lasting in
      search (lasting_rules, unless_used-Keeps, list_keys-IsQuiet, signer_transition-Lasting) depth
        40

  -- The requests of an operator make no mutation of keys or of the parent, whatever they are and whatever the
  -- servers, the registrar, the clock and the disk answer, if there was none before.
  pub requests-IsQuiet :
      (kind : Kind) (zones : List String) (phase : Phase) (zone idem : String) (s : World)
      → IsQuiet s.events
      → IsQuiet (trigger c kind zones idem s).1.events
        × IsQuiet (resume c kind zones phase idem s).1.events
        × IsQuiet (arm_enrollment c idem s).1.events
        × IsQuiet (reconcile_split_signer_transition c zone idem s).1.events
  requests-IsQuiet kind zones phase zone idem s quiet = (
    (trigger-IsQuiet kind zones idem).at s quiet,
    (resume-IsQuiet kind zones phase idem).at s quiet,
    (arm-IsQuiet idem).at s quiet,
    (reconcile-IsQuiet zone idem).at s quiet,
  )
