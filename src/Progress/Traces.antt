-- ===== src/Progress/Traces.antt =====
-- Runs of a workflow along the graph of phases: no rotation skips the waits that protect resolvers.
use dnssec_keyrotation.Base.{
  List, subst, sym, ◌∙◌, ◌≡◌, ◌≢◌, refl, ◌||◌, true, false, Bool, if◌then◌else◌,
}
use dnssec_keyrotation.Model
use dnssec_keyrotation.Model.{
  Kind, Phase, is_ksk, is_split, Zone, Key, Workflow, get_workflow, workflow_key,
}
use dnssec_keyrotation.Api.{Controller}
use dnssec_keyrotation.Exec.{World}
use dnssec_keyrotation.Controller.Schedule.{advance}
use dnssec_keyrotation.Progress.Graph
use dnssec_keyrotation.Progress.Graph.{Step, advance-Step}

-- A run of steps of which none leads into the phase `avoided`.
pub data Run (kind : Kind) (avoided : Phase) : Phase → Phase → Type 0 where
  here : {p : Phase} → Run kind avoided p p
  next : {p q r : Phase} → Run kind avoided p q → Step kind q r → r ≢ avoided → Run kind avoided p r

-- The phases that calls of `advance` lead through, on workflows of one kind, from the first phase to the
-- last. Each call sees the stored phase, and none leaves the workflow in the phase `avoided`.
pub data Advances (kind : Kind) (avoided : Phase) : Phase → Phase → Type 0 where
  begin : {p : Phase} → Advances kind avoided p p
  go_on :
      {p q r : Phase} (c : Controller) (zone : Zone) (keys : List Key) (w : Workflow) (s : World)
      → Advances kind avoided p q
      → w.zone ≡ zone.name
      → w.kind ≡ kind
      → w.phase ≡ q
      → (get_workflow s.state (workflow_key w.zone w.kind)).phase ≡ q
      → (get_workflow (advance c zone keys w s).1.state (workflow_key w.zone w.kind)).phase ≡ r
      → r ≢ avoided
      → Advances kind avoided p r

to_run : {kind : Kind} {avoided p q : Phase} → Advances kind avoided p q → Run kind avoided p q
to_run begin = here
to_run (go_on {q = q} {r = r} c zone keys w s before name kind_e phase_e stored after avoids) =
    let step = advance-Step c zone keys w name s (stored ∙ sym phase_e) in
    let typed =
      subst (λ k. Step k q r) kind_e
        (subst (λ a. Step w.kind a r) phase_e (subst (Step w.kind w.phase) after step)) in
    next (to_run before) typed avoids

-- Before the wait for the parent, or blocked.
abbrev Early : Phase → Type 0
Early Model.prepublish = Unit {0}
Early Model.wait_publish = Unit {0}
Early Model.parent_remove = Unit {0}
Early Model.blocked = Unit {0}
Early _ = ⊥

Early-step :
    {kind : Kind} {p q : Phase}
    → (is_ksk kind || is_split kind) ≡ true
    → Step kind p q
    → q ≢ Model.wait_parent_remove
    → Early p
    → Early q
Early-step parental Graph.stays avoids early = early
Early-step parental Graph.halts avoids early = tt
Early-step parental Graph.added avoids early = tt
Early-step parental Graph.published avoids early = rw parental tt
Early-step parental Graph.submitted avoids early = absurd (avoids refl)
Early-step parental Graph.delegated avoids early = absurd early
Early-step parental Graph.activated avoids early = absurd early
Early-step parental Graph.signed avoids early = absurd early
Early-step parental Graph.restarted avoids early = absurd early
Early-step parental (Graph.switched_ksk ksk) avoids early = absurd early
Early-step parental (Graph.switched other) avoids early = absurd early
Early-step parental Graph.retired avoids early = absurd early
Early-step parental Graph.deleted avoids early = absurd early
Early-step parental Graph.accepted avoids early = absurd early
Early-step parental Graph.settled avoids early = absurd early
Early-step parental Graph.visible avoids early = absurd early
Early-step parental Graph.requested avoids early = absurd early
Early-step parental Graph.confirmed avoids early = absurd early

Early-Run :
    {kind : Kind} {p q : Phase}
    → (is_ksk kind || is_split kind) ≡ true
    → Run kind Model.wait_parent_remove p q
    → Early p
    → Early q
Early-Run parental here early = early
Early-Run parental (next run step avoids) early =
    Early-step parental step avoids (Early-Run parental run early)

-- A KSK rotation or split migration that never waits for the parent never gets to activate a ZSK, to
-- deactivate the old key or to delete it.
pub parent_first :
    (kind : Kind) (p : Phase)
    → (is_ksk kind || is_split kind) ≡ true
    → Advances kind Model.wait_parent_remove Model.prepublish p
    → (p ≢ Model.activate_new) × (p ≢ Model.deactivate_old) × (p ≢ Model.delete_old)
parent_first kind p parental run =
    let early = Early-Run parental (to_run run) tt in
    (λ e. subst Early e early, λ e. subst Early e early, λ e. subst Early e early)

-- Any phase but the deletion and the end that follows it.
abbrev Kept : Phase → Type 0
Kept Model.delete_old = ⊥
Kept Model.wait_retire = ⊥
Kept Model.idle = ⊥
Kept Model.enroll_discovered = ⊥
Kept Model.enroll_wait_parent = ⊥
Kept Model.enroll_wait_publish = ⊥
Kept Model.enroll_parent_add = ⊥
Kept _ = Unit {0}

Kept-if : (b : Bool) (p q : Phase) → Kept p → Kept q → Kept (if b then p else q)
Kept-if true p q kp kq = kp
Kept-if false p q kp kq = kq

Kept-step :
    {kind : Kind} {p q : Phase}
    → is_ksk kind ≡ false
    → Step kind p q
    → q ≢ Model.wait_retire
    → Kept p
    → Kept q
Kept-step zonal Graph.stays avoids kept = kept
Kept-step zonal Graph.halts avoids kept = tt
Kept-step zonal Graph.added avoids kept = tt
Kept-step {kind = k} zonal Graph.published avoids kept =
    Kept-if (is_ksk k || is_split k) Model.parent_remove Model.activate_new tt tt
Kept-step zonal Graph.submitted avoids kept = tt
Kept-step {kind = k} zonal Graph.delegated avoids kept =
    Kept-if (is_split k) Model.activate_new Model.deactivate_old tt tt
Kept-step zonal Graph.activated avoids kept = tt
Kept-step zonal Graph.signed avoids kept = tt
Kept-step zonal Graph.restarted avoids kept = tt
Kept-step zonal (Graph.switched_ksk ksk) avoids kept = cc
Kept-step zonal (Graph.switched other) avoids kept = absurd (avoids refl)
Kept-step zonal Graph.retired avoids kept = absurd kept
Kept-step zonal Graph.deleted avoids kept = absurd kept
Kept-step zonal Graph.accepted avoids kept = absurd kept
Kept-step zonal Graph.settled avoids kept = absurd kept
Kept-step zonal Graph.visible avoids kept = absurd kept
Kept-step zonal Graph.requested avoids kept = absurd kept
Kept-step zonal Graph.confirmed avoids kept = absurd kept

Kept-Run :
    {kind : Kind} {p q : Phase}
    → is_ksk kind ≡ false
    → Run kind Model.wait_retire p q
    → Kept p
    → Kept q
Kept-Run zonal here kept = kept
Kept-Run zonal (next run step avoids) kept = Kept-step zonal step avoids (Kept-Run zonal run kept)

-- A ZSK rotation or split migration that never waits for the old signatures to expire never gets to
-- delete the old key.
pub retire_first :
    (kind : Kind) (p : Phase)
    → is_ksk kind ≡ false
    → Advances kind Model.wait_retire Model.prepublish p
    → p ≢ Model.delete_old
retire_first kind p zonal run = λ e. subst Kept e (Kept-Run zonal (to_run run) tt)
