-- ===== src/Safety/Safe.antt =====
-- The calls of one `advance` of internal/controller/controller.go are allowed: what its handlers share.
use dnssec_keyrotation.Base.{true, ◌≡◌, refl, String, List, lookup-insert, beq_refl, string_eq}
use dnssec_keyrotation.Errors.{Error}
use dnssec_keyrotation.Model.{Key, Zone, Workflow, Kind, Time, State, put_workflow, workflow_key}
use dnssec_keyrotation.Api.{Controller, Call, History}
use dnssec_keyrotation.Exec.{World, pure}
use dnssec_keyrotation.Exec.Finds.{Finds, Finds-doomed, Finds-pure}
use dnssec_keyrotation.Controller.Moves.{block}
use dnssec_keyrotation.Safety.Guards.{Endures, On, is_harmless, made}
use dnssec_keyrotation.Safety.Conditions.{Allowed, IsSafe, Records}

module _ (c : Controller) (zone : Zone) (keys : List Key) (w : Workflow) where
  harmless-Allowed :
      (call : Call) (past : History) → is_harmless call ≡ true → Allowed c zone keys w call past
  harmless-Allowed (Call.create_key id typ algorithm active) past h = cc
  harmless-Allowed (Call.set_key id key active published) past h = cc
  harmless-Allowed (Call.delete_key id key) past h = cc
  harmless-Allowed (Call.update_dnssec name material ctid) past h = cc
  harmless-Allowed _ past h = tt

  pub IsSafe-endures : (start : History) → Endures (IsSafe c zone keys w start)
  IsSafe-endures start = record {
    stable = λ e past harmless h. made e (harmless-Allowed e.call past harmless) h;
  }

-- A workflow that was just put into the state is on record with its time of the attempt.
Records-put :
    (w : Workflow) (attempt : Workflow → Time) (at : Time) (t : State) (x : Workflow)
    → attempt x ≡ at
    → Records w attempt at (put_workflow t (workflow_key w.zone w.kind) x)
Records-put w attempt at t x marked =
    let k = workflow_key w.zone w.kind in
    record {
      stored = x;
      found = rw (lookup-insert k k x t.workflows, beq_refl k) refl;
      marked = marked;
    }

pub put-Finds :
    (w : Workflow) (attempt : Workflow → Time) (at : Time) (t : State) (x : Workflow)
    (H : History → Type 0)
    → attempt x ≡ at
    → Finds
        (On H)
        (λ u s. Records w attempt at u × H s.events)
        (pure (put_workflow t (workflow_key w.zone w.kind) x))
put-Finds w attempt at t x H marked = Finds-pure _ λ s h. (Records-put w attempt at t x marked, h)

module _ (c : Controller) where
  -- A block never returns.
  pub block-Finds :
      {A : Type 0} {H : World → Type 0} {Q : A → World → Type 0} (zone : String) (kind : Kind)
      (e : Error)
      → Finds H Q (block c zone kind e)
  unfolding block
  block-Finds zone kind e = Finds-doomed _ e
