-- ===== src/Progress/Triggered.antt =====
-- `Trigger` of internal/controller/controller.go: what a manual rotation starts from, and what it leaves.
use dnssec_keyrotation.Base.{
  String, ◌≡◌, refl, subst, sym, none, List, [], ◌∷◌, lookup, values, lookup-insert, beq_refl,
  string_eq, ◌==◌, Bool-cases, inl, inr,
}
use mathlib.Core.List.{Memᴰ}
use dnssec_keyrotation.Errors.{ok}
use dnssec_keyrotation.Model
use dnssec_keyrotation.Model.{Kind, State, Time, workflow_key, get_workflow, put_workflow}
use dnssec_keyrotation.Exec.{World}
use dnssec_keyrotation.Controller.Requests.{unless_used, record_request}
use dnssec_keyrotation.Controller.Trigger.{reject_active, start_all, trigger_state, triggered}
use dnssec_keyrotation.Progress.Calls.{
  OfResult, Yields, Yields-pure, Yields-fail, Yields-missing, Yields-bind,
}
use dnssec_keyrotation.Progress.Start.{active_in, none_active}
use dnssec_keyrotation.Progress.Resumed.{Yields-known}

reject_active-Yields :
    (zone : String) (zones : List String) (s : State)
    → Memᴰ zone zones
    → Yields (λ _. Unit {0}) (λ _. active_in zone s ≡ 0) (reject_active zones s)
unfolding reject_active
reject_active-Yields zone [] s inside = elim inside [ ]
reject_active-Yields zone (first ∷ zones) s (Memᴰ.tail inside) =
    Yields-missing _ (λ _. reject_active-Yields zone zones s inside) (λ w. Yields-fail _)
reject_active-Yields zone (first ∷ zones) s (Memᴰ.head e) =
    Yields-missing _
      (λ idle.
        Yields-known
          (subst (λ z. active_in z s ≡ 0) (sym e) (none_active first (values s.workflows) idle)) _)
      (λ w. Yields-fail _)

-- One round of the loop, for any zone.
begin : (kind : Kind) (idem : String) (at : Time) (zone : String) (t : State) → State
begin kind idem at zone t =
    let k = workflow_key zone kind in
    put_workflow t k (triggered zone kind idem at (get_workflow t k))

-- The workflow is about to publish.
abbrev pub Begins : State → String → Type 0
Begins t k = (get_workflow t k).phase ≡ Model.prepublish

module _ (kind : Kind) (idem : String) (at : Time) where
  begin-Begins :
      (zone : String) (t : State) → Begins (begin kind idem at zone t) (workflow_key zone kind)
  unfolding begin get_workflow
  begin-Begins zone t =
      let k = workflow_key zone kind in
      rw
        (lookup-insert k k (triggered zone kind idem at (get_workflow t k)) t.workflows, beq_refl k)
        refl

  begin-keeps : (zone j : String) (t : State) → Begins t j → Begins (begin kind idem at zone t) j
  unfolding begin get_workflow
  begin-keeps zone j t h =
      let k = workflow_key zone kind in
      let found = lookup-insert k j (triggered zone kind idem at (get_workflow t k)) t.workflows in
      elim (Bool-cases (k == j)) [
        | inl same ↦ rw (found, same) refl
        | inr other ↦ rw (found, other) h
      ]

  start_all-keeps :
      (j : String) (zones : List String) (t : State)
      → Begins t j
      → Begins (start_all kind idem at zones t) j
  unfolding start_all begin
  start_all-keeps j [] t h = h
  start_all-keeps j (zone ∷ zones) t h =
      start_all-keeps j zones (begin kind idem at zone t) (begin-keeps zone j t h)

  start_all-Begins :
      (zone : String) (zones : List String) (t : State)
      → Memᴰ zone zones
      → Begins (start_all kind idem at zones t) (workflow_key zone kind)
  unfolding start_all begin
  start_all-Begins zone [] t inside = elim inside [ ]
  start_all-Begins zone (first ∷ zones) t (Memᴰ.tail inside) = start_all-Begins zone zones _ inside
  start_all-Begins zone (first ∷ zones) t (Memᴰ.head e) =
      let k = workflow_key zone kind in
      subst (λ z. Begins (start_all kind idem at (z ∷ zones) t) k) e
        (start_all-keeps k zones (begin kind idem at zone t) (begin-Begins zone t))

  module _ (text zone : String) (canonical : List String) (inside : Memᴰ zone canonical)
      (s : State) where
    trigger_state-Yields :
        lookup idem s.idempotency ≡ none
        → Yields
            (λ _. Unit {0})
            (λ t. (active_in zone s ≡ 0) × Begins t (workflow_key zone kind))
            (trigger_state kind text idem canonical at s)
    unfolding trigger_state get_workflow unless_used
    trigger_state-Yields fresh =
        rw (fresh, unless_used)
          (Yields-bind (reject_active-Yields zone canonical s inside) (λ _ idle.
            Yields-pure (record_request idem text (start_all kind idem at canonical s))
              (idle, start_all-Begins zone canonical s inside)))

    -- A manual rotation whose key is not on record, when it goes through, found no workflow of its zones in
    -- progress, and leaves the workflow of its kind at the beginning, for each of them.
    pub trigger-starts :
        (before : World) (t : State)
        → lookup idem s.idempotency ≡ none
        → (trigger_state kind text idem canonical at s before).0 ≡ ok t
        → (active_in zone s ≡ 0)
          × ((get_workflow t (workflow_key zone kind)).phase ≡ Model.prepublish)
    trigger-starts before t fresh e =
        subst (OfResult (λ t. (active_in zone s ≡ 0) × Begins t (workflow_key zone kind))) e
          ((trigger_state-Yields fresh).at before tt).1
