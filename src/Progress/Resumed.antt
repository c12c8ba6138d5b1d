-- ===== src/Progress/Resumed.antt =====
-- `Resume` of internal/controller/controller.go: which workflows it moves, and where to.
use dnssec_keyrotation.Base.{
  sym, eq_iff, String, Bool, true, false, not, ◌||◌, ◌≡◌, refl, subst, none, List, [], ◌∷◌, lookup,
  lookup-insert, beq_refl, string_eq, nat_eq, ◌==◌, if◌then◌else◌, Bool-cases, inl, inr, arith,
}
use mathlib.Core.List.{Memᴰ}
use dnssec_keyrotation.Errors.{Error, Result, ok, err, reject_if}
use dnssec_keyrotation.Model
use dnssec_keyrotation.Model.{
  Kind, Phase, State, Time, Workflow, is_blocked, workflow_key, get_workflow, put_workflow,
}
use dnssec_keyrotation.Exec.{◌>>◌, World, M, lift}
use dnssec_keyrotation.Controller.Requests.{record_request, unless_used}
use dnssec_keyrotation.Controller.Resume.{
  Recovery, check_unchanged, check_all_unchanged, resumed, resume_all, resume_state,
}
use dnssec_keyrotation.Progress.Calls.{
  OfResult, Yields, Yields-pure, Yields-fail, Yields-found, Yields-bind, Yields-after,
}

-- The workflow records the keys of another one.
abbrev pub HasKeys : Workflow → Workflow → Type 0
HasKeys w x =
    (x.old_key_id ≡ w.old_key_id) × (x.new_key_id ≡ w.new_key_id) × (x.new_zsk_id ≡ w.new_zsk_id)

-- The workflow is in the phase, with the keys of another one.
abbrev pub IsAt : Phase → Workflow → Workflow → Type 0
IsAt phase w x = (x.phase ≡ phase) × HasKeys w x

is_blocked-phase : (phase : Phase) → is_blocked phase ≡ true → phase ≡ Model.blocked
is_blocked-phase Model.blocked e = refl
is_blocked-phase Model.idle e = cc
is_blocked-phase _ e = cc

reject-Yields :
    {Q : Unit {0} → Type 0} (b : Bool) (e : Error)
    → (b ≡ false → Q tt)
    → Yields (λ _. Unit {0}) Q (lift (reject_if b e))
unfolding lift
reject-Yields true e passes = record { at = λ s h. (tt, tt) }
reject-Yields false e passes = record { at = λ s h. (tt, passes refl) }

pub Yields-known : {A : Type 0} {C : Type 0} → C → (m : M A) → Yields (λ _. Unit {0}) (λ _. C) m
Yields-known {A} {C} q m = record { at = λ s h. (tt, known (m s).0) }
  where
    known : (r : Result A) → OfResult (λ _. C) r
    known (ok a) = q
    known (err e) = tt

passed :
    (x w : Workflow)
    → (not (is_blocked x.phase)
        || not (x.old_key_id == w.old_key_id)
        || not (x.new_key_id == w.new_key_id)
        || not (x.new_zsk_id == w.new_zsk_id))
      ≡ false
    → IsAt Model.blocked w x
passed x w e = ground (arith, is_blocked-phase x.phase)

module _ (kind : Kind) (s : State) (item : Recovery) where
  check_unchanged-Yields :
      Yields
        (λ _. Unit {0})
        (λ _. IsAt Model.blocked item.workflow (get_workflow s (workflow_key item.zone kind)))
        (check_unchanged kind s item)
  unfolding check_unchanged get_workflow
  check_unchanged-Yields =
      Yields-found _ (Yields-fail _)
        (λ current found. reject-Yields _ _ (λ e. rw found (passed current item.workflow e)))

  check_all-Yields :
      (items : List Recovery)
      → Memᴰ item items
      → Yields
          (λ _. Unit {0})
          (λ _. IsAt Model.blocked item.workflow (get_workflow s (workflow_key item.zone kind)))
          (check_all_unchanged kind s items)
  unfolding check_all_unchanged
  check_all-Yields [] inside = elim inside [ ]
  check_all-Yields (x ∷ items) (Memᴰ.tail inside) =
      Yields-after (record { at = λ s h. tt }) (λ _. check_all-Yields items inside)
  check_all-Yields (x ∷ items) (Memᴰ.head e) =
      subst
        (λ y.
          Yields (λ _. Unit {0})
            (λ _. IsAt Model.blocked item.workflow (get_workflow s (workflow_key item.zone kind)))
            (check_unchanged kind s y >> check_all_unchanged kind s items))
        e (Yields-bind check_unchanged-Yields (λ _ q. Yields-known q _))

-- One round of the loop, under any key.
step : (k : String) (at : Time) (t : State) → State
step k at t = put_workflow t k (resumed at (get_workflow t k))

module _ (at : Time) (t : State) where
  step-found :
      (k j : String)
      → get_workflow (step k at t) j
        ≡ (if k == j then resumed at (get_workflow t k) else get_workflow t j)
  unfolding step get_workflow
  step-found k j = elim (Bool-cases (k == j)) [
    | inl same ↦ rw (lookup-insert k j (resumed at (get_workflow t k)) t.workflows, same) refl
    | inr other ↦ rw (lookup-insert k j (resumed at (get_workflow t k)) t.workflows, other) refl
  ]

  step-HasKeys :
      (w : Workflow) (k j : String)
      → HasKeys w (get_workflow t j)
      → HasKeys w (get_workflow (step k at t) j)
  step-HasKeys w k j h = elim (Bool-cases (k == j)) [
    | inl same ↦
        rw (step-found k j, same)
          (subst (λ i. HasKeys w (resumed at (get_workflow t i))) (sym ((eq_iff k j).0 same)) h)
    | inr other ↦ rw (step-found k j, other) h
  ]

  step-waits :
      (k j : String)
      → (get_workflow t j).phase ≡ Model.wait_publish
      → (get_workflow (step k at t) j).phase ≡ Model.wait_publish
  step-waits k j h = elim (Bool-cases (k == j)) [
    | inl same ↦ rw (step-found k j, same) refl
    | inr other ↦ rw (step-found k j, other) h
  ]

  step-resumes : (k : String) → (get_workflow (step k at t) k).phase ≡ Model.wait_publish
  step-resumes k = rw (step-found k k, beq_refl k) refl

module _ (kind : Kind) (at : Time) (j : String) where
  resume_all-HasKeys :
      (w : Workflow) (items : List Recovery) (t : State)
      → HasKeys w (get_workflow t j)
      → HasKeys w (get_workflow (resume_all kind at items t) j)
  unfolding resume_all step
  resume_all-HasKeys w [] t h = h
  resume_all-HasKeys w (x ∷ items) t h =
      let k = workflow_key x.zone kind in
      resume_all-HasKeys w items (step k at t) (step-HasKeys at t w k j h)

  resume_all-waits :
      (items : List Recovery) (t : State)
      → (get_workflow t j).phase ≡ Model.wait_publish
      → (get_workflow (resume_all kind at items t) j).phase ≡ Model.wait_publish
  unfolding resume_all step
  resume_all-waits [] t h = h
  resume_all-waits (x ∷ items) t h =
      let k = workflow_key x.zone kind in
      resume_all-waits items (step k at t) (step-waits at t k j h)

resume_all-resumes :
    (kind : Kind) (at : Time) (item : Recovery) (items : List Recovery) (t : State)
    → Memᴰ item items
    → (get_workflow (resume_all kind at items t) (workflow_key item.zone kind)).phase
      ≡ Model.wait_publish
unfolding resume_all step
resume_all-resumes kind at item [] t inside = elim inside [ ]
resume_all-resumes kind at item (x ∷ items) t (Memᴰ.tail inside) =
    resume_all-resumes kind at item items _ inside
resume_all-resumes kind at item (x ∷ items) t (Memᴰ.head e) =
    let k = workflow_key item.zone kind in
    subst (λ y. (get_workflow (resume_all kind at (y ∷ items) t) k).phase ≡ Model.wait_publish) e
      (resume_all-waits kind at k items (step k at t) (step-resumes at t k))

module _ (kind : Kind) (text idem : String) (items : List Recovery) (at : Time) (item : Recovery)
    (inside : Memᴰ item items) (s : State) where
  resume_state-Yields :
      lookup idem s.idempotency ≡ none
      → Yields
          (λ _. Unit {0})
          (λ t.
            IsAt Model.blocked item.workflow (get_workflow s (workflow_key item.zone kind))
            × IsAt Model.wait_publish item.workflow (get_workflow t (workflow_key item.zone kind)))
          (resume_state kind text idem items at s)
  unfolding resume_state get_workflow unless_used
  resume_state-Yields fresh =
      let k = workflow_key item.zone kind in
      rw (fresh, unless_used)
        (Yields-bind (check_all-Yields kind s item items inside) (λ _ q.
          Yields-pure (record_request idem text (resume_all kind at items s)) (
            q,
            (
              resume_all-resumes kind at item items s inside,
              resume_all-HasKeys kind at k item.workflow items s q.1,
            ),
          )))

  -- A resumption whose key is not on record, when it goes through, found each workflow of the request
  -- blocked, with the keys that were validated, and leaves it waiting for the publication of the same keys.
  pub resume-Moves :
      (before : World) (t : State)
      → lookup idem s.idempotency ≡ none
      → (resume_state kind text idem items at s before).0 ≡ ok t
      → IsAt Model.blocked item.workflow (get_workflow s (workflow_key item.zone kind))
        × IsAt Model.wait_publish item.workflow (get_workflow t (workflow_key item.zone kind))
  resume-Moves before t fresh e =
      subst
        (OfResult (λ t.
          IsAt Model.blocked item.workflow (get_workflow s (workflow_key item.zone kind))
          × IsAt Model.wait_publish item.workflow (get_workflow t (workflow_key item.zone kind))))
        e ((resume_state-Yields fresh).at before tt).1
