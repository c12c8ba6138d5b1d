-- ===== src/Progress/Limits.antt =====
-- `bootstrap` and `start` of internal/controller/controller.go: how many workflows may run.
use dnssec_keyrotation.Base.{
  ◌∙◌, ℕ, ◌≤◌, ◌<◌, ◌+◌, suc, String, Bool, true, false, not, ◌&&◌, ◌||◌, ◌≡◌, refl, Option, none,
  some, List, [], ◌∷◌, lookup, insert, values, arith, leb, Bool-cases, inl, inr, if◌then◌else◌,
  string_eq, Assoc,
}
use dnssec_keyrotation.Model.{
  Key, Zone, Workflow, State, Time, enroll, is_enroll, is_blocked, is_active, workflow_key,
  put_workflow,
}
use dnssec_keyrotation.Api.{Controller}
use dnssec_keyrotation.Inventory.Keys
use dnssec_keyrotation.Inventory.Keys.{Scheme}
use dnssec_keyrotation.Controller.Bootstrap.{
  is_closed, or_put, bootstrap_roles, bootstrap_state, discovered_workflow, candidate_workflow,
  pending_enrollments, recent_enrollments,
}
use dnssec_keyrotation.Inventory.Enrollment.{validate_enrollment_inventory}
use dnssec_keyrotation.Progress.Discovery.{closed-missing}

-- How many workflows pass a test.
unfoldable pub count : (Workflow → Bool) → List Workflow → ℕ
count p [] = 0
count p (w ∷ rest) = let more = count p rest in if p w then suc more else more

abbrev pub one_if : Bool → ℕ
one_if true = 1
one_if false = 0

count-insert :
    (p : Workflow → Bool) (k : String) (x : Workflow) (m : Assoc Workflow)
    → lookup k m ≡ none
    → count p (values (insert k x m)) ≡ count p (values m) + one_if (p x)
unfolding count values insert lookup
count-insert p k x [] e = ground arith
count-insert p k x ((j, w) ∷ m) e = ground (arith, count-insert p k x m)

-- An enrollment in progress that is not blocked.
abbrev pub is_enrolling : Workflow → Bool
is_enrolling w = is_enroll w.kind && is_active w && not (is_blocked w.phase)

both :
    (a b d : Bool) {m n : ℕ}
    → m ≤ n
    → (if a && b && not d then suc m else m) ≤ (if a && b then suc n else n)
both true true true h = omega arith
both true true false h = omega arith
both true false d h = h
both false b d h = h

enrolling_pending : (ws : List Workflow) → count is_enrolling ws ≤ pending_enrollments ws
unfolding count pending_enrollments
enrolling_pending [] = omega arith
enrolling_pending (w ∷ ws) =
    let rest = enrolling_pending ws in
    both (is_enroll w.kind) (is_active w) (is_blocked w.phase) rest

-- The enrollments of the state that run.
abbrev pub running : State → ℕ
running s = count is_enrolling (values s.workflows)

or_put-running :
    (s : State) (k : String) (x : Workflow) (o : Option Workflow)
    → lookup k s.workflows ≡ o
    → is_enrolling x ≡ false
    → running (or_put o k x s) ≡ running s
or_put-running s k x none e idle =
    rw (count-insert is_enrolling k x s.workflows e, idle) (omega arith)
or_put-running s k x (some y) e idle = refl

roles-running :
    (zone : Zone) (at : Time) (scheme : Scheme) (s : State)
    → running (bootstrap_roles zone at scheme s) ≡ running s
roles-running zone at Keys.split_scheme s =
    or_put-running _ _ _ _ refl refl ∙ or_put-running _ _ _ _ refl refl
roles-running zone at Keys.csk_scheme s = or_put-running _ _ _ _ refl refl
roles-running zone at Keys.unknown_scheme s = refl

one_le : (b : Bool) → one_if b ≤ 1
one_le true = omega arith
one_le false = omega arith

not_full : (a b : ℕ) (d : Bool) → (leb a b || d) ≡ false → b < a
not_full a b d e = ground arith

fits : {n p m i : ℕ} → i ≤ 1 → n ≤ p → p < m → n + i ≤ m
fits hi hn hp = omega arith

module _ (c : Controller) (zone : Zone) (keys : List Key) (at : Time) (scheme : Scheme) where
  abbrev is_full : State → Bool
  is_full t =
      leb c.cfg.enrollment.max_pending (pending_enrollments (values t.workflows))
      || leb c.cfg.enrollment.max_new_per_day (recent_enrollments at (values t.workflows))

  -- A new enrollment runs only where there is room.
  discovered-room :
      (t : State)
      → running t ≤ c.cfg.enrollment.max_pending
      → running t + one_if (is_enrolling (discovered_workflow c zone keys at scheme t))
        ≤ c.cfg.enrollment.max_pending
  unfolding discovered_workflow
  discovered-room t room = elim (Bool-cases (Keys.is_csk_scheme scheme)) [
    | inl csk ↦ rw (csk, discovered_workflow) (omega arith)
    | inr other ↦ elim (Bool-cases (is_full t)) [
      | inl full ↦ rw (other, full, discovered_workflow) (omega arith)
      | inr free ↦
          rw (other, free, discovered_workflow)
            (fits
              (one_le (
                is_enrolling (
                  candidate_workflow c zone keys at
                    (validate_enrollment_inventory c zone.name keys 0 0 ""))))
              (enrolling_pending (values t.workflows)) (not_full _ _ _ free))
    ]
  ]

  choose-running :
      (b : Bool) (t u : State) (m : ℕ)
      → running t ≤ m
      → (b ≡ false → running u ≤ m)
      → running (if b then t else u) ≤ m
  choose-running true t u m ht hu = ht
  choose-running false t u m ht hu = hu refl

  -- The discovery of a zone never brings the enrollments that run above `max_pending`, if they were not
  -- above it before.
  pub bootstrap-running :
      (s : State)
      → running s ≤ c.cfg.enrollment.max_pending
      → running (bootstrap_state c zone keys at scheme s) ≤ c.cfg.enrollment.max_pending
  unfolding bootstrap_state
  bootstrap-running s room =
      let t = bootstrap_roles zone at scheme s in
      let k = workflow_key zone.name enroll in
      let x = discovered_workflow c zone keys at scheme t in
      let room_after : running t ≤ c.cfg.enrollment.max_pending =
        rw (roles-running zone at scheme s) room in
      choose-running (is_closed c zone t) t (put_workflow t k x) _ room_after (λ opened.
        rw (count-insert is_enrolling k x t.workflows (closed-missing c zone t opened))
          (discovered-room t room_after))
