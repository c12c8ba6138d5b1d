-- ===== src/Progress/Armed.antt =====
-- `ArmEnrollment` of internal/controller/controller.go: what it closes to the automatic enrollment.
use dnssec_keyrotation.Base.{
  subst, String, true, false, ◌≡◌, refl, Option, none, some, List, [], ◌∷◌, lookup, lookup-insert,
  beq_refl, string_eq, ◌==◌, Bool-cases, inl, inr,
}
use dnssec_keyrotation.Model.{
  Key, zsk, ksk, split, Zone, State, Time, enroll, workflow_key, Workflow, put_workflow,
}
use dnssec_keyrotation.Api.{Controller}
use dnssec_keyrotation.Errors.{ok}
use dnssec_keyrotation.Exec.{World}
use dnssec_keyrotation.Controller.Arm.{arm_listed, arm_state, mark_zone, mark_zones, tombstone}
use dnssec_keyrotation.Controller.Bootstrap.{
  bootstrap_state, bootstrap_roles, is_missing, or_put, is_closed,
}
use dnssec_keyrotation.Progress.Calls.{Yields, Yields-if, Yields-fail, Yields-pure}
use mathlib.Core.List.{Memᴰ}
use dnssec_keyrotation.Inventory.Keys.{Scheme}
use dnssec_keyrotation.Progress.Repeat.{Lands, Reaches, reach_rules}

-- A workflow is recorded under the key.
abbrev pub IsRecorded : String → State → Type 0
IsRecorded k t = is_missing (lookup k t.workflows) ≡ false

put-IsRecorded :
    (j k : String) (x : Workflow) (t : State) → IsRecorded j t → IsRecorded j (put_workflow t k x)
put-IsRecorded j k x t h = elim (Bool-cases (k == j)) [
  | inl same ↦ rw (lookup-insert k j x t.workflows, same) refl
  | inr other ↦ rw (lookup-insert k j x t.workflows, other) h
]

or_put-keeps :
    (found : Option Workflow) (j k : String) (x : Workflow) (t : State)
    → IsRecorded j t
    → IsRecorded j (or_put found k x t)
or_put-keeps none j k x t h = put-IsRecorded j k x t h
or_put-keeps (some w) j k x t h = h

or_put-IsRecorded :
    (found : Option Workflow) (k : String) (x : Workflow) (t : State)
    → lookup k t.workflows ≡ found
    → IsRecorded k (or_put found k x t)
or_put-IsRecorded none k x t e = rw (lookup-insert k k x t.workflows, beq_refl k) refl
or_put-IsRecorded (some w) k x t e = rw e refl

mark_zone-keeps :
    (at : Time) (z : Zone) (j : String) (t : State)
    → IsRecorded j t
    → IsRecorded j (mark_zone at z t)
unfolding mark_zone
mark_zone-keeps at z j t h = elim (Bool-cases z.dnssec) [
  | inl signed ↦ rw (signed) (or_put-keeps _ j _ (tombstone z at) t h)
  | inr unsigned ↦ rw (unsigned) h
]

mark_zone-IsRecorded :
    (at : Time) (z : Zone) (t : State)
    → z.dnssec ≡ true
    → IsRecorded (workflow_key z.name enroll) (mark_zone at z t)
unfolding mark_zone
mark_zone-IsRecorded at z t signed =
    rw (signed) (or_put-IsRecorded _ (workflow_key z.name enroll) (tombstone z at) t refl)

mark_zones-keeps :
    (at : Time) (zones : List Zone) (j : String) (t : State)
    → IsRecorded j t
    → IsRecorded j (mark_zones at zones t)
unfolding mark_zones
mark_zones-keeps at [] j t h = h
mark_zones-keeps at (z ∷ zones) j t h =
    mark_zones-keeps at zones j (mark_zone at z t) (mark_zone-keeps at z j t h)

mark_zones-IsRecorded :
    (at : Time) (z : Zone) (zones : List Zone) (t : State)
    → Memᴰ z zones
    → z.dnssec ≡ true
    → IsRecorded (workflow_key z.name enroll) (mark_zones at zones t)
unfolding mark_zones
mark_zones-IsRecorded at z [] t inside signed = elim inside [ ]
mark_zones-IsRecorded at z (y ∷ zones) t (Memᴰ.head e) signed =
    mark_zones-keeps at zones _ (mark_zone at y t) (
      subst (λ x. IsRecorded (workflow_key z.name enroll) (mark_zone at x t)) e
        (mark_zone-IsRecorded at z t signed))
mark_zones-IsRecorded at z (y ∷ zones) t (Memᴰ.tail inside) signed =
    mark_zones-IsRecorded at z zones (mark_zone at y t) inside signed

-- Where an enrollment is recorded, `bootstrap` adds the role workflows and no more.
bootstrap-IsClosed :
    (c : Controller) (z : Zone) (keys : List Key) (at : Time) (scheme : Scheme) (t : State)
    → IsRecorded (workflow_key z.name enroll) t
    → bootstrap_state c z keys at scheme t ≡ bootstrap_roles z at scheme t
unfolding bootstrap_state is_closed
bootstrap-IsClosed c z keys at scheme t h = rw (roles scheme) refl
  where
    roles :
        (scheme : Scheme) → IsRecorded (workflow_key z.name enroll) (bootstrap_roles z at scheme t)
    roles Scheme.split_scheme =
        or_put-keeps _ _ (workflow_key z.name ksk) _ _
          (or_put-keeps _ _ (workflow_key z.name zsk) _ t h)
    roles Scheme.csk_scheme = or_put-keeps _ _ (workflow_key z.name split) _ t h
    roles Scheme.unknown_scheme = h

module _ (c : Controller) (idem : String) (zones : List Zone) (z : Zone) (inside : Memᴰ z zones)
    (signed : z.dnssec ≡ true) where
  arm_state-Yields :
      (at : Time) (t : State)
      → Yields (λ _. Unit {0}) (IsRecorded (workflow_key z.name enroll)) (arm_state idem zones at t)
  unfolding arm_state
  arm_state-Yields at t =
      Yields-if _ (Yields-fail _) (Yields-pure _ (mark_zones-IsRecorded at z zones t inside signed))

  arm_listed-Reaches : Reaches (IsRecorded (workflow_key z.name enroll)) (arm_listed c idem zones)
  unfolding arm_listed
  arm_listed-Reaches = search (reach_rules, arm_state-Yields)

  -- Once the enrollment is armed, no signed zone of the listing that it was armed with is taken for a new
  -- one: a discovery from the armed state records the idle role workflows and nothing else.
  pub arm-closes :
      (s t : World) (keys : List Key) (at : Time) (scheme : Scheme)
      → arm_listed c idem zones s ≡ (ok tt, t)
      → bootstrap_state c z keys at scheme t.state ≡ bootstrap_roles z at scheme t.state
  arm-closes s t keys at scheme armed =
      bootstrap-IsClosed c z keys at scheme t.state
        (subst (Lands (IsRecorded (workflow_key z.name enroll))) armed (arm_listed-Reaches.at s))
