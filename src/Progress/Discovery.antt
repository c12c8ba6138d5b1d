-- ===== src/Progress/Discovery.antt =====
-- `bootstrap` of internal/controller/controller.go: what the discovery of a zone may add to the state.
use dnssec_keyrotation.Base.{
  subst, String, Bool, true, false, not, ◌||◌, ◌≡◌, refl, Option, none, some, List, lookup,
  lookup-insert, Bool-cases, ◌⊎◌, inl, inr, if◌then◌else◌, ◌==◌, string_eq, eq_iff,
}
use dnssec_keyrotation.Model.{Key, Zone, Workflow, State, Time, enroll, workflow_key, put_workflow}
use dnssec_keyrotation.Api.{Controller}
use dnssec_keyrotation.Inventory.Keys
use dnssec_keyrotation.Inventory.Keys.{Scheme}
use dnssec_keyrotation.Controller.Bootstrap.{
  is_closed, or_put, bootstrap_roles, bootstrap_state, is_missing, discovered_workflow,
}

-- The workflow under `j` is `w`.
abbrev Holds : String → Workflow → State → Type 0
Holds j w s = lookup j s.workflows ≡ some w

-- Where the guard of `bootstrap` lets a zone through, it has no enrollment yet.
guard-missing :
    (o : Option Workflow) (disarmed disabled outside : Bool)
    → (not (is_missing o) || disarmed || disabled || outside) ≡ false
    → o ≡ none
guard-missing none disarmed disabled outside e = refl
guard-missing (some w) disarmed disabled outside e = cc

pub closed-missing :
    (c : Controller) (zone : Zone) (t : State)
    → is_closed c zone t ≡ false
    → lookup (workflow_key zone.name enroll) t.workflows ≡ none
unfolding is_closed
closed-missing c zone t opened = guard-missing _ _ _ _ opened

module _ (j : String) (w : Workflow) where
  put-Holds :
      (s : State) (k : String) (x : Workflow)
      → lookup k s.workflows ≡ none
      → Holds j w s
      → Holds j w (put_workflow s k x)
  put-Holds s k x missing holds = rw (lookup-insert k j x s.workflows) (apart (Bool-cases (k == j)))
    where
      apart :
          ((k == j) ≡ true) ⊎ ((k == j) ≡ false)
          → (if k == j then some x else lookup j s.workflows) ≡ some w
      apart (inl same) =
          let here : lookup j s.workflows ≡ none =
            subst (λ i. lookup i s.workflows ≡ none) ((eq_iff k j).0 same) missing in
          cc
      apart (inr other) = rw other holds

  or_put-Holds :
      (s : State) (k : String) (x : Workflow) (o : Option Workflow)
      → lookup k s.workflows ≡ o
      → Holds j w s
      → Holds j w (or_put o k x s)
  or_put-Holds s k x none e holds = put-Holds s k x e holds
  or_put-Holds s k x (some y) e holds = holds

  roles-Holds :
      (zone : Zone) (at : Time) (scheme : Scheme) (s : State)
      → Holds j w s
      → Holds j w (bootstrap_roles zone at scheme s)
  roles-Holds zone at Keys.split_scheme s holds =
      or_put-Holds _ _ _ _ refl (or_put-Holds _ _ _ _ refl holds)
  roles-Holds zone at Keys.csk_scheme s holds = or_put-Holds _ _ _ _ refl holds
  roles-Holds zone at Keys.unknown_scheme s holds = holds

  choose-Holds :
      (b : Bool) (t u : State)
      → Holds j w t
      → (b ≡ false → Holds j w u)
      → Holds j w (if b then t else u)
  choose-Holds true t u ht hu = ht
  choose-Holds false t u ht hu = hu refl

  -- The discovery of a zone never changes a workflow that is already recorded.
  pub bootstrap-Holds :
      (c : Controller) (zone : Zone) (keys : List Key) (at : Time) (scheme : Scheme) (s : State)
      → Holds j w s
      → Holds j w (bootstrap_state c zone keys at scheme s)
  unfolding bootstrap_state
  bootstrap-Holds c zone keys at scheme s holds =
      let t = bootstrap_roles zone at scheme s in
      let k = workflow_key zone.name enroll in
      let x = discovered_workflow c zone keys at scheme t in
      let roles = roles-Holds zone at scheme s holds in
      choose-Holds (is_closed c zone t) t (put_workflow t k x) roles
        (λ opened. put-Holds t k x (closed-missing c zone t opened) roles)
