-- ===== src/Safety/Observe.antt =====
-- `Tick` and `reconcileZone` of internal/controller/controller.go in the observe mode: they only read.
use dnssec_keyrotation.Base.{String, Bool, true, false, not, ◌≡◌, refl, List, [], ◌∷◌}
use dnssec_keyrotation.Config.{is_observe, is_enforce, observe}
use dnssec_keyrotation.Model.{Zone, State}
use dnssec_keyrotation.Api.{Controller, Call, History}
use dnssec_keyrotation.Errors.{Result}
use dnssec_keyrotation.Exec.{World, perform, list_zones, list_keys}
use dnssec_keyrotation.Exec.Keeps.{
  Keeps, keeps_rules, Keeps-pure, Keeps-bind, Keeps-then, Keeps-else, Keeps-attempt, Keeps-or_else,
}
use dnssec_keyrotation.Store.{snapshot}
use dnssec_keyrotation.Controller.Schedule.{reconcile_zone, tick_zone, tick_zones, tick}
use dnssec_keyrotation.Safety.Guards.{Checked, is_mutation}

-- A call that changes nothing outside, and does not write the state either.
abbrev pub is_read : Call → Bool
is_read (Call.write_state s) = false
is_read (Call.send event) = false
is_read call = not (is_mutation call)

-- The state is `t`, and every call so far only read.
abbrev pub ReadOnly : State → World → Type 0
ReadOnly t s = (s.state ≡ t) × Checked (λ call past. is_read call ≡ true) s.events

module _ (c : Controller) (t : State) where
  pub perform-ReadOnly :
      {A : Type 0} (call : Call) (reply : History → Result A)
      → is_read call ≡ true
      → Keeps (ReadOnly t) (perform call reply)
  unfolding perform
  perform-ReadOnly call reply reads = record { at = λ s h. (h.0, (reads, h.1)) }

  pub list_zones-ReadOnly : Keeps (ReadOnly t) (list_zones c)
  unfolding list_zones
  list_zones-ReadOnly = perform-ReadOnly _ _ refl

  pub list_keys-ReadOnly : (id : String) → Keeps (ReadOnly t) (list_keys c id)
  unfolding list_keys
  list_keys-ReadOnly id = perform-ReadOnly _ _ refl

  pub snapshot-ReadOnly : Keeps (ReadOnly t) snapshot
  unfolding snapshot
  snapshot-ReadOnly = record { at = λ s h. h }

  module _ (observes : is_observe c.cfg.mode ≡ true) (lenient : is_enforce c.cfg.mode ≡ false) where
    reconcile_zone-ReadOnly : (zone : Zone) → Keeps (ReadOnly t) (reconcile_zone c zone)
    unfolding reconcile_zone
    reconcile_zone-ReadOnly zone = search (Keeps-then, Keeps-bind, Keeps-pure, list_keys-ReadOnly)

    tick_zone-ReadOnly : (s : State) (zone : Zone) → Keeps (ReadOnly t) (tick_zone c s zone)
    unfolding tick_zone
    tick_zone-ReadOnly s zone = search (keeps_rules, reconcile_zone-ReadOnly) depth 20

    tick_zones-ReadOnly :
        (s : State) (zones : List Zone) → Keeps (ReadOnly t) (tick_zones c s zones)
    unfolding tick_zones
    tick_zones-ReadOnly s [] = Keeps-pure []
    tick_zones-ReadOnly s (z ∷ zones) =
        let rest = tick_zones-ReadOnly s zones in search (keeps_rules, tick_zone-ReadOnly) depth 20

    tick-ReadOnly : Keeps (ReadOnly t) (tick c)
    unfolding tick
    tick-ReadOnly =
        search
          (
            Keeps-else, Keeps-bind, Keeps-pure, Keeps-attempt, Keeps-or_else, list_zones-ReadOnly,
            snapshot-ReadOnly, tick_zones-ReadOnly,
          )
          depth 30

-- In the observe mode a tick leaves the state as it is and makes only calls that read.
pub observe-ReadOnly :
    (c : Controller) (s : World)
    → c.cfg.mode ≡ observe
    → s.events ≡ []
    → ReadOnly s.state (tick c s).1
observe-ReadOnly c s mode fresh =
    (tick-ReadOnly c s.state (rw mode refl) (rw mode refl)).at s (refl, rw fresh tt)
