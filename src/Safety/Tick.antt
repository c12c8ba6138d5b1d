-- ===== src/Safety/Tick.antt =====
-- `reconcileZone` and `Tick` of internal/controller/controller.go: whatever a tick does, it changes keys and the
-- parent only by `advance`.
use dnssec_keyrotation.Base.{
  ◌≡◌, inl, refl, sym, subst, ap, ◌++◌, String, Bool, true, false, not, ◌&&◌, List, [], ◌∷◌, Option,
  none, some,
}
use dnssec_keyrotation.Errors.{Result, ok, err}
use dnssec_keyrotation.Exec.Finds.{Finds, Lands}
use dnssec_keyrotation.Model.{Key, Zone, Workflow, Kind, State, Time, Notification}
use dnssec_keyrotation.Api.{Controller, Event, History, Call}
use dnssec_keyrotation.Exec.{World, M, pure, perform, list_keys}
use dnssec_keyrotation.Exec.Keeps.{
  Keeps, Leads, Leads-if, keeps_rules, Keeps-pure, Leads-after, Implies,
}
use dnssec_keyrotation.Exec.Leads.{Leads-found, Keeps-Leads, Implies-same}
use dnssec_keyrotation.Config.{is_observe}
use dnssec_keyrotation.Store.{snapshot}
use dnssec_keyrotation.Controller.Moves.{start}
use dnssec_keyrotation.Inventory.Keys.{Scheme, key_scheme}
use dnssec_keyrotation.Controller.Notify.{send_found, deliver_each, deliver_notifications}
use dnssec_keyrotation.Controller.Schedule.{
  advance, active_workflows, proceed, withdrawn, schedule_idle, reconcile_keys, reconcile_zone,
  tick_zones, tick_zone, block_vanished, tick,
}
use dnssec_keyrotation.Controller.Bootstrap.{bootstrap}
use dnssec_keyrotation.Safety.Guards.{
  IsLasting, Endures, On-lasting, Moves, is_mutation, is_listing,
}
use dnssec_keyrotation.Safety.Calls.{lasting_rules, block-Lasting, snapshot-Lasting}

-- PowerDNS has listed the keys of the zone.
pub record Listed (c : Controller) (zone : Zone) (keys : List Key) (past : History) : Type 0 where
  pub before : History
  pub later : History
  pub place : later ++ (record { call = Call.list_keys zone.id; succeeded = true } ∷ before) ≡ past
  pub reply : c.pdns.list_keys before zone.id ≡ ok keys

Listed-endures : (c : Controller) (zone : Zone) (keys : List Key) → Endures (Listed c zone keys)
Listed-endures c zone keys = record {
  stable = λ e past harmless h. record {
    before = h.before;
    later = e ∷ h.later;
    place = ap (λ l. e ∷ l) h.place;
    reply = h.reply;
  };
}

-- What happens from the beginning on: calls that are no mutations, which leave the state or write it, and
-- advances of the one active workflow that the state has for a zone, with keys that were listed for it.
pub data Rounds (c : Controller) (begin : World) : World → Type 0 where
  begun : Rounds c begin begin
  quiet :
      {s : World} (t : World) (e : Event)
      → is_mutation e.call ≡ false
      → t.events ≡ e ∷ s.events
      → Moves e s t
      → Rounds c begin s
      → Rounds c begin t
  advanced :
      {s : World} (zone : Zone) (keys : List Key) (w : Workflow)
      → Listed c zone keys s.events
      → active_workflows zone.name s.state ≡ w ∷ []
      → Rounds c begin s
      → Rounds c begin (advance c zone keys w s).1

no_mutation : (a b : Bool) → (not a && not b) ≡ true → b ≡ false
no_mutation true b e = cc
no_mutation false true e = cc
no_mutation false false e = refl

Rounds-lasting : (c : Controller) (begin : World) → IsLasting (Rounds c begin)
Rounds-lasting c begin = record {
  stable = λ e s t harmless place moves h.
      quiet t e (no_mutation (is_listing e.call) (is_mutation e.call) harmless) place moves h;
}

module _ (c : Controller) (begin : World) where
  start-Rounds :
      (zone : Zone) (kind : Kind) → Keeps (Rounds c begin) (start c zone.name kind false "")
  unfolding start
  start-Rounds zone kind = let safe = Rounds-lasting c begin in search lasting_rules depth 30

  module _ (zone : Zone) where
    -- The rounds so far, with the keys of the zone listed.
    abbrev Known : List Key → World → Type 0
    Known keys s = Listed c zone keys s.events × Rounds c begin s

    known : (keys : List Key) → IsLasting (Known keys)
    known keys = record {
      stable = λ e s t harmless place moves h. (
        (On-lasting (Listed-endures c zone keys)).stable e s t harmless place moves h.0,
        (Rounds-lasting c begin).stable e s t harmless place moves h.1,
      );
    }

    abbrev Snapped : List Key → State → World → Type 0
    Snapped keys s t = (t.state ≡ s) × Known keys t

    rounds_only :
        (keys : List Key) (s : State) {m : M (Unit {0})}
        → Keeps (Rounds c begin) m
        → Leads (Snapped keys s) (Rounds c begin) m
    rounds_only keys s km = record { at = λ t h. km.at t h.1.1 }

    advance-Rounds :
        (keys : List Key) (s : State) (w : Workflow)
        → active_workflows zone.name s ≡ w ∷ []
        → Leads (Snapped keys s) (Rounds c begin) (advance c zone keys w)
    advance-Rounds keys s w same = record {
      at = λ t h.
          advanced zone keys w h.1.0
            (subst (λ u. active_workflows zone.name u ≡ w ∷ []) (sym h.0) same) h.1.1;
    }

    proceed-Rounds :
        (keys : List Key) (scheme : Scheme) (s : State) (active : List Workflow)
        → active_workflows zone.name s ≡ active
        → Leads (Snapped keys s) (Rounds c begin) (proceed c zone keys scheme s active)
    unfolding proceed schedule_idle
    proceed-Rounds keys scheme s [] same =
        let safe = Rounds-lasting c begin in
        rounds_only keys s (search (lasting_rules, start-Rounds) depth 30)
    proceed-Rounds keys scheme s (w ∷ []) same =
        Leads-if (withdrawn c zone keys w)
          (rounds_only keys s (block-Lasting (Rounds-lasting c begin) c _ _ _ _))
          (advance-Rounds keys s w same)
    proceed-Rounds keys scheme s (w ∷ x ∷ more) same =
        rounds_only keys s (block-Lasting (Rounds-lasting c begin) c _ _ _ _)

    reconcile_keys-Rounds :
        (keys : List Key) → Leads (Known keys) (Rounds c begin) (reconcile_keys c zone keys)
    unfolding reconcile_keys bootstrap snapshot
    reconcile_keys-Rounds keys =
        let lasting = known keys in
        let implies : Implies (Known keys) (Rounds c begin) = record { at = λ s h. h.1 } in
        Leads-after (search lasting_rules depth 30) implies.at λ _.
          Leads-found implies (snapshot-Lasting lasting c) (record { at = λ t h. (refl, h) })
            λ s. proceed-Rounds keys (key_scheme keys) s _ refl

    list_keys-Finds : Finds (Rounds c begin) Known (list_keys c zone.id)
    unfolding list_keys perform
    list_keys-Finds = record { at = λ s h. outcome s (c.pdns.list_keys s.events zone.id) refl h }
      where
        outcome :
            (s : World) (r : Result (List Key))
            → c.pdns.list_keys s.events zone.id ≡ r
            → Rounds c begin s
            → Lands Known (perform (Call.list_keys zone.id) (λ _. r) s)
        outcome s (ok keys) same h = (
          record { before = s.events; later = []; place = refl; reply = same },
          quiet _ _ refl refl (inl refl) h,
        )
        outcome s (err e) same h = tt

  list_keys-Rounds : (id : String) → Keeps (Rounds c begin) (list_keys c id)
  unfolding list_keys perform
  list_keys-Rounds id = record { at = λ s h. quiet _ _ refl refl (inl refl) h }

  pub reconcile_zone-Rounds : (zone : Zone) → Keeps (Rounds c begin) (reconcile_zone c zone)
  unfolding reconcile_zone pure
  reconcile_zone-Rounds zone = Keeps-Leads (
      Leads-found Implies-same (list_keys-Rounds zone.id) (list_keys-Finds zone) λ keys.
        Leads-if (is_observe c.cfg.mode) {m = pure tt} (record { at = λ s h. h.1 })
          (reconcile_keys-Rounds zone keys))

  tick_zone-Rounds : (s : State) (zone : Zone) → Keeps (Rounds c begin) (tick_zone c s zone)
  unfolding tick_zone
  tick_zone-Rounds s zone =
      let safe = Rounds-lasting c begin in search (lasting_rules, reconcile_zone-Rounds) depth 30

  tick_zones-Rounds :
      (s : State) (zones : List Zone) → Keeps (Rounds c begin) (tick_zones c s zones)
  unfolding tick_zones
  tick_zones-Rounds s [] = Keeps-pure []
  tick_zones-Rounds s (z ∷ zones) =
      let rest = tick_zones-Rounds s zones in search (keeps_rules, tick_zone-Rounds) depth 30

  vanished-Rounds :
      (seen : List String) (ws : List Workflow) → Keeps (Rounds c begin) (block_vanished c seen ws)
  unfolding block_vanished
  vanished-Rounds seen [] = Keeps-pure []
  vanished-Rounds seen (w ∷ ws) =
      let safe = Rounds-lasting c begin in
      let rest = vanished-Rounds seen ws in search lasting_rules depth 30

  sent-Rounds : (found : Option Notification) → Keeps (Rounds c begin) (send_found c found)
  sent-Rounds none = Keeps-pure _
  sent-Rounds (some event) = let safe = Rounds-lasting c begin in search lasting_rules

  deliver_each-Rounds :
      (s : State) (at : Time) (ids : List String) → Keeps (Rounds c begin) (deliver_each c s at ids)
  unfolding deliver_each
  deliver_each-Rounds s at [] = Keeps-pure []
  deliver_each-Rounds s at (id ∷ ids) =
      let safe = Rounds-lasting c begin in
      let rest = deliver_each-Rounds s at ids in search (lasting_rules, sent-Rounds) depth 30

  deliver-Rounds : Keeps (Rounds c begin) (deliver_notifications c)
  unfolding deliver_notifications
  deliver-Rounds =
      let safe = Rounds-lasting c begin in search (lasting_rules, deliver_each-Rounds) depth 30

  pub tick-Keeps : Keeps (Rounds c begin) (tick c)
  unfolding tick
  tick-Keeps =
      let safe = Rounds-lasting c begin in
      search (lasting_rules, deliver-Rounds, tick_zones-Rounds, vanished-Rounds) depth 30
