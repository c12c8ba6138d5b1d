-- ===== src/Safety/Evidence.antt =====
-- Predicates that the harmless calls keep, and what an observation or a write adds to them.
use dnssec_keyrotation.Base.{ℕ, String, Bool, true, false, not, ◌&&◌, ◌≡◌, refl, ap, List, [], ◌∷◌}
use dnssec_keyrotation.Errors.{Result, ok, err}
use dnssec_keyrotation.Api.{Controller, History, Call, Probe, WriteOutcome}
use dnssec_keyrotation.Model.{Duration, Time, State, Key, DnssecData}
use dnssec_keyrotation.Exec.{
  World, M, now, perform, observe, create_key, set_key, delete_key, update_dnssec,
}
use dnssec_keyrotation.Exec.Keeps.{Leads}
use dnssec_keyrotation.Exec.Finds.{Finds, Finds-bind, Lands}
use dnssec_keyrotation.Store.{snapshot, update, write_atomic}
use dnssec_keyrotation.Safety.Guards.{Endures, On, is_listing, Made, made}
use dnssec_keyrotation.Safety.Conditions.{latest, earlier, Seen, When, ReadAt, JustWrote}

listing_no : (a b : Bool) → (not a && b) ≡ true → a ≡ false
listing_no true b e = cc
listing_no false b e = refl

pub Seen-endures : (probe : Probe) → Endures (Seen probe)
Seen-endures probe = record {
  stable = λ e past harmless h. earlier e (listing_no (is_listing e.call) _ harmless) h;
}

abbrev pub Both : (History → Type 0) → (History → Type 0) → History → Type 0
Both H K past = H past × K past

pub Both-endures : {H K : History → Type 0} → Endures H → Endures K → Endures (Both H K)
Both-endures lh lk = record {
  stable = λ e past harmless h. (lh.stable e past harmless h.0, lk.stable e past harmless h.1);
}

pub When-endures : (b : Bool) {H : History → Type 0} → Endures H → Endures (λ past. When b (H past))
When-endures true lh = lh
When-endures false lh = record { stable = λ e past harmless h. tt }

pub ReadAt-endures : (c : Controller) (at : Time) → Endures (ReadAt c at)
ReadAt-endures c at = record {
  stable = λ e past harmless h. record {
    before = h.before;
    later = e ∷ h.later;
    place = ap (λ l. e ∷ l) h.place;
    moment = h.moment;
  };
}

module _ (c : Controller) {H : History → Type 0} (endures : Endures H) where
  observed :
      (r : Result Duration) (probe : Probe) (past : History) (s : World)
      → H past
      → Lands
          (λ _. On (Both H (Seen probe)))
          (perform (Call.observe probe) (λ _. r) (record s { events = past }))
  unfolding perform
  observed (ok d) probe past s h = (endures.stable _ past refl h, latest)
  observed (err e) probe past s h = tt

  -- A successful observation is fresh evidence.
  pub observe-Finds :
      (probe : Probe) → Finds (On H) (λ _. On (Both H (Seen probe))) (observe c probe)
  unfolding observe perform
  observe-Finds probe = record {
    at = λ s h. observed (c.observer s.events probe) probe s.events s h;
  }

  pub now-Finds : Finds (On H) (λ at. On (Both H (ReadAt c at))) (now c)
  unfolding now perform
  now-Finds = record {
    at = λ s h. (
      endures.stable _ s.events refl h,
      record { before = s.events; later = []; place = refl; moment = refl },
    );
  }

  -- A write that went through is the latest event.
  write-Finds :
      {Such : State → Type 0} (t : State)
      → Such t
      → Finds (On H) (λ _. On (Both H (JustWrote Such))) (write_atomic c t)
  unfolding write_atomic
  write-Finds {Such} t such = record { at = λ s h. outcome s h (c.write_file s.events t) refl }
    where
      outcome :
          (s : World)
          → H s.events
          → (o : WriteOutcome) → c.write_file s.events t ≡ o
          → Lands (λ _. On (Both H (JustWrote Such))) (write_atomic c t s)
      outcome s h WriteOutcome.written e =
          rw (e, write_atomic)
            (
              endures.stable _ s.events refl h,
              record { written = t; before = s.events; place = refl; such = such },
            )
      outcome s h (WriteOutcome.not_renamed x) e = rw (e, write_atomic) tt
      outcome s h (WriteOutcome.not_synced x) e = rw (e, write_atomic) tt

  -- An update writes what its mutation returns.
  pub update-Finds :
      {Such : State → Type 0} {mutation : State → M State}
      → ((t : State) → Finds (On H) (λ u s. Such u × H s.events) (mutation t))
      → Finds (On H) (λ _. On (Both H (JustWrote Such))) (update c mutation)
  unfolding update snapshot
  update-Finds fm =
      Finds-bind {Q = λ _. On H} {m = snapshot} (record { at = λ s h. h })
        λ t. Finds-bind (fm t) λ u. record { at = λ s h. (write-Finds u h.0).at s h.1 }

-- A guarded call, made when its condition holds, keeps the history checked.
perform-Leads :
    {A : Type 0} {Q : World → Type 0} (condition : Call → History → Type 0) (start : History)
    (call : Call) (reply : History → Result A)
    → ((s : World) → Q s → condition call s.events × Made condition start s.events)
    → Leads Q (On (Made condition start)) (perform call reply)
unfolding perform
perform-Leads condition start call reply met = record {
  at = λ s h. let h = met s h in made _ h.0 h.1;
}

module _ (c : Controller) (condition : Call → History → Type 0) (start : History)
    {Q : World → Type 0} where
  pub delete_key-Leads :
      (id : String) (key : ℕ)
      → ((s : World)
          → Q s
          → condition (Call.delete_key id key) s.events × Made condition start s.events)
      → Leads Q (On (Made condition start)) (delete_key c id key)
  unfolding delete_key
  delete_key-Leads id key = perform-Leads condition start (Call.delete_key id key) _

  pub set_key-Leads :
      (id : String) (key : Key) (active published : Bool)
      → ((s : World)
          → Q s
          → condition (Call.set_key id key active published) s.events
            × Made condition start s.events)
      → Leads Q (On (Made condition start)) (set_key c id key active published)
  unfolding set_key
  set_key-Leads id key active published =
      perform-Leads condition start (Call.set_key id key active published) _

  pub create_key-Leads :
      (id typ algorithm : String) (active : Bool)
      → ((s : World)
          → Q s
          → condition (Call.create_key id typ algorithm active) s.events
            × Made condition start s.events)
      → Leads Q (On (Made condition start)) (create_key c id typ algorithm active)
  unfolding create_key
  create_key-Leads id typ algorithm active =
      perform-Leads condition start (Call.create_key id typ algorithm active) _

  pub update_dnssec-Leads :
      (zone : String) (keys : List DnssecData) (ctid : String)
      → ((s : World)
          → Q s
          → condition (Call.update_dnssec zone keys ctid) s.events × Made condition start s.events)
      → Leads Q (On (Made condition start)) (update_dnssec c zone keys ctid)
  unfolding update_dnssec
  update_dnssec-Leads zone keys ctid =
      perform-Leads condition start (Call.update_dnssec zone keys ctid) _
