-- ===== src/Progress/Calls.antt =====
-- Predicates on the published state: no external call affects them, and an update keeps them if its
-- mutation does.
use dnssec_keyrotation.Base.{
  ℕ, List, String, ◌≡◌, refl, Bool, true, false, Option, none, some, if◌then◌else◌,
}
use dnssec_keyrotation.Errors.{Error, Result, ok, err}
use dnssec_keyrotation.Model.{Key, DnssecData, State, Notification}
use dnssec_keyrotation.Api.{Controller, History, Call, Probe, WriteOutcome}
use dnssec_keyrotation.Exec.{
  World, M, pure, fail, ◌>>=◌, or_missing, perform, now, list_zones, get_zone, list_keys,
  create_key, set_key, delete_key, domain_dnssec, update_dnssec, job_status, observe, send,
}
use dnssec_keyrotation.Exec.Keeps.{Keeps, keeps_rules}
use dnssec_keyrotation.Store.{snapshot, update, write_atomic}

abbrev pub InState : (State → Type 0) → World → Type 0
InState H s = H s.state

abbrev pub OfResult : {A : Type 0} → (A → Type 0) → Result A → Type 0
OfResult Q (ok a) = Q a
OfResult Q (err e) = Unit {0}

-- `m` keeps the predicate on the state, and what it returns has the property.
pub record Yields {A : Type 0} (H : State → Type 0) (Q : A → Type 0) (m : M A) : Type 0 where
  pub at : (s : World) → H s.state → H (m s).1.state × OfResult Q (m s).0

module _ {H : State → Type 0} {A : Type 0} {Q : A → Type 0} where
  pub Yields-pure : (a : A) → Q a → Yields H Q (pure a)
  unfolding pure
  Yields-pure a q = record { at = λ s h. (h, q) }

  pub Yields-fail : (e : Error) → Yields H Q (fail e)
  unfolding fail
  Yields-fail e = record { at = λ s h. (h, tt) }

  pub Yields-if :
      (b : Bool) {m n : M A} → Yields H Q m → Yields H Q n → Yields H Q (if b then m else n)
  Yields-if true ym yn = ym
  Yields-if false ym yn = yn

  pub Yields-or_missing :
      {B : Type 0} (o : Option B) {otherwise : M A} {rest : B → M A}
      → Yields H Q otherwise
      → ((b : B) → Yields H Q (rest b))
      → Yields H Q (or_missing o otherwise rest)
  unfolding or_missing
  Yields-or_missing none yo yr = yo
  Yields-or_missing (some b) yo yr = yr b

  pub Yields-missing :
      {B : Type 0} (o : Option B) {otherwise : M A} {rest : B → M A}
      → (o ≡ none → Yields H Q otherwise)
      → ((b : B) → Yields H Q (rest b))
      → Yields H Q (or_missing o otherwise rest)
  unfolding or_missing
  Yields-missing none yo yr = yo refl
  Yields-missing (some b) yo yr = yr b

  pub Yields-found :
      {B : Type 0} (o : Option B) {otherwise : M A} {rest : B → M A}
      → Yields H Q otherwise
      → ((b : B) → o ≡ some b → Yields H Q (rest b))
      → Yields H Q (or_missing o otherwise rest)
  unfolding or_missing
  Yields-found none yo yr = yo
  Yields-found (some b) yo yr = yr b refl

module _ {H : State → Type 0} {A B : Type 0} where
  pub Yields-bind :
      {Q : A → Type 0} {R : B → Type 0} {m : M A} {f : A → M B}
      → Yields H Q m
      → ((a : A) → Q a → Yields H R (f a))
      → Yields H R (m >>= f)
  unfolding ◌>>=◌
  Yields-bind {Q} {R} {m} {f} ym yf = record { at = λ s h. continue (m s).0 (m s).1 (ym.at s h) }
    where
      continue :
          (r : Result A) (s : World)
          → H s.state × OfResult Q r
          → H (((λ _. (r, s)) >>= f) s).1.state × OfResult R (((λ _. (r, s)) >>= f) s).0
      continue (ok a) s h = (yf a h.1).at s h.0
      continue (err e) s h = (h.0, tt)

  pub Yields-after :
      {R : B → Type 0} {m : M A} {f : A → M B}
      → Keeps (InState H) m
      → ((a : A) → Yields H R (f a))
      → Yields H R (m >>= f)
  unfolding ◌>>=◌
  Yields-after {R} {m} {f} km yf = record { at = λ s h. continue (m s).0 (m s).1 (km.at s h) }
    where
      continue :
          (r : Result A) (s : World)
          → H s.state
          → H (((λ _. (r, s)) >>= f) s).1.state × OfResult R (((λ _. (r, s)) >>= f) s).0
      continue (ok a) s h = (yf a).at s h
      continue (err e) s h = (h, tt)

module _ (H : State → Type 0) where
  perform-InState :
      {A : Type 0} (call : Call) (reply : History → Result A)
      → Keeps (InState H) (perform call reply)
  unfolding perform
  perform-InState call reply = record { at = λ s h. h }

  module _ (c : Controller) where
    pub now-InState : Keeps (InState H) (now c)
    unfolding now
    now-InState = perform-InState _ _

    pub list_zones-InState : Keeps (InState H) (list_zones c)
    unfolding list_zones
    list_zones-InState = perform-InState _ _

    pub get_zone-InState : (id : String) → Keeps (InState H) (get_zone c id)
    unfolding get_zone
    get_zone-InState id = perform-InState _ _

    pub list_keys-InState : (id : String) → Keeps (InState H) (list_keys c id)
    unfolding list_keys
    list_keys-InState id = perform-InState _ _

    pub create_key-InState :
        (id typ algorithm : String) (active : Bool)
        → Keeps (InState H) (create_key c id typ algorithm active)
    unfolding create_key
    create_key-InState id typ algorithm active = perform-InState _ _

    pub set_key-InState :
        (id : String) (key : Key) (active published : Bool)
        → Keeps (InState H) (set_key c id key active published)
    unfolding set_key
    set_key-InState id key active published = perform-InState _ _

    pub delete_key-InState : (id : String) (key : ℕ) → Keeps (InState H) (delete_key c id key)
    unfolding delete_key
    delete_key-InState id key = perform-InState _ _

    pub domain_dnssec-InState : (zone : String) → Keeps (InState H) (domain_dnssec c zone)
    unfolding domain_dnssec
    domain_dnssec-InState zone = perform-InState _ _

    pub update_dnssec-InState :
        (zone : String) (keys : List DnssecData) (ctid : String)
        → Keeps (InState H) (update_dnssec c zone keys ctid)
    unfolding update_dnssec
    update_dnssec-InState zone keys ctid = perform-InState _ _

    pub job_status-InState : (id : ℕ) → Keeps (InState H) (job_status c id)
    unfolding job_status
    job_status-InState id = perform-InState _ _

    pub observe-InState : (probe : Probe) → Keeps (InState H) (observe c probe)
    unfolding observe
    observe-InState probe = perform-InState _ _

    pub send-InState : (event : Notification) → Keeps (InState H) (send c event)
    unfolding send
    send-InState event = perform-InState _ _

    pub snapshot-InState : Keeps (InState H) snapshot
    unfolding snapshot
    snapshot-InState = record { at = λ s h. h }

    write-InState : (t : State) (s : World) → H t → H s.state → H (write_atomic c t s).1.state
    unfolding write_atomic
    write-InState t s ht hs = outcome (c.write_file s.events t) refl
      where
        outcome : (o : WriteOutcome) → c.write_file s.events t ≡ o → H (write_atomic c t s).1.state
        outcome WriteOutcome.written e = rw (e, write_atomic) ht
        outcome (WriteOutcome.not_renamed x) e = rw (e, write_atomic) hs
        outcome (WriteOutcome.not_synced x) e = rw (e, write_atomic) hs

    pub update-InState :
        {mutation : State → M State}
        → ((t : State) → H t → Yields H H (mutation t))
        → Keeps (InState H) (update c mutation)
    unfolding update snapshot ◌>>=◌
    update-InState {mutation} ym = record {
      at = λ s h. continue (mutation s.state s).0 (mutation s.state s).1 ((ym s.state h).at s h);
    }
      where
        continue :
            (r : Result State) (s : World)
            → H s.state × OfResult H r
            → H (((λ _. (r, s)) >>= write_atomic c) s).1.state
        continue (ok t) s h = write-InState t s h.1 h.0
        continue (err e) s h = h.0

pub ruleset yields_rules = (Yields-pure, Yields-fail, Yields-if, Yields-or_missing, Yields-after)

pub ruleset state_rules = (
  keeps_rules, now-InState, list_zones-InState, get_zone-InState, list_keys-InState,
  create_key-InState, set_key-InState, delete_key-InState, domain_dnssec-InState,
  update_dnssec-InState, job_status-InState, observe-InState, send-InState, snapshot-InState,
)
