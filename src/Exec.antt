-- ===== src/Exec.antt =====
-- How the controller's methods run: state, errors and the record of calls. What was written before
-- an error stays written, so the state comes back beside the error too.
pub mod Keeps
pub mod Finds
pub mod Leads
pub mod Returns
use dnssec_keyrotation.Base.{ℕ, String, Bool, Option, none, some, List, [], ◌∷◌}
use dnssec_keyrotation.Errors.{Arg, Error, Result, ok, err, wrapf, is_ok}
use dnssec_keyrotation.Model.{Time, Duration, Key, Zone, DnssecData, State, Notification}
use dnssec_keyrotation.Api.{Controller, History, Call, Probe, DomainDnssec, Job}

-- The published state of the store, the state that the file holds, and what has been called.
pub record World : Type 0 where
  pub state : State
  pub disk : State
  pub events : History

-- An action on a state of the sort S, which may fail.
abbrev pub Action : Type 0 → Type 0 → Type 0
Action S A = S → Result A × S

abbrev pub M : Type 0 → Type 0
M = Action World

module _ {S A : Type 0} where
  unfoldable pub pure : A → Action S A
  pure a w = (ok a, w)

  unfoldable pub fail : Error → Action S A
  fail e w = (err e, w)

  unfoldable pub lift : Result A → Action S A
  lift r w = (r, w)

  -- `if err != nil { return fmt.Errorf("format: %w", args, err) }`
  unfoldable pub in_contextf : String → List Arg → Action S A → Action S A
  in_contextf format args m w =
      let (r, w') = m w in elim r [ ok a ↦ (ok a, w') | err e ↦ (err (wrapf format args e), w') ]

  abbrev pub in_context : String → Action S A → Action S A
  in_context context m = in_contextf context [] m

  -- The outcome as a value, for code that goes on after an error.
  unfoldable pub attempt : Action S A → Action S (Result A)
  attempt m w = let (r, w') = m w in (ok r, w')

module _ {S A B : Type 0} where
  infixl 5 ◌>>=◌ ◌>>◌
  unfoldable pub ◌>>=◌ : Action S A → (A → Action S B) → Action S B
  unfolding pure fail lift in_contextf attempt
  ◌>>=◌ m f w = let (r, w') = m w in elim r [ ok a ↦ f a w' | err e ↦ (err e, w') ]

  abbrev pub ◌>>◌ : Action S A → Action S B → Action S B
  m >> n = m >>= λ _. n

  -- `a, err := …; if err != nil { return c.block(…, err.Error()) }`
  unfoldable pub or_else : Result A → (Error → Action S B) → (A → Action S B) → Action S B
  or_else (ok a) handle rest = rest a
  or_else (err e) handle rest = handle e

module _ {S A B : Type 0} where
  -- `a, ok := …; if !ok { … }`
  unfoldable pub or_missing : Option A → Action S B → (A → Action S B) → Action S B
  or_missing none otherwise rest = otherwise
  or_missing (some a) otherwise rest = rest a

module _ {A : Type 0} where
  -- An external call: its reply may depend on the past, and it enters the past.
  unfoldable pub perform : Call → (History → Result A) → M A
  perform c reply w =
      let r = reply w.events in
      (r, record w { events = record { call = c; succeeded = is_ok r } ∷ w.events })

module _ (c : Controller) where
  unfoldable pub now : M Time
  unfolding perform
  now = perform Call.read_clock (λ past. ok (c.clock past))

  unfoldable pub list_zones : M (List Zone)
  unfolding perform
  list_zones = perform Call.list_zones c.pdns.list_zones

  unfoldable pub get_zone : String → M Zone
  unfolding perform
  get_zone id = perform (Call.get_zone id) (λ past. c.pdns.get_zone past id)

  unfoldable pub list_keys : String → M (List Key)
  unfolding perform
  list_keys id = perform (Call.list_keys id) (λ past. c.pdns.list_keys past id)

  unfoldable pub create_key : String → String → String → Bool → M Key
  unfolding perform
  create_key id typ algorithm active =
      perform (Call.create_key id typ algorithm active)
        (λ past. c.pdns.create_key past id typ algorithm active)

  unfoldable pub set_key : String → Key → Bool → Bool → M (Unit {0})
  unfolding perform
  set_key id key active published =
      perform (Call.set_key id key active published)
        (λ past. c.pdns.set_key past id key active published)

  unfoldable pub delete_key : String → ℕ → M (Unit {0})
  unfolding perform
  delete_key id key = perform (Call.delete_key id key) (λ past. c.pdns.delete_key past id key)

  unfoldable pub domain_dnssec : String → M DomainDnssec
  unfolding perform
  domain_dnssec zone =
      perform (Call.domain_dnssec zone) (λ past. c.registrar.domain_dnssec past zone)

  unfoldable pub update_dnssec : String → List DnssecData → String → M Job
  unfolding perform
  update_dnssec zone keys ctid =
      perform (Call.update_dnssec zone keys ctid)
        (λ past. c.registrar.update_dnssec past zone keys ctid)

  unfoldable pub job_status : ℕ → M String
  unfolding perform
  job_status id = perform (Call.job_status id) (λ past. c.registrar.job_status past id)

  unfoldable pub observe : Probe → M Duration
  unfolding perform
  observe probe = perform (Call.observe probe) (λ past. c.observer past probe)

  unfoldable pub send : Notification → M (Unit {0})
  unfolding perform
  send event = perform (Call.send event) (λ past. c.notifier past event)
