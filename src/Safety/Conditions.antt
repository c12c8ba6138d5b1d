-- ===== src/Safety/Conditions.antt =====
-- What must have come before each change of keys and of the parent, in one call of `advance` of
-- internal/controller/controller.go.
use dnssec_keyrotation.Base.{
  ℕ, Bool, true, false, not, ◌||◌, ◌≡◌, some, List, [], ◌∷◌, ◌++◌, lookup,
}
use dnssec_keyrotation.Errors.{ok}
use dnssec_keyrotation.Model.{
  Time, is_zero, Key, Zone, Workflow, State, DnssecData, workflow_key, is_split, is_ksk, is_zsk,
}
use dnssec_keyrotation.Api
use dnssec_keyrotation.Api.{Controller, Call, Probe, Event, History}
use dnssec_keyrotation.Inventory.Keys.{by_id, published_keys}
use dnssec_keyrotation.Inventory.Roles.{dnssec_data_for_key}
use dnssec_keyrotation.Inventory.Retirement.{retirement_inventory}
use dnssec_keyrotation.Controller.Evidence.{is_initial_split}
use dnssec_keyrotation.Controller.EnrollParent.{is_parent_add}
use dnssec_keyrotation.Controller.Prepublish.{attempted_at}
use dnssec_keyrotation.Controller.Retire.{to_list}
use dnssec_keyrotation.Controller.Signature.{is_live}
use dnssec_keyrotation.Safety.Guards.{is_listing, Made}

-- The call succeeded, after the last listing of keys.
pub data Fresh (call : Call) : History → Type 0 where
  latest : {past : History} → Fresh call (record { call = call; succeeded = true } ∷ past)
  earlier :
      (e : Event) {past : History}
      → is_listing e.call ≡ false
      → Fresh call past
      → Fresh call (e ∷ past)

abbrev pub Seen : Probe → History → Type 0
Seen probe = Fresh (Call.observe probe)

abbrev pub When : Bool → Type 0 → Type 0
When true A = A
When false A = Unit {0}

-- A reading of the clock.
pub record ReadAt (c : Controller) (at : Time) (past : History) : Type 0 where
  pub before : History
  pub later : History
  pub place : later ++ (record { call = Call.read_clock; succeeded = true } ∷ before) ≡ past
  pub moment : at ≡ c.clock before

-- The latest call wrote such a state, and the write went through.
pub record JustWrote (Such : State → Type 0) (past : History) : Type 0 where
  pub written : State
  pub before : History
  pub place : record { call = Call.write_state written; succeeded = true } ∷ before ≡ past
  pub such : Such written

-- The state has the workflow under its key, with the time of the attempt.
pub record Records (w : Workflow) (attempt : Workflow → Time) (at : Time) (s : State) : Type 0 where
  pub stored : Workflow
  pub found : lookup (workflow_key w.zone w.kind) s.workflows ≡ some stored
  pub marked : attempt stored ≡ at

-- The first attempt: none was on record, and its time, which the clock has shown, has just reached
-- the disk.
pub record Intended (c : Controller) (w : Workflow) (attempt : Workflow → Time) (past : History)
    : Type 0 where
  pub first : is_zero (attempt w) ≡ true
  pub at : Time
  pub read : ReadAt c at past
  pub written : JustWrote (Records w attempt at) past

module _ (c : Controller) (zone : Zone) (keys : List Key) (w : Workflow) where
  -- The zone publishes the published keys of the listing and a signature of the key on them: on every
  -- path, or at the authoritative servers alone where its delegation is not yet signed.
  pub data Published (key : Key) (past : History) : Type 0 where
    everywhere :
        Seen (Api.dnskey_evidence zone.name (published_keys keys)) past
        → Seen (Api.dnskey_rrsig_by zone.name key) past
        → Published key past
    at_servers :
        (is_initial_split w || is_parent_add w.phase) ≡ true
        → Seen (Api.authoritative_dnskey_evidence zone.name (published_keys keys)) past
        → Seen (Api.authoritative_dnskey_rrsig_by zone.name key) past
        → Published key past

  -- The registrar gets the material of one key, which the zone publishes and signs with; outside an
  -- enrollment it is the recorded new key.
  pub record Delegated (material : List DnssecData) (past : History) : Type 0 where
    pub key : Key
    pub chosen : When (not (is_parent_add w.phase)) (by_id keys w.new_key_id ≡ some key)
    pub derived : DnssecData
    pub derives : dnssec_data_for_key c.dns zone.name key ≡ ok derived
    pub sent : material ≡ derived ∷ []
    pub published : Published key past
    pub intended : Intended c w (λ x. x.registrar_attempted_at) past

  -- The new ZSK signs the zone, or the new KSK its keys, and the parent refers to it.
  abbrev pub Serves : Bool → Key → History → Type 0
  Serves true new past = Seen (Api.rrsig_by zone.name new) past
  Serves false new past =
      Seen (Api.dnskey_rrsig_by zone.name new) past
      × Seen (Api.ds_evidence zone.name (new ∷ [])) past

  -- The new ZSK of a split migration signs the zone.
  pub record ZskServes (past : History) : Type 0 where
    pub new_zsk : Key
    pub found : by_id keys w.new_zsk_id ≡ some new_zsk
    pub live : is_live new_zsk ≡ true
    pub signs : Seen (Api.rrsig_by zone.name new_zsk) past

  -- The old key may stop to sign: the new one is live and serves, and the published keys of the listing
  -- are seen on every path.
  pub record Switched (old : Key) (past : History) : Type 0 where
    pub old_found : by_id keys w.old_key_id ≡ some old
    pub new : Key
    pub new_found : by_id keys w.new_key_id ≡ some new
    pub live : is_live new ≡ true
    pub serves : Serves (is_zsk w.kind) new past
    pub zsk_serves : When (is_split w.kind) (ZskServes past)
    pub published : Seen (Api.dnskey_evidence zone.name (published_keys keys)) past

  -- The new KSK signs the keys, and resolvers and the parent's servers show its DS.
  abbrev pub ParentServes : Bool → Key → History → Type 0
  ParentServes true new past =
      Seen (Api.dnskey_rrsig_by zone.name new) past
      × Seen (Api.ds_evidence zone.name (new ∷ [])) past
      × Seen (Api.authoritative_ds_evidence zone.name (new ∷ [])) past
  ParentServes false new past = Unit {0}

  -- The keys of a split migration that must be visible: the new KSK, the live new ZSK, which signs, and
  -- the old key.
  pub record SplitRemains (new : Key) (shown : List Key) (past : History) : Type 0 where
    pub new_zsk : Key
    pub found : by_id keys w.new_zsk_id ≡ some new_zsk
    pub live : is_live new_zsk ≡ true
    pub signs : Seen (Api.rrsig_by zone.name new_zsk) past
    pub whole : shown ≡ new ∷ new_zsk ∷ to_list (by_id keys w.old_key_id)

  -- By kind: a split migration, a ZSK rotation, or another. A KSK or ZSK rotation wants the keys of its
  -- retirement inventory visible.
  abbrev pub Remains : Bool → Bool → Key → List Key → List Key → History → Type 0
  Remains true zsk new listed shown past = SplitRemains new shown past
  Remains false true new listed shown past =
      Seen (Api.rrsig_by zone.name new) past × (shown ≡ listed)
  Remains false false new listed shown past = shown ≡ listed

  -- The keys that a KSK or ZSK rotation wants visible; another kind has none here.
  abbrev pub Lists : Bool → List Key → Type 0
  Lists true listed = retirement_inventory c.dns zone.name keys w ≡ ok listed
  Lists false listed = listed ≡ []

  -- The old key may go: it no longer signs, the new one is live, and the keys that remain are seen on every
  -- path.
  pub record Retired (id : ℕ) (past : History) : Type 0 where
    pub old : Key
    pub old_found : by_id keys w.old_key_id ≡ some old
    pub same : id ≡ old.id
    pub inactive : old.active ≡ false
    pub new : Key
    pub new_found : by_id keys w.new_key_id ≡ some new
    pub live : is_live new ≡ true
    pub listed : List Key
    pub listing : Lists (is_zsk w.kind || is_ksk w.kind) listed
    pub parent_serves : ParentServes (is_ksk w.kind || is_split w.kind) new past
    pub shown : List Key
    pub remains : Remains (is_split w.kind) (is_zsk w.kind) new listed shown past
    pub visible : Seen (Api.dnskey_evidence zone.name shown) past

  -- The slot of the workflow that a creation fills: its attempt is on disk.
  pub record Created (past : History) : Type 0 where
    pub zsk_slot : Bool
    pub intended : Intended c w (λ x. attempted_at x zsk_slot) past

  -- What a call wants. An activation and a harmless call want nothing of the past.
  abbrev pub Allowed : Call → History → Type 0
  Allowed (Call.delete_key id key) past = (id ≡ zone.id) × Retired key past
  Allowed (Call.set_key id key true published) past = id ≡ zone.id
  Allowed (Call.set_key id key false published) past = (id ≡ zone.id) × Switched key past
  Allowed (Call.update_dnssec name material ctid) past =
      (name ≡ zone.name) × (ctid ≡ w.registrar_ctid) × Delegated material past
  Allowed (Call.create_key id typ algorithm active) past = (id ≡ zone.id) × Created past
  Allowed _ past = Unit {0}

  -- Every call since the start was allowed when it was made.
  abbrev pub IsSafe : History → History → Type 0
  IsSafe start = Made Allowed start
